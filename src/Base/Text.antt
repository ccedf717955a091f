-- ===== src/Base/Text.antt =====
-- C strings: the bytes before the terminator.
use Prim.Native.Char.{code}
use Prim.Native.String.{String}
use pcmm_policy_server.Base.{ℕ, Bool, true, false, ◌&&◌, List, [], ◌∷◌, ◌==◌, ◌≡◌, refl, arith, ◌≢◌}

abbrev pub Str : Type 0
Str = List ℕ

-- The bytes of an ASCII literal.
abbrev pub str : String → Str
str String.[] = []
str (String.◌∷◌ c s) = code c ∷ str s

-- `strcmp(s, t) == 0`
unfoldable pub matches : Str → Str → Bool
matches [] [] = true
matches [] (d ∷ t) = false
matches (c ∷ s) [] = false
matches (c ∷ s) (d ∷ t) = c == d && matches s t

pub matches_self : (s : Str) → matches s s ≡ true
unfolding matches
matches_self [] = refl
matches_self (c ∷ s) = ground (arith, matches_self s)

pub eq_of_matches : (s t : Str) → matches s t ≡ true → s ≡ t
unfolding matches
eq_of_matches [] [] h = refl
eq_of_matches [] (d ∷ t) h = ground arith
eq_of_matches (c ∷ s) [] h = ground arith
eq_of_matches (c ∷ s) (d ∷ t) h = ground (arith, eq_of_matches s t)

pub matches-ne : (s t : Str) → s ≢ t → matches s t ≡ false
matches-ne s t h = ground (arith, eq_of_matches s t)
