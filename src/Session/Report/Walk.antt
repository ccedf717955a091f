-- ===== src/Session/Report/Walk.antt =====
-- The loop of `ps_pcmm_report` in src/ps.c over well-formed objects, and over an object of length 0.
use pcmm_policy_server.Base.{
  ℕ, zero, suc, ◌+◌, ◌^◌, ◌≤◌, ◌<◌, ◌≡◌, refl, Option-cases, inl, inr, sym, ap, ◌∙◌, false, Option,
  some, List, [], ◌∷◌, ◌++◌, append_assoc, arith, length, length-append, drop-append,
  drop-append_add, get_elem?-append_add, Mem, u16,
}
use mathlib.Core.Option.{some-injective, none-ne-some}
use pcmm_policy_server.Base.Fault.{◌>>=◌}
use pcmm_policy_server.Pack.{unpack_u8_it, unpack_u16_it}
use pcmm_policy_server.Pack.Words.{be16, unpack_u16-be16}
use pcmm_policy_server.Session.Report.{
  Seen, see_object, next_object, walk, unknown_object, past_object, ended, unfinished,
}

-- An object as the protocol has it: numbers and contents.
pub record Item : Type 0 where
  pub major : ℕ
  pub minor : ℕ
  pub body : List ℕ

abbrev pub encode : Item → List ℕ
encode o = be16 (4 + length o.body) ++ (o.major ∷ o.minor ∷ o.body)

abbrev pub encode_all : List Item → List ℕ
encode_all [] = []
encode_all (o ∷ os) = encode o ++ encode_all os

abbrev pub IsKnown : Item → Type 0
IsKnown o = (unknown_object o.major o.minor ≡ false) × (4 + length o.body < 2 ^ 16)

abbrev pub AllKnown : List Item → Type 0
AllKnown [] = Unit
AllKnown (o ∷ os) = IsKnown o × AllKnown os

-- An object whose length field is 0, where its numbers are known and its contents can be read.
abbrev pub IsEmptyItem : Mem → Type 0
IsEmptyItem report =
    (major minor : ℕ) × (rest : Mem) × (report ≡ 0 ∷ 0 ∷ major ∷ minor ∷ rest)
    × (unknown_object major minor ≡ false)
    × ((seen : Seen) → (seen' : Seen) × (see_object major minor rest seen ≡ some seen'))

-- The objects taken one after the other, each with the bytes that follow it in the buffer.
abbrev pub see_all : List Item → Mem → Seen → Option Seen
see_all [] tail seen = some seen
see_all (o ∷ os) tail seen =
    see_object o.major o.minor (o.body ++ (encode_all os ++ tail)) seen >>= see_all os tail

add_add : (n a b : ℕ) → n + a + b ≡ n + (a + b)
add_add n a b = omega arith

next_object-encode :
    (o : Item) (front rest : Mem) (seen : Seen)
    → IsKnown o
    → length front + length (encode o) < 2 ^ 64
    → next_object (front ++ (encode o ++ rest)) seen (length front) ≡ (
        see_object o.major o.minor (o.body ++ rest) seen >>= λ seen'.
        some (seen', length front + length (encode o)))
unfolding next_object unpack_u16_it unpack_u8_it
next_object-encode o front rest seen (known, short) fits =
    rw
      (
        drop-append front (encode o ++ rest),
        unpack_u16-be16 (4 + length o.body) (o.major ∷ o.minor ∷ (o.body ++ rest)),
        get_elem?-append_add 2 front (encode o ++ rest),
        add_add (length front) 2 1,
        get_elem?-append_add 3 front (encode o ++ rest),
        add_add (length front) 3 1,
        drop-append_add 4 front (encode o ++ rest),
        known,
      )
      (ap (λ i. see_object o.major o.minor (o.body ++ rest) seen >>= λ seen'. some (seen', i))
        moved)
  where
    moved :
        past_object (length front + 4) (u16 (4 + length o.body)) ≡ length front + length (encode o)
    moved = omega arith

walk-stop :
    (fuel : ℕ) (report : Mem) (end_idx : ℕ) (seen : Seen) (i : ℕ)
    → end_idx ≤ i
    → walk fuel report end_idx seen i ≡ ended seen
unfolding walk
walk-stop zero report end_idx seen i h = ground arith
walk-stop (suc fuel) report end_idx seen i h = ground arith

walk-go :
    (fuel : ℕ) (report : Mem) (end_idx : ℕ) (seen seen' : Seen) (i i' : ℕ)
    → i < end_idx
    → next_object report seen i ≡ some (seen', i')
    → walk (suc fuel) report end_idx seen i ≡ walk fuel report end_idx seen' i'
unfolding walk
walk-go fuel report end_idx seen seen' i i' h e = ground arith

pub walk_same :
    (fuel : ℕ) (seen : Seen) (r r' : Mem) (end_idx end_idx' i i' : ℕ)
    → r ≡ r'
    → end_idx ≡ end_idx'
    → i ≡ i'
    → walk fuel r end_idx seen i ≡ walk fuel r' end_idx' seen i'
walk_same fuel seen r r' end_idx end_idx' i i' er ee ei = cc

-- Over objects with known numbers, right lengths and contents that can be read, within 2 ^ 64 bytes,
-- the loop ends, with a turn of fuel for each, and has taken each object
-- once, in order, as the list of objects says: the index arithmetic of the code skips nothing and
-- reads nothing twice.
pub walk-encode_all :
    (os : List Item) (fuel : ℕ) (front tail : Mem) (seen out : Seen)
    → AllKnown os
    → length os ≤ fuel
    → length front + length (encode_all os) < 2 ^ 64
    → see_all os tail seen ≡ some out
    → walk fuel
        (front ++ (encode_all os ++ tail))
        (length front + length (encode_all os))
        seen
        (length front)
      ≡ ended out
walk-encode_all [] fuel front tail seen out known enough fits e =
    walk-stop fuel _ _ seen (length front) (omega arith) ∙ ap ended (some-injective seen out e)
walk-encode_all (o ∷ os) zero front tail seen out known enough fits e = absurd (omega arith)
walk-encode_all (o ∷ os) (suc fuel) front tail seen out (known, knowns) enough fits e =
    elim (Option-cases (see_object o.major o.minor (o.body ++ (encode_all os ++ tail)) seen)) [
      | inl none_of ↦ absurd (none-ne-some out (sym (ap (λ m. m >>= see_all os tail) none_of) ∙ e))
      | inr (seen', some_of) ↦
          walk_same (suc fuel) seen _ _ _ _ _ _
            (ap (λ t. front ++ t) (append_assoc (encode o) (encode_all os) tail)) refl refl
          ∙ walk-go fuel _ _ seen seen' _ _ (omega arith) (
              next_object-encode o front (encode_all os ++ tail) seen known (omega (arith, lengths))
              ∙ ap (λ m. m >>= λ s. some (s, length front + length (encode o))) some_of)
          ∙ walk_same fuel seen' _ _ _ _ _ _
              (sym (append_assoc front (encode o) (encode_all os ++ tail)))
              (omega (arith, lengths, length-append front (encode o)))
              (sym (length-append front (encode o)))
          ∙ walk-encode_all os fuel (front ++ encode o) tail seen' out knowns (omega arith)
              (omega (arith, lengths, length-append front (encode o)))
              (sym (ap (λ m. m >>= see_all os tail) some_of) ∙ e)
    ]
  where
    lengths : length (encode o ++ encode_all os) ≡ length (encode o) + length (encode_all os)
    lengths = length-append (encode o) (encode_all os)

-- An object with known numbers and contents that can be read whose length field is 0 sends the index back to where it was: the loop runs for ever,
-- whatever the fuel.
pub walk_unfinished :
    (report : Mem) (fuel end_idx : ℕ) (seen : Seen)
    → IsEmptyItem report
    → 0 < end_idx
    → walk fuel report end_idx seen 0 ≡ unfinished
walk_unfinished report zero end_idx seen empty h = unfold walk in ground arith
walk_unfinished report (suc fuel) end_idx seen (major, minor, rest, same, known, sees) h =
    let (seen', e) = sees seen in
    walk-go fuel report end_idx seen seen' 0 0 h
      (ap (λ r. next_object r seen 0) same ∙ back seen' e)
    ∙ walk_unfinished report fuel end_idx seen' (major, minor, rest, same, known, sees) h
  where
    back :
        (seen' : Seen)
        → see_object major minor rest seen ≡ some seen'
        → next_object (0 ∷ 0 ∷ major ∷ minor ∷ rest) seen 0 ≡ some (seen', 0)
    back seen' e =
        unfold next_object unpack_u16_it unpack_u8_it in
        rw (unpack_u16-be16 0 (major ∷ minor ∷ rest), known, e) refl
