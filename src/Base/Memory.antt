-- ===== src/Base/Memory.antt =====
-- The bytes from a pointer to the end of its object, and code that writes through the pointer.
-- `none` is an access outside the object, which C leaves undefined.
use Prim.Native.Nat.{ℕ, zero, suc, ◌+◌, ◌≤◌, ◌<◌}
use mathlib.Core.Path.{◌≡◌, refl, sym, ap, ◌∙◌, fun_ext, ◌≡⟨◌⟩◌, ◌∎}
use mathlib.Core.Option.{Option, none, some}
use mathlib.Core.List.{List, [], ◌∷◌, ◌++◌, append-nil}
use native.Mathlib.Omega.{arith}
use native.Mathlib.Nat.{zero-add, suc-add}
use pcmm_policy_server.Base.Lists.{length, take, drop, length-drop}
use pcmm_policy_server.Base.Tests.{if◌then◌else◌, leb, le→leb}

abbrev pub Mem : Type 0
Mem = List ℕ

abbrev pub Writer : Type 0
Writer = Mem → Option Mem

-- One write after the other.
infixr 5 ◌>>◌
abbrev pub ◌>>◌ : Writer → Writer → Writer
◌>>◌ w w' m = elim (w m) [ none ↦ none | some m' ↦ w' m' ]

abbrev prepend : ℕ → Option Mem → Option Mem
prepend x none = none
prepend x (some m) = some (x ∷ m)

-- Copy bytes to the pointer.
unfoldable pub fill : List ℕ → Writer
fill [] m = some m
fill (b ∷ bs) [] = none
fill (b ∷ bs) (x ∷ m) = prepend b (fill bs m)

-- Write through `dst + n`.
unfoldable pub at : ℕ → Writer → Writer
at zero w m = w m
at (suc n) w [] = none
at (suc n) w (x ∷ m) = prepend x (at n w m)

-- What `w` does is to copy `bs` to `dst + k`.
pub record Stores (k : ℕ) (bs : List ℕ) (w : Writer) : Type 0 where
  pub runs : (m : Mem) → w m ≡ at k (fill bs) m

at-ext : (k : ℕ) (w w' : Writer) → ((m : Mem) → w m ≡ w' m) → (m : Mem) → at k w m ≡ at k w' m
unfolding at
at-ext zero w w' h m = h m
at-ext (suc k) w w' h [] = refl
at-ext (suc k) w w' h (x ∷ m) = ap (prepend x) (at-ext k w w' h m)

fill-append :
    (xs bs : List ℕ) (m : Mem) → (fill xs >> at (length xs) (fill bs)) m ≡ fill (xs ++ bs) m
unfolding fill at
fill-append [] bs m = refl
fill-append (y ∷ xs) bs [] = refl
fill-append (y ∷ xs) bs (x ∷ m) = ground (arith, fill-append xs bs m)

at-at : (i j : ℕ) (w : Writer) (m : Mem) → at i (at j w) m ≡ at (i + j) w m
unfolding at
at-at zero j w m = rw zero-add refl
at-at (suc i) j w [] = rw suc-add refl
at-at (suc i) j w (x ∷ m) = rw (suc-add, at-at i j w m) refl

at-seq : (k : ℕ) (w w' : Writer) (m : Mem) → at k (w >> w') m ≡ (at k w >> at k w') m
unfolding at
at-seq zero w w' m = refl
at-seq (suc k) w w' [] = refl
at-seq (suc k) w w' (x ∷ m) = ground (arith, at-seq k w w' m)

pub fill-fits : (bs m : List ℕ) → length bs ≤ length m → fill bs m ≡ some (bs ++ drop (length bs) m)
unfolding fill
fill-fits [] m h = refl
fill-fits (b ∷ bs) [] h = absurd (omega arith)
fill-fits (b ∷ bs) (x ∷ m) h = rw (fill-fits bs m (omega arith))

pub fill-none : (bs m : List ℕ) → length m < length bs → fill bs m ≡ none
unfolding fill
fill-none [] m h = absurd (omega arith)
fill-none (b ∷ bs) [] h = refl
fill-none (b ∷ bs) (x ∷ m) h = rw (fill-none bs m (omega arith))

-- `*dst = b` and `dst[i] = b`, for a byte `b`.
abbrev pub put : ℕ → Writer
put b = fill (b ∷ [])

abbrev pub poke : ℕ → ℕ → Writer
poke i b = at i (put b)

pub Stores-fill : (bs : List ℕ) → Stores 0 bs (fill bs)
Stores-fill bs = record { runs = λ m. unfold at in refl }

pub Stores-poke : (i b : ℕ) → Stores i (b ∷ []) (poke i b)
Stores-poke i b = record { runs = λ m. refl }

pub Stores-at :
    (k : ℕ) {j : ℕ} {bs : List ℕ} {w : Writer} → Stores j bs w → Stores (k + j) bs (at k w)
Stores-at k {j} {bs} {w} h = record {
  runs = λ m. at-ext k w (at j (fill bs)) h.runs m ∙ at-at k j (fill bs) m;
}

-- A write that begins where the one before it ended.
pub Stores-then :
    {k j : ℕ} {xs ys : List ℕ} {w w' : Writer}
    → Stores k xs w
    → Stores j ys w'
    → j ≡ k + length xs
    → Stores k (xs ++ ys) (w >> w')
Stores-then {k} {j} {xs} {ys} {w} {w'} h h' e = record {
  runs = λ m.
      (w >> w') m
      ≡⟨ both m ⟩ (at k (fill xs) >> at j (fill ys)) m
      ≡⟨ rw e (then_at m) ⟩ (at k (fill xs) >> at k (at (length xs) (fill ys))) m
      ≡⟨ sym (at-seq k (fill xs) (at (length xs) (fill ys)) m) ⟩
        at k (fill xs >> at (length xs) (fill ys)) m
      ≡⟨ at-ext k _ _ (fill-append xs ys) m ⟩ at k (fill (xs ++ ys)) m ∎;
}
  where
    both : (m : Mem) → (w >> w') m ≡ (at k (fill xs) >> at j (fill ys)) m
    both m = rw (fun_ext h.runs, fun_ext h'.runs)

    then_at :
        (m : Mem)
        → (at k (fill xs) >> at (k + length xs) (fill ys)) m
          ≡ (at k (fill xs) >> at k (at (length xs) (fill ys))) m
    then_at m = rw (fun_ext (at-at k (length xs) (fill ys)))

pub at-append :
    (front rest : Mem) (w : Writer) (out : Mem)
    → w rest ≡ some out
    → at (length front) w (front ++ rest) ≡ some (front ++ out)
unfolding at
at-append [] rest w out h = h
at-append (x ∷ front) rest w out h = rw (at-append front rest w out h)

fill-over : (bs old rest : Mem) → length old ≡ length bs → fill bs (old ++ rest) ≡ some (bs ++ rest)
unfolding fill
fill-over [] [] rest e = refl
fill-over [] (x ∷ old) rest e = absurd (omega arith)
fill-over (b ∷ bs) [] rest e = absurd (omega arith)
fill-over (b ∷ bs) (x ∷ old) rest e = rw (fill-over bs old rest (omega arith))

-- With room for the bytes the write succeeds, and changes nothing around them.
pub Stores-fits :
    {k : ℕ} {bs : List ℕ} {w : Writer}
    → Stores k bs w
    → (front old rest : Mem) → length front ≡ k
    → length old ≡ length bs
    → w (front ++ (old ++ rest)) ≡ some (front ++ (bs ++ rest))
Stores-fits {k} {bs} h front old rest e e' =
    h.runs _ ∙ rw (← e) (at-append front _ (fill bs) _ (fill-over bs old rest e'))

-- A buffer of just the size is overwritten whole.
pub Stores-whole :
    {bs : List ℕ} {w : Writer} → Stores 0 bs w → (m : Mem) → length m ≡ length bs → w m ≡ some bs
Stores-whole {bs} {w} h m e = rw (append-nil m, append-nil bs) at (Stores-fits h [] m [] refl e)

pub at-none : (k : ℕ) (w : Writer) (m : Mem) → w (drop k m) ≡ none → at k w m ≡ none
unfolding at
at-none zero w m h = h
at-none (suc k) w [] h = refl
at-none (suc k) w (x ∷ m) h = rw (at-none k w m h)

-- Without it the write leaves the object.
pub Stores-none :
    {k : ℕ} {bs : List ℕ} {w : Writer}
    → Stores k bs w
    → (m : Mem) → length m < k + length bs
    → 0 < length bs
    → w m ≡ none
Stores-none {k} {bs} h m short some_bytes =
    h.runs m ∙ at-none k (fill bs) m (fill-none bs (drop k m) (omega (arith, length-drop k m)))

-- `memcpy(dst, src, n)`; a source of fewer bytes is read past its end.
abbrev pub memcpy : Mem → ℕ → Writer
memcpy src n m = if leb n (length src) then fill (take n src) m else none

pub Stores-memcpy : (src : Mem) (n : ℕ) → n ≤ length src → Stores 0 (take n src) (memcpy src n)
unfolding at
Stores-memcpy src n h = record { runs = λ m. rw (le→leb n (length src) h) }

-- A part of the program that writes nothing.
abbrev pub done : Writer
done m = some m

-- The chain of `Stores-then`, for writes at numerals.
infixr 5 ◌⨟◌
pub ◌⨟◌ :
    {k : ℕ} {xs ys : List ℕ} {w w' : Writer}
    → Stores k xs w
    → Stores (k + length xs) ys w'
    → Stores k (xs ++ ys) (w >> w')
h ⨟ h' = Stores-then h h' refl

pub Stores-then_done : {k : ℕ} {xs : List ℕ} {w : Writer} → Stores k xs w → Stores k xs (w >> done)
Stores-then_done {w} h = record { runs = λ m. ends m ∙ h.runs m }
  where
    ends : (m : Mem) → (w >> done) m ≡ w m
    ends m = ground arith

-- `w` stores `xs` at `k` and goes on as `v`.
pub record Begins (k : ℕ) (xs : List ℕ) (w v : Writer) : Type 0 where
  pub goes_on : (m : Mem) → w m ≡ (at k (fill xs) >> v) m

pub Begins-last :
    {k : ℕ} {xs : List ℕ} {w : Writer} (v : Writer) → Stores k xs w → Begins k xs (w >> v) v
Begins-last v h = record { goes_on = λ m. rw (fun_ext h.runs) }

then_assoc : (w v u : Writer) (m : Mem) → ((w >> v) >> u) m ≡ (w >> (v >> u)) m
then_assoc w v u m = ground arith

infixr 5 ◌⨟…◌
pub ◌⨟…◌ :
    {k : ℕ} {xs ys : List ℕ} {w v u : Writer}
    → Stores k xs w
    → Begins (k + length xs) ys v u
    → Begins k (xs ++ ys) (w >> v) u
◌⨟…◌ {k} {xs} {ys} {w} {v} {u} h b = record {
  goes_on = λ m.
      (w >> v) m
      ≡⟨ first m ⟩ (w >> (at (k + length xs) (fill ys) >> u)) m
      ≡⟨ sym (then_assoc w (at (k + length xs) (fill ys)) u m) ⟩
        ((w >> at (k + length xs) (fill ys)) >> u) m
      ≡⟨ second m ⟩ (at k (fill (xs ++ ys)) >> u) m ∎;
}
  where
    first : (m : Mem) → (w >> v) m ≡ (w >> (at (k + length xs) (fill ys) >> u)) m
    first m = rw (fun_ext b.goes_on)

    both : Stores k (xs ++ ys) (w >> at (k + length xs) (fill ys))
    both = Stores-then h (record { runs = λ m. refl }) refl

    second :
        (m : Mem) → ((w >> at (k + length xs) (fill ys)) >> u) m ≡ (at k (fill (xs ++ ys)) >> u) m
    second m = rw (fun_ext both.runs)
