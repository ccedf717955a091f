-- ===== src/Base/Lists.antt =====
-- Lists measured and indexed by native numbers, under the library's names.
use Prim.Native.Nat.{ℕ, zero, suc, ◌+◌, ◌-◌, ◌≤◌, ◌<◌}
use mathlib.Core.Path.{◌≡◌, refl, ap, ◌∙◌}
use mathlib.Core.List.{List, [], ◌∷◌, ◌++◌}
use mathlib.Core.Option.{Option, none, some}
use native.Mathlib.Nat.{zero-add, suc-add}
use native.Mathlib.Omega.{arith}

module _ {ℓ} {A : Type ℓ} where
  abbrev pub length : List A → ℕ
  length [] = 0
  length (x ∷ xs) = suc (length xs)

  abbrev pub get_elem? : List A → ℕ → Option A
  get_elem? [] i = none
  get_elem? (x ∷ xs) zero = some x
  get_elem? (x ∷ xs) (suc i) = get_elem? xs i

  abbrev pub take : ℕ → List A → List A
  take zero xs = []
  take (suc n) [] = []
  take (suc n) (x ∷ xs) = x ∷ take n xs

  abbrev pub drop : ℕ → List A → List A
  drop zero xs = xs
  drop (suc n) [] = []
  drop (suc n) (x ∷ xs) = drop n xs

  abbrev pub replicate : ℕ → A → List A
  replicate zero a = []
  replicate (suc n) a = a ∷ replicate n a

module _ {ℓ} {A : Type ℓ} where
  pub length-append : (xs ys : List A) → length (xs ++ ys) ≡ length xs + length ys
  length-append [] ys = omega arith
  length-append (x ∷ xs) ys = omega (arith, length-append xs ys)

  pub length-replicate : (n : ℕ) (a : A) → length (replicate n a) ≡ n
  length-replicate zero a = refl
  length-replicate (suc n) a = ap suc (length-replicate n a)

  pub replicate-append : (n k : ℕ) (a : A) → replicate (n + k) a ≡ replicate n a ++ replicate k a
  replicate-append zero k a = rw zero-add refl
  replicate-append (suc n) k a = rw (suc-add, replicate-append n k a) refl

  pub length-drop : (n : ℕ) (xs : List A) → length (drop n xs) ≡ length xs - n
  length-drop zero xs = omega arith
  length-drop (suc n) [] = omega arith
  length-drop (suc n) (x ∷ xs) = omega (arith, length-drop n xs)

  pub length-take : (n : ℕ) (xs : List A) → n ≤ length xs → length (take n xs) ≡ n
  length-take zero xs h = refl
  length-take (suc n) [] h = absurd (omega arith)
  length-take (suc n) (x ∷ xs) h = ap suc (length-take n xs (omega arith))

  pub drop-append : (xs ys : List A) → drop (length xs) (xs ++ ys) ≡ ys
  drop-append [] ys = refl
  drop-append (x ∷ xs) ys = drop-append xs ys

  pub drop-append_add : (n : ℕ) (xs ys : List A) → drop (length xs + n) (xs ++ ys) ≡ drop n ys
  drop-append_add n [] ys = rw zero-add
  drop-append_add n (x ∷ xs) ys = rw (suc-add, drop-append_add n xs ys)

  pub drop-drop : (m n : ℕ) (xs : List A) → drop m (drop n xs) ≡ drop (n + m) xs
  drop-drop m zero xs = rw zero-add
  drop-drop zero (suc n) [] = rw suc-add
  drop-drop (suc m) (suc n) [] = rw suc-add
  drop-drop m (suc n) (x ∷ xs) = rw (suc-add, drop-drop m n xs)

  -- A prefix of at most `n` elements is dropped whole.
  pub drop_append_short :
      (n : ℕ) (xs ys : List A) → length xs ≤ n → drop n (xs ++ ys) ≡ drop (n - length xs) ys
  drop_append_short n [] ys h = ap (λ k. drop k ys) (omega arith)
  drop_append_short zero (x ∷ xs) ys h = absurd (omega arith)
  drop_append_short (suc n) (x ∷ xs) ys h =
      drop_append_short n xs ys (omega arith) ∙ ap (λ k. drop k ys) (omega arith)

  pub take-append : (xs ys : List A) → take (length xs) (xs ++ ys) ≡ xs
  take-append [] ys = refl
  take-append (x ∷ xs) ys = ap (λ t. x ∷ t) (take-append xs ys)

  pub take-all : (xs : List A) → take (length xs) xs ≡ xs
  take-all [] = refl
  take-all (x ∷ xs) = ap (λ t. x ∷ t) (take-all xs)

  pub get_elem?-drop :
      (xs : List A) (j : ℕ)
      → j < length xs
      → (b : A) × (get_elem? xs j ≡ some b) × (drop j xs ≡ b ∷ drop (j + 1) xs)
  get_elem?-drop [] j h = absurd (omega arith)
  get_elem?-drop (x ∷ xs) zero h = (x, refl, refl)
  get_elem?-drop (x ∷ xs) (suc j) h = rw suc-add (get_elem?-drop xs j (omega arith))

  pub get_elem?-none : (xs : List A) (i : ℕ) → length xs ≤ i → get_elem? xs i ≡ none
  get_elem?-none [] i h = refl
  get_elem?-none (x ∷ xs) zero h = absurd (omega arith)
  get_elem?-none (x ∷ xs) (suc i) h = get_elem?-none xs i (omega arith)

  pub get_elem?-append_add :
      (n : ℕ) (xs ys : List A) → get_elem? (xs ++ ys) (length xs + n) ≡ get_elem? ys n
  get_elem?-append_add n [] ys = rw zero-add
  get_elem?-append_add n (x ∷ xs) ys = rw (suc-add, get_elem?-append_add n xs ys)

  -- What stands at the front behind `i` elements is element `i`.
  pub get_elem?-of_drop :
      (xs : List A) (i : ℕ) (y : A) (ys : List A)
      → drop i xs ≡ y ∷ ys
      → (get_elem? xs i ≡ some y) × (drop (i + 1) xs ≡ ys)
  get_elem?-of_drop xs zero y ys e = (ap (λ t. get_elem? t 0) e, ap (λ t. drop 1 t) e)
  get_elem?-of_drop [] (suc i) y ys e = absurd (omega (arith, ap length e))
  get_elem?-of_drop (x ∷ xs) (suc i) y ys e = rw suc-add (get_elem?-of_drop xs i y ys e)
