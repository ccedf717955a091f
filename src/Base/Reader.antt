-- ===== src/Base/Reader.antt =====
-- Code that reads an object through an index which it moves on: `f(buf, &idx)`.
use pcmm_policy_server.Base.{ℕ, Mem, Option, none, some}

abbrev pub Reader : Type 0 → Type 0
Reader A = Mem → ℕ → Option (A × ℕ)

abbrev pub ret : {A : Type 0} → A → Reader A
ret a src ptr = some (a, ptr)

-- What was read goes to the rest of the code, with the index.
abbrev pub feed : {A B : Type 0} → Option (A × ℕ) → (A → Reader B) → Mem → Option (B × ℕ)
feed none f src = none
feed (some (a, ptr)) f src = f a src ptr

infixl 5 ◌>>=◌
abbrev pub ◌>>=◌ : {A B : Type 0} → Reader A → (A → Reader B) → Reader B
◌>>=◌ r f src ptr = feed (r src ptr) f src
