-- ===== src/Base/Fault.antt =====
-- Chains of steps any of which may be a fault.
use mathlib.Core.Option.{none-ne-some, some-injective}
use pcmm_policy_server.Base.{
  Option, none, some, ◌≡◌, refl, sym, ◌∙◌, arith, Bool, true, false, Mem, Writer, ◌>>◌,
  if◌then◌else◌,
}

infixl 5 ◌>>=◌
abbrev pub ◌>>=◌ {ℓ κ} : {A : Type ℓ} {B : Type κ} → Option A → (A → Option B) → Option B
none >>= f = none
some a >>= f = f a

-- A step on a buffer and what follows it, as writers.
pub then_bind : (w w' : Writer) (m : Mem) → (w m >>= w') ≡ (w >> w') m
then_bind w w' m = ground arith

pub bind_assoc {ℓ κ μ} :
    {A : Type ℓ} {B : Type κ} {C : Type μ} (m : Option A) (f : A → Option B) (g : B → Option C)
    → ((m >>= f) >>= g) ≡ (m >>= λ a. f a >>= g)
bind_assoc none f g = refl
bind_assoc (some a) f g = refl

-- A step that is followed by a fault whatever it yields.
pub bind_none {ℓ κ} :
    {A : Type ℓ} {B : Type κ} (m : Option A) (f : A → Option B)
    → ((a : A) → f a ≡ none)
    → (m >>= f) ≡ none
bind_none none f h = refl
bind_none (some a) f h = h a

-- A chain that ends with a result has one at its first step.
pub bind-some {ℓ κ} :
    {A : Type ℓ} {B : Type κ} (m : Option A) (f : A → Option B) (b : B)
    → (m >>= f) ≡ some b
    → (a : A) × (m ≡ some a) × (f a ≡ some b)
bind-some none f b h = absurd (none-ne-some b h)
bind-some (some a) f b h = (a, refl, h)

-- A test that guards a result holds.
pub guard-some {ℓ} :
    {A : Type ℓ} (test : Bool) (a b : A)
    → (if test then some a else none) ≡ some b
    → (test ≡ true) × (a ≡ b)
guard-some true a b h = (refl, some-injective a b h)
guard-some false a b h = absurd (none-ne-some b h)

-- A step on a buffer that succeeds, and what follows it.
pub then-some : (w v : Writer) (m m' : Mem) → w m ≡ some m' → (w >> v) m ≡ v m'
then-some w v m m' e = sym (then_bind w v m) ∙ rw e refl
