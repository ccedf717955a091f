-- ===== src/Base/Bits.antt =====
-- `|` of fields that do not overlap is a sum.
use Prim.Native.Nat.{
  ℕ, zero, suc, ◌+◌, ◌-◌, ◌*◌, ◌/◌, ◌%◌, ◌^◌, ◌≤◌, ◌<◌, max, bit_or, digits, bit_or-bitwise,
}
use mathlib.Core.Path.{◌≡◌, refl, sym, ap, ◌∙◌}
use native.Mathlib.Omega.{arith}
use native.Mathlib.Nat.{pow-suc, suc-add}

-- At each place the larger digit; `n` places are looked at.
abbrev larger : ℕ → ℕ → ℕ → ℕ
larger n = digits (λ y. y) max n

larger_none : (n b : ℕ) → larger n 0 b ≡ b
larger_none zero b = refl
larger_none (suc n) b = refl

-- Places beyond those of the first number change nothing.
larger-add : (n k a b : ℕ) → a ≤ n → larger (n + k) a b ≡ larger n a b
larger-add n k zero b h = larger_none (n + k) b ∙ sym (larger_none n b)
larger-add zero k (suc a) b h = absurd (omega arith)
larger-add (suc n) k (suc a) b h =
    rw (suc-add, larger-add n k (suc a / 2) (b / 2) (omega arith)) refl

larger_half : (a b : ℕ) → larger a (suc a / 2) b ≡ bit_or (suc a / 2) b
larger_half a b =
    ap (λ n. larger n (suc a / 2) b) spare
    ∙ larger-add (suc a / 2) (a - suc a / 2) (suc a / 2) b (omega arith)
    ∙ sym (bit_or-bitwise (suc a / 2) b)
  where
    spare : a ≡ suc a / 2 + (a - suc a / 2)
    spare = omega arith

-- The lowest digit of `a | b`, and the others.
lowest_digit : (a b : ℕ) → bit_or a b ≡ max (a % 2) (b % 2) + 2 * bit_or (a / 2) (b / 2)
lowest_digit zero b = omega (arith, bit_or-bitwise 0 (b / 2), bit_or-bitwise 0 b)
lowest_digit (suc a) b = bit_or-bitwise (suc a) b ∙ omega (arith, larger_half a (b / 2))

larger-zero : (n a : ℕ) → a ≤ n → larger n a 0 ≡ a
larger-zero n zero h = larger_none n 0
larger-zero zero (suc a) h = absurd (omega arith)
larger-zero (suc n) (suc a) h = omega (larger-zero n (suc a / 2) (omega arith), arith)

pub bit_or-zero : (a : ℕ) → bit_or a 0 ≡ a
bit_or-zero a = bit_or-bitwise a 0 ∙ larger-zero a a (omega arith)

pub zero-bit_or : (b : ℕ) → bit_or 0 b ≡ b
zero-bit_or b = bit_or-bitwise 0 b

shifted_twice : (a k : ℕ) → a * 2 ^ suc k ≡ 2 * (a * 2 ^ k)
shifted_twice a k = omega (arith, ap (λ (t : ℕ). a * t) (pow-suc 2 k))

-- `a << k | b` for a `b` of at most `k` bits
pub bit_or-fields : (k a b : ℕ) → b < 2 ^ k → bit_or (a * 2 ^ k) b ≡ a * 2 ^ k + b
bit_or-fields zero a b h = ground (arith, bit_or-zero a)
bit_or-fields (suc k) a b h = ground (
  arith,
  lowest_digit (a * 2 ^ suc k) b,
  shifted_twice a k,
  bit_or-fields k a (b / 2) (omega (arith, pow-suc 2 k)),
)

-- `b | a << k` for a `b` of at most `k` bits
pub bit_or-low : (k a b : ℕ) → b < 2 ^ k → bit_or b (a * 2 ^ k) ≡ b + a * 2 ^ k
bit_or-low zero a b h = ground (arith, zero-bit_or (a * 1))
bit_or-low (suc k) a b h = ground (
  arith,
  lowest_digit b (a * 2 ^ suc k),
  shifted_twice a k,
  bit_or-low k a (b / 2) (omega (arith, pow-suc 2 k)),
)
