-- ===== src/Api/Gates/Sized.antt =====
-- Texts between two lengths, and printed numbers.
use pcmm_policy_server.Base.{
  ℕ, zero, suc, ◌+◌, ◌/◌, ◌%◌, ◌≤◌, ◌≡◌, true, [], ◌∷◌, ◌++◌, arith, ltb, length, length-append,
  inl, inr, Bool-cases,
}
use pcmm_policy_server.Base.Text.{Str}
use pcmm_policy_server.Session.Report.Text.{print_decimal}
use pcmm_policy_server.Api.Gates.Answer.{IsText, IsText-append}
use pcmm_policy_server.Api.Responses.{is_text, is_text_lem}

-- A text with at least `low` and at most `high` bytes.
pub record Sized (low high : ℕ) (s : Str) : Type 0 where
  pub text : IsText s
  pub above : low ≤ length s
  pub below : length s ≤ high

pub Sized-append :
    {a b c d : ℕ} {s t : Str} → Sized a b s → Sized c d t → Sized (a + c) (b + d) (s ++ t)
Sized-append {s = s} {t = t} h k = record {
  text = IsText-append s t h.text k.text;
  above = omega (arith, h.above, k.above, length-append s t);
  below = omega (arith, h.below, k.below, length-append s t);
}

pub literal : (s : Str) → is_text s ≡ true → Sized (length s) (length s) s
literal s h = record { text = is_text_lem s h; above = omega arith; below = omega arith }

pub print_decimal-Sized : (digits n : ℕ) → Sized 1 (suc digits) (print_decimal (suc digits) n)
unfolding print_decimal
print_decimal-Sized zero n = elim (Bool-cases (ltb n 10)) [
  | inl small ↦
      rw small
        (record { text = (omega arith, record {}); above = omega arith; below = omega arith })
  | inr large ↦
      rw large
        (record { text = (omega arith, record {}); above = omega arith; below = omega arith })
]
print_decimal-Sized (suc digits) n = elim (Bool-cases (ltb n 10)) [
  | inl small ↦
      rw small
        (record { text = (omega arith, record {}); above = omega arith; below = omega arith })
  | inr large ↦
      let front = print_decimal-Sized digits (n / 10) in
      let last : Sized 0 1 ((b'0' + n % 10) ∷ []) = record {
        text = (omega arith, record {});
        above = omega arith;
        below = omega arith;
      } in
      let both = Sized-append front last in
      rw large (record {
        text = both.text;
        above = omega (arith, both.above);
        below = omega (arith, both.below);
      })
]
