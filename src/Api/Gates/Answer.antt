-- ===== src/Api/Gates/Answer.antt =====
-- The wait for the response file, and the reply that src/api/routes.c makes of it.
use pcmm_policy_server.Base.{
  ℕ, zero, suc, ◌-◌, length-drop, append-nil, ◌⊎◌, inl, inr, ◌+◌, ◌≤◌, ◌<◌, ◌≡◌, ◌≢◌, refl, sym, ap,
  ◌∙◌, Bool, true, false, none, some, List, [], ◌∷◌, ◌++◌, arith, ne→==, le→leb, lt→leb, length,
  length-append, length-replicate, take, drop, replicate, Mem, fill, fill-fits, fill-none,
  append_assoc,
}
use native.Mathlib.Decide.{dec_lt}
use pcmm_policy_server.Base.Fault.{◌>>=◌}
use pcmm_policy_server.Base.Text.{Str}
use pcmm_policy_server.Api.{json_err, json_frommsg}
use pcmm_policy_server.Api.Gates.{
  etimeout, Poll, no_file, no_line, line, gctl_async_get_decision, c_string, attach, World, answer,
  wait_answer,
}

-- A text has no terminator inside.
abbrev pub IsText : Str → Type 0
IsText [] = Unit
IsText (c ∷ s) = (c ≢ 0) × IsText s

-- Turns that find no line: no file (`true`) or an empty one.
abbrev pub quiet : List Bool → List Poll
quiet [] = []
quiet (true ∷ bs) = no_file ∷ quiet bs
quiet (false ∷ bs) = no_line ∷ quiet bs

decision-quiet :
    (bs : List Bool) (polls : List Poll) (dst : Mem)
    → gctl_async_get_decision (quiet bs ++ polls) dst ≡ gctl_async_get_decision polls dst
unfolding gctl_async_get_decision
decision-quiet [] polls dst = refl
decision-quiet (true ∷ bs) polls dst = decision-quiet bs polls dst
decision-quiet (false ∷ bs) polls dst = decision-quiet bs polls dst

pub c_string_lem : (s rest : Mem) → IsText s → c_string (s ++ (0 ∷ rest)) ≡ some s
unfolding c_string
c_string_lem [] rest h = refl
c_string_lem (c ∷ s) rest (nonzero, h) = rw (ne→== c 0 nonzero, c_string_lem s rest h) refl

pub IsText-append : (s t : Str) → IsText s → IsText t → IsText (s ++ t)
IsText-append [] t h k = k
IsText-append (c ∷ s) t (nonzero, h) k = (nonzero, IsText-append s t h k)

pub take_all : (n : ℕ) (s : Str) → length s ≤ n → take n s ≡ s
take_all zero [] h = refl
take_all zero (c ∷ s) h = absurd (omega arith)
take_all (suc n) [] h = refl
take_all (suc n) (c ∷ s) h = ap (λ t. c ∷ t) (take_all n s (omega arith))

at_least : (s : Str) (n : ℕ) → (n ≤ length (take n s)) ⊎ (length s ≤ length (take n s))
at_least s zero = inl (omega arith)
at_least [] (suc n) = inr (omega arith)
at_least (c ∷ s) (suc n) = elim (at_least s n) [
  | inl h ↦ inl (omega arith)
  | inr h ↦ inr (omega arith)
]

-- A text with its terminator, in a buffer with room for both.
pub print_text :
    (s : Str) (m : Mem)
    → length s < length m
    → fill (s ++ (0 ∷ [])) m ≡ some (s ++ (0 ∷ drop (length s + 1) m))
print_text s m h =
    fill-fits (s ++ (0 ∷ [])) m (omega (arith, length-append s (0 ∷ [])))
    ∙ rw (append_assoc, length-append s (0 ∷ [])) refl

pub take_past :
    (xs ys : Mem) (n : ℕ) → length xs ≤ n → take n (xs ++ ys) ≡ xs ++ take (n - length xs) ys
take_past [] ys n h = ap (λ k. take k ys) (omega arith)
take_past (x ∷ xs) ys zero h = absurd (omega arith)
take_past (x ∷ xs) ys (suc n) h =
    ap (λ t. x ∷ t) (take_past xs ys n (omega arith) ∙ ap (λ k. xs ++ take k ys) (omega arith))

-- The array that the metrics are printed to, and how many bytes it has.
printed :
    (n : ℕ) (metrics : Str)
    → length metrics < n
    → (rest : Mem) × (fill (metrics ++ (0 ∷ [])) (replicate n 0) ≡ some (metrics ++ (0 ∷ rest)))
      × (length (metrics ++ (0 ∷ rest)) ≡ n)
printed n metrics room = (
  drop (length metrics + 1) (replicate n 0),
  print_text metrics (replicate n 0) (omega (arith, length-replicate {A = ℕ} n 0)),
  omega (
    arith,
    length-append metrics (0 ∷ drop (length metrics + 1) (replicate n 0)),
    length-drop (length metrics + 1) (replicate {A = ℕ} n 0),
    length-replicate {A = ℕ} n 0,
  ),
)

-- A response and metrics without a terminator inside, the metrics shorter than 100 bytes, the
-- response of 100 bytes at least: the body is the response and then the metrics.
pub attach_lem :
    (s metrics : Str)
    → IsText s
    → IsText metrics
    → length metrics < 100
    → 100 ≤ length s
    → attach s metrics ≡ some (s ++ metrics)
unfolding attach
attach_lem s metrics text text' short long =
    let (rest, e, l) = printed (length s) metrics (omega arith) in
    let cut : take 100 (metrics ++ (0 ∷ rest)) ≡ metrics ++ (0 ∷ take (99 - length metrics) rest) =
      take_past metrics (0 ∷ rest) 100 (omega arith)
      ∙ ap (λ k. metrics ++ take k (0 ∷ rest)) {x = 100 - length metrics}
          {y = suc (99 - length metrics)} (omega arith) in
    rw (e, le→leb 100 (length (metrics ++ (0 ∷ rest))) (omega arith), cut)
      (ap c_string (sym (append_assoc s metrics (0 ∷ take (99 - length metrics) rest)))
        ∙ c_string_lem (s ++ metrics) _ (IsText-append s metrics text text'))

-- A response of fewer than 100 bytes: the metrics, or the copy of 100 bytes of them, leave their
-- array.
pub attach_short : (s metrics : Str) → length s < 100 → attach s metrics ≡ none
unfolding attach
attach_short s metrics short = elim (dec_lt (length metrics) (length s)) [
  | yes room ↦
      let (rest, e, l) = printed (length s) metrics room in
      rw (e, lt→leb 100 (length (metrics ++ (0 ∷ rest))) (omega arith)) refl
  | no none_left ↦
      rw
        (fill-none (metrics ++ (0 ∷ [])) (replicate (length s) 0)
          (omega (arith, length-append metrics (0 ∷ []), length-replicate {A = ℕ} (length s) 0)))
        refl
]

module _ (world : World) (size : ℕ) (bs : List Bool) where
  decided :
      (later : List Poll) (dst : Mem)
      → world.polls ≡ quiet bs ++ later
      → gctl_async_get_decision world.polls dst ≡ gctl_async_get_decision later dst
  decided later dst e =
      ap (λ polls. gctl_async_get_decision polls dst) e ∙ decision-quiet bs later dst

  -- The time is up and no line was found: the reply is error 110.
  pub wait_answer-quiet :
      8 ≤ size → world.polls ≡ quiet bs → wait_answer world size ≡ some (json_err etimeout)
  unfolding wait_answer answer
  wait_answer-quiet enough e =
      rw (decided [] (replicate size 0) (e ∙ sym (append-nil (quiet bs)))) (
        unfold gctl_async_get_decision in
        rw
          (fill-fits (replicate 8 0) (replicate size 0)
            (omega (arith, length-replicate {A = ℕ} size 0)))
          (unfold c_string in refl))

  -- After any number of turns without a line, a line of 1 to 399 bytes for which the response has
  -- room: the reply is made of this line.
  pub wait_answer-line :
      (s : Str) (later : List Poll)
      → world.polls ≡ quiet bs ++ (line s ∷ later)
      → IsText s
      → 0 < length s
      → length s ≤ 399
      → length s < size
      → wait_answer world size ≡ (attach s world.metrics >>= λ message. some (json_frommsg message))
  unfolding wait_answer answer gctl_async_get_decision
  wait_answer-line s later e text some_bytes fits room =
      rw
        (
          decided (line s ∷ later) (replicate size 0) e,
          take_all 399 s fits,
          print_text s (replicate size 0) (omega (arith, length-replicate {A = ℕ} size 0)),
          c_string_lem s (drop (length s + 1) (replicate size 0)) text,
          ne→== (length s) 0 (omega arith),
        )
        refl

  -- After any number of turns without a line, a line of 100 to 399 bytes for which the response has
  -- room, and metrics of fewer than 100 bytes: the reply is the line and then the metrics.
  pub wait_answer-message :
      (s : Str) (later : List Poll)
      → world.polls ≡ quiet bs ++ (line s ∷ later)
      → IsText s
      → IsText world.metrics
      → length world.metrics < 100
      → 100 ≤ length s
      → length s ≤ 399
      → length s < size
      → wait_answer world size ≡ some (json_frommsg (s ++ world.metrics))
  wait_answer-message s later e text text' short long fits room =
      wait_answer-line s later e text (omega arith) fits room
      ∙ rw (attach_lem s world.metrics text text' short long) refl

  -- The response of `size` bytes has no room for the line, of which 399 bytes may be read: the line
  -- is written past its end.
  pub wait_answer-overflow :
      (s : Str) (later : List Poll)
      → world.polls ≡ quiet bs ++ (line s ∷ later)
      → size ≤ length s
      → size ≤ 399
      → wait_answer world size ≡ none
  unfolding wait_answer gctl_async_get_decision
  wait_answer-overflow s later e long small =
      rw
        (
          decided (line s ∷ later) (replicate size 0) e,
          fill-none (take 399 s ++ (0 ∷ [])) (replicate size 0) (
              omega (
                arith,
                length-append (take 399 s) (0 ∷ []),
                length-replicate {A = ℕ} size 0,
                at_least s 399,
              )),
        )
        refl
