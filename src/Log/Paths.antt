-- ===== src/Log/Paths.antt =====
-- The name of a thread's log in src/lib/log.c.
use mathlib.Core.Option.{none-ne-some, some-injective}
use native.Mathlib.Decide.{dec_lt}
use pcmm_policy_server.Base.{
  ℕ, zero, suc, ◌+◌, ◌-◌, ◌≤◌, ◌≡◌, ◌≢◌, refl, sym, ap, ◌∙◌, none, some, [], ◌∷◌, ◌++◌,
  append_assoc, arith, le→leb, length, length-append, length-replicate, length-take, length-drop,
  take, take-append, drop, replicate, Mem, fill, fill-fits, fill-none, memcpy,
}
use pcmm_policy_server.Base.Fault.{◌>>=◌}
use pcmm_policy_server.Base.Text.{Str, str}
use pcmm_policy_server.Api.Gates.{c_string}
use pcmm_policy_server.Api.Gates.Answer.{
  take_all, take_past, IsText, c_string_lem, IsText-append, print_text,
}
use pcmm_policy_server.Api.Responses.{is_text, is_text_lem}
use pcmm_policy_server.Log.{
  pthread_specific_iptof, log_path, snprintf, ThreadLog, pthread_logspecific,
}

-- No `_` in the text.
abbrev pub IsDotted : Str → Type 0
IsDotted [] = Unit
IsDotted (c ∷ s) = (c ≢ 95) × IsDotted s

abbrev pub file_name : Str → Str
file_name ip = pthread_specific_iptof ip 46 95

length-file_name : (ip : Str) → length (file_name ip) ≡ length ip
unfolding pthread_specific_iptof
length-file_name [] = refl
length-file_name (c ∷ ip) = omega (arith, length-file_name ip)

IsText-file_name : (ip : Str) → IsText ip → IsText (file_name ip)
unfolding pthread_specific_iptof
IsText-file_name [] h = h
IsText-file_name (c ∷ ip) (nonzero, h) = (ground arith, IsText-file_name ip h)

-- Texts without `_` have names of their own.
file_name-injective : (s t : Str) → IsDotted s → IsDotted t → file_name s ≡ file_name t → s ≡ t
unfolding pthread_specific_iptof
file_name-injective [] [] hs ht e = refl
file_name-injective [] (d ∷ t) hs ht e = ground arith
file_name-injective (c ∷ s) [] hs ht e = ground arith
file_name-injective (c ∷ s) (d ∷ t) (hc, hs) (hd, ht) e =
    ground (arith, file_name-injective s t hs ht)

length-log_path : (ip : Str) → length (log_path (file_name ip)) ≡ length ip + 9
length-log_path ip = omega (arith, length-append (file_name ip) (str ".log"), length-file_name ip)

module _ (level : ℕ) (ip : Str) (behind garbage : Mem) (text : IsText ip)
    (tail : length garbage ≡ 10) where
  copied_name :
      memcpy (ip ++ (0 ∷ behind)) (length ip + 1) (replicate (length ip + 1) 0)
      ≡ some (ip ++ (0 ∷ []))
  copied_name =
      rw
        (
          le→leb (length ip + 1) (length (ip ++ (0 ∷ behind)))
              (omega (arith, length-append ip (0 ∷ behind))),
          take_past ip (0 ∷ behind) (length ip + 1) (omega arith),
        )
        (ap (λ k. fill (ip ++ take k (0 ∷ behind)) (replicate (length ip + 1) 0)) one
          ∙ print_text ip (replicate (length ip + 1) 0)
              (omega (arith, length-replicate {A = ℕ} (length ip + 1) 0))
          ∙ ap (λ m. some (ip ++ (0 ∷ m))) (drop-exact (length ip + 1)))
    where
      one : length ip + 1 - length ip ≡ 1
      one = omega arith

      drop-exact : (n : ℕ) → drop {A = ℕ} n (replicate n 0) ≡ []
      drop-exact zero = refl
      drop-exact (suc n) = drop-exact n

  abbrev room : Mem
  room = replicate (length ip + 1) 0 ++ take 10 garbage

  length-room : length room ≡ length ip + 11
  length-room = omega (
    arith,
    length-append (replicate (length ip + 1) 0) (take 10 garbage),
    length-replicate {A = ℕ} (length ip + 1) 0,
    length-take 10 garbage,
  )

  abbrev printed : Mem
  printed = log_path (file_name ip) ++ (0 ∷ drop (length ip + 10) room)

  printed_path : snprintf (log_path (file_name ip)) (length ip + 1 + 10) room ≡ some printed
  printed_path =
      let l = length-log_path ip in
      ap (λ s. fill (s ++ (0 ∷ [])) room)
        (take_all (length ip + 1 + 10 - 1) (log_path (file_name ip)) (omega (arith, l)))
      ∙ print_text (log_path (file_name ip)) room (omega (arith, l, length-room))
      ∙ ap (λ k. some (log_path (file_name ip) ++ (0 ∷ drop k room))) (omega (arith, l))

  length-printed : length printed ≡ length ip + 11
  length-printed = omega (
    arith,
    length-append (log_path (file_name ip)) (0 ∷ drop (length ip + 10) room),
    length-log_path ip,
    length-room,
    length-drop (length ip + 10) room,
  )

  copies : pthread_logspecific level (ip ++ (0 ∷ behind)) garbage ≡ (
      memcpy printed (length ip + 1 + 10) (replicate 100 0) >>= λ copied.
      some (record { level = level; path = copied }))
  unfolding pthread_logspecific
  copies = rw (c_string_lem ip behind text, copied_name, c_string_lem ip [] text, printed_path) refl

  filled : memcpy printed (length ip + 1 + 10) (replicate 100 0) ≡ fill printed (replicate 100 0)
  filled = rw (le→leb (length ip + 1 + 10) (length printed) (omega (arith, length-printed))) (
      ap (λ s. fill s (replicate 100 0))
        (take_all (length ip + 1 + 10) printed (omega (arith, length-printed))))

  -- An address of at most 89 bytes.
  pub pthread_logspecific_lem :
      length ip ≤ 89
      → (rest : Mem) × (pthread_logspecific level (ip ++ (0 ∷ behind)) garbage
          ≡ some (record { level = level; path = log_path (file_name ip) ++ (0 ∷ rest) }))
  pthread_logspecific_lem short = (
    drop (length ip + 10) room ++ drop (length printed) (replicate 100 0),
    copies
        ∙ rw
            (
              filled,
              fill-fits printed (replicate 100 0) (omega (arith, length-printed)),
              append_assoc (log_path (file_name ip)) (0 ∷ drop (length ip + 10) room)
                  (drop (length printed) (replicate 100 0)),
            )
            refl,
  )

  -- A longer one: the path is written past the end of its 100 bytes.
  pub pthread_logspecific_long :
      90 ≤ length ip → pthread_logspecific level (ip ++ (0 ∷ behind)) garbage ≡ none
  pthread_logspecific_long long =
      copies ∙ rw (filled, fill-none printed (replicate 100 0) (omega (arith, length-printed))) refl

log_path-injective : (x y : Str) → log_path x ≡ log_path y → x ≡ y
log_path-injective x y e =
    let tails : x ++ str ".log" ≡ y ++ str ".log" = ap (drop 5) e in
    let same : length x ≡ length y =
      omega (arith, ap length tails, length-append x (str ".log"), length-append y (str ".log")) in
    sym (take-append x (str ".log"))
    ∙ ap (take (length x)) tails
    ∙ ap (λ n. take n (y ++ str ".log")) same
    ∙ take-append y (str ".log")

-- Two addresses without `_` for which a thread's log can be made: where the logs have one path, the
-- addresses are the same.
pub pthread_logspecific-injective :
    (level level' : ℕ) (s t : Str) (behind behind' garbage garbage' : Mem) (log log' : ThreadLog)
    → IsText s
    → IsText t
    → IsDotted s
    → IsDotted t
    → length garbage ≡ 10
    → length garbage' ≡ 10
    → pthread_logspecific level (s ++ (0 ∷ behind)) garbage ≡ some log
    → pthread_logspecific level' (t ++ (0 ∷ behind')) garbage' ≡ some log'
    → c_string log.path ≡ c_string log'.path
    → s ≡ t
pthread_logspecific-injective level level' s t behind behind' garbage garbage' log log' hs ht ds dt
      l l' e e' same =
    file_name-injective s t ds dt (
      log_path-injective (file_name s) (file_name t) (
        some-injective _ _ (
          sym (path level s behind garbage log hs l e)
          ∙ same
          ∙ path level' t behind' garbage' log' ht l' e')))
  where
    path :
        (level : ℕ) (s : Str) (behind garbage : Mem) (log : ThreadLog)
        → IsText s
        → length garbage ≡ 10
        → pthread_logspecific level (s ++ (0 ∷ behind)) garbage ≡ some log
        → c_string log.path ≡ some (log_path (file_name s))
    path level s behind garbage log text l e = elim (dec_lt 89 (length s)) [
      | yes long ↦ absurd (
          none-ne-some log
            (sym (pthread_logspecific_long level s behind garbage text l (omega arith)) ∙ e))
      | no short ↦
          let (rest, made) = pthread_logspecific_lem level s behind garbage text l (omega arith) in
          ap (λ t. c_string t.path) (some-injective _ _ (sym e ∙ made))
          ∙ c_string_lem (log_path (file_name s)) rest (
              IsText-append (str "logs/") _ (is_text_lem (str "logs/") (unfold is_text in refl)) (
                IsText-append (file_name s) (str ".log") (IsText-file_name s text)
                  (is_text_lem (str ".log") (unfold is_text in refl))))
    ]
