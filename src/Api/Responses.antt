-- ===== src/Api/Responses.antt =====
-- The texts of responses: `json_err` and `json_ok` of src/api/routes.c with their buffers.
use pcmm_policy_server.Base.{
  suc, zero, ℕ, ◌+◌, ◌/◌, ◌%◌, ◌≤◌, ◌<◌, ◌≡◌, ◌≢◌, Bool, true, false, refl, Option, none, some, [],
  ◌∷◌, ◌++◌, arith, ◌==◌, ltb, if◌then◌else◌, length, length-append, replicate, drop, fill,
  fill-none,
}
use pcmm_policy_server.Base.Fault.{◌>>=◌}
use pcmm_policy_server.Base.Text.{Str, str}
use pcmm_policy_server.Api.{econflict, esockfail, enoroom, einvip}
use pcmm_policy_server.Api.Gates.{enocon, einvreq, etimeout, c_string}
use pcmm_policy_server.Api.Gates.Answer.{IsText, c_string_lem, IsText-append, print_text}
use pcmm_policy_server.Api.Policy.{einvgate, ebadprof, ebadtype, eunexpc}

-- The message for a code. `arg` is the printed argument: an address, or the number of a transaction.
unfoldable pub err_text : ℕ → Str → Str
err_text code arg =
    if code == einvreq
    then str "invalid payload"
    else if code == einvgate
    then str "invalid gate-specification given"
    else if code == ebadprof
    then str "invalid traffic-profile given"
    else if code == ebadtype
    then str "invalid classifier type given"
    else if code == eunexpc
    then str "invalid number of classifiers, expected >1/<5"
    else if code == enoroom
    then str "maximum number of connections has been reached"
    else if code == esockfail
    then str "failed to establish socket connection"
    else if code == econflict
    then str "connection already established on " ++ arg
    else if code == 101
    then str "no cops connection has been established"
    else if code == etimeout
    then str "timed out waiting for id '" ++ (arg ++ str "'")
    else if code == enocon
    then str "no connection has been found for '" ++ (arg ++ str "'")
    else if code == einvip
    then str "invalid ip address '" ++ (arg ++ str "'")
    else str "undefined error"

-- `%d` for a `uint8_t`
unfoldable pub decimal : ℕ → Str
decimal n =
    if ltb n 10
    then (b'0' + n) ∷ []
    else if ltb n 100
    then (b'0' + n / 10) ∷ (b'0' + n % 10) ∷ []
    else (b'0' + n / 100) ∷ (b'0' + n / 10 % 10) ∷ (b'0' + n % 10) ∷ []

-- `API_ERROR`
abbrev pub api_error : ℕ → Str → Str
api_error code e =
    str "{\"output\": {\"error-code\": "
    ++ (decimal code ++ (str ", \"error-message\": \"" ++ (e ++ str "\"}}")))

-- The body of the response: `e` has 90 bytes and `buffer` 200.
unfoldable pub json_err_body : ℕ → Str → Option Str
json_err_body code arg = do
  e ← fill (err_text code arg ++ (0 ∷ [])) (replicate 90 0)
  text ← c_string e
  buffer ← fill (api_error code text ++ (0 ∷ [])) (replicate 200 0)
  c_string buffer

-- `RESPONSE_DRYRUN` with its arguments
abbrev dry_run_text : Str
dry_run_text =
    str "{\"output\": {\"cops-gate-id\": 0, \"GateCmd\": \"GATE-DR-ACK\", "
    ++ str "\"ApplicationId\": 21003}, \"build-time\": 0.000000, \"wait-time\": 0.000000}"

-- What `json_ok` prints: for a dry run, for a connection to an address, or nothing.
unfoldable pub ok_text : ℕ → Str → Str
ok_text code ip =
    if code == 201
    then dry_run_text
    else if code == 202
    then str "{\"output\": {\"message\": \"connected to " ++ (ip ++ str "\"}}")
    else []

-- The body of the response: `buffer` has 200 bytes.
unfoldable pub json_ok_body : ℕ → Str → Option Str
json_ok_body code ip = do
  buffer ← fill (ok_text code ip ++ (0 ∷ [])) (replicate 200 0)
  c_string buffer

decimal-length : (n : ℕ) → length (decimal n) ≤ 3
unfolding decimal
decimal-length n = ground arith

unfoldable pub is_text : Str → Bool
is_text [] = true
is_text (zero ∷ s) = false
is_text (suc c ∷ s) = is_text s

pub is_text_lem : (s : Str) → is_text s ≡ true → IsText s
unfolding is_text
is_text_lem [] h = record {}
is_text_lem (zero ∷ s) h = ground arith
is_text_lem (suc c ∷ s) h = (omega arith, is_text_lem s h)

either : (test : Bool) (s t : Str) → IsText s → IsText t → IsText (if test then s else t)
either true s t h k = h
either false s t h k = k

decimal-IsText : (n : ℕ) → IsText (decimal n)
unfolding decimal
decimal-IsText n =
    either (ltb n 10) _ _ (positive n, record {})
      (either (ltb n 100) _ _ (positive (n / 10), (positive (n % 10), record {}))
        (positive (n / 100), (positive (n / 10 % 10), (positive (n % 10), record {}))))
  where
    positive : (k : ℕ) → 48 + k ≢ 0
    positive k = omega arith

-- A message of at most 89 bytes: the response is the message in its format, and both buffers have room
-- for it.
pub json_err_body_lem :
    (code : ℕ) (arg : Str)
    → length (err_text code arg) < 90
    → IsText (err_text code arg)
    → json_err_body code arg ≡ some (api_error code (err_text code arg))
unfolding json_err_body is_text
json_err_body_lem code arg short text =
    let e = err_text code arg in
    let whole : IsText (api_error code e) =
      IsText-append (str "{\"output\": {\"error-code\": ") _
        (is_text_lem (str "{\"output\": {\"error-code\": ") refl)
        (IsText-append (decimal code) _ (decimal-IsText code) (
          IsText-append (str ", \"error-message\": \"") _
            (is_text_lem (str ", \"error-message\": \"") refl)
            (IsText-append e (str "\"}}") text (is_text_lem (str "\"}}") refl)))) in
    rw
      (
        print_text e (replicate 90 0) (omega arith),
        c_string_lem e (drop (length e + 1) (replicate 90 0)) text,
        print_text (api_error code e) (replicate 200 0) (
            omega (
              arith,
              decimal-length code,
              length-append (decimal code) (str ", \"error-message\": \"" ++ (e ++ str "\"}}")),
              length-append e (str "\"}}"),
            )),
      )
      (c_string_lem (api_error code e) _ whole)

-- An address in text, which has at most 15 bytes: the buffer has room for every response.
pub json_ok_body_lem :
    (code : ℕ) (ip : Str)
    → length ip ≤ 15
    → IsText ip
    → json_ok_body code ip ≡ some (ok_text code ip)
unfolding json_ok_body ok_text is_text
json_ok_body_lem code ip short text =
    rw (print_text (ok_text code ip) (replicate 200 0) (fits code))
      (c_string_lem (ok_text code ip) _ (whole code))
  where
    whole : (code' : ℕ) → IsText (ok_text code' ip)
    whole code' = either (code' == 201) _ _ (is_text_lem dry_run_text refl) (
        either (code' == 202) _ _
          (IsText-append (str "{\"output\": {\"message\": \"connected to ") _
            (is_text_lem (str "{\"output\": {\"message\": \"connected to ") refl)
            (IsText-append ip (str "\"}}") text (is_text_lem (str "\"}}") refl)))
          (record {}))

    fits : (code' : ℕ) → length (ok_text code' ip) < 200
    fits code' = ground (arith, length-append ip (str "\"}}"))

-- An address of 69 bytes or more in a connect request: the message is printed past the end of its
-- buffer.
pub json_err_body-overflow : (ip : Str) → 69 ≤ length ip → json_err_body einvip ip ≡ none
unfolding json_err_body err_text
json_err_body-overflow ip long =
    rw
      (fill-none (str "invalid ip address '" ++ (ip ++ str "'") ++ (0 ∷ [])) (replicate 90 0) (
        omega (
          arith,
          length-append (str "invalid ip address '" ++ (ip ++ str "'")) (0 ∷ []),
          length-append ip (str "'"),
        )))
      refl
