-- ===== src/Log/Tests.antt =====
-- Logs at concrete lines and addresses.
use pcmm_policy_server.Base.{
  ℕ, ◌≤◌, ◌==◌, if◌then◌else◌, length, length-replicate, Bool, false, ◌≡◌, refl, true, none, some,
  List, [], ◌∷◌, ◌++◌, arith, replicate, fill, Mem,
}
use pcmm_policy_server.Base.Text.{Str, str}
use pcmm_policy_server.Api.Gates.{c_string}
use pcmm_policy_server.Log.{
  LogLevel, info, debug, warn, Logger, Line, on_console, in_file, opened, ThreadLog,
  pthread_specific_iptof, pthread_logspecific, debug_raw, hex_line,
}
use pcmm_policy_server.Log.Kept.{log_all, passing, serious, Keeps, log_all-Keeps}
use pcmm_policy_server.Log.Paths.{pthread_logspecific-injective}

-- Files of at most ten bytes and a line, without debug lines.
abbrev logger : Logger
logger = record { level = 0; thread_write = true; stdout_write = true; max_file_size = 10 }

-- The second and third call find nothing left of the arguments.
abbrev said : LogLevel → Str → ℕ → Line
said level first others = record {
  level = level;
  console_header = str "> ";
  header = str "- ";
  bodies = λ k. if k == 0 then first else replicate others 63;
}

abbrev lines : List Line
lines =
    said info (str "started") 1
    ∷ said debug (str "bytes") 2
    ∷ said warn (str "timeout") 3
    ∷ said warn (str "closed") 4
    ∷ []

short :
    (level : LogLevel) (first : Str) (others : ℕ)
    → length first ≤ 7
    → others ≤ 7
    → (k : ℕ) → length (in_file k (said level first others)) ≤ 9
short level first others h h' k = one_of (k == 0)
  where
    one_of : (test : Bool) → length (str "- " ++ (if test then first else replicate others 63)) ≤ 9
    one_of true = omega arith
    one_of false = omega (arith, length-replicate {A = ℕ} others 63)

log_all-Keeps_example :
    let logs = log_all logger lines (record { console = []; thread = some []; errors = none }) in
    (logs.console ≡ passing logger (on_console 0) lines)
    × ((file : List Str) × (logs.thread ≡ some file)
        × Keeps 10 9 (passing logger (in_file 1) lines) file)
    × Keeps 10 9 (serious (in_file 2) lines) (opened logs.errors)
log_all-Keeps_example = log_all-Keeps logger 9 refl refl lines [] (
  short info (str "started") 1 (omega arith) (omega arith),
  (
    short debug (str "bytes") 2 (omega arith) (omega arith),
    (
      short warn (str "timeout") 3 (omega arith) (omega arith),
      (short warn (str "closed") 4 (omega arith) (omega arith), record {}),
    ),
  ),
)

abbrev address : Str
address = str "10.0.0.1"

abbrev garbage : Mem
garbage = replicate 10 7

abbrev written : ThreadLog
written = record { level = 0; path = str "logs/10_0_0_1.log" ++ (0 ∷ 7 ∷ replicate 81 0) }

made : pthread_logspecific 0 (address ++ (0 ∷ [])) garbage ≡ some written
unfolding pthread_logspecific pthread_specific_iptof c_string fill
made = refl

pthread_logspecific-injective_example : address ≡ str "10.0.0.1"
pthread_logspecific-injective_example =
    pthread_logspecific-injective 0 0 address (str "10.0.0.1") [] [] garbage garbage written written
      (omega arith) (omega arith) (omega arith) (omega arith) refl refl made made refl

-- The first two bytes of a buffer in hexadecimal.
raw : debug_raw logger (1 ∷ 171 ∷ 16 ∷ []) 2 ≡ some (some (str "01-ab"), true)
unfolding debug_raw hex_line
raw = refl
