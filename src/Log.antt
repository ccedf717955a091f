-- ===== src/Log.antt =====
-- src/lib/log.c: what goes to the console, to the log of a thread and to the error log.
-- A file is the list of its lines, each with its end. All sinks of a line take their arguments from one
-- `va_list`, so what a line's body reads depends on how many have taken them before.
pub mod Paths
pub mod Kept
pub mod Messages
mod Tests
use pcmm_policy_server.Base.{
  ℕ, zero, suc, ◌+◌, ◌-◌, ◌*◌, ◌/◌, ◌%◌, ◌^◌, Bool, true, false, ◌&&◌, ◌||◌, not, Option, none,
  some, List, [], ◌∷◌, ◌++◌, ◌==◌, ltb, leb, if◌then◌else◌, length, get_elem?, take, replicate, u8,
  Mem, fill, memcpy,
}
use pcmm_policy_server.Base.Fault.{◌>>=◌}
use pcmm_policy_server.Base.Text.{Str, str}
use pcmm_policy_server.Pack.{unpack_u16_it, unpack_u32_it}
use pcmm_policy_server.Api.Gates.{c_string}

pub data LogLevel : Type 0 where
  info : LogLevel
  debug : LogLevel
  dev : LogLevel
  warn : LogLevel
  error : LogLevel
  fatal : LogLevel

-- The value of the enum.
abbrev pub level_value : LogLevel → ℕ
level_value info = 0
level_value debug = 1
level_value dev = 2
level_value warn = 3
level_value error = 4
level_value fatal = 5

-- `GLOBAL_LOGGER`, whose `depth` nothing uses. `level` is the 32-bit pattern of an `int`.
pub record Logger : Type 0 where
  pub level : ℕ
  pub thread_write : Bool
  pub stdout_write : Bool
  pub max_file_size : ℕ

-- `max_fsize` is an `int`, which becomes an `unsigned long`.
unfoldable pub global_logconf : ℕ → ℕ → Bool → Bool → Logger
global_logconf level max_fsize stdout_w thfile_w = record {
  level = level;
  thread_write = thfile_w;
  stdout_write = stdout_w;
  max_file_size = if ltb max_fsize (2 ^ 31) then max_fsize else max_fsize + 2 ^ 64 - 2 ^ 32;
}

-- What is logged: its level, the header that goes to the console and the one that goes to a file, and
-- the body, with the line's end, that call `k` of `vfprintf` on the line's `va_list` prints, counted
-- from 0. Behind call 0 the list is indeterminate in C, so each call has a text of its own.
pub record Line : Type 0 where
  pub level : LogLevel
  pub console_header : Str
  pub header : Str
  pub bodies : ℕ → Str

abbrev pub on_console : ℕ → Line → Str
on_console k line = line.console_header ++ line.bodies k

abbrev pub in_file : ℕ → Line → Str
in_file k line = line.header ++ line.bodies k

-- The console, the log of the calling thread, if it has one, and the error log, if there is one.
pub record Logs : Type 0 where
  pub console : List Str
  pub thread : Option (List Str)
  pub errors : Option (List Str)

-- The size of a file in bytes.
abbrev pub size : List Str → ℕ
size [] = 0
size (text ∷ file) = length text + size file

-- A file that can be opened: it is kept while it is smaller than the limit, and else cleared.
unfoldable pub log_getfsize : Logger → List Str → List Str
log_getfsize logger file = if ltb (size file) logger.max_file_size then file else []

-- `LogLevel_ERROR`, `LogLevel_FATAL` or `LogLevel_WARN`
abbrev pub is_serious : LogLevel → Bool
is_serious info = false
is_serious debug = false
is_serious dev = false
is_serious warn = true
is_serious error = true
is_serious fatal = true

-- Without an error log it is made.
abbrev pub opened : Option (List Str) → List Str
opened none = []
opened (some file) = file

abbrev pub to_console : Logger → Line → List Str → List Str
to_console logger line file = if logger.stdout_write then file ++ (on_console 0 line ∷ []) else file

-- How many calls of `vfprintf` the console makes, and the log of the thread.
abbrev pub console_calls : Logger → ℕ
console_calls logger = if logger.stdout_write then 1 else 0

abbrev pub thread_calls : Logger → Option (List Str) → ℕ
thread_calls logger none = 0
thread_calls logger (some file) = if logger.thread_write then 1 else 0

abbrev pub to_thread : Logger → Line → ℕ → Option (List Str) → Option (List Str)
to_thread logger line k none = none
to_thread logger line k (some file) =
    if logger.thread_write
    then some (log_getfsize logger file ++ (in_file k line ∷ []))
    else some file

abbrev pub to_errors : Logger → Line → ℕ → Option (List Str) → Option (List Str)
to_errors logger line k file =
    if is_serious line.level
    then some (log_getfsize logger (opened file) ++ (in_file k line ∷ []))
    else file

-- `_log`
unfoldable pub log : Logger → Line → Logs → Logs
log logger line logs = record {
  console = to_console logger line logs.console;
  thread = to_thread logger line (console_calls logger) logs.thread;
  errors =
      to_errors logger line (console_calls logger + thread_calls logger logs.thread) logs.errors;
}

-- `level < LogLevel_WARN && (int)level > GLOBAL_LOGGER.level`
abbrev pub omitted : Logger → LogLevel → Bool
omitted logger level =
    ltb (level_value level) 3 && (leb (2 ^ 31) logger.level || ltb logger.level (level_value level))

unfoldable pub log_wrap : Logger → Line → Logs → Logs
log_wrap logger line logs = if omitted logger line.level then logs else log logger line logs

-- `pthread_specific_iptof`
unfoldable pub pthread_specific_iptof : Str → ℕ → ℕ → Str
pthread_specific_iptof [] targ repl = []
pthread_specific_iptof (c ∷ ip) targ repl =
    (if c == targ then repl else c) ∷ pthread_specific_iptof ip targ repl

-- `LOG_PATH_FORMAT`
abbrev pub log_path : Str → Str
log_path file = str "logs/" ++ (file ++ str ".log")

-- `snprintf(dst, n, ...)` of a text.
abbrev pub snprintf : Str → ℕ → Mem → Option Mem
snprintf text n dst = fill (take (n - 1) text ++ (0 ∷ [])) dst

-- The new object of the thread: its level and the 100 bytes of `path`, or none where the path does not
-- fit. `garbage` is what the last ten bytes of the array `path` hold, which are not cleared.
pub record ThreadLog : Type 0 where
  pub level : ℕ
  pub path : Mem

unfoldable pub pthread_logspecific : ℕ → Mem → Mem → Option ThreadLog
pthread_logspecific level cmts_ip garbage = do
  ip ← c_string cmts_ip
  let f_size = length ip + 1
  file ← memcpy cmts_ip f_size (replicate f_size 0)
  name ← c_string file
  let p_size = f_size + 10
  path ←
      snprintf (log_path (pthread_specific_iptof name b'.' b'_')) p_size
        (replicate f_size 0 ++ take 10 garbage)
  copied ← memcpy path p_size (replicate 100 0)
  some (record { level = level; path = copied })

hex_digit : ℕ → ℕ
hex_digit n = if ltb n 10 then b'0' + n else b'a' + n - 10

-- `%02x` of each byte, with `-` between them.
unfoldable pub hex_line : Mem → Str
unfolding hex_digit
hex_line [] = []
hex_line (b ∷ []) = hex_digit (b / 16) ∷ hex_digit (b % 16) ∷ []
hex_line (b ∷ c ∷ bs) = hex_digit (b / 16) ∷ hex_digit (b % 16) ∷ b'-' ∷ hex_line (c ∷ bs)

-- The bytes that are written to the error log, and whether the file is closed again. Length 0 stands
-- for the size of a pointer.
unfoldable pub debug_raw : Logger → Mem → ℕ → Option (Option Str × Bool)
debug_raw logger s len =
    let iter_len = if len == 0 then 8 else len in
    if not logger.stdout_write
    then some (none, false)
    else if leb iter_len (length s)
    then some (some (hex_line (take iter_len s)), true)
    else none

-- The objects that `debug_common_cops_object` prints in ways of their own.
pub data ObjectId : Type 0 where
  hnd : ObjectId
  csi : ObjectId
  sub : ObjectId
  other : ObjectId

-- The sum of `n` bytes from index `i` on.
unfoldable pub sum_bytes : Mem → ℕ → ℕ → Option ℕ
sum_bytes m i zero = some 0
sum_bytes m i (suc n) = do b ← get_elem? m i; rest ← sum_bytes m (i + 1) n; some (b + rest)

-- The numbers that are printed behind length, class and type; for the handle its text is read.
unfoldable pub object_values : Mem → ObjectId → ℕ → Mem → Option (List ℕ)
object_values m hnd i extra = c_string extra
object_values m csi i extra = unpack_u16_it m 32 >>= λ (vers, _). some (u8 vers ∷ [])
object_values m sub i extra = sum_bytes m i 16 >>= λ tot. some (tot ∷ [])
object_values m other i extra = do
  (r1, j) ← unpack_u16_it m i
  (r2, _) ← unpack_u16_it m j
  some (r1 ∷ r2 ∷ [])

unfoldable pub debug_common_cops_object : Mem → ObjectId → ℕ → Mem → Option (List ℕ)
debug_common_cops_object m id i extra = do
  (len, j) ← unpack_u16_it m i
  scn ← get_elem? m j
  sct ← get_elem? m (j + 1)
  values ← object_values m id (j + 2) extra
  some (len ∷ scn ∷ sct ∷ values)

-- What `debug_message` prints of the seven objects behind the header.
unfoldable pub debug_objects : Mem → List (ObjectId × ℕ) → Mem → Option (List (List ℕ))
debug_objects m [] handle = some []
debug_objects m ((id, i) ∷ objects) handle = do
  printed ← debug_common_cops_object m id i handle
  rest ← debug_objects m objects handle
  some (printed ∷ rest)

abbrev pub message_objects : List (ObjectId × ℕ)
message_objects =
    (hnd, 8) ∷ (other, 16) ∷ (other, 24) ∷ (csi, 32) ∷ (other, 36) ∷ (other, 44) ∷ (sub, 52) ∷ []

unfoldable pub debug_message : Mem → Mem → Option (List (List ℕ))
debug_message m handle = do
  vers ← get_elem? m 0
  opcd ← get_elem? m 1
  (clt, i) ← unpack_u16_it m 2
  (len, _) ← unpack_u32_it m i
  rest ← debug_objects m message_objects handle
  some ((vers ∷ opcd ∷ clt ∷ len ∷ []) ∷ rest)
