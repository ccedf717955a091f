-- ===== src/Conf.antt =====
-- src/conf.c: the options of the program, from the command line. A configuration file is read
-- instead of the arguments behind it (Conf/File); here it enters as what reading it gives.
pub mod Ranges
pub mod File
pub mod Clean
mod Tests
use pcmm_policy_server.Base.{
  length, ℕ, ◌+◌, ◌*◌, ◌^◌, ◌%◌, Bool, true, false, ◌&&◌, ◌||◌, not, List, [], ◌∷◌, ◌==◌, ltb, leb,
  if◌then◌else◌, u16, Mem,
}
use pcmm_policy_server.Base.Text.{Str, str, matches}
use pcmm_policy_server.Iputil.{atoi}

-- `CLIENT_SETTINGS`; an `int` is its 32-bit pattern.
pub record Settings : Type 0 where
  pub ka_timer : ℕ
  pub ac_timer : ℕ
  pub thread_log_level : ℕ
  pub connect_timeout : ℕ
  pub ulfius_af_type : ℕ
  pub ulfius_port : ℕ
  pub cmts_port : ℕ
  pub app_id : ℕ

-- `opts_t`
pub record Opts : Type 0 where
  pub log_max_fsize : ℕ
  pub log_level : ℕ
  pub log_stdout : ℕ
  pub log_thread : Bool
  pub log_purge : Bool
  pub mode : ℕ
  pub max_pep : ℕ
  pub preflight : List Mem
  pub pflen : ℕ

pub record Conf : Type 0 where
  pub settings : Settings
  pub opts : Opts

-- How reading ends: with the options, in `abort`, in `exit`, or undefined.
pub data Outcome : Type 0 where
  options : Conf → Outcome
  aborted : Outcome
  exited : Outcome
  undefined : Outcome

-- A static object is zero at first.
abbrev pub no_settings : Settings
no_settings = record {
  ka_timer = 0;
  ac_timer = 0;
  thread_log_level = 0;
  connect_timeout = 0;
  ulfius_af_type = 0;
  ulfius_port = 0;
  cmts_port = 0;
  app_id = 0;
}

unfoldable pub conf_get_KAtimer : Settings → ℕ
conf_get_KAtimer settings = if settings.ka_timer == 0 then 60 else settings.ka_timer

unfoldable pub conf_get_ACtimer : Settings → ℕ
conf_get_ACtimer settings = settings.ac_timer

unfoldable pub conf_get_log_level : Settings → ℕ
conf_get_log_level settings = settings.thread_log_level

unfoldable pub conf_get_maxconnect_secs : Settings → ℕ
conf_get_maxconnect_secs settings = settings.connect_timeout

unfoldable pub conf_get_ulfius_af_type : Settings → ℕ
conf_get_ulfius_af_type settings = settings.ulfius_af_type

unfoldable pub conf_get_ulfius_server_port : Settings → ℕ
conf_get_ulfius_server_port settings = u16 settings.ulfius_port

unfoldable pub conf_get_cmts_tcp_port : Settings → ℕ
conf_get_cmts_tcp_port settings = u16 settings.cmts_port

abbrev pub conf_set_ka_timer : ℕ → Settings → Settings
conf_set_ka_timer val settings = record settings { ka_timer = val }

abbrev pub conf_set_ac_timer : ℕ → Settings → Settings
conf_set_ac_timer val settings = record settings { ac_timer = val }

abbrev pub conf_set_log_level : ℕ → Settings → Settings
conf_set_log_level val settings = record settings { thread_log_level = val }

abbrev pub conf_set_connect_timeout : ℕ → Settings → Settings
conf_set_connect_timeout val settings = record settings { connect_timeout = val }

-- `AF_INET` is 2.
unfoldable pub conf_set_client_defaults : Settings → Settings
conf_set_client_defaults settings = record settings {
  connect_timeout = 4;
  ulfius_af_type = 2;
  ulfius_port = 8000;
  cmts_port = 3918;
  app_id = 3474;
}

abbrev pub run_unittest : ℕ
run_unittest = 2

abbrev pub conf_get_defaults : Opts
conf_get_defaults = record {
  log_max_fsize = 2 * 1024 * 1024;
  log_level = 0;
  log_stdout = 1;
  log_thread = true;
  log_purge = true;
  mode = 0;
  max_pep = 4;
  preflight = [];
  pflen = 0;
}

unfoldable pub starts_with : Str → Str → Bool
starts_with [] s = true
starts_with (c ∷ pre) [] = false
starts_with (c ∷ pre) (d ∷ s) = c == d && starts_with pre s

-- `strstr(s, part) != NULL`
unfoldable pub contains : Str → Str → Bool
contains part [] = starts_with part []
contains part (c ∷ s) = starts_with part (c ∷ s) || contains part s

-- What `strsep` cuts off at the first `=`, and what it leaves.
unfoldable pub key_of : Str → Str
key_of [] = []
key_of (c ∷ s) = if c == b'=' then [] else c ∷ key_of s

unfoldable pub value_of : Str → Str
value_of [] = []
value_of (c ∷ s) = if c == b'=' then s else value_of s

-- What `sscanf` takes for white space, and the word that "%s" reads.
abbrev is_space : ℕ → Bool
is_space c = c == 32 || (leb 9 c && leb c 13)

unfoldable pub to_space : Str → Str
to_space [] = []
to_space (c ∷ s) = if is_space c then [] else c ∷ to_space s

unfoldable pub word : Str → Str
word [] = []
word (c ∷ s) = if is_space c then word s else c ∷ to_space s

-- `conf_argparse_str`, of an argument with a second token.
abbrev pub conf_argparse_str : Str → Str
conf_argparse_str arg = word (key_of (value_of arg))

-- `sscanf(token, "%d", &dst)` of the second token.
unfoldable pub conf_argparse_get : Str → ℕ
conf_argparse_get arg = atoi (key_of (value_of arg))

-- `assert(expr)` and what follows.
abbrev pub assert : Bool → Conf → Outcome
assert true conf = options conf
assert false conf = aborted

-- `rval <= 1000` in `int`
abbrev pub at_most_1000 : ℕ → Bool
at_most_1000 rval = leb (2 ^ 31) rval || leb rval 1000

-- The option whose name the key contains gets the value.
unfoldable pub set_option : Str → ℕ → Conf → Outcome
set_option arg rval conf =
    let opts = conf.opts in
    let settings = conf.settings in
    if contains (str "max_pep") arg
    then assert (at_most_1000 rval) (record conf { opts = record opts { max_pep = rval } })
    else if contains (str "log_level") arg
    then assert (ltb rval 6) (record {
      opts = record opts { log_level = rval };
      settings = conf_set_log_level rval settings;
    })
    else if contains (str "log_stdout") arg
    then assert (rval == 0 || rval == 1) (record conf { opts = record opts { log_stdout = rval } })
    else if contains (str "log_max_fsize") arg
    then assert (ltb 0 rval && ltb rval (1024 * 1024 * 1024))
        (record conf { opts = record opts { log_max_fsize = rval } })
    else if contains (str "ka_timer") arg
    then options (record conf { settings = conf_set_ka_timer rval settings })
    else if contains (str "ac_timer") arg
    then options (record conf { settings = conf_set_ac_timer rval settings })
    else if contains (str "connect_timeout") arg
    then options (record conf { settings = conf_set_connect_timeout rval settings })
    else exited

-- An argument of the command line. Without a `=` its text is read as a JSON value, which is
-- undefined.
unfoldable pub conf_argparse_opt : Str → Conf → Outcome
conf_argparse_opt arg conf =
    if contains (str "=") arg
    then set_option (key_of arg) (conf_argparse_get arg) conf
    else undefined

abbrev pub then_read : Outcome → (Conf → Outcome) → Outcome
then_read (options conf) next = next conf
then_read aborted next = aborted
then_read exited next = exited
then_read undefined next = undefined

-- PATH_SIZE, the length of the array for the path of the configuration file.
abbrev pub path_size : ℕ
path_size = 256

module _ (conf_read_file : Str → Settings → Outcome) where
  -- The loop over the arguments.
  unfoldable pub read_args : List Str → Conf → Outcome
  read_args [] conf = options conf
  read_args (arg ∷ args) conf =
      let rest = λ (c : Conf). read_args args c in
      if contains (str "config") arg
      then if contains (str "=") arg && ltb (length (conf_argparse_str arg)) path_size
        then conf_read_file (conf_argparse_str arg) conf.settings
        else undefined
      else if matches arg (str "unittest")
      then rest (record conf { opts = record (conf.opts) { mode = run_unittest } })
      else if matches arg (str "server")
      then rest conf
      else then_read (conf_argparse_opt arg conf) rest

  -- The arguments behind the program's name; `CLIENT_SETTINGS` starts with zeros.
  unfoldable pub conf_read : List Str → Outcome
  conf_read [] = aborted
  conf_read (arg ∷ args) =
      read_args (arg ∷ args)
        (record { settings = conf_set_client_defaults no_settings; opts = conf_get_defaults })
