-- ===== src/Server.antt =====
-- The start of the program: `main` of src/main.c, and `gctl_webapi_init` of src/api/routes.c, which
-- makes the manager and connects to the addresses of the preflight list.
pub mod Preflight
pub mod Run
mod Tests
use pcmm_policy_server.Base.{
  ℕ, ◌+◌, ◌*◌, ◌%◌, Bool, true, false, ◌&&◌, not, Option, none, some, List, [], ◌∷◌, ◌++◌, ◌==◌,
  if◌then◌else◌, length, replicate, u8, Mem, fill,
}
use pcmm_policy_server.Base.Fault.{◌>>=◌}
use pcmm_policy_server.Base.Text.{Str, str}
use pcmm_policy_server.Iputil.{Inet}
use pcmm_policy_server.Lcm.{maxroom, Lcm, lcm_init}
use pcmm_policy_server.Api.{Reply, Outside, Shared, gctl_connect}
use pcmm_policy_server.Api.Gates.{c_string}
use pcmm_policy_server.Conf.Clean.{Disk, conf_clean_dirs}
use pcmm_policy_server.Conf.{
  Settings, Conf, Outcome, options, aborted, exited, undefined, run_unittest,
  conf_get_ulfius_af_type,
}

-- `CONNECT_REQUEST_FORMAT`, and the text that it prints for an address.
abbrev pub connect_request_format : Str
connect_request_format = str "{\"input\": {\"cmts_ip\": \"%s\", \"dry_run\": 0}}"

abbrev pub connect_request : Str → Str
connect_request ip = str "{\"input\": {\"cmts_ip\": \"" ++ (ip ++ str "\", \"dry_run\": 0}}")

-- What yyjson finds in the body of a connect request.
pub record Body : Type 0 where
  pub cmts_ip : Option Str
  pub dry_run : Bool

-- The body of the request, in a buffer of `sizeof(char*) * strlen(format)` bytes.
unfoldable pub connect_body : Mem → Option Str
connect_body address = do
  ip ← c_string address
  buffer ← fill (connect_request ip ++ (0 ∷ [])) (replicate (8 * length connect_request_format) 0)
  c_string buffer

-- What the calls of the start return: the mutexes, the framework for either family, and its start.
pub record Startup : Type 0 where
  pub lcm_lock_init : ℕ
  pub init_instance : Bool
  pub init_instance_ipv6 : Bool
  pub internal_lock_init : ℕ
  pub start_framework : Bool

-- The exit code, the manager and threads that the API works on, and the replies to the preflight
-- requests.
pub record Started : Type 0 where
  pub code : ℕ
  pub shared : Option Shared
  pub replies : List Reply

abbrev pub failed : Started
failed = record { code = 1; shared = none; replies = [] }

-- An instance for IPv4, or for IPv6.
abbrev pub init_framework : Startup → ℕ → Bool
init_framework startup family =
    if family == 2 then startup.init_instance else startup.init_instance_ipv6

module _ (inet : Inet) (parse : Str → Body) where
  -- `gctl_connect` on the pseudo request with a body.
  unfoldable pub preflight_connect : Outside → Str → Shared → Option (Shared × Reply)
  preflight_connect out body shared =
      gctl_connect inet
        (record out {
          binary_body_length = length body;
          cmts_ip = (parse body).cmts_ip;
          dry_run = (parse body).dry_run;
        })
        shared

  -- The loop over the addresses of the preflight list from address `i` on; `calls` is what the calls
  -- for each address return. `pf_len` is the length of the list.
  unfoldable pub connect_all : (ℕ → Outside) → ℕ → List Mem → Shared → Option (Shared × List Reply)
  connect_all calls i [] shared = some (shared, [])
  connect_all calls i (address ∷ addresses) shared = do
    body ← connect_body address
    (shared', reply) ← preflight_connect (calls i) body shared
    (shared'', replies) ← connect_all calls (i + 1) addresses shared'
    some (shared'', reply ∷ replies)

  -- The manager that was made, if one was; then the framework starts.
  unfoldable pub serve_from : Startup → (ℕ → Outside) → List Mem → Option Lcm → Option Started
  serve_from startup calls preflight none = some failed
  serve_from startup calls preflight (some lcm) =
      if not startup.start_framework
      then some failed
      else (connect_all calls 0 preflight (record { lcm = lcm; threads = replicate maxroom 0 })
          >>= λ (shared, replies).
              some (record { code = 0; shared = some shared; replies = replies }))

  unfoldable pub gctl_webapi_init :
      Startup → (ℕ → Outside) → Settings → ℕ → List Mem → Option Started
  gctl_webapi_init startup calls settings max_pep preflight =
      if not (startup.lcm_lock_init == 0)
      then some failed
      else if not (init_framework startup (u8 (conf_get_ulfius_af_type settings)))
      then some failed
      else serve_from startup calls preflight (lcm_init startup.internal_lock_init max_pep)

  -- `main` behind the removal of old files. Where the unit tests are not built in, their run mode
  -- returns a line number.
  abbrev pub run_mode : Startup → (ℕ → Outside) → ℕ → Conf → Option Started
  run_mode startup calls line conf =
      let opts = conf.opts in
      if opts.mode == run_unittest
      then some (record failed { code = line })
      else if opts.mode == 0
      then gctl_webapi_init startup calls conf.settings opts.max_pep opts.preflight
      else some (record failed { code = 0 })

  -- `main` behind the options.
  unfoldable pub run : Startup → (ℕ → Outside) → Disk → ℕ → Conf → Option Started
  run startup calls disk line conf =
      if conf.opts.log_purge
      then (conf_clean_dirs disk >>= λ (code, changes).
          if not (code == 0) then some failed else run_mode startup calls line conf)
      else run_mode startup calls line conf

  -- Where reading the options does not end with options, `main` does not return.
  unfoldable pub main : Startup → (ℕ → Outside) → Disk → ℕ → Outcome → Option Started
  main startup calls disk line (options conf) = run startup calls disk line conf
  main startup calls disk line aborted = none
  main startup calls disk line exited = none
  main startup calls disk line undefined = none
