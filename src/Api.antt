-- ===== src/Api.antt =====
-- src/api/routes.c: the handler that connects to a CMTS.
-- What the handler learns from outside (the request's fields, the locks, the session's start) enters
-- as the record `Outside`.
pub mod Json
pub mod Policy
pub mod Responses
pub mod Samples
pub mod Peers
pub mod Gates
pub mod Reset
pub mod Admission
pub mod Race
mod Tests
use pcmm_policy_server.Base.{
  ℕ, ◌+◌, ◌-◌, ◌^◌, Bool, true, false, ◌&&◌, ◌||◌, not, Option, none, some, List, [], ◌∷◌, ◌==◌,
  ltb, leb, length, if◌then◌else◌,
}
use pcmm_policy_server.Base.Fault.{◌>>=◌}
use pcmm_policy_server.Base.Text.{Str}
use pcmm_policy_server.Iputil.{Inet, is_ip4}
use pcmm_policy_server.Lcm.{
  maxroom, lcm_err, Client, Lcm, Found, lcm_getps, lcm_alloc_ok, store, lcm_set,
}

-- The codes of include/routes.h.
abbrev pub econflict : ℕ
econflict = 100

abbrev pub esockfail : ℕ
esockfail = 102

abbrev pub enoroom : ℕ
enoroom = 103

abbrev pub einvip : ℕ
einvip = 111

-- `json_err` with its code, `json_ok` for a connection or a dry run, `json_frommsg` with its text, or
-- the end of the callback with no body.
pub data Reply : Type 0 where
  json_err : ℕ → Reply
  json_ok : Option Str → Reply
  json_dryrun : Reply
  json_frommsg : Str → Reply
  callback_complete : Reply

-- A request and what the calls of the handler that leave this code return: the locks (0, or an
-- error's number), `ps_new` (the pointer of the session, or none), `ps_admctl` and `ps_boot`.
pub record Outside : Type 0 where
  pub binary_body_length : ℕ
  pub cmts_ip : Option Str
  pub dry_run : Bool
  pub evnt_lock : Client → ℕ
  pub internal_lock : ℕ
  pub lcm_lock : ℕ
  pub lcm_lock_init : ℕ
  pub lcm_lock_again : ℕ
  pub ps_new : Option ℕ
  pub ps_admctl : ℕ
  pub ps_boot : ℕ

-- `threads[pos] = tid`, a fault beyond the array. False is the result -1.
unfoldable pub gctl_lock_tid : Outside → ℕ → ℕ → List ℕ → Option (List ℕ × Bool)
gctl_lock_tid out tid pos threads =
    if out.lcm_lock == 0 || (out.lcm_lock_init == 0 && out.lcm_lock_again == 0)
    then (store pos tid threads >>= λ threads'. some (threads', true))
    else some (threads, false)

-- The manager and the array `threads`.
pub record Shared : Type 0 where
  pub lcm : Lcm
  pub threads : List ℕ

-- The thread runs: the session goes into the manager, the thread into the array. As a `size_t` the
-- index -1 of a failed `lcm_set` is 2 ^ 64 - 1.
unfoldable pub register : Outside → Str → ℕ → Shared → Option (Shared × Reply)
register out ip ps shared = do
  (lcm, pos) ← lcm_set out.internal_lock shared.lcm (record { pointer = ps; cmts_addr = some ip })
  (threads, ok) ←
      gctl_lock_tid out out.ps_boot (if pos == lcm_err then 2 ^ 64 - 1 else pos) shared.threads
  some
      (record { lcm = lcm; threads = threads }, if ok then json_ok (some ip) else callback_complete)

-- The session is made: it connects, unless this is a dry run, and its thread starts.
abbrev pub start_session : Outside → Str → Shared → Option ℕ → Option (Shared × Reply)
start_session out ip shared none = some (shared, callback_complete)
start_session out ip shared (some ps) =
    if not out.dry_run && out.ps_admctl == 0
    then some (shared, json_err esockfail)
    else if out.ps_boot == 0
    then some (shared, json_err esockfail)
    else register out ip ps shared

-- The lookup's answer, then the limit.
abbrev pub admit : Outside → Shared → Str → Option Client → Option (Shared × Reply)
admit out shared ip (some c) = some (shared, json_err econflict)
admit out shared ip none =
    if lcm_alloc_ok out.internal_lock shared.lcm == lcm_err
    then some (shared, json_err enoroom)
    else start_session out ip shared out.ps_new

-- `is_ip4` of a null address is a fault.
-- `json_err` prints a refused address with 21 other characters and the terminator into 90 bytes.
abbrev pub refuse_address : {A : Type 0} → A → Str → Option (A × Reply)
refuse_address shared ip = if leb (length ip) 68 then some (shared, json_err einvip) else none

abbrev pub check_address : Inet → Outside → Shared → Option Str → Option (Shared × Reply)
check_address inet out shared none = none
check_address inet out shared (some ip) = is_ip4 inet (some ip) >>= λ valid.
    if not valid
    then refuse_address shared ip
    else (lcm_getps out.evnt_lock out.internal_lock (some shared.lcm) (some ip) >>= λ found.
        admit out shared ip found.ps)

unfoldable pub gctl_connect : Inet → Outside → Shared → Option (Shared × Reply)
gctl_connect inet out shared =
    if out.binary_body_length == 0
    then some (shared, callback_complete)
    else check_address inet out shared out.cmts_ip
