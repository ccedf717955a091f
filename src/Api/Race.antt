-- ===== src/Api/Race.antt =====
-- Connect requests that are served at the same time: `gctl_connect` of src/api/routes.c in the steps
-- between which another thread may run. Each step is a call that takes its lock and gives it back.
pub mod Together
pub mod Settled
pub mod Interleavings
mod Tests
use pcmm_policy_server.Base.{
  ℕ, ◌+◌, ◌-◌, ◌^◌, Bool, true, false, ◌&&◌, not, Option, none, some, List, [], ◌∷◌, ◌==◌,
  if◌then◌else◌, leb, length,
}
use pcmm_policy_server.Base.Fault.{◌>>=◌}
use pcmm_policy_server.Base.Text.{Str}
use pcmm_policy_server.Iputil.{Inet, is_ip4}
use pcmm_policy_server.Lcm.{lcm_err, Client, lcm_getps, lcm_alloc_ok, lcm_set}
use pcmm_policy_server.Api.{
  econflict, esockfail, enoroom, einvip, Reply, json_err, json_ok, callback_complete, Outside,
  gctl_lock_tid, Shared,
}

-- Where a request stands: before it is read, before the lookup, before the limit is looked at, before
-- its session goes into the manager, before its thread goes into the array, or answered.
pub data Pc : Type 0 where
  begin : Pc
  asked : Str → Pc
  absent : Str → Pc
  started : Str → ℕ → Pc
  placed : Str → ℕ → Pc
  answered : Reply → Pc

abbrev pub at_address : Inet → Option Str → Option Pc
at_address inet none = none
at_address inet (some ip) = is_ip4 inet (some ip) >>= λ valid.
    if valid
    then some (asked ip)
    else if leb (length ip) 68
    then some (answered (json_err einvip))
    else none

abbrev pub looked_up : Str → Option Client → Pc
looked_up ip (some c) = answered (json_err econflict)
looked_up ip none = absent ip

-- The session is made and connects, and its thread starts. None of this touches what is shared.
abbrev pub made : Outside → Str → Option ℕ → Pc
made out ip none = answered callback_complete
made out ip (some ps) =
    if not out.dry_run && out.ps_admctl == 0
    then answered (json_err esockfail)
    else if out.ps_boot == 0
    then answered (json_err esockfail)
    else started ip ps

unfoldable pub step : Inet → Outside → Pc → Shared → Option (Pc × Shared)
step inet out begin shared =
    if out.binary_body_length == 0
    then some (answered callback_complete, shared)
    else (at_address inet out.cmts_ip >>= λ pc. some (pc, shared))
step inet out (asked ip) shared =
    lcm_getps out.evnt_lock out.internal_lock (some shared.lcm) (some ip) >>= λ found.
    some (looked_up ip found.ps, shared)
step inet out (absent ip) shared =
    if lcm_alloc_ok out.internal_lock shared.lcm == lcm_err
    then some (answered (json_err enoroom), shared)
    else some (made out ip out.ps_new, shared)
step inet out (started ip ps) shared = do
  (lcm, pos) ← lcm_set out.internal_lock shared.lcm (record { pointer = ps; cmts_addr = some ip })
  some (placed ip pos, record shared { lcm = lcm })
step inet out (placed ip pos) shared = do
  (threads, ok) ←
      gctl_lock_tid out out.ps_boot (if pos == lcm_err then 2 ^ 64 - 1 else pos) shared.threads
  some (
    answered (if ok then json_ok (some ip) else callback_complete),
    record shared { threads = threads },
  )
step inet out (answered reply) shared = some (answered reply, shared)

abbrev pub update : (ℕ → Pc) → ℕ → Pc → ℕ → Pc
update pcs i pc j = if i == j then pc else pcs j

-- The requests take their steps in the order of a schedule.
unfoldable pub run_schedule :
    Inet → (ℕ → Outside) → List ℕ → (ℕ → Pc) → Shared → Option ((ℕ → Pc) × Shared)
run_schedule inet outs [] pcs shared = some (pcs, shared)
run_schedule inet outs (i ∷ schedule) pcs shared = do
  (pc, shared') ← step inet (outs i) (pcs i) shared
  run_schedule inet outs schedule (update pcs i pc) shared'
