-- ===== src/Session/Machine/Reach.antt =====
-- How many calls of `select` the wait for a connection in src/ps.c reaches.
use pcmm_policy_server.Base.{
  ℕ, zero, suc, ◌+◌, ◌≤◌, ◌<◌, ◌≡◌, refl, Bool, true, false, List, [], ◌∷◌, ltb, arith, length,
}
use pcmm_policy_server.Session.Report.{ended}
use pcmm_policy_server.Session.Machine.{Select, ready, timeout, interrupted, failed, await_socket}

-- The loop around `select` ends within eleven calls.
pub await_socket-ends :
    (left retry : ℕ) (selects : List Select)
    → left + retry ≡ 11
    → left ≤ length selects
    → 1 ≤ left
    → (ok : Bool) × (await_socket retry selects ≡ ended ok)
unfolding await_socket
await_socket-ends left retry [] e enough pos = absurd (omega arith)
await_socket-ends left retry (ready ∷ selects) e enough pos = (true, refl)
await_socket-ends left retry (timeout ∷ selects) e enough pos = (false, refl)
await_socket-ends left retry (failed ∷ selects) e enough pos = (false, refl)
await_socket-ends zero retry (interrupted ∷ selects) e enough pos = absurd (omega arith)
await_socket-ends (suc zero) retry (interrupted ∷ selects) e enough pos = (false, ground arith)
await_socket-ends (suc (suc left)) retry (interrupted ∷ selects) e enough pos =
    let (ok, same) =
      await_socket-ends (suc left) (retry + 1) selects (omega arith) (omega arith) (omega arith) in
    (ok, rw (again retry (omega arith)) same)
  where
    again : (k : ℕ) → k < 10 → ltb 10 (k + 1) ≡ false
    again k h = ground arith
