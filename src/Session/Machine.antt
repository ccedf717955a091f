-- ===== src/Session/Machine.antt =====
-- The state machine of a session in src/ps.c: `ps_statemachine`, with `sock_connect`,
-- `ps_polld` and `ps_admctl`, by which it connects again.
pub mod Reach
pub mod Admits
pub mod Kept
pub mod Turns
mod Tests
use pcmm_policy_server.Base.{
  ℕ, zero, suc, ◌+◌, ◌-◌, ◌^◌, Bool, true, false, ◌&&◌, ◌||◌, not, Option, none, some, List, [],
  ◌∷◌, ◌==◌, ltb, if◌then◌else◌, Mem,
}
use pcmm_policy_server.Cops.{cops_client_accept}
use pcmm_policy_server.Session.{Session}
use pcmm_policy_server.Session.Report.{Run, ended, fault, unfinished}
use pcmm_policy_server.Session.Start.{sock_write, sock_keepalive, accept_length}
use pcmm_policy_server.Session.Receive.{then_run, or_fault, Received, ps_recvd}

-- What a call of `select` returns: a ready socket, the end of the time, an interrupt (-1 with EINTR),
-- or another error.
pub data Select : Type 0 where
  ready : Select
  timeout : Select
  interrupted : Select
  failed : Select

-- The loop around `select`, after `retry` turns. True is a connection, false `sock_close(fd)`.
unfoldable pub await_socket : ℕ → List Select → Run Bool
await_socket retry [] = unfinished
await_socket retry (ready ∷ selects) = ended true
await_socket retry (timeout ∷ selects) = ended false
await_socket retry (failed ∷ selects) = ended false
await_socket retry (interrupted ∷ selects) =
    let rest = await_socket (retry + 1) selects in if ltb 10 (retry + 1) then ended false else rest

-- What the calls of `sock_connect` return: `socket`, whether the address is one and the options are
-- set, whether `connect` returns 0, and the calls of `select`.
pub record Connecting : Type 0 where
  pub fd : ℕ
  pub valid : Bool
  pub options_set : Bool
  pub at_once : Bool
  pub selects : List Select

-- The session, and whether the result is 1. `sock_close` returns 0.
unfoldable pub sock_connect : Session → Connecting → Run (Session × Bool)
sock_connect self c =
    if not c.valid || not c.options_set
    then ended (self, false)
    else if c.at_once
    then ended (record self { sock = c.fd; connection = 1 }, true)
    else then_run (await_socket 0 c.selects) λ ok.
      if ok
      then ended (record self { sock = c.fd; connection = 1 }, true)
      else ended (record self { sock = c.fd }, false)

-- `ps_polld`: messages are received until one has the opcode `target` or the ten seconds are over.
-- `turns` says for each turn that the clock still allows how much fuel its reading has.
unfoldable pub ps_polld :
    List ℕ → Bool → Session → ℕ → List (Option Mem) → Run ((Session × ℕ) × List (Option Mem))
ps_polld [] opens self target recvs = ended ((self, 0), recvs)
ps_polld (fuel ∷ turns) opens self target recvs =
    let rest = λ (r : Received). ps_polld turns opens r.self target r.later in
    then_run (ps_recvd fuel opens self recvs)
      λ r. if r.opcode == target then ended ((r.self, 1), r.later) else rest r

-- What the calls in one `ps_admctl` return: those of `sock_connect`; the turns of the two polls, as in
-- `ps_polld`; and the uninitialised array of the message.
pub record Attempt : Type 0 where
  pub connecting : Connecting
  pub open_turns : List ℕ
  pub request_turns : List ℕ
  pub garbage : ℕ → Mem

-- The session, what was written, the result, and the results of `recv` that are left.
pub record Admitted : Type 0 where
  pub self : Session
  pub written : Option Mem
  pub result : ℕ
  pub later : List (Option Mem)

-- `ps_admctl` behind `sock_connect`.
unfoldable pub accept_session : Bool → Session → Attempt → List (Option Mem) → Run Admitted
accept_session opens connected a recvs =
    then_run (ps_polld a.open_turns opens connected 6 recvs) λ ((opened, _), recvs1).
      or_fault
        (cops_client_accept opened.ka_timer opened.ac_timer (a.garbage (accept_length opened)))
        λ msg. then_run (ps_polld a.request_turns opens opened 1 recvs1) λ ((self, result), recvs2).
          ended (record {
            self = self;
            written = sock_write opened msg;
            result = result;
            later = recvs2;
          })

unfoldable pub ps_admctl : Bool → Session → Attempt → List (Option Mem) → Run Admitted
ps_admctl opens self a recvs = then_run (sock_connect self a.connecting) λ (self', ok).
    if ok
    then accept_session opens self' a recvs
    else ended (record { self = self'; written = none; result = 0; later = recvs })

-- What the loop goes on with: the session, the attempts and the results of `recv` that are left, and
-- the messages that were written, the last one first.
pub record Turn : Type 0 where
  pub self : Session
  pub attempts : List Attempt
  pub later : List (Option Mem)
  pub written : List Mem

-- What was written to the socket.
abbrev pub written_by : Option Mem → List Mem → List Mem
written_by none written = written
written_by (some m) written = m ∷ written

-- `while (!ps_admctl(self)) sleep(2);`
unfoldable pub reconnect : Bool → Session → List Attempt → List (Option Mem) → List Mem → Run Turn
reconnect opens self [] recvs written = unfinished
reconnect opens self (a ∷ attempts) recvs written =
    let rest =
      λ (r : Admitted). reconnect opens r.self attempts r.later (written_by r.written written) in
    then_run (ps_admctl opens self a recvs) λ (r : Admitted).
      if r.result == 0
      then rest r
      else ended (record {
        self = r.self;
        attempts = attempts;
        later = r.later;
        written = written_by r.written written;
      })

-- `close(self->sock)` and the two resets.
abbrev pub shut : Session → Session
shut self = record self { connection = 0; uuid_received = false }

-- `OPCODE_CC(opcode) || opcode == -1`
abbrev pub is_close : ℕ → Bool
is_close opcode = opcode == 8 || opcode == 2 ^ 32 - 1

-- What one turn does for the opcode that was received.
unfoldable pub handle_opcode : Bool → ℕ → Turn → Run Turn
handle_opcode opens opcode turn =
    if opcode == 9
    then (or_fault (sock_keepalive turn.self)
        λ sent. ended (record turn { written = written_by sent turn.written }))
    else if opcode == 6 || opcode == 1
    then ended turn
    else if is_close opcode
    then reconnect opens (shut turn.self) turn.attempts turn.later turn.written
    else ended turn

-- The loop. `flags` says for each turn whether another thread has set `die` before it. The messages
-- written last come first.
unfoldable pub ps_statemachine :
    ℕ
    → Bool
    → Session
    → List Bool
    → List (Option Mem)
    → List Attempt
    → List Mem
    → Run (Session × List Mem)
ps_statemachine fuel opens self [] recvs attempts written = unfinished
ps_statemachine fuel opens self (flag ∷ flags) recvs attempts written =
    let rest = λ (t : Turn). ps_statemachine fuel opens t.self flags t.later t.attempts t.written in
    let self' = record self { die = self.die || flag } in
    if self'.die
    then ended (self', written)
    else then_run (ps_recvd fuel opens self' recvs) λ (r : Received).
      then_run
        (handle_opcode opens r.opcode
          (record { self = r.self; attempts = attempts; later = r.later; written = written }))
        rest
