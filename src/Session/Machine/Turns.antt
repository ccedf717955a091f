-- ===== src/Session/Machine/Turns.antt =====
-- What the loop of src/ps.c does on a Keep-Alive and on a closed connection.
use pcmm_policy_server.Base.{
  ℕ, zero, suc, ◌≤◌, ◌≡◌, ◌≢◌, refl, ◌∙◌, Bool, true, false, ◌||◌, Option, some, List, [], ◌∷◌,
  ne→==, if◌then◌else◌, arith, Mem, replicate,
}
use pcmm_policy_server.Pack.Words.{be32}
use pcmm_policy_server.Cops.{cops_header_ok, cops_opcode_ok}
use pcmm_policy_server.Session.{Session}
use pcmm_policy_server.Session.Report.{unfinished}
use pcmm_policy_server.Session.Start.Messages.{sock_keepalive_lem}
use pcmm_policy_server.Session.Receive.{then_run, or_fault, Received, ps_recvd, buffer_size}
use pcmm_policy_server.Session.Receive.Messages.{header_of, ps_recvd-plain}
use pcmm_policy_server.Session.Machine.{Attempt, Turn, handle_opcode, ps_statemachine}

-- The bytes of a Keep-Alive, which has the client type 0.
abbrev pub keepalive_bytes : Mem
keepalive_bytes = header_of 9 0 0 8

-- The flag of the turn goes into the session.
abbrev pub marked : Session → Bool → Session
marked self flag = record self { die = self.die || flag }

if_false : {A : Type 0} (test : Bool) (a b : A) → test ≡ false → (if test then a else b) ≡ b
if_false true a b h = ground arith
if_false false a b h = refl

-- A turn of a session that is not to end.
turn :
    (fuel : ℕ) (opens : Bool) (self : Session) (flags : List Bool) (recvs : List (Option Mem))
    (attempts : List Attempt) (written : List Mem)
    → (self.die || false) ≡ false
    → ps_statemachine fuel opens self (false ∷ flags) recvs attempts written
      ≡ then_run (ps_recvd fuel opens (marked self false) recvs) λ (r : Received).
        then_run
          (handle_opcode opens r.opcode
            (record { self = r.self; attempts = attempts; later = r.later; written = written }))
          λ (t : Turn). ps_statemachine fuel opens t.self flags t.later t.attempts t.written
unfolding ps_statemachine
turn fuel opens self flags recvs attempts written alive = if_false (self.die || false) _ _ alive

-- A Keep-Alive on a connection, for a session that is not to end, is answered in the same turn with
-- the eight bytes of a Keep-Alive message, and the loop goes on with the session.
pub ps_statemachine-keepalive :
    (fuel : ℕ) (opens : Bool) (self : Session) (flags : List Bool) (later : List (Option Mem))
    (attempts : List Attempt) (written : List Mem)
    → self.die ≡ false
    → self.connection ≢ 0
    → ps_statemachine fuel opens self
        (false ∷ flags)
        (some keepalive_bytes ∷ some keepalive_bytes ∷ later)
        attempts
        written
      ≡ ps_statemachine fuel opens
          (marked self false)
          flags
          later
          attempts
          ((16 ∷ 9 ∷ 0 ∷ 0 ∷ be32 8) ∷ written)
unfolding handle_opcode then_run or_fault
ps_statemachine-keepalive fuel opens self flags later attempts written alive connected =
    turn fuel opens self flags _ attempts written (rw alive refl)
    ∙ rw
        (
          ps_recvd-plain fuel opens (marked self false) 9 0 0 [] later (omega arith) (omega arith)
              (omega arith) room (unfold cops_header_ok cops_opcode_ok in refl),
          sock_keepalive_lem (marked self false),
          ne→== self.connection 0 connected,
        )
        refl
  where
    room : 8 ≤ buffer_size
    room = unfold buffer_size in omega arith

-- A connection that the other side has closed: `recv` returns no bytes, which is the opcode 0. The
-- loop neither ends nor connects again, however many turns it has.
pub ps_statemachine_closed :
    (n fuel : ℕ) (opens : Bool) (self : Session) (attempts : List Attempt) (written : List Mem)
    → self.die ≡ false
    → ps_statemachine fuel opens self (replicate n false) (replicate n (some [])) attempts written
      ≡ unfinished
unfolding handle_opcode then_run ps_recvd
ps_statemachine_closed zero fuel opens self attempts written alive = unfold ps_statemachine in refl
ps_statemachine_closed (suc n) fuel opens self attempts written alive =
    turn fuel opens self (replicate n false) _ attempts written (rw alive refl)
    ∙ (ps_statemachine_closed n fuel opens (marked self false) attempts written (rw alive refl))
