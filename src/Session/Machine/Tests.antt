-- ===== src/Session/Machine/Tests.antt =====
-- The state machine at concrete turns.
use pcmm_policy_server.Cops.{cops_header_ok, cops_opcode_ok}
use pcmm_policy_server.Base.{
  ℕ, IsU8, ◌+◌, ◌*◌, ◌≡◌, refl, Bool, true, false, Option, none, some, List, [], ◌∷◌, arith,
  length-replicate, replicate, Mem,
}
use pcmm_policy_server.Pack.Words.{be32}
use pcmm_policy_server.Base.Text.{str}
use pcmm_policy_server.Session.{Session}
use pcmm_policy_server.Session.Report.{unfinished, ended}
use pcmm_policy_server.Session.Receive.{or_fault, buffer_size, then_run, ps_recvd}
use pcmm_policy_server.Session.Machine.{
  interrupted, ready, timeout, await_socket, sock_connect, ps_polld, ps_admctl, accept_session,
  Connecting, Attempt, reconnect, handle_opcode, ps_statemachine,
}
use pcmm_policy_server.Session.Machine.Reach.{await_socket-ends}
use pcmm_policy_server.Session.Machine.Admits.{Same, AllAnswers, AllSized}
use pcmm_policy_server.Session.Machine.Kept.{ps_statemachine-Kept}
use pcmm_policy_server.Session.Machine.Turns.{
  keepalive_bytes, ps_statemachine-keepalive, ps_statemachine_closed, marked,
}
use pcmm_policy_server.Session.Start.Messages.{accept_bytes, accepted}
use pcmm_policy_server.Session.Start.{sock_write}
use pcmm_policy_server.Session.Receive.Messages.{header_of, ps_recvd-plain}

abbrev session : Session
session = record {
  cmts_addr = str "10.0.0.1";
  connection = 1;
  cmts_port = 3918;
  ka_timer = 60;
  ac_timer = 0;
  sock = 5;
  handle = 91 ∷ 92 ∷ 93 ∷ 94 ∷ 0 ∷ 0 ∷ 0 ∷ 0 ∷ [];
  uuid_received = true;
  die = false;
}

-- A Client-Close comes, the second attempt connects, and after the Client-Accept a Request comes; then
-- `die` is set.
abbrev refused : Connecting
refused = record {
  fd = 6;
  valid = true;
  options_set = true;
  at_once = false;
  selects = timeout ∷ [];
}

abbrev connects : Connecting
connects = record {
  fd = 7;
  valid = true;
  options_set = true;
  at_once = false;
  selects = ready ∷ [];
}

abbrev attempts : List Attempt
attempts =
    record {
      connecting = refused;
      open_turns = [];
      request_turns = [];
      garbage = λ n. replicate n 255;
    }
    ∷ record {
      connecting = connects;
      open_turns = 9 ∷ [];
      request_turns = 9 ∷ 9 ∷ [];
      garbage = λ n. replicate n 255;
    }
    ∷ []

attempts-AllSized : AllSized attempts
attempts-AllSized =
    ((λ n. length-replicate {A = ℕ} n 255), ((λ n. length-replicate {A = ℕ} n 255), record {}))

abbrev arriving : List (Option Mem)
arriving =
    some (header_of 8 128 10 8)
    ∷ some (header_of 8 128 10 8)
    ∷ some (header_of 6 128 10 8)
    ∷ some (header_of 6 128 10 8)
    ∷ none
    ∷ some (header_of 1 128 10 8)
    ∷ some (header_of 1 128 10 8)
    ∷ []

abbrev reconnected : Session × List Mem
reconnected =
    (record session { sock = 7; uuid_received = false; die = true }, accept_bytes true 60 0 ∷ [])

abbrev connecting : Session
connecting = record session { sock = 7; uuid_received = false }

-- A message without objects.
plain :
    (self : Session) (opcode : ℕ) (later : List (Option Mem))
    → IsU8 opcode
    → cops_header_ok opcode (128 * 256 + 10) 8 ≡ true
    → ps_recvd 9 true self
        (some (header_of opcode 128 10 8) ∷ some (header_of opcode 128 10 8) ∷ later)
      ≡ ended (record { self = self; opcode = opcode; files = []; later = later })
plain self opcode later small ok =
    ps_recvd-plain 9 true self opcode 128 10 [] later small (omega arith) (omega arith)
      (unfold buffer_size in omega arith) ok

closed_and_back :
    ps_statemachine 9 true session (false ∷ true ∷ []) arriving attempts [] ≡ ended reconnected
unfolding ps_statemachine handle_opcode reconnect ps_admctl sock_connect await_socket accept_session
    ps_polld sock_write then_run or_fault ps_recvd
closed_and_back =
    rw
      (
        plain (marked session false) 8 _ (omega arith)
            (unfold cops_header_ok cops_opcode_ok in refl),
        plain connecting 6 _ (omega arith) (unfold cops_header_ok cops_opcode_ok in refl),
        accepted true 60 0 (replicate 16 255) refl (omega arith) refl,
        plain connecting 1 _ (omega arith) (unfold cops_header_ok cops_opcode_ok in refl),
      )
      refl

ps_statemachine-Kept_example :
    (true ≡ true)
    × Same session (reconnected.0)
    × (session.connection ≡ 1 → (reconnected.0).connection ≡ 1)
    × AllAnswers 60 0 (reconnected.1)
ps_statemachine-Kept_example =
    ps_statemachine-Kept 9 true session (false ∷ true ∷ []) arriving attempts reconnected
      (omega arith) attempts-AllSized closed_and_back

await_socket-ends_example :
    (ok : Bool) × (await_socket 0 (interrupted ∷ interrupted ∷ replicate 9 ready) ≡ ended ok)
await_socket-ends_example =
    await_socket-ends 11 0 (interrupted ∷ interrupted ∷ replicate 9 ready) refl (omega arith)
      (omega arith)

ps_statemachine-keepalive_example :
    ps_statemachine 9 true session
      (false ∷ true ∷ [])
      (some keepalive_bytes ∷ some keepalive_bytes ∷ none ∷ [])
      []
      []
    ≡ ps_statemachine 9 true
        (marked session false)
        (true ∷ [])
        (none ∷ [])
        []
        ((16 ∷ 9 ∷ 0 ∷ 0 ∷ be32 8) ∷ [])
ps_statemachine-keepalive_example =
    ps_statemachine-keepalive 9 true session (true ∷ []) (none ∷ []) [] [] refl (omega arith)

ps_statemachine_closed_example :
    ps_statemachine 9 true session (replicate 7 false) (replicate 7 (some [])) [] [] ≡ unfinished
ps_statemachine_closed_example = ps_statemachine_closed 7 9 true session [] [] refl
