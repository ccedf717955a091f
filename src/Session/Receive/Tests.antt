-- ===== src/Session/Receive/Tests.antt =====
-- Receiving concrete messages.
use pcmm_policy_server.Base.{
  ℕ, ◌≤◌, ◌<◌, ◌≡◌, refl, true, false, some, [], ◌∷◌, ◌++◌, arith, replicate, Mem,
}
use pcmm_policy_server.Base.Text.{str}
use pcmm_policy_server.Cops.{cops_class_ok, cops_opcode_ok}
use pcmm_policy_server.Session.{Session}
use pcmm_policy_server.Session.Report.{ended}
use pcmm_policy_server.Session.Report.Walk.{encode_all}
use pcmm_policy_server.Session.Report.Files.{ack_items}
use pcmm_policy_server.Session.Receive.{Received, ps_recvd, buffer_size}
use pcmm_policy_server.Session.Receive.Keeps.{Keeps, ps_recvd-Sound}
use pcmm_policy_server.Session.Receive.Requests.{ps_recvd-request}
use pcmm_policy_server.Session.Receive.Messages.{header_of, with_handle, ps_recvd-handle}

abbrev fresh : Session
fresh = record {
  cmts_addr = str "10.0.0.1";
  connection = 1;
  cmts_port = 3918;
  ka_timer = 60;
  ac_timer = 0;
  sock = 5;
  handle = replicate 8 0;
  uuid_received = false;
  die = false;
}

abbrev req : Mem
req = header_of 1 128 10 16 ++ (0 ∷ 8 ∷ 1 ∷ 1 ∷ 91 ∷ 92 ∷ 93 ∷ 94 ∷ [])

enough : (n : ℕ) → n ≤ 100 → n ≤ buffer_size
unfolding buffer_size
enough n h = omega arith

-- A Request with its context.
abbrev request : Mem
request =
    header_of 1 128 10 24
    ++ (0 ∷ 8 ∷ 1 ∷ 1 ∷ 91 ∷ 92 ∷ 93 ∷ 94 ∷ 0 ∷ 8 ∷ 2 ∷ 1 ∷ 0 ∷ 8 ∷ 0 ∷ 0 ∷ [])

ps_recvd-request_example :
    ps_recvd 3 true fresh (some request ∷ some request ∷ [])
    ≡ ended (record {
      self = with_handle fresh (91 ∷ 92 ∷ 93 ∷ 94 ∷ []);
      opcode = 1;
      files = [];
      later = [];
    })
ps_recvd-request_example =
    ps_recvd-request 0 true fresh 91 92 93 94 0 8 0 0 [] [] (enough 24 (omega arith)) refl
      (omega arith) (unfold cops_class_ok in refl)

abbrev told : Received
told = record {
  self = with_handle fresh (91 ∷ 92 ∷ 93 ∷ 94 ∷ []);
  opcode = 1;
  files = [];
  later = [];
}

told_lem : ps_recvd 1 true fresh (some req ∷ some req ∷ []) ≡ ended told
told_lem =
    ps_recvd-handle 0 true fresh 1 91 92 93 94 [] [] (omega arith) (enough 16 (omega arith))
      (unfold cops_opcode_ok in refl) refl (omega arith)

ps_recvd-Sound_example : Keeps fresh told.self × (told.opcode < 256)
ps_recvd-Sound_example = ps_recvd-Sound 1 true fresh (some req ∷ some req ∷ []) told told_lem

abbrev open_session : Session
open_session = with_handle fresh (91 ∷ 92 ∷ 93 ∷ 94 ∷ [])

abbrev front : Mem
front = 0 ∷ 8 ∷ 1 ∷ 1 ∷ 91 ∷ 92 ∷ 93 ∷ 94 ∷ 0 ∷ 8 ∷ 12 ∷ 1 ∷ 0 ∷ 1 ∷ 191 ∷ 155 ∷ 0 ∷ 36 ∷ 9 ∷ 1 ∷ []

abbrev rpt : Mem
rpt = header_of 3 128 10 60 ++ (front ++ encode_all (ack_items 515 5 0 21003 9216 15904 7))
