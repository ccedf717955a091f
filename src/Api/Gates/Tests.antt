-- ===== src/Api/Gates/Tests.antt =====
-- Gate commands at concrete requests.
use pcmm_policy_server.Base.{
  ℕ, zero, suc, ◌<◌, ◌≡◌, refl, true, false, none, some, [], ◌∷◌, ◌++◌, arith, replicate, u8, u16,
  Mem,
}
use pcmm_policy_server.Base.Text.{str, matches}
use pcmm_policy_server.Pack.Words.{be32}
use pcmm_policy_server.Lcm.{Lcm}
use pcmm_policy_server.Lcm.Table.{Holds}
use pcmm_policy_server.Session.{Gctl, Session}
use pcmm_policy_server.Pcmm.Names.{pcmm_otoact, pcmm_otoerr}
use pcmm_policy_server.Session.Report.{
  ReportFile, response_file, Response, response_default, response_error, ended, ps_pcmm_report,
}
use pcmm_policy_server.Session.Report.Text.{print_decimal, response_text}
use pcmm_policy_server.Session.Report.Walk.{encode_all}
use pcmm_policy_server.Session.Report.Files.{ack_items, error_items}
use pcmm_policy_server.Session.Receive.Messages.{header_of}
use pcmm_policy_server.Api.Gates.Reports.{poll_of, wait_answer-error}
use pcmm_policy_server.Session.Proxy.Commands.{sent}
use pcmm_policy_server.Api.{json_frommsg}
use pcmm_policy_server.Api.Policy.{gctl_new_request}
use pcmm_policy_server.Api.Gates.{gate_info, no_file, World, wait_answer, gctl_request}
use pcmm_policy_server.Api.Gates.Answer.{IsText, wait_answer-message}
use pcmm_policy_server.Api.Gates.Command.{request_of, gctl_request-sent}
use pcmm_policy_server.Api.Samples.{
  json, inet, garbage, root, only_session, session, response, world,
}

abbrev lcm : Lcm
lcm = record { count = 1; maxpep = 4; clients = some only_session ∷ replicate 19 none }

lcm-Holds : Holds lcm (only_session ∷ [])
lcm-Holds = record {
  rest = replicate 19 none;
  slots = refl;
  counted = refl;
  room = refl;
  bounded = omega arith;
  capped = omega arith;
}

repeated-IsText : (c n : ℕ) → 0 < c → IsText (replicate n c)
repeated-IsText c zero h = record {}
repeated-IsText c (suc n) h = (omega arith, repeated-IsText c n h)

answered :
    (size : ℕ)
    → 120 < size
    → wait_answer world size ≡ some (json_frommsg (response ++ world.metrics))
answered size h =
    wait_answer-message world size (true ∷ true ∷ []) response [] refl
      (repeated-IsText 65 120 (omega arith)) (repeated-IsText 48 70 (omega arith)) (omega arith)
      (omega arith) (omega arith) h

abbrev fields : Gctl
fields = request_of json garbage (some root)

gctl_request-sent_example :
    gctl_request json inet world garbage gate_info lcm (some root)
    ≡ some (record {
      sent = some (sent 70000 session gate_info fields (0 ∷ 8 ∷ 3 ∷ 1 ∷ be32 167772162) [] 0 8);
      held = false;
      reply = json_frommsg (response ++ world.metrics);
    })
unfolding matches gctl_new_request
gctl_request-sent_example =
    gctl_request-sent json inet world garbage lcm (only_session ∷ []) (some root) lcm-Holds
      (λ c. refl) refl gate_info only_session (str "10.0.0.2") 167772162
      (json_frommsg (response ++ world.metrics)) refl refl refl refl (omega arith)
      (answered 400 (omega arith))

-- The session's handle is 91, 92, 93, 94, and the CMTS acknowledges transaction 515.
abbrev open_session : Session
open_session = record session { uuid_received = true; handle = 91 ∷ 92 ∷ 93 ∷ 94 ∷ replicate 4 0 }

abbrev ack_file : ReportFile
ack_file = response_file 515 (response_default 7 (pcmm_otoact (u8 (u16 5))) 21003)

abbrev ack_world : World
ack_world = record world { polls = no_file ∷ poll_of 515 ack_file ∷ [] }

abbrev ack : Mem
ack =
    header_of 3 128 10 60
    ++ ((0 ∷ 8 ∷ 1 ∷ 1 ∷ 91 ∷ 92 ∷ 93 ∷ 94 ∷ 0 ∷ 8 ∷ 12 ∷ 1 ∷ 0 ∷ 1 ∷ 191 ∷ 155 ∷ 0 ∷ 36 ∷ 9 ∷ 1
          ∷ [])
        ++ encode_all (ack_items 515 5 0 21003 9216 15904 7))

-- The CMTS refuses transaction 516: it does not know the gate.
abbrev error_response : Response
error_response = response_error 0 (pcmm_otoact (u8 (u16 9))) 2 0 (pcmm_otoerr (u8 2))

abbrev error_world : World
error_world = record world { polls = no_file ∷ poll_of 516 (response_file 516 error_response) ∷ [] }

wait_answer-error_example :
    (ps_pcmm_report 4 true
        (replicate 24 0 ++ (encode_all (error_items 516 9 0 21003 9216 15904 2 0) ++ []))
        24
        36
      ≡ ended (56, some (response_file 516 error_response)))
    × (wait_answer error_world 400
        ≡ some (json_frommsg (response_text error_response ++ world.metrics)))
unfolding pcmm_otoerr
wait_answer-error_example =
    wait_answer-error error_world 400 (true ∷ []) [] 516 9 0 21003 9216 15904 2 0 (replicate 24 0)
      [] (omega arith) (omega arith) (omega arith) (omega arith) (omega arith)
      (unfold matches in refl) (repeated-IsText 48 70 (omega arith)) (omega arith) (omega arith)
      refl

error_printed :
    response_text error_response
    ≡ str
        "{\"output\": {\"cops-gate-id\": 0, \"GateCmd\": \"GATE-INFO-ERR\", \"ApplicationId\": 0, \"PacketCableError\": \"2::0, 'Unknown Gate ID'\"}"
unfolding response_text print_decimal pcmm_otoact pcmm_otoerr
error_printed = refl
