-- ===== src/Session/Tests.antt =====
-- Reports and gate commands at concrete inputs.
use pcmm_policy_server.Base.{
  ℕ, ◌^◌, ◌<◌, ◌≡◌, refl, true, false, Option, none, some, List, [], ◌∷◌, ◌++◌, arith, Mem, u8, u16,
  if◌then◌else◌,
}
use pcmm_policy_server.Base.Text.{Str, str, matches}
use pcmm_policy_server.Pack.{unpack_u16}
use pcmm_policy_server.Pack.Words.{be32}
use pcmm_policy_server.Iputil.{Inet}
use pcmm_policy_server.Pcmm.Names.{
  pcmm_is_gateid, pcmm_is_gatespec, pcmm_is_classifier, pcmm_otoact, pcmm_otoerr,
}
use pcmm_policy_server.Pcmm.Decode.{pcmm_decode_transaction}
use pcmm_policy_server.Session.{Gctl, Session}
use pcmm_policy_server.Session.Report.{
  Seen, unseen, see_object, see_words, walk, ended, unfinished, response_file, response_error,
  ps_pcmm_report,
}
use pcmm_policy_server.Session.Report.Walk.{Item, encode_all, walk-encode_all, walk_unfinished}
use pcmm_policy_server.Session.Report.Files.{words, error_items, ps_pcmm_report-error}
use pcmm_policy_server.Session.Proxy.{ps_proxy}
use pcmm_policy_server.Session.Proxy.Commands.{sent, ps_proxy_ip4}

abbrev front : Mem
front = 0 ∷ 12 ∷ 9 ∷ 1 ∷ []

abbrev tail : Mem
tail = 0 ∷ 0 ∷ 0 ∷ 0 ∷ []

abbrev one_item : List Item
one_item = words 1 515 5 ∷ []

abbrev one_seen : Seen
one_seen = record unseen { rpt = pcmm_decode_transaction unseen.rpt 515 5 }

walk-encode_all_example :
    walk 3 (front ++ (encode_all one_item ++ tail)) 12 unseen 4 ≡ ended one_seen
unfolding see_object see_words unpack_u16 pcmm_is_gateid pcmm_is_gatespec pcmm_is_classifier
walk-encode_all_example =
    walk-encode_all one_item 3 front tail unseen one_seen ((refl, omega arith), record {})
      (omega arith) (omega arith) refl

ps_pcmm_report-error_example :
    ps_pcmm_report 4 true
      (front ++ (encode_all (error_items 515 6 0 21003 9216 15904 2 1) ++ tail))
      4
      36
    ≡ ended (
      36,
      some (
          response_file 515 (response_error 0 (pcmm_otoact (u8 (u16 6))) 2 1 (pcmm_otoerr (u8 2)))),
    )
unfolding matches pcmm_otoerr
ps_pcmm_report-error_example =
    ps_pcmm_report-error 515 6 0 21003 9216 15904 2 1 front tail (omega arith) (omega arith)
      (omega arith) (omega arith) (omega arith) refl

-- A transaction object of length 0.
abbrev empty_object : Mem
empty_object = 0 ∷ 0 ∷ 1 ∷ 1 ∷ 0 ∷ 5 ∷ 0 ∷ 6 ∷ []

walk_unfinished_example : walk 100 empty_object 8 unseen 0 ≡ unfinished
unfolding see_object unpack_u16 pcmm_is_gateid pcmm_is_gatespec pcmm_is_classifier
walk_unfinished_example =
    walk_unfinished empty_object 100 8 unseen
      (1, 1, 0 ∷ 5 ∷ 0 ∷ 6 ∷ [], refl, refl, λ seen. (see_words 1 5 6 seen, refl)) (omega arith)

abbrev session : Session
session = record {
  cmts_addr = str "10.0.0.1";
  connection = 1;
  cmts_port = 3918;
  ka_timer = 60;
  ac_timer = 0;
  sock = 5;
  handle = 1 ∷ 2 ∷ 3 ∷ 4 ∷ 0 ∷ 0 ∷ 0 ∷ 0 ∷ [];
  uuid_received = true;
  die = false;
}

abbrev request_for : Str → Gctl
request_for ip = record {
  subscriber_id = some ip;
  cmts_ip = some (str "10.0.0.1");
  gate = record {
    dscp_tos_field = 0;
    dscp_tos_ovwr = 0;
    dscp_tos_mask = 0;
    preemption = 0;
    priority = 0;
    timer1 = 0;
    timer2 = 0;
    timer3 = 0;
    timer4 = 0;
    direction = none;
  };
  application_id = 0;
  gate_id = 7;
  dry_run = 0;
  envelope_size = 0;
  classifier_size = 0;
  failed = false;
  failop = 0;
}

-- A platform that knows one address of each kind.
abbrev inet4 : Str → Option ℕ
inet4 s = if matches s (str "10.0.0.9") then some 167772169 else none

inet4_fits : (s : Str) (a : ℕ) → inet4 s ≡ some a → a < 2 ^ 32
inet4_fits s a e = ground arith

abbrev inet : Inet
inet = record {
  pton4 = inet4;
  pton6 = λ s. matches s (str "1:2:3:4:5:6:7:8");
  pton4_fits = inet4_fits;
}

ps_proxy_ip4_example :
    ps_proxy inet 70000 session 7 (request_for (str "10.0.0.9")) [] 0
    ≡ some (
        sent 70000 session 7 (request_for (str "10.0.0.9")) (0 ∷ 8 ∷ 3 ∷ 1 ∷ be32 167772169) [] 0 8)
unfolding matches
ps_proxy_ip4_example =
    ps_proxy_ip4 inet 70000 session 7 (request_for (str "10.0.0.9")) (str "10.0.0.9") [] 0 167772169
      refl refl refl (omega arith) refl (omega arith)
