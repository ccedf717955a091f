-- ===== src/Api/Gates/Command.antt =====
-- The gate handlers of src/api/routes.c from the request to the message and the reply.
use pcmm_policy_server.Base.{
  ℕ, leb, true, ◌-◌, ◌^◌, ◌≤◌, ◌<◌, ◌≡◌, refl, Bool, false, not, Option, none, some, List, [], ◌∷◌,
  ◌++◌, arith, ◌==◌, if◌then◌else◌, length, replicate, Mem,
}
use pcmm_policy_server.Base.Text.{Str, str}
use pcmm_policy_server.Pack.Words.{be32}
use pcmm_policy_server.Iputil.{Inet}
use pcmm_policy_server.Pcmm.Envelope.{Floats}
use pcmm_policy_server.Lcm.{Client, Lcm, lcm_getps}
use pcmm_policy_server.Lcm.Table.{Holds, find, lcm_getps-find}
use pcmm_policy_server.Session.{Gctl}
use pcmm_policy_server.Session.Proxy.Commands.{sent, ps_proxy_ip4}
use pcmm_policy_server.Api.{Reply, json_err, json_dryrun}
use pcmm_policy_server.Api.Json.{Yyjson, gctl_ytoi}
use pcmm_policy_server.Api.Policy.{Policy, gctl_new_request}
use pcmm_policy_server.Api.Policy.Encode.{array_bytes}
use pcmm_policy_server.Api.Policy.Wanted.{profile_bytes, accepted}
use pcmm_policy_server.Api.Gates.{enocon, printed_length, World, wait_answer, serve, gctl_request}

module _ {Val : Type 0} (json : Yyjson Val) (garbage : Gctl) (root : Option Val) where
  -- The fields of the request.
  abbrev pub request_of : Gctl
  request_of = gctl_new_request json garbage (gctl_ytoi json root)

  -- The policy that is read for a gate with its specification.
  abbrev pub policy_of : Val → Val → Mem → Mem → ℕ → Policy
  policy_of gate spec env bs esz = record {
    gc =
        accepted json garbage (gctl_ytoi json root)
          (json.obj_get (some gate) (str "traffic-profile")) (some spec) esz (length bs);
    classifier = bs ++ replicate (320 - length bs) 0;
    envelope = env;
  }

module _ {Val : Type 0} (json : Yyjson Val) (inet : Inet) (world : World) (garbage : Gctl)
    (lcm : Lcm) (cs : List Client) (root : Option Val) (holds : Holds lcm cs)
    (evnt : (c : Client) → world.evnt_lock c ≡ 0) (internal : world.internal_lock ≡ 0) where
  abbrev request : Gctl
  request = request_of json garbage root

  looked_up :
      (ip : Option Str)
      → lcm_getps world.evnt_lock world.internal_lock (some lcm) ip
        ≡ some (record { ps = find ip cs; held = false })
  looked_up ip = rw internal (lcm_getps-find world.evnt_lock evnt lcm cs ip holds)

  served :
      (op : ℕ) (gc : Gctl) (data' : Mem) (len size : ℕ) (dry : Bool) (c : Client) (ip : Str)
      (address : ℕ) (reply : Reply)
      → gc.subscriber_id ≡ some ip
      → inet.pton6 ip ≡ false
      → inet.pton4 ip ≡ some address
      → 4 ≤ length (world.session c).handle
      → length data' ≡ len
      → len < 2 ^ 16
      → (if dry then some json_dryrun else wait_answer world size) ≡ some reply
      → serve inet world op gc data' len size dry false (some c)
        ≡ some (record {
          sent = some (
              sent world.random (world.session c) op gc (0 ∷ 8 ∷ 3 ∷ 1 ∷ be32 address) data' len 8);
          held = false;
          reply = reply;
        })
  unfolding serve
  served op gc data' len size dry c ip address reply es e6 e4 h hl small er =
      rw
        (
          ps_proxy_ip4 inet world.random (world.session c) op gc ip data' len address es e6 e4 h hl
              small,
          er,
        )
        refl

  -- A request for a CMTS without a session, whose address has at most 54 bytes: nothing is sent, and
  -- the reply is error 104.
  pub gctl_request_absent :
      (op : ℕ)
      → find request.cmts_ip cs ≡ none
      → leb (printed_length request.cmts_ip) 54 ≡ true
      → gctl_request json inet world garbage op lcm root
        ≡ some (record { sent = none; held = false; reply = json_err enocon })
  unfolding gctl_request serve
  gctl_request_absent op absent short = rw (looked_up request.cmts_ip, absent, short) refl

  -- GATE-INFO or GATE-DELETE for a CMTS with a session and an IPv4 subscriber: the command goes to
  -- the first session at the address, as `sent` says, and the reply is the one for a dry run or the
  -- one that the wait gives.
  pub gctl_request-sent :
      (op : ℕ) (c : Client) (ip : Str) (address : ℕ) (reply : Reply)
      → find request.cmts_ip cs ≡ some c
      → request.subscriber_id ≡ some ip
      → inet.pton6 ip ≡ false
      → inet.pton4 ip ≡ some address
      → 4 ≤ length (world.session c).handle
      → (if not (request.dry_run == 0) then some json_dryrun else wait_answer world 400)
        ≡ some reply
      → gctl_request json inet world garbage op lcm root
        ≡ some (record {
          sent = some (
              sent world.random (world.session c) op request (0 ∷ 8 ∷ 3 ∷ 1 ∷ be32 address) [] 0 8);
          held = false;
          reply = reply;
        })
  unfolding gctl_request
  gctl_request-sent op c ip address reply present es e6 e4 h er =
      rw (looked_up request.cmts_ip, present)
        (served op request [] 0 400 (not (request.dry_run == 0)) c ip address reply es e6 e4 h refl
          (omega arith) er)

  module _ (floats : Floats) (gate spec : Val) (env bs : Mem) (esz : ℕ)
      (eg : json.obj_get (gctl_ytoi json root) (str "gate") ≡ some gate)
      (es : json.obj_get (some gate) (str "gate-spec") ≡ some spec)
      (ep : profile_bytes json floats (json.obj_get (some gate) (str "traffic-profile"))
        ≡ some (env, esz))
      (low : 1 ≤ json.get_len (json.obj_get (some gate) (str "classifiers")))
      (high : json.get_len (json.obj_get (some gate) (str "classifiers")) ≤ 5)
      (eb : array_bytes json inet
          (json.get_len (json.obj_get (some gate) (str "classifiers")))
          0
          (json.obj_get (some gate) (str "classifiers"))
        ≡ some bs) where
    abbrev policy : Policy
    policy = policy_of json garbage root gate spec env bs esz
