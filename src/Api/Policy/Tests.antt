-- ===== src/Api/Policy/Tests.antt =====
-- Reading a policy at a concrete request.
use pcmm_policy_server.Base.{
  ◌-◌, ◌≤◌, ◌≡◌, refl, some, [], ◌++◌, arith, length, replicate, Stores-fits, Mem,
}
use pcmm_policy_server.Base.Text.{str, matches}
use pcmm_policy_server.Iputil.{ip4_toi}
use pcmm_policy_server.Pcmm.Classifier.{dst_toi}
use pcmm_policy_server.Pcmm.Classifier.Layout.{legacy_bytes}
use pcmm_policy_server.Pcmm.Envelope.Layout.{pcmm_scn_envelope-Stores}
use pcmm_policy_server.Api.Policy.{Policy, gctl_read_policy}
use pcmm_policy_server.Api.Policy.Encode.{array_bytes}
use pcmm_policy_server.Api.Policy.Accepted.{gctl_read_policy-accepted}
use pcmm_policy_server.Api.Policy.Wanted.{profile_bytes, accepted}
use pcmm_policy_server.Api.Policy.Errors.{Judged, verdict, gctl_read_policy-Judged}
use pcmm_policy_server.Api.Samples.{
  json, inet, floats, garbage, spec, classifiers, gate, request, envelope,
}

abbrev pub bytes : Mem
bytes = legacy_bytes 17 0 0 167772161 167772162 0 5060 64 0

pub profile_lem :
    profile_bytes json floats (json.obj_get (some gate) (str "traffic-profile"))
    ≡ some (envelope, 20)
unfolding matches
profile_lem =
    rw
      (Stores-fits (pcmm_scn_envelope-Stores (str "extrm_up") (omega arith)) [] (replicate 16 0)
        (replicate 76 0) refl refl)
      refl

pub bytes_lem : array_bytes json inet 1 0 (some classifiers) ≡ some bytes
unfolding matches array_bytes ip4_toi dst_toi
bytes_lem = refl

abbrev policy : Policy
policy = record {
  gc =
      accepted json garbage (some request) (json.obj_get (some gate) (str "traffic-profile"))
        (some spec) 20 24;
  classifier = bytes ++ replicate (320 - length bytes) 0;
  envelope = envelope;
}

gctl_read_policy-accepted_example :
    (gctl_read_policy json inet floats garbage (some request) (replicate 320 0) (replicate 92 0)
      ≡ some policy)
    × ((length envelope ≡ 92) × (20 ≤ 20) × (20 ≤ 92))
    × ((24 ≤ length bytes) × (length bytes ≤ 320))
unfolding matches
gctl_read_policy-accepted_example =
    gctl_read_policy-accepted json inet floats garbage (some request) gate spec envelope bytes 20
      refl refl profile_lem (omega arith) (omega arith) bytes_lem

read_sample :
    gctl_read_policy json inet floats garbage (some request) (replicate 320 0) (replicate 92 0)
    ≡ some policy
unfolding matches
read_sample =
    let (e, _, _) =
      gctl_read_policy-accepted json inet floats garbage (some request) gate spec envelope bytes 20
        refl refl profile_lem (omega arith) (omega arith) bytes_lem in
    e

gctl_read_policy-Judged_example : Judged (verdict json (some request)) policy
gctl_read_policy-Judged_example =
    gctl_read_policy-Judged json inet policy floats garbage (some request) (replicate 320 0)
      (replicate 92 0) read_sample
