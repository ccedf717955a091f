-- ===== src/Api/Policy.antt =====
-- `gctl_read_policy` of src/api/routes.c: from the request's JSON to the bytes of the classifiers and
-- of the envelope.
pub mod Encode
pub mod Layout
pub mod Buffers
pub mod Wanted
pub mod Accepted
pub mod Errors
pub mod Tests
use pcmm_policy_server.Base.{
  ℕ, zero, suc, ◌+◌, true, false, ◌||◌, Option, none, some, ◌==◌, ltb, if◌then◌else◌, Mem, Writer,
  at,
}
use pcmm_policy_server.Base.Fault.{◌>>=◌}
use pcmm_policy_server.Base.Text.{str}
use pcmm_policy_server.Iputil.{Inet}
use pcmm_policy_server.Pcmm.Classifier.{
  pcmm_legacy_classifier, pcmm_extended_classifier, pcmm_ipv6_classifier,
}
use pcmm_policy_server.Pcmm.Envelope.{Floats, pcmm_flowspec_envelope, pcmm_scn_envelope}
use pcmm_policy_server.Session.{PcmmGate, Gctl}
use pcmm_policy_server.Api.Json.{Yyjson, gctl_isnil, gctl_otos, gctl_otoi}

-- The codes of include/routes.h.
abbrev pub einvgate : ℕ
einvgate = 106

abbrev pub ebadprof : ℕ
ebadprof = 107

abbrev pub ebadtype : ℕ
ebadtype = 108

abbrev pub eunexpc : ℕ
eunexpc = 109

abbrev pub gctl_set_schemaerr : Gctl → ℕ → Gctl
gctl_set_schemaerr gc reason = record gc { failed = true; failop = reason }

-- What the function returns and the two buffers that it fills.
pub record Policy : Type 0 where
  pub gc : Gctl
  pub classifier : Mem
  pub envelope : Mem

abbrev pub refuse : Policy → ℕ → Policy
refuse policy reason = record policy { gc = gctl_set_schemaerr policy.gc reason }

pub data ClassifierType : Type 0 where
  extended_classifier : ClassifierType
  default_classifier : ClassifierType
  ipv6_classifier : ClassifierType

-- What is added to `classifier_size`.
abbrev pub size_of : ClassifierType → ℕ
size_of extended_classifier = 40
size_of default_classifier = 24
size_of ipv6_classifier = 64

-- The traffic profile: its service class name, or else its flow spec.
pub data Profile (Val : Type 0) : Type 0 where
  service_class : Val → Profile Val
  flow_spec : Val → Profile Val
  no_profile : Profile Val

abbrev pub profile_of : {Val : Type 0} → Option Val → Option Val → Profile Val
profile_of (some p) flow = service_class p
profile_of none (some p) = flow_spec p
profile_of none none = no_profile

-- The classifier's object and type, of those given under the three names.
abbrev pub first_given :
    {Val : Type 0} → Option Val → Option Val → Option Val → Option (ClassifierType × Val)
first_given (some obj) legacy ip6 = some (extended_classifier, obj)
first_given none (some obj) ip6 = some (default_classifier, obj)
first_given none none (some obj) = some (ipv6_classifier, obj)
first_given none none none = none

-- `if (!priority) priority = 64;`
abbrev pub priority_or_default : ℕ → ℕ
priority_or_default priority = if priority == 0 then 64 else priority

module _ {Val : Type 0} (json : Yyjson Val) where
  -- `garbage` is what the uninitialised `gc` holds. `gate_id` is a `long`, kept as the pattern of the
  -- `int` that it is made from.
  unfoldable pub gctl_new_request : Gctl → Option Val → Gctl
  gctl_new_request garbage input = record garbage {
    gate_id = gctl_otoi json input (str "gateId");
    cmts_ip = gctl_otos json input (str "cmts_ip");
    dry_run = gctl_otoi json input (str "dry_run");
    application_id = gctl_otoi json input (str "appId");
    subscriber_id = gctl_otos json input (str "subscriberId");
    failed = false;
  }

  abbrev pub find_profile : Option Val → Profile Val
  find_profile traffic =
      profile_of (json.obj_get traffic (str "service-class-name"))
        (json.obj_get traffic (str "flow-spec-profile"))

  abbrev pub find_classifier : Option Val → Option (ClassifierType × Val)
  find_classifier element =
      first_given (json.obj_get element (str "ext-classifier"))
        (json.obj_get element (str "classifier")) (json.obj_get element (str "ipv6-classifier"))

  -- The gate's timers, DSCP/ToS values and direction. Its priority and preemption stay what they
  -- were.
  unfoldable pub read_spec : Option Val → PcmmGate → PcmmGate
  read_spec spec gate = record gate {
    timer1 = gctl_otoi json spec (str "t1");
    timer2 = gctl_otoi json spec (str "t2");
    timer3 = gctl_otoi json spec (str "t3");
    timer4 = 0;
    dscp_tos_ovwr = gctl_otoi json spec (str "dscp-tos-overwrite");
    dscp_tos_mask = gctl_otoi json spec (str "dscp-tos-mask");
    direction = gctl_otos json spec (str "direction");
  }

  -- The envelope is written, or the request refused; then the rest goes on.
  unfoldable pub read_profile :
      Floats → Profile Val → Policy → (Policy → Option Policy) → Option Policy
  read_profile floats (service_class p) policy next = do
    envelope ← pcmm_scn_envelope (json.get_str (some p)) policy.envelope
    next (record policy { gc = record (policy.gc) { envelope_size = 20 }; envelope = envelope })
  read_profile floats (flow_spec p) policy next = do
    let gate = record (policy.gc.gate) { dscp_tos_field = 0 }
    envelope ←
        pcmm_flowspec_envelope floats (gctl_otoi json (some p) (str "service-number"))
          policy.envelope
    next (record policy {
      gc = record (policy.gc) { gate = gate; envelope_size = 92 };
      envelope = envelope;
    })
  read_profile floats no_profile policy next =
      let gate = record (policy.gc.gate) { dscp_tos_field = 0 } in
      some (refuse (record policy { gc = record (policy.gc) { gate = gate } }) ebadprof)

  module _ (inet : Inet) where
    unfoldable pub write_classifier : ClassifierType → Option Val → Option Val → Writer
    write_classifier default_classifier element obj =
        pcmm_legacy_classifier inet (gctl_otoi json obj (str "protocol"))
          (gctl_otoi json obj (str "tos-byte")) (gctl_otoi json obj (str "tos-mask"))
          (gctl_otos json obj (str "srcIp")) (gctl_otos json obj (str "dstIp"))
          (gctl_otoi json obj (str "srcPort-start")) (gctl_otoi json obj (str "dstPort-start"))
          (priority_or_default (gctl_otoi json obj (str "priority"))) 0
    write_classifier extended_classifier element obj =
        pcmm_extended_classifier inet (gctl_otoi json obj (str "protocol"))
          (gctl_otos json obj (str "srcIp")) (gctl_otos json obj (str "srcIpMask"))
          (gctl_otoi json obj (str "srcPort-start")) (gctl_otoi json obj (str "srcPort-end"))
          (gctl_otos json obj (str "dstIp")) (gctl_otos json obj (str "dstIpMask"))
          (gctl_otoi json obj (str "dstPort-start")) (gctl_otoi json obj (str "dstPort-end"))
          (priority_or_default (gctl_otoi json obj (str "priority")))
          (gctl_otoi json obj (str "tos-byte")) (gctl_otoi json obj (str "tos-mask"))
          (gctl_otoi json element (str "classifier-id"))
          (gctl_otoi json obj (str "activation-state")) (gctl_otoi json obj (str "action"))
    write_classifier ipv6_classifier element obj =
        pcmm_ipv6_classifier (gctl_otoi json obj (str "tc-low"))
          (gctl_otoi json obj (str "tc-high")) (gctl_otoi json obj (str "tc-mask"))
          (gctl_otoi json obj (str "flow-label")) (gctl_otoi json obj (str "next-hdr"))
          (gctl_otos json obj (str "srcIp6")) (gctl_otos json obj (str "dstIp6"))
          (gctl_otoi json obj (str "srcPort-start")) (gctl_otoi json obj (str "srcPort-end"))
          (gctl_otoi json obj (str "dstPort-start")) (gctl_otoi json obj (str "dstPort-end"))
          (gctl_otoi json element (str "classifier-id"))
          (priority_or_default (gctl_otoi json obj (str "priority")))
          (gctl_otoi json obj (str "activation-state")) (gctl_otoi json obj (str "action"))

    -- One turn of the loop: the classifier goes to `classifier + gc.classifier_size`.
    unfoldable pub read_classifier :
        Option (ClassifierType × Val)
        → Option Val
        → Policy
        → (Policy → Option Policy)
        → Option Policy
    read_classifier none element policy next = some (refuse policy ebadtype)
    read_classifier (some (type, obj)) element policy next = do
      classifier ←
          at policy.gc.classifier_size (write_classifier type element (some obj)) policy.classifier
      next (record policy {
        gc = record (policy.gc) { classifier_size = policy.gc.classifier_size + size_of type };
        classifier = classifier;
      })

    -- The loop from element `i` on, with `left` elements to read.
    unfoldable pub read_classifiers : ℕ → ℕ → Option Val → Policy → Option Policy
    read_classifiers zero i classifiers policy = some policy
    read_classifiers (suc left) i classifiers policy =
        let element = json.arr_get classifiers i in
        read_classifier (find_classifier element) element policy
          (read_classifiers left (i + 1) classifiers)

    -- From the gate's timers on.
    unfoldable pub read_gate : Option Val → Option Val → Policy → Option Policy
    read_gate gate spec policy =
        let classifiers = json.obj_get gate (str "classifiers") in
        let clen = json.get_len classifiers in
        let policy' = record policy {
          gc = record (policy.gc) { gate = read_spec spec policy.gc.gate };
        } in
        if clen == 0 || ltb 5 clen
        then some (refuse policy' eunexpc)
        else read_classifiers clen 0 classifiers
            (record policy' { gc = record (policy'.gc) { classifier_size = 0 } })

    unfoldable pub gctl_read_policy : Floats → Gctl → Option Val → Mem → Mem → Option Policy
    gctl_read_policy floats garbage input classifier envelope =
        let gate = json.obj_get input (str "gate") in
        let spec = json.obj_get gate (str "gate-spec") in
        let policy : Policy = record {
          gc = gctl_new_request garbage input;
          classifier = classifier;
          envelope = envelope;
        } in
        if gctl_isnil gate || gctl_isnil spec
        then some (refuse policy einvgate)
        else read_profile floats (find_profile (json.obj_get gate (str "traffic-profile"))) policy
            (read_gate gate spec)
