-- ===== src/Api/Policy/Wanted.antt =====
-- What a request that `gctl_read_policy` of src/api/routes.c accepts asks for: its fields and its
-- envelope, told by the names in the JSON, and that the code finds the same.
use pcmm_policy_server.Base.{ℕ, ◌≡◌, refl, false, Option, none, some, Mem, replicate}
use pcmm_policy_server.Base.Fault.{◌>>=◌}
use pcmm_policy_server.Base.Text.{str}
use pcmm_policy_server.Pcmm.Envelope.{Floats, pcmm_flowspec_envelope, pcmm_scn_envelope}
use pcmm_policy_server.Session.{PcmmGate, Gctl}
use pcmm_policy_server.Api.Json.{Yyjson, gctl_otoi, gctl_otos}
use pcmm_policy_server.Api.Policy.{
  Profile, service_class, flow_spec, no_profile, profile_of, find_profile, gctl_new_request,
  read_spec,
}

module _ {Val : Type 0} (json : Yyjson Val) where
  -- The envelope of a service class name in its cleared buffer, of which 20 bytes are used, and of
  -- a flow spec, of which 92 are.
  abbrev name_envelope : Val → Option (Mem × ℕ)
  name_envelope p = pcmm_scn_envelope (json.get_str (some p)) (replicate 92 0) >>= λ e. some (e, 20)

  abbrev flow_envelope : Floats → Val → Option (Mem × ℕ)
  flow_envelope floats p =
      pcmm_flowspec_envelope floats (gctl_otoi json (some p) (str "service-number"))
        (replicate 92 0)
      >>= λ e. some (e, 92)

  -- A service class name goes before a flow spec.
  abbrev named_envelope : Floats → Option Val → Option Val → Option (Mem × ℕ)
  named_envelope floats (some p) flow = name_envelope p
  named_envelope floats none (some p) = flow_envelope floats p
  named_envelope floats none none = none

  -- The envelope of a traffic profile in its cleared buffer, and its size.
  abbrev pub profile_bytes : Floats → Option Val → Option (Mem × ℕ)
  profile_bytes floats traffic =
      named_envelope floats (json.obj_get traffic (str "service-class-name"))
        (json.obj_get traffic (str "flow-spec-profile"))

  -- The envelope that the profile found by the program is written as in its cleared buffer, and
  -- its size.
  abbrev pub found_envelope : Floats → Profile Val → Option (Mem × ℕ)
  found_envelope floats (service_class p) = name_envelope p
  found_envelope floats (flow_spec p) = flow_envelope floats p
  found_envelope floats no_profile = none

  abbrev pub found_gate : Profile Val → PcmmGate → PcmmGate
  found_gate (service_class p) gate = gate
  found_gate (flow_spec p) gate = record gate { dscp_tos_field = 0 }
  found_gate no_profile gate = record gate { dscp_tos_field = 0 }

  found_envelope-profile_of :
      (floats : Floats) (name flow : Option Val)
      → found_envelope floats (profile_of name flow) ≡ named_envelope floats name flow
  found_envelope-profile_of floats (some p) flow = refl
  found_envelope-profile_of floats none (some p) = refl
  found_envelope-profile_of floats none none = refl

  pub find_profile-envelope :
      (floats : Floats) (traffic : Option Val)
      → found_envelope floats (find_profile json traffic) ≡ profile_bytes floats traffic
  find_profile-envelope floats traffic =
      found_envelope-profile_of floats (json.obj_get traffic (str "service-class-name"))
        (json.obj_get traffic (str "flow-spec-profile"))

  -- The DSCP/ToS field stays what it was for a service class name and else is cleared.
  abbrev pub dscp_field : Option Val → ℕ → ℕ
  dscp_field (some p) before = before
  dscp_field none before = 0

  -- The request's fields: each is the value of the JSON under its name, as a number or a text. The
  -- rest stays what it was; the sizes are those of the two parts.
  abbrev pub accepted : Gctl → Option Val → Option Val → Option Val → ℕ → ℕ → Gctl
  accepted garbage input traffic spec esz csz = record garbage {
    gate = record (garbage.gate) {
      timer1 = gctl_otoi json spec (str "t1");
      timer2 = gctl_otoi json spec (str "t2");
      timer3 = gctl_otoi json spec (str "t3");
      timer4 = 0;
      dscp_tos_field =
          dscp_field (json.obj_get traffic (str "service-class-name")) garbage.gate.dscp_tos_field;
      dscp_tos_ovwr = gctl_otoi json spec (str "dscp-tos-overwrite");
      dscp_tos_mask = gctl_otoi json spec (str "dscp-tos-mask");
      direction = gctl_otos json spec (str "direction");
    };
    gate_id = gctl_otoi json input (str "gateId");
    cmts_ip = gctl_otos json input (str "cmts_ip");
    dry_run = gctl_otoi json input (str "dry_run");
    application_id = gctl_otoi json input (str "appId");
    subscriber_id = gctl_otos json input (str "subscriberId");
    failed = false;
    envelope_size = esz;
    classifier_size = csz;
  }

  found_gate-profile_of :
      (name flow : Option Val) (gate : PcmmGate)
      → found_gate (profile_of name flow) gate
        ≡ record gate { dscp_tos_field = dscp_field name gate.dscp_tos_field }
  found_gate-profile_of (some p) flow gate = refl
  found_gate-profile_of none (some p) gate = refl
  found_gate-profile_of none none gate = refl

  pub accepted_lem :
      (garbage : Gctl) (input traffic spec : Option Val) (esz csz : ℕ)
      → ◌≡◌ {A = Gctl}
          (record (gctl_new_request json garbage input) {
            gate =
                read_spec json spec (
                  found_gate
                    (find_profile json traffic)
                    (gctl_new_request json garbage input).gate);
            envelope_size = esz;
            classifier_size = csz;
          })
          (accepted garbage input traffic spec esz csz)
  unfolding read_spec gctl_new_request
  accepted_lem garbage input traffic spec esz csz =
      rw
        (found_gate-profile_of (json.obj_get traffic (str "service-class-name"))
          (json.obj_get traffic (str "flow-spec-profile")) garbage.gate)
        refl
