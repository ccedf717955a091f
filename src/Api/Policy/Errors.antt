-- ===== src/Api/Policy/Errors.antt =====
-- Which requests `gctl_read_policy` of src/api/routes.c refuses, and with which code.
use mathlib.Core.Option.{some-injective}
use pcmm_policy_server.Base.{
  ℕ, zero, suc, ◌+◌, ◌≡◌, refl, sym, ap, ◌∙◌, Bool, true, false, ◌||◌, Option, none, some, ◌==◌,
  ltb, if◌then◌else◌, Mem, at,
}
use pcmm_policy_server.Base.Fault.{bind-some}
use pcmm_policy_server.Base.Text.{str}
use pcmm_policy_server.Iputil.{Inet}
use pcmm_policy_server.Pcmm.Envelope.{Floats, pcmm_flowspec_envelope, pcmm_scn_envelope}
use pcmm_policy_server.Session.{Gctl}
use pcmm_policy_server.Api.Json.{Yyjson, gctl_isnil, gctl_otoi}
use pcmm_policy_server.Api.Policy.{
  einvgate, ebadprof, ebadtype, eunexpc, Policy, ClassifierType, extended_classifier,
  default_classifier, ipv6_classifier, first_given, profile_of, gctl_new_request, read_profile,
  write_classifier, read_classifier, read_classifiers, read_gate, gctl_read_policy,
}

-- The policy is accepted, or refused with the code.
abbrev pub Judged : Option ℕ → Policy → Type 0
Judged none policy = policy.gc.failed ≡ false
Judged (some code) policy = (policy.gc.failed ≡ true) × (policy.gc.failop ≡ code)

-- Whether a value is given.
abbrev given : {Val : Type 0} → Option Val → Bool
given (some v) = true
given none = false

module _ {Val : Type 0} (json : Yyjson Val) where
  -- The first of `left` elements from `i` on with none of the three names of a classifier makes the
  -- request invalid.
  abbrev pub verdict_types : ℕ → ℕ → Option Val → Option ℕ
  verdict_types zero i classifiers = none
  verdict_types (suc left) i classifiers =
      let element = json.arr_get classifiers i in
      let later = verdict_types left (i + 1) classifiers in
      if given (json.obj_get element (str "ext-classifier"))
        || (given (json.obj_get element (str "classifier"))
            || given (json.obj_get element (str "ipv6-classifier")))
      then later
      else some ebadtype

  abbrev pub verdict_gate : Option Val → Option ℕ
  verdict_gate gate =
      let classifiers = json.obj_get gate (str "classifiers") in
      let clen = json.get_len classifiers in
      if clen == 0 || ltb 5 clen then some eunexpc else verdict_types clen 0 classifiers

  -- The code with which a request is refused, if it is: what is missing first in the order gate,
  -- traffic profile, number of classifiers, types of the classifiers.
  abbrev pub verdict : Option Val → Option ℕ
  verdict input =
      let gate = json.obj_get input (str "gate") in
      if gctl_isnil gate || gctl_isnil (json.obj_get gate (str "gate-spec"))
      then some einvgate
      else if given
            (json.obj_get (json.obj_get gate (str "traffic-profile")) (str "service-class-name"))
          || given
              (json.obj_get (json.obj_get gate (str "traffic-profile")) (str "flow-spec-profile"))
      then verdict_gate gate
      else some ebadprof

  refused-Judged :
      (policy out : Policy) (code : ℕ)
      → policy.gc.failed ≡ true
      → policy.gc.failop ≡ code
      → some policy ≡ some out
      → Judged (some code) out
  refused-Judged policy out code f r h =
      let e = some-injective _ _ h in
      (ap (λ p. p.gc.failed) (sym e) ∙ f, ap (λ p. p.gc.failop) (sym e) ∙ r)

  module _ (inet : Inet) (out : Policy) where
    -- What goes on from a policy that is not refused yet.
    abbrev GoesOn : (Policy → Option Policy) → Option ℕ → Type 0
    GoesOn next code =
        (policy : Policy) → policy.gc.failed ≡ false → next policy ≡ some out → Judged code out

    next_classifier-Judged :
        (type : ClassifierType) (obj : Val) (element : Option Val) (next : Policy → Option Policy)
        (code : Option ℕ)
        → GoesOn next code
        → GoesOn (λ policy. read_classifier json inet (some (type, obj)) element policy next) code
    unfolding read_classifier
    next_classifier-Judged type obj element next code k policy fresh h =
        let (buffer, _, rest) =
          bind-some
            (at policy.gc.classifier_size (write_classifier json inet type element (some obj))
              policy.classifier)
            _ out h in
        k _ fresh rest

    read_classifier-Judged :
        (ext legacy ip6 element : Option Val) (next : Policy → Option Policy) (code : Option ℕ)
        → GoesOn next code
        → GoesOn
            (λ policy. read_classifier json inet (first_given ext legacy ip6) element policy next)
            (if given ext || (given legacy || given ip6) then code else some ebadtype)
    unfolding read_classifier
    read_classifier-Judged (some obj) legacy ip6 element next code k =
        next_classifier-Judged extended_classifier obj element next code k
    read_classifier-Judged none (some obj) ip6 element next code k =
        next_classifier-Judged default_classifier obj element next code k
    read_classifier-Judged none none (some obj) element next code k =
        next_classifier-Judged ipv6_classifier obj element next code k
    read_classifier-Judged none none none element next code k =
        λ policy fresh h. refused-Judged _ out ebadtype refl refl h

    read_classifiers-Judged :
        (left i : ℕ) (classifiers : Option Val)
        → GoesOn (read_classifiers json inet left i classifiers) (verdict_types left i classifiers)
    unfolding read_classifiers
    read_classifiers-Judged zero i classifiers policy fresh h =
        ap (λ p. p.gc.failed) (sym (some-injective _ _ h)) ∙ fresh
    read_classifiers-Judged (suc left) i classifiers policy fresh h =
        let element = json.arr_get classifiers i in
        read_classifier-Judged (json.obj_get element (str "ext-classifier"))
          (json.obj_get element (str "classifier")) (json.obj_get element (str "ipv6-classifier"))
          element _ _ (read_classifiers-Judged left (i + 1) classifiers) policy fresh h

    if_Judged :
        (test : Bool) (policy : Policy) (code : ℕ) (other : Option Policy) (verdict : Option ℕ)
        → policy.gc.failed ≡ true
        → policy.gc.failop ≡ code
        → (other ≡ some out → Judged verdict out)
        → (if test then some policy else other) ≡ some out
        → Judged (if test then some code else verdict) out
    if_Judged true policy code other verdict f r k h = refused-Judged policy out code f r h
    if_Judged false policy code other verdict f r k h = k h

    read_gate-Judged :
        (gate spec : Option Val) → GoesOn (read_gate json inet gate spec) (verdict_gate gate)
    unfolding read_gate
    read_gate-Judged gate spec policy fresh h =
        let classifiers = json.obj_get gate (str "classifiers") in
        if_Judged (json.get_len classifiers == 0 || ltb 5 (json.get_len classifiers)) _ eunexpc _ _
          refl refl (read_classifiers-Judged (json.get_len classifiers) 0 classifiers _ fresh) h

    read_profile-Judged :
        (floats : Floats) (name flow : Option Val) (next : Policy → Option Policy) (code : Option ℕ)
        → GoesOn next code
        → GoesOn
            (λ policy. read_profile json floats (profile_of name flow) policy next)
            (if given name || given flow then code else some ebadprof)
    unfolding read_profile
    read_profile-Judged floats (some p) flow next code k policy fresh h =
        let (env, _, rest) =
          bind-some (pcmm_scn_envelope (json.get_str (some p)) policy.envelope) _ out h in
        k _ fresh rest
    read_profile-Judged floats none (some p) next code k policy fresh h =
        let (env, _, rest) =
          bind-some
            (pcmm_flowspec_envelope floats (gctl_otoi json (some p) (str "service-number"))
              policy.envelope)
            _ out h in
        k _ fresh rest
    read_profile-Judged floats none none next code k policy fresh h =
        refused-Judged _ out ebadprof refl refl h

    -- Where `gctl_read_policy` returns, it has refused the request exactly if `verdict` names a
    -- code, and with this code: 106 without a gate or its specification, 107 without a service class
    -- name or flow spec, 109 with no classifier or more than five, 108 with one of no known type.
    pub gctl_read_policy-Judged :
        (floats : Floats) (garbage : Gctl) (input : Option Val) (classifier envelope : Mem)
        → gctl_read_policy json inet floats garbage input classifier envelope ≡ some out
        → Judged (verdict input) out
    unfolding gctl_read_policy gctl_new_request
    gctl_read_policy-Judged floats garbage input classifier envelope h =
        let gate = json.obj_get input (str "gate") in
        let spec = json.obj_get gate (str "gate-spec") in
        if_Judged (gctl_isnil gate || gctl_isnil spec) _ einvgate _ _ refl refl
          (read_profile-Judged floats
            (json.obj_get (json.obj_get gate (str "traffic-profile")) (str "service-class-name"))
            (json.obj_get (json.obj_get gate (str "traffic-profile")) (str "flow-spec-profile")) _ _
            (read_gate-Judged gate spec) _ refl)
          h
