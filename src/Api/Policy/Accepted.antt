-- ===== src/Api/Policy/Accepted.antt =====
-- What `gctl_read_policy` of src/api/routes.c returns for a request that it accepts.
use mathlib.Core.Option.{none-ne-some, some-injective}
use native.Mathlib.Decide.{dec_lt}
use pcmm_policy_server.Base.{
  ℕ, zero, suc, ◌+◌, ◌-◌, ◌*◌, ◌≤◌, ◌<◌, ◌≡◌, refl, sym, ap, ◌∙◌, false, ◌||◌, Option, none, some,
  List, [], ◌∷◌, ◌++◌, arith, ◌==◌, ltb, length, length-append, length-drop, Mem, Writer, replicate,
  Stores, Stores-none, fill-fits, fill, at, drop,
}
use pcmm_policy_server.Base.Fault.{bind-some}
use pcmm_policy_server.Base.Text.{Str, str}
use pcmm_policy_server.Iputil.{Inet}
use pcmm_policy_server.Pcmm.Envelope.{Floats, pcmm_flowspec_envelope, pcmm_scn_envelope}
use pcmm_policy_server.Pcmm.Envelope.Layout.{
  pcmm_flowspec_envelope-Stores, pcmm_scn_envelope-Stores, pcmm_scn_envelope_short,
}
use pcmm_policy_server.Session.{Gctl}
use pcmm_policy_server.Api.Json.{Yyjson, gctl_otoi}
use pcmm_policy_server.Api.Policy.{
  Policy, Profile, service_class, flow_spec, no_profile, ClassifierType, extended_classifier,
  default_classifier, ipv6_classifier, find_classifier, gctl_new_request, read_spec, read_profile,
  read_gate, gctl_read_policy,
}
use pcmm_policy_server.Api.Policy.Encode.{
  found_bytes, element_bytes, element_bytes-find_classifier, array_bytes,
}
use pcmm_policy_server.Api.Policy.Layout.{classifier_block}
use pcmm_policy_server.Api.Policy.Buffers.{filled, read_classifiers-fills}
use pcmm_policy_server.Api.Policy.Wanted.{
  profile_bytes, accepted, found_envelope, found_gate, find_profile-envelope, accepted_lem,
}

-- A write that succeeds does not change the size of the buffer.
Stores-length :
    {bs : List ℕ} {w : Writer} {m m' : Mem}
    → Stores 0 bs w
    → 0 < length bs
    → w m ≡ some m'
    → length m' ≡ length m
unfolding at fill
Stores-length {bs} {w} {m} {m'} h some_bytes e = elim (dec_lt (length m) (length bs)) [
  | yes short ↦ absurd (none-ne-some m' (sym (Stores-none h m (omega arith) some_bytes) ∙ e))
  | no enough ↦
      let e' = some-injective _ _ (sym e ∙ (h.runs m ∙ fill-fits bs m (omega arith))) in
      omega (arith, ap length e', length-append bs (drop (length bs) m), length-drop (length bs) m)
]

four_bytes : (xs : List ℕ) → length xs ≡ 4 → (a b c d : ℕ) × (xs ≡ a ∷ b ∷ c ∷ d ∷ [])
four_bytes [] e = absurd (omega arith)
four_bytes (a ∷ []) e = absurd (omega arith)
four_bytes (a ∷ b ∷ []) e = absurd (omega arith)
four_bytes (a ∷ b ∷ c ∷ []) e = absurd (omega arith)
four_bytes (a ∷ b ∷ c ∷ d ∷ []) e = (a, b, c, d, refl)
four_bytes (a ∷ b ∷ c ∷ d ∷ f ∷ xs) e = absurd (omega arith)

flowspec-length :
    (floats : Floats) (n : ℕ) (env : Mem)
    → pcmm_flowspec_envelope floats n (replicate 92 0) ≡ some env
    → length env ≡ 92
flowspec-length floats n env e =
    let (a, b, c, d, ten_thousand) = four_bytes (floats.image 10000) (floats.four_bytes 10000) in
    let (f, g, h, i, two_hundred) = four_bytes (floats.image 200) (floats.four_bytes 200) in
    Stores-length (pcmm_flowspec_envelope-Stores floats a b c d f g h i ten_thousand two_hundred n)
      (omega arith) e

scn-length :
    (name : Option Str) (env : Mem)
    → pcmm_scn_envelope name (replicate 92 0) ≡ some env
    → length env ≡ 92
unfolding pcmm_scn_envelope
scn-length none env e = absurd (none-ne-some env e)
scn-length (some scn) env e = elim (dec_lt (length scn) 7) [
  | yes short ↦
      absurd (none-ne-some env (sym (pcmm_scn_envelope_short scn (replicate 92 0) short) ∙ e))
  | no enough ↦ Stores-length (pcmm_scn_envelope-Stores scn (omega arith)) (omega arith) e
]

split_pair : (p q : Mem × ℕ) → some p ≡ some q → (p.0 ≡ q.0) × (p.1 ≡ q.1)
split_pair p q h = let e = some-injective p q h in (ap (λ r. r.0) e, ap (λ r. r.1) e)

module _ {Val : Type 0} (json : Yyjson Val) where
  read_profile_lem :
      (floats : Floats) (profile : Profile Val) (gc : Gctl) (classifier env : Mem) (esz : ℕ)
      (next : Policy → Option Policy)
      → found_envelope json floats profile ≡ some (env, esz)
      → read_profile json floats profile
          (record { gc = gc; classifier = classifier; envelope = replicate 92 0 })
          next
        ≡ next (record {
          gc = record gc { gate = found_gate json profile gc.gate; envelope_size = esz };
          classifier = classifier;
          envelope = env;
        })
  unfolding read_profile
  read_profile_lem floats (service_class p) gc classifier env esz next h =
      let (e, made, pair) =
        bind-some (pcmm_scn_envelope (json.get_str (some p)) (replicate 92 0)) _ (env, esz) h in
      let (e1, e2) = split_pair _ _ pair in rw (made, e1, e2) refl
  read_profile_lem floats (flow_spec p) gc classifier env esz next h =
      let (e, made, pair) =
        bind-some
          (pcmm_flowspec_envelope floats (gctl_otoi json (some p) (str "service-number"))
            (replicate 92 0))
          _ (env, esz) h in
      let (e1, e2) = split_pair _ _ pair in rw (made, e1, e2) refl
  read_profile_lem floats no_profile gc classifier env esz next h = absurd (none-ne-some _ h)

  found_envelope-length :
      (floats : Floats) (profile : Profile Val) (env : Mem) (esz : ℕ)
      → found_envelope json floats profile ≡ some (env, esz)
      → (length env ≡ 92) × (20 ≤ esz) × (esz ≤ 92)
  found_envelope-length floats (service_class p) env esz h =
      let (e, made, pair) =
        bind-some (pcmm_scn_envelope (json.get_str (some p)) (replicate 92 0)) _ (env, esz) h in
      let (e1, e2) = split_pair _ _ pair in
      let l = scn-length (json.get_str (some p)) e made in
      (ap length (sym e1) ∙ l, omega (arith, e2), omega (arith, e2))
  found_envelope-length floats (flow_spec p) env esz h =
      let n = gctl_otoi json (some p) (str "service-number") in
      let (e, made, pair) =
        bind-some (pcmm_flowspec_envelope floats n (replicate 92 0)) _ (env, esz) h in
      let (e1, e2) = split_pair _ _ pair in
      let l = flowspec-length floats n e made in
      (ap length (sym e1) ∙ l, omega (arith, e2), omega (arith, e2))
  found_envelope-length floats no_profile env esz h = absurd (none-ne-some _ h)

  module _ (inet : Inet) where
    found_bytes-length :
        (found : Option (ClassifierType × Val)) (element : Option Val) (bs : Mem)
        → found_bytes json inet found element ≡ some bs
        → (24 ≤ length bs) × (length bs ≤ 64)
    found_bytes-length none element bs h = absurd (none-ne-some bs h)
    found_bytes-length (some (default_classifier, obj)) element bs h =
        let block = classifier_block json inet element (some obj) default_classifier bs h in
        (omega (arith, block.sized), omega (arith, block.sized))
    found_bytes-length (some (extended_classifier, obj)) element bs h =
        let block = classifier_block json inet element (some obj) extended_classifier bs h in
        (omega (arith, block.sized), omega (arith, block.sized))
    found_bytes-length (some (ipv6_classifier, obj)) element bs h =
        let block = classifier_block json inet element (some obj) ipv6_classifier bs h in
        (omega (arith, block.sized), omega (arith, block.sized))

    array_bytes-length :
        (left i : ℕ) (classifiers : Option Val) (bs : Mem)
        → array_bytes json inet left i classifiers ≡ some bs
        → (24 * left ≤ length bs) × (length bs ≤ 64 * left)
    unfolding array_bytes
    array_bytes-length zero i classifiers bs h =
        let e = some-injective _ _ h in (omega (arith, ap length e), omega (arith, ap length e))
    array_bytes-length (suc left) i classifiers bs h =
        let element = json.arr_get classifiers i in
        let (here, e, h') = bind-some (element_bytes json inet element) _ bs h in
        let (there, e', h'') = bind-some (array_bytes json inet left (i + 1) classifiers) _ bs h' in
        let total : length here + length there ≡ length bs =
          sym (length-append here there) ∙ ap length (some-injective _ _ h'') in
        let (low, high) =
          found_bytes-length (find_classifier json element) element here
            (element_bytes-find_classifier json inet element ∙ e) in
        let (low', high') = array_bytes-length left (i + 1) classifiers there e' in
        (omega arith, omega arith)

    in_range : (n : ℕ) → 1 ≤ n → n ≤ 5 → (n == 0 || ltb 5 n) ≡ false
    in_range n low high = ground arith

    read_gate_lem :
        (gate spec : Option Val) (gc : Gctl) (env bs : Mem)
        → 1 ≤ json.get_len (json.obj_get gate (str "classifiers"))
        → json.get_len (json.obj_get gate (str "classifiers")) ≤ 5
        → array_bytes json inet
            (json.get_len (json.obj_get gate (str "classifiers")))
            0
            (json.obj_get gate (str "classifiers"))
          ≡ some bs
        → read_gate json inet gate spec
            (record { gc = gc; classifier = replicate 320 0; envelope = env })
          ≡ some
              (filled (record gc { gate = read_spec json spec gc.gate }) env bs (320 - length bs))
    unfolding read_gate
    read_gate_lem gate spec gc env bs low high eb =
        let (_, u) = array_bytes-length _ 0 _ bs eb in
        rw (in_range (json.get_len (json.obj_get gate (str "classifiers"))) low high) (
          read_classifiers-fills json inet (record gc { gate = read_spec json spec gc.gate }) env
            (json.get_len (json.obj_get gate (str "classifiers"))) 0
            (json.obj_get gate (str "classifiers")) [] bs 320 eb (omega arith))

    -- A request with a gate and its specification, an envelope that is written in its cleared
    -- buffer, one to five classifiers, and cleared buffers, where each classifier has IPv4 addresses
    -- that `inet_pton` reads or IPv6 addresses of exactly eight groups: the request is
    -- accepted, each field is the value under its name in the JSON, and a service class name goes
    -- before a flow spec; the buffer of 320 bytes holds the bytes of the classifiers one
    -- behind the other and then zeros, and the sizes are 20 to 92 and 24 to 320, both within their
    -- buffers.
    pub gctl_read_policy-accepted :
        (floats : Floats) (garbage : Gctl) (input : Option Val) (gate spec : Val) (env bs : Mem)
        (esz : ℕ)
        → json.obj_get input (str "gate") ≡ some gate
        → json.obj_get (some gate) (str "gate-spec") ≡ some spec
        → profile_bytes json floats (json.obj_get (some gate) (str "traffic-profile"))
          ≡ some (env, esz)
        → 1 ≤ json.get_len (json.obj_get (some gate) (str "classifiers"))
        → json.get_len (json.obj_get (some gate) (str "classifiers")) ≤ 5
        → array_bytes json inet
            (json.get_len (json.obj_get (some gate) (str "classifiers")))
            0
            (json.obj_get (some gate) (str "classifiers"))
          ≡ some bs
        → (gctl_read_policy json inet floats garbage input (replicate 320 0) (replicate 92 0)
            ≡ some (record {
              gc =
                  accepted json garbage input
                    (json.obj_get (some gate) (str "traffic-profile"))
                    (some spec)
                    esz
                    (length bs);
              classifier = bs ++ replicate (320 - length bs) 0;
              envelope = env;
            }))
          × ((length env ≡ 92) × (20 ≤ esz) × (esz ≤ 92))
          × ((24 ≤ length bs) × (length bs ≤ 320))
    unfolding gctl_read_policy read_gate
    gctl_read_policy-accepted floats garbage input gate spec env bs esz eg es ep low high eb =
        let (l, u) = array_bytes-length _ 0 _ bs eb in
        let traffic = json.obj_get (some gate) (str "traffic-profile") in
        let found = find_profile-envelope json floats traffic ∙ ep in
        (
          rw (eg, es)
              (read_profile_lem floats _ (gctl_new_request json garbage input) (replicate 320 0) env
                  esz (read_gate json inet (some gate) (some spec)) found
                ∙ (read_gate_lem (some gate) (some spec) _ env bs low high eb
                    ∙ with_fields
                        (accepted_lem json garbage input traffic (some spec) esz (length bs)))),
          found_envelope-length floats _ env esz found,
          (omega arith, omega arith),
        )
      where
        with_fields :
            {gc gc' : Gctl}
            → gc ≡ gc'
            → ◌≡◌ {A = Option Policy}
                (some (record {
                  gc = gc;
                  classifier = bs ++ replicate (320 - length bs) 0;
                  envelope = env;
                }))
                (some (record {
                  gc = gc';
                  classifier = bs ++ replicate (320 - length bs) 0;
                  envelope = env;
                }))
        with_fields e = cc
