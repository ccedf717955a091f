-- ===== src/Api/Gates/Set.antt =====
-- The data of a GATE-SET in src/api/routes.c: the gate, the envelope and the classifiers in one array.
use pcmm_policy_server.Base.{
  ℕ, zero, suc, ◌+◌, ◌^◌, ◌%◌, ◌*◌, ◌≤◌, ◌<◌, ◌≡◌, refl, sym, ap, ◌∙◌, Option, none, some, [], ◌∷◌,
  ◌++◌, arith, length, length-append, length-replicate, length-take, length-drop, append_assoc,
  take, drop, replicate, Mem,
}
use pcmm_policy_server.Base.Fault.{◌>>=◌, bind_assoc}
use pcmm_policy_server.Base.Text.{Str}
use pcmm_policy_server.Pack.{concat_c8}
use pcmm_policy_server.Pack.Concat.{concat_c8-append, concat_c8-overflow}
use pcmm_policy_server.Pcmm.Objects.{pcmm_gate, vtof}
use pcmm_policy_server.Pcmm.Objects.Layout.{is_upstream, gate_bytes, pcmm_gate_lem}
use pcmm_policy_server.Session.{PcmmGate}
use pcmm_policy_server.Api.Policy.{Policy}
use pcmm_policy_server.Api.Gates.{gctl_policy_decision_size, join_parts}

pub take-append : (xs ys : Mem) (n : ℕ) → length xs ≡ n → take n (xs ++ ys) ≡ xs
take-append [] ys zero e = refl
take-append [] ys (suc n) e = absurd (omega arith)
take-append (x ∷ xs) ys zero e = absurd (omega arith)
take-append (x ∷ xs) ys (suc n) e = ap (λ t. x ∷ t) (take-append xs ys n (omega arith))

same_pair :
    {m m' : Mem} {i i' : ℕ}
    → m ≡ m'
    → i ≡ i'
    → ◌≡◌ {A = Option (Mem × ℕ)} (some (m, i)) (some (m', i'))
same_pair e e' = cc

-- Two parts at the front of a larger buffer: what it holds then, and how many bytes are left.
two_parts :
    (a b : Mem) (na nb : ℕ) (buffer : Mem)
    → na ≤ length a
    → nb ≤ length b
    → na + nb < length buffer
    → length buffer < 2 ^ 31
    → (tail : Mem) × ((concat_c8 buffer 0 a na >>= λ (d, i). concat_c8 d i b nb)
        ≡ some ((take na a ++ take nb b) ++ tail, na + nb))
      × (length tail + na + nb ≡ length buffer)
two_parts a b na nb buffer ha hb room small =
    let first = concat_c8-append [] buffer a na ha (omega arith) (omega arith) (omega arith) in
    let second =
      concat_c8-append (take na a) (0 ∷ drop (na + 1) buffer) b nb hb
        (omega (arith, length-drop (na + 1) buffer)) (omega arith)
        (omega (arith, length-take na a ha)) in
    (
      0 ∷ drop (nb + 1) (0 ∷ drop (na + 1) buffer),
      rw (first ∙ same_pair {i' = na} refl (omega arith)) (
          ap (λ i. concat_c8 (take na a ++ (0 ∷ drop (na + 1) buffer)) i b nb)
            (sym (length-take na a ha))
          ∙ (second
              ∙ same_pair
                  (sym (
                    append_assoc (take na a) (take nb b)
                      (0 ∷ drop (nb + 1) (0 ∷ drop (na + 1) buffer))))
                  (omega (arith, length-take na a ha)))),
      omega (arith, length-drop (na + 1) buffer, length-drop (nb + 1) (0 ∷ drop (na + 1) buffer)),
    )

-- The gate specification that is made of the request's gate.
abbrev pub gate_spec : Str → PcmmGate → Mem
gate_spec dir gate =
    gate_bytes (is_upstream dir + gate.dscp_tos_ovwr % 2 * 2 + 0 % 2 * 4)
      (gate.priority % 8 + gate.preemption % 2 * 8 + 0 % 16 * 16) gate.dscp_tos_ovwr
      gate.dscp_tos_mask gate.timer1 gate.timer2 gate.timer3 gate.timer4

-- `strcmp` on a null direction is a fault.
pub join_parts-null : (policy : Policy) → policy.gc.gate.direction ≡ none → join_parts policy ≡ none
unfolding join_parts pcmm_gate vtof
join_parts-null policy h =
    let gate = policy.gc.gate in
    let no_gate : pcmm_gate gate.direction gate.priority gate.preemption gate.dscp_tos_ovwr
          gate.dscp_tos_mask gate.timer1 gate.timer2 gate.timer3 gate.timer4 (replicate 16 0)
        ≡ none =
      ap
        (λ d.
          pcmm_gate d gate.priority gate.preemption gate.dscp_tos_ovwr gate.dscp_tos_mask
            gate.timer1 gate.timer2 gate.timer3 gate.timer4 (replicate 16 0))
        h in
    rw no_gate refl

module _ (policy : Policy) (dir : Str) (given : policy.gc.gate.direction ≡ some dir)
    (fits : policy.gc.envelope_size ≤ length policy.envelope)
    (at_most : policy.gc.envelope_size ≤ 92)
    (fits' : policy.gc.classifier_size ≤ length policy.classifier)
    (some_bytes : 0 < policy.gc.classifier_size) (at_most' : policy.gc.classifier_size ≤ 320) where
  abbrev spec_bytes : Mem
  spec_bytes = gate_spec dir policy.gc.gate

  abbrev len : ℕ
  len = 16 + policy.gc.envelope_size + policy.gc.classifier_size

  pub decision_size_lem :
      gctl_policy_decision_size 16 policy.gc.envelope_size policy.gc.classifier_size ≡ len
  unfolding gctl_policy_decision_size
  decision_size_lem = omega arith

  joined :
      (tail : Mem) × (join_parts policy ≡ (
        concat_c8
          ((spec_bytes ++ take policy.gc.envelope_size policy.envelope) ++ tail)
          (16 + policy.gc.envelope_size)
          policy.classifier
          policy.gc.classifier_size
        >>= λ (d, i). some (take len d)))
      × (length tail ≡ policy.gc.classifier_size)
  unfolding join_parts
  joined =
      let (tail, e, l) =
        two_parts spec_bytes policy.envelope 16 policy.gc.envelope_size (replicate len 0)
          (omega arith) fits (omega (arith, length-replicate {A = ℕ} len 0))
          (omega (arith, length-replicate {A = ℕ} len 0)) in
      (
        tail,
        rw (gate_made, decision_size_lem)
            (sym (
                bind_assoc (concat_c8 (replicate len 0) 0 spec_bytes 16)
                  (λ p. concat_c8 (p.0) (p.1) policy.envelope policy.gc.envelope_size)
                  (λ p. concat_c8 (p.0) (p.1) policy.classifier policy.gc.classifier_size >>= last))
              ∙ ap
                  (λ o. o >>= λ p.
                    concat_c8 (p.0) (p.1) policy.classifier policy.gc.classifier_size >>= last)
                  e),
        omega (arith, l, length-replicate {A = ℕ} len 0),
      )
    where
      last : Mem × ℕ → Option Mem
      last (d, i) = some (take len d)

      gate_made :
          pcmm_gate policy.gc.gate.direction policy.gc.gate.priority policy.gc.gate.preemption
            policy.gc.gate.dscp_tos_ovwr policy.gc.gate.dscp_tos_mask policy.gc.gate.timer1
            policy.gc.gate.timer2 policy.gc.gate.timer3 policy.gc.gate.timer4
            (replicate 16 0)
          ≡ some (spec_bytes, 16)
      gate_made =
          let gate = policy.gc.gate in
          ap
            (λ d.
              pcmm_gate d gate.priority gate.preemption gate.dscp_tos_ovwr gate.dscp_tos_mask
                gate.timer1 gate.timer2 gate.timer3 gate.timer4 (replicate 16 0))
            given
          ∙ pcmm_gate_lem dir gate.priority gate.preemption gate.dscp_tos_ovwr gate.dscp_tos_mask
              gate.timer1 gate.timer2 gate.timer3 gate.timer4 (replicate 16 0) [] refl

  -- The terminator of the last part is written past the end of the array.
  pub join_parts-overflow : join_parts policy ≡ none
  join_parts-overflow =
      let (tail, e, l) = joined in
      let front = spec_bytes ++ take policy.gc.envelope_size policy.envelope in
      e
      ∙ rw
          (concat_c8-overflow (front ++ tail) (16 + policy.gc.envelope_size) policy.classifier
            policy.gc.classifier_size fits'
            (omega (
              arith,
              l,
              length-append front tail,
              length-append spec_bytes (take policy.gc.envelope_size policy.envelope),
              length-take policy.gc.envelope_size policy.envelope fits,
            )))
          refl
