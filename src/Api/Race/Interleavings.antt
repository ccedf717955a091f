-- ===== src/Api/Race/Interleavings.antt =====
-- What holds in every order in which connect requests of src/api/routes.c take their steps.
use mathlib.Core.Option.{none-ne-some, some-injective}
use native.Mathlib.Decide.{dec_lt}
use pcmm_policy_server.Base.{
  leb, ℕ, ◌-◌, ◌^◌, ◌≡◌, refl, ◌⊎◌, inl, inr, sym, ap, ◌∙◌, Bool, true, false, ◌&&◌, not,
  Bool-cases, Option, none, some, List, [], ◌∷◌, ◌++◌, append-nil, append_assoc, arith, ◌==◌,
  if◌then◌else◌, length,
}
use pcmm_policy_server.Base.Fault.{bind-some}
use pcmm_policy_server.Base.Text.{Str}
use pcmm_policy_server.Iputil.{Inet, is_ip4}
use pcmm_policy_server.Lcm.{maxroom, lcm_err, Client, Lcm, lcm_getps, lcm_alloc_ok, lcm_set}
use pcmm_policy_server.Lcm.Table.{Stored, lcm_set-Stored, lcm_set_full, total}
use pcmm_policy_server.Api.{
  einvip, esockfail, enoroom, json_err, json_ok, callback_complete, Outside, gctl_lock_tid, Shared,
}
use pcmm_policy_server.Api.Admission.{session_at, IsFree}
use pcmm_policy_server.Api.Race.{
  Pc, begin, asked, absent, started, placed, answered, at_address, looked_up, made, step, update,
  run_schedule,
}
use pcmm_policy_server.Api.Race.Settled.{
  StandsAt, OkReply, Settled, AllRequested, get_elem-last, Settled-append,
}

abbrev result : Pc → Shared → Option (Pc × Shared)
result pc shared = some (pc, shared)

-- What a step leaves: the same sessions, or one more behind them.
abbrev Moved : Outside → Pc → Lcm → List Client → Type 0
Moved out pc lcm cs =
    (Stored lcm cs × Settled out pc cs)
    ⊎ ((ip : Str) × (ps : ℕ) × (out.cmts_ip ≡ some ip)
        × (out.ps_new ≡ some ps)
        × Stored lcm (cs ++ (session_at ps ip ∷ []))
        × Settled out pc (cs ++ (session_at ps ip ∷ [])))

module _ (inet : Inet) (out : Outside) (free : IsFree out) where
  Settled-looked_up :
      (ip : Str) (c : Option Client) (cs : List Client)
      → out.cmts_ip ≡ some ip
      → Settled out (looked_up ip c) cs
  Settled-looked_up ip none cs asks = asks
  Settled-looked_up ip (some c) cs asks = record {}

  Settled-made :
      (ip : Str) (ps : Option ℕ) (cs : List Client)
      → out.cmts_ip ≡ some ip
      → out.ps_new ≡ ps
      → Settled out (made out ip ps) cs
  Settled-made ip none cs asks makes = record {}
  Settled-made ip (some ps) cs asks makes =
      either (not out.dry_run && out.ps_admctl == 0) (answered (json_err esockfail)) _ (record {}) (
        either (out.ps_boot == 0) (answered (json_err esockfail)) (started ip ps) (record {})
          (asks, makes))
    where
      either :
          (test : Bool) (p q : Pc)
          → Settled out p cs
          → Settled out q cs
          → Settled out (if test then p else q) cs
      either true p q h k = h
      either false p q h k = k

  same :
      (pc pc' : Pc) (shared shared' : Shared) (cs : List Client)
      → Stored shared.lcm cs
      → Settled out pc cs
      → result pc shared ≡ result pc' shared'
      → Moved out pc' shared'.lcm cs
  same pc pc' shared shared' cs stored settled e =
      let q = some-injective (pc, shared) (pc', shared') e in
      let q1 : pc ≡ pc' = ap (λ x. x.0) q in
      let q2 : shared.lcm ≡ shared'.lcm = ap (λ x. x.1.lcm) q in
      inl (rw (← q2) stored, rw (← q1) settled)

  module _ (pc' : Pc) (shared shared' : Shared) (cs : List Client)
      (stored : Stored shared.lcm cs) where
    begin-Moved : step inet out begin shared ≡ some (pc', shared') → Moved out pc' shared'.lcm cs
    unfolding step
    begin-Moved e = elim (Bool-cases (out.binary_body_length == 0)) [
      | inl empty ↦
          same (answered callback_complete) pc' shared shared' cs stored (record {}) (rw empty at e)
      | inr body ↦
          let (pc, e1, e2) = bind-some (at_address inet out.cmts_ip) _ _ (rw body at e) in
          same pc pc' shared shared' cs stored (address out.cmts_ip pc refl e1) e2
    ]
      where
        refused_or :
            (test : Bool) (pc : Pc)
            → (if test then some (answered (json_err einvip)) else none) ≡ some pc
            → Settled out pc cs
        refused_or true pc h = rw (← some-injective (answered (json_err einvip)) pc h) (record {})
        refused_or false pc h = absurd (none-ne-some pc h)

        chosen :
            (ip : Str) (valid : Bool) (pc : Pc)
            → out.cmts_ip ≡ some ip
            → (if valid
                then some (asked ip)
                else if leb (length ip) 68
                then some (answered (json_err einvip))
                else none)
              ≡ some pc
            → Settled out pc cs
        chosen ip true pc asks h = rw (← some-injective (asked ip) pc h) asks
        chosen ip false pc asks h = refused_or (leb (length ip) 68) pc h

        address :
            (ip : Option Str) (pc : Pc)
            → out.cmts_ip ≡ ip
            → at_address inet ip ≡ some pc
            → Settled out pc cs
        address none pc asks h = absurd (none-ne-some pc h)
        address (some ip) pc asks h =
            let (valid, _, h') = bind-some (is_ip4 inet (some ip)) _ pc h in
            chosen ip valid pc asks h'

    asked-Moved :
        (ip : Str)
        → out.cmts_ip ≡ some ip
        → step inet out (asked ip) shared ≡ some (pc', shared')
        → Moved out pc' shared'.lcm cs
    unfolding step
    asked-Moved ip asks e =
        let (found, _, e') =
          bind-some (lcm_getps out.evnt_lock out.internal_lock (some shared.lcm) (some ip)) _ _ e in
        same (looked_up ip found.ps) pc' shared shared' cs stored
          (Settled-looked_up ip found.ps cs asks) e'

    absent-Moved :
        (ip : Str)
        → out.cmts_ip ≡ some ip
        → step inet out (absent ip) shared ≡ some (pc', shared')
        → Moved out pc' shared'.lcm cs
    unfolding step
    absent-Moved ip asks e =
        elim (Bool-cases (lcm_alloc_ok out.internal_lock shared.lcm == lcm_err)) [
          | inl full ↦
              same (answered (json_err enoroom)) pc' shared shared' cs stored (record {})
                (rw full at e)
          | inr room ↦
              same (made out ip out.ps_new) pc' shared shared' cs stored
                (Settled-made ip out.ps_new cs asks refl) (rw room at e)
        ]

    started-Moved :
        (ip : Str) (ps : ℕ)
        → out.cmts_ip ≡ some ip
        → out.ps_new ≡ some ps
        → step inet out (started ip ps) shared ≡ some (pc', shared')
        → Moved out pc' shared'.lcm cs
    unfolding step
    started-Moved ip ps asks makes e =
        let (_, internal, _) = free in
        let ((lcm, pos), e1, e2) =
          bind-some (lcm_set out.internal_lock shared.lcm (session_at ps ip)) _ _ e in
        set lcm pos (ap (λ l. lcm_set l shared.lcm (session_at ps ip)) (sym internal) ∙ e1) e2
      where
        set :
            (lcm : Lcm) (pos : ℕ)
            → lcm_set 0 shared.lcm (session_at ps ip) ≡ some (lcm, pos)
            → result (placed ip pos) (record shared { lcm = lcm }) ≡ result pc' shared'
            → Moved out pc' shared'.lcm cs
        set lcm pos e1 e2 = elim (dec_lt (length cs) maxroom) [
          | yes slot ↦
              let (lcm', e', _, stored') =
                lcm_set-Stored shared.lcm cs (session_at ps ip) stored slot in
              let both = some-injective (lcm', length cs) (lcm, pos) (sym e' ∙ e1) in
              let q : lcm' ≡ lcm = ap (λ x. x.0) both in
              let at_end : length cs ≡ pos = ap (λ x. x.1) both in
              let q' =
                some-injective (placed ip pos, record shared { lcm = lcm }) (pc', shared') e2 in
              let q1 : placed ip pos ≡ pc' = ap (λ x. x.0) q' in
              let q2 : lcm ≡ shared'.lcm = ap (λ x. x.1.lcm) q' in
              let own : Settled out (placed ip pos) (cs ++ (session_at ps ip ∷ [])) =
                (ps, asks, makes, rw (← at_end) (get_elem-last cs (session_at ps ip))) in
              let kept : Stored lcm (cs ++ (session_at ps ip ∷ [])) = rw (← q) stored' in
              inr (ip, ps, asks, makes, rw (← q2) kept, rw (← q1) own)
          | no full ↦ absurd (
              none-ne-some (lcm, pos)
                (sym (
                    lcm_set_full shared.lcm cs (session_at ps ip) stored (
                      omega (
                        arith,
                        total shared.lcm cs (session_at ps ip) stored stored.rest stored.slots,
                      )))
                  ∙ e1))
        ]

    placed-Moved :
        (ip : Str) (pos : ℕ)
        → StandsAt out ip cs pos
        → step inet out (placed ip pos) shared ≡ some (pc', shared')
        → Moved out pc' shared'.lcm cs
    unfolding step
    placed-Moved ip pos has e =
        let ((threads, ok), _, e') =
          bind-some
            (gctl_lock_tid out out.ps_boot (if pos == lcm_err then 2 ^ 64 - 1 else pos)
              shared.threads)
            _ _ e in
        same _ pc' (record shared { threads = threads }) shared' cs stored (settled ok) e'
      where
        settled : (ok : Bool) → OkReply out (if ok then json_ok (some ip) else callback_complete) cs
        settled true = (pos, has)
        settled false = record {}

  step-Moved :
      (pc pc' : Pc) (shared shared' : Shared) (cs : List Client)
      → Stored shared.lcm cs
      → Settled out pc cs
      → step inet out pc shared ≡ some (pc', shared')
      → Moved out pc' shared'.lcm cs
  step-Moved begin pc' shared shared' cs stored settled e =
      begin-Moved pc' shared shared' cs stored e
  step-Moved (asked ip) pc' shared shared' cs stored settled e =
      asked-Moved pc' shared shared' cs stored ip settled e
  step-Moved (absent ip) pc' shared shared' cs stored settled e =
      absent-Moved pc' shared shared' cs stored ip settled e
  step-Moved (started ip ps) pc' shared shared' cs stored settled e =
      let (asks, makes) = settled in started-Moved pc' shared shared' cs stored ip ps asks makes e
  step-Moved (placed ip pos) pc' shared shared' cs stored settled e =
      placed-Moved pc' shared shared' cs stored ip pos settled e
  step-Moved (answered reply) pc' shared shared' cs stored settled e =
      same (answered reply) pc' shared shared' cs stored settled (unfold step in e)

Settled-update :
    (outs : ℕ → Outside) (pcs : ℕ → Pc) (i : ℕ) (pc : Pc) (cs : List Client)
    → Settled (outs i) pc cs
    → ((j : ℕ) → Settled (outs j) (pcs j) cs)
    → (j : ℕ) → Settled (outs j) (update pcs i pc j) cs
Settled-update outs pcs i pc cs h all j = elim (Bool-cases (i == j)) [
  | inl this ↦ let same : i ≡ j = ground arith in rw (this, ← same) h
  | inr other ↦ rw other (all j)
]

-- Any number of requests that find their locks free, in any order of their steps: no session that
-- stands in the manager is lost; behind them stand others, each of them the one that some request has
-- made, at the address that this request asks for; and a request that is answered that it is
-- connected asked for the address in the answer and has the session that it has made among them.
pub run_schedule-Settled :
    (inet : Inet) (outs : ℕ → Outside) (schedule : List ℕ) (pcs pcs' : ℕ → Pc)
    (shared shared' : Shared) (cs : List Client)
    → ((i : ℕ) → IsFree (outs i))
    → Stored shared.lcm cs
    → ((i : ℕ) → Settled (outs i) (pcs i) cs)
    → run_schedule inet outs schedule pcs shared ≡ some (pcs', shared')
    → (ds : List Client) × Stored shared'.lcm (cs ++ ds)
      × AllRequested outs ds
      × ((i : ℕ) → Settled (outs i) (pcs' i) (cs ++ ds))
unfolding run_schedule
run_schedule-Settled inet outs [] pcs pcs' shared shared' cs free stored settled e =
    let q = some-injective _ _ e in
    let q1 : pcs ≡ pcs' = ap (λ x. x.0) q in
    let q2 : shared.lcm ≡ shared'.lcm = ap (λ x. x.1.lcm) q in
    ([], rw (append-nil, ← q2) stored, record {}, λ i. rw (append-nil, ← q1) (settled i))
run_schedule-Settled inet outs (i ∷ schedule) pcs pcs' shared shared' cs free stored settled e =
    let ((pc, shared1), e1, e2) = bind-some (step inet (outs i) (pcs i) shared) _ _ e in
    elim (step-Moved inet (outs i) (free i) (pcs i) pc shared shared1 cs stored (settled i) e1) [
      | inl (stored1, here) ↦
          run_schedule-Settled inet outs schedule (update pcs i pc) pcs' shared1 shared' cs free
            stored1 (Settled-update outs pcs i pc cs here settled) e2
      | inr (ip, ps, asks, makes, stored1, here) ↦
          let d = session_at ps ip in
          let (ds, stored2, requested, settled2) =
            run_schedule-Settled inet outs schedule (update pcs i pc) pcs' shared1 shared'
              (cs ++ (d ∷ [])) free stored1
              (Settled-update outs pcs i pc (cs ++ (d ∷ [])) here
                (λ j. Settled-append (outs j) (pcs j) cs d (settled j)))
              e2 in
          let moved = append_assoc cs (d ∷ []) ds in
          (
            d ∷ ds,
            rw (← moved) stored2,
            ((i, ip, ps, asks, makes, refl), requested),
            λ j. rw (← moved) (settled2 j),
          )
    ]
