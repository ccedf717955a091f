-- ===== src/Api/Race/Together.antt =====
-- Two connect requests that both pass the tests of src/api/routes.c before either is registered.
use mathlib.Core.Option.{none-ne-some}
use pcmm_policy_server.Base.{
  ℕ, ◌+◌, ◌<◌, ◌≡◌, ◌≢◌, refl, sym, ◌∙◌, true, false, ◌&&◌, not, none, some, List, [], ◌∷◌, ◌++◌,
  append_assoc, arith, ◌==◌, ne→==, length, length-append,
}
use pcmm_policy_server.Base.Text.{Str, matches_self}
use pcmm_policy_server.Iputil.{Inet, is_ip4}
use pcmm_policy_server.Lcm.{maxroom, lcm_err, lcm_ok, Client, Lcm, lcm_alloc_ok}
use pcmm_policy_server.Lcm.Table.{
  Stored, Holds, stored_of, find, lcm_set-Stored, lcm_set_full, lcm_getps-find, lcm_alloc_ok_lem,
}
use pcmm_policy_server.Api.{json_ok, Outside, gctl_lock_tid, Shared}
use pcmm_policy_server.Api.Admission.{AllDistinct, IsRegistered, session_at, IsFree, store-length}
use pcmm_policy_server.Api.Race.{
  Pc, begin, asked, absent, started, placed, answered, step, update, run_schedule,
}

-- A valid request for `ip` that finds all locks free, and whose session is made, connects and gets
-- its thread.
pub record Willing (inet : Inet) (out : Outside) (ip : Str) (ps : ℕ) : Type 0 where
  pub free : IsFree out
  pub body : out.binary_body_length ≢ 0
  pub given : out.cmts_ip ≡ some ip
  pub address : ℕ
  pub valid : inet.pton4 ip ≡ some address
  pub ready : out.ps_new ≡ some ps
  pub connects : (not out.dry_run && out.ps_admctl == 0) ≡ false
  pub boots : out.ps_boot ≢ 0

module _ (inet : Inet) (out : Outside) (ip : Str) (ps : ℕ) (w : Willing inet out ip ps) where
  step-begin : (shared : Shared) → step inet out begin shared ≡ some (asked ip, shared)
  unfolding step
  step-begin shared = rw (ne→== out.binary_body_length 0 w.body, w.given, accepted) refl
    where
      accepted : is_ip4 inet (some ip) ≡ some true
      accepted = let valid = w.valid in unfold is_ip4 in ground arith

  module _ (shared : Shared) (cs : List Client) (h : Holds shared.lcm cs) where
    step-asked :
        find (some ip) cs ≡ none → step inet out (asked ip) shared ≡ some (absent ip, shared)
    unfolding step
    step-asked missing =
        let (evnt, internal, _) = w.free in
        rw (internal, lcm_getps-find out.evnt_lock evnt shared.lcm cs (some ip) h, missing) refl

    step-absent :
        length cs < shared.lcm.maxpep
        → step inet out (absent ip) shared ≡ some (started ip ps, shared)
    unfolding step
    step-absent less =
        let (_, internal, _) = w.free in
        rw (internal, has_room, w.ready, w.connects, ne→== out.ps_boot 0 w.boots) refl
      where
        has_room : lcm_alloc_ok 0 shared.lcm ≡ lcm_ok
        has_room = lcm_alloc_ok_lem shared.lcm cs h ∙ ground arith

  module _ (shared : Shared) (cs : List Client) (h : Stored shared.lcm cs) where
    step-started :
        length cs < maxroom
        → (lcm : Lcm) × (step inet out (started ip ps) shared
            ≡ some (placed ip (length cs), record shared { lcm = lcm }))
          × (lcm.maxpep ≡ shared.lcm.maxpep)
          × Stored lcm (cs ++ (session_at ps ip ∷ []))
    unfolding step
    step-started less =
        let (_, internal, _) = w.free in
        let (lcm, e, kept, stored) = lcm_set-Stored shared.lcm cs (session_at ps ip) h less in
        (lcm, rw (internal, e) refl, kept, stored)

    step-started_full : length cs ≡ maxroom → step inet out (started ip ps) shared ≡ none
    unfolding step
    step-started_full full =
        let (_, internal, _) = w.free in
        rw (internal, lcm_set_full shared.lcm cs (session_at ps ip) h full) refl

  step-placed :
      (shared : Shared) (pos : ℕ)
      → pos < length shared.threads
      → length shared.threads ≡ maxroom
      → (threads : List ℕ) × (step inet out (placed ip pos) shared
          ≡ some (answered (json_ok (some ip)), record shared { threads = threads }))
        × (length threads ≡ maxroom)
  unfolding step gctl_lock_tid
  step-placed shared pos less places =
      let (_, _, outer) = w.free in
      let (threads, e, l) = store-length pos out.ps_boot shared.threads less in
      (threads, rw (outer, ne→== pos lcm_err (omega arith), e) refl, l ∙ places)

-- Both pass, then each goes into the table and the array.
abbrev pub overlapping : List ℕ
overlapping = 0 ∷ 0 ∷ 0 ∷ 1 ∷ 1 ∷ 1 ∷ 0 ∷ 0 ∷ 1 ∷ 1 ∷ []

abbrev pub waiting : ℕ → Pc
waiting i = begin

module _ (inet : Inet) (outs : ℕ → Outside) (ip ip' : Str) (ps ps' : ℕ) (shared : Shared)
    (cs : List Client) (w : Willing inet (outs 0) ip ps) (w' : Willing inet (outs 1) ip' ps')
    (registered : IsRegistered shared cs) (missing : find (some ip) cs ≡ none)
    (missing' : find (some ip') cs ≡ none) (less : length cs < shared.lcm.maxpep) where
  -- The state after both have passed.
  abbrev passed : ℕ → Pc
  passed =
      update
        (update
          (update (update (update (update waiting 0 (asked ip)) 0 (absent ip)) 0 (started ip ps)) 1
            (asked ip'))
          1 (absent ip'))
        1 (started ip' ps')

  both_pass :
      (schedule : List ℕ)
      → run_schedule inet outs (0 ∷ 0 ∷ 0 ∷ 1 ∷ 1 ∷ 1 ∷ schedule) waiting shared
        ≡ run_schedule inet outs schedule passed shared
  unfolding run_schedule
  both_pass schedule =
      let (holds, _, _) = registered in
      rw
        (
          step-begin inet (outs 0) ip ps w shared,
          step-asked inet (outs 0) ip ps w shared cs holds missing,
          step-absent inet (outs 0) ip ps w shared cs holds less,
          step-begin inet (outs 1) ip' ps' w' shared,
          step-asked inet (outs 1) ip' ps' w' shared cs holds missing',
          step-absent inet (outs 1) ip' ps' w' shared cs holds less,
        )
        refl

  -- What two requests that overlap leave.
  pub record Overlapped : Type 0 where
    pub pcs : ℕ → Pc
    pub after : Shared
    pub ran : run_schedule inet outs overlapping waiting shared ≡ some (pcs, after)
    pub first : pcs 0 ≡ answered (json_ok (some ip))
    pub second : pcs 1 ≡ answered (json_ok (some ip'))
    pub stored : Stored after.lcm (cs ++ (session_at ps ip ∷ session_at ps' ip' ∷ []))
    pub limit : after.lcm.maxpep ≡ shared.lcm.maxpep

  both_stored : length cs + 1 < maxroom → Overlapped
  unfolding run_schedule
  both_stored slots =
      let (holds, _, places) = registered in
      let (lcm1, e1, k1, stored1) =
        step-started inet (outs 0) ip ps w shared cs (stored_of holds) (omega arith) in
      let shared1 : Shared = record shared { lcm = lcm1 } in
      let (threads2, e2, l2) =
        step-placed inet (outs 0) ip ps w shared1 (length cs) (omega (arith, places)) places in
      let shared2 : Shared = record { lcm = lcm1; threads = threads2 } in
      let cs' = cs ++ (session_at ps ip ∷ []) in
      let more = length-append cs (session_at ps ip ∷ []) in
      let (lcm3, e3, k3, stored3) =
        step-started inet (outs 1) ip' ps' w' shared2 cs' stored1 (omega (arith, more)) in
      let shared3 : Shared = record { lcm = lcm3; threads = threads2 } in
      let (threads4, e4, l4) =
        step-placed inet (outs 1) ip' ps' w' shared3 (length cs') (omega (arith, l2, more)) l2 in
      record {
        pcs =
            update
              (update
                (update (update passed 0 (placed ip (length cs))) 0 (answered (json_ok (some ip))))
                1 (placed ip' (length cs')))
              1 (answered (json_ok (some ip')));
        after = record { lcm = lcm3; threads = threads4 };
        ran = both_pass (0 ∷ 0 ∷ 1 ∷ 1 ∷ []) ∙ rw (e1, e2, e3, e4) refl;
        first = refl;
        second = refl;
        stored = rw (← append_assoc cs (session_at ps ip ∷ []) (session_at ps' ip' ∷ [])) stored3;
        limit = k3 ∙ k1;
      }

  -- Two requests that overlap at the limit, with a slot for each: both are answered that they are
  -- connected, and the manager holds one session more than its limit.
  pub overlapping_limit :
      length cs + 1 ≡ shared.lcm.maxpep
      → shared.lcm.maxpep < maxroom
      → (o : Overlapped) × (o.after.lcm.count ≡ shared.lcm.maxpep + 1)
  overlapping_limit last slots =
      let o = both_stored (omega arith) in
      (
        o,
        omega (
          arith,
          o.stored.counted,
          length-append cs (session_at ps ip ∷ session_at ps' ip' ∷ []),
        ),
      )

  -- With all slots but one in use, the second of two requests that overlap writes past the table.
  pub overlapping_full :
      length cs + 1 ≡ maxroom → run_schedule inet outs overlapping waiting shared ≡ none
  unfolding run_schedule
  overlapping_full last =
      let (holds, _, places) = registered in
      let (lcm1, e1, _, stored1) =
        step-started inet (outs 0) ip ps w shared cs (stored_of holds) (omega arith) in
      let shared1 : Shared = record shared { lcm = lcm1 } in
      let (threads2, e2, _) =
        step-placed inet (outs 0) ip ps w shared1 (length cs) (omega (arith, places)) places in
      let shared2 : Shared = record { lcm = lcm1; threads = threads2 } in
      let more = length-append cs (session_at ps ip ∷ []) in
      both_pass (0 ∷ 0 ∷ 1 ∷ 1 ∷ [])
      ∙ rw
          (
            e1,
            e2,
            step-started_full inet (outs 1) ip' ps' w' shared2 (cs ++ (session_at ps ip ∷ []))
                stored1 (omega (arith, more)),
          )
          refl

same_twice :
    (cs : List Client) (ip : Str) (ps ps' : ℕ)
    → ¬ AllDistinct (cs ++ (session_at ps ip ∷ session_at ps' ip ∷ []))
same_twice [] ip ps ps' (absent', _) =
    none-ne-some (session_at ps' ip) (sym absent' ∙ rw (matches_self ip) refl)
same_twice (c ∷ cs) ip ps ps' (_, all) = same_twice cs ip ps ps' all

-- Two requests for one address that overlap, where neither finds a session and two slots are left:
-- both are answered that they are connected, and the manager holds two sessions at the address.
pub overlapping_twice :
    (inet : Inet) (outs : ℕ → Outside) (ip : Str) (ps ps' : ℕ) (shared : Shared) (cs : List Client)
    (w : Willing inet (outs 0) ip ps) (w' : Willing inet (outs 1) ip ps')
    (registered : IsRegistered shared cs) (missing : find (some ip) cs ≡ none)
    (less : length cs < shared.lcm.maxpep)
    → length cs + 1 < maxroom
    → Overlapped inet outs ip ip ps ps' shared cs w w' registered missing missing less
      × (¬ AllDistinct (cs ++ (session_at ps ip ∷ session_at ps' ip ∷ [])))
overlapping_twice inet outs ip ps ps' shared cs w w' registered missing less slots = (
  both_stored inet outs ip ip ps ps' shared cs w w' registered missing missing less slots,
  same_twice cs ip ps ps',
)
