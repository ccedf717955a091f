-- ===== src/Api/Race/Tests.antt =====
-- Connect requests that overlap, at concrete addresses.
use pcmm_policy_server.Base.{
  ℕ, ◌≤◌, ◌<◌, ◌≡◌, ◌+◌, refl, none, some, List, [], ◌∷◌, arith, replicate,
}
use pcmm_policy_server.Base.Text.{Str, str, matches}
use pcmm_policy_server.Iputil.{is_ip4}
use pcmm_policy_server.Lcm.{lcm_alloc_ok, Client, search, lcm_getps, lcm_set, store}
use pcmm_policy_server.Lcm.Table.{find, Stored, Holds, stored_of}
use pcmm_policy_server.Api.{json_ok, gctl_lock_tid, Outside, Shared}
use pcmm_policy_server.Api.Admission.{AllDistinct, IsRegistered, session_at}
use pcmm_policy_server.Api.Peers.{inet, connect_to, first, limited, limited-IsRegistered}
use pcmm_policy_server.Api.Race.{
  update, absent, started, placed, Pc, asked, answered, step, run_schedule,
}
use pcmm_policy_server.Api.Race.Together.{
  Willing, waiting, Overlapped, overlapping_limit, overlapping_twice,
}
use pcmm_policy_server.Api.Race.Interleavings.{run_schedule-Settled}
use pcmm_policy_server.Api.Race.Settled.{Settled, AllRequested}

abbrev second : Str
second = str "10.0.0.2"

-- Every request is for the same address, and makes a session of its own.
abbrev outs : ℕ → Outside
outs i = record (connect_to second) { ps_new = some (8192 + i) }

willing : (i : ℕ) → Willing inet (outs i) second (8192 + i)
unfolding matches
willing i = record {
  free = (λ c. refl, refl, refl);
  body = omega arith;
  given = refl;
  address = 167772162;
  valid = refl;
  ready = refl;
  connects = refl;
  boots = omega arith;
}

registered : (n : ℕ) → 1 < n → n ≤ 20 → IsRegistered (limited n) (first ∷ [])
registered n low high = limited-IsRegistered n (omega arith) high

missing : find (some second) (first ∷ []) ≡ none
unfolding matches
missing = refl

one_of_two : 1 < 2
one_of_two = omega arith

two_of_twenty : 2 ≤ 20
two_of_twenty = omega arith

-- What two requests for the address leave, with a limit of two sessions.
abbrev Two : Type 0
Two =
    Overlapped inet outs second second 8192 8193 (limited 2) (first ∷ []) (willing 0) (willing 1)
      (registered 2 one_of_two two_of_twenty) missing missing one_of_two

overlapping_limit_example : (o : Two) × (o.after.lcm.count ≡ 3)
overlapping_limit_example =
    overlapping_limit inet outs second second 8192 8193 (limited 2) (first ∷ []) (willing 0)
      (willing 1) (registered 2 one_of_two two_of_twenty) missing missing one_of_two refl
      (omega arith)

overlapping_twice_example :
    Two × (¬ AllDistinct (first ∷ session_at 8192 second ∷ session_at 8193 second ∷ []))
overlapping_twice_example =
    overlapping_twice inet outs second 8192 8193 (limited 2) (first ∷ []) (willing 0) (willing 1)
      (registered 2 one_of_two two_of_twenty) missing one_of_two (omega arith)

-- A single request, to its end.
abbrev alone : List ℕ
alone = 0 ∷ 0 ∷ 0 ∷ 0 ∷ 0 ∷ []

abbrev answered_pcs : ℕ → Pc
answered_pcs =
    update
      (update
        (update (update (update waiting 0 (asked second)) 0 (absent second)) 0
          (started second 8192))
        0 (placed second 1))
      0 (answered (json_ok (some second)))

abbrev after : Shared
after = record {
  lcm = record {
    count = 2;
    maxpep = 2;
    clients = some first ∷ some (session_at 8192 second) ∷ replicate 18 none;
  };
  threads = 0 ∷ 77 ∷ replicate 18 0;
}

ran : run_schedule inet outs alone waiting (limited 2) ≡ some (answered_pcs, after)
unfolding run_schedule step matches lcm_getps search lcm_alloc_ok lcm_set store gctl_lock_tid is_ip4
ran = refl

run_schedule-Settled_example :
    (ds : List Client) × Stored after.lcm (first ∷ ds)
    × AllRequested outs ds
    × ((i : ℕ) → Settled (outs i) (answered_pcs i) (first ∷ ds))
run_schedule-Settled_example =
    run_schedule-Settled inet outs alone waiting answered_pcs (limited 2) after (first ∷ [])
      (λ i. (λ c. refl, refl, refl)) (stored_of (limited_Holds)) (λ i. record {}) ran
  where
    limited_Holds : Holds (limited 2).lcm (first ∷ [])
    limited_Holds = let (holds, _, _) = registered 2 one_of_two two_of_twenty in holds
