-- ===== src/Api/Tests.antt =====
-- Connecting to a CMTS at concrete requests.
use pcmm_policy_server.Base.{◌≡◌, refl, some, [], ◌∷◌, arith}
use pcmm_policy_server.Base.Text.{str, matches}
use pcmm_policy_server.Api.{json_ok, Shared, gctl_connect}
use pcmm_policy_server.Api.Admission.{session_at, IsRegistered, gctl_connect-IsRegistered}
use pcmm_policy_server.Api.Peers.{inet, connect_to, first, limited, limited-IsRegistered}
use pcmm_policy_server.Api.Reset.{kills, without, gctl_lcm_reset, gctl_lcm_reset-IsRegistered}

gctl_connect-IsRegistered_example :
    (shared' : Shared) × (gctl_connect inet (connect_to (str "10.0.0.2")) (limited 2)
      ≡ some (shared', json_ok (some (str "10.0.0.2"))))
    × IsRegistered shared' (first ∷ session_at 8192 (str "10.0.0.2") ∷ [])
    × (shared'.lcm.maxpep ≡ 2)
unfolding matches
gctl_connect-IsRegistered_example =
    gctl_connect-IsRegistered inet (connect_to (str "10.0.0.2")) (limited 2) (first ∷ [])
      (str "10.0.0.2") 167772162 (λ c. refl, refl, refl)
      (limited-IsRegistered 2 (omega arith) (omega arith)) (omega arith) refl refl 8192 refl
      (omega arith) refl refl (omega arith)

-- The socket of the session is 5.
gctl_lcm_reset-IsRegistered_example :
    (shared' : Shared) × (gctl_lcm_reset (λ c. 5) 0 0 0 (limited 2)
      ≡ some (shared', kills (λ c. 5) (first ∷ []) (limited 2).threads))
    × IsRegistered shared' []
    × (shared'.lcm.maxpep ≡ 2)
    × (shared'.threads ≡ without 1 (limited 2).threads)
gctl_lcm_reset-IsRegistered_example =
    gctl_lcm_reset-IsRegistered (λ c. 5) 0 0 (limited 2) (first ∷ [])
      (limited-IsRegistered 2 (omega arith) (omega arith))
