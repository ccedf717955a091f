-- ===== src/Lcm/Rc/Tests.antt =====
-- The file for two sessions.
use pcmm_policy_server.Base.{◌≡◌, refl, true, some, [], ◌∷◌, ◌++◌, arith, replicate, List, ℕ, map}
use pcmm_policy_server.Base.Text.{Str, str}
use pcmm_policy_server.Lcm.{Lcm}
use pcmm_policy_server.Lcm.Table.{Holds}
use pcmm_policy_server.Lcm.Rc.{header_row, init_with_rc}
use pcmm_policy_server.Lcm.Rc.Rows.{entry, rows, set_all, init_with_rc-rows}
use pcmm_policy_server.Api.Responses.{decimal, is_text, is_text_lem}

abbrev sessions : List (ℕ × Str)
sessions = (4096, str "10.0.0.1") ∷ (8192, str "10.0.0.2") ∷ []

-- An old file, and the directory /srv.
init_with_rc-rows_example :
    (lcm : Lcm) × (lcm' : Lcm) × (init_with_rc true
        (str "/srv" ++ (0 ∷ replicate 95 0))
        (some (str "old"))
        0
        2
      ≡ some (some lcm, some header_row))
    × (set_all lcm sessions (some header_row) ≡ some (lcm', some (header_row ++ rows 1 sessions)))
    × Holds lcm' (map entry sessions)
init_with_rc-rows_example =
    init_with_rc-rows (str "/srv") (replicate 95 0) (some (str "old")) 2 sessions
      (is_text_lem (str "/srv") (unfold is_text in refl)) (omega arith) (omega arith) (omega arith)

printed : rows 1 sessions ≡ str "1,10.0.0.1" ++ (10 ∷ (str "2,10.0.0.2" ++ (10 ∷ [])))
unfolding rows decimal
printed = refl
