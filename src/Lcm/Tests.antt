-- ===== src/Lcm/Tests.antt =====
-- The manager at concrete sessions.
use pcmm_policy_server.Base.{◌≡◌, refl, none, some, arith, replicate}
use pcmm_policy_server.Base.Text.{str}
use pcmm_policy_server.Lcm.{Client, Lcm, lcm_ok, lcm_init, lcm_alloc_ok, lcm_set}
use pcmm_policy_server.Lcm.Locks.{lcm_init_negative}

abbrev first : Client
first = record { pointer = 4096; cmts_addr = some (str "10.0.0.1") }

abbrev second : Client
second = record { pointer = 8192; cmts_addr = some (str "10.0.0.2") }

-- The limit -1.
lcm_init_negative_example :
    (self : Lcm) × (lcm_init 0 4294967295 ≡ some self)
    × (lcm_alloc_ok 0 (record self { count = 20; clients = replicate 20 (some first) }) ≡ lcm_ok)
    × (lcm_set 0 (record self { count = 20; clients = replicate 20 (some first) }) second ≡ none)
lcm_init_negative_example =
    lcm_init_negative 4294967295 20 (replicate 20 (some first)) second (omega arith) (omega arith)
      (omega arith) (omega arith) refl
