-- ===== src/Server/Tests.antt =====
-- The start of the server with two addresses.
use pcmm_policy_server.Base.{
  ℕ, ◌≡◌, refl, true, false, some, List, [], ◌∷◌, arith, ◌==◌, if◌then◌else◌, take, drop, map,
}
use pcmm_policy_server.Base.Text.{Str, str, matches}
use pcmm_policy_server.Api.{Outside, Shared}
use pcmm_policy_server.Api.Admission.{IsRegistered}
use pcmm_policy_server.Conf.{
  Conf, options, no_settings, conf_set_client_defaults, conf_get_defaults, set_option,
}
use pcmm_policy_server.Conf.{contains, starts_with}
use pcmm_policy_server.Conf.Clean.{
  Disk, Change, removed, cleared, error_log_file, orphan_entry_file, clean_logs, clean_data,
  conf_clean_dirs,
}
use pcmm_policy_server.Server.{Body, Startup, failed, main}
use pcmm_policy_server.Server.Preflight.{Peer, bytes_of, session_of, AllConnect, oks}
use pcmm_policy_server.Server.Run.{main-IsRegistered, main-set_option}
use pcmm_policy_server.Api.Peers.{inet, connect_to}

-- The address behind the 23 bytes before it.
abbrev parse : Str → Body
parse body = record { cmts_ip = some (take 8 (drop 23 body)); dry_run = false }

abbrev startup : Startup
startup = record {
  lcm_lock_init = 0;
  init_instance = true;
  init_instance_ipv6 = true;
  internal_lock_init = 0;
  start_framework = true;
}

-- One old log and the error log.
abbrev disk : Disk
disk = record {
  logs = some (str "10_0_0_1.log" ∷ str "error.log" ∷ str "." ∷ []);
  data_files = some (str "yrpt_515.txt" ∷ str "config.json" ∷ []);
  remove = λ path. true;
  opens = λ path. true;
}

abbrev changes : List Change
changes =
    removed (str "logs/10_0_0_1.log")
    ∷ cleared error_log_file
    ∷ removed (str "data/yrpt_515.txt")
    ∷ cleared orphan_entry_file
    ∷ []

clean : conf_clean_dirs disk ≡ some (0, changes)
unfolding conf_clean_dirs clean_logs clean_data contains starts_with
clean = refl

abbrev peers : List Peer
peers =
    record { ip = str "10.0.0.2"; ps = 4096; behind = [] }
    ∷ record { ip = str "10.0.0.1"; ps = 8192; behind = [] }
    ∷ []

abbrev calls : ℕ → Outside
calls i = record (connect_to []) { ps_new = if i == 0 then some 4096 else some 8192 }

abbrev conf : Conf
conf = record {
  settings = conf_set_client_defaults no_settings;
  opts = record conf_get_defaults { preflight = map bytes_of peers; pflen = 2 };
}

all_connect : AllConnect inet parse calls 0 peers
unfolding matches
all_connect = (
  record {
    address = 167772162;
    valid = refl;
    text = omega arith;
    short = omega arith;
    parsed = refl;
    free = (λ c. refl, refl, refl);
    made = refl;
    connects = omega arith;
    boots = omega arith;
  },
  (
    record {
      address = 167772161;
      valid = refl;
      text = omega arith;
      short = omega arith;
      parsed = refl;
      free = (λ c. refl, refl, refl);
      made = refl;
      connects = omega arith;
      boots = omega arith;
    },
    record {},
  ),
)

main-IsRegistered_example :
    (shared : Shared) × (main inet parse startup calls disk 69 (options conf)
      ≡ some (record { code = 0; shared = some shared; replies = oks inet parse peers }))
    × IsRegistered shared (map session_of peers)
unfolding matches
main-IsRegistered_example =
    main-IsRegistered inet parse startup calls disk changes 69 conf peers clean
      (record { lock = refl; instance4 = refl; instance6 = refl; internal = refl; start = refl })
      refl (omega arith) refl (omega arith) all_connect (refl, (refl, record {}))

main-set_option_example :
    main inet parse startup calls disk 69 (set_option (str "max_pep") 64 conf) ≡ some failed
main-set_option_example =
    main-set_option inet parse startup calls disk 0 changes 69 64 conf clean (omega arith)
      (omega arith) refl
