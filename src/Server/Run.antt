-- ===== src/Server/Run.antt =====
-- How `main` of src/main.c ends.
use pcmm_policy_server.Base.{
  ℕ, ◌≤◌, ◌<◌, ◌≡◌, refl, ◌∙◌, inl, inr, Bool-cases, true, some, List, [], map, arith, length,
  replicate, u8,
}
use pcmm_policy_server.Base.Text.{Str, str}
use pcmm_policy_server.Iputil.{Inet}
use pcmm_policy_server.Lcm.{maxroom}
use pcmm_policy_server.Lcm.Table.{lcm_init-Holds, lcm_init-none}
use pcmm_policy_server.Api.{Outside, Shared}
use pcmm_policy_server.Api.Admission.{AllDistinct, IsRegistered}
use pcmm_policy_server.Conf.{Conf, options, set_option, conf_get_ulfius_af_type}
use pcmm_policy_server.Conf.Clean.{Disk, Change, conf_clean_dirs}
use pcmm_policy_server.Conf.Ranges.{set_option-lcm_init}
use pcmm_policy_server.Server.{
  Body, Startup, failed, init_framework, serve_from, gctl_webapi_init, run_mode, run, main,
}
use pcmm_policy_server.Server.Preflight.{
  Peer, bytes_of, session_of, AllConnect, oks, connect_all-IsRegistered,
}

-- What the start needs of the calls outside: every one succeeds.
pub record Succeeds (startup : Startup) : Type 0 where
  pub lock : startup.lcm_lock_init ≡ 0
  pub instance4 : startup.init_instance ≡ true
  pub instance6 : startup.init_instance_ipv6 ≡ true
  pub internal : startup.internal_lock_init ≡ 0
  pub start : startup.start_framework ≡ true

module _ (inet : Inet) (parse : Str → Body) (startup : Startup) (calls : ℕ → Outside) where
  framework : Succeeds startup → (family : ℕ) → init_framework startup family ≡ true
  framework s family = let a = s.instance4 in let b = s.instance6 in ground arith

  -- Where old files can be removed, `main` goes on to the run mode.
  run-mode :
      (disk : Disk) (line : ℕ) (conf : Conf) (changes : List Change)
      → conf_clean_dirs disk ≡ some (0, changes)
      → run inet parse startup calls disk line conf ≡ run_mode inet parse startup calls line conf
  unfolding run
  run-mode disk line conf changes clean = elim (Bool-cases conf.opts.log_purge) [
    | inl purge ↦ rw (purge, clean) refl
    | inr keep ↦ rw keep refl
  ]

  -- Options for the server with a limit of at most 20 sessions and a preflight list of at most as
  -- many addresses that all connect, no two the same; old files can be removed and every call of the
  -- start succeeds: the exit code is 0, all replies are the addresses, and what the API works on has
  -- exactly the sessions of the list, in its order.
  pub main-IsRegistered :
      (disk : Disk) (changes : List Change) (line : ℕ) (conf : Conf) (ps : List Peer)
      → conf_clean_dirs disk ≡ some (0, changes)
      → Succeeds startup
      → conf.opts.mode ≡ 0
      → conf.opts.max_pep ≤ maxroom
      → conf.opts.preflight ≡ map bytes_of ps
      → length ps ≤ conf.opts.max_pep
      → AllConnect inet parse calls 0 ps
      → AllDistinct (map session_of ps)
      → (shared : Shared) × (main inet parse startup calls disk line (options conf)
          ≡ some (record { code = 0; shared = some shared; replies = oks inet parse ps }))
        × IsRegistered shared (map session_of ps)
  unfolding main gctl_webapi_init serve_from
  main-IsRegistered disk changes line conf ps clean s server small listed few all distinct =
      let (lcm, made, limit, holds) = lcm_init-Holds conf.opts.max_pep small in
      let (shared, e, registered) =
        connect_all-IsRegistered inet parse calls 0 ps
          (record { lcm = lcm; threads = replicate maxroom 0 }) [] all (holds, record {}, refl)
          distinct (omega (arith, limit)) in
      (
        shared,
        run-mode disk line conf changes clean
            ∙ rw
                (
                  server,
                  s.lock,
                  framework s (u8 (conf_get_ulfius_af_type conf.settings)),
                  s.internal,
                  made,
                  s.start,
                  listed,
                  e,
                )
                refl,
        registered,
      )

  -- A limit of 21 to 1000 sessions is accepted as an option of the server, and then the server does
  -- not start: where the removal of old files returns, the exit code is 1, whatever it and the calls
  -- of the start return.
  pub main-set_option :
      (disk : Disk) (code : ℕ) (changes : List Change) (line n : ℕ) (conf : Conf)
      → conf_clean_dirs disk ≡ some (code, changes)
      → maxroom < n
      → n ≤ 1000
      → conf.opts.mode ≡ 0
      → main inet parse startup calls disk line (set_option (str "max_pep") n conf) ≡ some failed
  unfolding main run gctl_webapi_init serve_from
  main-set_option disk code changes line n conf clean big small server =
      let (accepted, _) = set_option-lcm_init n conf big small in
      rw (accepted, server, clean)
        (ground (arith, lcm_init-none n startup.internal_lock_init big (omega arith)))
