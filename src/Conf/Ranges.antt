-- ===== src/Conf/Ranges.antt =====
-- What holds of the options that src/conf.c reads, and of the manager that src/api/lcm.c makes of them.
use mathlib.Core.Option.{none-ne-some, some-injective}
use pcmm_policy_server.Base.{
  ℕ, ◌*◌, ◌^◌, ◌≤◌, ◌<◌, ◌≡◌, ◌⊎◌, inl, refl, sym, ap, ◌∙◌, Bool, true, false, ◌&&◌, ◌||◌, not,
  Option, none, some, List, [], ◌∷◌, arith, ◌==◌, ltb, if◌then◌else◌,
}
use pcmm_policy_server.Base.Text.{Str, str, matches}
use pcmm_policy_server.Lcm.{maxroom, lcm_init}
use pcmm_policy_server.Lcm.Table.{lcm_init-none}
use pcmm_policy_server.Conf.{
  Settings, Conf, Outcome, options, aborted, exited, undefined, conf_set_client_defaults, contains,
  key_of, conf_argparse_get, assert, at_most_1000, set_option, starts_with, conf_set_ka_timer,
  conf_set_ac_timer, conf_set_connect_timeout, conf_argparse_opt, then_read, read_args, conf_read,
}

-- The options are in range, and every thread logs at the level of the program.
pub record InRange (conf : Conf) : Type 0 where
  pub log_level : conf.opts.log_level < 6
  pub same_level : conf.settings.thread_log_level ≡ conf.opts.log_level
  pub log_stdout : conf.opts.log_stdout ≤ 1
  pub log_max_fsize : (0 < conf.opts.log_max_fsize) × (conf.opts.log_max_fsize < 2 ^ 30)
  pub max_pep : (conf.opts.max_pep ≤ 1000) ⊎ (2 ^ 31 ≤ conf.opts.max_pep)
  pub port : (conf.settings.ulfius_port ≡ 8000) × (conf.settings.cmts_port ≡ 3918)

pub InRange-same : {a b : Conf} → a ≡ b → InRange a → InRange b
InRange-same e h = rw (← e) h

unfoldable pub outcome : Outcome → Option Conf
outcome (options conf) = some conf
outcome aborted = none
outcome exited = none
outcome undefined = none

pub options-injective : (a b : Conf) → options a ≡ options b → a ≡ b
unfolding outcome
options-injective a b h = some-injective a b (ap outcome h)

pub no_options : {P : Type 0} (o : Outcome) (a : Conf) → outcome o ≡ none → o ≡ options a → P
unfolding outcome
no_options o a e h = absurd (none-ne-some a (sym e ∙ ap outcome h))

pub if-options :
    (test : Bool) (m n : Outcome) (a : Conf) {P : Type 0}
    → (test ≡ true → m ≡ options a → P)
    → (test ≡ false → n ≡ options a → P)
    → (if test then m else n) ≡ options a
    → P
if-options true m n a k k' h = k refl h
if-options false m n a k k' h = k' refl h

pub assert-options :
    (test : Bool) (conf a : Conf) → assert test conf ≡ options a → (test ≡ true) × (conf ≡ a)
assert-options true conf a h = (refl, options-injective conf a h)
assert-options false conf a h = no_options aborted a (unfold outcome in refl) h

module _ (conf out : Conf) (h : InRange conf) where
  pub set_option-InRange :
      (arg : Str) (rval : ℕ) → set_option arg rval conf ≡ options out → InRange out
  unfolding set_option
  set_option-InRange arg rval =
      if-options (contains (str "max_pep") arg) _ _ out
        (λ _ k.
          let (ok, e) = assert-options (at_most_1000 rval) _ out k in
          InRange-same e (record {
            log_level = h.log_level;
            same_level = h.same_level;
            log_stdout = h.log_stdout;
            log_max_fsize = h.log_max_fsize;
            max_pep = limit ok;
            port = h.port;
          }))
        (λ _.
          if-options (contains (str "log_level") arg) _ _ out
            (λ _ k.
              let (ok, e) = assert-options (ltb rval 6) _ out k in
              InRange-same e (record {
                log_level = below_6 ok;
                same_level = refl;
                log_stdout = h.log_stdout;
                log_max_fsize = h.log_max_fsize;
                max_pep = h.max_pep;
                port = h.port;
              }))
            (λ _.
              if-options (contains (str "log_stdout") arg) _ _ out
                (λ _ k.
                  let (ok, e) = assert-options (rval == 0 || rval == 1) _ out k in
                  InRange-same e (record {
                    log_level = h.log_level;
                    same_level = h.same_level;
                    log_stdout = one_bit ok;
                    log_max_fsize = h.log_max_fsize;
                    max_pep = h.max_pep;
                    port = h.port;
                  }))
                (λ _.
                  if-options (contains (str "log_max_fsize") arg) _ _ out
                    (λ _ k.
                      let (ok, e) =
                        assert-options (ltb 0 rval && ltb rval (1024 * 1024 * 1024)) _ out k in
                      InRange-same e (record {
                        log_level = h.log_level;
                        same_level = h.same_level;
                        log_stdout = h.log_stdout;
                        log_max_fsize = some_bytes ok;
                        max_pep = h.max_pep;
                        port = h.port;
                      }))
                    (λ _. timers))))
    where
      limit : at_most_1000 rval ≡ true → (rval ≤ 1000) ⊎ (2 ^ 31 ≤ rval)
      limit ok = ground arith

      below_6 : ltb rval 6 ≡ true → rval < 6
      below_6 ok = ground arith

      one_bit : (rval == 0 || rval == 1) ≡ true → rval ≤ 1
      one_bit ok = ground arith

      some_bytes :
          (ltb 0 rval && ltb rval (1024 * 1024 * 1024)) ≡ true → (0 < rval) × (rval < 2 ^ 30)
      some_bytes ok = ground arith

      kept :
          (settings : Settings)
          → settings.thread_log_level ≡ conf.settings.thread_log_level
          → settings.ulfius_port ≡ conf.settings.ulfius_port
          → settings.cmts_port ≡ conf.settings.cmts_port
          → options (record conf { settings = settings }) ≡ options out
          → InRange out
      kept settings level api cmts k =
          let (api', cmts') = h.port in
          InRange-same (options-injective _ out k) (record {
            log_level = h.log_level;
            same_level = level ∙ h.same_level;
            log_stdout = h.log_stdout;
            log_max_fsize = h.log_max_fsize;
            max_pep = h.max_pep;
            port = (api ∙ api', cmts ∙ cmts');
          })

      timers :
          (if contains (str "ka_timer") arg
              then options (record conf { settings = conf_set_ka_timer rval conf.settings })
              else if contains (str "ac_timer") arg
              then options (record conf { settings = conf_set_ac_timer rval conf.settings })
              else if contains (str "connect_timeout") arg
              then options (record conf { settings = conf_set_connect_timeout rval conf.settings })
              else exited)
            ≡ options out
          → InRange out
      timers =
          if-options (contains (str "ka_timer") arg) _ _ out (λ _ k. kept _ refl refl refl k)
            (λ _.
              if-options (contains (str "ac_timer") arg) _ _ out (λ _ k. kept _ refl refl refl k)
                (λ _.
                  if-options (contains (str "connect_timeout") arg) _ _ out
                    (λ _ k. kept _ refl refl refl k)
                    (λ _ k. no_options exited out (unfold outcome in refl) k)))

pub then_read-options :
    (o : Outcome) (next : Conf → Outcome) (a : Conf)
    → then_read o next ≡ options a
    → (conf : Conf) × (o ≡ options conf) × (next conf ≡ options a)
then_read-options (options conf) next a h = (conf, refl, h)
then_read-options aborted next a h = no_options aborted a (unfold outcome in refl) h
then_read-options exited next a h = no_options exited a (unfold outcome in refl) h
then_read-options undefined next a h = no_options undefined a (unfold outcome in refl) h

-- No argument names a configuration file.
abbrev pub no_config : List Str → Bool
no_config [] = true
no_config (arg ∷ args) = not (contains (str "config") arg) && no_config args

module _ (conf_read_file : Str → Settings → Outcome) (out : Conf) where
  read_args-InRange :
      (args : List Str) (conf : Conf)
      → no_config args ≡ true
      → InRange conf
      → read_args conf_read_file args conf ≡ options out
      → InRange out
  unfolding read_args conf_argparse_opt
  read_args-InRange [] conf plain h = λ e. InRange-same (options-injective conf out e) h
  read_args-InRange (arg ∷ args) conf plain h =
      if-options (contains (str "config") arg) _ _ out
        (λ named _. absurd (none-ne-some true (clash named)))
        (λ _.
          if-options (matches arg (str "unittest")) _ _ out
            (λ _ k.
              read_args-InRange args _ (later plain)
                (record {
                  log_level = h.log_level;
                  same_level = h.same_level;
                  log_stdout = h.log_stdout;
                  log_max_fsize = h.log_max_fsize;
                  max_pep = h.max_pep;
                  port = h.port;
                })
                k)
            (λ _.
              if-options (matches arg (str "server")) _ _ out
                (λ _ k. read_args-InRange args conf (later plain) h k)
                (λ _ k.
                  let (conf', e, k') = then_read-options (conf_argparse_opt arg conf) _ out k in
                  read_args-InRange args conf' (later plain) (option conf' e) k')))
    where
      clash : contains (str "config") arg ≡ true → none ≡ some true
      clash named = ground arith

      later : (not (contains (str "config") arg) && no_config args) ≡ true → no_config args ≡ true
      later p = ground arith

      option : (conf' : Conf) → conf_argparse_opt arg conf ≡ options conf' → InRange conf'
      option conf' =
          if-options (contains (str "=") arg) _ _ conf'
            (λ _ k. set_option-InRange conf conf' h (key_of arg) (conf_argparse_get arg) k)
            (λ _ k. no_options undefined conf' (unfold outcome in refl) k)

  -- A command line without a configuration file that is read: the log level is 0 to 5 and that of
  -- every thread, the other log options and the ports are in range, and the limit of sessions is at
  -- most 1000 or negative.
  pub conf_read-InRange :
      (args : List Str)
      → no_config args ≡ true
      → conf_read conf_read_file args ≡ options out
      → InRange out
  unfolding conf_read conf_set_client_defaults
  conf_read-InRange [] plain h = no_options aborted out (unfold outcome in refl) h
  conf_read-InRange (arg ∷ args) plain h =
      read_args-InRange (arg ∷ args) _ plain
        (record {
          log_level = omega arith;
          same_level = refl;
          log_stdout = omega arith;
          log_max_fsize = (omega arith, omega arith);
          max_pep = inl (omega arith);
          port = (refl, refl);
        })
        h

-- A limit of 21 to 1000 sessions is accepted as an option, and makes no manager: the server does not
-- start.
pub set_option-lcm_init :
    (n : ℕ) (conf : Conf)
    → maxroom < n
    → n ≤ 1000
    → (set_option (str "max_pep") n conf
        ≡ options (record conf { opts = record (conf.opts) { max_pep = n } }))
      × (lcm_init 0 n ≡ none)
unfolding set_option contains starts_with
set_option-lcm_init n conf big small = (rw accepted refl, lcm_init-none n 0 big (omega arith))
  where
    accepted : at_most_1000 n ≡ true
    accepted = ground arith
