-- ===== src/Conf/File/Kept.antt =====
-- What holds of the options that src/conf.c reads from a configuration file.
use pcmm_policy_server.Base.{
  ℕ, ◌*◌, ◌^◌, ◌≤◌, ◌<◌, ◌≡◌, ◌⊎◌, inl, inr, refl, sym, ap, ◌∙◌, Bool, true, false, Option, none,
  some, List, [], ◌∷◌, ◌++◌, arith, lt→leb, length-append, if◌then◌else◌, length, Mem,
}
use pcmm_policy_server.Base.Text.{Str, str, matches}
use pcmm_policy_server.Api.Json.{Yyjson}
use pcmm_policy_server.Conf.{
  Settings, Conf, Outcome, options, exited, undefined, run_unittest, conf_get_defaults, contains,
}
use pcmm_policy_server.Conf.Ranges.{
  InRange, InRange-same, outcome, options-injective, no_options, if-options, assert-options,
  then_read-options, set_option-InRange,
}
use pcmm_policy_server.Conf.File.{
  or_undefined, int_leb, copy_address, copy_addresses, member_opt, read_member, read_members,
  read_root, conf_read_file,
}

or_undefined-options :
    {A : Type 0} (o : Option A) (next : A → Outcome) (out : Conf)
    → or_undefined o next ≡ options out
    → (a : A) × (next a ≡ options out)
unfolding or_undefined
or_undefined-options none next out h = no_options undefined out (unfold outcome in refl) h
or_undefined-options (some a) next out h = (a, h)

int_leb-≤ :
    (a b : ℕ) → int_leb a b ≡ true → a < 2 ^ 31 → (b ≤ 1000) ⊎ (2 ^ 31 ≤ b) → (a ≤ b) × (b ≤ 1000)
unfolding int_leb
int_leb-≤ a b h few (inl small) = ground arith
int_leb-≤ a b h few (inr negative) = ground arith

module _ {Val : Type 0} (json : Yyjson Val) (memory : Option Val → Mem) (raw : Val → Str) where
  -- An address of the preflight list that ends with its document: the copy reads past the end.
  pub copy_address_short :
      (value : Option Val) (ip : Str)
      → json.get_str value ≡ some ip
      → memory value ≡ ip ++ (0 ∷ [])
      → 0 < length ip
      → copy_address json memory raw value ≡ none
  unfolding copy_address
  copy_address_short value ip e e' long =
      rw
        (
          e,
          e',
          lt→leb (length ip * 8) (length (ip ++ (0 ∷ [])))
              (omega (arith, length-append ip (0 ∷ []))),
        )
        refl

  read_member-InRange :
      (arg : Str) (value : Val) (conf out : Conf)
      → InRange conf
      → read_member json memory raw arg value conf ≡ options out
      → InRange out
  unfolding read_member member_opt
  read_member-InRange arg value conf out h =
      if-options (matches arg (str "connect")) _ _ out
        (λ _ k.
          let (addresses, e) =
            or_undefined-options
              (copy_addresses json memory raw (json.get_len (some value)) 0 (some value)) _ out k in
          InRange-same (options-injective _ out e) (record {
            log_level = h.log_level;
            same_level = h.same_level;
            log_stdout = h.log_stdout;
            log_max_fsize = h.log_max_fsize;
            max_pep = h.max_pep;
            port = h.port;
          }))
        (λ _.
          if-options (matches arg (str "mode")) _ _ out
            (λ _ k.
              let (mode, e) = or_undefined-options (json.get_str (some value)) _ out k in
              InRange-same (options-injective _ out e)
                (mode_InRange (contains (str "unittest") mode)))
            (λ _ k. set_option-InRange conf out h arg _ k))
    where
      mode_InRange :
          (test : Bool)
          → InRange (
              if test
              then record conf { opts = record (conf.opts) { mode = run_unittest } }
              else conf)
      mode_InRange true = record {
        log_level = h.log_level;
        same_level = h.same_level;
        log_stdout = h.log_stdout;
        log_max_fsize = h.log_max_fsize;
        max_pep = h.max_pep;
        port = h.port;
      }
      mode_InRange false = h

  read_members-InRange :
      (members : List (Str × Val)) (conf out : Conf)
      → InRange conf
      → read_members json memory raw members conf ≡ options out
      → InRange out
  unfolding read_members
  read_members-InRange [] conf out h = λ e. InRange-same (options-injective conf out e) h
  read_members-InRange ((arg, value) ∷ members) conf out h = λ e.
      let (conf', e1, e2) =
        then_read-options (read_member json memory raw arg value conf) _ out e in
      read_members-InRange members conf' out (read_member-InRange arg value conf conf' h e1) e2

  -- Options that are read from a configuration file, on settings with their default ports and the
  -- default log level: they are in range, and with fewer than 2^31 preflight addresses the limit of
  -- sessions is neither negative nor above 1000, and not below the number of these addresses.
  pub conf_read_file-InRange :
      (file : Str → Option (List (Str × Val))) (path : Str) (settings : Settings) (out : Conf)
      → settings.thread_log_level ≡ 0
      → settings.ulfius_port ≡ 8000
      → settings.cmts_port ≡ 3918
      → out.opts.pflen < 2 ^ 31
      → conf_read_file json memory raw file path settings ≡ options out
      → InRange out × (out.opts.pflen ≤ out.opts.max_pep) × (out.opts.max_pep ≤ 1000)
  unfolding conf_read_file read_root
  conf_read_file-InRange file path settings out level api cmts few = read (file path)
    where
      defaults : InRange (record { settings = settings; opts = conf_get_defaults })
      defaults = record {
        log_level = omega arith;
        same_level = level;
        log_stdout = omega arith;
        log_max_fsize = (omega arith, omega arith);
        max_pep = inl (omega arith);
        port = (api, cmts);
      }

      read :
          (root : Option (List (Str × Val)))
          → read_root json memory raw settings root ≡ options out
          → InRange out × (out.opts.pflen ≤ out.opts.max_pep) × (out.opts.max_pep ≤ 1000)
      read none h = no_options exited out (unfold outcome in refl) h
      read (some members) h =
          let (conf, e, h') = then_read-options (read_members json memory raw members _) _ out h in
          let (fits, same) =
            assert-options (int_leb conf.opts.pflen conf.opts.max_pep) conf out h' in
          let range = read_members-InRange members _ conf defaults e in
          let range' : InRange out = InRange-same same range in
          let (below, small) =
            int_leb-≤ out.opts.pflen out.opts.max_pep
              (ap (λ c. int_leb c.opts.pflen c.opts.max_pep) (sym same) ∙ fits) few
              range'.max_pep in
          (range', below, small)
