-- ===== src/Conf/Tests.antt =====
-- Options at concrete command lines.
use pcmm_policy_server.Base.{◌≡◌, refl, List, [], ◌∷◌}
use pcmm_policy_server.Base.Text.{Str, str, matches}
use pcmm_policy_server.Iputil.{atoi}
use pcmm_policy_server.Conf.{
  Settings, Conf, Outcome, options, undefined, starts_with, contains, key_of, value_of,
  conf_argparse_get, set_option, conf_argparse_opt, read_args, conf_read, conf_set_client_defaults,
  conf_get_defaults,
}
use pcmm_policy_server.Conf.Ranges.{InRange, conf_read-InRange}

abbrev no_file : Str → Settings → Outcome
no_file path settings = undefined

abbrev args : List Str
args = str "server" ∷ str "log_level=2" ∷ str "ka_timer=90" ∷ []

abbrev conf : Conf
conf = record {
  settings = record {
    ka_timer = 90;
    ac_timer = 0;
    thread_log_level = 2;
    connect_timeout = 4;
    ulfius_af_type = 2;
    ulfius_port = 8000;
    cmts_port = 3918;
    app_id = 3474;
  };
  opts = record conf_get_defaults { log_level = 2 };
}

reads : conf_read no_file args ≡ options conf
unfolding conf_read read_args conf_argparse_opt set_option contains starts_with key_of value_of
    conf_argparse_get atoi matches conf_set_client_defaults
reads = refl

conf_read-InRange_example : InRange conf
unfolding contains starts_with
conf_read-InRange_example = conf_read-InRange no_file conf args refl reads
