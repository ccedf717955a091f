-- ===== src/Conf/File/Tests.antt =====
-- Options from a concrete configuration file.
use pcmm_policy_server.Base.{
  fill, ◌≤◌, ◌≡◌, refl, Option, none, some, List, [], ◌∷◌, ◌++◌, arith, replicate, Mem,
  if◌then◌else◌,
}
use pcmm_policy_server.Base.Text.{Str, str, matches}
use pcmm_policy_server.Api.Samples.{Json, text, num, arr, obj, item, end, json}
use pcmm_policy_server.Conf.{
  Settings, Conf, options, no_settings, conf_set_client_defaults, conf_get_defaults, contains,
  starts_with, set_option,
}
use pcmm_policy_server.Conf.Ranges.{InRange}
use pcmm_policy_server.Conf.File.{
  or_undefined, int_leb, copy_address, copy_addresses, member_opt, read_member, read_members,
  read_root, conf_read_file,
}
use pcmm_policy_server.Conf.File.Kept.{conf_read_file-InRange}

-- Behind a text lie zeros.
abbrev memory : Option Json → Mem
memory none = []
memory (some (text s)) = s ++ replicate 64 0
memory (some (num n)) = []
memory (some (arr vs)) = []
memory (some (obj fs)) = []

-- The first byte of a number is its tag.
abbrev raw : Json → Str
raw v = 4 ∷ []

abbrev members : List (Str × Json)
members =
    (str "max_pep", num 8)
    ∷ (str "log_level", num 2)
    ∷ (str "connect", arr (item (text (str "10.0.0.1")) end))
    ∷ []

abbrev file : Str → Option (List (Str × Json))
file path = if matches path (str "conf.json") then some members else none

abbrev settings : Settings
settings = conf_set_client_defaults no_settings

abbrev conf : Conf
conf = record {
  settings = record settings { thread_log_level = 2 };
  opts = record conf_get_defaults {
    max_pep = 8;
    log_level = 2;
    preflight = (str "10.0.0.1" ++ replicate 56 0) ∷ [];
    pflen = 1;
  };
}

reads : conf_read_file json memory raw file (str "conf.json") settings ≡ options conf
unfolding conf_read_file read_root read_members read_member member_opt set_option contains
    starts_with matches conf_set_client_defaults copy_address copy_addresses or_undefined int_leb
    fill
reads = refl

conf_read_file-InRange_example :
    InRange conf × (conf.opts.pflen ≤ conf.opts.max_pep) × (conf.opts.max_pep ≤ 1000)
unfolding conf_set_client_defaults
conf_read_file-InRange_example =
    conf_read_file-InRange json memory raw file (str "conf.json") settings conf refl refl refl
      (omega arith) reads
