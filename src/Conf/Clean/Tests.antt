-- ===== src/Conf/Clean/Tests.antt =====
-- Removing concrete old files.
use pcmm_policy_server.Base.{◌≡◌, refl, true, some, List, [], ◌∷◌, ◌++◌, arith}
use pcmm_policy_server.Base.Text.{Str, str}
use pcmm_policy_server.Conf.{contains, starts_with}
use pcmm_policy_server.Conf.Clean.{
  Disk, Change, removed, cleared, error_log_file, orphan_entry_file, clean_logs, clean_data,
  conf_clean_dirs,
}
use pcmm_policy_server.Conf.Clean.Kept.{log_changes, data_changes, conf_clean_dirs_lem}
use pcmm_policy_server.Conf.Clean.Spared.{AllOld, conf_clean_dirs-AllOld}

abbrev logs : List Str
logs = str "10_0_0_1.log" ∷ str "error.log" ∷ str ".." ∷ []

abbrev data_files : List Str
data_files = str "yrpt_515.txt" ∷ str "config.json" ∷ []

abbrev disk : Disk
disk = record {
  logs = some logs;
  data_files = some data_files;
  remove = λ path. true;
  opens = λ path. true;
}

conf_clean_dirs_lem_example :
    conf_clean_dirs disk
    ≡ some (0, log_changes logs ++ (data_changes data_files ++ (cleared orphan_entry_file ∷ [])))
conf_clean_dirs_lem_example =
    conf_clean_dirs_lem disk (λ path. refl) (λ path. refl) logs data_files refl refl
      (omega arith, (omega arith, (omega arith, record {}))) (omega arith, (omega arith, record {}))

-- The response file cannot be removed.
abbrev stuck : Disk
stuck = record disk { remove = λ path. contains (str ".log") path }

abbrev changed : List Change
changed = removed (str "logs/10_0_0_1.log") ∷ cleared error_log_file ∷ []

run : conf_clean_dirs stuck ≡ some (1, changed)
unfolding conf_clean_dirs clean_logs clean_data contains starts_with
run = refl

conf_clean_dirs-AllOld_example : AllOld changed
conf_clean_dirs-AllOld_example = conf_clean_dirs-AllOld stuck 1 changed run
