-- ===== src/Conf/Clean.antt =====
-- The removal of old files in src/conf.c: `conf_clean_dirs` and `conf_clean_dangling_log`.
pub mod Kept
pub mod Spared
mod Tests
use pcmm_policy_server.Base.{
  ℕ, Bool, true, false, ◌||◌, not, Option, none, some, List, [], ◌∷◌, ◌++◌, ltb, if◌then◌else◌,
  length,
}
use pcmm_policy_server.Base.Fault.{◌>>=◌}
use pcmm_policy_server.Base.Text.{Str, str}
use pcmm_policy_server.Conf.{contains, path_size}

-- The names that `readdir` gives for the two directories, where they can be opened, whether `remove`
-- removes a path, and whether a path can be opened for writing.
pub record Disk : Type 0 where
  pub logs : Option (List Str)
  pub data_files : Option (List Str)
  pub remove : Str → Bool
  pub opens : Str → Bool

pub data Change : Type 0 where
  removed : Str → Change
  cleared : Str → Change

-- `ERROR_LOG_FILE`, `ORPHAN_ENTRY_FILE` and `PATH_SIZE`
abbrev pub error_log_file : Str
error_log_file = str "logs/error.log"

abbrev pub orphan_entry_file : Str
orphan_entry_file = str "data/__orphan__"

-- `sprintf(path, "%s/%s", dir, name)`, which may leave `path`.
abbrev pub print_path : Str → Str → Option Str
print_path dir name =
    let path = dir ++ (b'/' ∷ name) in if ltb (length path) path_size then some path else none

-- `fclose(fopen(path, "w"))`
abbrev pub clear : Disk → Str → Option Change
clear disk path = if disk.opens path then some (cleared path) else none

-- A change before those that follow it.
abbrev pub after : Change → Bool × List Change → Option (Bool × List Change)
after change (ok, changes) = some (ok, change ∷ changes)

-- The loop over the logs: whether it came to its end, and what it changed.
unfoldable pub clean_logs : Disk → List Str → Option (Bool × List Change)
clean_logs disk [] = some (true, [])
clean_logs disk (name ∷ names) =
    let rest = clean_logs disk names in
    print_path (str "logs") name >>= λ path.
    if not (contains (str ".log") path)
    then rest
    else if contains path error_log_file
    then (clear disk error_log_file >>= λ change. rest >>= after change)
    else if disk.remove path
    then (rest >>= after (removed path))
    else some (false, [])

-- The loop over the response files and those of tests.
unfoldable pub clean_data : Disk → List Str → Option (Bool × List Change)
clean_data disk [] = some (true, [])
clean_data disk (name ∷ names) =
    let rest = clean_data disk names in
    print_path (str "data") name >>= λ path.
    if not (contains (str "IGNORE") path || contains (str "yrpt") path)
    then rest
    else if disk.remove path
    then (rest >>= after (removed path))
    else some (false, [])

-- `conf_clean_dangling_log`
abbrev pub conf_clean_dangling_log : Disk → Option Change
conf_clean_dangling_log disk = clear disk orphan_entry_file

-- The result of the second loop, behind what the first one changed.
abbrev pub then_orphans : Disk → List Change → Bool × List Change → Option (ℕ × List Change)
then_orphans disk changes (ok, changes') =
    if not ok
    then some (1, changes ++ changes')
    else (conf_clean_dangling_log disk >>= λ change.
        some (0, changes ++ (changes' ++ (change ∷ []))))

-- The second loop, unless the first one stopped.
abbrev pub then_data : Disk → Bool × List Change → Option (ℕ × List Change)
then_data disk (ok, changes) =
    if not ok
    then some (1, changes)
    else (disk.data_files >>= λ names. clean_data disk names >>= then_orphans disk changes)

unfoldable pub conf_clean_dirs : Disk → Option (ℕ × List Change)
conf_clean_dirs disk = disk.logs >>= λ names. clean_logs disk names >>= then_data disk
