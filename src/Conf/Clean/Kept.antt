-- ===== src/Conf/Clean/Kept.antt =====
-- What the removal of old files in src/conf.c takes away, and what it keeps.
use pcmm_policy_server.Base.{
  ℕ, zero, suc, ◌≤◌, ◌<◌, ◌≡◌, ◌⊎◌, refl, sym, ap, ◌∙◌, Bool, true, false, Bool-cases, ◌||◌, not,
  inl, inr, some, List, [], ◌∷◌, ◌++◌, arith, if◌then◌else◌, length, take, ltb, ◌&&◌,
}
use native.Mathlib.Decide.{dec_lt}
use pcmm_policy_server.Base.Text.{Str, str, matches, matches_self, matches-ne}
use pcmm_policy_server.Conf.{contains, starts_with}
use pcmm_policy_server.Conf.Clean.{
  Disk, Change, removed, cleared, error_log_file, orphan_entry_file, clean_logs, clean_data,
  conf_clean_dirs,
}

abbrev pub logs_file : Str → Str
logs_file name = str "logs/" ++ name

abbrev pub data_file : Str → Str
data_file name = str "data/" ++ name

abbrev pub is_log : Str → Bool
is_log path = contains (str ".log") path

abbrev pub is_report : Str → Bool
is_report path = contains (str "IGNORE") path || contains (str "yrpt") path

-- What the loops change when nothing fails.
unfoldable pub log_changes : List Str → List Change
log_changes [] = []
log_changes (name ∷ names) =
    if matches name (str "error.log")
    then cleared error_log_file ∷ log_changes names
    else if is_log (logs_file name)
    then removed (logs_file name) ∷ log_changes names
    else log_changes names

unfoldable pub data_changes : List Str → List Change
data_changes [] = []
data_changes (name ∷ names) =
    if is_report (data_file name)
    then removed (data_file name) ∷ data_changes names
    else data_changes names

-- Names that fit in the array `path`.
abbrev pub AllFit : List Str → Type 0
AllFit [] = Unit
AllFit (name ∷ names) = (length name ≤ 250) × AllFit names

-- A text that another one starts with is its first bytes.
starts_with-take :
    (pre s : Str) → starts_with pre s ≡ true → (pre ≡ take (length pre) s) × (length pre ≤ length s)
unfolding starts_with
starts_with-take [] s h = (refl, omega arith)
starts_with-take (c ∷ pre) [] h = ground arith
starts_with-take (c ∷ pre) (d ∷ s) h =
    let (rest, fits) = starts_with-take pre s (ground arith) in
    let same : c ≡ d = ground arith in
    (ap (λ t. c ∷ t) rest ∙ ap (λ e. e ∷ take (length pre) s) same, omega (arith, fits))

-- No shorter name that `error.log` starts with is that of a log.
abbrev none_below : ℕ → Bool
none_below zero = true
none_below (suc k) = not (is_log (logs_file (take k (str "error.log")))) && none_below k

only_whole :
    (n k : ℕ) → none_below n ≡ true → k < n → is_log (logs_file (take k (str "error.log"))) ≡ false
only_whole zero k h less = absurd (omega arith)
only_whole (suc n) k h less = elim (dec_lt k n) [
  | yes below ↦ only_whole n k (ground arith) below
  | no last ↦ let same : k ≡ n = omega arith in rw same (ground arith)
]

pub not_both : {b : Bool} → b ≡ false → b ≡ true → ⊥
not_both h k = ground arith

-- `strstr(ERROR_LOG_FILE, path)` finds only the path of the error log itself.
error_log-starts :
    (name : Str) → contains (logs_file name) error_log_file ≡ starts_with name (str "error.log")
unfolding contains starts_with
error_log-starts name = ground arith

error_log-matches :
    (name : Str)
    → is_log (logs_file name) ≡ true
    → contains (logs_file name) error_log_file ≡ true
    → name ≡ str "error.log"
error_log-matches name log h =
    let (same, fits) = starts_with-take name (str "error.log") (sym (error_log-starts name) ∙ h) in
    elim (dec_lt (length name) 9) [
      | yes short ↦ absurd (
          not_both (ap (λ t. is_log (logs_file t)) same ∙ only_whole 9 (length name) checked short)
            log)
      | no whole ↦
          same ∙ ap (λ k. take k (str "error.log")) {x = length name} {y = 9} (omega (arith, fits))
    ]
  where
    checked : none_below 9 ≡ true
    checked = unfold contains starts_with in refl

error_log-is_log : is_log error_log_file ≡ true
unfolding contains starts_with
error_log-is_log = refl

pub error_log_self : contains error_log_file error_log_file ≡ true
unfolding contains starts_with
error_log_self = refl

-- What the two tests on a name say.
tests-cases :
    (name : Str)
    → ((is_log (logs_file name) ≡ false) × (matches name (str "error.log") ≡ false))
      ⊎ ((is_log (logs_file name) ≡ true)
          × (contains (logs_file name) error_log_file ≡ matches name (str "error.log")))
tests-cases name = elim (Bool-cases (is_log (logs_file name))) [
  | inr other ↦ inl (
    other,
    matches-ne name (str "error.log")
        (λ same. not_both (sym (ap (λ t. is_log (logs_file t)) same) ∙ other) error_log-is_log),
  )
  | inl log ↦ inr (
    log,
    elim (Bool-cases (contains (logs_file name) error_log_file)) [
      | inl found ↦
          found
          ∙ sym (
              ap (λ t. matches t (str "error.log")) (error_log-matches name log found)
              ∙ matches_self (str "error.log"))
      | inr missing ↦
          missing
          ∙ sym (
              matches-ne name (str "error.log") (λ same.
                not_both (sym (ap (λ t. contains (logs_file t) error_log_file) same) ∙ missing)
                  error_log_self))
    ],
  )
]

fits_path : (name : Str) → length name ≤ 250 → ltb (length (logs_file name)) 256 ≡ true
fits_path name h = ground arith

module _ (disk : Disk) (all_removed : (path : Str) → disk.remove path ≡ true)
    (all_opened : (path : Str) → disk.opens path ≡ true) where
  clean_logs_lem :
      (names : List Str) → AllFit names → clean_logs disk names ≡ some (true, log_changes names)
  unfolding clean_logs log_changes
  clean_logs_lem [] fits = refl
  clean_logs_lem (name ∷ names) (short, fits) = elim (tests-cases name) [
    | inl (other, differs) ↦
        rw (fits_path name short, other, differs, clean_logs_lem names fits) refl
    | inr (log, same) ↦ elim (Bool-cases (matches name (str "error.log"))) [
      | inl error_log ↦
          rw
            (
              fits_path name short,
              log,
              same,
              error_log,
              all_opened error_log_file,
              clean_logs_lem names fits,
            )
            refl
      | inr differs ↦
          rw
            (
              fits_path name short,
              log,
              same,
              differs,
              all_removed (logs_file name),
              clean_logs_lem names fits,
            )
            refl
    ]
  ]

  clean_data_lem :
      (names : List Str) → AllFit names → clean_data disk names ≡ some (true, data_changes names)
  unfolding clean_data data_changes
  clean_data_lem [] fits = refl
  clean_data_lem (name ∷ names) (short, fits) = elim (Bool-cases (is_report (data_file name))) [
    | inl report ↦
        rw (fits_path name short, report, all_removed (data_file name), clean_data_lem names fits)
          refl
    | inr other ↦ rw (fits_path name short, other, clean_data_lem names fits) refl
  ]

  -- Two directories with names of at most 250 bytes, where all files can be removed and opened: the
  -- result is 0. Of the logs exactly the files with `.log` in their names are removed, except
  -- `error.log`, which is cleared; of the data exactly those with `IGNORE` or `yrpt` in their names;
  -- and the file of orphans is cleared.
  pub conf_clean_dirs_lem :
      (logs data_files : List Str)
      → disk.logs ≡ some logs
      → disk.data_files ≡ some data_files
      → AllFit logs
      → AllFit data_files
      → conf_clean_dirs disk
        ≡ some
            (0, log_changes logs ++ (data_changes data_files ++ (cleared orphan_entry_file ∷ [])))
  unfolding conf_clean_dirs clean_logs log_changes clean_data data_changes
  conf_clean_dirs_lem logs data_files el ed fits_l fits_d =
      rw
        (
          el,
          clean_logs_lem logs fits_l,
          ed,
          clean_data_lem data_files fits_d,
          all_opened orphan_entry_file,
        )
        refl
