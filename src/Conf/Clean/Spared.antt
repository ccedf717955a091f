-- ===== src/Conf/Clean/Spared.antt =====
-- What the removal of old files in src/conf.c never touches, even where it fails.
use pcmm_policy_server.Base.{
  ℕ, ◌≡◌, ◌≢◌, ◌⊎◌, refl, sym, ap, ◌∙◌, Bool, true, false, Bool-cases, inl, inr, Option, none, some,
  List, [], ◌∷◌, ◌++◌, ltb, length, if◌then◌else◌,
}
use mathlib.Core.Option.{none-ne-some, some-injective}
use pcmm_policy_server.Base.Fault.{◌>>=◌, bind-some, guard-some}
use pcmm_policy_server.Base.Text.{Str}
use pcmm_policy_server.Conf.{contains}
use pcmm_policy_server.Conf.Clean.{
  Disk, Change, removed, cleared, error_log_file, orphan_entry_file, clear, after, clean_logs,
  clean_data, then_orphans, then_data, conf_clean_dirs,
}
use pcmm_policy_server.Conf.Clean.Kept.{
  logs_file, data_file, is_log, is_report, not_both, error_log_self,
}

-- A log other than the error log, or a response file or one of the tests, is removed; the error log
-- or the file of orphans is cleared.
abbrev pub IsOld : Change → Type 0
IsOld (removed path) =
    ((name : Str) × (path ≡ logs_file name) × (is_log path ≡ true) × (path ≢ error_log_file))
    ⊎ ((name : Str) × (path ≡ data_file name) × (is_report path ≡ true))
IsOld (cleared path) = (path ≡ error_log_file) ⊎ (path ≡ orphan_entry_file)

abbrev pub AllOld : List Change → Type 0
AllOld [] = Unit
AllOld (change ∷ changes) = IsOld change × AllOld changes

AllOld-append : (xs ys : List Change) → AllOld xs → AllOld ys → AllOld (xs ++ ys)
AllOld-append [] ys h k = k
AllOld-append (x ∷ xs) ys (first, h) k = (first, AllOld-append xs ys h k)

-- What a loop that returns changes.
abbrev Changes : Option (Bool × List Change) → Type 0
Changes m = (ok : Bool) (changes : List Change) → m ≡ some (ok, changes) → AllOld changes

Changes-after :
    (change : Change) (rest : Option (Bool × List Change))
    → IsOld change
    → Changes rest
    → Changes (rest >>= after change)
Changes-after change none old h ok changes e = absurd (none-ne-some _ e)
Changes-after change (some (ok', changes')) old h ok changes e =
    let same : change ∷ changes' ≡ changes = ap (λ x. x.1) (some-injective _ _ e) in
    rw (← same) (old, h ok' changes' refl)

Changes-stop : (ended : Bool) → Changes (some (ended, []))
Changes-stop ended ok changes e =
    let same : [] ≡ changes = ap (λ x. x.1) (some-injective _ _ e) in rw (← same) (record {})

error_log-differs : (path : Str) → contains path error_log_file ≡ false → path ≢ error_log_file
error_log-differs path missing same =
    not_both (ap (λ t. contains t error_log_file) (sym same) ∙ missing) error_log_self

module _ (disk : Disk) where
  clear-old :
      (path : Str) (rest : Option (Bool × List Change))
      → IsOld (cleared path)
      → Changes rest
      → Changes (clear disk path >>= λ change. rest >>= after change)
  clear-old path rest old h = elim (Bool-cases (disk.opens path)) [
    | inl opens ↦ rw opens (Changes-after (cleared path) rest old h)
    | inr fails ↦ rw fails (λ ok changes e. absurd (none-ne-some _ e))
  ]

  remove-old :
      (path : Str) (rest : Option (Bool × List Change))
      → IsOld (removed path)
      → Changes rest
      → Changes (if disk.remove path then rest >>= after (removed path) else some (false, []))
  remove-old path rest old h = elim (Bool-cases (disk.remove path)) [
    | inl gone ↦ rw gone (Changes-after (removed path) rest old h)
    | inr stays ↦ rw stays (Changes-stop false)
  ]

  clean_logs-old : (names : List Str) → Changes (clean_logs disk names)
  unfolding clean_logs
  clean_logs-old [] = Changes-stop true
  clean_logs-old (name ∷ names) = elim (Bool-cases (ltb (length (logs_file name)) 256)) [
    | inr long ↦ rw long (λ ok changes e. absurd (none-ne-some _ e))
    | inl fits ↦ elim (Bool-cases (is_log (logs_file name))) [
      | inr other ↦ rw (fits, other) (clean_logs-old names)
      | inl log ↦ elim (Bool-cases (contains (logs_file name) error_log_file)) [
        | inl found ↦
            rw (fits, log, found)
              (clear-old error_log_file (clean_logs disk names) (inl refl) (clean_logs-old names))
        | inr missing ↦
            rw (fits, log, missing)
              (remove-old (logs_file name) (clean_logs disk names)
                (inl (name, refl, log, error_log-differs (logs_file name) missing))
                (clean_logs-old names))
      ]
    ]
  ]

  clean_data-old : (names : List Str) → Changes (clean_data disk names)
  unfolding clean_data
  clean_data-old [] = Changes-stop true
  clean_data-old (name ∷ names) = elim (Bool-cases (ltb (length (data_file name)) 256)) [
    | inr long ↦ rw long (λ ok changes e. absurd (none-ne-some _ e))
    | inl fits ↦ elim (Bool-cases (is_report (data_file name))) [
      | inr other ↦ rw (fits, other) (clean_data-old names)
      | inl report ↦
          rw (fits, report)
            (remove-old (data_file name) (clean_data disk names) (inr (name, refl, report))
              (clean_data-old names))
    ]
  ]

  -- Where the removal of old files returns, with whatever result: every file that was removed is a
  -- log other than the error log with `.log` in its path, or a file of the data with `IGNORE` or
  -- `yrpt` in its path; and only the error log and the file of orphans were cleared.
  pub conf_clean_dirs-AllOld :
      (code : ℕ) (changes : List Change)
      → conf_clean_dirs disk ≡ some (code, changes)
      → AllOld changes
  unfolding conf_clean_dirs
  conf_clean_dirs-AllOld code changes e =
      let (names, e1, e2) = bind-some disk.logs _ _ e in
      let ((ok, first), e3, e4) = bind-some (clean_logs disk names) _ _ e2 in
      rest code changes ok first (clean_logs-old names ok first e3) e4
    where
      last :
          (code : ℕ) (changes : List Change) (ok : Bool) (first second : List Change)
          → AllOld first
          → AllOld second
          → then_orphans disk first (ok, second) ≡ some (code, changes)
          → AllOld changes
      last code changes false first second h k e =
          let same : first ++ second ≡ changes = ap (λ x. x.1) (some-injective _ _ e) in
          rw (← same) (AllOld-append first second h k)
      last code changes true first second h k e =
          let (change, e1, e2) = bind-some (clear disk orphan_entry_file) _ _ e in
          let (_, is_cleared) = guard-some _ _ _ e1 in
          let same : first ++ (second ++ (change ∷ [])) ≡ changes =
            ap (λ x. x.1) (some-injective _ _ e2) in
          rw (← same, ← is_cleared)
            (AllOld-append first _ h (AllOld-append second _ k (inr refl, record {})))

      rest :
          (code : ℕ) (changes : List Change) (ok : Bool) (first : List Change)
          → AllOld first
          → then_data disk (ok, first) ≡ some (code, changes)
          → AllOld changes
      rest code changes false first h e =
          let same : first ≡ changes = ap (λ x. x.1) (some-injective _ _ e) in rw (← same) h
      rest code changes true first h e =
          let (names, e1, e2) = bind-some disk.data_files _ _ e in
          let ((ok, second), e3, e4) = bind-some (clean_data disk names) _ _ e2 in
          last code changes ok first second h (clean_data-old names ok second e3) e4
