-- ===== src/Log/Kept.antt =====
-- Which lines the files of src/lib/log.c keep, and how large they grow.
use pcmm_policy_server.Base.{
  ℕ, ◌+◌, ◌≤◌, ◌<◌, ◌≡◌, ◌⊎◌, refl, ap, ◌∙◌, Bool, true, false, Bool-cases, inl, inr, none, some,
  List, [], ◌∷◌, ◌++◌, append-nil, append_assoc, arith, ltb, if◌then◌else◌, length, length-append,
}
use pcmm_policy_server.Base.Text.{Str}
use pcmm_policy_server.Log.{
  LogLevel, info, debug, dev, warn, error, fatal, Logger, Line, Logs, size, log_getfsize,
  is_serious, opened, on_console, in_file, log, omitted, log_wrap,
}

-- The lines in the order in which they are logged.
unfoldable pub log_all : Logger → List Line → Logs → Logs
log_all logger [] logs = logs
log_all logger (line ∷ lines) logs = log_all logger lines (log_wrap logger line logs)

-- The texts of the lines that are not omitted, and of those of level WARN and above.
abbrev pub passing : Logger → (Line → Str) → List Line → List Str
passing logger text [] = []
passing logger text (line ∷ lines) =
    if omitted logger line.level
    then passing logger text lines
    else text line ∷ passing logger text lines

abbrev pub serious : (Line → Str) → List Line → List Str
serious text [] = []
serious text (line ∷ lines) =
    if is_serious line.level then text line ∷ serious text lines else serious text lines

-- No call prints more than `m` bytes with the header of a file.
abbrev pub AllShort : ℕ → List Line → Type 0
AllShort m [] = Unit
AllShort m (line ∷ lines) = ((k : ℕ) → length (in_file k line) ≤ m) × AllShort m lines

size-append : (xs ys : List Str) → size (xs ++ ys) ≡ size xs + size ys
size-append [] ys = omega arith
size-append (x ∷ xs) ys = omega (arith, size-append xs ys)

-- A serious line is never omitted.
omitted-serious :
    (logger : Logger) (level : LogLevel) → is_serious level ≡ true → omitted logger level ≡ false
omitted-serious logger info h = ground arith
omitted-serious logger debug h = ground arith
omitted-serious logger dev h = ground arith
omitted-serious logger warn h = refl
omitted-serious logger error h = refl
omitted-serious logger fatal h = refl

log_getfsize-cases :
    (logger : Logger) (file : List Str)
    → ((log_getfsize logger file ≡ file) × (size file < logger.max_file_size))
      ⊎ ((log_getfsize logger file ≡ []) × (logger.max_file_size ≤ size file))
unfolding log_getfsize
log_getfsize-cases logger file = elim (Bool-cases (ltb (size file) logger.max_file_size)) [
  | inl small ↦ inl (rw small refl, ground arith)
  | inr large ↦ inr (rw large refl, ground arith)
]

-- What a file holds of the lines that were written to it: all but the first, which were dropped only
-- when they came to the limit, the newest always, and at most one line more than the limit.
pub record Keeps (max m : ℕ) (whole file : List Str) : Type 0 where
  pub dropped : List Str
  pub parts : whole ≡ dropped ++ file
  pub needed : (dropped ≡ []) ⊎ (max ≤ size dropped)
  pub newest : (whole ≡ []) ⊎ (1 ≤ length file)
  pub bounded : size file ≤ max + m

Keeps-grow :
    (logger : Logger) (m : ℕ) (line : Str) (whole file : List Str)
    → length line ≤ m
    → Keeps logger.max_file_size m whole file
    → Keeps logger.max_file_size m (whole ++ (line ∷ [])) (log_getfsize logger file ++ (line ∷ []))
Keeps-grow logger m line whole file short k = elim (log_getfsize-cases logger file) [
  | inl (same, small) ↦ record {
    dropped = k.dropped;
    parts = rw same (ap (λ w. w ++ (line ∷ [])) k.parts ∙ append_assoc k.dropped file (line ∷ []));
    needed = k.needed;
    newest = inr (rw same (omega (arith, length-append file (line ∷ []))));
    bounded = rw same (omega (arith, size-append file (line ∷ [])));
  }
  | inr (cleared, full) ↦ record {
    dropped = whole;
    parts = rw cleared refl;
    needed = inr (rw k.parts (omega (arith, size-append k.dropped file)));
    newest = inr (rw cleared (omega arith));
    bounded = rw cleared (omega arith);
  }
]

Keeps-whole :
    {max m : ℕ} {whole whole' file : List Str}
    → whole ≡ whole'
    → Keeps max m whole file
    → Keeps max m whole' file
Keeps-whole e k = rw (← e) k

module _ (logger : Logger) (m : ℕ) (out : logger.stdout_write ≡ true)
    (on : logger.thread_write ≡ true) where
  log_wrap-errors :
      (line : Line) (logs : Logs) (whole file : List Str)
      → ((k : ℕ) → length (in_file k line) ≤ m)
      → logs.thread ≡ some file
      → Keeps logger.max_file_size m whole (opened logs.errors)
      → Keeps logger.max_file_size m
          (whole ++ serious (in_file 2) (line ∷ []))
          (opened (log_wrap logger line logs).errors)
  unfolding log_wrap log log_getfsize
  log_wrap-errors line logs whole file short given k = elim (Bool-cases (is_serious line.level)) [
    | inl yes_serious ↦
        rw (yes_serious, omitted-serious logger line.level yes_serious, given, out, on)
          (Keeps-grow logger m (in_file 2 line) whole (opened logs.errors) (short 2) k)
    | inr harmless ↦ elim (Bool-cases (omitted logger line.level)) [
      | inl omits ↦ rw (omits, harmless, append-nil) k
      | inr through ↦ rw (through, harmless, append-nil) k
    ]
  ]

  log_wrap-console :
      (line : Line) (logs : Logs)
      → (log_wrap logger line logs).console
        ≡ logs.console ++ passing logger (on_console 0) (line ∷ [])
  unfolding log_wrap log
  log_wrap-console line logs = elim (Bool-cases (omitted logger line.level)) [
    | inl omits ↦ rw (omits, append-nil) refl
    | inr through ↦ rw (through, out) refl
  ]

  log_wrap-thread :
      (line : Line) (logs : Logs) (whole file : List Str)
      → ((k : ℕ) → length (in_file k line) ≤ m)
      → logs.thread ≡ some file
      → Keeps logger.max_file_size m whole file
      → (file' : List Str) × ((log_wrap logger line logs).thread ≡ some file')
        × Keeps logger.max_file_size m (whole ++ passing logger (in_file 1) (line ∷ [])) file'
  unfolding log_wrap log
  log_wrap-thread line logs whole file short given k =
      elim (Bool-cases (omitted logger line.level)) [
        | inl omits ↦ (file, rw omits given, rw (omits, append-nil) k)
        | inr through ↦ (
          log_getfsize logger file ++ (in_file 1 line ∷ []),
          rw (through, given, on, out) refl,
          rw through (Keeps-grow logger m (in_file 1 line) whole file (short 1) k),
        )
      ]

  serious-cons :
      (text : Line → Str) (line : Line) (lines : List Line)
      → serious text (line ∷ []) ++ serious text lines ≡ serious text (line ∷ lines)
  serious-cons text line lines = joined (is_serious line.level)
    where
      joined :
          (test : Bool)
          → (if test then text line ∷ [] else []) ++ serious text lines
            ≡ (if test then text line ∷ serious text lines else serious text lines)
      joined true = refl
      joined false = refl

  passing-cons :
      (text : Line → Str) (line : Line) (lines : List Line)
      → passing logger text (line ∷ []) ++ passing logger text lines
        ≡ passing logger text (line ∷ lines)
  passing-cons text line lines = joined (omitted logger line.level)
    where
      joined :
          (test : Bool)
          → (if test then [] else text line ∷ []) ++ passing logger text lines
            ≡ (if test then passing logger text lines else text line ∷ passing logger text lines)
      joined true = refl
      joined false = refl

  log_all-console :
      (lines : List Line) (logs : Logs)
      → (log_all logger lines logs).console ≡ logs.console ++ passing logger (on_console 0) lines
  unfolding log_all
  log_all-console [] logs = rw append-nil refl
  log_all-console (line ∷ lines) logs =
      log_all-console lines (log_wrap logger line logs)
      ∙ ap (λ c. c ++ passing logger (on_console 0) lines) (log_wrap-console line logs)
      ∙ append_assoc logs.console (passing logger (on_console 0) (line ∷ []))
          (passing logger (on_console 0) lines)
      ∙ ap (λ w. logs.console ++ w) (passing-cons (on_console 0) line lines)

  -- The log of the thread and the error log.
  log_all-files :
      (lines : List Line) (logs : Logs) (whole whole' file : List Str)
      → AllShort m lines
      → logs.thread ≡ some file
      → Keeps logger.max_file_size m whole file
      → Keeps logger.max_file_size m whole' (opened logs.errors)
      → ((file' : List Str) × ((log_all logger lines logs).thread ≡ some file')
          × Keeps logger.max_file_size m (whole ++ passing logger (in_file 1) lines) file')
        × Keeps logger.max_file_size m
            (whole' ++ serious (in_file 2) lines)
            (opened (log_all logger lines logs).errors)
  unfolding log_all
  log_all-files [] logs whole whole' file all given k k' =
      ((file, given, rw append-nil k), rw append-nil k')
  log_all-files (line ∷ lines) logs whole whole' file (short, all) given k k' =
      let (file1, e1, k1) = log_wrap-thread line logs whole file short given k in
      let k1' = log_wrap-errors line logs whole' file short given k' in
      let ((file2, e2, k2), k2') =
        log_all-files lines (log_wrap logger line logs) _ _ file1 all e1 k1 k1' in
      (
        (
          file2,
          e2,
          Keeps-whole
              (append_assoc whole (passing logger (in_file 1) (line ∷ []))
                  (passing logger (in_file 1) lines)
                ∙ ap (λ w. whole ++ w) (passing-cons (in_file 1) line lines))
              k2,
        ),
        Keeps-whole
            (append_assoc whole' (serious (in_file 2) (line ∷ [])) (serious (in_file 2) lines)
              ∙ ap (λ w. whole' ++ w) (serious-cons (in_file 2) line lines))
            k2',
      )

  -- Lines logged one after the other by a thread with a log of its own, with console and thread logs
  -- on and no error log before, where no call prints more than `m` bytes to a file: the console gets
  -- exactly the lines that are not omitted, in order, as the first call of `vfprintf` prints them;
  -- the thread's log gets the same lines as the second call prints them, and the error log those of
  -- level WARN and above as the third call does. Either file holds its lines in order, the newest
  -- always; the first ones are dropped only once they come to the limit, and the file is never
  -- larger than the limit and one line.
  pub log_all-Keeps :
      (lines : List Line) (console : List Str)
      → AllShort m lines
      → let logs =
          log_all logger lines (record { console = console; thread = some []; errors = none }) in
        (logs.console ≡ console ++ passing logger (on_console 0) lines)
        × ((file : List Str) × (logs.thread ≡ some file)
            × Keeps logger.max_file_size m (passing logger (in_file 1) lines) file)
        × Keeps logger.max_file_size m (serious (in_file 2) lines) (opened logs.errors)
  log_all-Keeps lines console all =
      let (thread, errors) = log_all-files lines _ [] [] [] all refl empty empty in
      (log_all-console lines _, thread, errors)
    where
      empty : Keeps logger.max_file_size m [] []
      empty = record {
        dropped = [];
        parts = refl;
        needed = inl refl;
        newest = inl refl;
        bounded = omega arith;
      }
