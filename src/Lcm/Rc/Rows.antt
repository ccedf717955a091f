-- ===== src/Lcm/Rc/Rows.antt =====
-- The file of src/api/lcm.c beside the manager: its path, and a row for each session.
use pcmm_policy_server.Base.{
  ℕ, ◌+◌, ◌-◌, ◌≤◌, ◌<◌, ◌≡◌, refl, sym, ap, ◌∙◌, true, Option, none, some, List, [], ◌∷◌, ◌++◌,
  map, append-nil, append_assoc, arith, length, length-append, length-drop, length-replicate,
  length-take, drop, take, replicate, le→leb, u8, Mem, fill, fill-none, fill-fits,
}
use pcmm_policy_server.Base.Fault.{◌>>=◌}
use pcmm_policy_server.Base.Text.{Str, str}
use pcmm_policy_server.Lcm.{maxroom, Client, Lcm, lcm_init}
use pcmm_policy_server.Lcm.Table.{Holds, lcm_init-Holds, lcm_set-Holds}
use pcmm_policy_server.Lcm.Rc.{
  header_row, row, rcw_hdr, rcw_row, strncat, rc_path, purge, rc_init, init_with_rc, set_with_rc,
}
use pcmm_policy_server.Api.Gates.Answer.{IsText, IsText-append, c_string_lem, print_text, take_all}
use pcmm_policy_server.Api.Responses.{is_text, is_text_lem}

-- A text in an array with room behind it: `strncat` of a text that is no longer than its limit.
strncat_lem :
    (s src : Str) (rest : Mem) (n : ℕ)
    → IsText s
    → length src ≤ n
    → length src ≤ length rest
    → (rest' : Mem) × (strncat (s ++ (0 ∷ rest)) src n ≡ some ((s ++ src) ++ (0 ∷ rest')))
      × (length rest' ≡ length rest - length src)
unfolding strncat
strncat_lem s src rest n text whole room = (
  drop (length (s ++ src) + 1) (s ++ (0 ∷ rest)),
  rw (c_string_lem s rest text, take_all n src whole)
      (ap (λ t. fill t (s ++ (0 ∷ rest))) (sym (append_assoc s src (0 ∷ [])))
        ∙ print_text (s ++ src) (s ++ (0 ∷ rest))
            (omega (arith, length-append s src, length-append s (0 ∷ rest)))),
  omega (
    arith,
    length-drop (length (s ++ src) + 1) (s ++ (0 ∷ rest)),
    length-append s src,
    length-append s (0 ∷ rest),
  ),
)

-- The path for a working directory of at most 93 bytes.
rc_path_lem :
    (dir : Str) (behind : Mem)
    → IsText dir
    → length dir ≤ 93
    → (rest : Mem) × (rc_path (dir ++ (0 ∷ behind))
        ≡ some (((dir ++ str "/data/") ++ str ".connectrc") ++ (0 ∷ rest)))
      × (length rest ≡ 93 - length dir)
unfolding rc_path is_text
rc_path_lem dir behind text short =
    let (r1, e1, l1) =
      strncat_lem [] dir (replicate 109 0) 119 (record {}) (omega arith)
        (omega (arith, length-replicate {A = ℕ} 109 0)) in
    let (r2, e2, l2) =
      strncat_lem dir (str "/data/") r1 7 text (omega arith)
        (omega (arith, l1, length-replicate {A = ℕ} 109 0)) in
    let data_text = IsText-append dir (str "/data/") text (is_text_lem (str "/data/") refl) in
    let (r3, e3, l3) =
      strncat_lem (dir ++ str "/data/") (str ".connectrc") r2 10 data_text (omega arith)
        (omega (arith, l1, l2, length-replicate {A = ℕ} 109 0)) in
    (
      r3,
      rw (c_string_lem dir behind text, e1, e2) e3,
      omega (arith, l1, l2, l3, length-replicate {A = ℕ} 109 0),
    )

-- Where the text does not fit, it is written past the end.
strncat_full :
    (s src : Str) (rest : Mem) (n : ℕ)
    → IsText s
    → length src ≤ n
    → length rest < length src
    → strncat (s ++ (0 ∷ rest)) src n ≡ none
unfolding strncat
strncat_full s src rest n text whole full =
    rw (c_string_lem s rest text, take_all n src whole)
      (fill-none (s ++ (src ++ (0 ∷ []))) (s ++ (0 ∷ rest)) (
        omega (
          arith,
          length-append s (0 ∷ rest),
          length-append s (src ++ (0 ∷ [])),
          length-append src (0 ∷ []),
        )))

-- With a working directory of 94 to 99 bytes the path is written past the end of its array.
rc_path_long :
    (dir : Str) (behind : Mem)
    → IsText dir
    → 94 ≤ length dir
    → length dir ≤ 99
    → rc_path (dir ++ (0 ∷ behind)) ≡ none
unfolding rc_path is_text
rc_path_long dir behind text long fits =
    let (r1, e1, l1) =
      strncat_lem [] dir (replicate 109 0) 119 (record {}) (omega arith)
        (omega (arith, length-replicate {A = ℕ} 109 0)) in
    let (r2, e2, l2) =
      strncat_lem dir (str "/data/") r1 7 text (omega arith)
        (omega (arith, l1, length-replicate {A = ℕ} 109 0)) in
    let data_text = IsText-append dir (str "/data/") text (is_text_lem (str "/data/") refl) in
    rw (c_string_lem dir behind text, e1, e2)
      (strncat_full (dir ++ str "/data/") (str ".connectrc") r2 10 data_text (omega arith)
        (omega (arith, l1, l2, length-replicate {A = ℕ} 109 0)))

-- A session by its pointer and address, and the rows of sessions from a number on.
abbrev pub entry : ℕ × Str → Client
entry (pointer, addr) = record { pointer = pointer; cmts_addr = some addr }

unfoldable pub rows : ℕ → List (ℕ × Str) → Str
rows id [] = []
rows id ((pointer, addr) ∷ sessions) = row (u8 id) addr ++ rows (id + 1) sessions

-- The sessions go into the manager one after the other.
unfoldable pub set_all : Lcm → List (ℕ × Str) → Option Str → Option (Lcm × Option Str)
set_all self [] file = some (self, file)
set_all self (session ∷ sessions) file =
    set_with_rc true 0 self (entry session) file >>= λ ((self', pos), file').
    set_all self' sessions file'

set_all-rows :
    (self : Lcm) (cs : List Client) (sessions : List (ℕ × Str)) (text : Str)
    → Holds self cs
    → length cs + length sessions ≤ self.maxpep
    → (self' : Lcm) × (set_all self sessions (some text)
        ≡ some (self', some (text ++ rows (length cs + 1) sessions)))
      × Holds self' (cs ++ map entry sessions)
unfolding set_all rows
set_all-rows self cs [] text h less = (self, rw append-nil refl, rw append-nil h)
set_all-rows self cs ((pointer, addr) ∷ sessions) text h less =
    let (self1, e, kept, h1) =
      lcm_set-Holds self cs (entry (pointer, addr)) h (omega (arith, less)) in
    let grown = length-append cs (entry (pointer, addr) ∷ []) in
    let line = row (u8 (length cs + 1)) addr in
    let (self', e', h') =
      set_all-rows self1 (cs ++ (entry (pointer, addr) ∷ [])) sessions (text ++ line) h1
        (omega (arith, less, kept, grown)) in
    let one : set_with_rc true 0 self (entry (pointer, addr)) (some text)
        ≡ some ((self1, length cs), some (text ++ line)) =
      unfold set_with_rc rcw_row in rw (e, h.counted) refl in
    (
      self',
      rw one (
          e'
          ∙ ap (λ t. some (self', some t))
              (append_assoc text line _
                ∙ ap (λ n. text ++ (line ++ rows n sessions)) (omega (arith, grown)))),
      rw (← append_assoc cs (entry (pointer, addr) ∷ []) (map entry sessions)) h',
    )

purged : (old : Option Str) → (file : Option Str) × (purge true old ≡ some file)
purged none = (none, refl)
purged (some t) = (some [], refl)

-- A manager for at most 20 sessions, made with the file in a working directory of at most 93 bytes,
-- where files can be opened, whatever the file held before; and sessions up to the limit, with the
-- lock free: the file is the header and a row for each session, numbered from 1 in their order, and
-- the manager holds the same sessions in the same order.
pub init_with_rc-rows :
    (dir : Str) (behind : Mem) (old : Option Str) (n : ℕ) (sessions : List (ℕ × Str))
    → IsText dir
    → length dir ≤ 93
    → n ≤ maxroom
    → length sessions ≤ n
    → (lcm : Lcm) × (lcm' : Lcm) × (init_with_rc true (dir ++ (0 ∷ behind)) old 0 n
        ≡ some (some lcm, some header_row))
      × (set_all lcm sessions (some header_row) ≡ some (lcm', some (header_row ++ rows 1 sessions)))
      × Holds lcm' (map entry sessions)
unfolding init_with_rc rc_init rcw_hdr
init_with_rc-rows dir behind old n sessions text short small few =
    let (lcm, made, limit, empty) = lcm_init-Holds n small in
    let (lcm', e, holds) =
      set_all-rows lcm [] sessions header_row empty (omega (arith, limit, few)) in
    (lcm, lcm', initialised lcm old made, e, holds)
  where
    initialised :
        (lcm : Lcm) (old : Option Str)
        → lcm_init 0 n ≡ some lcm
        → init_with_rc true (dir ++ (0 ∷ behind)) old 0 n ≡ some (some lcm, some header_row)
    initialised lcm old made =
        let (rest, path, l) = rc_path_lem dir behind text short in
        let (file, ready) = purged old in
        let rcp = ((dir ++ str "/data/") ++ str ".connectrc") ++ (0 ∷ rest) in
        let size : length rcp ≡ 110 = omega (
          arith,
          l,
          length-append ((dir ++ str "/data/") ++ str ".connectrc") (0 ∷ rest),
          length-append (dir ++ str "/data/") (str ".connectrc"),
          length-append dir (str "/data/"),
        ) in
        rw
          (
            path,
            ready,
            le→leb 110 (length rcp) (omega (arith, size)),
            fill-fits (take 110 rcp) (replicate 200 0) (
                omega (
                  arith,
                  length-take 110 rcp (omega (arith, size)),
                  length-replicate {A = ℕ} 200 0,
                )),
            made,
          )
          refl
