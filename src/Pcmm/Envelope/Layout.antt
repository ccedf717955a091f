-- ===== src/Pcmm/Envelope/Layout.antt =====
-- The bytes of the envelopes of src/pcl/pcmm.c.
use pcmm_policy_server.Base.{
  ℕ, zero, suc, ◌+◌, ◌%◌, ◌≤◌, ◌<◌, ◌≡◌, ◌∙◌, none, some, List, [], ◌∷◌, ◌++◌, arith, length,
  length-append, replicate, take, drop, get_elem?-drop, get_elem?-none, map, u8, Mem, Writer, at,
  fill, Stores, Stores-at, Stores-fill, ◌⨟◌,
}
use native.Mathlib.Nat.{add-zero}
use native.Mathlib.Decide.{dec_lt}
use pcmm_policy_server.Base.Fault.{◌>>=◌, then_bind, bind_assoc, bind_none}
use pcmm_policy_server.Base.Text.{Str}
use pcmm_policy_server.Pack.{pack_u8, pack_u32_be, pack_reverse}
use pcmm_policy_server.Pack.Words.{be32, pack_u8-Stores, pack_u16_be-Stores, pack_u32_be-Stores}
use pcmm_policy_server.Pcmm.Envelope.{
  Floats, bitrates, pcmm_flowspec_envelope, pad, copy_name, scn_header, pcmm_scn_envelope,
}

pub scn_header-Stores : Stores 0 (0 ∷ 20 ∷ 7 ∷ 2 ∷ 7 ∷ 0 ∷ 0 ∷ []) scn_header
unfolding scn_header
scn_header-Stores =
    Stores-at 0 (pack_u16_be-Stores 20)
    ⨟ Stores-at 2 (pack_u8-Stores 7)
    ⨟ Stores-at 3 (pack_u8-Stores 2)
    ⨟ Stores-at 4 (pack_u8-Stores 7)
    ⨟ Stores-at 5 (pack_u8-Stores 0)
    ⨟ Stores-at 6 (pack_u8-Stores 0)

-- A step that is given as a bind, with a writer known to store `ys` behind the `xs` of `w`.
bind-Stores :
    {k : ℕ} {xs ys : List ℕ} {w w' : Writer}
    → Stores k xs w
    → Stores (k + length xs) ys w'
    → Stores k (xs ++ ys) (λ m. w m >>= w')
bind-Stores {w} {w'} h h' =
    let both = h ⨟ h' in record { runs = λ m. then_bind w w' m ∙ both.runs m }

infixr 5 ◌⨠◌
◌⨠◌ :
    {k : ℕ} {xs ys : List ℕ} {w w' : Writer}
    → Stores k xs w
    → Stores (k + length xs) ys w'
    → Stores k (xs ++ ys) (λ m. w m >>= w')
h ⨠ h' = bind-Stores h h'

-- A step whose result is not read further.
end-Stores :
    {k : ℕ} {xs : List ℕ} {w : Writer} → Stores k xs w → Stores k xs (λ m. w m >>= λ d. some d)
end-Stores {k} {xs} {w} h = record { runs = λ m. ends m ∙ h.runs m }
  where
    ends : (m : Mem) → (w m >>= λ d. some d) ≡ w m
    ends m = ground arith

module _ (floats : Floats) (a b c d e f g h : ℕ)
    (ten_thousand : floats.image 10000 ≡ a ∷ b ∷ c ∷ d ∷ [])
    (two_hundred : floats.image 200 ≡ e ∷ f ∷ g ∷ h ∷ []) where
  -- Rate, bucket size, peak rate, minimum policed unit, maximum packet size, rate and slack term.
  abbrev pub round_bytes : List ℕ
  round_bytes =
      d
      ∷ c
      ∷ b
      ∷ a
      ∷ h
      ∷ g
      ∷ f
      ∷ e
      ∷ d
      ∷ c
      ∷ b
      ∷ a
      ∷ (be32 200 ++ be32 200 ++ (d ∷ c ∷ b ∷ a ∷ be32 2000))

  u32_at : (k v : ℕ) → Stores (k + 0) (be32 v) (at k (pack_u32_be v))
  u32_at k v = Stores-at k (pack_u32_be-Stores v)

  reversed : (k : ℕ) → Stores (k + 0) (d ∷ c ∷ b ∷ a ∷ []) (at k (fill (d ∷ c ∷ b ∷ a ∷ [])))
  reversed k = Stores-at k (Stores-fill (d ∷ c ∷ b ∷ a ∷ []))

  small : (k : ℕ) → Stores (k + 0) (h ∷ g ∷ f ∷ e ∷ []) (at k (fill (h ∷ g ∷ f ∷ e ∷ [])))
  small k = Stores-at k (Stores-fill (h ∷ g ∷ f ∷ e ∷ []))

  -- Three rounds fill 84 bytes.
  pub bitrates-Stores : Stores 0 (round_bytes ++ round_bytes ++ round_bytes) (bitrates floats)
  unfolding bitrates pack_reverse
  bitrates-Stores =
      let three_rounds =
        reversed 0
        ⨠ small 4
        ⨠ reversed 8
        ⨠ u32_at 12 200
        ⨠ u32_at 16 200
        ⨠ reversed 20
        ⨠ u32_at 24 2000
        ⨠ reversed 28
        ⨠ small 32
        ⨠ reversed 36
        ⨠ u32_at 40 200
        ⨠ u32_at 44 200
        ⨠ reversed 48
        ⨠ u32_at 52 2000
        ⨠ reversed 56
        ⨠ small 60
        ⨠ reversed 64
        ⨠ u32_at 68 200
        ⨠ u32_at 72 200
        ⨠ reversed 76
        ⨠ end-Stores (u32_at 80 2000) in
      record { runs = λ m. rw (ten_thousand, two_hundred) (simp bind_assoc (three_rounds.runs m)) }

  -- The FlowSpec envelope is 92 bytes long, which is the length in its header: the service number
  -- and three times the same rates.
  pub pcmm_flowspec_envelope-Stores :
      (service_number : ℕ)
      → Stores 0
          (0
            ∷ 92
            ∷ 7
            ∷ 1
            ∷ 7
            ∷ service_number % 256
            ∷ 0
            ∷ 0
            ∷ (round_bytes ++ round_bytes ++ round_bytes))
          (pcmm_flowspec_envelope floats service_number)
  unfolding pcmm_flowspec_envelope
  pcmm_flowspec_envelope-Stores n =
      Stores-at 0 (pack_u16_be-Stores 92)
      ⨟ Stores-at 2 (pack_u8-Stores 7)
      ⨟ Stores-at 3 (pack_u8-Stores 1)
      ⨟ Stores-at 4 (pack_u8-Stores 7)
      ⨟ Stores-at 5 (pack_u8-Stores n)
      ⨟ Stores-at 6 (pack_u8-Stores 0)
      ⨟ Stores-at 7 (pack_u8-Stores 0)
      ⨟ Stores-at 8 bitrates-Stores

u8_at : (k v : ℕ) → Stores k (v % 256 ∷ []) (at k (pack_u8 v))
u8_at k v = rw add-zero at (Stores-at k (pack_u8-Stores v))

-- The padding, and a writer behind it.
pad-Stores :
    (left j : ℕ) {bs : List ℕ} {w : Writer}
    → Stores (j + left) bs w
    → Stores j (replicate left 0 ++ bs) (λ m. pad left j m >>= w)
unfolding pad
pad-Stores zero j h = rw add-zero at h
pad-Stores (suc left) j {bs} {w} h =
    let rest = pad-Stores left (j + 1) (rw slide at h) in
    let both = bind-Stores (u8_at j 0) rest in
    record { runs = λ m. bind_assoc (at j (pack_u8 0) m) (pad left (j + 1)) w ∙ both.runs m }
  where
    slide : j + suc left ≡ j + 1 + left
    slide = omega arith

copy_name-Stores :
    (left i j : ℕ) (scn : Mem)
    → i + suc left ≤ length scn
    → Stores j (map u8 (take (suc left) (drop i scn))) (copy_name (suc left) i j scn)
unfolding copy_name
copy_name-Stores zero i j scn h =
    let (c, at_i, cut) = get_elem?-drop scn i (omega arith) in
    let one_byte = end-Stores (u8_at j c) in record { runs = λ m. rw (at_i, cut) (one_byte.runs m) }
copy_name-Stores (suc left) i j scn h =
    let (c, at_i, cut) = get_elem?-drop scn i (omega arith) in
    let both = bind-Stores (u8_at j c) (copy_name-Stores left (i + 1) (j + 1) scn (omega arith)) in
    record { runs = λ m. rw (at_i, cut) (both.runs m) }

abbrev pub alignment : Str → ℕ
alignment scn = (length scn + 1) % 4

-- A service class name of seven bytes at least fills an envelope of at most 18 bytes: seven bytes of
-- header, `(strlen + 1) % 4` zeros, and the first eight bytes of the name and its terminator. What
-- a longer name has more is dropped.
pub pcmm_scn_envelope-Stores :
    (scn : Str)
    → 7 ≤ length scn
    → Stores 0
        (0
          ∷ 20
          ∷ 7
          ∷ 2
          ∷ 7
          ∷ 0
          ∷ 0
          ∷ (replicate (alignment scn) 0 ++ map u8 (take 8 (scn ++ (0 ∷ [])))))
        (pcmm_scn_envelope (some scn))
unfolding pcmm_scn_envelope
pcmm_scn_envelope-Stores scn h =
    let name =
      copy_name-Stores 7 0 (7 + alignment scn) (scn ++ (0 ∷ []))
        (omega (arith, length-append scn (0 ∷ []))) in
    let both = bind-Stores scn_header-Stores (pad-Stores (alignment scn) 7 name) in
    record { runs = both.runs }

copy_name_short :
    (left i j : ℕ) (scn : Mem) (m : Mem)
    → length scn < i + left
    → i ≤ length scn
    → copy_name left i j scn m ≡ none
unfolding copy_name
copy_name_short zero i j scn m h k = absurd (omega arith)
copy_name_short (suc left) i j scn m h k = elim (dec_lt i (length scn)) [
  | yes inside ↦
      let (c, at_i, cut) = get_elem?-drop scn i inside in
      rw at_i (
        bind_none (at j (pack_u8 c) m) _
          (λ m'. copy_name_short left (i + 1) (j + 1) scn m' (omega arith) (omega arith)))
  | no outside ↦ rw (get_elem?-none scn i (omega arith))
]

-- A name of fewer than seven bytes is read past its terminator.
pub pcmm_scn_envelope_short :
    (scn : Str) (dst : Mem) → length scn < 7 → pcmm_scn_envelope (some scn) dst ≡ none
unfolding pcmm_scn_envelope
pcmm_scn_envelope_short scn dst h = bind_none (scn_header dst) _ λ d1.
    bind_none (pad ((length scn + 1) % 4) 7 d1) _ λ d2.
      copy_name_short 8 0 (7 + (length scn + 1) % 4) (scn ++ (0 ∷ [])) d2
        (omega (arith, length-append scn (0 ∷ []))) (omega arith)
