-- ===== src/Pack/Words.antt =====
-- The integer routines of src/lib/pack.c: what they write, and that reading gives it back.
use pcmm_policy_server.Base.{
  ℕ, ◌+◌, ◌*◌, ◌/◌, ◌%◌, ◌≡◌, refl, some, List, [], ◌∷◌, ◌++◌, arith, bit_or, bit_or-fields, ap,
  ◌∙◌, ◌<<<◌, take, take-append, drop-append, drop-append_add, at-append, Stores-fits,
}
use pcmm_policy_server.Base.{
  u8, u16, u32, ◌>>>◌, low_bits, IsU8, IsU16, IsU32, length, drop, Mem, Stores, Stores-fill,
  Stores-poke, Stores-then, at,
}
use pcmm_policy_server.Pack.{
  unpack_u16, unpack_n, unpack_u16_it, unpack_u32_it, pack_u8, pack_u16_be, pack_u32_be,
}

-- The big-endian bytes of a value cut to 16 or 32 bits.
abbrev pub be16 : ℕ → List ℕ
be16 v = v / 256 % 256 ∷ v % 256 ∷ []

abbrev pub be32 : ℕ → List ℕ
be32 v = v / 16777216 % 256 ∷ v / 65536 % 256 ∷ v / 256 % 256 ∷ v % 256 ∷ []

be16_lem : (v : ℕ) → low_bits (u16 v >>> 8) 8 ∷ low_bits (u16 v) 8 ∷ [] ≡ be16 v
be16_lem v = ground arith

pub be32_lem :
    (v : ℕ)
    → low_bits (u32 v >>> 24) 8
        ∷ low_bits (u32 v >>> 16) 8
        ∷ low_bits (u32 v >>> 8) 8
        ∷ low_bits (u32 v) 8
        ∷ []
      ≡ be32 v
be32_lem v = ground arith

pub u8_u16 : (v : ℕ) → u8 (u16 v) ≡ v % 256
u8_u16 v = omega arith

pub pack_u8-Stores : (v : ℕ) → Stores 0 (v % 256 ∷ []) (pack_u8 v)
unfolding pack_u8
pack_u8-Stores v = rw (← u8_u16 v) (Stores-fill (u8 (u16 v) ∷ []))

pub pack_u16_be-Stores : (v : ℕ) → Stores 0 (be16 v) (pack_u16_be v)
unfolding pack_u16_be
pack_u16_be-Stores v = rw (← be16_lem v) (Stores-then (Stores-poke 0 _) (Stores-poke 1 _) refl)

pub pack_u32_be-Stores : (v : ℕ) → Stores 0 (be32 v) (pack_u32_be v)
unfolding pack_u32_be
pack_u32_be-Stores v = rw (← be32_lem v) (
    Stores-then (Stores-poke 0 _)
      (Stores-then (Stores-poke 1 _) (Stores-then (Stores-poke 2 _) (Stores-poke 3 _) refl) refl)
      refl)

or_two : (a b : ℕ) → IsU8 b → bit_or (a <<< 24) (b <<< 16) ≡ (a * 256 + b) <<< 16
or_two a b h = omega (arith, bit_or-fields 24 a (b <<< 16) (omega arith))

or_three : (x c : ℕ) → IsU8 c → bit_or (x <<< 16) (c <<< 8) ≡ (x * 256 + c) <<< 8
or_three x c h = omega (arith, bit_or-fields 16 x (c <<< 8) (omega arith))

or_four :
    (a b c d : ℕ)
    → IsU8 a
    → IsU8 b
    → IsU8 c
    → IsU8 d
    → u32 (bit_or (bit_or (bit_or (a <<< 24) (b <<< 16)) (c <<< 8)) d)
      ≡ ((a * 256 + b) * 256 + c) * 256 + d
or_four a b c d ha hb hc hd =
    rw (or_two a b hb, or_three (a * 256 + b) c hc, bit_or-fields 8 ((a * 256 + b) * 256 + c) d hd)
      (omega arith)

-- What the readers compute on bytes.
pub unpack_u16_bytes :
    (a b : ℕ) (rest : Mem) → IsU8 a → IsU8 b → unpack_u16 (a ∷ b ∷ rest) ≡ some (a * 256 + b)
unfolding unpack_u16
unpack_u16_bytes a b rest ha hb = rw (bit_or-fields 8 a b hb) (ground arith)

pub unpack_n_bytes :
    (a b c d : ℕ) (rest : Mem)
    → IsU8 a
    → IsU8 b
    → IsU8 c
    → IsU8 d
    → unpack_n (a ∷ b ∷ c ∷ d ∷ rest) ≡ some (((a * 256 + b) * 256 + c) * 256 + d)
unfolding unpack_n
unpack_n_bytes a b c d rest ha hb hc hd = ap some (or_four a b c d ha hb hc hd)

pub unpack_u16-be16 : (v : ℕ) (rest : Mem) → unpack_u16 (be16 v ++ rest) ≡ some (u16 v)
unpack_u16-be16 v rest =
    unpack_u16_bytes (v / 256 % 256) (v % 256) rest (omega arith) (omega arith)
    ∙ ap some (omega arith)

pub unpack_n-be32 : (v : ℕ) (rest : Mem) → unpack_n (be32 v ++ rest) ≡ some (u32 v)
unpack_n-be32 v rest =
    unpack_n_bytes (v / 16777216 % 256) (v / 65536 % 256) (v / 256 % 256) (v % 256) rest
      (omega arith) (omega arith) (omega arith) (omega arith)
    ∙ ap some (omega arith)

-- A `uint16_t` that `pack_u16_be` wrote over two bytes at `front` reads back through
-- `unpack_u16_it`, which moves the index past it; nothing around the two bytes changes.
pub unpack_u16_it-pack_u16_be :
    (v : ℕ) (front old rest : Mem)
    → IsU16 v
    → length old ≡ 2
    → (out : Mem) × (at (length front) (pack_u16_be v) (front ++ (old ++ rest)) ≡ some out)
      × (unpack_u16_it out (length front) ≡ some (v, length front + 2))
      × (take (length front) out ≡ front)
      × (drop (length front + 2) out ≡ rest)
unpack_u16_it-pack_u16_be v front old rest hv two = (
  front ++ (be16 v ++ rest),
  at-append front (old ++ rest) (pack_u16_be v) _
      (Stores-fits (pack_u16_be-Stores v) [] old rest refl two),
  read,
  take-append front (be16 v ++ rest),
  drop-append_add 2 front (be16 v ++ rest),
)
  where
    read : unpack_u16_it (front ++ (be16 v ++ rest)) (length front) ≡ some (v, length front + 2)
    read =
        unfold unpack_u16_it in
        rw (drop-append front (be16 v ++ rest), unpack_u16-be16 v rest) (ground arith)

-- A `uint32_t` that `pack_u32_be` wrote over four bytes at `front` reads back through
-- `unpack_u32_it`, which moves the index past it; nothing around the four bytes changes.
pub unpack_u32_it-pack_u32_be :
    (v : ℕ) (front old rest : Mem)
    → IsU32 v
    → length old ≡ 4
    → (out : Mem) × (at (length front) (pack_u32_be v) (front ++ (old ++ rest)) ≡ some out)
      × (unpack_u32_it out (length front) ≡ some (v, length front + 4))
      × (take (length front) out ≡ front)
      × (drop (length front + 4) out ≡ rest)
unpack_u32_it-pack_u32_be v front old rest hv four = (
  front ++ (be32 v ++ rest),
  at-append front (old ++ rest) (pack_u32_be v) _
      (Stores-fits (pack_u32_be-Stores v) [] old rest refl four),
  read,
  take-append front (be32 v ++ rest),
  drop-append_add 4 front (be32 v ++ rest),
)
  where
    read : unpack_u32_it (front ++ (be32 v ++ rest)) (length front) ≡ some (v, length front + 4)
    read =
        unfold unpack_u32_it in
        rw (drop-append front (be32 v ++ rest), unpack_n-be32 v rest) (ground arith)
