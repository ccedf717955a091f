-- ===== src/Pack.antt =====
-- src/lib/pack.c: big-endian integers in buffers, and the concatenation of buffers.
-- A `uint8_t *` argument is the bytes from that address to the end of its object (Base/Memory).
-- Bytes are shifted in `int`; the casts to the result's width are written out.
pub mod Words
pub mod Concat
pub mod Over
use pcmm_policy_server.Base.{
  ℕ, zero, suc, ◌+◌, ◌-◌, ◌%◌, ◌^◌, Option, none, some, List, [], ◌∷◌, if◌then◌else◌, ltb, bit_or,
}
use pcmm_policy_server.Base.{
  u8, u16, u32, ◌<<<◌, ◌>>>◌, low_bits, get_elem?, drop, Mem, Writer, ◌>>◌, fill, at, put, poke,
}
use pcmm_policy_server.Base.Fault.{◌>>=◌}
use pcmm_policy_server.Base.Reader.{Reader}

unfoldable pub unpack_u16 : Mem → Option ℕ
unpack_u16 src = do hi ← get_elem? src 0; lo ← get_elem? src 1; some (u16 (bit_or (hi <<< 8) lo))

unfoldable pub unpack_n : Mem → Option ℕ
unpack_n src = do
  a ← get_elem? src 0
  b ← get_elem? src 1
  c ← get_elem? src 2
  d ← get_elem? src 3
  some (u32 (bit_or (bit_or (bit_or (a <<< 24) (b <<< 16)) (c <<< 8)) d))

unfoldable pub unpack_u8 : Mem → Option ℕ
unpack_u8 src = do hi ← get_elem? src 0; lo ← get_elem? src 1; some (u16 (bit_or (hi <<< 8) lo))

unfoldable pub unpack_u32 : Mem → Option ℕ
unpack_u32 src = do
  a ← get_elem? src 0
  b ← get_elem? src 1
  c ← get_elem? src 2
  d ← get_elem? src 3
  some (u32 (bit_or (bit_or (bit_or (a <<< 24) (b <<< 16)) (c <<< 8)) d))

-- The `_it` forms read at `*ptr` and move it on.
unfoldable pub unpack_u8_it : Reader ℕ
unpack_u8_it src ptr = do value ← get_elem? src ptr; some (value, ptr + 1)

unfoldable pub unpack_u16_it : Reader ℕ
unpack_u16_it src ptr = do value ← unpack_u16 (drop ptr src); some (value, ptr + 2)

unfoldable pub unpack_u32_it : Reader ℕ
unpack_u32_it src ptr = do value ← unpack_n (drop ptr src); some (value, ptr + 4)

-- The parameter of `pack_u8` is a `uint16_t`.
unfoldable pub pack_u8 : ℕ → Writer
pack_u8 val = put (u8 (u16 val))

unfoldable pub pack_u16_be : ℕ → Writer
pack_u16_be val = do poke 0 (low_bits (u16 val >>> 8) 8); poke 1 (low_bits (u16 val) 8)

unfoldable pub pack_u32_be : ℕ → Writer
pack_u32_be val = do
  poke 0 (low_bits (u32 val >>> 24) 8)
  poke 1 (low_bits (u32 val >>> 16) 8)
  poke 2 (low_bits (u32 val >>> 8) 8)
  poke 3 (low_bits (u32 val) 8)

-- `size_t` plus `(int) n`
unfoldable pub add_int : ℕ → ℕ → ℕ
add_int size n =
    let int_n = if ltb (u32 n) (2 ^ 31) then u32 n else u32 n + 2 ^ 64 - 2 ^ 32 in
    (size + int_n) % 2 ^ 64

-- The loop at index `i`, with `left` bytes to copy; then the terminator.
copy_loop : ℕ → ℕ → ℕ → Mem → Writer
copy_loop zero i j src dst = poke i 0 dst
copy_loop (suc left) i j src dst = do
  b ← get_elem? src j
  dst' ← poke i b dst
  copy_loop left (i + 1) (j + 1) src dst'

-- The result is the destination and `*sz_ptr`.
unfoldable pub concat_c8 : Mem → ℕ → Mem → ℕ → Option (Mem × ℕ)
unfolding copy_loop
concat_c8 dst size src n = do dst' ← copy_loop n size 0 src dst; some (dst', add_int size n)

unfoldable pub concat : Mem → ℕ → Mem → ℕ → Option (Mem × ℕ)
unfolding copy_loop
concat dst size src n = do dst' ← copy_loop n size 0 src dst; some (dst', add_int size n)

-- `tbuf` holds the bytes of the float as they lie in memory. They are the platform's, and enter as
-- the argument `image`.
unfoldable pub pack_reverse : List ℕ → Mem → ℕ → Option (Mem × ℕ)
pack_reverse image dst iter = do
  r0 ← get_elem? image 3
  r1 ← get_elem? image 2
  r2 ← get_elem? image 1
  r3 ← get_elem? image 0
  dst' ← at iter (fill (r0 ∷ r1 ∷ r2 ∷ r3 ∷ [])) dst
  some (dst', iter + 4)
