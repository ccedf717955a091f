-- ===== src/Cops/Header.antt =====
-- The tests of src/pcl/cops.c on a received header, and what reading a header gives.
use Prim.Native.Nat.{bit_and}
use native.Mathlib.Nat.{zero-add, add-zero}
use pcmm_policy_server.Base.{
  ℕ, zero, suc, ◌+◌, ◌*◌, ◌≤◌, ◌<◌, ◌≡◌, ◌≢◌, ◌↔◌, ◌⊎◌, refl, Bool, true, false, some, ◌∷◌, ◌++◌,
  ◌==◌, if◌then◌else◌, arith, ◌>>>◌, IsU8, IsU32, Mem,
}
use pcmm_policy_server.Pack.Words.{be32, unpack_u16_bytes, unpack_n-be32}
use pcmm_policy_server.Cops.{CopsHeader, cops_read_common_header, cops_header_ok, cops_opcode_ok}
use pcmm_policy_server.Pack.{unpack_u8_it, unpack_u16_it, unpack_u32_it}

-- Two functions compared at the `left` numbers from `i` on.
agree : (ℕ → ℕ) → (ℕ → ℕ) → ℕ → ℕ → Bool
agree f g i zero = true
agree f g i (suc left) = if f i == g i then agree f g (i + 1) left else false

agree-at : (f g : ℕ → ℕ) (i left k : ℕ) → k < left → agree f g i left ≡ true → f (i + k) ≡ g (i + k)
unfolding agree
agree-at f g i zero k small same = absurd (omega arith)
agree-at f g i (suc left) zero small same = rw add-zero (ground arith)
agree-at f g i (suc left) (suc k) small same =
    rw next (agree-at f g (i + 1) left k (omega arith) (ground arith))
  where
    next : i + suc k ≡ i + 1 + k
    next = omega arith

abbrev masked : ℕ → ℕ
masked x = bit_and x 0xF0 >>> 4

high_nibble : (x : ℕ) → IsU8 x → masked x ≡ x >>> 4
unfolding agree
high_nibble x h = rw zero-add at (agree-at masked (λ y. y >>> 4) 0 256 x h refl)

-- A common header of bytes reads back as its fields. The report bits come from the same
-- half of the first byte as the version.
pub cops_read_common_header_lem :
    (first opcode hi lo len : ℕ) (rest : Mem)
    → IsU8 first
    → IsU8 hi
    → IsU8 lo
    → IsU32 len
    → cops_read_common_header (first ∷ opcode ∷ hi ∷ lo ∷ (be32 len ++ rest))
      ≡ some (record {
        version = first >>> 4;
        rptbits = first >>> 4;
        opcode = opcode;
        client_type = hi * 256 + lo;
        message_len = len;
        failed = false;
      })
unfolding cops_read_common_header unpack_u8_it unpack_u16_it unpack_u32_it
cops_read_common_header_lem first opcode hi lo len rest h1 h2 h3 h4 =
    rw
      (
        unpack_u16_bytes hi lo (be32 len ++ rest) h2 h3,
        unpack_n-be32 len rest,
        high_nibble first h1,
      )
      (ground arith)

-- Whatever is read, the report bits are the version: the flags are never looked at.
pub rptbits-eq-version :
    (first : ℕ) (rest : Mem) (h : CopsHeader)
    → IsU8 first
    → cops_read_common_header (first ∷ rest) ≡ some h
    → h.rptbits ≡ h.version
unfolding cops_read_common_header
rptbits-eq-version first rest h byte e = ground (arith, high_nibble first byte)

-- The operations of PCMM are those of COPS but for Synchronize State Request.
pub cops_opcode_ok_iff :
    (opcode : ℕ) → (cops_opcode_ok opcode ≡ true) ↔ ((1 ≤ opcode) × (opcode ≤ 9) × (opcode ≢ 5))
unfolding cops_opcode_ok
cops_opcode_ok_iff opcode = (ground arith, ground arith)

-- A header is accepted exactly if it is a known operation of the PCMM client type with a length
-- from 1 to 999, or a Keep-Alive with client type 0, whose length is not looked at.
pub cops_header_ok_iff :
    (opcode client_type message_len : ℕ)
    → (cops_header_ok opcode client_type message_len ≡ true) ↔ (
        (((1 ≤ opcode) × (opcode ≤ 9) × (opcode ≢ 5))
          × (client_type ≡ 32778)
          × (0 < message_len)
          × (message_len < 1000))
        ⊎ ((opcode ≡ 9) × (client_type ≡ 0)))
unfolding cops_header_ok
cops_header_ok_iff opcode client_type message_len = (ground arith, ground arith)
