-- ===== src/Pcmm/Envelope.antt =====
-- The traffic profile envelopes of src/pcl/pcmm.c. The bytes of a `float` in memory are the
-- platform's and enter as `Floats`.
pub mod Layout
use pcmm_policy_server.Base.{
  ℕ, zero, suc, ◌+◌, ◌%◌, ◌≡◌, Option, none, some, List, [], ◌∷◌, ◌++◌, length, get_elem?, Mem,
  Writer, ◌>>◌, at,
}
use pcmm_policy_server.Base.Fault.{◌>>=◌}
use pcmm_policy_server.Base.Text.{Str}
use pcmm_policy_server.Pack.{pack_u8, pack_u16_be, pack_u32_be, pack_reverse}

-- `image n` holds the `sizeof(float)` bytes of the float `n`, in the order in which they are stored.
pub record Floats : Type 0 where
  pub image : ℕ → List ℕ
  pub four_bytes : (n : ℕ) → length (image n) ≡ 4

module _ (floats : Floats) where
  -- One round of the loop in `bitrates`.
  pub round : Mem → ℕ → Option (Mem × ℕ)
  round dst iter = do
    (d1, i1) ← pack_reverse (floats.image 10000) dst iter
    (d2, i2) ← pack_reverse (floats.image 200) d1 i1
    (d3, i3) ← pack_reverse (floats.image 10000) d2 i2
    d4 ← at i3 (pack_u32_be 200) d3
    d5 ← at (i3 + 4) (pack_u32_be 200) d4
    (d6, i6) ← pack_reverse (floats.image 10000) d5 (i3 + 4 + 4)
    d7 ← at i6 (pack_u32_be 2000) d6
    some (d7, i6 + 4)

  pub rounds : ℕ → Mem → ℕ → Option (Mem × ℕ)
  rounds zero dst iter = some (dst, iter)
  rounds (suc left) dst iter = do (dst', iter') ← round dst iter; rounds left dst' iter'

  unfoldable pub bitrates : Writer
  unfolding rounds round
  bitrates dst = do (dst', iter) ← rounds 3 dst 0; some dst'

  unfoldable pub pcmm_flowspec_envelope : ℕ → Writer
  pcmm_flowspec_envelope service_number = do
    at 0 (pack_u16_be 92)
    at 2 (pack_u8 7)
    at 3 (pack_u8 1)
    at 4 (pack_u8 7)
    at 5 (pack_u8 service_number)
    at 6 (pack_u8 0)
    at 7 (pack_u8 0)
    at 8 bitrates

-- `for (int i = 0; i < alignment; i++) pack_u8(dst + j++, 0);` from position `j` on
pub pad : ℕ → ℕ → Writer
pad zero j dst = some dst
pad (suc left) j dst = do dst' ← at j (pack_u8 0) dst; pad left (j + 1) dst'

-- `for (...; i < 8; i++) pack_u8(dst + j++, scn[i]);` over the text and its terminator
pub copy_name : ℕ → ℕ → ℕ → Mem → Writer
copy_name zero i j scn dst = some dst
copy_name (suc left) i j scn dst = do
  c ← get_elem? scn i
  dst' ← at j (pack_u8 c) dst
  copy_name left (i + 1) (j + 1) scn dst'

pub scn_header : Writer
scn_header = do
  at 0 (pack_u16_be 20)
  at 2 (pack_u8 7)
  at 3 (pack_u8 2)
  at 4 (pack_u8 7)
  at 5 (pack_u8 0)
  at 6 (pack_u8 0)

-- `strlen` of a null name is a fault.
unfoldable pub pcmm_scn_envelope : Option Str → Writer
unfolding scn_header pad copy_name
pcmm_scn_envelope scn_ptr dst = do
  scn ← scn_ptr
  let alignment = (length scn + 1) % 4
  d1 ← scn_header dst
  d2 ← pad alignment 7 d1
  copy_name 8 0 (7 + alignment) (scn ++ (0 ∷ [])) d2
