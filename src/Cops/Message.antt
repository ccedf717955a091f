-- ===== src/Cops/Message.antt =====
-- Whole messages of src/pcl/cops.c: their bytes, and what a reader of the header finds.
use pcmm_policy_server.Base.{
  ℕ, ◌+◌, ◌-◌, ◌%◌, ◌^◌, ◌≤◌, ◌<◌, ◌≡◌, ◌≢◌, refl, sym, ◌∙◌, false, some, List, [], ◌∷◌, ◌++◌,
  arith, length, length-take, take, u32, IsU8, Mem, Stores, Stores-at, Stores-poke, Stores-memcpy,
  Stores-fits, Stores-then_done, ne→==, Stores-then, at, memcpy, ◌⨟◌,
}
use pcmm_policy_server.Pack.{add_int}
use pcmm_policy_server.Pack.Words.{be32, be32_lem, u8_u16}
use pcmm_policy_server.Cops.{
  cops_read_common_header, cops_header_ok, cops_opcode_ok, cops_keepalive, cops_client_accept,
  new_cops_message, poke_be32,
}
use pcmm_policy_server.Cops.Header.{cops_read_common_header_lem}

poke_be32-Stores : (i v : ℕ) → Stores i (be32 v) (poke_be32 i (u32 v))
poke_be32-Stores i v = rw (← be32_lem v) (
    Stores-then (Stores-poke i _)
      (Stores-then (Stores-poke (i + 1) _)
        (Stores-then (Stores-poke (i + 2) _) (Stores-poke (i + 3) _) (omega arith)) (omega arith))
      refl)

-- The common header of PCMM messages, and that of Keep-Alive.
abbrev pub header_bytes : ℕ → ℕ → List ℕ
header_bytes opcode len = 16 ∷ opcode % 256 ∷ 128 ∷ 10 ∷ be32 len

pub new_cops_message-Stores :
    (opcode len : ℕ) (body : Mem)
    → 8 ≤ len
    → len < 2 ^ 31
    → len - 8 ≤ length body
    → Stores 0
        (header_bytes opcode len ++ take (len - 8) body)
        (new_cops_message opcode (some body) len)
unfolding new_cops_message
new_cops_message-Stores opcode len body h small fits = rw (← u8_u16 opcode) (
    Stores-poke 0 _
    ⨟ Stores-poke 1 _
    ⨟ Stores-poke 2 _
    ⨟ Stores-poke 3 _
    ⨟ poke_be32-Stores 4 len
    ⨟ copied)
  where
    eight_less : add_int (2 ^ 64 - 8) len ≡ len - 8
    eight_less = unfold add_int in ground arith

    copied : Stores 8 (take (len - 8) body) (at 8 (memcpy body (add_int (2 ^ 64 - 8) len)))
    copied = rw eight_less (Stores-at 8 (Stores-memcpy body (len - 8) fits))

-- A message of `len` bytes is a common header and the first `len - 8` bytes of the data; its
-- destination has room for it, and what lies behind is unchanged. The header reads back as version
-- 1, the operation, the PCMM client type and the length, and is accepted if the operation is.
pub new_cops_message_lem :
    (opcode len : ℕ) (body old rest : Mem)
    → IsU8 opcode
    → 8 ≤ len
    → len < 1000
    → len - 8 ≤ length body
    → length old ≡ len
    → (message : Mem) × (new_cops_message opcode (some body) len (old ++ rest)
        ≡ some (message ++ rest))
      × (length message ≡ len)
      × (message ≡ header_bytes opcode len ++ take (len - 8) body)
      × (cops_read_common_header message
          ≡ some (record {
            version = 1;
            rptbits = 1;
            opcode = opcode;
            client_type = 32778;
            message_len = len;
            failed = false;
          }))
      × (cops_header_ok opcode 32778 len ≡ cops_opcode_ok opcode)
new_cops_message_lem opcode len body old rest byte h small fits same = (
  header_bytes opcode len ++ take (len - 8) body,
  Stores-fits (new_cops_message-Stores opcode len body h (omega arith) fits) [] old rest refl
      (same ∙ sym whole),
  whole,
  refl,
  rw (u8_of byte) (
      cops_read_common_header_lem 16 opcode 128 10 len (take (len - 8) body) (omega arith)
        (omega arith) (omega arith) (omega arith)),
  unfold cops_header_ok cops_opcode_ok in ground arith,
)
  where
    whole : length (header_bytes opcode len ++ take (len - 8) body) ≡ len
    whole = omega (arith, length-take (len - 8) body fits)

    u8_of : IsU8 opcode → opcode % 256 ≡ opcode
    u8_of h = omega arith

-- Client-Accept without an accounting timer: 16 bytes, which the header's length says, with the
-- Keep-Alive timer.
pub cops_client_accept-Stores :
    (ka ac : ℕ)
    → u32 ac ≡ 0
    → Stores 0 (header_bytes 7 16 ++ (0 ∷ 8 ∷ 10 ∷ 1 ∷ be32 ka)) (cops_client_accept ka ac)
unfolding cops_client_accept
cops_client_accept-Stores ka ac e = rw e (
    Stores-poke 0 _
    ⨟ Stores-poke 1 _
    ⨟ Stores-poke 2 _
    ⨟ Stores-poke 3 _
    ⨟ poke_be32-Stores 4 16
    ⨟ Stores-poke 8 _
    ⨟ Stores-poke 9 _
    ⨟ Stores-poke 10 _
    ⨟ Stores-poke 11 _
    ⨟ Stores-then_done (poke_be32-Stores 12 ka))

-- Client-Accept with an accounting timer: 24 bytes, which the header's length says, with both
-- timers.
pub cops_client_accept_accounting :
    (ka ac : ℕ)
    → u32 ac ≢ 0
    → Stores 0
        (header_bytes 7 24 ++ (0 ∷ 8 ∷ 10 ∷ 1 ∷ (be32 ka ++ (0 ∷ 8 ∷ 15 ∷ 1 ∷ be32 ac))))
        (cops_client_accept ka ac)
unfolding cops_client_accept
cops_client_accept_accounting ka ac e = rw (ne→== (u32 ac) 0 e) (
    Stores-poke 0 _
    ⨟ Stores-poke 1 _
    ⨟ Stores-poke 2 _
    ⨟ Stores-poke 3 _
    ⨟ poke_be32-Stores 4 24
    ⨟ Stores-poke 8 _
    ⨟ Stores-poke 9 _
    ⨟ Stores-poke 10 _
    ⨟ Stores-poke 11 _
    ⨟ poke_be32-Stores 12 ka
    ⨟ Stores-poke 16 _
    ⨟ Stores-poke 17 _
    ⨟ Stores-poke 18 _
    ⨟ Stores-poke 19 _
    ⨟ poke_be32-Stores 20 ac)

pub cops_keepalive-Stores : Stores 0 (16 ∷ 9 ∷ 0 ∷ 0 ∷ be32 8) cops_keepalive
unfolding cops_keepalive
cops_keepalive-Stores =
    Stores-poke 0 _ ⨟ Stores-poke 1 _ ⨟ Stores-poke 2 _ ⨟ Stores-poke 3 _ ⨟ poke_be32-Stores 4 8
