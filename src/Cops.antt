-- ===== src/Cops.antt =====
-- src/pcl/cops.c: the objects and messages of COPS (RFC 2748) that the server sends, and the tests
-- on a received header. Functions that fill a buffer are writers (Base/Memory).
pub mod Header
pub mod Objects
pub mod Message
mod Tests
use Prim.Native.Nat.{bit_and}
use Prim.Native.String.{String}
use pcmm_policy_server.Base.{
  ℕ, ◌+◌, ◌-◌, ◌^◌, Bool, true, false, ◌&&◌, ◌||◌, not, Option, none, some, List, [], ◌∷◌, ◌++◌,
  ◌==◌, ltb, if◌then◌else◌,
}
use pcmm_policy_server.Base.{
  u8, u16, u32, ◌<<<◌, ◌>>>◌, low_bits, bit_or, get_elem?, Mem, Writer, ◌>>◌, at, poke, memcpy,
  done,
}
use pcmm_policy_server.Base.Fault.{◌>>=◌}
use pcmm_policy_server.Pack.{
  unpack_u8_it, unpack_u16_it, unpack_u32_it, pack_u16_be, add_int, concat_c8,
}

abbrev pub cops_common_obj_len : ℕ
cops_common_obj_len = 8

pub record CopsHeader : Type 0 where
  pub version : ℕ
  pub rptbits : ℕ
  pub opcode : ℕ
  pub client_type : ℕ
  pub message_len : ℕ
  pub failed : Bool

unfoldable pub cops_read_common_header : Mem → Option CopsHeader
cops_read_common_header ptr = do
  first ← get_elem? ptr 0
  (opcode, idx) ← unpack_u8_it ptr 1
  (client_type, idx') ← unpack_u16_it ptr idx
  (message_len, _) ← unpack_u32_it ptr idx'
  some (record {
    version = first >>> 4;
    rptbits = bit_and first 0xF0 >>> 4;
    opcode = opcode;
    client_type = client_type;
    message_len = message_len;
    failed = false;
  })

unfoldable pub cops_oid : ℕ → ℕ → Writer
cops_oid num type = do at 0 (pack_u16_be cops_common_obj_len); poke 2 (u8 num); poke 3 (u8 type)

unfoldable pub cops_opcode_ok : ℕ → Bool
cops_opcode_ok opcode =
    opcode == 1
    || opcode == 2
    || opcode == 3
    || opcode == 4
    || opcode == 6
    || opcode == 7
    || opcode == 8
    || opcode == 9

unfoldable pub cops_header_ok : ℕ → ℕ → ℕ → Bool
unfolding cops_opcode_ok
cops_header_ok opcode client_type message_len =
    (cops_opcode_ok opcode
      && client_type == 32778
      && not (message_len == 0)
      && ltb message_len 1000)
    || (opcode == 9 && client_type == 0)

unfoldable pub cops_class_ok : ℕ → ℕ → Bool
cops_class_ok cnum ctype =
    (cnum == 1
      || cnum == 2
      || cnum == 6
      || cnum == 8
      || cnum == 9
      || cnum == 10
      || cnum == 11
      || cnum == 12)
    && (ctype == 1 || ctype == 2 || ctype == 3)

unfoldable pub cops_otoa : ℕ → String
cops_otoa opcode =
    if opcode == 1
    then "REQ"
    else if opcode == 2
    then "DEC"
    else if opcode == 3
    then "RPT"
    else if opcode == 4
    then "DRQ"
    else if opcode == 5
    then "SSQ"
    else if opcode == 6
    then "OPN"
    else if opcode == 7
    then "CAT"
    else if opcode == 8
    then "CC"
    else if opcode == 9
    then "KA"
    else if opcode == 10
    then "SSC"
    else "NIL"

unfoldable pub cops_otos : ℕ → String
cops_otos opcode =
    if opcode == 1
    then "Handle"
    else if opcode == 2
    then "Context"
    else if opcode == 3
    then "In Interface"
    else if opcode == 4
    then "Out Interface"
    else if opcode == 5
    then "Reason Code"
    else if opcode == 6
    then "Decision"
    else if opcode == 7
    then "LPDP Decision"
    else if opcode == 8
    then "Error"
    else if opcode == 9
    then "Client Specific Info"
    else if opcode == 10
    then "Keep-Alive Timer"
    else if opcode == 11
    then "PEP Identification"
    else if opcode == 12
    then "Report Type"
    else if opcode == 13
    then "PDP Redirect Address"
    else if opcode == 14
    then "Last PDP Address"
    else if opcode == 15
    then "Accounting Timer"
    else if opcode == 16
    then "Message Integrity"
    else "NIL"

unfoldable pub cops_handle : Mem → Writer
cops_handle handle = do cops_oid 1 1; at 4 (memcpy handle 4)

-- The bytes in memory of `htons(v)`: network order.
abbrev pub htons_bytes : ℕ → List ℕ
htons_bytes v = low_bits (u16 v >>> 8) 8 ∷ low_bits (u16 v) 8 ∷ []

-- `combo` holds the two bytes of `enc_rt` and the two of `enc_mt`.
unfoldable pub cops_context : Writer
cops_context dst = do
  dst' ← cops_oid 2 1 dst
  rt ← memcpy (htons_bytes 8) 2 (0 ∷ 0 ∷ 0 ∷ 0 ∷ [])
  combo ← at 2 (memcpy (htons_bytes 0) 2) rt
  at 4 (memcpy combo 4) dst'

unfoldable pub cops_decision : Writer
cops_decision = do cops_oid 6 1; at 4 (memcpy (htons_bytes 1 ++ htons_bytes 1) 4)

-- The result is the buffer and the number of bytes packed.
unfoldable pub pack_ctl_objs : Mem → Mem → Mem → Mem → Mem → Mem → Mem → ℕ → ℕ → Option (Mem × ℕ)
pack_ctl_objs dst handle context decision command application subscriber decision_length ip_length =
    do
      (d1, i1) ← concat_c8 dst 0 handle 8
      (d2, i2) ← concat_c8 d1 i1 context 8
      (d3, i3) ← concat_c8 d2 i2 decision 8
      d4 ← (at i3 (pack_u16_be decision_length) >> poke (i3 + 2) 6 >> poke (i3 + 3) 4) d3
      (d5, i5) ← concat_c8 d4 (i3 + 4) command 8
      (d6, i6) ← concat_c8 d5 i5 application 8
      concat_c8 d6 i6 subscriber ip_length

-- `int header_v = (1 << 4) | 0`
abbrev pub header_v : ℕ
header_v = bit_or (1 <<< 4) 0

abbrev pub client_type_value : ℕ
client_type_value = 32778

-- The four bytes of `x` at `dst + i`.
abbrev poke_be32 : ℕ → ℕ → Writer
poke_be32 i x = do
  poke i (low_bits (x >>> 24) 8)
  poke (i + 1) (low_bits (x >>> 16) 8)
  poke (i + 2) (low_bits (x >>> 8) 8)
  poke (i + 3) (low_bits x 8)

accounting : ℕ → Writer
accounting acct_timer = do
  poke 16 (low_bits (8 >>> 8) 8)
  poke 17 (low_bits 8 8)
  poke 18 15
  poke 19 1
  poke_be32 20 (u32 acct_timer)

unfoldable pub cops_client_accept : ℕ → ℕ → Writer
unfolding accounting
cops_client_accept ka_timer acct_timer =
    let len = if u32 acct_timer == 0 then 16 else 24 in
    do
      poke 0 header_v
      poke 1 7
      poke 2 (low_bits (client_type_value >>> 8) 8)
      poke 3 (low_bits client_type_value 8)
      poke_be32 4 len
      poke 8 (low_bits (8 >>> 8) 8)
      poke 9 (low_bits 8 8)
      poke 10 10
      poke 11 1
      poke_be32 12 (u32 ka_timer)
      if u32 acct_timer == 0 then done else accounting acct_timer

unfoldable pub cops_keepalive : Writer
cops_keepalive = do
  poke 0 header_v
  poke 1 9
  poke 2 (low_bits (0 >>> 8) 8)
  poke 3 (low_bits 0 8)
  poke_be32 4 8

-- `data` is `none` for a null pointer. The copied length is `length - 8` as a `size_t`.
unfoldable pub new_cops_message : ℕ → Option Mem → ℕ → Writer
new_cops_message opcode data_ptr length = do
  poke 0 header_v
  poke 1 (u8 (u16 opcode))
  poke 2 (low_bits (client_type_value >>> 8) 8)
  poke 3 (low_bits client_type_value 8)
  poke_be32 4 (u32 length)
  elim data_ptr [ none ↦ done | some body ↦ at 8 (memcpy body (add_int (2 ^ 64 - 8) length)) ]
