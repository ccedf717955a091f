-- ===== src/Pcmm/Objects.antt =====
-- The fixed objects of src/pcl/pcmm.c: identifiers, the gate specification and its bit fields.
pub mod Layout
use pcmm_policy_server.Base.{
  ℕ, ◌+◌, ◌%◌, Bool, true, false, Option, none, some, List, [], ◌∷◌, if◌then◌else◌, bit_or,
}
use pcmm_policy_server.Base.{u8, u16, low_bits, ◌<<<◌, Mem, Writer, ◌>>◌, at, poke}
use pcmm_policy_server.Base.Fault.{◌>>=◌}
use pcmm_policy_server.Base.Text.{Str, str, matches}
use pcmm_policy_server.Pack.{pack_u8, pack_u16_be, pack_u32_be}
use pcmm_policy_server.Iputil.{pack_ip6}

abbrev pub gate_dir_upstream : Str
gate_dir_upstream = str "upstream"

-- Gate flags. `strcmp` on a null direction is a fault.
unfoldable pub vtof : Option Str → ℕ → ℕ → Option ℕ
vtof none dscp_enable_bit persistence_bit = none
vtof (some direction) dscp_enable_bit persistence_bit =
    let direction_bit = if matches direction gate_dir_upstream then 1 else 0 in
    some (
      bit_or
        (bit_or (bit_or 0 (low_bits direction_bit 1 <<< 0)) (low_bits (u8 dscp_enable_bit) 1 <<< 1))
        (low_bits (u8 persistence_bit) 1 <<< 2))

-- The session class.
unfoldable pub vtoc : ℕ → ℕ → ℕ → ℕ
vtoc priority_bit preemption_bit conf_bit =
    bit_or
      (bit_or (bit_or 0 (low_bits (u8 priority_bit) 3 <<< 0))
        (low_bits (u8 preemption_bit) 1 <<< 3))
      (low_bits (u8 conf_bit) 4 <<< 4)

unfoldable pub pcmm_oid_vlen : ℕ → ℕ → ℕ → Writer
pcmm_oid_vlen num type len = do at 0 (pack_u16_be (u8 len)); poke 2 (u8 num); poke 3 (u8 type)

unfoldable pub pcmm_oid : ℕ → ℕ → Writer
pcmm_oid num type = do at 0 (pack_u16_be 8); poke 2 (u8 num); poke 3 (u8 type)

unfoldable pub pcmm_transaction_identifier : ℕ → ℕ → Writer
pcmm_transaction_identifier transaction_id gate_command_type = do
  pcmm_oid 1 1
  at 4 (pack_u16_be transaction_id)
  at 6 (pack_u16_be gate_command_type)

unfoldable pub pcmm_application_identifier : ℕ → ℕ → Writer
pcmm_application_identifier app_tag app_type = do
  pcmm_oid 2 1
  at 4 (pack_u16_be app_tag)
  at 6 (pack_u16_be app_type)

unfoldable pub pcmm_subscriber4_identifier : ℕ → Writer
pcmm_subscriber4_identifier ip_repr = do pcmm_oid 3 1; at 4 (pack_u32_be ip_repr)

unfoldable pub pcmm_subscriber6_identifier : Str → ℕ → Writer
pcmm_subscriber6_identifier sub_id ip_len = do pcmm_oid_vlen 3 2 ip_len; at 4 (pack_ip6 sub_id)

unfoldable pub pcmm_gate_identifier : ℕ → Writer
pcmm_gate_identifier gate_id = do pcmm_oid 4 1; at 4 (pack_u32_be gate_id)

abbrev pub gate_spec_len : ℕ
gate_spec_len = 16

-- The bytes of the gate specification, once its bit fields are made.
pub gate_fields : ℕ → ℕ → ℕ → ℕ → ℕ → ℕ → ℕ → ℕ → Writer
gate_fields flags class overwrite mask t1 t2 t3 t4 = do
  at 0 (pack_u16_be gate_spec_len)
  at 2 (pack_u8 5)
  at 3 (pack_u8 1)
  at 4 (pack_u8 flags)
  at 5 (pack_u8 (u8 overwrite))
  at 6 (pack_u8 (u8 mask))
  at 7 (pack_u8 class)
  at 8 (pack_u16_be t1)
  at 10 (pack_u16_be t2)
  at 12 (pack_u16_be t3)
  at 14 (pack_u16_be t4)

-- The result is the buffer and the returned size.
unfoldable pub pcmm_gate : Option Str → ℕ → ℕ → ℕ → ℕ → ℕ → ℕ → ℕ → ℕ → Mem → Option (Mem × ℕ)
unfolding gate_fields
pcmm_gate dir pri preempt overwrite mask t1 t2 t3 t4 dst = do
  flags ← vtof dir overwrite 0
  dst' ← gate_fields flags (vtoc pri preempt 0) overwrite mask t1 t2 t3 t4 dst
  some (dst', 16)
