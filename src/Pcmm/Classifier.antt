-- ===== src/Pcmm/Classifier.antt =====
-- The three classifiers of src/pcl/pcmm.c.
pub mod Layout
use pcmm_policy_server.Base.{
  ℕ, ◌+◌, Bool, true, false, ◌&&◌, ◌||◌, not, Option, none, some, List, [], ◌∷◌, if◌then◌else◌,
}
use pcmm_policy_server.Base.{u8, u16, Mem, Writer, ◌>>◌, at, poke, done}
use pcmm_policy_server.Base.Fault.{◌>>=◌}
use pcmm_policy_server.Base.Text.{Str, str, matches}
use pcmm_policy_server.Pack.{pack_u8, pack_u16_be, pack_u32_be}
use pcmm_policy_server.Iputil.{Inet, ip4_toi, pack_ip6, prefixlen}

-- The bytes, once the addresses are read.
pub legacy_fields : ℕ → ℕ → ℕ → ℕ → ℕ → ℕ → ℕ → ℕ → ℕ → Writer
legacy_fields protocol field mask srcip_int dstip_int src_port dst_port priority reserved = do
  at 0 (pack_u16_be 24)
  at 2 (pack_u8 6)
  at 3 (pack_u8 1)
  at 4 (pack_u16_be (u16 protocol))
  at 6 (pack_u8 field)
  at 7 (pack_u8 mask)
  at 8 (pack_u32_be srcip_int)
  at 12 (pack_u32_be dstip_int)
  at 16 (pack_u16_be src_port)
  at 18 (pack_u16_be dst_port)
  at 20 (pack_u8 priority)
  at 21 (pack_u8 reserved)
  at 22 (pack_u8 reserved)
  at 23 (pack_u8 reserved)

pub extended_fields : ℕ → ℕ → ℕ → ℕ → ℕ → ℕ → ℕ → ℕ → ℕ → ℕ → ℕ → ℕ → ℕ → ℕ → ℕ → Writer
extended_fields protocol field mask srcip_int smask_int dstip_int dmask_int src_port_s src_port_e
      dst_port_s dst_port_e class_id priority act_state action =
    do
      at 0 (pack_u16_be 40)
      at 2 (pack_u8 6)
      at 3 (pack_u8 2)
      at 4 (pack_u16_be (u16 protocol))
      at 6 (pack_u8 field)
      at 7 (pack_u8 mask)
      at 8 (pack_u32_be srcip_int)
      at 12 (pack_u32_be smask_int)
      at 16 (pack_u32_be dstip_int)
      at 20 (pack_u32_be dmask_int)
      at 24 (pack_u16_be src_port_s)
      at 26 (pack_u16_be src_port_e)
      at 28 (pack_u16_be dst_port_s)
      at 30 (pack_u16_be dst_port_e)
      at 32 (pack_u16_be class_id)
      at 34 (pack_u8 priority)
      at 35 (pack_u8 act_state)
      at 36 (pack_u8 action)

module _ (inet : Inet) where
  -- `(dst_ip) ? itoi(dst_ip, AF_INET) : 0`
  unfoldable pub dst_toi : Option Str → Option ℕ
  dst_toi none = some 0
  dst_toi (some ip) = ip4_toi inet (some ip)

  unfoldable pub pcmm_legacy_classifier :
      ℕ → ℕ → ℕ → Option Str → Option Str → ℕ → ℕ → ℕ → ℕ → Writer
  pcmm_legacy_classifier protocol field mask src_ip dst_ip src_port dst_port priority reserved dst =
      do
        srcip_int ← ip4_toi inet src_ip
        dstip_int ← dst_toi dst_ip
        legacy_fields protocol field mask srcip_int dstip_int src_port dst_port priority reserved
            dst

  unfoldable pub pcmm_extended_classifier :
      ℕ
      → Option Str
      → Option Str
      → ℕ
      → ℕ
      → Option Str
      → Option Str
      → ℕ
      → ℕ
      → ℕ
      → ℕ
      → ℕ
      → ℕ
      → ℕ
      → ℕ
      → Writer
  pcmm_extended_classifier protocol src_ip src_mask src_port_s src_port_e dst_ip dst_mask dst_port_s
        dst_port_e priority field mask class_id act_state action dst =
      do
        srcip_int ← ip4_toi inet src_ip
        dstip_int ← dst_toi dst_ip
        smask_int ← ip4_toi inet src_mask
        dmask_int ← ip4_toi inet dst_mask
        extended_fields protocol field mask srcip_int smask_int dstip_int dmask_int src_port_s
            src_port_e dst_port_s dst_port_e class_id priority act_state action dst

-- The prefix length that is packed for an address.
unfoldable pub packed_prefixlen : Str → ℕ
packed_prefixlen ip6 =
    if not (matches ip6 (str "::/0")) && not (matches ip6 (str "")) then prefixlen ip6 else 0

-- `strcmp(ip6, "0.0.0.0") != 0 || strcmp(ip6, "::/0") != 0`
unfoldable pub wants_address : Str → Bool
wants_address ip6 = not (matches ip6 (str "0.0.0.0")) || not (matches ip6 (str "::/0"))

pub ipv6_fields : ℕ → ℕ → ℕ → ℕ → ℕ → Str → Str → ℕ → ℕ → ℕ → ℕ → ℕ → ℕ → ℕ → ℕ → Writer
ipv6_fields tc_low tc_high tc_mask flow_label nh_type src_ip6 dst_ip6 src_port_s src_port_e
      dst_port_s dst_port_e class_id priority actstate action =
    do
      at 0 (pack_u16_be 64)
      at 2 (pack_u8 6)
      at 3 (pack_u8 3)
      poke 4 0
      poke 5 (u8 tc_low)
      poke 6 (u8 tc_high)
      poke 7 (u8 tc_mask)
      at 8 (pack_u32_be flow_label)
      at 12 (pack_u16_be nh_type)
      at 14 (pack_u8 (packed_prefixlen src_ip6))
      at 15 (pack_u8 (packed_prefixlen dst_ip6))
      if wants_address src_ip6 then at 16 (pack_ip6 src_ip6) else done
      if wants_address dst_ip6 then at 32 (pack_ip6 dst_ip6) else done
      at 48 (pack_u16_be src_port_s)
      at 50 (pack_u16_be src_port_e)
      at 52 (pack_u16_be dst_port_s)
      at 54 (pack_u16_be dst_port_e)
      at 56 (pack_u16_be class_id)
      at 58 (pack_u8 priority)
      at 59 (pack_u8 actstate)
      at 60 (pack_u8 action)
      at 62 (pack_u16_be 0)

-- `strcmp` on a null address is a fault.
unfoldable pub pcmm_ipv6_classifier :
    ℕ → ℕ → ℕ → ℕ → ℕ → Option Str → Option Str → ℕ → ℕ → ℕ → ℕ → ℕ → ℕ → ℕ → ℕ → Writer
unfolding ipv6_fields
pcmm_ipv6_classifier tc_low tc_high tc_mask flow_label nh_type src_ip6 dst_ip6 src_port_s src_port_e
      dst_port_s dst_port_e class_id priority actstate action dst =
    do
      src ← src_ip6
      dst_text ← dst_ip6
      ipv6_fields tc_low tc_high tc_mask flow_label nh_type src dst_text src_port_s src_port_e
          dst_port_s dst_port_e class_id priority actstate action dst
