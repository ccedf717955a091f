-- ===== src/Pcmm/Objects/Layout.antt =====
-- The bytes of the fixed objects of src/pcl/pcmm.c.
use pcmm_policy_server.Base.{
  refl, ℕ, ◌+◌, ◌*◌, ◌%◌, ◌≡◌, ap, some, List, [], ◌∷◌, ◌++◌, arith, if◌then◌else◌, bit_or-low,
  zero-bit_or,
}
use pcmm_policy_server.Base.{u8, Stores, Stores-at, Stores-fits, length, Mem, Stores-poke, ◌⨟◌}
use pcmm_policy_server.Base.Text.{Str, matches}
use pcmm_policy_server.Pack.Words.{
  be16, be32, pack_u8-Stores, pack_u16_be-Stores, pack_u32_be-Stores,
}
use pcmm_policy_server.Iputil.{tokens}
use pcmm_policy_server.Iputil.Groups.{group_bytes, pack_ip6-Stores}
use pcmm_policy_server.Pcmm.Objects.{
  vtof, vtoc, gate_dir_upstream, pcmm_oid, pcmm_oid_vlen, pcmm_transaction_identifier,
  pcmm_application_identifier, pcmm_subscriber4_identifier, pcmm_subscriber6_identifier,
  pcmm_gate_identifier, gate_fields, pcmm_gate,
}

pub pcmm_oid-Stores :
    (num type : ℕ) → Stores 0 (0 ∷ 8 ∷ num % 256 ∷ type % 256 ∷ []) (pcmm_oid num type)
unfolding pcmm_oid
pcmm_oid-Stores num type = Stores-at 0 (pack_u16_be-Stores 8) ⨟ Stores-poke 2 _ ⨟ Stores-poke 3 _

pub pcmm_oid_vlen-Stores :
    (num type len : ℕ)
    → Stores 0 (be16 (u8 len) ++ (num % 256 ∷ type % 256 ∷ [])) (pcmm_oid_vlen num type len)
unfolding pcmm_oid_vlen
pcmm_oid_vlen-Stores num type len =
    Stores-at 0 (pack_u16_be-Stores (u8 len)) ⨟ Stores-poke 2 _ ⨟ Stores-poke 3 _

pub pcmm_transaction_identifier-Stores :
    (id cmd : ℕ)
    → Stores 0 (0 ∷ 8 ∷ 1 ∷ 1 ∷ (be16 id ++ be16 cmd)) (pcmm_transaction_identifier id cmd)
unfolding pcmm_transaction_identifier
pcmm_transaction_identifier-Stores id cmd =
    pcmm_oid-Stores 1 1 ⨟ Stores-at 4 (pack_u16_be-Stores id) ⨟ Stores-at 6 (pack_u16_be-Stores cmd)

pub pcmm_application_identifier-Stores :
    (tag type : ℕ)
    → Stores 0 (0 ∷ 8 ∷ 2 ∷ 1 ∷ (be16 tag ++ be16 type)) (pcmm_application_identifier tag type)
unfolding pcmm_application_identifier
pcmm_application_identifier-Stores tag type =
    pcmm_oid-Stores 2 1
    ⨟ Stores-at 4 (pack_u16_be-Stores tag)
    ⨟ Stores-at 6 (pack_u16_be-Stores type)

pub pcmm_subscriber4_identifier-Stores :
    (ip : ℕ) → Stores 0 (0 ∷ 8 ∷ 3 ∷ 1 ∷ be32 ip) (pcmm_subscriber4_identifier ip)
unfolding pcmm_subscriber4_identifier
pcmm_subscriber4_identifier-Stores ip = pcmm_oid-Stores 3 1 ⨟ Stores-at 4 (pack_u32_be-Stores ip)

pub pcmm_subscriber6_identifier-Stores :
    (ip t : Str) (ts : List Str)
    → tokens [] ip ≡ t ∷ ts
    → Stores 0 (0 ∷ 20 ∷ 3 ∷ 2 ∷ group_bytes (t ∷ ts)) (pcmm_subscriber6_identifier ip 20)
unfolding pcmm_subscriber6_identifier
pcmm_subscriber6_identifier-Stores ip t ts e =
    pcmm_oid_vlen-Stores 3 2 20 ⨟ Stores-at 4 (pack_ip6-Stores ip t ts e)

pub pcmm_gate_identifier-Stores :
    (id : ℕ) → Stores 0 (0 ∷ 8 ∷ 4 ∷ 1 ∷ be32 id) (pcmm_gate_identifier id)
unfolding pcmm_gate_identifier
pcmm_gate_identifier-Stores id = pcmm_oid-Stores 4 1 ⨟ Stores-at 4 (pack_u32_be-Stores id)

abbrev pub is_upstream : Str → ℕ
is_upstream dir = if matches dir gate_dir_upstream then 1 else 0

-- For a direction that is not null, bit 0 of the gate flags is the direction, bit 1 the DSCP enable bit, bit 2 the persistence bit;
-- the other bits are 0.
pub vtof_lem :
    (dir : Str) (dscp pers : ℕ)
    → vtof (some dir) dscp pers ≡ some (is_upstream dir + dscp % 2 * 2 + pers % 2 * 4)
unfolding vtof
vtof_lem dir dscp pers =
    rw
      (
        zero-bit_or,
        bit_or-low 1 (dscp % 256 % 2) (is_upstream dir % 2 * 1) (omega arith),
        bit_or-low 2 (pers % 256 % 2) (is_upstream dir % 2 * 1 + dscp % 256 % 2 * 2) (omega arith),
      )
      (ap some (ground arith))

-- Bits 0 to 2 of the session class are the priority, bit 3 the preemption, bits 4 to 7 the
-- configurable field.
pub vtoc_lem :
    (priority preemption conf : ℕ)
    → vtoc priority preemption conf ≡ priority % 8 + preemption % 2 * 8 + conf % 16 * 16
unfolding vtoc
vtoc_lem pri pre conf =
    rw
      (
        zero-bit_or,
        bit_or-low 3 (pre % 256 % 2) (pri % 256 % 8 * 1) (omega arith),
        bit_or-low 4 (conf % 256 % 16) (pri % 256 % 8 * 1 + pre % 256 % 2 * 8) (omega arith),
      )
      (omega arith)

abbrev pub gate_bytes : ℕ → ℕ → ℕ → ℕ → ℕ → ℕ → ℕ → ℕ → List ℕ
gate_bytes flags class overwrite mask t1 t2 t3 t4 =
    0
    ∷ 16
    ∷ 5
    ∷ 1
    ∷ flags % 256
    ∷ u8 overwrite % 256
    ∷ u8 mask % 256
    ∷ class % 256
    ∷ (be16 t1 ++ be16 t2 ++ be16 t3 ++ be16 t4)

pub gate_fields-Stores :
    (flags class overwrite mask t1 t2 t3 t4 : ℕ)
    → Stores 0
        (gate_bytes flags class overwrite mask t1 t2 t3 t4)
        (gate_fields flags class overwrite mask t1 t2 t3 t4)
unfolding gate_fields
gate_fields-Stores flags class overwrite mask t1 t2 t3 t4 =
    Stores-at 0 (pack_u16_be-Stores 16)
    ⨟ Stores-at 2 (pack_u8-Stores 5)
    ⨟ Stores-at 3 (pack_u8-Stores 1)
    ⨟ Stores-at 4 (pack_u8-Stores flags)
    ⨟ Stores-at 5 (pack_u8-Stores (u8 overwrite))
    ⨟ Stores-at 6 (pack_u8-Stores (u8 mask))
    ⨟ Stores-at 7 (pack_u8-Stores class)
    ⨟ Stores-at 8 (pack_u16_be-Stores t1)
    ⨟ Stores-at 10 (pack_u16_be-Stores t2)
    ⨟ Stores-at 12 (pack_u16_be-Stores t3)
    ⨟ Stores-at 14 (pack_u16_be-Stores t4)

-- A buffer whose first 16 bytes are the gate's gets the whole gate specification: the flags with
-- the direction and the overwrite bit, the overwrite and mask bytes, the class with the priority
-- and the preemption, and the four timers. The size returned is 16, and the rest stays.
pub pcmm_gate_lem :
    (dir : Str) (pri preempt overwrite mask t1 t2 t3 t4 : ℕ) (old rest : Mem)
    → length old ≡ 16
    → pcmm_gate (some dir) pri preempt overwrite mask t1 t2 t3 t4 (old ++ rest)
      ≡ some (
        gate_bytes
              (is_upstream dir + overwrite % 2 * 2 + 0 % 2 * 4)
              (pri % 8 + preempt % 2 * 8 + 0 % 16 * 16)
              overwrite
              mask
              t1
              t2
              t3
              t4
            ++ rest,
        16,
      )
unfolding pcmm_gate
pcmm_gate_lem dir pri preempt overwrite mask t1 t2 t3 t4 old rest e =
    rw
      (
        vtof_lem dir overwrite 0,
        vtoc_lem pri preempt 0,
        Stores-fits
            (gate_fields-Stores (is_upstream dir + overwrite % 2 * 2 + 0 % 2 * 4)
              (pri % 8 + preempt % 2 * 8 + 0 % 16 * 16) overwrite mask t1 t2 t3 t4)
            [] old rest refl e,
      )
      refl
