-- ===== src/Pcmm/Decode/RoundTrip.antt =====
-- Decoding what src/pcl/pcmm.c encodes: a gate specification and both classifiers read back.
use pcmm_policy_server.Base.{
  ℕ, ◌+◌, ◌*◌, length, ◌%◌, ◌≡◌, refl, some, ◌∷◌, ◌++◌, u8, u16, u32, drop, Mem,
}
use pcmm_policy_server.Pack.{unpack_u8_it, unpack_u16_it, unpack_u32_it}
use pcmm_policy_server.Pack.Words.{be16, be32, unpack_u16-be16, unpack_n-be32}
use pcmm_policy_server.Base.Text.{Str}
use pcmm_policy_server.Pcmm.Objects.{pcmm_gate}
use pcmm_policy_server.Pcmm.Objects.Layout.{gate_bytes, is_upstream, pcmm_gate_lem}
use pcmm_policy_server.Pcmm.Classifier.Layout.{legacy_bytes, extended_bytes}
use pcmm_policy_server.Pcmm.Decode.{
  PcmmRpt, pcmm_decode_gate, pcmm_decode_classifier, pcmm_decode_extended,
}

-- Decoding the object that `pcmm_gate` writes, from its fifth byte on, gives back each of its
-- fields at its width, and leaves the other members of the report as they are.
pub pcmm_decode_gate-gate_bytes :
    (report : PcmmRpt) (flags class overwrite mask t1 t2 t3 t4 : ℕ) (rest : Mem)
    → pcmm_decode_gate report (drop 4 (gate_bytes flags class overwrite mask t1 t2 t3 t4 ++ rest))
      ≡ some (record report {
        flags = flags % 256;
        tosf = u8 overwrite % 256;
        tosm = u8 mask % 256;
        class = class % 256;
        t1 = u16 t1;
        t2 = u16 t2;
        t3 = u16 t3;
        t4 = u16 t4;
      })
unfolding pcmm_decode_gate unpack_u8_it unpack_u16_it
pcmm_decode_gate-gate_bytes report flags class overwrite mask t1 t2 t3 t4 rest =
    rw
      (
        unpack_u16-be16 t1 (be16 t2 ++ (be16 t3 ++ (be16 t4 ++ rest))),
        unpack_u16-be16 t2 (be16 t3 ++ (be16 t4 ++ rest)),
        unpack_u16-be16 t3 (be16 t4 ++ rest),
        unpack_u16-be16 t4 rest,
      )
      refl

pub pcmm_decode_classifier-legacy_bytes :
    (report : PcmmRpt) (protocol field mask src dst sport dport priority reserved : ℕ) (rest : Mem)
    → pcmm_decode_classifier report
        (drop 4 (legacy_bytes protocol field mask src dst sport dport priority reserved ++ rest))
      ≡ some (
        record report {
          proto_id = u16 (u16 protocol);
          tosf = field % 256;
          tosm = mask % 256;
          src_ip = u32 src;
          dst_ip = u32 dst;
          src_port_start = u16 sport;
          dst_port_start = u16 dport;
        },
        0,
      )
unfolding pcmm_decode_classifier unpack_u8_it unpack_u16_it unpack_u32_it
pcmm_decode_classifier-legacy_bytes report protocol field mask src dst sport dport priority reserved
      rest =
    let last = priority % 256 ∷ reserved % 256 ∷ reserved % 256 ∷ reserved % 256 ∷ rest in
    let ports = be16 sport ++ (be16 dport ++ last) in
    rw
      (
        unpack_u16-be16 (u16 protocol)
            (field % 256 ∷ mask % 256 ∷ (be32 src ++ (be32 dst ++ ports))),
        unpack_n-be32 src (be32 dst ++ ports),
        unpack_n-be32 dst ports,
        unpack_u16-be16 sport (be16 dport ++ last),
        unpack_u16-be16 dport last,
      )
      refl

-- Decoding the object that `pcmm_extended_classifier` writes, from its fifth byte on, gives back
-- each of its fields at its width, and leaves the other members of the report as they are.
pub pcmm_decode_extended-extended_bytes :
    (report : PcmmRpt)
    (protocol field mask src smask dst dmask sps spe dps dpe cid priority state action : ℕ)
    (rest : Mem)
    → pcmm_decode_extended report (
        drop 4 (
          extended_bytes protocol field mask src smask dst dmask sps spe dps dpe cid priority state
            action
          ++ rest))
      ≡ some (
        record report {
          proto_id = u16 (u16 protocol);
          tosf = field % 256;
          tosm = mask % 256;
          src_ip = u32 src;
          src_mk = u32 smask;
          dst_ip = u32 dst;
          dst_mk = u32 dmask;
          src_port_start = u16 sps;
          src_port_end = u16 spe;
          dst_port_start = u16 dps;
          dst_port_end = u16 dpe;
          classifier_id = u16 cid;
          priority = priority % 256;
          state = state % 256;
          action = action % 256;
        },
        1,
      )
unfolding pcmm_decode_extended unpack_u8_it unpack_u16_it unpack_u32_it
pcmm_decode_extended-extended_bytes report protocol field mask src smask dst dmask sps spe dps dpe
      cid priority state action rest =
    let last = priority % 256 ∷ state % 256 ∷ action % 256 ∷ rest in
    let ports = be16 sps ++ (be16 spe ++ (be16 dps ++ (be16 dpe ++ (be16 cid ++ last)))) in
    let masked = be32 dst ++ (be32 dmask ++ ports) in
    rw
      (
        unpack_u16-be16 (u16 protocol)
            (field % 256 ∷ mask % 256 ∷ (be32 src ++ (be32 smask ++ masked))),
        unpack_n-be32 src (be32 smask ++ masked),
        unpack_n-be32 smask masked,
        unpack_n-be32 dst (be32 dmask ++ ports),
        unpack_n-be32 dmask ports,
        unpack_u16-be16 sps (be16 spe ++ (be16 dps ++ (be16 dpe ++ (be16 cid ++ last)))),
        unpack_u16-be16 spe (be16 dps ++ (be16 dpe ++ (be16 cid ++ last))),
        unpack_u16-be16 dps (be16 dpe ++ (be16 cid ++ last)),
        unpack_u16-be16 dpe (be16 cid ++ last),
        unpack_u16-be16 cid last,
      )
      refl

-- What `pcmm_gate` writes over the 16 bytes at `old`, `pcmm_decode_gate` reads back behind the
-- object's header: the flags and the class as `pcmm_gate` makes them, the overwrite and mask bytes,
-- and the timers, each at its width; the other members of the report stay.
pub pcmm_decode_gate-pcmm_gate :
    (report : PcmmRpt) (dir : Str) (pri preempt overwrite mask t1 t2 t3 t4 : ℕ) (old rest : Mem)
    → length old ≡ 16
    → (out : Mem) × (pcmm_gate (some dir) pri preempt overwrite mask t1 t2 t3 t4 (old ++ rest)
        ≡ some (out, 16))
      × (pcmm_decode_gate report (drop 4 out)
          ≡ some (record report {
            flags = (is_upstream dir + overwrite % 2 * 2 + 0 % 2 * 4) % 256;
            tosf = u8 overwrite % 256;
            tosm = u8 mask % 256;
            class = (pri % 8 + preempt % 2 * 8 + 0 % 16 * 16) % 256;
            t1 = u16 t1;
            t2 = u16 t2;
            t3 = u16 t3;
            t4 = u16 t4;
          }))
pcmm_decode_gate-pcmm_gate report dir pri preempt overwrite mask t1 t2 t3 t4 old rest e = (
  _,
  pcmm_gate_lem dir pri preempt overwrite mask t1 t2 t3 t4 old rest e,
  pcmm_decode_gate-gate_bytes report (is_upstream dir + overwrite % 2 * 2 + 0 % 2 * 4)
      (pri % 8 + preempt % 2 * 8 + 0 % 16 * 16) overwrite mask t1 t2 t3 t4 rest,
)
