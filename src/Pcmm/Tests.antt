-- ===== src/Pcmm/Tests.antt =====
-- The objects of src/pcl/pcmm.c at concrete values.
use pcmm_policy_server.Base.{
  ◌+◌, ◌*◌, ◌%◌, ◌≡◌, refl, some, [], ◌∷◌, ◌++◌, drop, replicate, Mem, u8, u16, u32,
}
use pcmm_policy_server.Base.Text.{str}
use pcmm_policy_server.Pcmm.Objects.{pcmm_gate}
use pcmm_policy_server.Pcmm.Objects.Layout.{is_upstream}
use pcmm_policy_server.Pcmm.Classifier.Layout.{extended_bytes}
use pcmm_policy_server.Pcmm.Decode.{pcmm_decode_gate, pcmm_decode_extended}
use pcmm_policy_server.Pcmm.Decode.RoundTrip.{
  pcmm_decode_gate-pcmm_gate, pcmm_decode_extended-extended_bytes,
}
use pcmm_policy_server.Session.Report.{unseen}

pcmm_decode_gate-pcmm_gate_example :
    (out : Mem) × (pcmm_gate
        (some (str "upstream"))
        5
        1
        1
        255
        200
        60
        300
        300
        (replicate 16 0 ++ (9 ∷ []))
      ≡ some (out, 16))
    × (pcmm_decode_gate unseen.rpt (drop 4 out)
        ≡ some (record unseen.rpt {
          flags = (is_upstream (str "upstream") + 1 % 2 * 2 + 0 % 2 * 4) % 256;
          tosf = u8 1 % 256;
          tosm = u8 255 % 256;
          class = (5 % 8 + 1 % 2 * 8 + 0 % 16 * 16) % 256;
          t1 = u16 200;
          t2 = u16 60;
          t3 = u16 300;
          t4 = u16 300;
        }))
pcmm_decode_gate-pcmm_gate_example =
    pcmm_decode_gate-pcmm_gate unseen.rpt (str "upstream") 5 1 1 255 200 60 300 300 (replicate 16 0)
      (9 ∷ []) refl

pcmm_decode_extended-extended_bytes_example :
    pcmm_decode_extended unseen.rpt (
      drop 4 (
        extended_bytes 17 1 255 167772161 4294967295 167772162 4294967295 1000 1001 2000 2001 3 64 1
          0
        ++ (7 ∷ [])))
    ≡ some (
      record unseen.rpt {
        proto_id = u16 (u16 17);
        tosf = 1 % 256;
        tosm = 255 % 256;
        src_ip = u32 167772161;
        src_mk = u32 4294967295;
        dst_ip = u32 167772162;
        dst_mk = u32 4294967295;
        src_port_start = u16 1000;
        src_port_end = u16 1001;
        dst_port_start = u16 2000;
        dst_port_end = u16 2001;
        classifier_id = u16 3;
        priority = 64 % 256;
        state = 1 % 256;
        action = 0 % 256;
      },
      1,
    )
pcmm_decode_extended-extended_bytes_example =
    pcmm_decode_extended-extended_bytes unseen.rpt 17 1 255 167772161 4294967295 167772162
      4294967295 1000 1001 2000 2001 3 64 1 0 (7 ∷ [])
