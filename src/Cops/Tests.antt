-- ===== src/Cops/Tests.antt =====
-- Messages and objects of src/pcl/cops.c at concrete values.
use pcmm_policy_server.Base.{
  ◌≡◌, refl, false, some, [], ◌∷◌, ◌++◌, arith, length, take, replicate, Mem,
}
use pcmm_policy_server.Cops.{
  cops_read_common_header, cops_header_ok, cops_opcode_ok, new_cops_message,
}
use pcmm_policy_server.Cops.Message.{header_bytes, new_cops_message_lem}

abbrev object : Mem
object = 0 ∷ 8 ∷ 1 ∷ 1 ∷ 1 ∷ 2 ∷ 3 ∷ 4 ∷ []

new_cops_message_lem_example :
    (message : Mem) × (new_cops_message 2 (some object) 16 (replicate 16 0 ++ object)
      ≡ some (message ++ object))
    × (length message ≡ 16)
    × (message ≡ header_bytes 2 16 ++ take 8 object)
    × (cops_read_common_header message
        ≡ some (record {
          version = 1;
          rptbits = 1;
          opcode = 2;
          client_type = 32778;
          message_len = 16;
          failed = false;
        }))
    × (cops_header_ok 2 32778 16 ≡ cops_opcode_ok 2)
new_cops_message_lem_example =
    new_cops_message_lem 2 16 object (replicate 16 0) object (omega arith) (omega arith)
      (omega arith) (omega arith) refl
