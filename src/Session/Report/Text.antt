-- ===== src/Session/Report/Text.antt =====
-- The texts that `write_report` of src/pcl/pcmm.c prints: the formats of include/pcmm.h.
use pcmm_policy_server.Base.{ℕ, zero, suc, ◌+◌, ◌/◌, ◌%◌, List, [], ◌∷◌, ◌++◌, ltb, if◌then◌else◌}
use Prim.Native.String.{String}
use pcmm_policy_server.Base.Text.{Str, str}
use pcmm_policy_server.Session.Report.{
  Response, response_default, response_legacy, response_extended, response_error,
}

-- An unsigned number of at most so many digits.
unfoldable pub print_decimal : ℕ → ℕ → Str
print_decimal zero n = []
print_decimal (suc digits) n =
    let front = print_decimal digits (n / 10) in
    if ltb n 10 then (b'0' + n) ∷ [] else front ++ ((b'0' + n % 10) ∷ [])

-- Five digits print an `uint16_t` or `uint8_t`, ten an `uint32_t`.
abbrev pub print_u16 : ℕ → Str
print_u16 n = print_decimal 5 n

abbrev pub gate_key : Str
gate_key = str "{\"output\": {\"cops-gate-id\": "

abbrev pub command_key : Str
command_key = str ", \"GateCmd\": \""

abbrev pub error_key : Str
error_key = str ", \"PacketCableError\": \""

-- What every format starts with. `gate_id` holds a `uint32_t`.
abbrev pub print_gate : ℕ → String → Str
print_gate gate_id gate_cmd =
    gate_key ++ (print_decimal 10 gate_id ++ (command_key ++ str gate_cmd))

abbrev pub application_key : Str
application_key = str "\", \"ApplicationId\": "

-- A field for each key.
unfoldable pub print_fields : List Str → List ℕ → Str
print_fields (key ∷ keys) (n ∷ ns) = key ++ (print_u16 n ++ print_fields keys ns)
print_fields [] ns = []
print_fields (key ∷ keys) [] = []

abbrev pub spec_keys : List Str
spec_keys =
    application_key
    ∷ str ", \"spec\": {\"flags\": "
    ∷ str ", \"class\": "
    ∷ str ", \"t1\": "
    ∷ str ", \"t2\": "
    ∷ str ", \"t3\": "
    ∷ str ", \"t4\": "
    ∷ str ", \"classifier_id\": "
    ∷ str ", \"src_port_start\": "
    ∷ str ", \"src_port_end\": "
    ∷ []

abbrev pub extended_keys : List Str
extended_keys =
    spec_keys
    ++ (str ", \"dst_port_start\": "
        ∷ str ", \"dst_port_end\": "
        ∷ str ", \"priority\": "
        ∷ str ", \"state\": "
        ∷ str ", \"action\": "
        ∷ [])

-- `RESPONSE_DEFAULT`, `RESPONSE_GATE_SPEC_LEGACY_CLASSIFIER`,
-- `RESPONSE_GATE_SPEC_EXTENDED_CLASSIFIER` and `RESPONSE_ERROR`.
unfoldable pub response_text : Response → Str
response_text (response_default gate_id gate_cmd application_id) =
    print_gate gate_id gate_cmd ++ (application_key ++ (print_decimal 5 application_id ++ str "}"))
response_text (response_legacy gate_id gate_cmd values) =
    print_gate gate_id gate_cmd ++ (print_fields spec_keys values ++ str "}}")
response_text (response_extended gate_id gate_cmd values) =
    print_gate gate_id gate_cmd ++ (print_fields extended_keys values ++ str "}}")
response_text (response_error gate_id gate_cmd code subcode descr) =
    print_gate gate_id gate_cmd
    ++ (application_key
        ++ (print_decimal 5 0
            ++ (error_key
                ++ (print_decimal 5 code
                    ++ (str "::"
                        ++ (print_decimal 5 subcode
                            ++ (str ", '" ++ (str descr ++ str "'\"}"))))))))
