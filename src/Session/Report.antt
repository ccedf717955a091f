-- ===== src/Session/Report.antt =====
-- The client-specific information of a report-state message in src/ps.c: the walk over its objects
-- and the file that it leaves for the waiting API thread, `write_report` of src/pcl/pcmm.c included.
-- `rpt_idx` and `end_idx` are `size_t`: 64 bits, with wrap-around written out. The loop runs on fuel.
pub mod Walk
pub mod Files
pub mod Text
use Prim.Native.String.{String}
use pcmm_policy_server.Base.{
  ℕ, zero, suc, ◌+◌, ◌-◌, ◌%◌, ◌^◌, Bool, true, false, ◌&&◌, ◌||◌, not, Option, none, some, List,
  [], ◌∷◌, ◌==◌, ltb, if◌then◌else◌, Mem, drop,
}
use pcmm_policy_server.Base.Fault.{◌>>=◌}
use pcmm_policy_server.Base.Text.{str, matches}
use pcmm_policy_server.Pack.{unpack_u16, unpack_u8_it, unpack_u16_it}
use pcmm_policy_server.Pcmm.Names.{pcmm_is_gateid, pcmm_is_gatespec, pcmm_is_classifier}
use pcmm_policy_server.Pcmm.Decode.{
  PcmmRpt, atog, pcmm_decode_gate, pcmm_decode_classifier, pcmm_decode_extended, pcmm_decode_error,
  pcmm_decode_transaction, pcmm_decode_application, pcmm_gatestate_rpt,
}

-- The arguments of the four formats that `write_report` prints with.
pub data Response : Type 0 where
  response_default : ℕ → String → ℕ → Response
  response_legacy : ℕ → String → List ℕ → Response
  response_extended : ℕ → String → List ℕ → Response
  response_error : ℕ → String → ℕ → ℕ → String → Response

unfoldable pub write_report : PcmmRpt → ℕ → Response
write_report rpt ct =
    if matches (str (rpt.packetcable_err_descr)) (str "NIL")
    then if ct == 0
      then response_legacy (rpt.gate_id) (rpt.gate_cmd) (
          rpt.application_id ∷ rpt.flags ∷ rpt.class ∷ rpt.t1 ∷ rpt.t2 ∷ rpt.t3 ∷ rpt.t4
          ∷ rpt.classifier_id ∷ rpt.src_port_start ∷ rpt.dst_port_start ∷ [])
      else if ct == 1
      then response_extended (rpt.gate_id) (rpt.gate_cmd) (
          rpt.application_id ∷ rpt.flags ∷ rpt.class ∷ rpt.t1 ∷ rpt.t2 ∷ rpt.t3 ∷ rpt.t4
          ∷ rpt.classifier_id ∷ rpt.src_port_start ∷ rpt.src_port_end ∷ rpt.dst_port_start
          ∷ rpt.dst_port_end ∷ rpt.priority ∷ rpt.state ∷ rpt.action ∷ [])
      else response_default (rpt.gate_id) (rpt.gate_cmd) (rpt.application_id)
    else response_error (rpt.gate_id) (rpt.gate_cmd) (rpt.packetcable_err_code)
        (rpt.packetcable_err_subcode) (rpt.packetcable_err_descr)

-- A line added to the file of orphans, or the file `yrpt_<transaction>` written anew.
pub data ReportFile : Type 0 where
  orphan_entry : ℕ → String → ReportFile
  response_file : ℕ → Response → ReportFile

-- `opens` tells whether `fopen` succeeds.
unfoldable pub ps_pcmm_report_decision : Bool → PcmmRpt → ℕ → Option ReportFile
ps_pcmm_report_decision opens rpt classifier_type =
    if not opens
    then none
    else if rpt.transaction_id == 0 && not (rpt.gate_id == 0)
    then some (orphan_entry (rpt.gate_id) (rpt.gate_cmd))
    else some (response_file (rpt.transaction_id) (write_report rpt classifier_type))

-- The locals that the objects of a report set.
pub record Seen : Type 0 where
  pub rpt : PcmmRpt
  pub classifier_type : ℕ
  pub report_required : ℕ

-- `classifier_type` starts as -1, which is the pattern 2 ^ 32 - 1.
abbrev pub unseen : Seen
unseen = record {
  rpt = record {
    packetcable_err_descr = "NIL";
    packetcable_err_subcode = 0;
    packetcable_err_code = 0;
    transaction_id = 0;
    application_id = 0;
    application_tag = 0;
    gate_id = 0;
    gate_cmd = "NIL";
    flags = 0;
    class = 0;
    t1 = 0;
    t2 = 0;
    t3 = 0;
    t4 = 0;
    tosf = 0;
    tosm = 0;
    src_ip = 0;
    dst_ip = 0;
    src_mk = 0;
    dst_mk = 0;
    proto_id = 0;
    src_port_start = 0;
    dst_port_start = 0;
    src_port_end = 0;
    dst_port_end = 0;
    classifier_id = 0;
    priority = 0;
    state = 0;
    action = 0;
  };
  classifier_type = 2 ^ 32 - 1;
  report_required = 0;
}

-- An object whose first two words are `code` and `subc`.
unfoldable pub see_words : ℕ → ℕ → ℕ → Seen → Seen
see_words major code subc seen =
    if major == 1
    then record seen { rpt = pcmm_decode_transaction (seen.rpt) code subc }
    else if major == 2
    then record seen { rpt = pcmm_decode_application (seen.rpt) code subc }
    else if major == 14
    then record seen { rpt = pcmm_decode_error (seen.rpt) code subc }
    else if major == 15
    then record seen { report_required = pcmm_gatestate_rpt code subc }
    else seen

abbrev pub see_classifier : Seen → PcmmRpt × ℕ → Option Seen
see_classifier seen (rpt, type) = some (record seen { rpt = rpt; classifier_type = type })

-- What the object at `block` sets: the body of the loop after the index is moved.
unfoldable pub see_object : ℕ → ℕ → Mem → Seen → Option Seen
see_object major minor block seen =
    if pcmm_is_gateid major minor
    then (atog block >>= λ gate_id.
        some (record seen { rpt = record seen.rpt { gate_id = gate_id } }))
    else if pcmm_is_gatespec major minor
    then (pcmm_decode_gate seen.rpt block >>= λ rpt. some (record seen { rpt = rpt }))
    else if pcmm_is_classifier major
    then if minor == 1
      then (pcmm_decode_classifier seen.rpt block >>= see_classifier seen)
      else if minor == 2
      then (pcmm_decode_extended seen.rpt block >>= see_classifier seen)
      else some seen
    else (unpack_u16 block >>= λ code.
        unpack_u16 (drop 2 block) >>= λ subc. some (see_words major code subc seen))

-- Numbers that no object has: the loop goes on behind the four bytes it has read.
abbrev pub unknown_object : ℕ → ℕ → Bool
unknown_object major minor = major == 0 || ltb 19 major || minor == 0 || ltb 2 minor

-- `rpt_idx += len - 4`
abbrev pub past_object : ℕ → ℕ → ℕ
past_object rpt_idx len = (rpt_idx + (len + 2 ^ 64 - 4) % 2 ^ 64) % 2 ^ 64

-- One turn of the loop.
unfoldable pub next_object : Mem → Seen → ℕ → Option (Seen × ℕ)
next_object report seen rpt_idx = do
  (len, i) ← unpack_u16_it report rpt_idx
  (major, j) ← unpack_u8_it report i
  (minor, k) ← unpack_u8_it report j
  if unknown_object major minor
      then some (seen, k)
      else (see_object major minor (drop k report) seen >>= λ seen'.
          some (seen', past_object k len))

-- How a loop on fuel stops: with a result, at a read out of bounds, or with the fuel spent.
pub data Run {ℓ} (A : Type ℓ) : Type ℓ where
  ended : A → Run A
  fault : Run A
  unfinished : Run A

unfoldable pub walk : ℕ → Mem → ℕ → Seen → ℕ → Run Seen
walk zero report end_idx seen rpt_idx = if ltb rpt_idx end_idx then unfinished else ended seen
walk (suc fuel) report end_idx seen rpt_idx =
    if ltb rpt_idx end_idx
    then elim (next_object report seen rpt_idx) [
      | none ↦ fault
      | some (seen', rpt_idx') ↦ walk fuel report end_idx seen' rpt_idx'
    ]
    else ended seen

-- `end_idx` is made from the `int` `rpt_length - 4`.
abbrev pub end_of : ℕ → ℕ
end_of rpt_length = (rpt_length + 2 ^ 64 - 4) % 2 ^ 64

-- The moved `*ptr` and the file, if one is written.
unfoldable pub finish_report : Bool → ℕ → ℕ → Run Seen → Run (ℕ × Option ReportFile)
finish_report opens ptr rpt_length fault = fault
finish_report opens ptr rpt_length unfinished = unfinished
finish_report opens ptr rpt_length (ended seen) =
    let ptr' = (ptr + end_of rpt_length) % 2 ^ 64 in
    if seen.report_required == 0
    then ended (ptr', ps_pcmm_report_decision opens (seen.rpt) (seen.classifier_type))
    else ended (ptr', none)

unfoldable pub ps_pcmm_report : ℕ → Bool → Mem → ℕ → ℕ → Run (ℕ × Option ReportFile)
ps_pcmm_report fuel opens buf ptr rpt_length =
    if end_of rpt_length == 0
    then ended (ptr, none)
    else finish_report opens ptr rpt_length (walk fuel (drop ptr buf) (end_of rpt_length) unseen 0)
