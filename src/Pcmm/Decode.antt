-- ===== src/Pcmm/Decode.antt =====
-- The objects of a report-state message, decoded by src/pcl/pcmm.c into `pcmm_rpt_t`.
pub mod RoundTrip
use Prim.Native.String.{String}
use pcmm_policy_server.Base.{
  ℕ, ◌+◌, ◌-◌, ◌^◌, Bool, true, false, ◌||◌, Option, none, some, List, [], ◌∷◌, ◌==◌, leb, length,
  if◌then◌else◌,
}
use pcmm_policy_server.Base.{u8, Mem}
use pcmm_policy_server.Base.Reader.{Reader, ret, ◌>>=◌}
use pcmm_policy_server.Pack.{unpack_n, unpack_u8_it, unpack_u16_it, unpack_u32_it}
use pcmm_policy_server.Pcmm.Names.{pcmm_otoact, pcmm_otoerr}

-- `struct _rpt`. The members that `ps_pcmm_report` does not name start as 0.
pub record PcmmRpt : Type 0 where
  pub packetcable_err_descr : String
  pub packetcable_err_subcode : ℕ
  pub packetcable_err_code : ℕ
  pub transaction_id : ℕ
  pub application_id : ℕ
  pub application_tag : ℕ
  pub gate_id : ℕ
  pub gate_cmd : String
  pub flags : ℕ
  pub class : ℕ
  pub t1 : ℕ
  pub t2 : ℕ
  pub t3 : ℕ
  pub t4 : ℕ
  pub tosf : ℕ
  pub tosm : ℕ
  pub src_ip : ℕ
  pub dst_ip : ℕ
  pub src_mk : ℕ
  pub dst_mk : ℕ
  pub proto_id : ℕ
  pub src_port_start : ℕ
  pub dst_port_start : ℕ
  pub src_port_end : ℕ
  pub dst_port_end : ℕ
  pub classifier_id : ℕ
  pub priority : ℕ
  pub state : ℕ
  pub action : ℕ

-- Eight bytes are copied; `ntohl` takes the first four, which are the low half of the copy on a
-- little-endian machine.
unfoldable pub atog : Mem → Option ℕ
atog stream = if leb 8 (length stream) then unpack_n stream else none

-- What a decoder leaves, without the index that it moved.
abbrev pub from_start {ℓ} : {A : Type ℓ} → Option (A × ℕ) → Option A
from_start none = none
from_start (some (a, i)) = some a

pub gate_fields_it : PcmmRpt → Reader PcmmRpt
gate_fields_it report = do
  flags ← unpack_u8_it
  tosf ← unpack_u8_it
  tosm ← unpack_u8_it
  class ← unpack_u8_it
  t1 ← unpack_u16_it
  t2 ← unpack_u16_it
  t3 ← unpack_u16_it
  t4 ← unpack_u16_it
  ret (record report {
    flags = flags;
    tosf = tosf;
    tosm = tosm;
    class = class;
    t1 = t1;
    t2 = t2;
    t3 = t3;
    t4 = t4;
  })

-- The functions that return a number return it beside the report.
unfoldable pub pcmm_decode_gate : PcmmRpt → Mem → Option PcmmRpt
unfolding gate_fields_it
pcmm_decode_gate report block = from_start (gate_fields_it report block 0)

pub classifier_fields_it : PcmmRpt → Reader (PcmmRpt × ℕ)
classifier_fields_it report = do
  proto_id ← unpack_u16_it
  tosf ← unpack_u8_it
  tosm ← unpack_u8_it
  src_ip ← unpack_u32_it
  dst_ip ← unpack_u32_it
  src_port_start ← unpack_u16_it
  dst_port_start ← unpack_u16_it
  ret (
    record report {
      proto_id = proto_id;
      tosf = tosf;
      tosm = tosm;
      src_ip = src_ip;
      dst_ip = dst_ip;
      src_port_start = src_port_start;
      dst_port_start = dst_port_start;
    },
    0,
  )

unfoldable pub pcmm_decode_classifier : PcmmRpt → Mem → Option (PcmmRpt × ℕ)
unfolding classifier_fields_it
pcmm_decode_classifier report block = from_start (classifier_fields_it report block 0)

pub extended_fields_it : PcmmRpt → Reader (PcmmRpt × ℕ)
extended_fields_it report = do
  proto_id ← unpack_u16_it
  tosf ← unpack_u8_it
  tosm ← unpack_u8_it
  src_ip ← unpack_u32_it
  src_mk ← unpack_u32_it
  dst_ip ← unpack_u32_it
  dst_mk ← unpack_u32_it
  src_port_start ← unpack_u16_it
  src_port_end ← unpack_u16_it
  dst_port_start ← unpack_u16_it
  dst_port_end ← unpack_u16_it
  classifier_id ← unpack_u16_it
  priority ← unpack_u8_it
  state ← unpack_u8_it
  action ← unpack_u8_it
  ret (
    record report {
      proto_id = proto_id;
      tosf = tosf;
      tosm = tosm;
      src_ip = src_ip;
      src_mk = src_mk;
      dst_ip = dst_ip;
      dst_mk = dst_mk;
      src_port_start = src_port_start;
      src_port_end = src_port_end;
      dst_port_start = dst_port_start;
      dst_port_end = dst_port_end;
      classifier_id = classifier_id;
      priority = priority;
      state = state;
      action = action;
    },
    1,
  )

unfoldable pub pcmm_decode_extended : PcmmRpt → Mem → Option (PcmmRpt × ℕ)
unfolding extended_fields_it
pcmm_decode_extended report block = from_start (extended_fields_it report block 0)

-- `pcmm_otoerr` and `pcmm_otoact` take an `unsigned char`.
unfoldable pub pcmm_decode_error : PcmmRpt → ℕ → ℕ → PcmmRpt
pcmm_decode_error report err subcode = record report {
  packetcable_err_code = err;
  packetcable_err_subcode = subcode;
  packetcable_err_descr = pcmm_otoerr (u8 err);
}

unfoldable pub pcmm_decode_transaction : PcmmRpt → ℕ → ℕ → PcmmRpt
pcmm_decode_transaction report transaction_id gate_cmd = record report {
  transaction_id = transaction_id;
  gate_cmd = pcmm_otoact (u8 gate_cmd);
}

unfoldable pub pcmm_decode_application : PcmmRpt → ℕ → ℕ → PcmmRpt
pcmm_decode_application report app_tag app_id = record report {
  application_tag = app_tag;
  application_id = app_id;
}

-- 1 if the report of a gate state names a reason, and no file is to be written for it.
unfoldable pub pcmm_gatestate_rpt : ℕ → ℕ → ℕ
pcmm_gatestate_rpt state reason = if reason == 0 || reason == 65535 then 0 else 1
