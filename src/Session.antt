-- ===== src/Session.antt =====
-- src/ps.c: a session with one CMTS, and the request fields of include/fields.h.
pub mod Report
pub mod Proxy
pub mod Start
pub mod Receive
pub mod Machine
pub mod Socket
mod Tests
use pcmm_policy_server.Base.{ℕ, Bool, Option, Mem}
use pcmm_policy_server.Base.Text.{Str}

pub record PcmmGate : Type 0 where
  pub dscp_tos_field : ℕ
  pub dscp_tos_ovwr : ℕ
  pub dscp_tos_mask : ℕ
  pub preemption : ℕ
  pub priority : ℕ
  pub timer1 : ℕ
  pub timer2 : ℕ
  pub timer3 : ℕ
  pub timer4 : ℕ
  pub direction : Option Str

pub record Gctl : Type 0 where
  pub subscriber_id : Option Str
  pub cmts_ip : Option Str
  pub gate : PcmmGate
  pub application_id : ℕ
  pub gate_id : ℕ
  pub dry_run : ℕ
  pub envelope_size : ℕ
  pub classifier_size : ℕ
  pub failed : Bool
  pub failop : ℕ

-- `policy_server_session_type`, less its locks and `report`, which nothing uses.
pub record Session : Type 0 where
  pub cmts_addr : Str
  pub connection : ℕ
  pub cmts_port : ℕ
  pub ka_timer : ℕ
  pub ac_timer : ℕ
  pub sock : ℕ
  pub handle : Mem
  pub uuid_received : Bool
  pub die : Bool
