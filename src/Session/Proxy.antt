-- ===== src/Session/Proxy.antt =====
-- `ps_proxy` of src/ps.c: the decision message for a gate command.
pub mod Layout
pub mod Commands
use pcmm_policy_server.Base.{
  ℕ, ◌+◌, ◌^◌, Bool, true, false, ◌&&◌, not, Option, none, some, List, [], ◌∷◌, ◌==◌, if◌then◌else◌,
  u16, replicate, Mem,
}
use pcmm_policy_server.Base.Fault.{◌>>=◌}
use pcmm_policy_server.Base.Text.{Str}
use pcmm_policy_server.Pack.{concat_c8, concat}
use pcmm_policy_server.Cops.{
  cops_decision, cops_context, cops_handle, pack_ctl_objs, new_cops_message,
}
use pcmm_policy_server.Iputil.{Inet, ip4_toi, is_ip6}
use pcmm_policy_server.Pcmm.Objects.{
  pcmm_application_identifier, pcmm_transaction_identifier, pcmm_subscriber4_identifier,
  pcmm_subscriber6_identifier, pcmm_gate_identifier,
}
use pcmm_policy_server.Session.{Session, Gctl}

abbrev pub gate_set : ℕ
gate_set = 4

-- The buffers of the objects, which `memset` cleared.
abbrev pub cleared : ℕ → Mem
cleared n = replicate n 0

pub record Objects : Type 0 where
  pub hnd : Mem
  pub ctx : Mem
  pub dec : Mem
  pub cop : Mem
  pub aid : Mem
  pub sub : Mem
  pub gid : Mem

module _ (inet : Inet) where
  unfoldable pub subscriber : Bool → Option Str → Option Mem
  subscriber ip6 none = none
  subscriber true (some sub_id) = pcmm_subscriber6_identifier sub_id 20 (cleared 20)
  subscriber false (some sub_id) = do
    ip ← ip4_toi inet (some sub_id)
    pcmm_subscriber4_identifier ip (cleared 8)

  unfoldable pub control_objects : ℕ → Session → ℕ → Gctl → Bool → Option Objects
  control_objects txn_id self op gc ip6 = do
    dec ← cops_decision (cleared 8)
    ctx ← cops_context (cleared 8)
    hnd ← if gc.dry_run == 1 then some (cleared 8) else cops_handle self.handle (cleared 8)
    sub ← subscriber ip6 gc.subscriber_id
    aid ← pcmm_application_identifier 0 3474 (cleared 8)
    cop ← pcmm_transaction_identifier txn_id (u16 op) (cleared 8)
    gid ← pcmm_gate_identifier gc.gate_id (cleared 8)
    some (record { hnd = hnd; ctx = ctx; dec = dec; cop = cop; aid = aid; sub = sub; gid = gid })

-- `mod`: the size of what follows the subscriber, and of the command and application.
abbrev pub mod_size : ℕ → ℕ → ℕ → ℕ
mod_size op gate_id len =
    if op == gate_set then (if gate_id == 0 then 0 else 8) + (16 + len) else 24

-- What follows the control objects, by whether the command is GATE-SET and whether `gate_id` is 0.
-- The request of another command is not read.
abbrev pub pack_request : Bool → Bool → Mem → Mem → ℕ → Mem × ℕ → Option (Mem × ℕ)
pack_request false no_gate gid request len (decision, ptr) = concat decision ptr gid 8
pack_request true true gid request len (decision, ptr) = concat decision ptr request len
pack_request true false gid request len (decision, ptr) =
    concat_c8 decision ptr gid 8 >>= λ (d, i). concat d i request len

unfoldable pub pack_message : Objects → ℕ → ℕ → Mem → ℕ → ℕ → Option Mem
pack_message objs op gate_id request len addr_len =
    let dec_size = addr_len + mod_size op gate_id len + 4 in
    let msg_size = dec_size + 32 in
    do
      packed ←
          pack_ctl_objs (cleared msg_size) objs.hnd objs.ctx objs.dec objs.cop objs.aid objs.sub
            dec_size addr_len
      (decision, _) ← pack_request (op == gate_set) (gate_id == 0) objs.gid request len packed
      new_cops_message 2 (some decision) msg_size (cleared msg_size)

-- The transaction identifier, the message, and the message again if it is written to the socket.
pub record Sent : Type 0 where
  pub txn_id : ℕ
  pub message : Mem
  pub written : Option Mem

-- `txn_id` is the value of `rand()` cut to 16 bits.
unfoldable pub ps_proxy : Inet → ℕ → Session → ℕ → Gctl → Mem → ℕ → Option Sent
ps_proxy inet random self op gc request len = do
  ip6 ← is_ip6 inet gc.subscriber_id
  objs ← control_objects inet (u16 random) self op gc ip6
  message ← pack_message objs op gc.gate_id request len (if ip6 then 20 else 8)
  some (record {
    txn_id = u16 random;
    message = message;
    written = if gc.dry_run == 0 && not (self.connection == 0) then some message else none;
  })
