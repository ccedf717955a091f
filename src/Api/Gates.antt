-- ===== src/Api/Gates.antt =====
-- The gate handlers of src/api/routes.c: GATE-SET, GATE-INFO and GATE-DELETE.
pub mod Answer
pub mod Set
pub mod Command
pub mod Sized
pub mod Names
pub mod Reports
mod Tests
use pcmm_policy_server.Base.{
  ℕ, ◌+◌, ◌%◌, ◌^◌, Bool, true, false, not, ◌&&◌, Option, none, some, List, [], ◌∷◌, ◌++◌, ◌==◌,
  ltb, leb, if◌then◌else◌, length, take, Mem, replicate, fill,
}
use pcmm_policy_server.Base.Fault.{◌>>=◌}
use pcmm_policy_server.Base.Text.{Str}
use pcmm_policy_server.Pack.{concat_c8}
use pcmm_policy_server.Iputil.{Inet}
use pcmm_policy_server.Pcmm.Objects.{pcmm_gate}
use pcmm_policy_server.Pcmm.Envelope.{Floats}
use pcmm_policy_server.Lcm.{Client, Lcm, lcm_getps}
use pcmm_policy_server.Session.{Gctl, Session}
use pcmm_policy_server.Session.Proxy.{gate_set, Sent, ps_proxy}
use pcmm_policy_server.Api.{Reply, json_err, json_dryrun, json_frommsg}
use pcmm_policy_server.Api.Json.{Yyjson, gctl_ytoi}
use pcmm_policy_server.Api.Policy.{Policy, gctl_new_request, gctl_read_policy}

-- The codes of include/routes.h.
abbrev pub enocon : ℕ
enocon = 104

abbrev pub einvreq : ℕ
einvreq = 105

abbrev pub etimeout : ℕ
etimeout = 110

-- The commands of include/pcmm.h.
abbrev pub gate_info : ℕ
gate_info = 7

abbrev pub gate_del : ℕ
gate_del = 10

-- What one turn of the wait finds: no file, a file without a line, or a file with a line.
pub data Poll : Type 0 where
  no_file : Poll
  no_line : Poll
  line : Str → Poll

-- The turns until the time is up. `fgets` reads at most 399 bytes, whatever the size of `dst`, and
-- ends them with a zero. Without a line the first `sizeof(&dst)` bytes are cleared. The result is
-- `dst` and whether a line was read, which removes the file.
unfoldable pub gctl_async_get_decision : List Poll → Mem → Option (Mem × Bool)
gctl_async_get_decision [] dst = fill (replicate 8 0) dst >>= λ dst'. some (dst', false)
gctl_async_get_decision (no_file ∷ polls) dst = gctl_async_get_decision polls dst
gctl_async_get_decision (no_line ∷ polls) dst = gctl_async_get_decision polls dst
gctl_async_get_decision (line s ∷ polls) dst =
    fill (take 399 s ++ (0 ∷ [])) dst >>= λ dst'. some (dst', true)

-- The text up to the terminator; without one it is read past its end.
unfoldable pub c_string : Mem → Option Str
c_string [] = none
c_string (c ∷ m) = if c == 0 then some [] else (c_string m >>= λ s. some (c ∷ s))

-- The body of `json_frommsg`: `metrics` is printed to an array as long as the response, and 100 bytes
-- of that array are copied behind the response.
unfoldable pub attach : Str → Str → Option Str
attach buffer metrics = do
  array ← fill (metrics ++ (0 ∷ [])) (replicate (length buffer) 0)
  if leb 100 (length array) then c_string (buffer ++ take 100 array) else none

-- What the calls of the handlers that leave this code return: the locks, the session behind a
-- pointer, `rand()`, the turns of the wait, and the printed metrics.
pub record World : Type 0 where
  pub evnt_lock : Client → ℕ
  pub internal_lock : ℕ
  pub session : Client → Session
  pub random : ℕ
  pub polls : List Poll
  pub metrics : Str

-- What was sent, whether `lcm_internal_lock` is still held, and the reply.
pub record Served : Type 0 where
  pub sent : Option Sent
  pub held : Bool
  pub reply : Reply

-- From the text that was read to the reply.
unfoldable pub answer : World → Str → Option Reply
answer world text =
    if length text == 0
    then some (json_err etimeout)
    else (attach text world.metrics >>= λ message. some (json_frommsg message))

-- The wait, with a cleared response of `size` bytes, and the reply.
unfoldable pub wait_answer : World → ℕ → Option Reply
wait_answer world size = do
  (response, _) ← gctl_async_get_decision world.polls (replicate size 0)
  text ← c_string response
  answer world text

-- What "%s" prints: a text, or "(null)".
abbrev pub printed_length : Option Str → ℕ
printed_length none = 6
printed_length (some text) = length text

-- The command is sent to the client that was found. Without one `json_err` prints the address with 35
-- other characters and the terminator into 90 bytes.
unfoldable pub serve :
    Inet → World → ℕ → Gctl → Mem → ℕ → ℕ → Bool → Bool → Option Client → Option Served
serve inet world op gc request len size dry held none =
    if leb (printed_length gc.cmts_ip) 54
    then some (record { sent = none; held = held; reply = json_err enocon })
    else none
serve inet world op gc request len size dry held (some ps) = do
  sent ← ps_proxy inet world.random (world.session ps) op gc request len
  reply ← if dry then some json_dryrun else wait_answer world size
  some (record { sent = some sent; held = held; reply = reply })

-- `size_t` addition.
unfoldable pub gctl_policy_decision_size : ℕ → ℕ → ℕ → ℕ
gctl_policy_decision_size gsz csz esz = (gsz + csz + esz) % 2 ^ 64

-- The three parts in `data`, which is cleared and of just their length.
unfoldable pub join_parts : Policy → Option Mem
join_parts policy =
    let gc = policy.gc in
    let gate = gc.gate in
    let len = gctl_policy_decision_size 16 gc.envelope_size gc.classifier_size in
    do
      (pktmm_gate, _) ←
          pcmm_gate gate.direction gate.priority gate.preemption gate.dscp_tos_ovwr
            gate.dscp_tos_mask gate.timer1 gate.timer2 gate.timer3 gate.timer4 (replicate 16 0)
      (d1, i1) ← concat_c8 (replicate len 0) 0 pktmm_gate 16
      (d2, i2) ← concat_c8 d1 i1 policy.envelope gc.envelope_size
      (d3, _) ← concat_c8 d2 i2 policy.classifier gc.classifier_size
      some (take len d3)

-- `gc.dry_run > 0` in `int`
abbrev pub positive : ℕ → Bool
positive n = ltb 0 n && ltb n (2 ^ 31)

-- GATE-SET from the policy that was read.
unfoldable pub send_policy : Inet → World → Lcm → Policy → Option Served
send_policy inet world lcm policy =
    let gc = policy.gc in
    if gc.failed
    then some (record {
      sent = none;
      held = false;
      reply = json_err (if gc.failop == 0 then einvreq else gc.failop);
    })
    else (do
      data' ← join_parts policy
      found ← lcm_getps world.evnt_lock world.internal_lock (some lcm) gc.cmts_ip
      serve inet world gate_set gc data'
          (gctl_policy_decision_size 16 gc.envelope_size gc.classifier_size) 200
          (positive gc.dry_run) found.held found.ps)

module _ {Val : Type 0} (json : Yyjson Val) (inet : Inet) where
  -- GATE-INFO and GATE-DELETE.
  unfoldable pub gctl_request : World → Gctl → ℕ → Lcm → Option Val → Option Served
  gctl_request world garbage op lcm root =
      let gc = gctl_new_request json garbage (gctl_ytoi json root) in
      do
        found ← lcm_getps world.evnt_lock world.internal_lock (some lcm) gc.cmts_ip
        serve inet world op gc [] 0 400 (not (gc.dry_run == 0)) found.held found.ps

  unfoldable pub gctl_07 : World → Gctl → Lcm → Option Val → Option Served
  gctl_07 world garbage lcm root = gctl_request world garbage gate_info lcm root

  unfoldable pub gctl_10 : World → Gctl → Lcm → Option Val → Option Served
  gctl_10 world garbage lcm root = gctl_request world garbage gate_del lcm root

  -- GATE-SET.
  unfoldable pub gctl_04 : Floats → World → Gctl → Lcm → Option Val → Option Served
  gctl_04 floats world garbage lcm root =
      gctl_read_policy json inet floats garbage (gctl_ytoi json root) (replicate 320 0)
        (replicate 92 0)
      >>= send_policy inet world lcm
