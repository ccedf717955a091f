-- ===== src/Session/Start.antt =====
-- How a session of src/ps.c starts: `ps_new`, what goes to its socket, the length of its Client-Accept,
-- and the search of two bytes.
pub mod Messages
use pcmm_policy_server.Base.{
  ℕ, zero, suc, ◌+◌, ◌-◌, ◌^◌, Bool, true, false, not, Option, none, some, List, [], ◌∷◌, ◌==◌,
  if◌then◌else◌, replicate, Mem, get_elem?, bit_or, u16, u32, ◌<<<◌,
}
use pcmm_policy_server.Base.Fault.{◌>>=◌}
use pcmm_policy_server.Base.Text.{Str}
use pcmm_policy_server.Cops.{cops_keepalive, cops_client_accept}
use pcmm_policy_server.Iputil.{Inet, is_ip4}
use pcmm_policy_server.Session.{Session}

-- The options that a new session takes over.
pub record Timers : Type 0 where
  pub cmts_tcp_port : ℕ
  pub ka_timer : ℕ
  pub ac_timer : ℕ

-- `sock` starts as -1, a pattern of 32 bits.
abbrev pub fresh_session : Timers → Str → Session
fresh_session timers cmts_ip = record {
  cmts_addr = cmts_ip;
  connection = 0;
  cmts_port = timers.cmts_tcp_port;
  ka_timer = timers.ka_timer;
  ac_timer = timers.ac_timer;
  sock = 2 ^ 32 - 1;
  handle = replicate 8 0;
  uuid_received = false;
  die = false;
}

-- The inner `none` is a null pointer: for a text that is no IPv4 address, and when a lock cannot be
-- made.
unfoldable pub ps_new : Inet → Timers → Bool → Option Str → Option (Option Session)
ps_new inet timers locks_made cmts_ip = do
  valid ← is_ip4 inet cmts_ip
  ip ← cmts_ip
  some (if not valid then none else if locks_made then some (fresh_session timers ip) else none)

-- What goes to the socket; without a connection nothing does.
unfoldable pub sock_write : Session → Mem → Option Mem
sock_write self msg = if self.connection == 0 then none else some msg

unfoldable pub sock_keepalive : Session → Option (Option Mem)
sock_keepalive self = do ka ← cops_keepalive (replicate 8 0); some (sock_write self ka)

-- The length of the Client-Accept message.
abbrev pub accept_length : Session → ℕ
accept_length self = if self.ac_timer == 0 then 16 else 24

-- The index of the first pair of bytes that is `target`, or -1. The loop's bound is
-- `array_length - 1`.
find_from : ℕ → ℕ → List ℕ → ℕ → Option ℕ
find_from zero i stream target = some (2 ^ 32 - 1)
find_from (suc left) i stream target =
    let rest = find_from left (i + 1) stream target in
    do
      hi ← get_elem? stream i
      lo ← get_elem? stream (i + 1)
      if u16 (bit_or (hi <<< 8) lo) == target then some (u32 i) else rest

unfoldable pub ps_find_u16 : List ℕ → ℕ → ℕ → Option ℕ
unfolding find_from
ps_find_u16 stream array_length target =
    if array_length == 0 then some (2 ^ 32 - 1) else find_from (array_length - 1) 0 stream target
