-- ===== src/Session/Socket.antt =====
-- The calls on sockets in src/ps.c: their options, `sock_close`, and the descriptors that
-- `sock_connect` and `ps_free` leave open.
pub mod Closed
mod Tests
use pcmm_policy_server.Base.{
  ℕ, ◌-◌, ◌^◌, Bool, true, false, ◌||◌, not, Option, none, some, List, [], ◌∷◌, ◌==◌, ltb, leb,
  if◌then◌else◌, bit_or,
}
use pcmm_policy_server.Session.{Session}
use pcmm_policy_server.Session.Report.{Run, ended}
use pcmm_policy_server.Session.Receive.{then_run}
use pcmm_policy_server.Session.Machine.{Connecting, sock_connect}

-- What `shutdown` returns: 0, or one of the two errors that are passed over, or the error whose text
-- is ENOSOCK, or another one.
pub data Shutdown : Type 0 where
  done : Shutdown
  passed_over : Shutdown
  no_socket : Shutdown
  other_error : Shutdown

-- What the system's calls on a socket return, as the patterns of `int`: the value of SO_ERROR, if it
-- can be read; both calls of `setsockopt`; both calls of `fcntl`, the second for the flags that it
-- gets. `is_socket` is S_ISSOCK of what `fstat` leaves, for a descriptor.
pub record Calls : Type 0 where
  pub so_error : Option ℕ
  pub keepalive : ℕ
  pub nodelay : ℕ
  pub get_flags : ℕ
  pub set_flags : ℕ → ℕ
  pub o_nonblock : ℕ
  pub is_socket : ℕ → Bool
  pub shutdown : Shutdown

abbrev pub minus_one : ℕ
minus_one = 2 ^ 32 - 1

-- `sock_SO_ERROR`
abbrev pub sock_so_error : Calls → ℕ
sock_so_error calls = elim calls.so_error [ none ↦ 1 | some err ↦ err ]

unfoldable pub sock_set_nonblock : Calls → ℕ
sock_set_nonblock calls =
    if calls.get_flags == minus_one
    then calls.get_flags
    else if calls.set_flags (bit_or calls.get_flags calls.o_nonblock) == minus_one
    then minus_one
    else 0

unfoldable pub sock_setsockopts : Calls → ℕ
sock_setsockopts calls =
    if not (calls.keepalive == 0)
    then minus_one
    else if not (calls.nodelay == 0)
    then minus_one
    else if leb (2 ^ 31) (sock_set_nonblock calls)
    then minus_one
    else 0

-- The open descriptors of the process without one of them.
abbrev pub without : ℕ → List ℕ → List ℕ
without fd [] = []
without fd (x ∷ fds) = if x == fd then without fd fds else x ∷ without fd fds

-- Whether `sock_close` goes on to `close`.
abbrev pub closes : Calls → ℕ → Bool
closes calls fd =
    if not (calls.is_socket fd)
    then false
    else if leb (2 ^ 31) fd
    then false
    else elim calls.shutdown [
      | done ↦ true
      | passed_over ↦ true
      | no_socket ↦ false
      | other_error ↦ true
    ]

-- The descriptors that are open afterwards; the result is 0.
unfoldable pub sock_close : Calls → ℕ → List ℕ → List ℕ
sock_close calls fd fds = if closes calls fd then without fd fds else fds

-- `sock_connect` with its socket among the open descriptors.
unfoldable pub connect_socket :
    Calls → Session → Connecting → List ℕ → Run ((Session × Bool) × List ℕ)
connect_socket calls self c fds =
    then_run
      (sock_connect self (record c { options_set = not (leb (2 ^ 31) (sock_setsockopts calls)) }))
      λ (self', ok).
        ended ((self', ok), if ok then c.fd ∷ fds else sock_close calls c.fd (c.fd ∷ fds))

-- `ps_free`, which closes the socket whatever it is.
unfoldable pub free_socket : Calls → Session → List ℕ → List ℕ
free_socket calls self fds = sock_close calls self.sock fds
