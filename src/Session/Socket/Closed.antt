-- ===== src/Session/Socket/Closed.antt =====
-- What becomes of the descriptor of a connection that fails in src/ps.c.
use pcmm_policy_server.Base.{ℕ, ◌<◌, ◌^◌, ◌≡◌, refl, true, false, List, ◌∷◌, arith, ◌==◌, lt→leb}
use pcmm_policy_server.Session.{Session}
use pcmm_policy_server.Session.Report.{ended}
use pcmm_policy_server.Session.Receive.{then_run}
use pcmm_policy_server.Session.Machine.{Connecting, await_socket, sock_connect}
use pcmm_policy_server.Session.Socket.{
  Calls, done, sock_setsockopts, without, sock_close, connect_socket, free_socket,
}

module _ (calls : Calls) (self : Session) (c : Connecting) (fds : List ℕ)
    (descriptor : c.fd < 2 ^ 31) (socket : calls.is_socket c.fd ≡ true)
    (shut : calls.shutdown ≡ done) (unused : without c.fd fds ≡ fds) where
  -- The descriptor is closed, whoever has it.
  sock_close-fd : sock_close calls c.fd (c.fd ∷ fds) ≡ fds
  unfolding sock_close
  sock_close-fd = rw (socket, lt→leb (2 ^ 31) c.fd descriptor, shut, same) unused
    where
      same : (c.fd == c.fd) ≡ true
      same = ground arith

  -- A connection with a valid address and options that are set, which `select` then says has failed:
  -- `sock_connect` closes the descriptor and leaves the others fds, but the session keeps its
  -- number. So where another part of the program is given the number before `ps_free` runs, `ps_free`
  -- closes that descriptor.
  pub connect_socket-free_socket :
      c.valid ≡ true
      → sock_setsockopts calls ≡ 0
      → c.at_once ≡ false
      → await_socket 0 c.selects ≡ ended false
      → (connect_socket calls self c fds ≡ ended ((record self { sock = c.fd }, false), fds))
        × (free_socket calls (record self { sock = c.fd }) (c.fd ∷ fds) ≡ fds)
  unfolding connect_socket sock_connect then_run free_socket
  connect_socket-free_socket valid options waits fails =
      (rw (valid, options, waits, fails, sock_close-fd) refl, sock_close-fd)
