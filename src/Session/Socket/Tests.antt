-- ===== src/Session/Socket/Tests.antt =====
-- A connection that fails at once.
use pcmm_policy_server.Base.{◌≡◌, refl, true, false, some, [], ◌∷◌, arith, replicate}
use pcmm_policy_server.Base.Text.{str}
use pcmm_policy_server.Session.{Session}
use pcmm_policy_server.Session.Report.{ended}
use pcmm_policy_server.Session.Machine.{Connecting, timeout, interrupted, await_socket}
use pcmm_policy_server.Session.Socket.{
  Calls, done, sock_set_nonblock, sock_setsockopts, connect_socket, free_socket,
}
use pcmm_policy_server.Session.Socket.Closed.{connect_socket-free_socket}

abbrev calls : Calls
calls = record {
  so_error = some 0;
  keepalive = 0;
  nodelay = 0;
  get_flags = 2;
  set_flags = λ flags. 0;
  o_nonblock = 2048;
  is_socket = λ fd. true;
  shutdown = done;
}

abbrev fresh : Session
fresh = record {
  cmts_addr = str "10.0.0.1";
  connection = 0;
  cmts_port = 3918;
  ka_timer = 60;
  ac_timer = 0;
  sock = 4294967295;
  handle = replicate 8 0;
  uuid_received = false;
  die = false;
}

abbrev connecting : Connecting
connecting = record {
  fd = 7;
  valid = true;
  options_set = true;
  at_once = false;
  selects = interrupted ∷ timeout ∷ [];
}

connect_socket-free_socket_example :
    (connect_socket calls fresh connecting (3 ∷ 5 ∷ [])
      ≡ ended ((record fresh { sock = 7 }, false), 3 ∷ 5 ∷ []))
    × (free_socket calls (record fresh { sock = 7 }) (7 ∷ 3 ∷ 5 ∷ []) ≡ 3 ∷ 5 ∷ [])
connect_socket-free_socket_example =
    connect_socket-free_socket calls fresh connecting (3 ∷ 5 ∷ []) (omega arith) refl refl refl refl
      options refl waited
  where
    options : sock_setsockopts calls ≡ 0
    options = unfold sock_setsockopts sock_set_nonblock in refl

    waited : await_socket 0 connecting.selects ≡ ended false
    waited = unfold await_socket in refl
