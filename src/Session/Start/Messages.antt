-- ===== src/Session/Start/Messages.antt =====
-- What a starting session of src/ps.c sends.
use pcmm_policy_server.Base.{
  ℕ, ◌≡◌, refl, Bool, true, false, none, some, ◌∷◌, ◌++◌, arith, ◌==◌, if◌then◌else◌, length,
  replicate, Mem, IsU32, Stores-whole,
}
use pcmm_policy_server.Pack.Words.{be32}
use pcmm_policy_server.Cops.{cops_client_accept}
use pcmm_policy_server.Cops.Message.{
  header_bytes, cops_keepalive-Stores, cops_client_accept-Stores, cops_client_accept_accounting,
}
use pcmm_policy_server.Session.{Session}
use pcmm_policy_server.Session.Start.{sock_write, sock_keepalive}

-- A Keep-Alive on a session with a connection is answered with the eight bytes of a Keep-Alive
-- message; without a connection nothing is written.
pub sock_keepalive_lem :
    (self : Session)
    → sock_keepalive self
      ≡ some (if self.connection == 0 then none else some (16 ∷ 9 ∷ 0 ∷ 0 ∷ be32 8))
unfolding sock_keepalive sock_write
sock_keepalive_lem self = rw (Stores-whole cops_keepalive-Stores (replicate 8 0) refl) refl

-- The Client-Accept with these timers, by whether there is an accounting timer.
abbrev pub accept_bytes : Bool → ℕ → ℕ → Mem
accept_bytes true ka ac = header_bytes 7 16 ++ (0 ∷ 8 ∷ 10 ∷ 1 ∷ be32 ka)
accept_bytes false ka ac =
    header_bytes 7 24 ++ (0 ∷ 8 ∷ 10 ∷ 1 ∷ (be32 ka ++ (0 ∷ 8 ∷ 15 ∷ 1 ∷ be32 ac)))

-- The Client-Accept is written whole, whatever its array held.
pub accepted :
    (b : Bool) (ka ac : ℕ) (msg : Mem)
    → (ac == 0) ≡ b
    → IsU32 ac
    → length msg ≡ (if b then 16 else 24)
    → cops_client_accept ka ac msg ≡ some (accept_bytes b ka ac)
accepted true ka ac msg e h l = Stores-whole (cops_client_accept-Stores ka ac (ground arith)) msg l
accepted false ka ac msg e h l =
    Stores-whole (cops_client_accept_accounting ka ac (ground arith)) msg l
