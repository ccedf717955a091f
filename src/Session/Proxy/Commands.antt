-- ===== src/Session/Proxy/Commands.antt =====
-- `ps_proxy` of src/ps.c from the request's fields to the message, for both kinds of subscriber.
use pcmm_policy_server.Base.{
  ℕ, ◌^◌, ◌≤◌, ◌<◌, ◌≡◌, refl, ap, ◌∙◌, Bool, true, false, ◌&&◌, not, none, some, [], ◌∷◌, ◌++◌,
  arith, ◌==◌, if◌then◌else◌, length, length-take, take, Mem, u16, Stores-whole,
}
use pcmm_policy_server.Base.Text.{Str}
use pcmm_policy_server.Pack.Words.{be16, be32}
use pcmm_policy_server.Iputil.{Inet, is_ip6, ip4_toi, tokens}
use pcmm_policy_server.Iputil.Groups.{group_bytes}
use pcmm_policy_server.Cops.{cops_handle}
use pcmm_policy_server.Cops.Objects.{cops_decision-Stores, cops_context-Stores, cops_handle-Stores}
use pcmm_policy_server.Pcmm.Objects.Layout.{
  pcmm_application_identifier-Stores, pcmm_transaction_identifier-Stores,
  pcmm_gate_identifier-Stores, pcmm_subscriber4_identifier-Stores,
  pcmm_subscriber6_identifier-Stores,
}
use pcmm_policy_server.Session.{Session, Gctl}
use pcmm_policy_server.Session.Proxy.{
  Objects, cleared, subscriber, control_objects, pack_message, Sent, ps_proxy,
}
use pcmm_policy_server.Session.Proxy.Layout.{message_bytes, pack_message_lem}

-- The objects with the bytes they have on the wire. A dry run leaves the handle's buffer cleared.
abbrev pub objects : ℕ → Session → ℕ → Gctl → Mem → Objects
objects txn self op gc sub = record {
  hnd = if gc.dry_run == 1 then cleared 8 else 0 ∷ 8 ∷ 1 ∷ 1 ∷ take 4 self.handle;
  ctx = 0 ∷ 8 ∷ 2 ∷ 1 ∷ 0 ∷ 8 ∷ 0 ∷ 0 ∷ [];
  dec = 0 ∷ 8 ∷ 6 ∷ 1 ∷ 0 ∷ 1 ∷ 0 ∷ 1 ∷ [];
  cop = 0 ∷ 8 ∷ 1 ∷ 1 ∷ (be16 txn ++ be16 (u16 op));
  aid = 0 ∷ 8 ∷ 2 ∷ 1 ∷ (be16 0 ++ be16 3474);
  sub = sub;
  gid = 0 ∷ 8 ∷ 4 ∷ 1 ∷ be32 gc.gate_id;
}

hnd_lem :
    (dry : Bool) (handle : Mem)
    → 4 ≤ length handle
    → (if dry then some (cleared 8) else cops_handle handle (cleared 8))
      ≡ some (if dry then cleared 8 else 0 ∷ 8 ∷ 1 ∷ 1 ∷ take 4 handle)
hnd_lem true handle h = refl
hnd_lem false handle h =
    Stores-whole (cops_handle-Stores handle h) (cleared 8) (omega (arith, length-take 4 handle h))

hnd_length :
    (dry : Bool) (handle : Mem)
    → 4 ≤ length handle
    → length (if dry then cleared 8 else 0 ∷ 8 ∷ 1 ∷ 1 ∷ take 4 handle) ≡ 8
hnd_length true handle h = refl
hnd_length false handle h = omega (arith, length-take 4 handle h)

control_objects_lem :
    (inet : Inet) (txn : ℕ) (self : Session) (op : ℕ) (gc : Gctl) (ip6 : Bool) (sub : Mem)
    → 4 ≤ length self.handle
    → subscriber inet ip6 gc.subscriber_id ≡ some sub
    → control_objects inet txn self op gc ip6 ≡ some (objects txn self op gc sub)
unfolding control_objects
control_objects_lem inet txn self op gc ip6 sub h e =
    rw
      (
        Stores-whole cops_decision-Stores (cleared 8) refl,
        Stores-whole cops_context-Stores (cleared 8) refl,
        hnd_lem (gc.dry_run == 1) self.handle h,
        e,
        Stores-whole (pcmm_application_identifier-Stores 0 3474) (cleared 8) refl,
        Stores-whole (pcmm_transaction_identifier-Stores txn (u16 op)) (cleared 8) refl,
        Stores-whole (pcmm_gate_identifier-Stores gc.gate_id) (cleared 8) refl,
      )
      refl

-- What is sent: the transaction identifier is the random number cut to 16 bits, the message goes to
-- the socket unless this is a dry run or there is no connection.
abbrev pub sent : ℕ → Session → ℕ → Gctl → Mem → Mem → ℕ → ℕ → Sent
sent random self op gc sub request len addr_len =
    let message =
      message_bytes (objects (u16 random) self op gc sub) op gc.gate_id request len addr_len in
    record {
      txn_id = u16 random;
      message = message;
      written = if gc.dry_run == 0 && not (self.connection == 0) then some message else none;
    }

module _ (inet : Inet) (random : ℕ) (self : Session) (op : ℕ) (gc : Gctl) (ip : Str) (request : Mem)
    (len : ℕ) where
  proxied :
      (ip6 : Bool) (sub : Mem)
      → gc.subscriber_id ≡ some ip
      → inet.pton6 ip ≡ ip6
      → subscriber inet ip6 (some ip) ≡ some sub
      → length sub ≡ (if ip6 then 20 else 8)
      → (if ip6 then 20 else 8) ≤ 20
      → 4 ≤ length self.handle
      → length request ≡ len
      → len < 2 ^ 16
      → ps_proxy inet random self op gc request len
        ≡ some (sent random self op gc sub request len (if ip6 then 20 else 8))
  unfolding ps_proxy
  proxied ip6 sub e6 ev es hl h20 h hr small =
      rw
        (
          version,
          control_objects_lem inet (u16 random) self op gc ip6 sub h
              (ap (subscriber inet ip6) e6 ∙ es),
          made,
        )
        refl
    where
      version : is_ip6 inet gc.subscriber_id ≡ some ip6
      version = ap (is_ip6 inet) e6 ∙ unfold is_ip6 in ap some ev

      made :
          pack_message
            (objects (u16 random) self op gc sub)
            op
            gc.gate_id
            request
            len
            (if ip6 then 20 else 8)
          ≡ some (
              message_bytes
                (objects (u16 random) self op gc sub)
                op
                gc.gate_id
                request
                len
                (if ip6 then 20 else 8))
      made =
          let (m, _) =
            pack_message_lem (objects (u16 random) self op gc sub) op gc.gate_id request len
              (if ip6 then 20 else 8)
              (hnd_length (gc.dry_run == 1) self.handle h, refl, refl, refl, refl, hl, refl) h20 hr
              small in
          m

  -- A gate command for an IPv4 subscriber, with a handle of four bytes or more and a request of
  -- `len` bytes, fewer than 2 ^ 16: what `sent` says is sent, with an address object of eight bytes.
  pub ps_proxy_ip4 :
      (address : ℕ)
      → gc.subscriber_id ≡ some ip
      → inet.pton6 ip ≡ false
      → inet.pton4 ip ≡ some address
      → 4 ≤ length self.handle
      → length request ≡ len
      → len < 2 ^ 16
      → ps_proxy inet random self op gc request len
        ≡ some (sent random self op gc (0 ∷ 8 ∷ 3 ∷ 1 ∷ be32 address) request len 8)
  ps_proxy_ip4 address e6 ev e4 h hr small =
      proxied false (0 ∷ 8 ∷ 3 ∷ 1 ∷ be32 address) e6 ev
        (unfold subscriber ip4_toi in
          rw e4 (Stores-whole (pcmm_subscriber4_identifier-Stores address) (cleared 8) refl))
        refl (omega arith) h hr small

  -- A gate command for an IPv6 subscriber whose address is written with eight groups, with a handle
  -- of four bytes or more and a request of `len` bytes, fewer than 2 ^ 16: what `sent` says is sent,
  -- with an address object of 20 bytes.
  pub ps_proxy_ip6 :
      (t t1 t2 t3 t4 t5 t6 t7 : Str)
      → gc.subscriber_id ≡ some ip
      → inet.pton6 ip ≡ true
      → tokens [] ip ≡ t ∷ t1 ∷ t2 ∷ t3 ∷ t4 ∷ t5 ∷ t6 ∷ t7 ∷ []
      → 4 ≤ length self.handle
      → length request ≡ len
      → len < 2 ^ 16
      → ps_proxy inet random self op gc request len
        ≡ some (sent random self op gc (0 ∷ 20 ∷ 3 ∷ 2 ∷ group_bytes (tokens [] ip)) request len 20)
  ps_proxy_ip6 t t1 t2 t3 t4 t5 t6 t7 e6 ev et h hr small = rw et (
      proxied true (0 ∷ 20 ∷ 3 ∷ 2 ∷ group_bytes (t ∷ t1 ∷ t2 ∷ t3 ∷ t4 ∷ t5 ∷ t6 ∷ t7 ∷ [])) e6 ev
        (unfold subscriber in
          Stores-whole (pcmm_subscriber6_identifier-Stores ip t _ et) (cleared 20) refl)
        refl (omega arith) h hr small)
