-- ===== src/Session/Machine/Admits.antt =====
-- What a call of `ps_admctl` in src/ps.c changes and sends, whatever it receives.
use mathlib.Core.Bool.{true≢false}
use mathlib.Core.Option.{some-injective}
use pcmm_policy_server.Base.{
  ℕ, ◌≡◌, ◌⊎◌, inr, refl, sym, ◌∙◌, Bool, true, false, ◌||◌, not, Option, none, some, List, [], ◌∷◌,
  ◌==◌, if◌then◌else◌, length, Mem, IsU32,
}
use pcmm_policy_server.Pack.Words.{be32}
use pcmm_policy_server.Cops.{cops_client_accept}
use pcmm_policy_server.Session.{Session}
use pcmm_policy_server.Session.Report.{ended}
use pcmm_policy_server.Session.Start.{sock_write, accept_length}
use pcmm_policy_server.Session.Start.Messages.{accept_bytes, accepted}
use pcmm_policy_server.Session.Receive.{ps_recvd}
use pcmm_policy_server.Session.Receive.Keeps.{
  Keeps, Keeps-refl, Keeps-trans, ended-injective, or_fault-ended, then_run-ended, if-ended,
  ps_recvd-Sound,
}
use pcmm_policy_server.Session.Machine.{
  Connecting, await_socket, sock_connect, ps_polld, Attempt, Admitted, accept_session, ps_admctl,
  written_by,
}

-- The address, the port and the timers are the same.
pub record Same (s t : Session) : Type 0 where
  pub cmts_addr : t.cmts_addr ≡ s.cmts_addr
  pub cmts_port : t.cmts_port ≡ s.cmts_port
  pub ka_timer : t.ka_timer ≡ s.ka_timer
  pub ac_timer : t.ac_timer ≡ s.ac_timer

-- A Keep-Alive, or the Client-Accept with these timers.
abbrev pub IsAnswer : ℕ → ℕ → Mem → Type 0
IsAnswer ka ac m = (m ≡ 16 ∷ 9 ∷ 0 ∷ 0 ∷ be32 8) ⊎ (m ≡ accept_bytes (ac == 0) ka ac)

abbrev pub AllAnswers : ℕ → ℕ → List Mem → Type 0
AllAnswers ka ac [] = Unit
AllAnswers ka ac (m ∷ ms) = IsAnswer ka ac m × AllAnswers ka ac ms

-- The arrays of the messages have the lengths that they are declared with.
abbrev pub AllSized : List Attempt → Type 0
AllSized [] = Unit
AllSized (a ∷ attempts) = ((n : ℕ) → length (a.garbage n) ≡ n) × AllSized attempts

pub Same-refl : (s : Session) → Same s s
Same-refl s = record { cmts_addr = refl; cmts_port = refl; ka_timer = refl; ac_timer = refl }

pub Same-trans : {s t u : Session} → Same s t → Same t u → Same s u
Same-trans h k = record {
  cmts_addr = k.cmts_addr ∙ h.cmts_addr;
  cmts_port = k.cmts_port ∙ h.cmts_port;
  ka_timer = k.ka_timer ∙ h.ka_timer;
  ac_timer = k.ac_timer ∙ h.ac_timer;
}

pub Same-of_Keeps : {s t : Session} → Keeps s t → Same s t
Same-of_Keeps h = record {
  cmts_addr = h.cmts_addr;
  cmts_port = h.cmts_port;
  ka_timer = h.ka_timer;
  ac_timer = h.ac_timer;
}

ps_polld-Keeps :
    (turns : List ℕ) (opens : Bool) (self : Session) (target : ℕ) (recvs : List (Option Mem))
    (p : (Session × ℕ) × List (Option Mem))
    → ps_polld turns opens self target recvs ≡ ended p
    → Keeps self (p.0.0)
unfolding ps_polld
ps_polld-Keeps [] opens self target recvs p h =
    rw (← ended-injective {a = ((self, 0), recvs)} {b = p} h) (Keeps-refl self)
ps_polld-Keeps (fuel ∷ turns) opens self target recvs p h =
    let (r, e, h') = then_run-ended (ps_recvd fuel opens self recvs) _ p h in
    let (keeps, _) = ps_recvd-Sound fuel opens self recvs r e in
    if-ended (r.opcode == target) _ _ p
      (λ _ k. rw (← ended-injective {a = ((r.self, 1), r.later)} {b = p} k) keeps)
      (λ _ k. Keeps-trans keeps (ps_polld-Keeps turns opens r.self target r.later p k)) h'

-- `sock_connect` changes the socket and the connection at most, and where it succeeds there is one.
abbrev Connected : Session → Session × Bool → Type 0
Connected self p = Same self (p.0) × (p.1 ≡ true → (p.0).connection ≡ 1)

sock_connect-Connected :
    (self : Session) (c : Connecting) (p : Session × Bool)
    → sock_connect self c ≡ ended p
    → Connected self p
unfolding sock_connect
sock_connect-Connected self c p h =
    if-ended (not c.valid || not c.options_set) _ _ p (λ _. no self refl (Same-refl self))
      (λ _.
        if-ended c.at_once _ _ p (λ _. yes_at c.fd)
          (λ _ k.
            let (ok, _, k') = then_run-ended (await_socket 0 c.selects) _ p k in
            if-ended ok _ _ p (λ _. yes_at c.fd)
              (λ _. no (record self { sock = c.fd }) refl (with_sock c.fd)) k'))
      h
  where
    with_sock : (fd : ℕ) → Same self (record self { sock = fd })
    with_sock fd = record { cmts_addr = refl; cmts_port = refl; ka_timer = refl; ac_timer = refl }

    yes_at :
        (fd : ℕ)
        → ended (record self { sock = fd; connection = 1 }, true) ≡ ended p
        → Connected self p
    yes_at fd k =
        rw (← ended-injective {a = (record self { sock = fd; connection = 1 }, true)} {b = p} k) (
          record { cmts_addr = refl; cmts_port = refl; ka_timer = refl; ac_timer = refl },
          λ _. refl,
        )

    no :
        (t : Session) {ok : Bool}
        → ok ≡ false
        → Same self t
        → ended (t, ok) ≡ ended p
        → Connected self p
    no t {ok} not_ok same k =
        rw (← ended-injective {a = (t, ok)} {b = p} k)
          (same, λ is_ok. absurd (true≢false (sym is_ok ∙ not_ok)))

-- The session stays the same but for its connection, which stands where the result is not 0, and the
-- messages written are answers.
abbrev pub Admits : Session → List Mem → Admitted → Type 0
Admits self written r =
    Same self r.self
    × ((r.result == 0) ≡ false → r.self.connection ≡ 1)
    × AllAnswers self.ka_timer self.ac_timer (written_by r.written written)

pub sock_write-AllAnswers :
    (self : Session) (m : Mem) (ka ac : ℕ) (written : List Mem)
    → IsAnswer ka ac m
    → AllAnswers ka ac written
    → AllAnswers ka ac (written_by (sock_write self m) written)
unfolding sock_write
sock_write-AllAnswers self m ka ac written answer h = either (self.connection == 0)
  where
    either : (test : Bool) → AllAnswers ka ac (written_by (if test then none else some m) written)
    either true = h
    either false = (answer, h)

accept_session-Admits :
    (opens : Bool) (self : Session) (a : Attempt) (recvs : List (Option Mem)) (written : List Mem)
    (r : Admitted)
    → IsU32 self.ac_timer
    → ((n : ℕ) → length (a.garbage n) ≡ n)
    → self.connection ≡ 1
    → AllAnswers self.ka_timer self.ac_timer written
    → accept_session opens self a recvs ≡ ended r
    → Admits self written r
unfolding accept_session
accept_session-Admits opens self a recvs written r fits sized connected answers h =
    let (p, e, h1) = then_run-ended (ps_polld a.open_turns opens self 6 recvs) _ r h in
    let opened : Session = p.0.0 in
    let keeps = ps_polld-Keeps a.open_turns opens self 6 recvs p e in
    let (msg, e1, h2) =
      or_fault-ended
        (cops_client_accept opened.ka_timer opened.ac_timer (a.garbage (accept_length opened))) _ r
        h1 in
    let (q, e2, h3) = then_run-ended (ps_polld a.request_turns opens opened 1 (p.1)) _ r h2 in
    let keeps' = ps_polld-Keeps a.request_turns opens opened 1 (p.1) q e2 in
    let both = Keeps-trans keeps keeps' in
    let whole : msg ≡ accept_bytes (opened.ac_timer == 0) opened.ka_timer opened.ac_timer =
      some_msg opened msg keeps.ac_timer e1 in
    let same_msg : msg ≡ accept_bytes (self.ac_timer == 0) self.ka_timer self.ac_timer =
      rw (← keeps.ac_timer, ← keeps.ka_timer) whole in
    rw
      (← ended-injective
        {a = record { self = q.0.0; written = sock_write opened msg; result = q.0.1; later = q.1 }}
        {b = r} h3)
      (
        Same-of_Keeps both,
        λ _. both.connection ∙ connected,
        sock_write-AllAnswers opened msg self.ka_timer self.ac_timer written (inr same_msg) answers,
      )
  where
    some_msg :
        (opened : Session) (msg : Mem)
        → opened.ac_timer ≡ self.ac_timer
        → cops_client_accept opened.ka_timer opened.ac_timer (a.garbage (accept_length opened))
          ≡ some msg
        → msg ≡ accept_bytes (opened.ac_timer == 0) opened.ka_timer opened.ac_timer
    some_msg opened msg same e = some-injective _ _ (
        sym e
        ∙ accepted (opened.ac_timer == 0) opened.ka_timer opened.ac_timer
            (a.garbage (accept_length opened)) refl (rw same fits) (sized (accept_length opened)))

pub ps_admctl-Admits :
    (opens : Bool) (self : Session) (a : Attempt) (recvs : List (Option Mem)) (written : List Mem)
    (r : Admitted)
    → IsU32 self.ac_timer
    → ((n : ℕ) → length (a.garbage n) ≡ n)
    → AllAnswers self.ka_timer self.ac_timer written
    → ps_admctl opens self a recvs ≡ ended r
    → Admits self written r
unfolding ps_admctl
ps_admctl-Admits opens self a recvs written r fits sized answers h =
    let (p, e, h1) = then_run-ended (sock_connect self a.connecting) _ r h in
    let (same, connects) = sock_connect-Connected self a.connecting p e in
    if-ended (p.1) _ _ r
      (λ ok k.
        let (same', connected, answers') =
          accept_session-Admits opens (p.0) a recvs written r (rw same.ac_timer fits) sized
            (connects ok) (rw (same.ac_timer, same.ka_timer) answers) k in
        (Same-trans same same', connected, rw (← same.ac_timer, ← same.ka_timer) answers'))
      (λ _ k.
        rw
          (← ended-injective {a = record { self = p.0; written = none; result = 0; later = recvs }}
            {b = r} k)
          (same, λ no. absurd (true≢false no), answers))
      h1
