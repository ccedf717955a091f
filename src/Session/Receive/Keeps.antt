-- ===== src/Session/Receive/Keeps.antt =====
-- What receiving a message in src/ps.c never changes.
use mathlib.Core.Bool.{true≢false}
use mathlib.Core.Option.{none-ne-some, some-injective}
use pcmm_policy_server.Base.{
  ℕ, zero, suc, ◌+◌, ◌-◌, ◌<◌, ◌≡◌, refl, sym, ap, ◌∙◌, Bool, true, false, ◌&&◌, not, Option, none,
  some, List, [], ◌∷◌, arith, ◌==◌, ltb, if◌then◌else◌, length, drop, replicate, Mem, fill, memcpy,
}
use pcmm_policy_server.Base.Fault.{◌>>=◌, bind-some}
use pcmm_policy_server.Pack.{unpack_u8_it, unpack_u16_it, unpack_u32_it}
use pcmm_policy_server.Cops.{cops_header_ok, cops_class_ok}
use pcmm_policy_server.Session.{Session}
use pcmm_policy_server.Session.Report.{ReportFile, Run, ended, fault, unfinished, ps_pcmm_report}
use pcmm_policy_server.Session.Receive.{
  then_run, or_fault, Received, Header, ObjectHeader, read_object_header, read_object, read_header,
  resync, drain, see_handle, read_objects, read_message, take_message, after_resync, peeked,
  ps_recvd, buffer_size,
}

-- The address, the port, the timers, the connection, the socket and `die` stay; so does a handle that
-- was received.
pub record Keeps (s t : Session) : Type 0 where
  pub cmts_addr : t.cmts_addr ≡ s.cmts_addr
  pub connection : t.connection ≡ s.connection
  pub cmts_port : t.cmts_port ≡ s.cmts_port
  pub ka_timer : t.ka_timer ≡ s.ka_timer
  pub ac_timer : t.ac_timer ≡ s.ac_timer
  pub sock : t.sock ≡ s.sock
  pub die : t.die ≡ s.die
  pub handle : s.uuid_received ≡ true → (t.uuid_received ≡ true) × (t.handle ≡ s.handle)

pub Keeps-refl : (s : Session) → Keeps s s
Keeps-refl s = record {
  cmts_addr = refl;
  connection = refl;
  cmts_port = refl;
  ka_timer = refl;
  ac_timer = refl;
  sock = refl;
  die = refl;
  handle = λ h. (h, refl);
}

pub Keeps-trans : {s t u : Session} → Keeps s t → Keeps t u → Keeps s u
Keeps-trans h k = record {
  cmts_addr = k.cmts_addr ∙ h.cmts_addr;
  connection = k.connection ∙ h.connection;
  cmts_port = k.cmts_port ∙ h.cmts_port;
  ka_timer = k.ka_timer ∙ h.ka_timer;
  ac_timer = k.ac_timer ∙ h.ac_timer;
  sock = k.sock ∙ h.sock;
  die = k.die ∙ h.die;
  handle = λ r.
      let (received, same) = h.handle r in
      let (received', same') = k.handle received in (received', same' ∙ same);
}

-- The result of a run.
abbrev pub result : {A : Type 0} → Run A → Option A
result (ended a) = some a
result fault = none
result unfinished = none

pub ended-injective : {A : Type 0} {a b : A} → ended a ≡ ended b → a ≡ b
ended-injective {A} {a} {b} h = some-injective a b (ap result h)

pub or_fault-ended :
    {A B : Type 0} (m : Option A) (k : A → Run B) (b : B)
    → or_fault m k ≡ ended b
    → (a : A) × (m ≡ some a) × (k a ≡ ended b)
unfolding or_fault
or_fault-ended none k b h = absurd (none-ne-some b (ap result h))
or_fault-ended (some a) k b h = (a, refl, h)

pub then_run-ended :
    {A B : Type 0} (m : Run A) (k : A → Run B) (b : B)
    → then_run m k ≡ ended b
    → (a : A) × (m ≡ ended a) × (k a ≡ ended b)
unfolding then_run
then_run-ended (ended a) k b h = (a, refl, h)
then_run-ended fault k b h = absurd (none-ne-some b (ap result h))
then_run-ended unfinished k b h = absurd (none-ne-some b (ap result h))

-- Both branches of a test that ends.
pub if-ended :
    {A : Type 0} (test : Bool) (m n : Run A) (a : A) {P : Type 0}
    → ((test ≡ true) → (m ≡ ended a) → P)
    → ((test ≡ false) → (n ≡ ended a) → P)
    → (if test then m else n) ≡ ended a
    → P
if-ended true m n a k k' h = k refl h
if-ended false m n a k k' h = k' refl h

Keeps-same : {s t : Session} → s ≡ t → Keeps s t
Keeps-same {s} e = rw (← e) (Keeps-refl s)

-- A first handle is stored.
stored-Keeps :
    (s : Session) (bytes : Mem)
    → s.uuid_received ≡ false
    → Keeps s (record s { handle = bytes; uuid_received = true })
stored-Keeps s bytes e = record {
  cmts_addr = refl;
  connection = refl;
  cmts_port = refl;
  ka_timer = refl;
  ac_timer = refl;
  sock = refl;
  die = refl;
  handle = λ r. absurd (true≢false (sym r ∙ e));
}

see_handle-Keeps :
    (buf : Mem) (cnv idx : ℕ) (self : Session) (r : Session × ℕ)
    → see_handle buf cnv idx self ≡ some r
    → Keeps self (r.0)
unfolding see_handle
see_handle-Keeps buf cnv idx self r = seen (cnv == 1 && not self.uuid_received) first
  where
    first : (cnv == 1 && not self.uuid_received) ≡ true → self.uuid_received ≡ false
    first h = ground arith

    seen :
        (test : Bool)
        → (test ≡ true → self.uuid_received ≡ false)
        → (if test
            then (memcpy (drop idx buf) 4 self.handle >>= λ handle.
                some (record self { handle = handle; uuid_received = true }, idx + 4))
            else some (self, idx))
          ≡ some r
        → Keeps self (r.0)
    seen true k h =
        let (bytes, _, e) = bind-some (memcpy (drop idx buf) 4 self.handle) _ r h in
        Keeps-trans (stored-Keeps self bytes (k refl))
          (Keeps-same (ap (λ p. p.0) (some-injective _ _ e)))
    seen false k h = Keeps-same (ap (λ p. p.0) (some-injective _ _ h))

read_object-Keeps :
    {R : Type 0} (fuel : ℕ) (opens : Bool) (buf : Mem) (opc : ℕ) (self : Session)
    (files : List ReportFile) (object : ObjectHeader) (next : Session → List ReportFile → ℕ → Run R)
    (r : R) (end : R → Session)
    → ((s : Session) (fs : List ReportFile) (i : ℕ) → next s fs i ≡ ended r → Keeps s (end r))
    → read_object fuel opens buf opc self files object next ≡ ended r
    → Keeps self (end r)
unfolding read_object
read_object-Keeps fuel opens buf opc self files object next r end k =
    if-ended (not (cops_class_ok object.cnv object.ctv)) _ _ r (λ _ h. k self files object.index h)
      (λ _.
        if-ended (object.cnv == 9 && opc == 3) _ _ r
          (λ _ h.
            let (p, _, h') =
              then_run-ended (ps_pcmm_report fuel opens buf object.index object.len) _ r h in
            k self _ (p.0) h')
          (λ _ h.
            let (p, e, h') = or_fault-ended (see_handle buf object.cnv object.index self) _ r h in
            Keeps-trans (see_handle-Keeps buf object.cnv object.index self p e)
              (k (p.0) files (p.1) h')))

read_objects-Keeps :
    (fuel : ℕ) (opens : Bool) (buf : Mem) (bytes opc : ℕ) (self : Session) (files : List ReportFile)
    (idx : ℕ) (r : Session × List ReportFile)
    → read_objects fuel opens buf bytes opc self files idx ≡ ended r
    → Keeps self (r.0)
unfolding read_objects
read_objects-Keeps zero opens buf bytes opc self files idx r =
    if-ended (ltb idx bytes) _ _ r (λ _ h. absurd (none-ne-some r (ap result h)))
      (λ _ h. Keeps-same (ap (λ p. p.0) (ended-injective h)))
read_objects-Keeps (suc fuel) opens buf bytes opc self files idx r =
    if-ended (ltb idx bytes) _ _ r
      (λ _ h.
        let (object, _, h') = or_fault-ended (read_object_header buf idx) _ r h in
        read_object-Keeps fuel opens buf opc self files object
          (read_objects fuel opens buf bytes opc) r (λ p. p.0)
          (λ s fs i. read_objects-Keeps fuel opens buf bytes opc s fs i r) h')
      (λ _ h. Keeps-same (ap (λ p. p.0) (ended-injective h)))

-- The opcode that is returned, and the session.
abbrev pub Sound : Session → Received → Type 0
Sound self r = Keeps self r.self × (r.opcode < 256)

read_message-Sound :
    (fuel : ℕ) (opens : Bool) (self : Session) (opc : ℕ) (buf : Mem) (bytes : ℕ)
    (later : List (Option Mem)) (r : Received)
    → opc < 256
    → read_message fuel opens self opc buf bytes later ≡ ended r
    → Sound self r
unfolding read_message
read_message-Sound fuel opens self opc buf bytes later r small h =
    let (p, e, h') = then_run-ended (read_objects fuel opens buf bytes opc self [] 8) _ r h in
    let same = ended-injective h' in
    (
      Keeps-trans (read_objects-Keeps fuel opens buf bytes opc self [] 8 p e)
          (Keeps-same (ap (λ q. q.self) same)),
      omega (arith, ap (λ q. q.opcode) same),
    )

quiet-Sound :
    (self : Session) (later : List (Option Mem)) (r : Received)
    → ended (record { self = self; opcode = 0; files = []; later = later }) ≡ ended r
    → Sound self r
quiet-Sound self later r h =
    let same = ended-injective h in
    (Keeps-same (ap (λ q. q.self) same), omega (arith, ap (λ q. q.opcode) same))

take_message-Sound :
    (fuel : ℕ) (opens : Bool) (self : Session) (opc len : ℕ) (recvs : List (Option Mem))
    (r : Received)
    → opc < 256
    → take_message fuel opens self opc len recvs ≡ ended r
    → Sound self r
unfolding take_message
take_message-Sound fuel opens self opc len [] r small h = absurd (none-ne-some r (ap result h))
take_message-Sound fuel opens self opc len (none ∷ recvs) r small h = quiet-Sound self recvs r h
take_message-Sound fuel opens self opc len (some bs ∷ recvs) r small h =
    let (buf, _, h') = or_fault-ended (fill bs (replicate buffer_size 0)) _ r h in
    if-ended (ltb (length bs) len) _ _ r
      (λ _ k.
        let (buf', _, k') = or_fault-ended (fill (replicate (length bs) 0) buf) _ r k in
        let (p, _, k'') = then_run-ended (drain (len - length bs) buf' recvs) _ r k' in
        read_message-Sound fuel opens self opc (p.0) len (p.1) r small k'')
      (λ _ k. read_message-Sound fuel opens self opc buf (length bs) recvs r small k) h'

after_resync-Sound :
    (fuel : ℕ) (opens : Bool) (self : Session) (opc : ℕ) (found : Option (ℕ × ℕ))
    (recvs : List (Option Mem)) (r : Received)
    → opc < 256
    → after_resync fuel opens self opc found recvs ≡ ended r
    → Sound self r
unfolding after_resync
after_resync-Sound fuel opens self opc found [] r small h = absurd (none-ne-some r (ap result h))
after_resync-Sound fuel opens self opc none (x ∷ recvs) r small h = quiet-Sound self recvs r h
after_resync-Sound fuel opens self opc (some (i, len)) (x ∷ recvs) r small h =
    if-ended (ltb i 2) _ _ r
      (λ _. take_message-Sound fuel opens self 3 len (x ∷ recvs) r (omega arith))
      (λ _. take_message-Sound fuel opens self opc len recvs r small) h

opc-byte : (buf : Mem) (header : Header) → read_header buf ≡ some header → header.opc < 256
unfolding read_header
opc-byte buf header h =
    let (p, _, h1) = bind-some (unpack_u8_it buf 1) _ header h in
    let (q, _, h2) = bind-some (unpack_u16_it buf (p.1)) _ header h1 in
    let (s, _, h3) = bind-some (unpack_u32_it buf (q.1)) _ header h2 in
    omega (arith, ap (λ v. v.opc) (some-injective _ _ h3))

-- Whatever comes from the socket: where `ps_recvd` returns, the session has kept its address, port,
-- timers, connection, socket and `die`, and a handle that it had; and the opcode is a byte, so
-- never the -1 for which the state machine would connect again.
pub ps_recvd-Sound :
    (fuel : ℕ) (opens : Bool) (self : Session) (recvs : List (Option Mem)) (r : Received)
    → ps_recvd fuel opens self recvs ≡ ended r
    → Sound self r
unfolding ps_recvd peeked
ps_recvd-Sound fuel opens self [] r h = absurd (none-ne-some r (ap result h))
ps_recvd-Sound fuel opens self (none ∷ recvs) r h = quiet-Sound self recvs r h
ps_recvd-Sound fuel opens self (some [] ∷ recvs) r h = quiet-Sound self recvs r h
ps_recvd-Sound fuel opens self (some (b ∷ bs) ∷ recvs) r h =
    let (buf, _, h1) = or_fault-ended (fill (b ∷ bs) (replicate buffer_size 0)) _ r h in
    let (header, e, h2) = or_fault-ended (read_header buf) _ r h1 in
    let small = opc-byte buf header e in
    if-ended (cops_header_ok header.opc header.client header.len) _ _ r
      (λ _. take_message-Sound fuel opens self header.opc header.len recvs r small)
      (λ _ k.
        let (found, _, k') = or_fault-ended (resync (length (b ∷ bs) - 4) 0 buf) _ r k in
        after_resync-Sound fuel opens self header.opc found recvs r small k')
      h2
