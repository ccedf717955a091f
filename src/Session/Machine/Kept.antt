-- ===== src/Session/Machine/Kept.antt =====
-- What holds of the loop of src/ps.c whatever it receives and however often it connects again.
use mathlib.Core.Option.{none-ne-some, some-injective}
use pcmm_policy_server.Base.{
  ℕ, ◌≡◌, inl, refl, sym, ap, ◌∙◌, Bool, true, ◌||◌, Option, List, [], ◌∷◌, ◌==◌, Mem, IsU32,
}
use pcmm_policy_server.Pack.Words.{be32}
use pcmm_policy_server.Session.{Session}
use pcmm_policy_server.Session.Report.{ended}
use pcmm_policy_server.Session.Start.{sock_write, sock_keepalive}
use pcmm_policy_server.Session.Start.Messages.{sock_keepalive_lem}
use pcmm_policy_server.Session.Receive.{ps_recvd}
use pcmm_policy_server.Session.Receive.Keeps.{
  result, ended-injective, or_fault-ended, then_run-ended, if-ended, ps_recvd-Sound,
}
use pcmm_policy_server.Session.Machine.{
  Attempt, ps_admctl, Turn, written_by, reconnect, shut, is_close, handle_opcode, ps_statemachine,
}
use pcmm_policy_server.Session.Machine.Admits.{
  Same, AllAnswers, AllSized, Same-refl, Same-trans, Same-of_Keeps, sock_write-AllAnswers,
  ps_admctl-Admits,
}

-- What the loop keeps from the session `s` on.
pub record Kept (s : Session) (t : Turn) : Type 0 where
  pub same : Same s t.self
  pub connection : s.connection ≡ 1 → t.self.connection ≡ 1
  pub answers : AllAnswers s.ka_timer s.ac_timer t.written
  pub sized : AllSized t.attempts

module _ (s : Session) (fits : IsU32 s.ac_timer) (opens : Bool) where
  reconnect-Kept :
      (self : Session) (attempts : List Attempt) (recvs : List (Option Mem)) (written : List Mem)
      (t : Turn)
      → Same s self
      → AllAnswers s.ka_timer s.ac_timer written
      → AllSized attempts
      → reconnect opens self attempts recvs written ≡ ended t
      → Kept s t
  unfolding reconnect
  reconnect-Kept self [] recvs written t same answers sized =
      λ h. absurd (none-ne-some t (ap result h))
  reconnect-Kept self (a ∷ attempts) recvs written t same answers (here, sized) = λ h.
      let (r, e, h1) = then_run-ended (ps_admctl opens self a recvs) _ t h in
      let (same', connected, answers') =
        ps_admctl-Admits opens self a recvs written r (rw same.ac_timer fits) here
          (rw (same.ac_timer, same.ka_timer) answers) e in
      let kept : AllAnswers s.ka_timer s.ac_timer (written_by r.written written) =
        rw (← same.ac_timer, ← same.ka_timer) answers' in
      if-ended (r.result == 0) _ _ t
        (λ _ k.
          reconnect-Kept r.self attempts r.later (written_by r.written written) t
            (Same-trans same same') kept sized k)
        (λ some_result k.
          rw
            (← ended-injective
              {a = record {
                self = r.self;
                attempts = attempts;
                later = r.later;
                written = written_by r.written written;
              }}
              {b = t} k)
            (record {
              same = Same-trans same same';
              connection = λ _. connected some_result;
              answers = kept;
              sized = sized;
            }))
        h1

  same_turn : (turn t : Turn) → Kept s turn → ended turn ≡ ended t → Kept s t
  same_turn turn t kept h = rw (← ended-injective {a = turn} {b = t} h) kept

  handle_opcode-Kept :
      (opcode : ℕ) (turn t : Turn)
      → Kept s turn
      → handle_opcode opens opcode turn ≡ ended t
      → Kept s t
  unfolding handle_opcode sock_keepalive
  handle_opcode-Kept opcode turn t kept =
      if-ended (opcode == 9) _ _ t
        (λ _ h.
          let (sent, e, h') = or_fault-ended (sock_keepalive turn.self) _ t h in
          let bytes = some-injective _ _ (sym e ∙ sock_keepalive_lem turn.self) in
          same_turn (record turn { written = written_by sent turn.written }) t
            (record {
              same = kept.same;
              connection = kept.connection;
              answers = rw bytes (
                  unfold sock_write in
                  sock_write-AllAnswers turn.self (16 ∷ 9 ∷ 0 ∷ 0 ∷ be32 8) s.ka_timer s.ac_timer
                    turn.written (inl refl) kept.answers);
              sized = kept.sized;
            })
            h')
        (λ _.
          if-ended (opcode == 6 || opcode == 1) _ _ t (λ _. same_turn turn t kept)
            (λ _.
              if-ended (is_close opcode) _ _ t
                (λ _.
                  reconnect-Kept (shut turn.self) turn.attempts turn.later turn.written t
                    (Same-trans kept.same closed) kept.answers kept.sized)
                (λ _. same_turn turn t kept)))
    where
      closed : Same turn.self (shut turn.self)
      closed = record { cmts_addr = refl; cmts_port = refl; ka_timer = refl; ac_timer = refl }

  -- Where the loop ends, from a session that keeps what is stated of `s`.
  loop-Kept :
      (fuel : ℕ) (out : Session × List Mem) (self : Session) (flags : List Bool)
      (recvs : List (Option Mem)) (attempts : List Attempt) (written : List Mem)
      → Kept s (record { self = self; attempts = attempts; later = recvs; written = written })
      → ps_statemachine fuel opens self flags recvs attempts written ≡ ended out
      → ((out.0).die ≡ true)
        × Same s (out.0)
        × (s.connection ≡ 1 → (out.0).connection ≡ 1)
        × AllAnswers s.ka_timer s.ac_timer (out.1)
  unfolding ps_statemachine
  loop-Kept fuel out self [] recvs attempts written kept =
      λ h. absurd (none-ne-some out (ap result h))
  loop-Kept fuel out self (flag ∷ flags) recvs attempts written kept =
      if-ended (self.die || flag) _ _ out
        (λ set h.
          rw (← ended-injective {a = (record self { die = self.die || flag }, written)} {b = out} h)
            (set, Same-trans kept.same marked, kept.connection, kept.answers))
        (λ _ h.
          let self' = record self { die = self.die || flag } in
          let (r, e, h1) = then_run-ended (ps_recvd fuel opens self' recvs) _ out h in
          let (keeps, _) = ps_recvd-Sound fuel opens self' recvs r e in
          let turn : Turn = record {
            self = r.self;
            attempts = attempts;
            later = r.later;
            written = written;
          } in
          let (t, e1, h2) = then_run-ended (handle_opcode opens r.opcode turn) _ out h1 in
          let kept' : Kept s turn = record {
            same = Same-trans kept.same (Same-trans marked (Same-of_Keeps keeps));
            connection = λ c. keeps.connection ∙ kept.connection c;
            answers = kept.answers;
            sized = kept.sized;
          } in
          let kept'' = handle_opcode-Kept r.opcode turn t kept' e1 in
          loop-Kept fuel out t.self flags t.later t.attempts t.written
            (record {
              same = kept''.same;
              connection = kept''.connection;
              answers = kept''.answers;
              sized = kept''.sized;
            })
            h2)
    where
      marked : Same self (record self { die = self.die || flag })
      marked = record { cmts_addr = refl; cmts_port = refl; ka_timer = refl; ac_timer = refl }

-- Where the loop ends, whatever it has received, however often it had to connect again and however the
-- attempts went: `die` is set; the address, the port and the timers are those that it started with;
-- the connection stands if it stood at the start; and nothing but Keep-Alive messages and
-- Client-Accept messages with the timers of the session has been written. The accounting timer has 32
-- bits, and the arrays of the messages have their declared lengths.
pub ps_statemachine-Kept :
    (fuel : ℕ) (opens : Bool) (self : Session) (flags : List Bool) (recvs : List (Option Mem))
    (attempts : List Attempt) (out : Session × List Mem)
    → IsU32 self.ac_timer
    → AllSized attempts
    → ps_statemachine fuel opens self flags recvs attempts [] ≡ ended out
    → ((out.0).die ≡ true)
      × Same self (out.0)
      × (self.connection ≡ 1 → (out.0).connection ≡ 1)
      × AllAnswers self.ka_timer self.ac_timer (out.1)
ps_statemachine-Kept fuel opens self flags recvs attempts out fits sized =
    loop-Kept self fits opens fuel out self flags recvs attempts []
      (record { same = Same-refl self; connection = λ c. c; answers = record {}; sized = sized })
