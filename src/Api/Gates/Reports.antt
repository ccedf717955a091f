-- ===== src/Api/Gates/Reports.antt =====
-- What becomes of a report of the CMTS: from `ps_recvd` and `ps_pcmm_report` of src/ps.c in the thread
-- of a session, by the response file, to the handler of src/api/routes.c that waits for it.
use pcmm_policy_server.Base.{
  ℕ, ◌+◌, ◌≤◌, ◌<◌, ◌≡◌, ◌≢◌, refl, ◌∙◌, Bool, true, false, some, List, ◌∷◌, ◌++◌, arith, ◌==◌, ◌^◌,
  if◌then◌else◌, length, Mem, u8, u16, IsU16,
}
use pcmm_policy_server.Base.Text.{str, matches}
use pcmm_policy_server.Pcmm.Names.{pcmm_otoact, pcmm_otoerr}
use pcmm_policy_server.Session.{Session}
use pcmm_policy_server.Session.Report.{
  ReportFile, orphan_entry, response_file, Response, response_error, ended, ps_pcmm_report,
}
use pcmm_policy_server.Session.Report.Text.{
  gate_key, command_key, application_key, error_key, response_text,
}
use pcmm_policy_server.Session.Report.Walk.{encode_all}
use pcmm_policy_server.Session.Report.Files.{error_items, ps_pcmm_report-error}
use pcmm_policy_server.Api.{json_frommsg}
use pcmm_policy_server.Api.Gates.{Poll, no_file, line, World, wait_answer}
use pcmm_policy_server.Api.Gates.Answer.{IsText, quiet, wait_answer-message}
use pcmm_policy_server.Api.Gates.Sized.{Sized, Sized-append, literal, print_decimal-Sized}
use pcmm_policy_server.Api.Gates.Names.{pcmm_otoact-Sized, pcmm_otoerr-Sized}
use pcmm_policy_server.Api.Responses.{is_text}

-- What a turn of the wait for a transaction finds once a file is written.
abbrev pub poll_of : ℕ → ReportFile → Poll
poll_of id (orphan_entry gate_id gate_cmd) = no_file
poll_of id (response_file transaction response) =
    if transaction == id then line (response_text response) else no_file

response_error-Sized :
    (command code subcode name : ℕ)
    → Sized 103 168
        (response_text (response_error 0 (pcmm_otoact command) code subcode (pcmm_otoerr name)))
unfolding response_text is_text
response_error-Sized command code subcode name =
    Sized-append
      (Sized-append (literal gate_key refl) (
        Sized-append (print_decimal-Sized 9 0)
          (Sized-append (literal command_key refl) (pcmm_otoact-Sized command))))
      (Sized-append (literal application_key refl) (
        Sized-append (print_decimal-Sized 4 0) (
          Sized-append (literal error_key refl) (
            Sized-append (print_decimal-Sized 4 code) (
              Sized-append (literal (str "::") refl) (
                Sized-append (print_decimal-Sized 4 subcode) (
                  Sized-append (literal (str ", '") refl)
                    (Sized-append (pcmm_otoerr-Sized name) (literal (str "'\"}") refl)))))))))

-- The wait for the transaction of a file finds the text in it.
polled :
    (world : World) (bs : List Bool) (later : List Poll) (txn : ℕ) (response : Response)
    → world.polls ≡ quiet bs ++ (poll_of txn (response_file txn response) ∷ later)
    → world.polls ≡ quiet bs ++ (line (response_text response) ∷ later)
polled world bs later txn response e = e ∙ rw same refl
  where
    same : (txn == txn) ≡ true
    same = ground arith

module _ (world : World) (size : ℕ) (bs : List Bool) (later_polls : List Poll) where
  -- A report that refuses a command as in `ps_pcmm_report-error`, with an error code that has a
  -- name, and a handler that waits for its transaction with a response of 170 bytes or more and
  -- metrics of fewer than 100: the session writes the file, and the handler, which finds it after
  -- any number of turns, answers with its text, that is the error's code, subcode and name, and then
  -- the metrics.
  pub wait_answer-error :
      (txn cmd tag app ip ip' code subc : ℕ) (front tail : Mem)
      → IsU16 txn
      → IsU16 code
      → IsU16 subc
      → length front + 32 < 2 ^ 64
      → txn ≢ 0
      → matches (str (pcmm_otoerr (u8 code))) (str "NIL") ≡ false
      → IsText world.metrics
      → length world.metrics < 100
      → 170 ≤ size
      → let response =
          response_error 0 (pcmm_otoact (u8 (u16 cmd))) code subc (pcmm_otoerr (u8 code)) in
        world.polls ≡ quiet bs ++ (poll_of txn (response_file txn response) ∷ later_polls)
        → (ps_pcmm_report 4 true
              (front ++ (encode_all (error_items txn cmd tag app ip ip' code subc) ++ tail))
              (length front)
              36
            ≡ ended (length front + 32, some (response_file txn response)))
          × (wait_answer world size ≡ some (json_frommsg (response_text response ++ world.metrics)))
  wait_answer-error txn cmd tag app ip ip' code subc front tail ht hc hs fits some_txn named text
        short room e =
      let response =
        response_error 0 (pcmm_otoact (u8 (u16 cmd))) code subc (pcmm_otoerr (u8 code)) in
      let sized = response_error-Sized (u8 (u16 cmd)) code subc (u8 code) in
      (
        ps_pcmm_report-error txn cmd tag app ip ip' code subc front tail ht hc hs fits some_txn
            named,
        wait_answer-message world size bs (response_text response) later_polls
            (polled world bs later_polls txn response e) sized.text text short
            (omega (arith, sized.above)) (omega (arith, sized.below)) (omega (arith, sized.below)),
      )
