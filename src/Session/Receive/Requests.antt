-- ===== src/Session/Receive/Requests.antt =====
-- A Request through `ps_recvd` of src/ps.c: the handle of the session is stored.
use pcmm_policy_server.Base.{
  ℕ, suc, ◌+◌, ◌≤◌, ◌≡◌, refl, ◌∙◌, Bool, true, false, Option, some, List, [], ◌∷◌, ◌++◌, arith,
  leb, le→leb, length, drop, replicate, Mem, fill-fits,
}
use pcmm_policy_server.Pack.{unpack_u8_it, unpack_u16_it, unpack_u16}
use pcmm_policy_server.Cops.{cops_header_ok, cops_class_ok, cops_opcode_ok}
use pcmm_policy_server.Session.{Session}
use pcmm_policy_server.Session.Report.{ReportFile, Run, ended}
use pcmm_policy_server.Session.Receive.{
  then_run, or_fault, see_handle, ObjectHeader, read_object_header, read_object, read_objects,
  read_message, ps_recvd, buffer_size,
}
use pcmm_policy_server.Session.Receive.Messages.{
  header_of, with_handle, received, read_objects-done, read_objects-step,
}

module _ (fuel : ℕ) (opens : Bool) (self : Session) (h0 h1 h2 h3 r0 r1 m0 m1 : ℕ) (more : Mem)
    (later : List (Option Mem)) (total : 24 + length more ≤ buffer_size)
    (fresh : self.uuid_received ≡ false) (room : 4 ≤ length self.handle)
    (no_class : cops_class_ok m0 m1 ≡ false) where
  -- The handle and the context with its request type and message type.
  abbrev objects : Mem
  objects = 0 ∷ 8 ∷ 1 ∷ 1 ∷ h0 ∷ h1 ∷ h2 ∷ h3 ∷ 0 ∷ 8 ∷ 2 ∷ 1 ∷ r0 ∷ r1 ∷ m0 ∷ m1 ∷ []

  abbrev buf : Mem
  buf = header_of 1 128 10 24 ++ (objects ++ drop 24 (replicate buffer_size 0))

  abbrev known : Session
  known = with_handle self (h0 ∷ h1 ∷ h2 ∷ h3 ∷ [])

  header_at :
      (n idx : ℕ) (s : Session) (object : ObjectHeader)
      → suc idx ≤ 24
      → read_object_header buf idx ≡ some object
      → read_objects (suc n) opens buf 24 1 s [] idx
        ≡ read_object n opens buf 1 s [] object (read_objects n opens buf 24 1)
  header_at n idx s object below e =
      read_objects-step n opens buf 24 1 s [] idx object (omega arith) e

  four : leb 4 (length (drop 12 buf)) ≡ true
  four = le→leb 4 (length (drop 12 buf)) (omega arith)

  stored :
      (n : ℕ) (next : Session → List ReportFile → ℕ → Run (Session × List ReportFile))
      → read_object n opens buf 1 self [] (record { len = 8; cnv = 1; ctv = 1; index = 12 }) next
        ≡ next known [] 16
  unfolding read_object cops_class_ok see_handle or_fault
  stored n next = rw (fresh, four, fill-fits (h0 ∷ h1 ∷ h2 ∷ h3 ∷ []) self.handle room) refl

  context :
      (n : ℕ) (next : Session → List ReportFile → ℕ → Run (Session × List ReportFile))
      → read_object n opens buf 1 known [] (record { len = 8; cnv = 2; ctv = 1; index = 20 }) next
        ≡ next known [] 20
  unfolding read_object cops_class_ok see_handle or_fault
  context n next = refl

  types :
      (n len : ℕ) (next : Session → List ReportFile → ℕ → Run (Session × List ReportFile))
      → read_object n opens buf 1 known []
          (record { len = len; cnv = m0; ctv = m1; index = 24 })
          next
        ≡ next known [] 24
  unfolding read_object
  types n len next = rw no_class refl

  walked : read_objects (suc (suc (suc fuel))) opens buf 24 1 self [] 8 ≡ ended (known, [])
  unfolding read_object_header unpack_u16_it unpack_u8_it unpack_u16
  walked =
      header_at (suc (suc fuel)) 8 self _ (omega arith) refl
      ∙ (stored (suc (suc fuel)) (read_objects (suc (suc fuel)) opens buf 24 1)
          ∙ (header_at (suc fuel) 16 known _ (omega arith) refl
              ∙ (context (suc fuel) (read_objects (suc fuel) opens buf 24 1)
                  ∙ (header_at fuel 20 known _ (omega arith) refl
                      ∙ (types fuel _ (read_objects fuel opens buf 24 1)
                          ∙ read_objects-done fuel opens buf 24 1 known [] 24 (omega arith))))))

  -- A Request of 24 bytes, that is header, handle and context, whose message type is not the class of
  -- an object, for a session without a handle and three turns of fuel or more: the message is taken
  -- off the socket, its opcode is returned, the four bytes of the handle are stored, and the session
  -- has received its handle.
  pub ps_recvd-request :
      ps_recvd (suc (suc (suc fuel))) opens self (
        some (header_of 1 128 10 24 ++ (objects ++ more))
        ∷ some (header_of 1 128 10 24 ++ objects)
        ∷ later)
      ≡ ended (record { self = known; opcode = 1; files = []; later = later })
  unfolding read_message then_run
  ps_recvd-request =
      received (suc (suc (suc fuel))) opens self 1 128 10 objects more later (omega arith)
        (omega arith) (omega arith) (omega arith) (omega arith)
        (unfold cops_header_ok cops_opcode_ok in refl)
      ∙ rw walked refl
