-- ===== src/Session/Receive/Messages.antt =====
-- What `ps_recvd` of src/ps.c makes of well-formed messages.
use pcmm_policy_server.Base.{
  ℕ, zero, suc, ◌+◌, ◌*◌, ◌≤◌, ◌<◌, ◌≡◌, refl, ◌∙◌, Bool, true, false, Option, some, List, [], ◌∷◌,
  ◌++◌, arith, ltb, leb, le→leb, length, length-append, length-replicate, drop, replicate, Mem,
  fill, fill-fits, IsU8, IsU32,
}
use pcmm_policy_server.Pack.{unpack_u8_it, unpack_u16_it, unpack_u32_it, unpack_u16}
use pcmm_policy_server.Pack.Words.{be32, unpack_u16_bytes, unpack_n-be32}
use pcmm_policy_server.Cops.{cops_header_ok, cops_class_ok, cops_opcode_ok}
use pcmm_policy_server.Session.{Session}
use pcmm_policy_server.Session.Report.{ReportFile, ended}
use pcmm_policy_server.Session.Receive.{
  then_run, or_fault, read_header, see_handle, ObjectHeader, read_object_header, read_object,
  read_objects, read_message, take_message, peeked, ps_recvd, buffer_size,
}

-- A header with any client type of two bytes.
abbrev pub header_of : ℕ → ℕ → ℕ → ℕ → Mem
header_of opcode hi lo len = 16 ∷ opcode ∷ hi ∷ lo ∷ be32 len

cleared_fill :
    (m : Mem)
    → length m ≤ buffer_size
    → fill m (replicate buffer_size 0) ≡ some (m ++ drop (length m) (replicate buffer_size 0))
cleared_fill m h =
    fill-fits m (replicate buffer_size 0) (omega (arith, length-replicate {A = ℕ} buffer_size 0))

read_header_lem :
    (opcode hi lo len : ℕ) (rest : Mem)
    → IsU8 opcode
    → IsU8 hi
    → IsU8 lo
    → IsU32 len
    → read_header (header_of opcode hi lo len ++ rest)
      ≡ some (record { opc = opcode; client = hi * 256 + lo; len = len })
unfolding read_header unpack_u8_it unpack_u16_it unpack_u32_it
read_header_lem opcode hi lo len rest h1 h2 h3 h4 =
    rw (unpack_u16_bytes hi lo (be32 len ++ rest) h2 h3, unpack_n-be32 len rest) (ground arith)

pub read_objects-done :
    (fuel : ℕ) (opens : Bool) (buf : Mem) (bytes opc : ℕ) (self : Session) (files : List ReportFile)
    (idx : ℕ)
    → bytes ≤ idx
    → read_objects fuel opens buf bytes opc self files idx ≡ ended (self, files)
unfolding read_objects
read_objects-done zero opens buf bytes opc self files idx h = ground arith
read_objects-done (suc fuel) opens buf bytes opc self files idx h = rw (not_below idx bytes h) refl
  where
    not_below : (i n : ℕ) → n ≤ i → ltb i n ≡ false
    not_below i n k = ground arith

pub read_objects-step :
    (fuel : ℕ) (opens : Bool) (buf : Mem) (bytes opc : ℕ) (self : Session) (files : List ReportFile)
    (idx : ℕ) (object : ObjectHeader)
    → idx < bytes
    → read_object_header buf idx ≡ some object
    → read_objects (suc fuel) opens buf bytes opc self files idx
      ≡ read_object fuel opens buf opc self files object (read_objects fuel opens buf bytes opc)
unfolding read_objects or_fault
read_objects-step fuel opens buf bytes opc self files idx object h e = rw (below, e) refl
  where
    below : ltb idx bytes ≡ true
    below = ground arith

module _ (fuel : ℕ) (opens : Bool) (self : Session) (opcode hi lo : ℕ) (body more : Mem)
    (later : List (Option Mem)) (op_byte : IsU8 opcode) (hi_byte : IsU8 hi) (lo_byte : IsU8 lo)
    (small : 8 + length body < 1000) (total : 8 + length body + length more ≤ buffer_size)
    (ok : cops_header_ok opcode (hi * 256 + lo) (8 + length body) ≡ true) where
  abbrev message : Mem
  message = header_of opcode hi lo (8 + length body) ++ body

  -- A message with an accepted header that comes whole is read from the buffer that it begins.
  pub received :
      ps_recvd fuel opens self (some (message ++ more) ∷ some message ∷ later)
      ≡ read_message fuel opens self opcode
          (message ++ drop (8 + length body) (replicate buffer_size 0))
          (8 + length body)
          later
  unfolding ps_recvd peeked take_message or_fault
  received =
      rw
        (
          cleared_fill (message ++ more) (omega (arith, length-append body more)),
          read_header_lem opcode hi lo (8 + length body)
              ((body ++ more) ++ drop (length (message ++ more)) (replicate buffer_size 0)) op_byte
              hi_byte lo_byte (omega arith),
          ok,
          cleared_fill message (omega (arith, total)),
          whole,
          add_8,
        )
        refl
    where
      whole : ltb (length message) (8 + length body) ≡ false
      whole = ground arith

      add_8 : length message ≡ 8 + length body
      add_8 = omega arith

  -- Without objects: the opcode is returned and the session stays.
  plain :
      length body ≡ 0
      → ps_recvd fuel opens self (some (message ++ more) ∷ some message ∷ later)
        ≡ ended (record { self = self; opcode = opcode; files = []; later = later })
  unfolding read_message then_run
  plain none_left =
      received
      ∙ rw
          (read_objects-done fuel opens
            (message ++ drop (8 + length body) (replicate buffer_size 0)) (8 + length body) opcode
            self [] 8 (omega arith))
          refl

-- A message of eight bytes with an accepted header is taken off the socket, and nothing behind it: its
-- opcode is returned and the session stays. The header is that of a client type of the PCMM, or that
-- of a Keep-Alive.
pub ps_recvd-plain :
    (fuel : ℕ) (opens : Bool) (self : Session) (opcode hi lo : ℕ) (more : Mem)
    (later : List (Option Mem))
    → IsU8 opcode
    → IsU8 hi
    → IsU8 lo
    → 8 + length more ≤ buffer_size
    → cops_header_ok opcode (hi * 256 + lo) 8 ≡ true
    → ps_recvd fuel opens self
        (some (header_of opcode hi lo 8 ++ more) ∷ some (header_of opcode hi lo 8) ∷ later)
      ≡ ended (record { self = self; opcode = opcode; files = []; later = later })
ps_recvd-plain fuel opens self opcode hi lo more later h1 h2 h3 total ok =
    plain fuel opens self opcode hi lo [] more later h1 h2 h3 (omega arith) (omega arith) ok refl

-- The session with the four bytes of its handle.
abbrev pub with_handle : Session → Mem → Session
with_handle self h = record self { handle = h ++ drop 4 self.handle; uuid_received = true }

-- A message of 16 bytes whose only object is a handle, for a session without one: the handle is stored.
pub ps_recvd-handle :
    (fuel : ℕ) (opens : Bool) (self : Session) (opcode h0 h1 h2 h3 : ℕ) (more : Mem)
    (later : List (Option Mem))
    → IsU8 opcode
    → 16 + length more ≤ buffer_size
    → cops_opcode_ok opcode ≡ true
    → self.uuid_received ≡ false
    → 4 ≤ length self.handle
    → ps_recvd (suc fuel) opens self (
        some (header_of opcode 128 10 16 ++ (0 ∷ 8 ∷ 1 ∷ 1 ∷ h0 ∷ h1 ∷ h2 ∷ h3 ∷ more))
        ∷ some (header_of opcode 128 10 16 ++ (0 ∷ 8 ∷ 1 ∷ 1 ∷ h0 ∷ h1 ∷ h2 ∷ h3 ∷ []))
        ∷ later)
      ≡ ended (record {
        self = with_handle self (h0 ∷ h1 ∷ h2 ∷ h3 ∷ []);
        opcode = opcode;
        files = [];
        later = later;
      })
unfolding read_message then_run
ps_recvd-handle fuel opens self opcode h0 h1 h2 h3 more later op_byte total ok fresh room =
    received (suc fuel) opens self opcode 128 10 (0 ∷ 8 ∷ 1 ∷ 1 ∷ h0 ∷ h1 ∷ h2 ∷ h3 ∷ []) more later
      op_byte (omega arith) (omega arith) (omega arith) (omega arith) header
    ∙ rw
        (read_objects-step fuel opens buf 16 opcode self [] 8
            (record { len = 8; cnv = 1; ctv = 1; index = 12 }) (omega arith) object_header
          ∙ (stored ∙ read_objects-done fuel opens buf 16 opcode _ [] 16 (omega arith)))
        refl
  where
    buf : Mem
    buf =
        header_of opcode 128 10 16
        ++ (0 ∷ 8 ∷ 1 ∷ 1 ∷ h0 ∷ h1 ∷ h2 ∷ h3 ∷ drop 16 (replicate buffer_size 0))

    header : cops_header_ok opcode (128 * 256 + 10) 16 ≡ true
    header = unfold cops_header_ok in ground (arith, ok)

    object_header :
        read_object_header buf 8 ≡ some (record { len = 8; cnv = 1; ctv = 1; index = 12 })
    object_header = unfold read_object_header unpack_u16_it unpack_u8_it unpack_u16 in refl

    four : leb 4 (length (drop 12 buf)) ≡ true
    four = le→leb 4 (length (drop 12 buf)) (omega arith)

    stored :
        read_object fuel opens buf opcode self []
          (record { len = 8; cnv = 1; ctv = 1; index = 12 })
          (read_objects fuel opens buf 16 opcode)
        ≡ read_objects fuel opens buf 16 opcode (with_handle self (h0 ∷ h1 ∷ h2 ∷ h3 ∷ [])) [] 16
    stored =
        unfold read_object cops_class_ok see_handle or_fault in
        rw (fresh, four, fill-fits (h0 ∷ h1 ∷ h2 ∷ h3 ∷ []) self.handle room) refl
