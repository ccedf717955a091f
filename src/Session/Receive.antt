-- ===== src/Session/Receive.antt =====
-- `ps_recvd` of src/ps.c: one COPS message is taken from the socket and its objects are read.
-- What the calls of `recv` return, one after the other, is an argument: the bytes, or none for -1.
pub mod Keeps
pub mod Messages
pub mod Requests
pub mod Reports
mod Tests
use pcmm_policy_server.Base.{
  ℕ, zero, suc, ◌+◌, ◌-◌, Bool, true, false, ◌&&◌, not, Option, none, some, List, [], ◌∷◌, ◌++◌,
  ◌==◌, ltb, if◌then◌else◌, length, drop, replicate, u8, Mem, fill, memcpy,
}
use pcmm_policy_server.Base.Fault.{◌>>=◌}
use pcmm_policy_server.Pack.{unpack_u8_it, unpack_u16_it, unpack_u32_it}
use pcmm_policy_server.Cops.{client_type_value, cops_header_ok, cops_class_ok}
use pcmm_policy_server.Session.{Session}
use pcmm_policy_server.Session.Report.{ReportFile, Run, ended, fault, unfinished, ps_pcmm_report}

-- `BUFFER_SIZE`
unfoldable pub buffer_size : ℕ
buffer_size = 65535

-- What follows a run, and what follows a read.
unfoldable pub then_run : {A B : Type 0} → Run A → (A → Run B) → Run B
then_run (ended a) k = k a
then_run fault k = fault
then_run unfinished k = unfinished

unfoldable pub or_fault : {A B : Type 0} → Option A → (A → Run B) → Run B
or_fault none k = fault
or_fault (some a) k = k a

-- The session, the returned opcode, the files written, and the results of `recv` that are left.
pub record Received : Type 0 where
  pub self : Session
  pub opcode : ℕ
  pub files : List ReportFile
  pub later : List (Option Mem)

pub record Header : Type 0 where
  pub opc : ℕ
  pub client : ℕ
  pub len : ℕ

-- From index 1 on; the index is 8 then.
unfoldable pub read_header : Mem → Option Header
read_header buf = do
  (opc, i) ← unpack_u8_it buf 1
  (client, j) ← unpack_u16_it buf i
  (len, _) ← unpack_u32_it buf j
  some (record { opc = u8 opc; client = client; len = len })

-- The search for the client type in a message with an invalid header: from index `i` on, `left` more
-- indices with four bytes behind them. The result is the index and the length that follows it.
unfoldable pub resync : ℕ → ℕ → Mem → Option (Option (ℕ × ℕ))
resync zero i buf = some none
resync (suc left) i buf =
    let rest = resync left (i + 1) buf in
    do
      (client, it) ← unpack_u16_it buf i
      if client == client_type_value
          then (unpack_u32_it buf it >>= λ (len, _). some (some (i, len)))
          else rest

-- `while (recv(self->sock, buf, due, MSG_WAITALL) != (ssize_t)due);` and the buffer that it leaves.
unfoldable pub drain : ℕ → Mem → List (Option Mem) → Run (Mem × List (Option Mem))
drain due buf [] = unfinished
drain due buf (none ∷ recvs) = drain due buf recvs
drain due buf (some bs ∷ recvs) =
    let rest = λ (buf' : Mem). drain due buf' recvs in
    or_fault (fill bs buf) λ buf'. if length bs == due then ended (buf', recvs) else rest buf'

-- An object that is no report: the first handle is stored. No other object moves the index.
unfoldable pub see_handle : Mem → ℕ → ℕ → Session → Option (Session × ℕ)
see_handle buf cnv idx self =
    if cnv == 1 && not self.uuid_received
    then (memcpy (drop idx buf) 4 self.handle >>= λ handle.
        some (record self { handle = handle; uuid_received = true }, idx + 4))
    else some (self, idx)

add_file : Option ReportFile → List ReportFile → List ReportFile
add_file none files = files
add_file (some file) files = file ∷ files

-- The first four bytes of an object, and the index behind them.
pub record ObjectHeader : Type 0 where
  pub len : ℕ
  pub cnv : ℕ
  pub ctv : ℕ
  pub index : ℕ

unfoldable pub read_object_header : Mem → ℕ → Option ObjectHeader
read_object_header buf idx = do
  (len, i) ← unpack_u16_it buf idx
  (cnv, j) ← unpack_u8_it buf i
  (ctv, k) ← unpack_u8_it buf j
  some (record { len = len; cnv = cnv; ctv = ctv; index = k })

-- What an object does, and what follows it.
unfoldable pub read_object :
    {R : Type 0}
    → ℕ
    → Bool
    → Mem
    → ℕ
    → Session
    → List ReportFile
    → ObjectHeader
    → (Session → List ReportFile → ℕ → Run R)
    → Run R
unfolding add_file
read_object fuel opens buf opc self files object next =
    if not (cops_class_ok object.cnv object.ctv)
    then next self files object.index
    else if object.cnv == 9 && opc == 3
    then (then_run (ps_pcmm_report fuel opens buf object.index object.len)
        λ (idx, file). next self (add_file file files) idx)
    else or_fault (see_handle buf object.cnv object.index self) λ (self', idx). next self' files idx

-- The loop over the objects. The files written last come first.
unfoldable pub read_objects :
    ℕ → Bool → Mem → ℕ → ℕ → Session → List ReportFile → ℕ → Run (Session × List ReportFile)
read_objects zero opens buf bytes opc self files idx =
    if ltb idx bytes then unfinished else ended (self, files)
read_objects (suc fuel) opens buf bytes opc self files idx =
    let rest = read_objects fuel opens buf bytes opc in
    if ltb idx bytes
    then (or_fault (read_object_header buf idx)
        λ object. read_object fuel opens buf opc self files object rest)
    else ended (self, files)

-- The objects, from index 8 on.
unfoldable pub read_message : ℕ → Bool → Session → ℕ → Mem → ℕ → List (Option Mem) → Run Received
read_message fuel opens self opc buf bytes later =
    then_run (read_objects fuel opens buf bytes opc self [] 8)
      λ (self', files). ended (record { self = self'; opcode = opc; files = files; later = later })

-- The message of `len` bytes is taken into the cleared buffer. If fewer come, their place is cleared
-- and the rest is taken to the start of the buffer.
unfoldable pub take_message : ℕ → Bool → Session → ℕ → ℕ → List (Option Mem) → Run Received
take_message fuel opens self opc len [] = unfinished
take_message fuel opens self opc len (none ∷ recvs) =
    ended (record { self = self; opcode = 0; files = []; later = recvs })
take_message fuel opens self opc len (some bs ∷ recvs) =
    or_fault (fill bs (replicate buffer_size 0)) λ buf.
      if ltb (length bs) len
      then (or_fault (fill (replicate (length bs) 0) buf) λ buf'.
          then_run (drain (len - length bs) buf' recvs)
            λ (buf'', later). read_message fuel opens self opc buf'' len later)
      else read_message fuel opens self opc buf (length bs) recvs

-- With an invalid header: the bytes before the header that was found are taken off, or all bytes. The
-- opcode stays that of the invalid header, unless the client type stands at index 0 or 1.
unfoldable pub after_resync :
    ℕ → Bool → Session → ℕ → Option (ℕ × ℕ) → List (Option Mem) → Run Received
after_resync fuel opens self opc found [] = unfinished
after_resync fuel opens self opc none (_ ∷ recvs) =
    ended (record { self = self; opcode = 0; files = []; later = recvs })
after_resync fuel opens self opc (some (i, len)) (r ∷ recvs) =
    if ltb i 2
    then take_message fuel opens self 3 len (r ∷ recvs)
    else take_message fuel opens self opc len recvs

unfoldable pub peeked : ℕ → Bool → Session → Mem → List (Option Mem) → Run Received
peeked fuel opens self bs recvs = or_fault (fill bs (replicate buffer_size 0)) λ buf.
    or_fault (read_header buf) λ header.
      if cops_header_ok header.opc header.client header.len
      then take_message fuel opens self header.opc header.len recvs
      else or_fault (resync (length bs - 4) 0 buf)
          λ found. after_resync fuel opens self header.opc found recvs

-- The first `recv` looks at what is there. Nothing, or an error, is the result 0.
unfoldable pub ps_recvd : ℕ → Bool → Session → List (Option Mem) → Run Received
ps_recvd fuel opens self [] = unfinished
ps_recvd fuel opens self (none ∷ recvs) =
    ended (record { self = self; opcode = 0; files = []; later = recvs })
ps_recvd fuel opens self (some [] ∷ recvs) =
    ended (record { self = self; opcode = 0; files = []; later = recvs })
ps_recvd fuel opens self (some (b ∷ bs) ∷ recvs) = peeked fuel opens self (b ∷ bs) recvs
