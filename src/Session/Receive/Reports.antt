-- ===== src/Session/Receive/Reports.antt =====
-- A report through `ps_recvd` of src/ps.c: from the bytes on the socket to the response file.
use pcmm_policy_server.Base.{
  ℕ, zero, suc, ◌+◌, ◌≤◌, ◌<◌, ◌≡◌, ◌≢◌, refl, true, false, Option, some, List, [], ◌∷◌, ◌++◌,
  arith, ◌==◌, length, drop, replicate, Mem, fill, u8, u16, IsU16, IsU32,
}
use pcmm_policy_server.Cops.{cops_class_ok}
use pcmm_policy_server.Pcmm.Names.{pcmm_otoact}
use pcmm_policy_server.Session.{Session}
use pcmm_policy_server.Session.Report.{ReportFile, unfinished, response_file, response_default}
use pcmm_policy_server.Session.Report.Walk.{encode_all}
use pcmm_policy_server.Session.Report.Files.{ack_items}
use pcmm_policy_server.Session.Receive.{or_fault, buffer_size, drain}
use pcmm_policy_server.Session.Receive.Messages.{header_of}

module _ (self : Session) (h0 h1 h2 h3 r0 r1 r2 r3 txn cmd tag app ip ip' gid : ℕ) (more : Mem)
    (later : List (Option Mem)) (ht : IsU16 txn) (ha : IsU16 app) (hg : IsU32 gid)
    (some_txn : txn ≢ 0) (known : self.uuid_received ≡ true)
    (no_class : cops_class_ok h2 h3 ≡ false) (no_class' : cops_class_ok r2 r3 ≡ false)
    (total : 60 + length more ≤ buffer_size) where
  -- The handle, the report type, and the header of the client-specific information.
  abbrev objects : Mem
  objects =
      0 ∷ 8 ∷ 1 ∷ 1 ∷ h0 ∷ h1 ∷ h2 ∷ h3 ∷ 0 ∷ 8 ∷ 12 ∷ 1 ∷ r0 ∷ r1 ∷ r2 ∷ r3 ∷ 0 ∷ 36 ∷ 9 ∷ 1 ∷ []

  abbrev report : Mem
  report = encode_all (ack_items txn cmd tag app ip ip' gid)

  abbrev rest : Mem
  rest = drop 60 (replicate buffer_size 0)

  abbrev buf : Mem
  buf = header_of 3 128 10 60 ++ (objects ++ (report ++ rest))

  abbrev file : ReportFile
  file = response_file txn (response_default gid (pcmm_otoact (u8 (u16 cmd))) app)

-- What the rest of a message is taken to never comes: on a closed connection every `recv` returns no
-- bytes, and the loop goes on for ever.
pub drain_unfinished :
    (n due : ℕ) (buf : Mem) → 0 < due → drain due buf (replicate n (some [])) ≡ unfinished
unfolding drain or_fault fill
drain_unfinished zero due buf h = refl
drain_unfinished (suc n) due buf h = rw (no_bytes due h) (drain_unfinished n due buf h)
  where
    no_bytes : (d : ℕ) → 0 < d → (0 == d) ≡ false
    no_bytes d k = ground arith
