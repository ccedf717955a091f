-- ===== src/Session/Report/Files.antt =====
-- The file that `ps_pcmm_report` of src/ps.c leaves for the reports a CMTS sends.
use pcmm_policy_server.Base.{
  ℕ, ◌+◌, ◌^◌, ◌≤◌, ◌<◌, ◌≡◌, ◌≢◌, refl, ap, ◌∙◌, Bool, true, false, some, List, [], ◌∷◌, ◌++◌,
  arith, ne→==, le→leb, length, drop-append, Mem, u8, u16, u32, IsU16, IsU32,
}
use pcmm_policy_server.Base.Text.{str, matches}
use pcmm_policy_server.Pack.Words.{be16, be32, unpack_u16-be16, unpack_n-be32}
use pcmm_policy_server.Pcmm.Names.{
  pcmm_otoact, pcmm_otoerr, pcmm_is_gateid, pcmm_is_gatespec, pcmm_is_classifier,
}
use pcmm_policy_server.Pcmm.Decode.{
  PcmmRpt, atog, pcmm_decode_transaction, pcmm_decode_application, pcmm_decode_error,
}
use pcmm_policy_server.Session.Report.{
  Seen, see_object, see_words, ended, orphan_entry, response_file, response_default, response_error,
  write_report, ps_pcmm_report, ps_pcmm_report_decision, finish_report, unseen, end_of,
}
use pcmm_policy_server.Session.Report.Walk.{
  walk_same, Item, encode_all, AllKnown, see_all, walk-encode_all,
}

abbrev pub words : ℕ → ℕ → ℕ → Item
words major a b = record { major = major; minor = 1; body = be16 a ++ be16 b }

abbrev pub gate_id_item : ℕ → Item
gate_id_item gid = record { major = 4; minor = 1; body = be32 gid }

-- Transaction, application, IPv4 subscriber and gate identifier: what acknowledges a gate command.
-- The subscriber's address is given as two words.
abbrev pub ack_items : ℕ → ℕ → ℕ → ℕ → ℕ → ℕ → ℕ → List Item
ack_items txn cmd tag app ip ip' gid =
    words 1 txn cmd ∷ words 2 tag app ∷ words 3 ip ip' ∷ gate_id_item gid ∷ []

-- Transaction, application, IPv4 subscriber and error object: what refuses a gate command.
abbrev pub error_items : ℕ → ℕ → ℕ → ℕ → ℕ → ℕ → ℕ → ℕ → List Item
error_items txn cmd tag app ip ip' code subc =
    words 1 txn cmd ∷ words 2 tag app ∷ words 3 ip ip' ∷ words 14 code subc ∷ []

-- The whole function over well-formed objects.
report-encode_all :
    (opens : Bool) (os : List Item) (front tail : Mem) (out : Seen)
    → AllKnown os
    → 0 < length (encode_all os)
    → length (encode_all os) + 4 < 2 ^ 16
    → length front + length (encode_all os) < 2 ^ 64
    → see_all os tail unseen ≡ some out
    → ps_pcmm_report
        (length os)
        opens
        (front ++ (encode_all os ++ tail))
        (length front)
        (length (encode_all os) + 4)
      ≡ finish_report opens (length front) (length (encode_all os) + 4) (ended out)
unfolding ps_pcmm_report
report-encode_all opens os front tail out known some_bytes short fits e =
    rw
      (
        end_same,
        ne→== (length (encode_all os)) 0 (omega arith),
        drop-append front (encode_all os ++ tail),
      )
      (ap (finish_report opens (length front) (length (encode_all os) + 4)) (
        walk_same (length os) unseen _ _ _ _ _ _ refl (omega arith) refl
        ∙ walk-encode_all os (length os) [] tail unseen out known (omega arith) (omega arith) e))
  where
    end_same : end_of (length (encode_all os) + 4) ≡ length (encode_all os)
    end_same = omega arith

see_object-words :
    (major a b : ℕ) (rest : Mem) (seen : Seen)
    → pcmm_is_gateid major 1 ≡ false
    → pcmm_is_gatespec major 1 ≡ false
    → pcmm_is_classifier major ≡ false
    → see_object major 1 (be16 a ++ (be16 b ++ rest)) seen
      ≡ some (see_words major (u16 a) (u16 b) seen)
unfolding see_object
see_object-words major a b rest seen no_id no_spec no_class =
    rw (no_id, no_spec, no_class, unpack_u16-be16 a (be16 b ++ rest), unpack_u16-be16 b rest) refl

see_object-gate_id :
    (gid : ℕ) (rest : Mem) (seen : Seen)
    → 4 ≤ length rest
    → see_object 4 1 (be32 gid ++ rest) seen
      ≡ some (record seen { rpt = record seen.rpt { gate_id = u32 gid } })
unfolding see_object atog pcmm_is_gateid
see_object-gate_id gid rest seen h =
    rw (le→leb 8 (length (be32 gid ++ rest)) (omega arith), unpack_n-be32 gid rest) refl

-- What the objects of an acknowledgement set.
abbrev pub acked : ℕ → ℕ → ℕ → ℕ → ℕ → PcmmRpt
acked txn cmd tag app gid = record unseen.rpt {
  transaction_id = u16 txn;
  gate_cmd = pcmm_otoact (u8 (u16 cmd));
  application_tag = u16 tag;
  application_id = u16 app;
  gate_id = u32 gid;
}

abbrev pub refused : ℕ → ℕ → ℕ → ℕ → ℕ → ℕ → PcmmRpt
refused txn cmd tag app code subc = record unseen.rpt {
  transaction_id = u16 txn;
  gate_cmd = pcmm_otoact (u8 (u16 cmd));
  application_tag = u16 tag;
  application_id = u16 app;
  packetcable_err_code = u16 code;
  packetcable_err_subcode = u16 subc;
  packetcable_err_descr = pcmm_otoerr (u8 (u16 code));
}

see_ack :
    (txn cmd tag app ip ip' gid : ℕ) (tail : Mem)
    → 4 ≤ length tail
    → see_all (ack_items txn cmd tag app ip ip' gid) tail unseen
      ≡ some (record unseen { rpt = acked txn cmd tag app gid })
unfolding see_words pcmm_decode_transaction pcmm_decode_application pcmm_is_gateid pcmm_is_gatespec
    pcmm_is_classifier
see_ack txn cmd tag app ip ip' gid tail h =
    rw
      (
        see_object-words 1 txn cmd
            (encode_all (words 2 tag app ∷ words 3 ip ip' ∷ gate_id_item gid ∷ []) ++ tail) unseen
            refl refl refl,
        see_object-words 2 tag app (encode_all (words 3 ip ip' ∷ gate_id_item gid ∷ []) ++ tail)
            (see_words 1 (u16 txn) (u16 cmd) unseen) refl refl refl,
        see_object-words 3 ip ip' (encode_all (gate_id_item gid ∷ []) ++ tail)
            (see_words 2 (u16 tag) (u16 app) (see_words 1 (u16 txn) (u16 cmd) unseen)) refl refl
            refl,
        see_object-gate_id gid tail
            (see_words 2 (u16 tag) (u16 app) (see_words 1 (u16 txn) (u16 cmd) unseen)) h,
      )
      refl

see_error :
    (txn cmd tag app ip ip' code subc : ℕ) (tail : Mem)
    → see_all (error_items txn cmd tag app ip ip' code subc) tail unseen
      ≡ some (record unseen { rpt = refused txn cmd tag app code subc })
unfolding see_words pcmm_decode_transaction pcmm_decode_application pcmm_decode_error pcmm_is_gateid
    pcmm_is_gatespec pcmm_is_classifier
see_error txn cmd tag app ip ip' code subc tail =
    rw
      (
        see_object-words 1 txn cmd
            (encode_all (words 2 tag app ∷ words 3 ip ip' ∷ words 14 code subc ∷ []) ++ tail) unseen
            refl refl refl,
        see_object-words 2 tag app (encode_all (words 3 ip ip' ∷ words 14 code subc ∷ []) ++ tail)
            (see_words 1 (u16 txn) (u16 cmd) unseen) refl refl refl,
        see_object-words 3 ip ip' (encode_all (words 14 code subc ∷ []) ++ tail)
            (see_words 2 (u16 tag) (u16 app) (see_words 1 (u16 txn) (u16 cmd) unseen)) refl refl
            refl,
        see_object-words 14 code subc tail
            (see_words 2 (u16 tag) (u16 app) (see_words 1 (u16 txn) (u16 cmd) unseen)) refl refl
            refl,
      )
      refl

u16_same : (v : ℕ) → IsU16 v → u16 v ≡ v
u16_same v h = omega arith

u32_same : (v : ℕ) → IsU32 v → u32 v ≡ v
u32_same v h = omega arith

module _ (txn cmd tag app ip ip' gid : ℕ) (front tail : Mem) (ht : IsU16 txn) (hg : IsU32 gid)
    (readable : 4 ≤ length tail) (fits : length front + 32 < 2 ^ 64) where
  ack_read :
      ps_pcmm_report 4 true
        (front ++ (encode_all (ack_items txn cmd tag app ip ip' gid) ++ tail))
        (length front)
        36
      ≡ finish_report true
          (length front)
          36
          (ended (record unseen { rpt = acked txn cmd tag app gid }))
  ack_read =
      report-encode_all true (ack_items txn cmd tag app ip ip' gid) front tail _
        (
          (refl, omega arith),
          ((refl, omega arith), ((refl, omega arith), ((refl, omega arith), record {}))),
        )
        (omega arith) (omega arith) (omega arith) (see_ack txn cmd tag app ip ip' gid tail readable)

  -- A report that acknowledges a gate command of a transaction other than 0, with four bytes or more
  -- behind it in the buffer, a file that opens and four turns of fuel: the index is moved past the
  -- report, and the file `yrpt_<transaction>` gets the gate identifier, the name of the command and
  -- the application.
  pub ps_pcmm_report-ack :
      IsU16 app
      → txn ≢ 0
      → ps_pcmm_report 4 true
          (front ++ (encode_all (ack_items txn cmd tag app ip ip' gid) ++ tail))
          (length front)
          36
        ≡ ended (
          length front + 32,
          some (response_file txn (response_default gid (pcmm_otoact (u8 (u16 cmd))) app)),
        )
  ps_pcmm_report-ack ha some_txn =
      ack_read
      ∙ unfold finish_report ps_pcmm_report_decision write_report matches in
        rw (u16_same txn ht, u16_same app ha, u32_same gid hg, ne→== txn 0 some_txn)
          (ap
            (λ p.
              ended (
                p,
                some (response_file txn (response_default gid (pcmm_otoact (u8 (u16 cmd))) app)),
              ))
            (omega arith))

  -- Such a report without a transaction, for a gate identifier other than 0: the index is moved past
  -- it, and the gate goes to the file of orphans.
  pub ps_pcmm_report-orphan :
      txn ≡ 0
      → gid ≢ 0
      → ps_pcmm_report 4 true
          (front ++ (encode_all (ack_items txn cmd tag app ip ip' gid) ++ tail))
          (length front)
          36
        ≡ ended (length front + 32, some (orphan_entry gid (pcmm_otoact (u8 (u16 cmd)))))
  ps_pcmm_report-orphan no_txn some_gid =
      ack_read
      ∙ unfold finish_report ps_pcmm_report_decision in
        rw (u16_same txn ht, no_txn, u32_same gid hg, ne→== gid 0 some_gid)
          (ap (λ p. ended (p, some (orphan_entry gid (pcmm_otoact (u8 (u16 cmd)))))) (omega arith))

-- A report that refuses a gate command of a transaction other than 0 with an error code that has a
-- name, made of the transaction, the application, an IPv4 subscriber and the error, with a file that
-- opens and four turns of fuel: the index is moved past the report, and the file
-- `yrpt_<transaction>` gets the error's code, subcode and name.
pub ps_pcmm_report-error :
    (txn cmd tag app ip ip' code subc : ℕ) (front tail : Mem)
    → IsU16 txn
    → IsU16 code
    → IsU16 subc
    → length front + 32 < 2 ^ 64
    → txn ≢ 0
    → matches (str (pcmm_otoerr (u8 code))) (str "NIL") ≡ false
    → ps_pcmm_report 4 true
        (front ++ (encode_all (error_items txn cmd tag app ip ip' code subc) ++ tail))
        (length front)
        36
      ≡ ended (
        length front + 32,
        some (
            response_file txn
              (response_error 0 (pcmm_otoact (u8 (u16 cmd))) code subc (pcmm_otoerr (u8 code)))),
      )
ps_pcmm_report-error txn cmd tag app ip ip' code subc front tail ht hc hs fits some_txn named =
    report-encode_all true (error_items txn cmd tag app ip ip' code subc) front tail _
      (
        (refl, omega arith),
        ((refl, omega arith), ((refl, omega arith), ((refl, omega arith), record {}))),
      )
      (omega arith) (omega arith) (omega arith) (see_error txn cmd tag app ip ip' code subc tail)
    ∙ in_file
  where
    in_file :
        finish_report true
          (length front)
          36
          (ended (record unseen { rpt = refused txn cmd tag app code subc }))
        ≡ ended (
          length front + 32,
          some (
              response_file txn
                (response_error 0 (pcmm_otoact (u8 (u16 cmd))) code subc (pcmm_otoerr (u8 code)))),
        )
    in_file =
        unfold finish_report ps_pcmm_report_decision write_report matches in
        rw (u16_same txn ht, u16_same code hc, u16_same subc hs, ne→== txn 0 some_txn, named)
          (ap
            (λ p. ended (
              p,
              some (
                  response_file txn (
                    response_error 0 (pcmm_otoact (u8 (u16 cmd))) code subc
                      (pcmm_otoerr (u8 code)))),
            ))
            (omega arith))
