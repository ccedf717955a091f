-- ===== src/Api/Policy/Buffers.antt =====
-- The buffers that `gctl_read_policy` of src/api/routes.c leaves for a request it accepts.
use mathlib.Core.Option.{none-ne-some, some-injective}
use pcmm_policy_server.Base.{
  ℕ, zero, suc, ◌+◌, ◌-◌, ◌≤◌, ◌≡◌, sym, ap, ◌∙◌, Option, none, some, ◌++◌, arith, length,
  length-append, Mem, Writer, at, replicate, replicate-append, append_assoc, append-nil, at-append,
}
use pcmm_policy_server.Base.Fault.{bind-some}
use pcmm_policy_server.Iputil.{Inet}
use pcmm_policy_server.Session.{Gctl}
use pcmm_policy_server.Api.Json.{Yyjson}
use pcmm_policy_server.Api.Policy.{
  Policy, ClassifierType, size_of, find_classifier, read_classifier, read_classifiers,
}
use pcmm_policy_server.Api.Policy.Encode.{
  found_bytes, element_bytes, element_bytes-find_classifier, array_bytes,
}
use pcmm_policy_server.Api.Policy.Layout.{FillsBlock, classifier_block}

-- The state of the loop: `written` stands in the buffer, `room` cleared bytes follow.
abbrev pub filled : Gctl → Mem → Mem → ℕ → Policy
filled gc envelope written room = record {
  gc = record gc { classifier_size = length written };
  classifier = written ++ replicate room 0;
  envelope = envelope;
}

filled_same :
    (gc : Gctl) (envelope : Mem) (written : Mem) (room : ℕ) {size : ℕ} {buffer : Mem}
    → size ≡ length written
    → buffer ≡ written ++ replicate room 0
    → ◌≡◌ {A = Policy}
        (record {
          gc = record gc { classifier_size = size };
          classifier = buffer;
          envelope = envelope;
        })
        (filled gc envelope written room)
filled_same gc envelope written room e e' = cc

filled_ap :
    (gc : Gctl) (envelope : Mem) {written written' : Mem} {room room' : ℕ}
    → written ≡ written'
    → room ≡ room'
    → some (filled gc envelope written room) ≡ some (filled gc envelope written' room')
filled_ap gc envelope e e' = cc

module _ {Val : Type 0} (json : Yyjson Val) (inet : Inet) (gc : Gctl) (envelope : Mem) where
  write_block :
      (n room : ℕ) (written bs : Mem) (w : Writer)
      → FillsBlock n bs w
      → n ≤ room
      → at (length written) w (written ++ replicate room 0)
        ≡ some (written ++ (bs ++ replicate (room - n) 0))
  write_block n room written bs w block fits = at-append written (replicate room 0) w _ (
      ap (λ k. w (replicate k 0)) split
      ∙ rw (replicate-append {A = ℕ} n (room - n) 0) (block.fills _))
    where
      split : room ≡ n + (room - n)
      split = omega arith

  read_element :
      (found : Option (ClassifierType × Val)) (element : Option Val) (next : Policy → Option Policy)
      (written bs : Mem) (room : ℕ)
      → found_bytes json inet found element ≡ some bs
      → length bs ≤ room
      → read_classifier json inet found element (filled gc envelope written room) next
        ≡ next (filled gc envelope (written ++ bs) (room - length bs))
  unfolding read_classifier
  read_element none element next written bs room h fits = absurd (none-ne-some bs h)
  read_element (some (type, obj)) element next written bs room h fits =
      let block = classifier_block json inet element (some obj) type bs h in
      rw
        (
          write_block (size_of type) room written bs _ block (omega (arith, block.sized)),
          block.sized,
        )
        (ap next (
          filled_same gc envelope (written ++ bs) (room - size_of type)
            (omega (arith, length-append written bs, block.sized))
            (sym (append_assoc written bs (replicate (room - size_of type) 0)))))

  -- The rest of the array goes behind what is written.
  pub read_classifiers-fills :
      (left i : ℕ) (classifiers : Option Val) (written bs : Mem) (room : ℕ)
      → array_bytes json inet left i classifiers ≡ some bs
      → length bs ≤ room
      → read_classifiers json inet left i classifiers (filled gc envelope written room)
        ≡ some (filled gc envelope (written ++ bs) (room - length bs))
  unfolding read_classifiers array_bytes
  read_classifiers-fills zero i classifiers written bs room h fits =
      let e = some-injective _ _ h in
      filled_ap gc envelope (rw (← e) (sym (append-nil written))) (omega (arith, ap length e))
  read_classifiers-fills (suc left) i classifiers written bs room h fits =
      let element = json.arr_get classifiers i in
      let (here, e, h') = bind-some (element_bytes json inet element) _ bs h in
      let (there, e', h'') = bind-some (array_bytes json inet left (i + 1) classifiers) _ bs h' in
      let whole = some-injective _ _ h'' in
      let total : length here + length there ≡ length bs =
        sym (length-append here there) ∙ ap length whole in
      read_element (find_classifier json element) element _ written here room
        (element_bytes-find_classifier json inet element ∙ e) (omega arith)
      ∙ (read_classifiers-fills left (i + 1) classifiers (written ++ here) there
            (room - length here) e' (omega arith)
          ∙ filled_ap gc envelope (append_assoc written here there ∙ ap (λ v. written ++ v) whole)
              (omega arith))
