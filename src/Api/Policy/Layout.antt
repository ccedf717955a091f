-- ===== src/Api/Policy/Layout.antt =====
-- `gctl_read_policy` of src/api/routes.c fills the buffer of the classifiers without gaps.
use mathlib.Core.Option.{none-ne-some, some-injective}
use pcmm_policy_server.Base.{
  ℕ, ◌+◌, ◌*◌, ◌≡◌, refl, sym, ◌∙◌, true, Option, none, some, List, [], ◌∷◌, ◌++◌, arith, length,
  length-append, Mem, Writer, at, replicate, length-replicate, replicate-append, append_assoc,
  Stores, Stores-fits, Stores-at, Begins, fill,
}
use pcmm_policy_server.Base.Fault.{◌>>=◌, guard-some, then-some}
use pcmm_policy_server.Base.Text.{Str, str}
use pcmm_policy_server.Pack.{pack_u16_be}
use pcmm_policy_server.Pack.Words.{pack_u16_be-Stores}
use pcmm_policy_server.Iputil.Groups.{group_bytes}
use pcmm_policy_server.Iputil.{Inet, ip4_toi, tokens}
use pcmm_policy_server.Pcmm.Classifier.{
  dst_toi, pcmm_legacy_classifier, pcmm_extended_classifier, pcmm_ipv6_classifier,
}
use pcmm_policy_server.Pcmm.Classifier.Layout.{
  legacy_fields-Stores, extended_fields-Stores, ipv6_fields-Begins,
}
use pcmm_policy_server.Api.Json.{Yyjson, gctl_otos}
use pcmm_policy_server.Api.Policy.{
  ClassifierType, extended_classifier, default_classifier, ipv6_classifier, size_of,
  write_classifier,
}
use pcmm_policy_server.Api.Policy.Encode.{eight_groups, classifier_bytes}

abbrev zeros : ℕ → Mem
zeros n = replicate n 0

-- `w` fills a cleared block of `n` bytes with `bs`, and leaves what follows it.
pub record FillsBlock (n : ℕ) (bs : Mem) (w : Writer) : Type 0 where
  pub sized : length bs ≡ n
  pub fills : (rest : Mem) → w (zeros n ++ rest) ≡ some (bs ++ rest)

-- A writer that stores `bs` at the front, with `k` cleared bytes behind them.
block_of_Stores :
    {bs : Mem} {w : Writer} (n k : ℕ)
    → Stores 0 bs w
    → length bs ≡ n
    → FillsBlock (n + k) (bs ++ zeros k) w
block_of_Stores {bs} {w} n k h e = record {
  sized = omega (arith, length-append bs (zeros k), length-replicate {A = ℕ} k 0);
  fills = λ rest.
      rw (replicate-append {A = ℕ} n k 0, append_assoc, append_assoc)
        (Stores-fits h [] (zeros n) (zeros k ++ rest) refl
          (omega (arith, length-replicate {A = ℕ} n 0)));
}

same_block : {n : ℕ} {bs bs' : Mem} {w : Writer} → bs ≡ bs' → FillsBlock n bs w → FillsBlock n bs' w
same_block e h = rw (← e) h

-- The IPv6 classifier leaves the byte at 61 and clears the two at 62.
block_of_Begins :
    {bs : Mem} {w : Writer}
    → Begins 0 bs w (at 62 (pack_u16_be 0))
    → length bs ≡ 61
    → FillsBlock 64 (bs ++ zeros 3) w
block_of_Begins {bs} {w} h e = record {
  sized = omega (arith, length-append bs (zeros 3));
  fills = λ rest.
      h.goes_on (zeros 64 ++ rest)
      ∙ (then-some (at 0 (fill bs)) (at 62 (pack_u16_be 0)) (zeros 64 ++ rest) _ (first rest)
          ∙ second rest);
}
  where
    stored : Stores 0 bs (at 0 (fill bs))
    stored = record { runs = λ m. refl }

    first : (rest : Mem) → at 0 (fill bs) (zeros 64 ++ rest) ≡ some (bs ++ (zeros 3 ++ rest))
    first rest = Stores-fits stored [] (zeros 61) (zeros 3 ++ rest) refl (sym e)

    second :
        (rest : Mem)
        → at 62 (pack_u16_be 0) (bs ++ (zeros 3 ++ rest)) ≡ some ((bs ++ zeros 3) ++ rest)
    second rest =
        rw (append_assoc, ← append_assoc bs (0 ∷ []) (zeros 2 ++ rest))
          (Stores-fits (Stores-at 62 (pack_u16_be-Stores 0)) (bs ++ (0 ∷ [])) (zeros 2) rest
            (omega (arith, length-append bs (0 ∷ []))) refl)

length-group_bytes : (ts : List Str) → length (group_bytes ts) ≡ 2 * length ts
length-group_bytes [] = refl
length-group_bytes (t ∷ ts) = omega (arith, length-group_bytes ts)

eight_tokens :
    (ts : List Str)
    → length ts ≡ 8
    → (a a1 a2 a3 a4 a5 a6 a7 : Str) × (ts ≡ a ∷ a1 ∷ a2 ∷ a3 ∷ a4 ∷ a5 ∷ a6 ∷ a7 ∷ [])
eight_tokens (a ∷ a1 ∷ a2 ∷ a3 ∷ a4 ∷ a5 ∷ a6 ∷ a7 ∷ []) e = (a, a1, a2, a3, a4, a5, a6, a7, refl)
eight_tokens [] e = absurd (omega arith)
eight_tokens (a ∷ []) e = absurd (omega arith)
eight_tokens (a ∷ b ∷ []) e = absurd (omega arith)
eight_tokens (a ∷ b ∷ c ∷ []) e = absurd (omega arith)
eight_tokens (a ∷ b ∷ c ∷ d ∷ []) e = absurd (omega arith)
eight_tokens (a ∷ b ∷ c ∷ d ∷ f ∷ []) e = absurd (omega arith)
eight_tokens (a ∷ b ∷ c ∷ d ∷ f ∷ g ∷ []) e = absurd (omega arith)
eight_tokens (a ∷ b ∷ c ∷ d ∷ f ∷ g ∷ h ∷ []) e = absurd (omega arith)
eight_tokens (a ∷ b ∷ c ∷ d ∷ f ∷ g ∷ h ∷ i ∷ j ∷ ts) e = absurd (omega arith)

eight_groups-tokens :
    (src dst : Str)
    → eight_groups src dst ≡ true
    → (length (tokens [] src) ≡ 8) × (length (tokens [] dst) ≡ 8)
eight_groups-tokens src dst h = ground arith

-- A step that reads a value, then a writer that fills a block for the value.
bind_block {ℓ} :
    {A : Type ℓ} {n : ℕ} (p : Option A) (f : A → Option Mem) (w : A → Writer) (bs : Mem)
    → (p >>= f) ≡ some bs
    → ((a : A) → f a ≡ some bs → FillsBlock n bs (w a))
    → FillsBlock n bs (λ m. p >>= λ a. w a m)
bind_block none f w bs h k = absurd (none-ne-some bs h)
bind_block (some a) f w bs h k = k a h

module _ {Val : Type 0} (json : Yyjson Val) (inet : Inet) (element obj : Option Val) where
  legacy_block :
      (bs : Mem)
      → classifier_bytes json inet default_classifier element obj ≡ some bs
      → FillsBlock 24 bs (write_classifier json inet default_classifier element obj)
  unfolding write_classifier pcmm_legacy_classifier
  legacy_block bs h =
      bind_block (ip4_toi inet (gctl_otos json obj (str "srcIp"))) _ _ bs h λ src h1.
        bind_block (dst_toi inet (gctl_otos json obj (str "dstIp"))) _ _ bs h1 λ dst h2.
          let e = some-injective _ _ h2 in
          rw (← e) (block_of_Stores 24 0 (legacy_fields-Stores _ _ _ src dst _ _ _ _) refl)

  extended_block :
      (bs : Mem)
      → classifier_bytes json inet extended_classifier element obj ≡ some bs
      → FillsBlock 40 bs (write_classifier json inet extended_classifier element obj)
  unfolding write_classifier pcmm_extended_classifier
  extended_block bs h =
      bind_block (ip4_toi inet (gctl_otos json obj (str "srcIp"))) _ _ bs h λ src h1.
        bind_block (dst_toi inet (gctl_otos json obj (str "dstIp"))) _ _ bs h1 λ dst h2.
          bind_block (ip4_toi inet (gctl_otos json obj (str "srcIpMask"))) _ _ bs h2 λ smask h3.
            bind_block (ip4_toi inet (gctl_otos json obj (str "dstIpMask"))) _ _ bs h3 λ dmask h4.
              let e = some-injective _ _ h4 in
              rw (← e) (
                block_of_Stores 37 3
                  (extended_fields-Stores _ _ _ src smask dst dmask _ _ _ _ _ _ _ _) refl)

  ipv6_block :
      (bs : Mem)
      → classifier_bytes json inet ipv6_classifier element obj ≡ some bs
      → FillsBlock 64 bs (write_classifier json inet ipv6_classifier element obj)
  unfolding write_classifier pcmm_ipv6_classifier
  ipv6_block bs h = bind_block (gctl_otos json obj (str "srcIp6")) _ _ bs h λ src h1.
      bind_block (gctl_otos json obj (str "dstIp6")) _ _ bs h1 λ dst h2.
        let (eight, e) = guard-some (eight_groups src dst) _ bs h2 in
        let (es, ed) = eight_groups-tokens src dst eight in
        let (a, a1, a2, a3, a4, a5, a6, a7, ea) = eight_tokens (tokens [] src) es in
        let (b, b1, b2, b3, b4, b5, b6, b7, eb) = eight_tokens (tokens [] dst) ed in
        same_block e (
          block_of_Begins
            (ipv6_fields-Begins _ _ _ _ _ src dst a a1 a2 a3 a4 a5 a6 a7 b b1 b2 b3 b4 b5 b6 b7 _ _
              _ _ _ _ _ _ ea eb)
            (omega (
              arith,
              length-append (group_bytes (tokens [] src)),
              length-append (group_bytes (tokens [] dst)),
              length-group_bytes (tokens [] src),
              length-group_bytes (tokens [] dst),
            )))

  pub classifier_block :
      (type : ClassifierType) (bs : Mem)
      → classifier_bytes json inet type element obj ≡ some bs
      → FillsBlock (size_of type) bs (write_classifier json inet type element obj)
  classifier_block default_classifier = legacy_block
  classifier_block extended_classifier = extended_block
  classifier_block ipv6_classifier = ipv6_block
