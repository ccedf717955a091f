-- ===== src/Api/Policy/Encode.antt =====
-- What the classifiers of a request become, one behind the other: the bytes that
-- `gctl_read_policy` of src/api/routes.c is to put in its buffer, told without the buffer.
use pcmm_policy_server.Base.{
  ℕ, zero, suc, ◌+◌, ◌≡◌, refl, Bool, ◌&&◌, Option, none, some, [], ◌∷◌, ◌++◌, ◌==◌, if◌then◌else◌,
  length, Mem,
}
use pcmm_policy_server.Base.Fault.{◌>>=◌}
use pcmm_policy_server.Base.Text.{Str, str}
use pcmm_policy_server.Iputil.{Inet, ip4_toi, tokens}
use pcmm_policy_server.Iputil.Groups.{group_bytes}
use pcmm_policy_server.Pcmm.Classifier.{dst_toi, packed_prefixlen}
use pcmm_policy_server.Pcmm.Classifier.Layout.{legacy_bytes, extended_bytes, ipv6_bytes}
use pcmm_policy_server.Api.Json.{Yyjson, gctl_otos, gctl_otoi}
use pcmm_policy_server.Api.Policy.{
  ClassifierType, extended_classifier, default_classifier, ipv6_classifier, first_given,
  find_classifier,
}

-- Two addresses of eight groups each.
abbrev pub eight_groups : Str → Str → Bool
eight_groups src dst = length (tokens [] src) == 8 && length (tokens [] dst) == 8

-- A priority that is missing or 0 is 64.
abbrev default_priority : ℕ → ℕ
default_priority priority = if priority == 0 then 64 else priority

module _ {Val : Type 0} (json : Yyjson Val) (inet : Inet) where
  -- The bytes of a classifier, for IPv4 addresses that `inet_pton` reads and IPv6 addresses of eight
  -- groups. The bytes at the end that the program does not write are zero.
  abbrev pub classifier_bytes : ClassifierType → Option Val → Option Val → Option Mem
  classifier_bytes default_classifier element obj = do
    src ← ip4_toi inet (gctl_otos json obj (str "srcIp"))
    dst ← dst_toi inet (gctl_otos json obj (str "dstIp"))
    some (
        legacy_bytes (gctl_otoi json obj (str "protocol")) (gctl_otoi json obj (str "tos-byte"))
          (gctl_otoi json obj (str "tos-mask")) src dst (gctl_otoi json obj (str "srcPort-start"))
          (gctl_otoi json obj (str "dstPort-start"))
          (default_priority (gctl_otoi json obj (str "priority"))) 0)
  classifier_bytes extended_classifier element obj = do
    src ← ip4_toi inet (gctl_otos json obj (str "srcIp"))
    dst ← dst_toi inet (gctl_otos json obj (str "dstIp"))
    smask ← ip4_toi inet (gctl_otos json obj (str "srcIpMask"))
    dmask ← ip4_toi inet (gctl_otos json obj (str "dstIpMask"))
    some (
        extended_bytes (gctl_otoi json obj (str "protocol")) (gctl_otoi json obj (str "tos-byte"))
          (gctl_otoi json obj (str "tos-mask")) src smask dst dmask
          (gctl_otoi json obj (str "srcPort-start")) (gctl_otoi json obj (str "srcPort-end"))
          (gctl_otoi json obj (str "dstPort-start")) (gctl_otoi json obj (str "dstPort-end"))
          (gctl_otoi json element (str "classifier-id"))
          (default_priority (gctl_otoi json obj (str "priority")))
          (gctl_otoi json obj (str "activation-state")) (gctl_otoi json obj (str "action"))
        ++ (0 ∷ 0 ∷ 0 ∷ []))
  classifier_bytes ipv6_classifier element obj = do
    src ← gctl_otos json obj (str "srcIp6")
    dst ← gctl_otos json obj (str "dstIp6")
    if eight_groups src dst
        then some (
            ipv6_bytes (gctl_otoi json obj (str "tc-low")) (gctl_otoi json obj (str "tc-high"))
              (gctl_otoi json obj (str "tc-mask")) (gctl_otoi json obj (str "flow-label"))
              (gctl_otoi json obj (str "next-hdr")) (packed_prefixlen src) (packed_prefixlen dst)
              (group_bytes (tokens [] src)) (group_bytes (tokens [] dst))
              (gctl_otoi json obj (str "srcPort-start")) (gctl_otoi json obj (str "srcPort-end"))
              (gctl_otoi json obj (str "dstPort-start")) (gctl_otoi json obj (str "dstPort-end"))
              (gctl_otoi json element (str "classifier-id"))
              (default_priority (gctl_otoi json obj (str "priority")))
              (gctl_otoi json obj (str "activation-state")) (gctl_otoi json obj (str "action"))
            ++ (0 ∷ 0 ∷ 0 ∷ []))
        else none

  -- The bytes of an element of the array: of the classifier under the first of the three names that
  -- it has; none if it has none of them.
  abbrev pub named_bytes : Option Val → Option Val → Option Val → Option Val → Option Mem
  named_bytes (some obj) legacy ip6 element =
      classifier_bytes extended_classifier element (some obj)
  named_bytes none (some obj) ip6 element = classifier_bytes default_classifier element (some obj)
  named_bytes none none (some obj) element = classifier_bytes ipv6_classifier element (some obj)
  named_bytes none none none element = none

  abbrev pub element_bytes : Option Val → Option Mem
  element_bytes element =
      named_bytes (json.obj_get element (str "ext-classifier"))
        (json.obj_get element (str "classifier")) (json.obj_get element (str "ipv6-classifier"))
        element

  -- The bytes of `left` elements from element `i` on.
  unfoldable pub array_bytes : ℕ → ℕ → Option Val → Option Mem
  array_bytes zero i classifiers = some []
  array_bytes (suc left) i classifiers = do
    here ← element_bytes (json.arr_get classifiers i)
    there ← array_bytes left (i + 1) classifiers
    some (here ++ there)

  -- The bytes of a classifier that the program has found.
  abbrev pub found_bytes : Option (ClassifierType × Val) → Option Val → Option Mem
  found_bytes none element = none
  found_bytes (some (type, obj)) element = classifier_bytes type element (some obj)

  named_bytes-first_given :
      (ext legacy ip6 element : Option Val)
      → found_bytes (first_given ext legacy ip6) element ≡ named_bytes ext legacy ip6 element
  named_bytes-first_given (some obj) legacy ip6 element = refl
  named_bytes-first_given none (some obj) ip6 element = refl
  named_bytes-first_given none none (some obj) element = refl
  named_bytes-first_given none none none element = refl

  -- The program finds the classifier that the bytes are of.
  pub element_bytes-find_classifier :
      (element : Option Val)
      → found_bytes (find_classifier json element) element ≡ element_bytes element
  element_bytes-find_classifier element =
      named_bytes-first_given (json.obj_get element (str "ext-classifier"))
        (json.obj_get element (str "classifier")) (json.obj_get element (str "ipv6-classifier"))
        element
