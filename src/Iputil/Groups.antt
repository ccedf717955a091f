-- ===== src/Iputil/Groups.antt =====
-- What `pack_ip6` of src/lib/iputil.c makes of the groups of an address.
use pcmm_policy_server.Base.{
  ℕ, ◌+◌, ◌*◌, ◌≡◌, refl, ap, List, [], ◌∷◌, ◌++◌, arith, low_bits, ◌>>>◌, Stores, Stores-poke,
  Stores-then, Stores-then_done,
}
use pcmm_policy_server.Pack.Words.{be16}
use pcmm_policy_server.Base.Text.{Str}
use pcmm_policy_server.Iputil.{tokens, pack_groups, pack_tokens, pack_ip6, strtoul16}

-- Two bytes for each group.
abbrev pub group_bytes : List Str → List ℕ
group_bytes [] = []
group_bytes (t ∷ ts) = be16 (strtoul16 t) ++ group_bytes ts

group_lem : (v : ℕ) → low_bits (v >>> 8) 8 ∷ low_bits v 8 ∷ [] ≡ be16 v
group_lem v = ground arith

pack_groups-Stores :
    (i : ℕ) (t : Str) (ts : List Str)
    → Stores (2 * i) (group_bytes (t ∷ ts)) (pack_groups i (t ∷ ts))
unfolding pack_groups
pack_groups-Stores i t [] =
    rw (← group_lem (strtoul16 t))
      (Stores-then (Stores-poke (2 * i) _) (Stores-then_done (Stores-poke (2 * i + 1) _)) refl)
pack_groups-Stores i t (u ∷ us) =
    (Stores-then (Stores-poke (2 * i) _)
      (Stores-then (Stores-poke (2 * i + 1) _) (pack_groups-Stores (i + 1) u us) (omega arith))
      refl)

-- The tokens between the colons are written one behind the other, two bytes each, from the front.
pub pack_ip6-Stores :
    (ip6 t : Str) (ts : List Str)
    → tokens [] ip6 ≡ t ∷ ts
    → Stores 0 (group_bytes (t ∷ ts)) (pack_ip6 ip6)
unfolding pack_ip6
pack_ip6-Stores ip6 t ts e = rw e (pack_groups-Stores 0 t ts)

tokens_compressed :
    (cur a b : Str) → tokens cur (a ++ (b':' ∷ b':' ∷ b)) ≡ tokens cur (a ++ (b':' ∷ b))
unfolding tokens
tokens_compressed cur [] b = refl
tokens_compressed cur (c ∷ a) b =
    ground (arith, tokens_compressed [] a b, tokens_compressed (c ∷ cur) a b)

-- `::` means no more than `:`. The groups of zeros that it stands for are not written, so the
-- groups behind it land at the place of the zeros.
pub pack_ip6_compressed :
    (a b : Str) → pack_ip6 (a ++ (b':' ∷ b':' ∷ b)) ≡ pack_ip6 (a ++ (b':' ∷ b))
unfolding pack_ip6
pack_ip6_compressed a b = ap pack_tokens (tokens_compressed [] a b)
