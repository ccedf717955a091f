-- ===== src/Pcmm/Classifier/Layout.antt =====
-- The bytes of the classifiers of src/pcl/pcmm.c.
use pcmm_policy_server.Base.{
  ℕ, ◌+◌, ◌%◌, ◌≡◌, true, List, [], ◌∷◌, ◌++◌, arith, u8, u16, at, Stores, Stores-at, Stores-poke,
  ◌⨟◌, ◌⨟…◌, Begins, Begins-last,
}
use pcmm_policy_server.Base.Text.{Str, str, eq_of_matches}
use pcmm_policy_server.Pack.{pack_u8, pack_u16_be, pack_u32_be}
use pcmm_policy_server.Pack.Words.{
  be16, be32, pack_u8-Stores, pack_u16_be-Stores, pack_u32_be-Stores,
}
use pcmm_policy_server.Iputil.{tokens}
use pcmm_policy_server.Iputil.Groups.{group_bytes, pack_ip6-Stores}
use pcmm_policy_server.Pcmm.Classifier.{
  legacy_fields, extended_fields, ipv6_fields, wants_address, packed_prefixlen,
}

u8_at : (k v : ℕ) → Stores (k + 0) (v % 256 ∷ []) (at k (pack_u8 v))
u8_at k v = Stores-at k (pack_u8-Stores v)

u16_at : (k v : ℕ) → Stores (k + 0) (be16 v) (at k (pack_u16_be v))
u16_at k v = Stores-at k (pack_u16_be-Stores v)

u32_at : (k v : ℕ) → Stores (k + 0) (be32 v) (at k (pack_u32_be v))
u32_at k v = Stores-at k (pack_u32_be-Stores v)

abbrev pub legacy_bytes : ℕ → ℕ → ℕ → ℕ → ℕ → ℕ → ℕ → ℕ → ℕ → List ℕ
legacy_bytes protocol field mask src dst sport dport priority reserved =
    0
    ∷ 24
    ∷ 6
    ∷ 1
    ∷ (be16 (u16 protocol)
        ++ (field % 256
            ∷ mask % 256
            ∷ (be32 src
                ++ be32 dst
                ++ be16 sport
                ++ be16 dport
                ++ (priority % 256 ∷ reserved % 256 ∷ reserved % 256 ∷ reserved % 256 ∷ []))))

-- All that the legacy classifier writes: its fields one behind the other, big-endian, in 24 bytes.
pub legacy_fields-Stores :
    (protocol field mask src dst sport dport priority reserved : ℕ)
    → Stores 0
        (legacy_bytes protocol field mask src dst sport dport priority reserved)
        (legacy_fields protocol field mask src dst sport dport priority reserved)
unfolding legacy_fields
legacy_fields-Stores protocol field mask src dst sport dport priority reserved =
    u16_at 0 24
    ⨟ u8_at 2 6
    ⨟ u8_at 3 1
    ⨟ u16_at 4 (u16 protocol)
    ⨟ u8_at 6 field
    ⨟ u8_at 7 mask
    ⨟ u32_at 8 src
    ⨟ u32_at 12 dst
    ⨟ u16_at 16 sport
    ⨟ u16_at 18 dport
    ⨟ u8_at 20 priority
    ⨟ u8_at 21 reserved
    ⨟ u8_at 22 reserved
    ⨟ u8_at 23 reserved

abbrev pub extended_bytes : ℕ → ℕ → ℕ → ℕ → ℕ → ℕ → ℕ → ℕ → ℕ → ℕ → ℕ → ℕ → ℕ → ℕ → ℕ → List ℕ
extended_bytes protocol field mask src smask dst dmask sps spe dps dpe cid priority state action =
    0
    ∷ 40
    ∷ 6
    ∷ 2
    ∷ (be16 (u16 protocol)
        ++ (field % 256
            ∷ mask % 256
            ∷ (be32 src
                ++ be32 smask
                ++ be32 dst
                ++ be32 dmask
                ++ be16 sps
                ++ be16 spe
                ++ be16 dps
                ++ be16 dpe
                ++ be16 cid
                ++ (priority % 256 ∷ state % 256 ∷ action % 256 ∷ []))))

-- All that the extended classifier writes: its fields one behind the other, big-endian, in 37 of the
-- 40 bytes that the header announces; the last three keep what the buffer held.
pub extended_fields-Stores :
    (protocol field mask src smask dst dmask sps spe dps dpe cid priority state action : ℕ)
    → Stores 0
        (extended_bytes protocol field mask src smask dst dmask sps spe dps dpe cid priority state
          action)
        (extended_fields protocol field mask src smask dst dmask sps spe dps dpe cid priority state
          action)
unfolding extended_fields
extended_fields-Stores protocol field mask src smask dst dmask sps spe dps dpe cid priority state
      action =
    u16_at 0 40
    ⨟ u8_at 2 6
    ⨟ u8_at 3 2
    ⨟ u16_at 4 (u16 protocol)
    ⨟ u8_at 6 field
    ⨟ u8_at 7 mask
    ⨟ u32_at 8 src
    ⨟ u32_at 12 smask
    ⨟ u32_at 16 dst
    ⨟ u32_at 20 dmask
    ⨟ u16_at 24 sps
    ⨟ u16_at 26 spe
    ⨟ u16_at 28 dps
    ⨟ u16_at 30 dpe
    ⨟ u16_at 32 cid
    ⨟ u8_at 34 priority
    ⨟ u8_at 35 state
    ⨟ u8_at 36 action

-- The test before `pack_ip6` never fails: no text is both "0.0.0.0" and "::/0".
pub wants_address-eq-true : (ip6 : Str) → wants_address ip6 ≡ true
unfolding wants_address
wants_address-eq-true ip6 =
    ground (arith, eq_of_matches ip6 (str "0.0.0.0"), eq_of_matches ip6 (str "::/0"))

-- The first 61 bytes of the IPv6 classifier, for addresses of eight groups.
abbrev pub ipv6_bytes :
    ℕ → ℕ → ℕ → ℕ → ℕ → ℕ → ℕ → List ℕ → List ℕ → ℕ → ℕ → ℕ → ℕ → ℕ → ℕ → ℕ → ℕ → List ℕ
ipv6_bytes low high mask label nh sprefix dprefix src dst sps spe dps dpe cid priority state
      action =
    0
    ∷ 64
    ∷ 6
    ∷ 3
    ∷ 0
    ∷ low % 256
    ∷ high % 256
    ∷ mask % 256
    ∷ (be32 label
        ++ be16 nh
        ++ (sprefix % 256
            ∷ dprefix % 256
            ∷ (src
                ++ (dst
                    ++ (be16 sps
                        ++ be16 spe
                        ++ be16 dps
                        ++ be16 dpe
                        ++ be16 cid
                        ++ (priority % 256 ∷ state % 256 ∷ action % 256 ∷ []))))))

-- For addresses of eight groups each, the IPv6 classifier begins with its fields one behind the
-- other in 61 bytes; then only the two bytes at 62 are written.
pub ipv6_fields-Begins :
    (low high mask label nh : ℕ) (src dst a a1 a2 a3 a4 a5 a6 a7 b b1 b2 b3 b4 b5 b6 b7 : Str)
    (sps spe dps dpe cid priority state action : ℕ)
    → tokens [] src ≡ a ∷ a1 ∷ a2 ∷ a3 ∷ a4 ∷ a5 ∷ a6 ∷ a7 ∷ []
    → tokens [] dst ≡ b ∷ b1 ∷ b2 ∷ b3 ∷ b4 ∷ b5 ∷ b6 ∷ b7 ∷ []
    → Begins 0
        (ipv6_bytes low high mask label nh
          (packed_prefixlen src)
          (packed_prefixlen dst)
          (group_bytes (tokens [] src))
          (group_bytes (tokens [] dst))
          sps
          spe
          dps
          dpe
          cid
          priority
          state
          action)
        (ipv6_fields low high mask label nh src dst sps spe dps dpe cid priority state action)
        (at 62 (pack_u16_be 0))
unfolding ipv6_fields
ipv6_fields-Begins low high mask label nh src dst a a1 a2 a3 a4 a5 a6 a7 b b1 b2 b3 b4 b5 b6 b7 sps
      spe dps dpe cid priority state action ea eb =
    rw (ea, eb, wants_address-eq-true src, wants_address-eq-true dst)
      (u16_at 0 64
        ⨟… u8_at 2 6
        ⨟… u8_at 3 3
        ⨟… Stores-poke 4 0
        ⨟… Stores-poke 5 (u8 low)
        ⨟… Stores-poke 6 (u8 high)
        ⨟… Stores-poke 7 (u8 mask)
        ⨟… u32_at 8 label
        ⨟… u16_at 12 nh
        ⨟… u8_at 14 (packed_prefixlen src)
        ⨟… u8_at 15 (packed_prefixlen dst)
        ⨟… Stores-at 16 (pack_ip6-Stores src _ _ ea)
        ⨟… Stores-at 32 (pack_ip6-Stores dst _ _ eb)
        ⨟… u16_at 48 sps
        ⨟… u16_at 50 spe
        ⨟… u16_at 52 dps
        ⨟… u16_at 54 dpe
        ⨟… u16_at 56 cid
        ⨟… u8_at 58 priority
        ⨟… u8_at 59 state
        ⨟… Begins-last (at 62 (pack_u16_be 0)) (u8_at 60 action))
