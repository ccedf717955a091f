-- ===== src/Iputil.antt =====
-- src/lib/iputil.c: addresses in text. A C string is the list of its bytes before the terminator; a
-- `char *` that may be null is an option. `inet_pton` enters as the record `Inet`.
pub mod Groups
use pcmm_policy_server.Base.{
  ℕ, zero, suc, ◌+◌, ◌-◌, ◌*◌, ◌^◌, ◌<◌, ◌≡◌, Bool, true, false, ◌&&◌, ◌||◌, Option, none, some,
  List, [], ◌∷◌, reverse, ◌%◌, min, ◌==◌, ltb, leb, if◌then◌else◌,
}
use pcmm_policy_server.Base.{u8, u32, ◌>>>◌, low_bits, Mem, Writer, ◌>>◌, poke, done}
use pcmm_policy_server.Base.Fault.{◌>>=◌}
use pcmm_policy_server.Base.Text.{Str}

-- `inet_pton` of the platform: the IPv4 address in host order, and whether a text is an IPv6
-- address. `none` is a text that is not an IPv4 address.
pub record Inet : Type 0 where
  pub pton4 : Str → Option ℕ
  pub pton6 : Str → Bool
  pub pton4_fits : (s : Str) (a : ℕ) → pton4 s ≡ some a → a < 2 ^ 32

module _ (inet : Inet) where
  -- On a text that is no address the result is an uninitialised variable's: a fault here.
  unfoldable pub ip4_toi : Option Str → Option ℕ
  ip4_toi none = none
  ip4_toi (some ip) = inet.pton4 ip

  unfoldable pub is_ip4 : Option Str → Option Bool
  is_ip4 none = none
  is_ip4 (some ip) = elim (inet.pton4 ip) [ none ↦ some false | some a ↦ some true ]

  unfoldable pub is_ip6 : Option Str → Option Bool
  is_ip6 none = none
  is_ip6 (some ip) = some (inet.pton6 ip)

is_space : ℕ → Bool
is_space c = c == 32 || (leb 9 c && leb c 13)

skip_space : Str → Str
unfolding is_space
skip_space [] = []
skip_space (c ∷ s) = if is_space c then skip_space s else c ∷ s

-- The value of a digit, if it is one in base 16.
hex_digit : ℕ → Option ℕ
hex_digit c =
    if leb b'0' c && leb c b'9'
    then some (c - b'0')
    else if leb b'a' c && leb c b'f'
    then some (c - b'a' + 10)
    else if leb b'A' c && leb c b'F'
    then some (c - b'A' + 10)
    else none

digits : ℕ → ℕ → Str → ℕ
unfolding hex_digit
digits base acc [] = acc
digits base acc (c ∷ s) =
    let rest = λ (d : ℕ). digits base (acc * base + d) s in
    elim (hex_digit c) [ none ↦ acc | some d ↦ if ltb d base then rest d else acc ]

-- The value after an optional sign, in the arithmetic modulo `m`.
signed : ℕ → (Str → ℕ) → Str → ℕ
signed m value [] = 0
signed m value (c ∷ s) =
    if c == b'-' then (m - value s) % m else if c == b'+' then value s else value (c ∷ s)

-- The library's `atoi`, as a 32-bit pattern.
unfoldable pub atoi : Str → ℕ
unfolding skip_space digits signed
atoi s = signed (2 ^ 32) (λ t. u32 (digits 10 0 t)) (skip_space s)

-- Past a `0x` that a digit follows.
skip_0x : Str → Str
unfolding hex_digit
skip_0x [] = []
skip_0x (c ∷ []) = c ∷ []
skip_0x (c ∷ x ∷ []) = c ∷ x ∷ []
skip_0x (c ∷ x ∷ d ∷ s) =
    if c == b'0' && (x == b'x' || x == b'X')
    then elim (hex_digit d) [ none ↦ c ∷ x ∷ d ∷ s | some v ↦ d ∷ s ]
    else c ∷ x ∷ d ∷ s

-- The library's `strtoul(s, &endptr, 16)`; a value out of range gives `ULONG_MAX`.
unfoldable pub strtoul16 : Str → ℕ
unfolding skip_space digits signed skip_0x
strtoul16 s = signed (2 ^ 64) (λ t. min (digits 16 0 (skip_0x t)) (2 ^ 64 - 1)) (skip_space s)

-- What follows the first `/`.
after_slash : Str → Option Str
after_slash [] = none
after_slash (c ∷ s) = if c == b'/' then some s else after_slash s

unfoldable pub prefixlen : Str → ℕ
unfolding after_slash
prefixlen ip = elim (after_slash ip) [ none ↦ 0 | some res ↦ u8 (atoi res) ]

-- The tokens that `strtok` cuts out between colons; `cur` is the token under way, last byte first.
finish : Str → List Str → List Str
finish [] rest = rest
finish (c ∷ cur) rest = reverse (c ∷ cur) ∷ rest

unfoldable pub tokens : Str → Str → List Str
unfolding finish
tokens cur [] = finish cur []
tokens cur (c ∷ s) = elim (c == b':') [
  | true ↦ finish cur (tokens [] s)
  | false ↦ tokens (c ∷ cur) s
]

-- The loop from token `i` on; the text that `strtok` cuts up is not read again by the callers.
unfoldable pub pack_groups : ℕ → List Str → Writer
pack_groups i [] = done
pack_groups i (token ∷ rest) = do
  poke (2 * i) (low_bits (strtoul16 token >>> 8) 8)
  poke (2 * i + 1) (low_bits (strtoul16 token) 8)
  pack_groups (i + 1) rest

-- `strtoul(NULL)` on a text with no token is a fault.
pack_tokens : List Str → Writer
pack_tokens [] m = none
pack_tokens (token ∷ rest) m = pack_groups 0 (token ∷ rest) m

unfoldable pub pack_ip6 : Str → Writer
unfolding pack_tokens
pack_ip6 ip6 = pack_tokens (tokens [] ip6)
