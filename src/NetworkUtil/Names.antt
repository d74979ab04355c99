-- ===== src/NetworkUtil/Names.antt =====
-- The rest of `src/share/network-util.c`: names of hosts and interfaces, DUIDs, and hardware
-- addresses.
use network_config_manager.Base.{
  ℕ, ◌+◌, ◌-◌, ◌/◌, ◌%◌, ◌^◌, ◌<◌, ◌≡◌, ◌≢◌, ◌↔◌, refl, Bool, true, false, not, ◌&&◌, ◌||◌, List,
  [], ◌∷◌, ◌++◌, Bytes, codes, Option, none, some, leb, ltb, ◌==◌, if◌then◌else◌, length, All,
  arith,
}
use network_config_manager.CLib.{isalnum}
use network_config_manager.CLib.Strtol.{Long}
use network_config_manager.Glib.{Glib}
use network_config_manager.Outcome.{Outcome, ok, err, fault, ◌>>=◌, enxio}
use network_config_manager.ParseUtil.{parse_int, parse_uint32}
use network_config_manager.StringUtil.{unhexchar}

-- The kernel's numbers and names of links, `if_nametoindex` and `if_indextoname`: 0 and `none` where
-- there is none.
pub record Links : Type 0 where
  pub index_of : Bytes → ℕ
  pub name_of : Long → Option Bytes

pub record IfNameIndex : Type 0 where
  pub ifindex : Long
  pub ifname : Bytes

abbrev named : Long → Option Bytes → Outcome IfNameIndex
named i none = err enxio
named i (some n) = ok (record { ifindex = i; ifname = n })

unfoldable pub parse_ifname_or_index : Links → Bool → Bytes → Outcome IfNameIndex
parse_ifname_or_index links stale s =
    if leb 1 (links.index_of s) && ltb (links.index_of s) (2 ^ 31)
    then ok (record { ifindex = record { neg = false; size = links.index_of s }; ifname = s })
    else elim (parse_int stale s) [
      | ok i ↦ named i (links.name_of i)
      | err n ↦ err enxio
      | fault ↦ fault
    ]

unfoldable pub parse_mtu : Bool → Bytes → Outcome ℕ
parse_mtu stale mtu = parse_uint32 stale mtu

unfoldable pub parse_group : Bool → Bytes → Outcome ℕ
parse_group stale group = parse_uint32 stale group

unfoldable pub host_bytes : Bytes → Bool
host_bytes [] = true
host_bytes (c ∷ s) = (isalnum c || c == b'-' || c == b'.') && host_bytes s

unfoldable pub valid_hostname : Bytes → Bool
valid_hostname [] = true
valid_hostname (c ∷ s) = not (c == b'-') && host_bytes (c ∷ s)

abbrev pub is_name_byte : ℕ → Bool
is_name_byte c = not (c == b':' || c == b'/' || c == b'%') && not (leb 127 c) && not (leb c 32)

unfoldable pub name_bytes : Bytes → Bool
name_bytes [] = true
name_bytes (c ∷ s) = is_name_byte c && name_bytes s

-- `utf8` is `g_utf8_validate`; IFNAMSIZ is 16.
unfoldable pub valid_ifname : (Bytes → Bool) → Option Bytes → Bool
valid_ifname utf8 none = false
valid_ifname utf8 (some []) = false
valid_ifname utf8 (some (c ∷ s)) = utf8 (c ∷ s) && ltb (length (c ∷ s)) 16 && name_bytes (c ∷ s)

abbrev is_hex : ℕ → Bool
is_hex c = elim (unhexchar c) [ ok n ↦ true | err n ↦ false | fault ↦ false ]

abbrev first_of : Bytes → Outcome ℕ
first_of [] = ok 0
first_of (c ∷ s) = ok c

-- One round: it looks at the first piece, and where that has two bytes at the first byte of the
-- second piece, which is NULL behind one piece.
abbrev pub duid_round : List Bytes → Outcome Bool
duid_round [] = fault
duid_round (s ∷ rest) = if not (length s == 1 || length s == 2) then ok false else (do
  c ← first_of s
  d ← (if length s == 2 then elim rest [ [] ↦ fault | t ∷ ts ↦ first_of t ] else ok b'0')
  ok (is_hex c && is_hex d))

-- `count` stays 0, and every round looks at the same pieces.
unfoldable pub duid_rounds : List Bytes → List Bytes → Outcome Bool
duid_rounds s [] = ok true
duid_rounds s (d ∷ left) =
    let rest = duid_rounds s left in duid_round s >>= λ b. if b then rest else ok false

unfoldable pub valid_duid : Glib → Option Bytes → Outcome Bool
valid_duid g none = ok false
valid_duid g (some p) = let s = g.strsplit p (codes ":") 0 in duid_rounds s s

-- The six octets.
unfoldable pub ether_addr_is_not_null : List ℕ → Bool
ether_addr_is_not_null [] = true
ether_addr_is_not_null (o ∷ os) = not (o == 0) && ether_addr_is_not_null os

abbrev pub hex_digit : ℕ → ℕ
hex_digit n = if ltb n 10 then b'0' + n else b'a' + (n - 10)

-- `%02x` of an octet
abbrev pub hex2 : ℕ → Bytes
hex2 o = hex_digit (o / 16) ∷ hex_digit (o % 16) ∷ []

unfoldable pub ether_addr_to_string : List ℕ → Bytes
ether_addr_to_string [] = []
ether_addr_to_string (o ∷ []) = hex2 o
ether_addr_to_string (o ∷ p ∷ os) = hex2 o ++ (b':' ∷ ether_addr_to_string (p ∷ os))

-- Inside an interface name stand printable ASCII bytes other than the blank and three separators.
abbrev pub IsNameByte : ℕ → Type 0
IsNameByte c = (32 < c) × (c < 127) × (c ≢ b':') × (c ≢ b'/') × (c ≢ b'%')

name_bytes-All : (s : Bytes) → (name_bytes s ≡ true) ↔ All IsNameByte s
unfolding name_bytes
name_bytes-All [] = (λ _. tt, λ _. refl)
name_bytes-All (c ∷ s) = ground (arith, name_bytes-All s)

IsNameByte-ascii : (s : Bytes) → All IsNameByte s → All (λ c. c < 128) s
IsNameByte-ascii [] h = tt
IsNameByte-ascii (c ∷ s) h = (omega (arith, h.0.1), IsNameByte-ascii s h.1)

-- Where ASCII texts are valid UTF-8, the valid interface names are the texts of 1 to 15 bytes of that
-- kind.
pub valid_ifname-All :
    (utf8 : Bytes → Bool)
    → ((s : Bytes) → All (λ c. c < 128) s → utf8 s ≡ true)
    → (s : Bytes)
    → (valid_ifname utf8 (some s) ≡ true) ↔ ((0 < length s) × (length s < 16) × All IsNameByte s)
unfolding valid_ifname
valid_ifname-All utf8 ascii [] = ground arith
valid_ifname-All utf8 ascii (c ∷ s) = (
  λ e. (omega arith, ground arith, (name_bytes-All (c ∷ s)).0 (ground arith)),
  λ h.
      let plain = h.2 in
      let valid = ascii (c ∷ s) (IsNameByte-ascii (c ∷ s) plain) in
      let bytes = (name_bytes-All (c ∷ s)).1 plain in ground arith,
)

-- `ether_addr_is_not_null` is false as soon as one octet is 0.
pub ether_addr_is_not_null-All :
    (os : List ℕ) → (ether_addr_is_not_null os ≡ true) ↔ All (λ o. 0 < o) os
unfolding ether_addr_is_not_null
ether_addr_is_not_null-All [] = (λ _. tt, λ _. refl)
ether_addr_is_not_null-All (o ∷ os) = ground (arith, ether_addr_is_not_null-All os)
