-- ===== src/ParseUtil/Words.antt =====
-- The tests of `src/share/parse-util.c` on the words and labels that the settings of a link take.
use network_config_manager.Base.{
  ℕ, ◌≡◌, ◌≤◌, refl, Bool, true, false, ◌&&◌, ◌||◌, List, [], ◌∷◌, ◌↔◌, arith, Bytes, codes, All,
  length, leb, if◌then◌else◌,
}
use network_config_manager.Base.{◌++◌, ◌<◌, ◌==◌}
use network_config_manager.CLib.Strtol.{long_max}
use network_config_manager.CLib.Decimal.{print_uint}
use network_config_manager.ParseUtil.{parse_uint32, succeeds}
use network_config_manager.ParseUtil.Numbers.{parse_uint32-print_uint}
use network_config_manager.CLib.{streq, has_prefix}
use network_config_manager.Outcome.{Outcome, ok, err, einval}

abbrev any_of : Bytes → List Bytes → Bool
any_of c [] = false
any_of c (x ∷ xs) = streq c x || any_of c xs

abbrev one_of : Bytes → List Bytes → Outcome (Unit {0})
one_of c words = if any_of c words then ok tt else err einval

unfoldable pub parse_link_alias : Bytes → Outcome (Unit {0})
parse_link_alias c = one_of c (codes "ifalias" ∷ [])

unfoldable pub parse_link_macpolicy : Bytes → Outcome (Unit {0})
parse_link_macpolicy c = one_of c (codes "persistent" ∷ codes "random" ∷ codes "none" ∷ [])

unfoldable pub parse_link_namepolicy : Bytes → Outcome (Unit {0})
parse_link_namepolicy c = one_of c (
    codes "kernel"
    ∷ codes "database"
    ∷ codes "onboard"
    ∷ codes "slot"
    ∷ codes "path"
    ∷ codes "mac"
    ∷ codes "keep"
    ∷ [])

unfoldable pub parse_link_altnamepolicy : Bytes → Outcome (Unit {0})
parse_link_altnamepolicy c =
    one_of c (codes "database" ∷ codes "onboard" ∷ codes "slot" ∷ codes "path" ∷ codes "mac" ∷ [])

unfoldable pub parse_link_name : Bytes → Outcome (Unit {0})
parse_link_name c =
    if has_prefix c (codes "eth") || has_prefix c (codes "ens") || has_prefix c (codes "lo")
    then err einval
    else ok tt

unfoldable pub parse_link_duplex : Bytes → Outcome (Unit {0})
parse_link_duplex c = one_of c (codes "full" ∷ codes "half" ∷ [])

unfoldable pub parse_link_wakeonlan : Bytes → Outcome (Unit {0})
parse_link_wakeonlan c = one_of c (
    codes "off"
    ∷ codes "phy"
    ∷ codes "unicast"
    ∷ codes "multicast"
    ∷ codes "broadcast"
    ∷ codes "arp"
    ∷ codes "magic"
    ∷ codes "secureon"
    ∷ [])

unfoldable pub parse_link_port : Bytes → Outcome (Unit {0})
parse_link_port c =
    one_of c (codes "tp" ∷ codes "aui" ∷ codes "bnc" ∷ codes "mii" ∷ codes "fibre" ∷ [])

unfoldable pub parse_link_advertise : Bytes → Outcome (Unit {0})
parse_link_advertise c = one_of c (
    codes "10baset-half"
    ∷ codes "10baset-full"
    ∷ codes "100baset-half"
    ∷ codes "100baset-full"
    ∷ codes "1000baset-half"
    ∷ codes "1000baset-full"
    ∷ codes "10000baset-full"
    ∷ codes "2500basex-full"
    ∷ codes "1000basekx-full"
    ∷ codes "10000basekx4-full"
    ∷ codes "10000basekr-full"
    ∷ codes "10000baser-fec"
    ∷ codes "20000basemld2-full"
    ∷ codes "20000basekr2-full"
    ∷ [])

unfoldable pub parse_sriov_vlan_protocol : Bytes → Outcome (Unit {0})
parse_sriov_vlan_protocol c = one_of c (codes "802.1Q" ∷ codes "802.1ad" ∷ [])

-- `g_ascii_isprint`
abbrev pub isprint : ℕ → Bool
isprint c = leb 32 c && leb c 126

unfoldable pub all_print : Bytes → Bool
all_print [] = true
all_print (c ∷ s) = isprint c && all_print s

-- IFNAMSIZ is 16.
unfoldable pub valid_address_label : Bytes → Bool
valid_address_label c = leb (length c) 16 && all_print c

-- Whether the last byte is `k`.
unfoldable pub has_suffix : Bytes → ℕ → Bool
has_suffix [] k = false
has_suffix (c ∷ []) k = c == k
has_suffix (c ∷ d ∷ s) k = has_suffix (d ∷ s) k

-- The `int` that it returns is `true` or `false`, and its callers test it as such.
unfoldable pub parse_link_bytes : Bool → Bytes → Bool
parse_link_bytes stale c =
    has_suffix c b'K' || has_suffix c b'M' || has_suffix c b'G' || succeeds (parse_uint32 stale c)

has_suffix-append : (s : Bytes) (k : ℕ) → has_suffix (s ++ (k ∷ [])) k ≡ true
unfolding has_suffix
has_suffix-append [] k = ground arith
has_suffix-append (c ∷ []) k = ground arith
has_suffix-append (c ∷ d ∷ s) k = has_suffix-append (d ∷ s) k

-- `parse_link_bytes` accepts a decimal below 2^63 - 1, and every text, a number or not, in front of
-- a K, an M or a G.
pub parse_link_bytes-suffix :
    (stale : Bool) (n : ℕ) (s : Bytes)
    → n < long_max
    → (parse_link_bytes stale (print_uint n) ≡ true)
      × (parse_link_bytes stale (s ++ (b'K' ∷ [])) ≡ true)
      × (parse_link_bytes stale (s ++ (b'M' ∷ [])) ≡ true)
      × (parse_link_bytes stale (s ++ (b'G' ∷ [])) ≡ true)
unfolding parse_link_bytes
parse_link_bytes-suffix stale n s h = (
  ground (arith, parse_uint32-print_uint stale n h),
  ground (arith, has_suffix-append s b'K'),
  ground (arith, has_suffix-append s b'M'),
  ground (arith, has_suffix-append s b'G'),
)

-- Every policy for the alternative names of a link is one for its name.
pub altnamepolicy-namepolicy :
    (c : Bytes) → parse_link_altnamepolicy c ≡ ok tt → parse_link_namepolicy c ≡ ok tt
unfolding parse_link_altnamepolicy parse_link_namepolicy
altnamepolicy-namepolicy c h = ground arith

all_print-All : (s : Bytes) → (all_print s ≡ true) ↔ All (λ c. (32 ≤ c) × (c ≤ 126)) s
unfolding all_print
all_print-All [] = (λ _. tt, λ _. refl)
all_print-All (c ∷ s) = ground (arith, all_print-All s)

-- The valid address labels are the texts of at most 16 bytes, each of which is printable ASCII.
pub valid_address_label-All :
    (s : Bytes)
    → (valid_address_label s ≡ true) ↔ ((length s ≤ 16) × All (λ c. (32 ≤ c) × (c ≤ 126)) s)
unfolding valid_address_label
valid_address_label-All s = ground (arith, all_print-All s)
