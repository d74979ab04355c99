-- ===== src/ParseUtil.antt =====
-- `src/share/parse-util.c`: numbers, booleans and the words that a link's settings take. `errno`
-- comes in as `stale`: whether it already holds ERANGE, since the functions do not clear it.
pub mod Numbers
pub mod Booleans
pub mod Words
mod Witnesses
use network_config_manager.Base.{
  ℕ, zero, suc, ◌+◌, ◌-◌, ◌*◌, ◌/◌, ◌%◌, ◌^◌, ◌≤◌, ◌<◌, ◌≡◌, refl, Bool, true, false, not, ◌&&◌,
  ◌||◌, List, [], ◌∷◌, ◌++◌, arith, Bytes, Option, none, some, ltb, leb, ◌==◌, if◌then◌else◌, codes,
  length,
}
use network_config_manager.CLib.{streq, streq_fold, has_prefix}
use network_config_manager.CLib.Strtol.{
  Long, Strtol, strtol, to_unsigned, exceeds, below_neg, is_extreme,
}
use network_config_manager.Glib.{Glib}
use network_config_manager.Outcome.{Outcome, ok, err, fault, ◌>>=◌, einval, erange}

abbrev has_text : Bytes → Bool
has_text [] = false
has_text (c ∷ s) = true

-- `!p || p == c || *p`
abbrev pub malformed : Strtol → Bool
malformed r = not r.found || has_text r.rest

-- `(r == LONG_MAX || r == LONG_MIN) && errno == ERANGE`
abbrev pub overflowed : Bool → Strtol → Bool
overflowed stale r = is_extreme r.value && (stale || r.out_of_range)

unfoldable pub parse_int : Bool → Bytes → Outcome Long
parse_int stale c =
    let r = strtol true c in
    if malformed r
    then err 1
    else if overflowed stale r
    then err erange
    else if below_neg r.value (2 ^ 31) || exceeds r.value (2 ^ 31 - 1)
    then err erange
    else ok r.value

-- The `long` is converted to `uint64_t` before it is compared with UINT64_MAX.
unfoldable pub parse_uint64 : Bool → Bytes → Outcome ℕ
parse_uint64 stale c =
    let r = strtol false c in
    let v = to_unsigned (2 ^ 64) r.value in
    if malformed r
    then err 1
    else if v == 2 ^ 64 - 1 && (stale || r.out_of_range)
    then err erange
    else ok v

unfoldable pub parse_uint32 : Bool → Bytes → Outcome ℕ
parse_uint32 stale c =
    let r = strtol true c in
    if malformed r
    then err 1
    else if overflowed stale r
    then err erange
    else ok (to_unsigned (2 ^ 32) r.value)

unfoldable pub parse_uint16 : Bool → Bytes → Outcome ℕ
parse_uint16 stale c =
    let r = strtol true c in
    if malformed r
    then err 1
    else if overflowed stale r
    then err erange
    else if exceeds r.value 0xffff
    then err erange
    else ok (to_unsigned (2 ^ 16) r.value)

abbrev pub succeeds : Outcome ℕ → Bool
succeeds (ok v) = true
succeeds (err n) = false
succeeds fault = false

-- What `errno` holds behind a call of `strtol`.
abbrev pub errno_after : Bool → Bytes → Bool
errno_after stale c = stale || (strtol true c).out_of_range

unfoldable pub all_ports : Bool → List Bytes → Bool
all_ports stale [] = true
all_ports stale (j ∷ s) = succeeds (parse_uint16 stale j) && all_ports (errno_after stale j) s

unfoldable pub is_port_or_range : Glib → Bool → Bytes → Bool
is_port_or_range g stale c =
    if succeeds (parse_uint16 stale c)
    then true
    else all_ports (errno_after stale c) (g.strsplit c (codes "-") 0)

unfoldable pub is_uint32_or_max : Bool → Bytes → Bool
is_uint32_or_max stale c = streq c (codes "max") || succeeds (parse_uint32 stale c)

-- `none` is the return value `false`, with `*ret` left as it is.
unfoldable pub parse_link_queue : Bool → Bytes → Option ℕ
parse_link_queue stale c = elim (parse_uint32 stale c) [
  | ok v ↦ if ltb 4096 v then none else some v
  | err n ↦ none
  | fault ↦ none
]

unfoldable pub parse_link_gso : Bool → Bytes → Outcome ℕ
parse_link_gso stale c = elim (parse_uint32 stale c) [
  | ok v ↦ if ltb 65535 v then err einval else ok v
  | err n ↦ err einval
  | fault ↦ fault
]

abbrev pub any_fold : Bytes → List Bytes → Bool
any_fold v [] = false
any_fold v (x ∷ xs) = streq_fold v x || any_fold v xs

abbrev pub yes_words : List Bytes
yes_words = codes "yes" ∷ codes "y" ∷ codes "true" ∷ codes "t" ∷ codes "on" ∷ []

abbrev pub no_words : List Bytes
no_words = codes "no" ∷ codes "n" ∷ codes "false" ∷ codes "f" ∷ codes "off" ∷ []

-- 1, 0 and the negative return value.
unfoldable pub parse_bool : Option Bytes → Outcome Bool
parse_bool none = err einval
parse_bool (some v) =
    if streq v (codes "1") || any_fold v (yes_words ++ (codes "enable" ∷ []))
    then ok true
    else if streq v (codes "0") || any_fold v (no_words ++ (codes "disable" ∷ []))
    then ok false
    else err einval

unfoldable pub parse_bool_or_ip_family : Option Bytes → Option Bytes
parse_bool_or_ip_family none = none
parse_bool_or_ip_family (some v) =
    if streq v (codes "1") || any_fold v yes_words
    then some (codes "yes")
    else if streq v (codes "0") || any_fold v no_words
    then some (codes "no")
    else if streq v (codes "ipv4") || streq_fold v (codes "ipv6")
    then some v
    else none
