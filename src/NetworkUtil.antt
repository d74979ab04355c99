-- ===== src/NetworkUtil.antt =====
-- `src/share/network-util.c`: addresses, links by name or number, and the tests on names. An address
-- is the number of its bytes in network order.
pub mod Address
pub mod Names
pub mod Model
mod Witnesses
use network_config_manager.Base.{
  ℕ, zero, suc, ◌+◌, ◌-◌, ◌*◌, ◌/◌, ◌%◌, ◌^◌, Bool, true, false, not, ◌&&◌, ◌||◌, List, [], ◌∷◌,
  ◌++◌, Bytes, codes, Option, none, some, leb, ltb, ◌==◌, if◌then◌else◌, length,
}
use network_config_manager.CLib.{isalnum, strchr}
use network_config_manager.CLib.Decimal.{print_uint}
use network_config_manager.CLib.Strtol.{Long, Strtol, strtol, to_unsigned}
use network_config_manager.Glib.{Glib}
use network_config_manager.Outcome.{Outcome, ok, err, fault, ◌>>=◌, einval, enxio}
use network_config_manager.ParseUtil.{parse_int, parse_uint16, parse_uint32}
use network_config_manager.StringUtil.{unhexchar}

abbrev pub af_inet : ℕ
af_inet = 2

abbrev pub af_inet6 : ℕ
af_inet6 = 10

abbrev pub eafnosupport : ℕ
eafnosupport = 97

-- A result of the C library, or a failure with its `errno`.
pub data Answer (A : Type 0) : Type 0 where
  answer : A → Answer A
  failed : ℕ → Answer A

-- `inet_ntop` and `inet_pton`, by the family; `errno` is 0 where `inet_pton` says that the text is no
-- address.
pub record Inet : Type 0 where
  pub ntop : ℕ → ℕ → Answer Bytes
  pub pton : ℕ → Bytes → Answer ℕ

pub record IpAddress : Type 0 where
  pub in4 : ℕ
  pub in6 : ℕ
  pub family : ℕ
  pub prefix_len : Long
  pub label : Option Bytes
  pub lifetime : Option Bytes

-- `new0`
abbrev pub no_address : IpAddress
no_address = record {
  in4 = 0;
  in6 = 0;
  family = 0;
  prefix_len = record { neg = false; size = 0 };
  label = none;
  lifetime = none;
}

unfoldable pub ip4_addr_is_null : IpAddress → Bool
ip4_addr_is_null a = a.in4 == 0

-- A test of the result, which is negative for another family, and so true.
unfoldable pub ip_is_null : IpAddress → Bool
unfolding ip4_addr_is_null
ip_is_null a =
    if a.family == af_inet
    then ip4_addr_is_null a
    else if a.family == af_inet6
    then a.in6 == 0
    else true

-- `errno > 0 ? -errno : -EINVAL`
abbrev pub or_einval : {A : Type 0} → Answer A → Outcome A
or_einval (answer a) = ok a
or_einval (failed zero) = err einval
or_einval (failed (suc n)) = err (suc n)

-- A `long` that is stored in an `int`.
abbrev pub wrap_int : ℕ → Long
wrap_int n =
    if ltb n (2 ^ 31)
    then record { neg = false; size = n }
    else record { neg = true; size = 2 ^ 32 - n }

abbrev pub to_int : Long → Long
to_int v = wrap_int (to_unsigned (2 ^ 32) v)

-- A text before the first `/`, and behind it if there is one.
unfoldable pub cut_at : ℕ → Bytes → Bytes × Option Bytes
cut_at sep [] = ([], none)
cut_at sep (c ∷ s) =
    let (before, behind) = cut_at sep s in if c == sep then ([], some s) else (c ∷ before, behind)

module _ (inet : Inet) where
  unfoldable pub ip_to_str : ℕ → IpAddress → Outcome Bytes
  ip_to_str family u =
      if family == af_inet
      then or_einval (inet.ntop family u.in4)
      else if family == af_inet6
      then or_einval (inet.ntop family u.in6)
      else err eafnosupport

  unfoldable pub ip_to_str_prefix : ℕ → IpAddress → Outcome Bytes
  ip_to_str_prefix family u = do
    x ← ip_to_str family u
    ok (
        if not u.prefix_len.neg && leb 1 u.prefix_len.size
        then x ++ (b'/' ∷ print_uint u.prefix_len.size)
        else x)

  unfoldable pub parse_ipv4 : Bytes → Outcome IpAddress
  parse_ipv4 s = do
    a ← or_einval (inet.pton af_inet s)
    ok (record no_address { in4 = a; family = af_inet })

  unfoldable pub parse_ipv6 : Bytes → Outcome IpAddress
  parse_ipv6 s = do
    a ← or_einval (inet.pton af_inet6 s)
    ok (record no_address { in6 = a; family = af_inet6 })

  unfoldable pub parse_ip : Bytes → Outcome IpAddress
  parse_ip s = elim (parse_ipv4 s) [ ok a ↦ ok a | err n ↦ parse_ipv6 s | fault ↦ fault ]

  -- What stands behind the number of the prefix is not looked at.
  abbrev pub with_prefix : IpAddress → Option Bytes → Outcome IpAddress
  with_prefix a none = ok a
  with_prefix a (some p) =
      let r = strtol true p in
      if not r.found then err einval else ok (record a { prefix_len = to_int r.value })

  unfoldable pub parse_ip_from_str : Bytes → Outcome IpAddress
  parse_ip_from_str s = let (m, p) = cut_at b'/' s in parse_ip m >>= λ a. with_prefix a p

  -- The address, and the port if the text has one.
  unfoldable pub parse_ip_port : Bool → Bytes → Outcome (IpAddress × Option ℕ)
  parse_ip_port stale s =
      let (c, p) = cut_at b':' s in
      elim p [
        | none ↦ (do a ← parse_ip_from_str c; ok (a, none))
        | some k ↦ (do port ← parse_uint16 stale k; a ← parse_ip_from_str c; ok (a, some port))
      ]
