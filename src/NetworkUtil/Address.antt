-- ===== src/NetworkUtil/Address.antt =====
-- Addresses in text: what `ip_to_str_prefix` writes, `parse_ip_from_str` reads.
use network_config_manager.Base.{
  ℕ, zero, suc, ◌^◌, ◌<◌, ◌≡◌, refl, true, false, [], ◌∷◌, ◌++◌, Bytes, none, some, Lacks, arith,
  Bool-cases, inl, inr, ◌⊎◌, ◌==◌,
}
use network_config_manager.CLib.Decimal.{print_uint, strtol-print_uint}
use network_config_manager.CLib.Strtol.{Long}
use network_config_manager.Outcome.{Outcome, ok, err, einval, ◌>>=◌}
use network_config_manager.NetworkUtil.{
  Answer, answer, failed, Inet, IpAddress, no_address, af_inet, af_inet6, cut_at, ip_to_str,
  ip_to_str_prefix, parse_ipv4, parse_ipv6, parse_ip, parse_ip_from_str, with_prefix, or_einval,
  eafnosupport,
}

-- A text of an address holds no slash and is read as that address; one of IPv6 is none of IPv4.
pub record InetLaws (inet : Inet) : Type 0 where
  pub written4 :
      (a : ℕ)
      → a < 2 ^ 32
      → (x : Bytes) × (inet.ntop af_inet a ≡ answer x)
        × (inet.pton af_inet x ≡ answer a)
        × Lacks b'/' x
  pub written6 :
      (a : ℕ)
      → a < 2 ^ 128
      → (x : Bytes) × (inet.ntop af_inet6 a ≡ answer x)
        × (inet.pton af_inet6 x ≡ answer a)
        × (inet.pton af_inet x ≡ failed 0)
        × Lacks b'/' x

pub cut_at-append : (c : ℕ) (a b : Bytes) → Lacks c a → cut_at c (a ++ (c ∷ b)) ≡ (a, some b)
unfolding cut_at
cut_at-append c [] b h = ground arith
cut_at-append c (x ∷ a) b h = ground (arith, cut_at-append c a b h.1)

pub cut_at-Lacks : (c : ℕ) (a : Bytes) → Lacks c a → cut_at c a ≡ (a, none)
unfolding cut_at
cut_at-Lacks c [] h = refl
cut_at-Lacks c (x ∷ a) h = ground (arith, cut_at-Lacks c a h.1)

abbrev pub size : ℕ → Long
size n = record { neg = false; size = n }

-- The addresses that `parse_ip_from_str` makes.
abbrev pub address4 : ℕ → ℕ → IpAddress
address4 a n = record no_address { in4 = a; family = af_inet; prefix_len = size n }

abbrev pub address6 : ℕ → ℕ → IpAddress
address6 a n = record no_address { in6 = a; family = af_inet6; prefix_len = size n }

with_prefix-print_uint :
    (inet : Inet) (a : IpAddress) (n : ℕ)
    → n < 2 ^ 31
    → with_prefix inet a (some (print_uint n)) ≡ ok (record a { prefix_len = size n })
with_prefix-print_uint inet a n h = rw (strtol-print_uint true n) (ground arith)

abbrev prefixed : Bytes → ℕ → Bytes
prefixed x zero = x
prefixed x (suc n) = x ++ (b'/' ∷ print_uint (suc n))

parse-prefixed :
    (inet : Inet) (x : Bytes) (a : IpAddress) (n : ℕ)
    → n < 2 ^ 31
    → Lacks b'/' x
    → a.prefix_len ≡ size 0
    → parse_ip inet x ≡ ok a
    → parse_ip_from_str inet (prefixed x n) ≡ ok (record a { prefix_len = size n })
unfolding parse_ip_from_str
parse-prefixed inet x a zero h lacks bare parsed =
    rw (cut_at-Lacks b'/' x lacks, parsed, ← bare) refl
parse-prefixed inet x a (suc n) h lacks bare parsed =
    rw (cut_at-append b'/' x (print_uint (suc n)) lacks, parsed)
      (with_prefix-print_uint inet a (suc n) h)

written-prefixed :
    (inet : Inet) (u : IpAddress) (x : Bytes) (n : ℕ)
    → ip_to_str inet u.family u ≡ ok x
    → u.prefix_len ≡ size n
    → ip_to_str_prefix inet u.family u ≡ ok (prefixed x n)
unfolding ip_to_str_prefix
written-prefixed inet u x zero written e = ground (arith, written, e)
written-prefixed inet u x (suc n) written e = ground (arith, written, e)

or_einval-cases :
    {A : Type 0} (m : Answer A)
    → ((a : A) × (or_einval m ≡ ok a)) ⊎ ((n : ℕ) × (or_einval m ≡ err n))
or_einval-cases (answer a) = inl (a, refl)
or_einval-cases (failed zero) = inr (einval, refl)
or_einval-cases (failed (suc n)) = inr (suc n, refl)

pub ip_to_str-cases :
    (inet : Inet) (family : ℕ) (u : IpAddress)
    → ((x : Bytes) × (ip_to_str inet family u ≡ ok x))
      ⊎ ((n : ℕ) × (ip_to_str inet family u ≡ err n))
unfolding ip_to_str
ip_to_str-cases inet family u = elim (Bool-cases (family == af_inet)) [
  | inl four ↦ rw four (or_einval-cases (inet.ntop family u.in4))
  | inr other ↦ elim (Bool-cases (family == af_inet6)) [
    | inl six ↦ rw (other, six) (or_einval-cases (inet.ntop family u.in6))
    | inr neither ↦ inr (eafnosupport, rw (other, neither) refl)
  ]
]

module _ (inet : Inet) (laws : InetLaws inet) where
  parsed4 :
      (x : Bytes) (a : ℕ) → inet.pton af_inet x ≡ answer a → parse_ip inet x ≡ ok (address4 a 0)
  unfolding parse_ip parse_ipv4
  parsed4 x a h = ground (arith, h)

  parsed6 :
      (x : Bytes) (a : ℕ)
      → inet.pton af_inet6 x ≡ answer a
      → inet.pton af_inet x ≡ failed 0
      → parse_ip inet x ≡ ok (address6 a 0)
  unfolding parse_ip parse_ipv4 parse_ipv6
  parsed6 x a h other = ground (arith, h, other)

  parse_ip-address4 :
      (a n : ℕ)
      → a < 2 ^ 32
      → (x : Bytes) × (ip_to_str inet af_inet (address4 a n) ≡ ok x)
        × (parse_ip inet x ≡ ok (address4 a 0))
        × Lacks b'/' x
  unfolding ip_to_str
  parse_ip-address4 a n h =
      let (x, written, read, lacks) = laws.written4 a h in
      (x, rw written refl, parsed4 x a read, lacks)

  parse_ip-address6 :
      (a n : ℕ)
      → a < 2 ^ 128
      → (x : Bytes) × (ip_to_str inet af_inet6 (address6 a n) ≡ ok x)
        × (parse_ip inet x ≡ ok (address6 a 0))
        × Lacks b'/' x
  unfolding ip_to_str
  parse_ip-address6 a n h =
      let (x, written, read, other, lacks) = laws.written6 a h in
      (x, rw written refl, parsed6 x a read other, lacks)

  -- What `ip_to_str_prefix` writes for an address of either family, with a prefix length that an
  -- `int` holds, `parse_ip_from_str` reads as that address and that length.
  pub parse_ip_from_str-ip_to_str_prefix :
      (a b n : ℕ)
      → a < 2 ^ 32
      → b < 2 ^ 128
      → n < 2 ^ 31
      → ((x : Bytes) × (ip_to_str_prefix inet af_inet (address4 a n) ≡ ok x)
          × (parse_ip_from_str inet x ≡ ok (address4 a n)))
        × ((x : Bytes) × (ip_to_str_prefix inet af_inet6 (address6 b n) ≡ ok x)
            × (parse_ip_from_str inet x ≡ ok (address6 b n)))
  parse_ip_from_str-ip_to_str_prefix a b n ha hb hn =
      let (x, written, read, lacks) = parse_ip-address4 a n ha in
      let (y, written', read', lacks') = parse_ip-address6 b n hb in
      (
        (
          prefixed x n,
          written-prefixed inet (address4 a n) x n written refl,
          parse-prefixed inet x (address4 a 0) n hn lacks refl read,
        ),
        (
          prefixed y n,
          written-prefixed inet (address6 b n) y n written' refl,
          parse-prefixed inet y (address6 b 0) n hn lacks' refl read',
        ),
      )

then-cases :
    {A B : Type 0} (m : Outcome A) (f : A → B)
    → ((a : A) × (m ≡ ok a)) ⊎ ((n : ℕ) × (m ≡ err n))
    → ((b : B) × ((m >>= λ a. ok (f a)) ≡ ok b)) ⊎ ((n : ℕ) × ((m >>= λ a. ok (f a)) ≡ err n))
then-cases m f (inl (a, e)) = inl (f a, rw e refl)
then-cases m f (inr (n, e)) = inr (n, rw e refl)

-- `ip_to_str_prefix` writes a text or returns an error.
pub ip_to_str_prefix-cases :
    (inet : Inet) (family : ℕ) (u : IpAddress)
    → ((x : Bytes) × (ip_to_str_prefix inet family u ≡ ok x))
      ⊎ ((n : ℕ) × (ip_to_str_prefix inet family u ≡ err n))
unfolding ip_to_str_prefix
ip_to_str_prefix-cases inet family u =
    then-cases (ip_to_str inet family u) _ (ip_to_str-cases inet family u)
