-- ===== src/ParseUtil/Numbers.antt =====
-- What the number parsers return for a number in decimal.
use network_config_manager.Base.{
  ℕ, ◌-◌, ◌%◌, ◌^◌, ◌<◌, ◌≡◌, Bool, true, false, ◌∷◌, arith, none, some, ltb, leb, if◌then◌else◌,
}
use network_config_manager.CLib.Strtol.{Long, long_max}
use network_config_manager.CLib.Decimal.{print_uint, strtol-print_uint, strtol-minus}
use network_config_manager.Outcome.{ok, err, einval, erange}
use network_config_manager.ParseUtil.{
  parse_int, parse_uint64, parse_uint32, parse_uint16, parse_link_queue, parse_link_gso,
}

abbrev pub int : Bool → ℕ → Long
int neg n = record { neg = neg; size = n }

-- `parse_int` reads a decimal of an `int`, with or without a minus sign, as that number, and
-- refuses every other with -ERANGE.
pub parse_int-print_uint :
    (stale : Bool) (n : ℕ)
    → (parse_int stale (print_uint n) ≡ (if ltb n (2 ^ 31) then ok (int false n) else err erange))
      × (parse_int stale (b'-' ∷ print_uint n)
          ≡ (if leb n (2 ^ 31) then ok (int true n) else err erange))
unfolding parse_int
parse_int-print_uint stale n = (rw strtol-print_uint (ground arith), rw strtol-minus (ground arith))

-- For a number below 2^63, `parse_uint16` reads its decimal as the number if that is below 65536, and
-- refuses it otherwise; behind a minus sign it accepts every one, and returns it modulo 65536.
pub parse_uint16-print_uint :
    (stale : Bool) (n : ℕ)
    → n < 2 ^ 63
    → (parse_uint16 stale (print_uint n) ≡ (if ltb n 0x10000 then ok n else err erange))
      × (parse_uint16 stale (b'-' ∷ print_uint n) ≡ ok ((0x10000 - n % 0x10000) % 0x10000))
unfolding parse_uint16
parse_uint16-print_uint stale n h =
    (rw strtol-print_uint (ground arith), rw strtol-minus (ground arith))

-- `parse_uint32` accepts every decimal below 2^63 - 1, and returns it modulo 2^32.
pub parse_uint32-print_uint :
    (stale : Bool) (n : ℕ) → n < long_max → parse_uint32 stale (print_uint n) ≡ ok (n % 2 ^ 32)
unfolding parse_uint32
parse_uint32-print_uint stale n h = rw strtol-print_uint (ground arith)

-- `parse_uint64` accepts every decimal: below 2^63 it returns the number, and from there on 2^63 - 1.
pub parse_uint64-print_uint :
    (stale : Bool) (n : ℕ)
    → parse_uint64 stale (print_uint n) ≡ ok (if ltb n (2 ^ 63) then n else long_max)
unfolding parse_uint64
parse_uint64-print_uint stale n = rw strtol-print_uint (ground arith)

-- `parse_link_queue` accepts a decimal below 2^63 - 1 exactly where it is at most 4096 modulo 2^32, and
-- `parse_link_gso` where it is at most 65535 modulo 2^32; they return the remainder.
pub parse_link-print_uint :
    (stale : Bool) (n : ℕ)
    → n < long_max
    → (parse_link_queue stale (print_uint n)
        ≡ (if leb (n % 2 ^ 32) 4096 then some (n % 2 ^ 32) else none))
      × (parse_link_gso stale (print_uint n)
          ≡ (if leb (n % 2 ^ 32) 65535 then ok (n % 2 ^ 32) else err einval))
unfolding parse_link_queue parse_link_gso
parse_link-print_uint stale n h = (
  ground (arith, parse_uint32-print_uint stale n h),
  ground (arith, parse_uint32-print_uint stale n h),
)
