-- ===== src/CLib/Strtol.antt =====
-- `strtol` of the C library, with a 64-bit `long`, and the conversions that C makes of its result.
use network_config_manager.Base.{
  ℕ, ◌+◌, ◌-◌, ◌*◌, ◌%◌, ◌^◌, ◌≡◌, refl, Bool, true, false, not, ◌&&◌, ◌||◌, [], ◌∷◌, Bytes, Option,
  none, some, ltb, leb, ◌==◌, if◌then◌else◌,
}
use network_config_manager.CLib.{isspace}

-- A `long`: its sign and its size.
pub record Long : Type 0 where
  pub neg : Bool
  pub size : ℕ

-- The value, the text from `*endptr` on, whether a number was found, and whether `errno` is set
-- to ERANGE.
pub record Strtol : Type 0 where
  pub value : Long
  pub rest : Bytes
  pub found : Bool
  pub out_of_range : Bool

abbrev pub long_max : ℕ
long_max = 2 ^ 63 - 1

unfoldable pub digit_value : ℕ → Option ℕ
digit_value c =
    if leb b'0' c && leb c b'9'
    then some (c - b'0')
    else if leb b'a' c && leb c b'z'
    then some (c - b'a' + 10)
    else if leb b'A' c && leb c b'Z'
    then some (c - b'A' + 10)
    else none

-- Whether a byte is a digit of the base.
abbrev pub is_digit : ℕ → ℕ → Bool
is_digit base c = elim (digit_value c) [ none ↦ false | some d ↦ ltb d base ]

pub record Scan : Type 0 where
  pub total : ℕ
  pub any : Bool
  pub unread : Bytes

-- The digits of the base, read behind the number `total`.
unfoldable pub scan : ℕ → ℕ → Bool → Bytes → Scan
unfolding digit_value
scan base total any [] = record { total = total; any = any; unread = [] }
scan base total any (c ∷ s) =
    let stop : Scan = record { total = total; any = any; unread = c ∷ s } in
    elim (digit_value c) [
      | none ↦ stop
      | some d ↦ let on = scan base (total * base + d) true s in if ltb d base then on else stop
    ]

unfoldable pub skip_spaces : Bytes → Bytes
skip_spaces [] = []
skip_spaces (c ∷ s) = if isspace c then skip_spaces s else c ∷ s

-- Base 0: `0x` before a hexadecimal digit means 16, another leading `0` means 8.
unfoldable pub scan_any_base : Bytes → Scan
unfolding scan
scan_any_base [] = record { total = 0; any = false; unread = [] }
scan_any_base (c ∷ []) = if c == b'0' then scan 8 0 false (c ∷ []) else scan 10 0 false (c ∷ [])
scan_any_base (c ∷ d ∷ []) =
    if c == b'0' then scan 8 0 false (c ∷ d ∷ []) else scan 10 0 false (c ∷ d ∷ [])
scan_any_base (c ∷ d ∷ e ∷ s) =
    if c == b'0'
    then if (d == b'x' || d == b'X') && is_digit 16 e
      then scan 16 0 false (e ∷ s)
      else scan 8 0 false (c ∷ d ∷ e ∷ s)
    else scan 10 0 false (c ∷ d ∷ e ∷ s)

abbrev pub scan_in : Bool → Bytes → Scan
scan_in true s = scan_any_base s
scan_in false s = scan 10 0 false s

-- The largest size of a sign.
abbrev pub limit : Bool → ℕ
limit neg = if neg then 2 ^ 63 else long_max

abbrev pub finish : Bytes → Bool → Scan → Strtol
finish c neg r = record {
  value = record { neg = neg; size = if ltb (limit neg) r.total then limit neg else r.total };
  rest = if r.any then r.unread else c;
  found = r.any;
  out_of_range = ltb (limit neg) r.total;
}

abbrev pub signed : Bool → Bytes → Bytes → Strtol
signed any_base c [] = finish c false (scan_in any_base [])
signed any_base c (d ∷ s) =
    if d == b'-'
    then finish c true (scan_in any_base s)
    else if d == b'+'
    then finish c false (scan_in any_base s)
    else finish c false (scan_in any_base (d ∷ s))

-- `strtol(c, &p, any_base ? 0 : 10)`
unfoldable pub strtol : Bool → Bytes → Strtol
strtol any_base c = signed any_base c (skip_spaces c)

-- The conversion to an unsigned type of a modulus.
abbrev pub to_unsigned : ℕ → Long → ℕ
to_unsigned m r = if r.neg then (m - r.size % m) % m else r.size % m

-- `r > n` for a number `n`.
abbrev pub exceeds : Long → ℕ → Bool
exceeds r n = not r.neg && ltb n r.size

-- `r < -n` for a number `n`.
abbrev pub below_neg : Long → ℕ → Bool
below_neg r n = r.neg && ltb n r.size

-- `r == LONG_MAX || r == LONG_MIN`
abbrev pub is_extreme : Long → Bool
is_extreme r = r.size == limit r.neg

hex :
    (strtol true (0x20 ∷ b'-' ∷ b'0' ∷ b'X' ∷ b'f' ∷ b'F' ∷ b'g' ∷ [])).value
    ≡ record { neg = true; size = 255 }
unfolding strtol skip_spaces isspace scan_any_base digit_value
hex = refl
