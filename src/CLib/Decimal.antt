-- ===== src/CLib/Decimal.antt =====
-- Numbers in decimal, as `printf` writes them with `%u`, and how `strtol` reads them.
use network_config_manager.Base.{
  ℕ, zero, suc, ◌+◌, ◌*◌, ◌/◌, ◌%◌, ◌≤◌, ◌<◌, ◌≡◌, refl, ap, ◌∙◌, Bool, true, false, [], ◌∷◌, arith,
  Bytes, ltb, if◌then◌else◌, Bool-cases, inl, inr,
}
use network_config_manager.CLib.{isspace}
use network_config_manager.CLib.Strtol.{
  digit_value, Scan, scan, scan_any_base, skip_spaces, finish, signed, scan_in, strtol,
}

-- One digit a round, from the last; the fuel is more than the rounds.
unfoldable pub digits : ℕ → ℕ → Bytes → Bytes
digits zero n out = out
digits (suc f) n out =
    let more = digits f (n / 10) ((b'0' + n % 10) ∷ out) in
    if ltb n 10 then (b'0' + n) ∷ out else more

unfoldable pub print_uint : ℕ → Bytes
print_uint n = digits (suc n) n []

scan_digit :
    (d total total' : ℕ) (any : Bool) (s : Bytes)
    → d < 10
    → total' ≡ total * 10 + d
    → scan 10 total any ((b'0' + d) ∷ s) ≡ scan 10 total' true s
unfolding scan
scan_digit d total total' any s h e = ground arith

-- Reading the digits of a number in front of a text is being at the text with the number.
scan-digits :
    (f n : ℕ) (out : Bytes) → n < f → scan 10 0 false (digits f n out) ≡ scan 10 n true out
unfolding digits
scan-digits zero n out h = absurd (omega arith)
scan-digits (suc f) n out h = elim (Bool-cases (ltb n 10)) [
  | inl small ↦ rw small (scan_digit n 0 n false out (ground arith) (omega arith))
  | inr large ↦ rw large (
      scan-digits f (n / 10) ((b'0' + n % 10) ∷ out) (ground arith)
      ∙ scan_digit (n % 10) (n / 10) n true out (omega arith) (omega arith))
]

-- The first digit of a positive number is none of 0, a sign and white space.
abbrev StartsAbove0 : Bytes → Type 0
StartsAbove0 [] = ⊥
StartsAbove0 (c ∷ s) = (b'1' ≤ c) × (c ≤ b'9')

digits_start : (f n : ℕ) (out : Bytes) → n < f → 0 < n → StartsAbove0 (digits f n out)
unfolding digits
digits_start zero n out h p = absurd (omega arith)
digits_start (suc f) n out h p = elim (Bool-cases (ltb n 10)) [
  | inl small ↦ rw small (ground arith)
  | inr large ↦
      rw large (digits_start f (n / 10) ((b'0' + n % 10) ∷ out) (ground arith) (ground arith))
]

scan_any_base-StartsAbove0 : (s : Bytes) → StartsAbove0 s → scan_any_base s ≡ scan 10 0 false s
unfolding scan_any_base
scan_any_base-StartsAbove0 [] h = absurd h
scan_any_base-StartsAbove0 (c ∷ []) h = ground arith
scan_any_base-StartsAbove0 (c ∷ d ∷ []) h = ground arith
scan_any_base-StartsAbove0 (c ∷ d ∷ e ∷ s) h = ground arith

print_uint-StartsAbove0 : (n : ℕ) → 0 < n → StartsAbove0 (print_uint n)
unfolding print_uint
print_uint-StartsAbove0 n p = digits_start (suc n) n [] (omega arith) p

-- A decimal is read to its end in base 10,
pub scan-print_uint :
    (n : ℕ) → scan 10 0 false (print_uint n) ≡ record { total = n; any = true; unread = [] }
unfolding print_uint scan
scan-print_uint n = scan-digits (suc n) n [] (omega arith)

-- and in the base that its text selects.
scan_any_base-print_uint :
    (n : ℕ) → scan_any_base (print_uint n) ≡ record { total = n; any = true; unread = [] }
scan_any_base-print_uint zero = unfold print_uint digits scan_any_base in refl
scan_any_base-print_uint (suc n) =
    scan_any_base-StartsAbove0 _ (print_uint-StartsAbove0 (suc n) (omega arith))
    ∙ scan-print_uint (suc n)

signed_bare :
    (any_base : Bool) (c s : Bytes)
    → StartsAbove0 s
    → signed any_base c s ≡ finish c false (scan_in any_base s)
signed_bare any_base c [] h = absurd h
signed_bare any_base c (d ∷ s) h = ground arith

skip_spaces-StartsAbove0 : (s : Bytes) → StartsAbove0 s → skip_spaces s ≡ s
unfolding skip_spaces isspace
skip_spaces-StartsAbove0 [] h = absurd h
skip_spaces-StartsAbove0 (c ∷ s) h = ground arith

abbrev whole : ℕ → Scan
whole n = record { total = n; any = true; unread = [] }

scan_in-print_uint : (any_base : Bool) (n : ℕ) → scan_in any_base (print_uint n) ≡ whole n
scan_in-print_uint true n = scan_any_base-print_uint n
scan_in-print_uint false n = scan-print_uint n

-- `strtol` reads the decimal of a number, as far as a `long` goes.
pub strtol-print_uint :
    (any_base : Bool) (n : ℕ)
    → strtol any_base (print_uint n) ≡ finish (print_uint n) false (whole n)
unfolding strtol
strtol-print_uint true zero =
    unfold print_uint digits skip_spaces isspace scan_any_base digit_value in refl
strtol-print_uint false zero = unfold print_uint digits skip_spaces isspace scan digit_value in refl
strtol-print_uint any_base (suc n) =
    let lead = print_uint-StartsAbove0 (suc n) (omega arith) in
    ap (signed any_base (print_uint (suc n))) (skip_spaces-StartsAbove0 _ lead)
    ∙ signed_bare any_base (print_uint (suc n)) (print_uint (suc n)) lead
    ∙ ap (finish (print_uint (suc n)) false) (scan_in-print_uint any_base (suc n))

-- The same behind a minus sign.
pub strtol-minus :
    (any_base : Bool) (n : ℕ)
    → strtol any_base (b'-' ∷ print_uint n) ≡ finish (b'-' ∷ print_uint n) true (whole n)
unfolding strtol skip_spaces isspace
strtol-minus any_base n = ap (finish (b'-' ∷ print_uint n) true) (scan_in-print_uint any_base n)
