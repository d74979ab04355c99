-- ===== src/NetworkUtil/Model.antt =====
-- Address functions that satisfy what is assumed of `inet_ntop` and `inet_pton`: an IPv4 address is
-- its number in decimal, an IPv6 address that number behind `::`.
use network_config_manager.Base.{
  ℕ, zero, suc, ◌+◌, ◌/◌, ◌%◌, ◌≡◌, refl, ap, false, ◌&&◌, [], ◌∷◌, Bytes, Lacks, arith,
  if◌then◌else◌, ◌==◌,
}
use network_config_manager.CLib.Decimal.{digits, print_uint, scan-print_uint}
use network_config_manager.CLib.Strtol.{Scan, scan}
use network_config_manager.NetworkUtil.{Answer, answer, failed, Inet, af_inet}
use network_config_manager.NetworkUtil.Address.{InetLaws}

abbrev all_read : Scan → Answer ℕ
all_read s = elim s.unread [ [] ↦ if s.any then answer s.total else failed 0 | c ∷ rest ↦ failed 0 ]

abbrev read_number : Bytes → Answer ℕ
read_number s = all_read (scan 10 0 false s)

abbrev read6 : Bytes → Answer ℕ
read6 [] = failed 0
read6 (c ∷ []) = failed 0
read6 (c ∷ d ∷ s) = if c == b':' && d == b':' then read_number s else failed 0

abbrev pub inet_model : Inet
inet_model = record {
  ntop =
      λ family a. answer (if family == af_inet then print_uint a else b':' ∷ b':' ∷ print_uint a);
  pton = λ family s. if family == af_inet then read_number s else read6 s;
}

digits-Lacks : (f n : ℕ) (out : Bytes) → Lacks b'/' out → Lacks b'/' (digits f n out)
unfolding digits
digits-Lacks zero n out h = h
digits-Lacks (suc f) n out h = ground (arith, digits-Lacks f (n / 10) ((b'0' + n % 10) ∷ out))

print_uint-Lacks : (n : ℕ) → Lacks b'/' (print_uint n)
unfolding print_uint
print_uint-Lacks n = digits-Lacks (suc n) n [] tt

read_number-print_uint : (n : ℕ) → read_number (print_uint n) ≡ answer n
read_number-print_uint n = ap all_read (scan-print_uint n)

read_number-colon : (s : Bytes) → read_number (b':' ∷ s) ≡ failed 0
unfolding scan
read_number-colon s = refl

pub inet_model-laws : InetLaws inet_model
inet_model-laws = record {
  written4 = λ a h. (print_uint a, refl, read_number-print_uint a, print_uint-Lacks a);
  written6 = λ a h. (
    b':' ∷ b':' ∷ print_uint a,
    refl,
    read_number-print_uint a,
    read_number-colon (b':' ∷ print_uint a),
    (omega arith, (omega arith, print_uint-Lacks a)),
  );
}
