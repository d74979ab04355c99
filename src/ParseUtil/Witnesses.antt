-- ===== src/ParseUtil/Witnesses.antt =====
-- The theorems on the parsers, at fixed numbers and words.
use network_config_manager.Base.{◌↔◌, ◌++◌, [], ◌≤◌, length, All}
use network_config_manager.ParseUtil.Words.{
  parse_link_bytes, parse_link_bytes-suffix, valid_address_label, valid_address_label-All,
}
use network_config_manager.Base.{◌≡◌, refl, true, false, codes, some, none, arith, ◌∷◌}
use network_config_manager.CLib.{streq_fold}
use network_config_manager.CLib.Decimal.{print_uint}
use network_config_manager.Outcome.{ok, err, erange}
use network_config_manager.ParseUtil.{
  parse_int, parse_uint16, parse_uint32, parse_uint64, parse_link_queue, parse_link_gso, parse_bool,
  any_fold,
}
use network_config_manager.ParseUtil.Numbers.{
  int, parse_int-print_uint, parse_uint16-print_uint, parse_uint32-print_uint,
  parse_uint64-print_uint, parse_link-print_uint,
}
use network_config_manager.ParseUtil.Booleans.{parse_bool-streq_fold, parse_bool-words_of, words_of}

parse_int-print_uint_example :
    (parse_int true (print_uint 1500) ≡ ok (int false 1500))
    × (parse_int true (b'-' ∷ print_uint 1500) ≡ ok (int true 1500))
parse_int-print_uint_example = parse_int-print_uint true 1500

parse_uint16-print_uint_example :
    (parse_uint16 true (print_uint 65536) ≡ err erange)
    × (parse_uint16 true (b'-' ∷ print_uint 65536) ≡ ok 0)
parse_uint16-print_uint_example = parse_uint16-print_uint true 65536 (omega arith)

parse_uint32-print_uint_example : parse_uint32 false (print_uint 4294967297) ≡ ok 1
parse_uint32-print_uint_example = parse_uint32-print_uint false 4294967297 (omega arith)

parse_uint64-print_uint_example :
    parse_uint64 false (print_uint 18446744073709551615) ≡ ok 9223372036854775807
parse_uint64-print_uint_example = parse_uint64-print_uint false 18446744073709551615

parse_link-print_uint_example :
    (parse_link_queue false (print_uint 4097) ≡ none)
    × (parse_link_gso false (print_uint 4097) ≡ ok 4097)
parse_link-print_uint_example = parse_link-print_uint false 4097 (omega arith)

on_folds : streq_fold (codes "On") (codes "oN") ≡ true
unfolding streq_fold
on_folds = refl

parse_bool-streq_fold_example : parse_bool (some (codes "On")) ≡ parse_bool (some (codes "oN"))
parse_bool-streq_fold_example = parse_bool-streq_fold (codes "On") (codes "oN") on_folds

off_word : any_fold (codes "OFF") (words_of false) ≡ true
unfolding streq_fold
off_word = refl

parse_bool-words_of_example : parse_bool (some (codes "OFF")) ≡ ok false
parse_bool-words_of_example = parse_bool-words_of false (codes "OFF") off_word

valid_address_label-All_example :
    (valid_address_label (codes "home") ≡ true)
    ↔ ((length (codes "home") ≤ 16) × All (λ c. (32 ≤ c) × (c ≤ 126)) (codes "home"))
valid_address_label-All_example = valid_address_label-All (codes "home")

parse_link_bytes-suffix_example :
    (parse_link_bytes false (print_uint 1500) ≡ true)
    × (parse_link_bytes false (codes "fast" ++ (b'K' ∷ [])) ≡ true)
    × (parse_link_bytes false (codes "fast" ++ (b'M' ∷ [])) ≡ true)
    × (parse_link_bytes false (codes "fast" ++ (b'G' ∷ [])) ≡ true)
parse_link_bytes-suffix_example = parse_link_bytes-suffix false 1500 (codes "fast") (omega arith)
