-- ===== src/EnumTable/Faults.antt =====
-- The pairs whose functions name another array, or another array's bound.
use network_config_manager.Base.{
  ℕ, zero, suc, ◌<◌, ◌≡◌, refl, true, false, [], ◌∷◌, Bytes, Option, none, some, codes, arith,
  if◌then◌else◌, ltb,
}
use network_config_manager.CLib.{streq_fold, streq}
use network_config_manager.CLib.Strtol.{Long}
use network_config_manager.ParseUtil.Booleans.{streq_digit, streq_fold_congr}
use network_config_manager.Outcome.{Outcome, ok, err, fault, einval}
use network_config_manager.EnumTable.{enum_to_name, search_from, enum_of_name}
use network_config_manager.EnumTable.Search.{lacks_from}
use network_config_manager.EnumTable.Laws.{enum_of_name-streq_fold}
use network_config_manager.EnumTable.Network.{
  or_digit, ipv6_privacy_extensions_type, ipv6_privacy_extensions_names, dhcp_name_to_client,
  dhcp_client_kind_table,
}
use network_config_manager.EnumTable.NetworkUtil.{
  address_family_table, required_address_family_for_online_table, device_activation_policy_table,
}

abbrev pub number : ℕ → Long
number n = record { neg = false; size = n }

-- The name of an activation policy is that of the address family of the same number below 4; for 4
-- and 5, which are policies, the function reads outside the array.
pub device_activation_policy-to_name :
    (n : ℕ)
    → enum_to_name device_activation_policy_table (number n) ≡ (
        if ltb n 4
        then enum_to_name address_family_table (number n)
        else if ltb n 6
        then fault
        else ok none)
unfolding enum_to_name
device_activation_policy-to_name zero = refl
device_activation_policy-to_name (suc zero) = refl
device_activation_policy-to_name (suc (suc zero)) = refl
device_activation_policy-to_name (suc (suc (suc zero))) = refl
device_activation_policy-to_name (suc (suc (suc (suc zero)))) = refl
device_activation_policy-to_name (suc (suc (suc (suc (suc zero))))) = refl
device_activation_policy-to_name (suc (suc (suc (suc (suc (suc n)))))) = ground arith

-- What the function gives for ipv4, ipv6, both and any, the families of the numbers 0 to 3.
abbrev pub online_name : ℕ → Option Bytes
online_name zero = some (codes "no")
online_name (suc zero) = some (codes "ipv4")
online_name (suc (suc zero)) = some (codes "ipv6")
online_name (suc (suc (suc zero))) = some (codes "yes")
online_name (suc (suc (suc (suc n)))) = none

-- What its result, or the empty text where there is none, is read as.
abbrev pub online_again : ℕ → Outcome ℕ
online_again (suc zero) = ok 0
online_again (suc (suc zero)) = ok 1
online_again n = err einval

abbrev pub or_empty : Option Bytes → Bytes
or_empty none = []
or_empty (some x) = x

-- The families that a link must have to be online, which are ipv4, ipv6, both and any by their
-- numbers, are named "no", "ipv4", "ipv6" and "yes". Read back, "no" and "yes" are refused, and
-- "ipv4" and "ipv6" are the number before their own; a greater number has no name.
pub required_address_family-to_name :
    (n : ℕ)
    → (enum_to_name required_address_family_for_online_table (number n) ≡ ok (online_name n))
      × (enum_of_name required_address_family_for_online_table (or_empty (online_name n))
          ≡ online_again n)
unfolding enum_to_name enum_of_name search_from streq_fold
required_address_family-to_name zero = (refl, refl)
required_address_family-to_name (suc zero) = (refl, refl)
required_address_family-to_name (suc (suc zero)) = (refl, refl)
required_address_family-to_name (suc (suc (suc zero))) = (refl, refl)
required_address_family-to_name (suc (suc (suc (suc n)))) = (ground arith, refl)

-- A text that is none of the three names of the IPv6 privacy extensions makes the loop read outside
-- the array.
pub ipv6_privacy_extensions-fault :
    (name : Bytes)
    → lacks_from ipv6_privacy_extensions_names name 3 0 ≡ true
    → enum_of_name ipv6_privacy_extensions_type name ≡ fault
unfolding enum_of_name search_from lacks_from
ipv6_privacy_extensions-fault name h = ground arith

digit_congr :
    (v w : Bytes) (d : ℕ) → d < 65 → streq_fold v w ≡ true → streq v (d ∷ []) ≡ streq w (d ∷ [])
digit_congr v w d lt h =
    rw (streq_digit v d lt, streq_digit w d lt) (streq_fold_congr v w (d ∷ []) h)

or_digit_congr : (v w : Bytes) (r : Outcome ℕ) → streq_fold v w ≡ true → or_digit v r ≡ or_digit w r
or_digit_congr v w (ok i) h = refl
or_digit_congr v w fault h = refl
or_digit_congr v w (err n) h =
    rw (digit_congr v w b'4' (omega arith) h, digit_congr v w b'6' (omega arith) h)

-- `dhcp_name_to_client` goes by the text without regard to case.
pub dhcp_name_to_client-streq_fold :
    (v w : Bytes) → streq_fold v w ≡ true → dhcp_name_to_client v ≡ dhcp_name_to_client w
unfolding dhcp_name_to_client
dhcp_name_to_client-streq_fold v w h =
    rw (enum_of_name-streq_fold dhcp_client_kind_table v w h)
      (or_digit_congr v w (enum_of_name dhcp_client_kind_table w) h)
