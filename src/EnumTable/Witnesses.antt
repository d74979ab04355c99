-- ===== src/EnumTable/Witnesses.antt =====
-- The theorems on tables, at tables and texts that meet their hypotheses.
use network_config_manager.Base.{◌≡◌, refl, true, codes, some, arith, ◌⊎◌, ℕ, ◌-◌}
use network_config_manager.CLib.{streq_fold}
use network_config_manager.Outcome.{ok, err, fault, einval}
use network_config_manager.EnumTable.{enum_to_name, enum_of_name}
use network_config_manager.EnumTable.Laws.{
  enum_of_name-to_name, enum_of_name-FirstEntry_or_err, FirstEntry, enum_of_name-streq_fold,
}
use network_config_manager.EnumTable.Search.{lacks_from}
use network_config_manager.EnumTable.Faults.{
  number, device_activation_policy-to_name, required_address_family-to_name,
  ipv6_privacy_extensions-fault,
}
use network_config_manager.EnumTable.Network.{
  dhcp_client_mode_table, ipv6_privacy_extensions_type, ipv6_privacy_extensions_names,
}
use network_config_manager.EnumTable.NetworkUtil.{
  required_address_family_for_online_table, device_activation_policy_table,
}

mode_named : enum_to_name dhcp_client_mode_table (number 2) ≡ ok (some (codes "ipv4"))
unfolding enum_to_name
mode_named = refl

enum_of_name-to_name_example : enum_of_name dhcp_client_mode_table (codes "ipv4") ≡ ok 2
enum_of_name-to_name_example =
    enum_of_name-to_name 1 dhcp_client_mode_table 2 (codes "ipv4") refl (omega arith) mode_named

enum_of_name-FirstEntry_or_err_example :
    ((i : ℕ) × (enum_of_name dhcp_client_mode_table (codes "YES") ≡ ok i)
      × FirstEntry dhcp_client_mode_table (codes "YES") i)
    ⊎ ((enum_of_name dhcp_client_mode_table (codes "YES") ≡ err einval)
        × (lacks_from dhcp_client_mode_table.searched
              (codes "YES")
              (dhcp_client_mode_table.stop - dhcp_client_mode_table.first)
              dhcp_client_mode_table.first
            ≡ true))
enum_of_name-FirstEntry_or_err_example =
    enum_of_name-FirstEntry_or_err 3 dhcp_client_mode_table (codes "YES") refl

yes_folds : streq_fold (codes "Yes") (codes "yES") ≡ true
unfolding streq_fold
yes_folds = refl

enum_of_name-streq_fold_example :
    enum_of_name dhcp_client_mode_table (codes "Yes")
    ≡ enum_of_name dhcp_client_mode_table (codes "yES")
enum_of_name-streq_fold_example =
    enum_of_name-streq_fold dhcp_client_mode_table (codes "Yes") (codes "yES") yes_folds

device_activation_policy-to_name_example :
    enum_to_name device_activation_policy_table (number 4) ≡ fault
device_activation_policy-to_name_example = device_activation_policy-to_name 4

required_address_family-to_name_example :
    (enum_to_name required_address_family_for_online_table (number 1) ≡ ok (some (codes "ipv4")))
    × (enum_of_name required_address_family_for_online_table (codes "ipv4") ≡ ok 0)
required_address_family-to_name_example = required_address_family-to_name 1

kernel_lacks : lacks_from ipv6_privacy_extensions_names (codes "kernel") 3 0 ≡ true
unfolding lacks_from streq_fold
kernel_lacks = refl

ipv6_privacy_extensions-fault_example :
    enum_of_name ipv6_privacy_extensions_type (codes "kernel") ≡ fault
ipv6_privacy_extensions-fault_example = ipv6_privacy_extensions-fault (codes "kernel") kernel_lacks
