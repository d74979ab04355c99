-- ===== src/EnumTable/Tests.antt =====
-- Runs of the functions on tables at fixed texts and numbers.
use network_config_manager.Base.{◌≡◌, refl, false, codes, some}
use network_config_manager.CLib.{streq, streq_fold}
use network_config_manager.Outcome.{ok, err, einval}
use network_config_manager.EnumTable.{enum_to_name, enum_of_name, search_from}
use network_config_manager.EnumTable.Network.{
  dhcp_client_mode_table, dhcp_name_to_client, dhcp_client_identifier,
}
use network_config_manager.EnumTable.Nftables.{nft_family_table}
use network_config_manager.EnumTable.NetworkUtil.{device_activation_policy_table}

mode : enum_of_name dhcp_client_mode_table (codes "IPv6") ≡ ok 3
unfolding enum_of_name search_from streq_fold
mode = refl

client : dhcp_name_to_client (codes "6") ≡ ok 3
unfolding dhcp_name_to_client enum_of_name search_from streq_fold streq
client = refl

-- The table spells "duid-only" without its l.
duid_only : enum_of_name dhcp_client_identifier (codes "duid-only") ≡ err einval
unfolding enum_of_name search_from streq_fold
duid_only = refl

family_none :
    (enum_to_name nft_family_table (record { neg = false; size = 0 }) ≡ ok (some (codes "none")))
    × (enum_of_name nft_family_table (codes "none") ≡ err einval)
unfolding enum_to_name enum_of_name search_from streq_fold
family_none = (refl, refl)

policy_manual :
    enum_to_name device_activation_policy_table (record { neg = false; size = 2 })
    ≡ ok (some (codes "ipv6"))
unfolding enum_to_name
policy_manual = refl
