-- ===== src/EnumTable/Tables.antt =====
-- Lists of the tables, by the functions that there are on them.
use network_config_manager.Base.{List, [], ◌∷◌}
use network_config_manager.EnumTable.{Enum}
use network_config_manager.EnumTable.Network.{
  ipv6_privacy_extensions_type, use_domains_mode_table, dhcp_client_mode_table,
  dhcp_client_kind_table, dhcp_client_identifier, dhcp_client_duid_type, link_local_address_type,
  ipv6_link_local_address_gen_type, address_protocol_table, link_event_table,
  ipv6_ra_preference_type, ip_duplicate_address_detection_type, keep_configuration_table,
  dhcp6_client_start_mode_table, auth_key_management_type, auth_eap_method_type,
}
use network_config_manager.EnumTable.Route.{
  route_table, route_scope_type, route_type, ipv6_route_preference_type, route_protocol_type,
  ipoib_mode_table,
}
use network_config_manager.EnumTable.Link.{
  link_states_table, link_operstates_table, ipv6_address_generation_mode_table,
}
use network_config_manager.EnumTable.SrIov.{sriov_link_state_table}
use network_config_manager.EnumTable.Dracut.{
  dracut_dhcp_mode_table, dracut_to_networkd_dhcp_mode_table,
}
use network_config_manager.EnumTable.NetworkUtil.{
  address_family_table, required_address_family_for_online_table, device_activation_policy_table,
}
use network_config_manager.EnumTable.Nftables.{
  nft_family_table, nft_packet_action_table, ip_packet_port_table, ip_packet_protocol_table,
}
use network_config_manager.EnumTable.NetDev.{
  netdev_kind_table, bond_mode_table, bond_xmit_hash_policy_table, bond_lacp_rate_table,
  macvlan_mode_table, bond_arp_validate_table, bond_fail_over_mac_table, bond_ad_select_table,
  bond_primary_reselect_table, ipvlan_mode_table,
}

-- The tables with a function in each direction, other than those on which the two disagree:
-- `required_address_family_for_online_table`, `device_activation_policy_table`, `link_states_table`,
-- `ipv6_privacy_extensions_type` and `dracut_to_networkd_dhcp_mode_table`.
abbrev pub tables : List Enum
tables =
    use_domains_mode_table ∷ dhcp_client_mode_table ∷ dhcp_client_kind_table
    ∷ dhcp_client_identifier ∷ dhcp_client_duid_type ∷ link_local_address_type
    ∷ ipv6_link_local_address_gen_type ∷ address_protocol_table ∷ link_event_table
    ∷ ipv6_ra_preference_type ∷ ip_duplicate_address_detection_type ∷ keep_configuration_table
    ∷ dhcp6_client_start_mode_table ∷ auth_key_management_type ∷ auth_eap_method_type ∷ route_table
    ∷ route_scope_type ∷ route_type ∷ ipv6_route_preference_type ∷ route_protocol_type
    ∷ ipoib_mode_table ∷ nft_family_table ∷ nft_packet_action_table ∷ ip_packet_port_table
    ∷ ip_packet_protocol_table ∷ netdev_kind_table ∷ bond_mode_table ∷ bond_xmit_hash_policy_table
    ∷ bond_lacp_rate_table ∷ macvlan_mode_table ∷ bond_arp_validate_table ∷ bond_fail_over_mac_table
    ∷ bond_ad_select_table ∷ bond_primary_reselect_table ∷ ipvlan_mode_table ∷ address_family_table
    ∷ dracut_dhcp_mode_table ∷ []

-- The tables with a function from a name, other than `link_states_table`,
-- `ipv6_privacy_extensions_type` and `dracut_to_networkd_dhcp_mode_table`.
abbrev pub searched_tables : List Enum
searched_tables = required_address_family_for_online_table ∷ device_activation_policy_table ∷ tables

-- The tables with a function to a name, other than `device_activation_policy_table`.
abbrev pub named_tables : List Enum
named_tables =
    required_address_family_for_online_table ∷ link_states_table ∷ ipv6_privacy_extensions_type
    ∷ dracut_to_networkd_dhcp_mode_table ∷ link_operstates_table
    ∷ ipv6_address_generation_mode_table ∷ sriov_link_state_table ∷ tables
