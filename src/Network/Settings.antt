-- ===== src/Network/Settings.antt =====
-- The settings that `generate_network_config` of `src/manager/network.c` writes, section by section.
use network_config_manager.Base.{
  Bool, true, false, not, ◌||◌, List, [], ◌∷◌, ◌++◌, Bytes, codes, Option, none, some, leb,
}
use network_config_manager.CLib.Strtol.{Long}
use network_config_manager.Outcome.{Outcome, ok, err, fault}
use network_config_manager.NetworkUtil.{Inet, IpAddress, ip_to_str, ip_is_null}
use network_config_manager.Settings.{
  Setting, text, number, when, setting, set_str, set_bool, if_str, if_bool, if_not_bool, if_uint,
  if_counted, if_valid, is_set, is_positive, spaced,
}
use network_config_manager.EnumTable.{enum_to_name}
use network_config_manager.EnumTable.Network.{
  keep_configuration_table, link_local_address_type, ipv6_link_local_address_gen_type,
  ipv6_privacy_extensions_type, dhcp_client_identifier, dhcp6_client_start_mode_table,
  dhcp_client_mode_table,
}
use network_config_manager.EnumTable.Dracut.{dracut_to_networkd_dhcp_mode_table}
use network_config_manager.EnumTable.Route.{ipoib_mode_table}
use network_config_manager.Network.{
  Network, Dhcp4Server, ParserType, yaml, dracut, no_parser, bridge_priority_max,
}

abbrev pub has : Option Bytes → Bool
has none = false
has (some x) = true

abbrev pub if_words : Bytes → Bytes → Option (List Bytes) → List Setting
if_words section key none = []
if_words section key (some xs) = set_str section key (spaced xs)

unfoldable pub match_settings : Network → List Setting
match_settings n =
    set_str (codes "Match") (codes "Name") n.ifname
    ++ if_str (codes "Match") (codes "MACAddress") n.match_mac
    ++ if_words (codes "Match") (codes "Driver") n.driver

-- `optional` is not among the fields that make the section.
unfoldable pub link_settings : Network → List Setting
link_settings n =
    when
      (is_set n.unmanaged
        || is_set n.arp
        || is_set n.multicast
        || is_set n.all_multicast
        || is_set n.promiscuous
        || is_set n.req_for_online
        || leb 1 n.mtu
        || has n.mac
        || has n.req_family_for_online
        || has n.activation_policy)
      (if_not_bool (codes "Link") (codes "Unmanaged") n.unmanaged
        ++ if_str (codes "Link") (codes "MACAddress") n.mac
        ++ if_bool (codes "Link") (codes "ARP") n.arp
        ++ if_bool (codes "Link") (codes "Multicast") n.multicast
        ++ if_bool (codes "Link") (codes "AllMulticast") n.all_multicast
        ++ if_bool (codes "Link") (codes "Promiscuous") n.promiscuous
        ++ if_bool (codes "Link") (codes "RequiredForOnline") n.req_for_online
        ++ if_not_bool (codes "Link") (codes "RequiredForOnline") n.optional
        ++ if_counted (codes "Link") (codes "MTUBytes") n.mtu
        ++ if_str (codes "Link") (codes "MACAddress") n.mac
        ++ if_str (codes "Link") (codes "RequiredFamilyForOnline") n.req_family_for_online
        ++ if_str (codes "Link") (codes "ActivationPolicy") n.activation_policy)

abbrev pub dhcp_name : ParserType → Long → Outcome (Option Bytes)
dhcp_name yaml v = enum_to_name dhcp_client_mode_table v
dhcp_name dracut v = enum_to_name dracut_to_networkd_dhcp_mode_table v
dhcp_name no_parser v = enum_to_name dracut_to_networkd_dhcp_mode_table v

abbrev pub both : Bool → Bool → List Setting
both true true = set_str (codes "Network") (codes "DHCP") (codes "yes")
both true false = set_str (codes "Network") (codes "DHCP") (codes "ipv4")
both false true = set_str (codes "Network") (codes "DHCP") (codes "ipv6")
both false false = []

-- The addresses that cannot be printed are left out.
unfoldable pub printed_servers : Inet → List IpAddress → List Bytes
printed_servers inet [] = []
printed_servers inet (a ∷ rest) = elim (ip_to_str inet a.family a) [
  | ok x ↦ x ∷ printed_servers inet rest
  | err n ↦ printed_servers inet rest
  | fault ↦ printed_servers inet rest
]

abbrev pub if_any {ℓ} : {A : Type ℓ} → List A → List Setting → List Setting
if_any [] ss = []
if_any (x ∷ xs) ss = ss

unfoldable pub network_settings : Inet → Network → List Setting
network_settings inet n =
    if_valid (codes "Network") (codes "DHCP") n.dhcp_type (dhcp_name n.parser_type n.dhcp_type)
    ++ if_valid (codes "Network") (codes "KeepConfiguration") n.keep_configuration
        (enum_to_name keep_configuration_table n.keep_configuration)
    ++ when (is_set n.dhcp4 || is_set n.dhcp6) (both (is_positive n.dhcp4) (is_positive n.dhcp6))
    ++ if_bool (codes "Network") (codes "LLDP") n.lldp
    ++ if_valid (codes "Network") (codes "LinkLocalAddressing") n.link_local
        (enum_to_name link_local_address_type n.link_local)
    ++ if_valid (codes "Network") (codes "IPv6LinkLocalAddressGenerationMode")
        n.ipv6_address_generation
        (enum_to_name ipv6_link_local_address_gen_type n.ipv6_address_generation)
    ++ if_valid (codes "Network") (codes "IPv6PrivacyExtensions") n.ipv6_privacy
        (enum_to_name ipv6_privacy_extensions_type n.ipv6_privacy)
    ++ if_bool (codes "Network") (codes "IPv6AcceptRA") n.ipv6_accept_ra
    ++ if_bool (codes "Network") (codes "DHCPServer") n.enable_dhcp4_server
    ++ if_uint (codes "Network") (codes "IPv6MTUBytes") n.ipv6_mtu
    ++ if_bool (codes "Network") (codes "ConfigureWithoutCarrier") n.configure_without_carrier
    ++ if_any n.nameservers
        (set_str (codes "Network") (codes "DNS") (spaced (printed_servers inet n.nameservers)))
    ++ if_any n.domains (set_str (codes "Network") (codes "Domains") (spaced n.domains))
    ++ if_words (codes "Network") (codes "NTP") n.ntps

unfoldable pub dhcp4_settings : Network → List Setting
dhcp4_settings n =
    if_valid (codes "DHCPv4") (codes "ClientIdentifier") n.dhcp_client_identifier_type
      (enum_to_name dhcp_client_identifier n.dhcp_client_identifier_type)
    ++ if_bool (codes "DHCPv4") (codes "UseDNS") n.dhcp4_use_dns
    ++ if_bool (codes "DHCPv4") (codes "UseDomains") n.dhcp4_use_domains
    ++ if_bool (codes "DHCPv4") (codes "UseNTP") n.dhcp4_use_ntp
    ++ if_bool (codes "DHCPv4") (codes "UseMTU") n.dhcp4_use_mtu
    ++ if_bool (codes "DHCPv4") (codes "UseRoutes") n.dhcp4_use_routes
    ++ if_bool (codes "DHCPv4") (codes "UseGateway") n.dhcp4_use_gw
    ++ if_bool (codes "DHCPv4") (codes "UseHostname") n.dhcp4_use_hostname
    ++ if_bool (codes "DHCPv4") (codes "SendHostname") n.dhcp4_send_hostname
    ++ if_bool (codes "DHCPv4") (codes "SendRelease") n.dhcp4_send_release
    ++ if_str (codes "DHCPv4") (codes "Hostname") n.dhcp4_hostname
    ++ if_uint (codes "DHCPv4") (codes "RouteMetric") n.dhcp4_route_metric
    ++ if_uint (codes "DHCPv4") (codes "InitialCongestionWindow") n.dhcp4_initial_congestion_window
    ++ if_uint (codes "DHCPv4") (codes "InitialAdvertisedReceiveWindow")
        n.dhcp4_advertised_receive_window
    ++ if_str (codes "DHCPv4") (codes "IAID") n.dhcp4_iaid
    ++ if_bool (codes "DHCPv4") (codes "RapidCommit") n.dhcp4_rapid_commit

unfoldable pub dhcp6_settings : Network → List Setting
dhcp6_settings n =
    if_bool (codes "DHCPv6") (codes "UseDNS") n.dhcp6_use_dns
    ++ if_bool (codes "DHCPv6") (codes "UseDomains") n.dhcp6_use_domains
    ++ if_bool (codes "DHCPv6") (codes "UseNTP") n.dhcp6_use_ntp
    ++ if_bool (codes "DHCPv6") (codes "UseHostname") n.dhcp6_use_hostname
    ++ if_bool (codes "DHCPv6") (codes "RapidCommit") n.dhcp6_rapid_commit
    ++ if_bool (codes "DHCPv6") (codes "UseAddress") n.dhcp6_use_address
    ++ if_bool (codes "DHCPv6") (codes "SendRelease") n.dhcp6_send_release
    ++ when (is_set n.dhcp6_client_start_mode) (
        setting (codes "DHCPv6") (codes "WithoutRA")
          (text (enum_to_name dhcp6_client_start_mode_table n.dhcp6_client_start_mode)))
    ++ if_str (codes "DHCPv6") (codes "IAID") n.dhcp6_iaid

unfoldable pub ipv6_accept_ra_settings : Network → List Setting
ipv6_accept_ra_settings n =
    if_str (codes "IPv6AcceptRA") (codes "Token") n.ipv6_ra_token
    ++ if_bool (codes "IPv6AcceptRA") (codes "UseDNS") n.ipv6_ra_use_dns
    ++ if_bool (codes "IPv6AcceptRA") (codes "UseDomains") n.ipv6_ra_use_domains
    ++ if_bool (codes "IPv6AcceptRA") (codes "UseMTU") n.ipv6_ra_use_mtu
    ++ if_bool (codes "IPv6AcceptRA") (codes "UseGateway") n.ipv6_ra_use_gw
    ++ if_bool (codes "IPv6AcceptRA") (codes "UseRoutePrefix") n.ipv6_ra_use_route_prefix
    ++ if_bool (codes "IPv6AcceptRA") (codes "UseAutonomousPrefix") n.ipv6_ra_use_auto_prefix
    ++ if_bool (codes "IPv6AcceptRA") (codes "UseOnLinkPrefix") n.ipv6_ra_use_onlink_prefix

-- The sections in front of the addresses and routes.
unfoldable pub front_settings : Inet → Network → List Setting
front_settings inet n =
    match_settings n
    ++ link_settings n
    ++ network_settings inet n
    ++ dhcp4_settings n
    ++ dhcp6_settings n
    ++ ipv6_accept_ra_settings n

abbrev pub printed : Outcome Bytes → Outcome (Option Bytes)
printed (ok x) = ok (some x)
printed (err n) = err n
printed fault = fault

unfoldable pub server_settings : Inet → Dhcp4Server → List Setting
server_settings inet s =
    setting (codes "DHCPServer") (codes "PoolOffset") (number s.pool_offset)
    ++ setting (codes "DHCPServer") (codes "PoolSize") (number s.pool_size)
    ++ if_str (codes "DHCPServer") (codes "DefaultLeaseTimeSec") s.default_lease_time
    ++ if_str (codes "DHCPServer") (codes "MaxLeaseTimeSec") s.max_lease_time
    ++ if_bool (codes "DHCPServer") (codes "EmitDNS") s.emit_dns
    ++ when (not (ip_is_null s.dns)) (
        setting (codes "DHCPServer") (codes "DNS")
          (text (printed (ip_to_str inet s.dns.family s.dns))))

abbrev pub if_server : Inet → Option Dhcp4Server → List Setting
if_server inet none = []
if_server inet (some s) = server_settings inet s

-- The settings between the SR-IOV sections and the static leases.
unfoldable pub middle_settings : Inet → Network → List Setting
middle_settings inet n =
    when (is_positive n.neighbor_suppression)
      (set_bool (codes "Bridge") (codes "NeighborSuppression") n.neighbor_suppression)
    ++ if_server inet n.dhcp4_server

-- The settings behind the static leases.
unfoldable pub back_settings : Network → List Setting
back_settings n =
    if_uint (codes "Bridge") (codes "Cost") n.cost
    ++ when (leb n.priority bridge_priority_max)
        (setting (codes "Bridge") (codes "Priority") (number n.priority))
    ++ if_valid (codes "IPoIB") (codes "Mode") n.ipoib_mode
        (enum_to_name ipoib_mode_table n.ipoib_mode)
