-- ===== src/Network/Documented.antt =====
-- What a .network file says of a network: for each key the field that decides it, and when it is there.
use network_config_manager.Base.{
  Bool, true, false, not, ◌||◌, List, [], ◌∷◌, ◌++◌, Bytes, codes, Option, none, some, leb,
  if◌then◌else◌,
}
use network_config_manager.CLib.Strtol.{Long}
use network_config_manager.Outcome.{Outcome}
use network_config_manager.NetworkUtil.{Inet, ip_to_str, ip_is_null}
use network_config_manager.Settings.{is_set, is_positive, spaced}
use network_config_manager.Settings.Overlay.{text_or_empty}
use network_config_manager.Settings.Table.{
  Row, row, flag, negated, unsigned, signed, only, named, listed,
}
use network_config_manager.EnumTable.{enum_to_name}
use network_config_manager.EnumTable.Network.{
  keep_configuration_table, link_local_address_type, ipv6_link_local_address_gen_type,
  ipv6_privacy_extensions_type, dhcp_client_identifier, dhcp6_client_start_mode_table,
  dhcp_client_mode_table,
}
use network_config_manager.EnumTable.Dracut.{dracut_to_networkd_dhcp_mode_table}
use network_config_manager.EnumTable.Route.{ipoib_mode_table}
use network_config_manager.Network.{
  Network, Dhcp4Server, ParserType, yaml, dracut, no_parser, bridge_priority_max,
}
use network_config_manager.Network.Settings.{has, printed, printed_servers}

-- The word for a DHCP mode, by who read the network.
abbrev pub dhcp_word : ParserType → Long → Outcome (Option Bytes)
dhcp_word yaml v = enum_to_name dhcp_client_mode_table v
dhcp_word dracut v = enum_to_name dracut_to_networkd_dhcp_mode_table v
dhcp_word no_parser v = enum_to_name dracut_to_networkd_dhcp_mode_table v

-- The word for the families of DHCP.
abbrev pub families : Bool → Bool → Option Bytes
families true true = some (codes "yes")
families true false = some (codes "ipv4")
families false true = some (codes "ipv6")
families false false = none

abbrev pub of_any {ℓ} : {A : Type ℓ} → List A → Bytes → Option Bytes
of_any [] x = none
of_any (y ∷ ys) x = some x

abbrev pub match_rows : Network → List Row
match_rows n =
    row (codes "Match") (codes "Name") (some n.ifname)
    ∷ row (codes "Match") (codes "MACAddress") n.match_mac
    ∷ row (codes "Match") (codes "Driver") (listed n.driver)
    ∷ []

-- Whether a field is given that makes the section; `optional` makes none.
abbrev pub has_link : Network → Bool
has_link n =
    is_set n.unmanaged
    || is_set n.arp
    || is_set n.multicast
    || is_set n.all_multicast
    || is_set n.promiscuous
    || is_set n.req_for_online
    || leb 1 n.mtu
    || has n.mac
    || has n.req_family_for_online
    || has n.activation_policy

abbrev pub link_rows : Network → List Row
link_rows n =
    row (codes "Link") (codes "Unmanaged") (negated n.unmanaged)
    ∷ row (codes "Link") (codes "MACAddress") n.mac
    ∷ row (codes "Link") (codes "ARP") (flag n.arp)
    ∷ row (codes "Link") (codes "Multicast") (flag n.multicast)
    ∷ row (codes "Link") (codes "AllMulticast") (flag n.all_multicast)
    ∷ row (codes "Link") (codes "Promiscuous") (flag n.promiscuous)
    ∷ row (codes "Link") (codes "RequiredForOnline") (flag n.req_for_online)
    ∷ row (codes "Link") (codes "RequiredForOnline")
        (if has_link n then negated n.optional else none)
    ∷ row (codes "Link") (codes "MTUBytes") (only (leb 1 n.mtu) (unsigned n.mtu))
    ∷ row (codes "Link") (codes "MACAddress") n.mac
    ∷ row (codes "Link") (codes "RequiredFamilyForOnline") n.req_family_for_online
    ∷ row (codes "Link") (codes "ActivationPolicy") n.activation_policy
    ∷ []

abbrev pub network_section_rows : Inet → Network → List Row
network_section_rows inet n =
    row (codes "Network") (codes "DHCP") (named (dhcp_word n.parser_type n.dhcp_type) n.dhcp_type)
    ∷ row (codes "Network") (codes "KeepConfiguration")
        (named (enum_to_name keep_configuration_table n.keep_configuration) n.keep_configuration)
    ∷ row (codes "Network") (codes "DHCP") (
        if is_set n.dhcp4 || is_set n.dhcp6
        then families (is_positive n.dhcp4) (is_positive n.dhcp6)
        else none)
    ∷ row (codes "Network") (codes "LLDP") (flag n.lldp)
    ∷ row (codes "Network") (codes "LinkLocalAddressing")
        (named (enum_to_name link_local_address_type n.link_local) n.link_local)
    ∷ row (codes "Network") (codes "IPv6LinkLocalAddressGenerationMode") (
        named (enum_to_name ipv6_link_local_address_gen_type n.ipv6_address_generation)
          n.ipv6_address_generation)
    ∷ row (codes "Network") (codes "IPv6PrivacyExtensions")
        (named (enum_to_name ipv6_privacy_extensions_type n.ipv6_privacy) n.ipv6_privacy)
    ∷ row (codes "Network") (codes "IPv6AcceptRA") (flag n.ipv6_accept_ra)
    ∷ row (codes "Network") (codes "DHCPServer") (flag n.enable_dhcp4_server)
    ∷ row (codes "Network") (codes "IPv6MTUBytes") (only (leb 1 n.ipv6_mtu) (signed n.ipv6_mtu))
    ∷ row (codes "Network") (codes "ConfigureWithoutCarrier") (flag n.configure_without_carrier)
    ∷ row (codes "Network") (codes "DNS")
        (of_any n.nameservers (spaced (printed_servers inet n.nameservers)))
    ∷ row (codes "Network") (codes "Domains") (of_any n.domains (spaced n.domains))
    ∷ row (codes "Network") (codes "NTP") (listed n.ntps)
    ∷ []

abbrev pub dhcp4_rows : Network → List Row
dhcp4_rows n =
    row (codes "DHCPv4") (codes "ClientIdentifier") (
      named (enum_to_name dhcp_client_identifier n.dhcp_client_identifier_type)
        n.dhcp_client_identifier_type)
    ∷ row (codes "DHCPv4") (codes "UseDNS") (flag n.dhcp4_use_dns)
    ∷ row (codes "DHCPv4") (codes "UseDomains") (flag n.dhcp4_use_domains)
    ∷ row (codes "DHCPv4") (codes "UseNTP") (flag n.dhcp4_use_ntp)
    ∷ row (codes "DHCPv4") (codes "UseMTU") (flag n.dhcp4_use_mtu)
    ∷ row (codes "DHCPv4") (codes "UseRoutes") (flag n.dhcp4_use_routes)
    ∷ row (codes "DHCPv4") (codes "UseGateway") (flag n.dhcp4_use_gw)
    ∷ row (codes "DHCPv4") (codes "UseHostname") (flag n.dhcp4_use_hostname)
    ∷ row (codes "DHCPv4") (codes "SendHostname") (flag n.dhcp4_send_hostname)
    ∷ row (codes "DHCPv4") (codes "SendRelease") (flag n.dhcp4_send_release)
    ∷ row (codes "DHCPv4") (codes "Hostname") n.dhcp4_hostname
    ∷ row (codes "DHCPv4") (codes "RouteMetric")
        (only (leb 1 n.dhcp4_route_metric) (signed n.dhcp4_route_metric))
    ∷ row (codes "DHCPv4") (codes "InitialCongestionWindow")
        (only (leb 1 n.dhcp4_initial_congestion_window) (signed n.dhcp4_initial_congestion_window))
    ∷ row (codes "DHCPv4") (codes "InitialAdvertisedReceiveWindow")
        (only (leb 1 n.dhcp4_advertised_receive_window) (signed n.dhcp4_advertised_receive_window))
    ∷ row (codes "DHCPv4") (codes "IAID") n.dhcp4_iaid
    ∷ row (codes "DHCPv4") (codes "RapidCommit") (flag n.dhcp4_rapid_commit)
    ∷ []

abbrev pub dhcp6_rows : Network → List Row
dhcp6_rows n =
    row (codes "DHCPv6") (codes "UseDNS") (flag n.dhcp6_use_dns)
    ∷ row (codes "DHCPv6") (codes "UseDomains") (flag n.dhcp6_use_domains)
    ∷ row (codes "DHCPv6") (codes "UseNTP") (flag n.dhcp6_use_ntp)
    ∷ row (codes "DHCPv6") (codes "UseHostname") (flag n.dhcp6_use_hostname)
    ∷ row (codes "DHCPv6") (codes "RapidCommit") (flag n.dhcp6_rapid_commit)
    ∷ row (codes "DHCPv6") (codes "UseAddress") (flag n.dhcp6_use_address)
    ∷ row (codes "DHCPv6") (codes "SendRelease") (flag n.dhcp6_send_release)
    ∷ row (codes "DHCPv6") (codes "WithoutRA") (
        only (is_set n.dhcp6_client_start_mode)
          (text_or_empty (enum_to_name dhcp6_client_start_mode_table n.dhcp6_client_start_mode)))
    ∷ row (codes "DHCPv6") (codes "IAID") n.dhcp6_iaid
    ∷ []

abbrev pub ipv6_accept_ra_rows : Network → List Row
ipv6_accept_ra_rows n =
    row (codes "IPv6AcceptRA") (codes "Token") n.ipv6_ra_token
    ∷ row (codes "IPv6AcceptRA") (codes "UseDNS") (flag n.ipv6_ra_use_dns)
    ∷ row (codes "IPv6AcceptRA") (codes "UseDomains") (flag n.ipv6_ra_use_domains)
    ∷ row (codes "IPv6AcceptRA") (codes "UseMTU") (flag n.ipv6_ra_use_mtu)
    ∷ row (codes "IPv6AcceptRA") (codes "UseGateway") (flag n.ipv6_ra_use_gw)
    ∷ row (codes "IPv6AcceptRA") (codes "UseRoutePrefix") (flag n.ipv6_ra_use_route_prefix)
    ∷ row (codes "IPv6AcceptRA") (codes "UseAutonomousPrefix") (flag n.ipv6_ra_use_auto_prefix)
    ∷ row (codes "IPv6AcceptRA") (codes "UseOnLinkPrefix") (flag n.ipv6_ra_use_onlink_prefix)
    ∷ []

abbrev pub server_rows : Inet → Dhcp4Server → List Row
server_rows inet s =
    row (codes "DHCPServer") (codes "PoolOffset") (some (signed s.pool_offset))
    ∷ row (codes "DHCPServer") (codes "PoolSize") (some (signed s.pool_size))
    ∷ row (codes "DHCPServer") (codes "DefaultLeaseTimeSec") s.default_lease_time
    ∷ row (codes "DHCPServer") (codes "MaxLeaseTimeSec") s.max_lease_time
    ∷ row (codes "DHCPServer") (codes "EmitDNS") (flag s.emit_dns)
    ∷ row (codes "DHCPServer") (codes "DNS") (
        only (not (ip_is_null s.dns)) (text_or_empty (printed (ip_to_str inet s.dns.family s.dns))))
    ∷ []

abbrev pub back_rows : Network → List Row
back_rows n =
    row (codes "Bridge") (codes "Cost") (only (leb 1 n.cost) (signed n.cost))
    ∷ row (codes "Bridge") (codes "Priority")
        (only (leb n.priority bridge_priority_max) (signed n.priority))
    ∷ row (codes "IPoIB") (codes "Mode")
        (named (enum_to_name ipoib_mode_table n.ipoib_mode) n.ipoib_mode)
    ∷ []

abbrev pub rows_if_server : Inet → Option Dhcp4Server → List Row
rows_if_server inet none = []
rows_if_server inet (some s) = server_rows inet s

abbrev pub bridge_port_rows : Network → List Row
bridge_port_rows n =
    row (codes "Bridge") (codes "NeighborSuppression")
      (only (is_positive n.neighbor_suppression) (codes "yes"))
    ∷ []

-- The rows of a network.
abbrev pub network_rows : Inet → Network → List Row
network_rows inet n =
    match_rows n
    ++ link_rows n
    ++ network_section_rows inet n
    ++ dhcp4_rows n
    ++ dhcp6_rows n
    ++ ipv6_accept_ra_rows n
    ++ bridge_port_rows n
    ++ rows_if_server inet n.dhcp4_server
    ++ back_rows n
