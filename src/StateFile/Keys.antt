-- ===== src/StateFile/Keys.antt =====
-- The settings that `src/lib-network/networkd/networkd-api.c` asks for, each by its key.
use network_config_manager.Base.{List, Bytes, codes, Option}
use network_config_manager.CLib.Strtol.{Long}
use network_config_manager.Glib.{Glib}
use network_config_manager.ConfFile.{Files, Call}
use network_config_manager.StateFile.{
  network_parse_string, network_parse_strv, network_parse_link_string, network_parse_link_strv,
  network_parse_link_lease_string, network_parse_link_lease_strv,
}

module _ (fs : Files) (g : Glib) where
  abbrev pub network_parse_operational_state : Call fs Bytes
  network_parse_operational_state = network_parse_string fs g (codes "OPER_STATE")

  abbrev pub network_parse_carrier_state : Call fs Bytes
  network_parse_carrier_state = network_parse_string fs g (codes "CARRIER_STATE")

  abbrev pub network_parse_address_state : Call fs Bytes
  network_parse_address_state = network_parse_string fs g (codes "ADDRESS_STATE")

  abbrev pub network_parse_ipv4_address_state : Call fs Bytes
  network_parse_ipv4_address_state = network_parse_string fs g (codes "IPV4_ADDRESS_STATE")

  abbrev pub network_parse_ipv6_address_state : Call fs Bytes
  network_parse_ipv6_address_state = network_parse_string fs g (codes "IPV6_ADDRESS_STATE")

  abbrev pub network_parse_dns : Call fs (Option (List Bytes))
  network_parse_dns = network_parse_strv fs g (codes "DNS")

  abbrev pub network_parse_ntp : Call fs (Option (List Bytes))
  network_parse_ntp = network_parse_strv fs g (codes "NTP")

  abbrev pub network_parse_search_domains : Call fs (Option (List Bytes))
  network_parse_search_domains = network_parse_strv fs g (codes "DOMAINS")

  abbrev pub network_parse_route_domains : Call fs (Option (List Bytes))
  network_parse_route_domains = network_parse_strv fs g (codes "ROUTE_DOMAINS")

  abbrev pub network_parse_link_setup_state : Long → Call fs (Option Bytes)
  network_parse_link_setup_state ifindex =
      network_parse_link_string fs g ifindex (codes "ADMIN_STATE")

  abbrev pub network_parse_link_network_file : Long → Call fs (Option Bytes)
  network_parse_link_network_file ifindex =
      network_parse_link_string fs g ifindex (codes "NETWORK_FILE")

  abbrev pub network_parse_link_operational_state : Long → Call fs (Option Bytes)
  network_parse_link_operational_state ifindex =
      network_parse_link_string fs g ifindex (codes "OPER_STATE")

  abbrev pub network_parse_link_address_state : Long → Call fs (Option Bytes)
  network_parse_link_address_state ifindex =
      network_parse_link_string fs g ifindex (codes "ADDRESS_STATE")

  abbrev pub network_parse_link_ipv4_state : Long → Call fs (Option Bytes)
  network_parse_link_ipv4_state ifindex =
      network_parse_link_string fs g ifindex (codes "IPV4_ADDRESS_STATE")

  abbrev pub network_parse_link_ipv6_state : Long → Call fs (Option Bytes)
  network_parse_link_ipv6_state ifindex =
      network_parse_link_string fs g ifindex (codes "IPV6_ADDRESS_STATE")

  abbrev pub network_parse_link_online_state : Long → Call fs (Option Bytes)
  network_parse_link_online_state ifindex =
      network_parse_link_string fs g ifindex (codes "ONLINE_STATE")

  abbrev pub network_parse_link_required_for_online : Long → Call fs (Option Bytes)
  network_parse_link_required_for_online ifindex =
      network_parse_link_string fs g ifindex (codes "REQUIRED_FOR_ONLINE")

  abbrev pub network_parse_link_device_activation_policy : Long → Call fs (Option Bytes)
  network_parse_link_device_activation_policy ifindex =
      network_parse_link_string fs g ifindex (codes "ACTIVATION_POLICY")

  abbrev pub network_parse_link_llmnr : Long → Call fs (Option Bytes)
  network_parse_link_llmnr ifindex = network_parse_link_string fs g ifindex (codes "LLMNR")

  abbrev pub network_parse_link_mdns : Long → Call fs (Option Bytes)
  network_parse_link_mdns ifindex = network_parse_link_string fs g ifindex (codes "MDNS")

  abbrev pub network_parse_link_dnssec : Long → Call fs (Option Bytes)
  network_parse_link_dnssec ifindex = network_parse_link_string fs g ifindex (codes "DNSSEC")

  abbrev pub network_parse_link_dnssec_negative_trust_anchors : Long → Call fs (Option Bytes)
  network_parse_link_dnssec_negative_trust_anchors ifindex =
      network_parse_link_string fs g ifindex (codes "DNSSEC_NTA")

  abbrev pub network_parse_link_timezone : Long → Call fs (Option Bytes)
  network_parse_link_timezone ifindex = network_parse_link_string fs g ifindex (codes "TIMEZONE")

  abbrev pub network_parse_link_dns : Long → Call fs (Option (List Bytes))
  network_parse_link_dns ifindex = network_parse_link_strv fs g ifindex (codes "DNS")

  abbrev pub network_parse_link_ntp : Long → Call fs (Option (List Bytes))
  network_parse_link_ntp ifindex = network_parse_link_strv fs g ifindex (codes "NTP")

  abbrev pub network_parse_link_search_domains : Long → Call fs (Option (List Bytes))
  network_parse_link_search_domains ifindex = network_parse_link_strv fs g ifindex (codes "DOMAINS")

  abbrev pub network_parse_link_route_domains : Long → Call fs (Option (List Bytes))
  network_parse_link_route_domains ifindex =
      network_parse_link_strv fs g ifindex (codes "ROUTE_DOMAINS")

  abbrev pub network_parse_link_addresses : Long → Call fs (Option (List Bytes))
  network_parse_link_addresses ifindex = network_parse_link_strv fs g ifindex (codes "ADDRESSES")

  abbrev pub network_parse_link_dhcp6_client_iaid : Long → Call fs (Option Bytes)
  network_parse_link_dhcp6_client_iaid ifindex =
      network_parse_link_string fs g ifindex (codes "DHCP6_CLIENT_IAID")

  abbrev pub network_parse_link_dhcp6_client_duid : Long → Call fs (Option Bytes)
  network_parse_link_dhcp6_client_duid ifindex =
      network_parse_link_string fs g ifindex (codes "DHCP6_CLIENT_DUID")

  abbrev pub network_parse_link_dhcp4_address : Long → Call fs (Option Bytes)
  network_parse_link_dhcp4_address ifindex =
      network_parse_link_lease_string fs g ifindex (codes "ADDRESS")

  abbrev pub network_parse_link_dhcp4_server_address : Long → Call fs (Option Bytes)
  network_parse_link_dhcp4_server_address ifindex =
      network_parse_link_lease_string fs g ifindex (codes "SERVER_ADDRESS")

  abbrev pub network_parse_link_dhcp4_router : Long → Call fs (Option Bytes)
  network_parse_link_dhcp4_router ifindex =
      network_parse_link_lease_string fs g ifindex (codes "ROUTER")

  abbrev pub network_parse_link_dhcp4_client_id : Long → Call fs (Option Bytes)
  network_parse_link_dhcp4_client_id ifindex =
      network_parse_link_lease_string fs g ifindex (codes "CLIENTID")

  abbrev pub network_parse_link_dhcp4_address_lifetime : Long → Call fs (Option Bytes)
  network_parse_link_dhcp4_address_lifetime ifindex =
      network_parse_link_lease_string fs g ifindex (codes "LIFETIME")

  abbrev pub network_parse_link_dhcp4_address_lifetime_t1 : Long → Call fs (Option Bytes)
  network_parse_link_dhcp4_address_lifetime_t1 ifindex =
      network_parse_link_lease_string fs g ifindex (codes "T1")

  abbrev pub network_parse_link_dhcp4_address_lifetime_t2 : Long → Call fs (Option Bytes)
  network_parse_link_dhcp4_address_lifetime_t2 ifindex =
      network_parse_link_lease_string fs g ifindex (codes "T2")

  abbrev pub network_parse_link_dhcp4_dns : Long → Call fs (Option (List Bytes))
  network_parse_link_dhcp4_dns ifindex = network_parse_link_lease_strv fs g ifindex (codes "DNS")

  abbrev pub network_parse_link_dhcp4_search_domains : Long → Call fs (Option (List Bytes))
  network_parse_link_dhcp4_search_domains ifindex =
      network_parse_link_lease_strv fs g ifindex (codes "DOMAINS")

  abbrev pub network_parse_link_dhcp4_ntp : Long → Call fs (Option (List Bytes))
  network_parse_link_dhcp4_ntp ifindex = network_parse_link_lease_strv fs g ifindex (codes "NTP")
