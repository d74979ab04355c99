-- ===== src/Network.antt =====
-- `src/manager/network.h`, `network-route.h`, `network-routing-policy-rule.h` and `network-sriov.h`:
-- the description of a network from which a .network file is generated. A `Set` and a hash table are
-- the lists of what they hold, in the order in which GLib walks them.
pub mod Settings
pub mod Documented
pub mod Says
pub mod Sections
pub mod Paths
pub mod Generate
pub mod Appended
pub mod Lists
pub mod Created
pub mod Written
pub mod Saved
pub mod Disk
mod Witnesses
use network_config_manager.Base.{
  ℕ, Bool, true, false, List, [], Bytes, Option, none, some, ◌-◌, ◌^◌,
}
use network_config_manager.CLib.Strtol.{Long}
use network_config_manager.NetworkUtil.{IpAddress, no_address}
use network_config_manager.Settings.{unset, invalid}

pub record Dhcp4ServerLease : Type 0 where
  pub mac : Bytes
  pub addr : IpAddress

pub record Dhcp4Server : Type 0 where
  pub pool_offset : ℕ
  pub pool_size : ℕ
  pub emit_dns : Long
  pub dns : IpAddress
  pub default_lease_time : Option Bytes
  pub max_lease_time : Option Bytes
  pub static_leases : List Dhcp4ServerLease

pub record Route : Type 0 where
  pub table : ℕ
  pub metric : ℕ
  pub initcwnd : ℕ
  pub initrwnd : ℕ
  pub family : ℕ
  pub type : Long
  pub scope : Long
  pub onlink : Long
  pub quick_ack : Long
  pub tfo : Long
  pub ttl_propogate : Long
  pub to_default : Bool
  pub dst : IpAddress
  pub gw : IpAddress
  pub prefsrc : IpAddress

pub record RoutingPolicyRule : Type 0 where
  pub invert_rule : Bool
  pub tos : ℕ
  pub table : ℕ
  pub fwmark : ℕ
  pub priority : ℕ
  pub iif : Option Bytes
  pub oif : Option Bytes
  pub to : IpAddress
  pub from : IpAddress
  pub sport_str : Option Bytes
  pub dport_str : Option Bytes
  pub ipproto_str : Option Bytes

pub record Sriov : Type 0 where
  pub vf : ℕ
  pub vlan : ℕ
  pub qos : ℕ
  pub vlan_proto : Option Bytes
  pub vf_spoof_check_setting : Long
  pub query_rss : Long
  pub trust : Long
  pub macaddr : Option Bytes
  pub link_state : Long

-- Who asks for the file.
pub data ParserType : Type 0 where
  yaml dracut no_parser : ParserType

pub record Network : Type 0 where
  pub ifname : Bytes
  pub mac : Option Bytes
  pub match_mac : Option Bytes
  pub driver : Option (List Bytes)
  pub req_family_for_online : Option Bytes
  pub activation_policy : Option Bytes
  pub parser_type : ParserType
  pub dhcp_type : Long
  pub dhcp4 : Long
  pub dhcp6 : Long
  pub dhcp_client_identifier_type : Long
  pub link_local : Long
  pub ipv6_address_generation : Long
  pub ipv6_privacy : Long
  pub keep_configuration : Long
  pub ipoib_mode : Long
  pub dhcp6_client_start_mode : Long
  pub unmanaged : Long
  pub arp : Long
  pub multicast : Long
  pub all_multicast : Long
  pub promiscuous : Long
  pub req_for_online : Long
  pub optional : Long
  pub configure_without_carrier : Long
  pub mtu : ℕ
  pub ipv6_mtu : ℕ
  pub dhcp4_route_metric : ℕ
  pub dhcp4_initial_congestion_window : ℕ
  pub dhcp4_advertised_receive_window : ℕ
  pub dhcp4_use_mtu : Long
  pub dhcp4_use_dns : Long
  pub dhcp4_use_domains : Long
  pub dhcp4_use_ntp : Long
  pub dhcp4_use_routes : Long
  pub dhcp4_use_gw : Long
  pub dhcp4_use_hostname : Long
  pub dhcp4_send_hostname : Long
  pub dhcp4_send_release : Long
  pub dhcp4_rapid_commit : Long
  pub dhcp4_hostname : Option Bytes
  pub dhcp4_iaid : Option Bytes
  pub dhcp6_use_dns : Long
  pub dhcp6_use_ntp : Long
  pub dhcp6_use_domains : Long
  pub dhcp6_use_hostname : Long
  pub dhcp6_send_release : Long
  pub dhcp6_rapid_commit : Long
  pub dhcp6_use_address : Long
  pub dhcp6_iaid : Option Bytes
  pub ipv6_ra_token : Option Bytes
  pub ipv6_ra_use_dns : Long
  pub ipv6_ra_use_domains : Long
  pub ipv6_ra_use_mtu : Long
  pub ipv6_ra_use_gw : Long
  pub ipv6_ra_use_route_prefix : Long
  pub ipv6_ra_use_auto_prefix : Long
  pub ipv6_ra_use_onlink_prefix : Long
  pub lldp : Long
  pub ipv6_accept_ra : Long
  pub enable_dhcp4_server : Long
  pub addresses : List IpAddress
  pub nameservers : List IpAddress
  pub domains : List Bytes
  pub ntps : Option (List Bytes)
  pub cost : ℕ
  pub priority : ℕ
  pub neighbor_suppression : Long
  pub dhcp4_server : Option Dhcp4Server
  pub modified : Bool
  pub routes : List Route
  pub routing_policy_rules : List RoutingPolicyRule
  pub sriovs : List Sriov

abbrev zero_int : Long
zero_int = record { neg = false; size = 0 }

-- BRIDGE_PRIORITY_MAX
abbrev pub bridge_priority_max : ℕ
bridge_priority_max = 63

-- The fields that `network_new` does not name are zero.
abbrev pub network_new : Bytes → Network
network_new ifname = record {
  ifname = ifname;
  mac = none;
  match_mac = none;
  driver = none;
  req_family_for_online = none;
  activation_policy = none;
  parser_type = no_parser;
  dhcp_type = invalid;
  dhcp4 = unset;
  dhcp6 = unset;
  dhcp_client_identifier_type = invalid;
  link_local = invalid;
  ipv6_address_generation = invalid;
  ipv6_privacy = invalid;
  keep_configuration = invalid;
  ipoib_mode = invalid;
  dhcp6_client_start_mode = invalid;
  unmanaged = unset;
  arp = unset;
  multicast = unset;
  all_multicast = unset;
  promiscuous = unset;
  req_for_online = unset;
  optional = unset;
  configure_without_carrier = unset;
  mtu = 0;
  ipv6_mtu = 0;
  dhcp4_route_metric = 0;
  dhcp4_initial_congestion_window = 0;
  dhcp4_advertised_receive_window = 0;
  dhcp4_use_mtu = unset;
  dhcp4_use_dns = unset;
  dhcp4_use_domains = unset;
  dhcp4_use_ntp = unset;
  dhcp4_use_routes = unset;
  dhcp4_use_gw = unset;
  dhcp4_use_hostname = unset;
  dhcp4_send_hostname = unset;
  dhcp4_send_release = unset;
  dhcp4_rapid_commit = unset;
  dhcp4_hostname = none;
  dhcp4_iaid = none;
  dhcp6_use_dns = unset;
  dhcp6_use_ntp = unset;
  dhcp6_use_domains = unset;
  dhcp6_use_hostname = unset;
  dhcp6_send_release = unset;
  dhcp6_rapid_commit = unset;
  dhcp6_use_address = unset;
  dhcp6_iaid = none;
  ipv6_ra_token = none;
  ipv6_ra_use_dns = unset;
  ipv6_ra_use_domains = unset;
  ipv6_ra_use_mtu = unset;
  ipv6_ra_use_gw = unset;
  ipv6_ra_use_route_prefix = unset;
  ipv6_ra_use_auto_prefix = unset;
  ipv6_ra_use_onlink_prefix = unset;
  lldp = unset;
  ipv6_accept_ra = unset;
  enable_dhcp4_server = unset;
  addresses = [];
  nameservers = [];
  domains = [];
  ntps = none;
  cost = 0;
  priority = 64;
  neighbor_suppression = zero_int;
  dhcp4_server = none;
  modified = false;
  routes = [];
  routing_policy_rules = [];
  sriovs = [];
}
