-- ===== src/NetDev.antt =====
-- The virtual devices of `src/manager/netdev.h`, as `src/manager/netdev.c` makes them, and the file that
-- it writes for one.
pub mod Settings
pub mod Documented
pub mod Says
pub mod Generate
pub mod Devices
pub mod Master
pub mod Saved
mod Witnesses
use network_config_manager.Base.{ℕ, ◌+◌, ◌-◌, ◌^◌, Bool, false, List, [], Bytes, Option, none}
use network_config_manager.CLib.Strtol.{Long}
use network_config_manager.NetworkUtil.{IpAddress, no_address}
use network_config_manager.Settings.{unset, invalid}

pub data NetDevKind : Type 0 where
  vlan bridge bond vxlan macvlan macvtap ipvlan ipvtap vrf tun tap veth ipip_tunnel sit_tunnel
        gre_tunnel vti_tunnel wireguard invalid_kind :
      NetDevKind

abbrev pub zero_int : Long
zero_int = record { neg = false; size = 0 }

-- G_MAXUINT
abbrev pub uint_max : ℕ
uint_max = 2 ^ 32 - 1

abbrev pub resend_igmp_max : ℕ
resend_igmp_max = 255

abbrev pub packets_per_slave_max : ℕ
packets_per_slave_max = 65535

abbrev pub gratuitous_arp_max : ℕ
gratuitous_arp_max = 255

pub record TunTap : Type 0 where
  pub user : Option Bytes
  pub group : Option Bytes
  pub multi_queue : Long
  pub packet_info : Long
  pub vnet_hdr : Long
  pub keep_carrier : Long

abbrev pub tuntap_new : TunTap
tuntap_new = record {
  user = none;
  group = none;
  multi_queue = unset;
  packet_info = unset;
  vnet_hdr = unset;
  keep_carrier = unset;
}

pub record Vlan : Type 0 where
  pub id : ℕ
  pub proto : Option Bytes
  pub master : Option Bytes
  pub gvrp : Long
  pub mvrp : Long
  pub loose_binding : Long
  pub reorder_header : Long

abbrev pub vlan_new : Vlan
vlan_new = record {
  id = 0;
  proto = none;
  master = none;
  gvrp = unset;
  mvrp = unset;
  loose_binding = unset;
  reorder_header = unset;
}

pub record WireGuardPeer : Type 0 where
  pub public_key : Option Bytes
  pub preshared_key_file : Option Bytes
  pub preshared_key : Option Bytes
  pub endpoint : Option Bytes
  pub allowed_ips : Option (List Bytes)
  pub persistent_keep_alive : Long

abbrev pub wireguard_peer_new : WireGuardPeer
wireguard_peer_new = record {
  public_key = none;
  preshared_key_file = none;
  preshared_key = none;
  endpoint = none;
  allowed_ips = none;
  persistent_keep_alive = zero_int;
}

pub record WireGuard : Type 0 where
  pub private_key : Option Bytes
  pub private_key_file : Option Bytes
  pub listen_port : ℕ
  pub fwmark : ℕ
  pub peers : List WireGuardPeer

abbrev pub wireguard_new : WireGuard
wireguard_new = record {
  private_key = none;
  private_key_file = none;
  listen_port = 0;
  fwmark = 0;
  peers = [];
}

pub record Vxlan : Type 0 where
  pub vni : ℕ
  pub local : IpAddress
  pub remote : IpAddress
  pub group : IpAddress
  pub destination_port : ℕ
  pub low_port : ℕ
  pub high_port : ℕ
  pub tos : ℕ
  pub ttl : ℕ
  pub max_fdb : ℕ
  pub flow_label : ℕ
  pub fdb_ageing : ℕ
  pub learning : Long
  pub arp_proxy : Long
  pub route_short_circuit : Long
  pub l2miss : Long
  pub l3miss : Long
  pub udpcsum : Long
  pub udp6zerocsumtx : Long
  pub udp6zerocsumrx : Long
  pub remote_csum_tx : Long
  pub remote_csum_rx : Long
  pub group_policy : Long
  pub generic_protocol_extension : Long
  pub df : Long
  pub independent : Long
  pub master : Option Bytes

abbrev pub vxlan_new : Vxlan
vxlan_new = record {
  vni = 0;
  local = no_address;
  remote = no_address;
  group = no_address;
  destination_port = 0;
  low_port = 0;
  high_port = 0;
  tos = 0;
  ttl = 0;
  max_fdb = 0;
  flow_label = uint_max;
  fdb_ageing = 0;
  learning = unset;
  arp_proxy = unset;
  route_short_circuit = unset;
  l2miss = unset;
  l3miss = unset;
  udpcsum = unset;
  udp6zerocsumtx = unset;
  udp6zerocsumrx = unset;
  remote_csum_tx = unset;
  remote_csum_rx = unset;
  group_policy = zero_int;
  generic_protocol_extension = zero_int;
  df = unset;
  independent = zero_int;
  master = none;
}

pub record Tunnel : Type 0 where
  pub independent : Bool
  pub ttl : ℕ
  pub tos : ℕ
  pub key : ℕ
  pub ikey : ℕ
  pub okey : ℕ
  pub local : IpAddress
  pub remote : IpAddress

abbrev pub tunnel_new : Tunnel
tunnel_new = record {
  independent = false;
  ttl = 0;
  tos = 0;
  key = 0;
  ikey = 0;
  okey = 0;
  local = no_address;
  remote = no_address;
}

pub record Bond : Type 0 where
  pub mode : Long
  pub xmit_hash_policy : Long
  pub lacp_rate : Long
  pub arp_validate : Long
  pub fail_over_mac : Long
  pub ad_select : Long
  pub primary_reselect : Long
  pub mii_monitor_interval : ℕ
  pub arp_interval : ℕ
  pub up_delay : ℕ
  pub down_delay : ℕ
  pub lp_interval : ℕ
  pub min_links : ℕ
  pub resend_igmp : ℕ
  pub packets_per_slave : ℕ
  pub ngrat_arp : ℕ
  pub all_slaves_active : Long
  pub arp_ip_targets : Option (List Bytes)
  pub interfaces : Option (List Bytes)

abbrev pub bond_new : Bond
bond_new = record {
  mode = zero_int;
  xmit_hash_policy = invalid;
  lacp_rate = invalid;
  arp_validate = invalid;
  fail_over_mac = invalid;
  ad_select = invalid;
  primary_reselect = zero_int;
  mii_monitor_interval = 2 ^ 64 - 1;
  arp_interval = 0;
  up_delay = 0;
  down_delay = 0;
  lp_interval = 0;
  min_links = 0;
  resend_igmp = resend_igmp_max + 1;
  packets_per_slave = packets_per_slave_max + 1;
  ngrat_arp = gratuitous_arp_max + 1;
  all_slaves_active = unset;
  arp_ip_targets = none;
  interfaces = none;
}

pub record Bridge : Type 0 where
  pub mcast_querier : Long
  pub mcast_snooping : Long
  pub vlan_filtering : Long
  pub vlan_protocol : Long
  pub stp : Long
  pub priority : ℕ
  pub forward_delay : ℕ
  pub hello_time : ℕ
  pub max_age : ℕ
  pub ageing_time : ℕ
  pub interfaces : Option (List Bytes)

abbrev pub bridge_new : Bridge
bridge_new = record {
  mcast_querier = unset;
  mcast_snooping = unset;
  vlan_filtering = unset;
  vlan_protocol = unset;
  stp = unset;
  priority = 2 ^ 16 - 1;
  forward_delay = 2 ^ 64 - 1;
  hello_time = 2 ^ 64 - 1;
  max_age = 2 ^ 64 - 1;
  ageing_time = 2 ^ 64 - 1;
  interfaces = none;
}

pub record Vrf : Type 0 where
  pub table : ℕ
  pub interfaces : Option (List Bytes)

abbrev pub vrf_new : Vrf
vrf_new = record { table = 0; interfaces = none }

pub record Veth : Type 0 where
  pub peer : Option Bytes

abbrev pub veth_new : Veth
veth_new = record { peer = none }

pub record Macvlan : Type 0 where
  pub master : Option Bytes
  pub mode : Long

abbrev pub macvlan_new : Macvlan
macvlan_new = record { master = none; mode = invalid }

pub record Ipvlan : Type 0 where
  pub mode : Long

abbrev pub ipvlan_new : Ipvlan
ipvlan_new = record { mode = invalid }

-- A device; the pointers to the structures of the other kinds are NULL.
pub record NetDev : Type 0 where
  pub ifname : Bytes
  pub master : Option Bytes
  pub mac : Option Bytes
  pub kind : NetDevKind
  pub tun_tap : Option TunTap
  pub vlan_data : Option Vlan
  pub wg : Option WireGuard
  pub vxlan_data : Option Vxlan
  pub tunnel : Option Tunnel
  pub bond_data : Option Bond
  pub bridge_data : Option Bridge
  pub vrf_data : Option Vrf
  pub veth_data : Option Veth
  pub macvlan_data : Option Macvlan
  pub ipvlan_data : Option Ipvlan

abbrev pub netdev_new : Bytes → NetDev
netdev_new ifname = record {
  ifname = ifname;
  master = none;
  mac = none;
  kind = invalid_kind;
  tun_tap = none;
  vlan_data = none;
  wg = none;
  vxlan_data = none;
  tunnel = none;
  bond_data = none;
  bridge_data = none;
  vrf_data = none;
  veth_data = none;
  macvlan_data = none;
  ipvlan_data = none;
}
