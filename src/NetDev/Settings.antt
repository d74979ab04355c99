-- ===== src/NetDev/Settings.antt =====
-- The settings that `generate_netdev_config` of `src/manager/netdev.c` writes, by the kind of the device.
use network_config_manager.Base.{
  ℕ, ◌-◌, ◌^◌, Bool, true, false, not, ◌&&◌, ◌||◌, List, [], ◌∷◌, ◌++◌, Bytes, codes, Option, none,
  some, leb, ltb, ◌==◌,
}
use network_config_manager.CLib.Decimal.{print_uint}
use network_config_manager.CLib.Strtol.{Long}
use network_config_manager.Outcome.{Outcome, ok, fault}
use network_config_manager.StringUtil.{bool_to_str}
use network_config_manager.NetworkUtil.{Inet, IpAddress, ip_to_str, ip_is_null}
use network_config_manager.Settings.{
  Setting, text, counted, when, setting, set_str, set_bool, if_str, if_bool, if_counted, if_valid,
  is_set, is_true, spaced, invalid,
}
use network_config_manager.EnumTable.{enum_to_name}
use network_config_manager.EnumTable.NetDev.{
  netdev_kind_table, bond_mode_table, bond_xmit_hash_policy_table, bond_lacp_rate_table,
  bond_arp_validate_table, bond_fail_over_mac_table, bond_ad_select_table,
  bond_primary_reselect_table, macvlan_mode_table, ipvlan_mode_table,
}
use network_config_manager.Network.Sections.{or_null}
use network_config_manager.NetDev.{
  NetDevKind, vlan, bridge, bond, vxlan, macvlan, macvtap, ipvlan, ipvtap, vrf, tun, tap, veth,
  ipip_tunnel, sit_tunnel, gre_tunnel, vti_tunnel, wireguard, invalid_kind, resend_igmp_max,
  packets_per_slave_max, gratuitous_arp_max, Bridge, Vlan, Bond, Vxlan, Tunnel, TunTap, WireGuard,
  Veth, NetDev,
}

abbrev number_of : ℕ → Long
number_of n = record { neg = false; size = n }

-- The value of the enumeration.
abbrev pub kind_number : NetDevKind → Long
kind_number vlan = number_of 0
kind_number bridge = number_of 1
kind_number bond = number_of 2
kind_number vxlan = number_of 3
kind_number macvlan = number_of 4
kind_number macvtap = number_of 5
kind_number ipvlan = number_of 6
kind_number ipvtap = number_of 7
kind_number vrf = number_of 8
kind_number tun = number_of 9
kind_number tap = number_of 10
kind_number veth = number_of 11
kind_number ipip_tunnel = number_of 12
kind_number sit_tunnel = number_of 13
kind_number gre_tunnel = number_of 14
kind_number vti_tunnel = number_of 15
kind_number wireguard = number_of 16
kind_number invalid_kind = invalid

abbrev pub is_minus_one : Long → Bool
is_minus_one v = v.neg && v.size == 1

-- `strv_length(v) > 0`
abbrev pub if_some_words : Bytes → Bytes → Option (List Bytes) → List Setting
if_some_words section key none = []
if_some_words section key (some []) = []
if_some_words section key (some (x ∷ xs)) = set_str section key (spaced (x ∷ xs))

unfoldable pub name_settings : NetDev → List Setting
name_settings n =
    set_str (codes "NetDev") (codes "Name") n.ifname
    ++ setting (codes "NetDev") (codes "Kind")
        (text (enum_to_name netdev_kind_table (kind_number n.kind)))

unfoldable pub bridge_settings : Bridge → List Setting
bridge_settings v =
    if_bool (codes "Bridge") (codes "MulticastQuerier") v.mcast_querier
    ++ if_bool (codes "Bridge") (codes "MulticastSnooping") v.mcast_snooping
    ++ if_bool (codes "Bridge") (codes "VLANFiltering") v.vlan_filtering
    ++ if_bool (codes "Bridge") (codes "VLANProtocol") v.vlan_protocol
    ++ if_bool (codes "Bridge") (codes "STP") v.stp
    ++ when (not (v.forward_delay == 2 ^ 64 - 1))
        (setting (codes "Bridge") (codes "ForwardDelaySec") (counted v.forward_delay))
    ++ when (not (v.hello_time == 2 ^ 64 - 1))
        (setting (codes "Bridge") (codes "HelloTimeSec") (counted v.hello_time))
    ++ when (not (v.ageing_time == 2 ^ 64 - 1))
        (setting (codes "Bridge") (codes "AgeingTimeSec") (counted v.ageing_time))
    ++ when (not (v.max_age == 2 ^ 64 - 1))
        (setting (codes "Bridge") (codes "MaxAgeSec") (counted v.max_age))
    ++ when (not (v.priority == 2 ^ 16 - 1))
        (setting (codes "Bridge") (codes "Priority") (counted v.priority))

unfoldable pub vlan_settings : Vlan → List Setting
vlan_settings v =
    setting (codes "VLAN") (codes "Id") (counted v.id)
    ++ if_str (codes "VLAN") (codes "Protocol") v.proto
    ++ if_bool (codes "VLAN") (codes "GVRP") v.gvrp
    ++ if_bool (codes "VLAN") (codes "MVRP") v.mvrp
    ++ if_bool (codes "VLAN") (codes "LooseBinding") v.loose_binding
    ++ if_bool (codes "VLAN") (codes "ReorderHeader") v.reorder_header

unfoldable pub bond_settings : Bond → List Setting
bond_settings v =
    if_valid (codes "Bond") (codes "Mode") v.mode (enum_to_name bond_mode_table v.mode)
    ++ if_valid (codes "Bond") (codes "TransmitHashPolicy") v.xmit_hash_policy
        (enum_to_name bond_xmit_hash_policy_table v.xmit_hash_policy)
    ++ if_valid (codes "Bond") (codes "LACPTransmitRate") v.lacp_rate
        (enum_to_name bond_lacp_rate_table v.lacp_rate)
    ++ if_valid (codes "Bond") (codes "ARPValidate") v.arp_validate
        (enum_to_name bond_arp_validate_table v.arp_validate)
    ++ if_valid (codes "Bond") (codes "FailOverMACPolicy") v.fail_over_mac
        (enum_to_name bond_fail_over_mac_table v.fail_over_mac)
    ++ if_valid (codes "Bond") (codes "AdSelect") v.ad_select
        (enum_to_name bond_ad_select_table v.ad_select)
    ++ if_valid (codes "Bond") (codes "PrimaryReselectPolicy") v.primary_reselect
        (enum_to_name bond_primary_reselect_table v.primary_reselect)
    ++ when (not (v.mii_monitor_interval == 2 ^ 64 - 1))
        (setting (codes "Bond") (codes "MIIMonitorSec") (counted v.mii_monitor_interval))
    ++ if_counted (codes "Bond") (codes "MinLinks") v.min_links
    ++ if_counted (codes "Bond") (codes "ARPIntervalSec") v.arp_interval
    ++ if_counted (codes "Bond") (codes "UpDelaySec") v.up_delay
    ++ if_counted (codes "Bond") (codes "DownDelaySec") v.down_delay
    ++ if_counted (codes "Bond") (codes "LearnPacketIntervalSec") v.lp_interval
    ++ when (leb v.resend_igmp resend_igmp_max)
        (setting (codes "Bond") (codes "ResendIGMP") (counted v.resend_igmp))
    ++ when (leb v.packets_per_slave packets_per_slave_max)
        (setting (codes "Bond") (codes "PacketsPerSlave") (counted v.packets_per_slave))
    ++ when (leb v.ngrat_arp gratuitous_arp_max)
        (setting (codes "Bond") (codes "GratuitousARP") (counted v.ngrat_arp))
    ++ if_bool (codes "Bond") (codes "AllSlavesActive") v.all_slaves_active
    ++ if_some_words (codes "Bond") (codes "ARPIPTargets") v.arp_ip_targets

-- An address that cannot be printed is NULL.
abbrev pub if_address : Inet → Bytes → Bytes → IpAddress → List Setting
if_address inet section key a =
    when (not (ip_is_null a)) (setting section key (text (or_null (ip_to_str inet a.family a))))

-- `L3MissNotification` is written from `l2miss`.
unfoldable pub vxlan_settings : Inet → Vxlan → List Setting
vxlan_settings inet v =
    setting (codes "VXLAN") (codes "VNI") (counted v.vni)
    ++ if_address inet (codes "VXLAN") (codes "Local") v.local
    ++ if_address inet (codes "VXLAN") (codes "Remote") v.remote
    ++ if_address inet (codes "VXLAN") (codes "Group") v.group
    ++ if_counted (codes "VXLAN") (codes "DestinationPort") v.destination_port
    ++ when (is_true v.independent)
        (set_str (codes "VXLAN") (codes "Independent") (bool_to_str true))
    ++ if_counted (codes "VXLAN") (codes "TOS") v.tos
    ++ when (not (is_minus_one v.learning))
        (set_bool (codes "VXLAN") (codes "MacLearning") v.learning)
    ++ when (is_set v.arp_proxy || is_minus_one v.arp_proxy)
        (set_bool (codes "VXLAN") (codes "ReduceARPProxy") v.arp_proxy)
    ++ if_counted (codes "VXLAN") (codes "FDBAgeingSec") v.fdb_ageing
    ++ when (not (v.flow_label == 2 ^ 32 - 1))
        (setting (codes "VXLAN") (codes "FlowLabel") (counted v.flow_label))
    ++ if_counted (codes "VXLAN") (codes "MaximumFDBEntries") v.max_fdb
    ++ if_bool (codes "VXLAN") (codes "IPDoNotFragment") v.df
    ++ if_bool (codes "VXLAN") (codes "L2MissNotification") v.l2miss
    ++ when (is_set v.l3miss) (set_bool (codes "VXLAN") (codes "L3MissNotification") v.l2miss)
    ++ if_bool (codes "VXLAN") (codes "RouteShortCircuit") v.route_short_circuit
    ++ if_bool (codes "VXLAN") (codes "UDPChecksum") v.udpcsum
    ++ if_bool (codes "VXLAN") (codes "UDP6ZeroChecksumTx") v.udp6zerocsumtx
    ++ if_bool (codes "VXLAN") (codes "UDP6ZeroChecksumRx") v.udp6zerocsumrx
    ++ if_bool (codes "VXLAN") (codes "RemoteChecksumTx") v.remote_csum_tx
    ++ if_bool (codes "VXLAN") (codes "RemoteChecksumRx") v.remote_csum_rx
    ++ if_bool (codes "VXLAN") (codes "GroupPolicyExtension") v.group_policy
    ++ if_bool (codes "VXLAN") (codes "GenericProtocolExtension") v.generic_protocol_extension
    ++ when (ltb v.low_port v.high_port) (
        set_str (codes "VXLAN") (codes "PortRange")
          (print_uint v.low_port ++ (b'-' ∷ print_uint v.high_port)))

unfoldable pub tuntap_settings : Bytes → TunTap → List Setting
tuntap_settings section v =
    if_str section (codes "User") v.user
    ++ if_str section (codes "Group") v.group
    ++ if_bool section (codes "PacketInfo") v.packet_info
    ++ if_bool section (codes "VNetHeader") v.vnet_hdr
    ++ if_bool section (codes "KeepCarrier") v.keep_carrier
    ++ if_bool section (codes "MultiQueue") v.multi_queue

unfoldable pub tunnel_settings : Inet → Tunnel → List Setting
tunnel_settings inet v =
    when v.independent (set_str (codes "Tunnel") (codes "Independent") (bool_to_str true))
    ++ if_address inet (codes "Tunnel") (codes "Local") v.local
    ++ if_address inet (codes "Tunnel") (codes "Remote") v.remote
    ++ if_counted (codes "Tunnel") (codes "Key") v.key
    ++ if_counted (codes "Tunnel") (codes "InputKey") v.ikey
    ++ if_counted (codes "Tunnel") (codes "OutputKey") v.okey
    ++ if_counted (codes "Tunnel") (codes "TTL") v.ttl

unfoldable pub wireguard_settings : WireGuard → List Setting
wireguard_settings v =
    if_str (codes "WireGuard") (codes "PrivateKey") v.private_key
    ++ if_str (codes "WireGuard") (codes "PrivateKeyFile") v.private_key_file
    ++ if_counted (codes "WireGuard") (codes "ListenPort") v.listen_port
    ++ if_counted (codes "WireGuard") (codes "FwMark") v.fwmark

abbrev pub peer_of : Option Veth → List Setting
peer_of none = []
peer_of (some v) = if_str (codes "Peer") (codes "Name") v.peer

-- `n->bridge` and the others are read without a test for NULL.
abbrev pub of_pointer {ℓ} : {A : Type ℓ} → Option A → (A → List Setting) → Outcome (List Setting)
of_pointer none f = fault
of_pointer (some a) f = ok (f a)

-- The `switch`.
unfoldable pub kind_settings : Inet → NetDev → Outcome (List Setting)
kind_settings inet n = elim n.kind [
  | vlan ↦ of_pointer n.vlan_data vlan_settings
  | bridge ↦ of_pointer n.bridge_data bridge_settings
  | bond ↦ of_pointer n.bond_data bond_settings
  | vxlan ↦ of_pointer n.vxlan_data (vxlan_settings inet)
  | macvlan ↦ of_pointer n.macvlan_data (λ v.
      if_valid (codes "MACVLAN") (codes "Mode") v.mode (enum_to_name macvlan_mode_table v.mode))
  | macvtap ↦ of_pointer n.macvlan_data (λ v.
      setting (codes "MACVTAP") (codes "Mode") (text (enum_to_name macvlan_mode_table v.mode)))
  | ipvlan ↦
      of_pointer n.ipvlan_data (λ v.
        setting (codes "IPVLAN") (codes "Mode") (text (enum_to_name ipvlan_mode_table v.mode)))
  | ipvtap ↦
      of_pointer n.ipvlan_data (λ v.
        setting (codes "IPVTAP") (codes "Mode") (text (enum_to_name ipvlan_mode_table v.mode)))
  | vrf ↦ of_pointer n.vrf_data (λ v. setting (codes "VRF") (codes "Table") (counted v.table))
  | tun ↦ of_pointer n.tun_tap (tuntap_settings (codes "Tun"))
  | tap ↦ of_pointer n.tun_tap (tuntap_settings (codes "Tap"))
  | veth ↦ ok (peer_of n.veth_data)
  | ipip_tunnel ↦ of_pointer n.tunnel (tunnel_settings inet)
  | sit_tunnel ↦ of_pointer n.tunnel (tunnel_settings inet)
  | gre_tunnel ↦ of_pointer n.tunnel (tunnel_settings inet)
  | vti_tunnel ↦ of_pointer n.tunnel (tunnel_settings inet)
  | wireguard ↦ of_pointer n.wg wireguard_settings
  | invalid_kind ↦ ok []
]
