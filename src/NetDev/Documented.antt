-- ===== src/NetDev/Documented.antt =====
-- What a .netdev file says of a device: for each key the field that decides it, and when it is there.
use network_config_manager.Base.{
  ◌-◌, ◌^◌, not, ◌||◌, List, [], ◌∷◌, ◌++◌, Bytes, codes, Option, none, some, leb, ltb, ◌==◌,
}
use network_config_manager.CLib.Decimal.{print_uint}
use network_config_manager.NetworkUtil.{Inet, IpAddress, ip_to_str, ip_is_null}
use network_config_manager.Settings.{is_set, is_true, spaced}
use network_config_manager.Settings.Overlay.{text_or_empty}
use network_config_manager.Settings.Table.{Row, row, flag, unsigned, only, named, yes_or_no}
use network_config_manager.EnumTable.{enum_to_name}
use network_config_manager.EnumTable.NetDev.{
  bond_mode_table, bond_xmit_hash_policy_table, bond_lacp_rate_table, bond_arp_validate_table,
  bond_fail_over_mac_table, bond_ad_select_table, bond_primary_reselect_table, macvlan_mode_table,
  ipvlan_mode_table,
}
use network_config_manager.Network.Sections.{or_null}
use network_config_manager.NetDev.{
  NetDevKind, vlan, bridge, bond, vxlan, macvlan, macvtap, ipvlan, ipvtap, vrf, tun, tap, veth,
  ipip_tunnel, sit_tunnel, gre_tunnel, vti_tunnel, wireguard, invalid_kind, resend_igmp_max,
  packets_per_slave_max, gratuitous_arp_max, Bridge, Vlan, Bond, Vxlan, Tunnel, TunTap, WireGuard,
  Veth, NetDev,
}
use network_config_manager.NetDev.Settings.{is_minus_one}

-- The word for a kind.
abbrev pub kind_word : NetDevKind → Bytes
kind_word vlan = codes "vlan"
kind_word bridge = codes "bridge"
kind_word bond = codes "bond"
kind_word vxlan = codes "vxlan"
kind_word macvlan = codes "macvlan"
kind_word macvtap = codes "macvtap"
kind_word ipvlan = codes "ipvlan"
kind_word ipvtap = codes "ipvtap"
kind_word vrf = codes "vrf"
kind_word tun = codes "tun"
kind_word tap = codes "tap"
kind_word veth = codes "veth"
kind_word ipip_tunnel = codes "ipip"
kind_word sit_tunnel = codes "sit"
kind_word gre_tunnel = codes "gre"
kind_word vti_tunnel = codes "vti"
kind_word wireguard = codes "wireguard"
kind_word invalid_kind = []

abbrev pub listed_if_any : Option (List Bytes) → Option Bytes
listed_if_any none = none
listed_if_any (some []) = none
listed_if_any (some (x ∷ xs)) = some (spaced (x ∷ xs))

-- An address that is not all zero. It is empty where it cannot be printed.
abbrev pub address : Inet → IpAddress → Option Bytes
address inet a = only (not (ip_is_null a)) (text_or_empty (or_null (ip_to_str inet a.family a)))

abbrev pub name_rows : NetDev → List Row
name_rows n =
    row (codes "NetDev") (codes "Name") (some n.ifname)
    ∷ row (codes "NetDev") (codes "Kind") (some (kind_word n.kind))
    ∷ []

abbrev pub bridge_rows : Bridge → List Row
bridge_rows v =
    row (codes "Bridge") (codes "MulticastQuerier") (flag v.mcast_querier)
    ∷ row (codes "Bridge") (codes "MulticastSnooping") (flag v.mcast_snooping)
    ∷ row (codes "Bridge") (codes "VLANFiltering") (flag v.vlan_filtering)
    ∷ row (codes "Bridge") (codes "VLANProtocol") (flag v.vlan_protocol)
    ∷ row (codes "Bridge") (codes "STP") (flag v.stp)
    ∷ row (codes "Bridge") (codes "ForwardDelaySec")
        (only (not (v.forward_delay == 2 ^ 64 - 1)) (unsigned v.forward_delay))
    ∷ row (codes "Bridge") (codes "HelloTimeSec")
        (only (not (v.hello_time == 2 ^ 64 - 1)) (unsigned v.hello_time))
    ∷ row (codes "Bridge") (codes "AgeingTimeSec")
        (only (not (v.ageing_time == 2 ^ 64 - 1)) (unsigned v.ageing_time))
    ∷ row (codes "Bridge") (codes "MaxAgeSec")
        (only (not (v.max_age == 2 ^ 64 - 1)) (unsigned v.max_age))
    ∷ row (codes "Bridge") (codes "Priority")
        (only (not (v.priority == 2 ^ 16 - 1)) (unsigned v.priority))
    ∷ []

abbrev pub vlan_rows : Vlan → List Row
vlan_rows v =
    row (codes "VLAN") (codes "Id") (some (unsigned v.id))
    ∷ row (codes "VLAN") (codes "Protocol") v.proto
    ∷ row (codes "VLAN") (codes "GVRP") (flag v.gvrp)
    ∷ row (codes "VLAN") (codes "MVRP") (flag v.mvrp)
    ∷ row (codes "VLAN") (codes "LooseBinding") (flag v.loose_binding)
    ∷ row (codes "VLAN") (codes "ReorderHeader") (flag v.reorder_header)
    ∷ []

abbrev pub bond_rows : Bond → List Row
bond_rows v =
    row (codes "Bond") (codes "Mode") (named (enum_to_name bond_mode_table v.mode) v.mode)
    ∷ row (codes "Bond") (codes "TransmitHashPolicy")
        (named (enum_to_name bond_xmit_hash_policy_table v.xmit_hash_policy) v.xmit_hash_policy)
    ∷ row (codes "Bond") (codes "LACPTransmitRate")
        (named (enum_to_name bond_lacp_rate_table v.lacp_rate) v.lacp_rate)
    ∷ row (codes "Bond") (codes "ARPValidate")
        (named (enum_to_name bond_arp_validate_table v.arp_validate) v.arp_validate)
    ∷ row (codes "Bond") (codes "FailOverMACPolicy")
        (named (enum_to_name bond_fail_over_mac_table v.fail_over_mac) v.fail_over_mac)
    ∷ row (codes "Bond") (codes "AdSelect")
        (named (enum_to_name bond_ad_select_table v.ad_select) v.ad_select)
    ∷ row (codes "Bond") (codes "PrimaryReselectPolicy")
        (named (enum_to_name bond_primary_reselect_table v.primary_reselect) v.primary_reselect)
    ∷ row (codes "Bond") (codes "MIIMonitorSec")
        (only (not (v.mii_monitor_interval == 2 ^ 64 - 1)) (unsigned v.mii_monitor_interval))
    ∷ row (codes "Bond") (codes "MinLinks") (only (leb 1 v.min_links) (unsigned v.min_links))
    ∷ row (codes "Bond") (codes "ARPIntervalSec")
        (only (leb 1 v.arp_interval) (unsigned v.arp_interval))
    ∷ row (codes "Bond") (codes "UpDelaySec") (only (leb 1 v.up_delay) (unsigned v.up_delay))
    ∷ row (codes "Bond") (codes "DownDelaySec") (only (leb 1 v.down_delay) (unsigned v.down_delay))
    ∷ row (codes "Bond") (codes "LearnPacketIntervalSec")
        (only (leb 1 v.lp_interval) (unsigned v.lp_interval))
    ∷ row (codes "Bond") (codes "ResendIGMP")
        (only (leb v.resend_igmp resend_igmp_max) (unsigned v.resend_igmp))
    ∷ row (codes "Bond") (codes "PacketsPerSlave")
        (only (leb v.packets_per_slave packets_per_slave_max) (unsigned v.packets_per_slave))
    ∷ row (codes "Bond") (codes "GratuitousARP")
        (only (leb v.ngrat_arp gratuitous_arp_max) (unsigned v.ngrat_arp))
    ∷ row (codes "Bond") (codes "AllSlavesActive") (flag v.all_slaves_active)
    ∷ row (codes "Bond") (codes "ARPIPTargets") (listed_if_any v.arp_ip_targets)
    ∷ []

abbrev pub vxlan_rows : Inet → Vxlan → List Row
vxlan_rows inet v =
    row (codes "VXLAN") (codes "VNI") (some (unsigned v.vni))
    ∷ row (codes "VXLAN") (codes "Local") (address inet v.local)
    ∷ row (codes "VXLAN") (codes "Remote") (address inet v.remote)
    ∷ row (codes "VXLAN") (codes "Group") (address inet v.group)
    ∷ row (codes "VXLAN") (codes "DestinationPort")
        (only (leb 1 v.destination_port) (unsigned v.destination_port))
    ∷ row (codes "VXLAN") (codes "Independent") (only (is_true v.independent) (codes "yes"))
    ∷ row (codes "VXLAN") (codes "TOS") (only (leb 1 v.tos) (unsigned v.tos))
    ∷ row (codes "VXLAN") (codes "MacLearning")
        (only (not (is_minus_one v.learning)) (yes_or_no (leb 1 v.learning.size)))
    ∷ row (codes "VXLAN") (codes "ReduceARPProxy")
        (only (is_set v.arp_proxy || is_minus_one v.arp_proxy) (yes_or_no (leb 1 v.arp_proxy.size)))
    ∷ row (codes "VXLAN") (codes "FDBAgeingSec") (only (leb 1 v.fdb_ageing) (unsigned v.fdb_ageing))
    ∷ row (codes "VXLAN") (codes "FlowLabel")
        (only (not (v.flow_label == 2 ^ 32 - 1)) (unsigned v.flow_label))
    ∷ row (codes "VXLAN") (codes "MaximumFDBEntries") (only (leb 1 v.max_fdb) (unsigned v.max_fdb))
    ∷ row (codes "VXLAN") (codes "IPDoNotFragment") (flag v.df)
    ∷ row (codes "VXLAN") (codes "L2MissNotification") (flag v.l2miss)
    ∷ row (codes "VXLAN") (codes "L3MissNotification")
        (only (is_set v.l3miss) (yes_or_no (leb 1 v.l2miss.size)))
    ∷ row (codes "VXLAN") (codes "RouteShortCircuit") (flag v.route_short_circuit)
    ∷ row (codes "VXLAN") (codes "UDPChecksum") (flag v.udpcsum)
    ∷ row (codes "VXLAN") (codes "UDP6ZeroChecksumTx") (flag v.udp6zerocsumtx)
    ∷ row (codes "VXLAN") (codes "UDP6ZeroChecksumRx") (flag v.udp6zerocsumrx)
    ∷ row (codes "VXLAN") (codes "RemoteChecksumTx") (flag v.remote_csum_tx)
    ∷ row (codes "VXLAN") (codes "RemoteChecksumRx") (flag v.remote_csum_rx)
    ∷ row (codes "VXLAN") (codes "GroupPolicyExtension") (flag v.group_policy)
    ∷ row (codes "VXLAN") (codes "GenericProtocolExtension") (flag v.generic_protocol_extension)
    ∷ row (codes "VXLAN") (codes "PortRange") (
        only (ltb v.low_port v.high_port)
          (print_uint v.low_port ++ (b'-' ∷ print_uint v.high_port)))
    ∷ []

abbrev pub tuntap_rows : Bytes → TunTap → List Row
tuntap_rows section v =
    row section (codes "User") v.user
    ∷ row section (codes "Group") v.group
    ∷ row section (codes "PacketInfo") (flag v.packet_info)
    ∷ row section (codes "VNetHeader") (flag v.vnet_hdr)
    ∷ row section (codes "KeepCarrier") (flag v.keep_carrier)
    ∷ row section (codes "MultiQueue") (flag v.multi_queue)
    ∷ []

abbrev pub tunnel_rows : Inet → Tunnel → List Row
tunnel_rows inet v =
    row (codes "Tunnel") (codes "Independent") (only v.independent (codes "yes"))
    ∷ row (codes "Tunnel") (codes "Local") (address inet v.local)
    ∷ row (codes "Tunnel") (codes "Remote") (address inet v.remote)
    ∷ row (codes "Tunnel") (codes "Key") (only (leb 1 v.key) (unsigned v.key))
    ∷ row (codes "Tunnel") (codes "InputKey") (only (leb 1 v.ikey) (unsigned v.ikey))
    ∷ row (codes "Tunnel") (codes "OutputKey") (only (leb 1 v.okey) (unsigned v.okey))
    ∷ row (codes "Tunnel") (codes "TTL") (only (leb 1 v.ttl) (unsigned v.ttl))
    ∷ []

abbrev pub wireguard_rows : WireGuard → List Row
wireguard_rows v =
    row (codes "WireGuard") (codes "PrivateKey") v.private_key
    ∷ row (codes "WireGuard") (codes "PrivateKeyFile") v.private_key_file
    ∷ row (codes "WireGuard") (codes "ListenPort")
        (only (leb 1 v.listen_port) (unsigned v.listen_port))
    ∷ row (codes "WireGuard") (codes "FwMark") (only (leb 1 v.fwmark) (unsigned v.fwmark))
    ∷ []

-- The rows of the structure of a kind.
abbrev pub rows_of {ℓ} : {A : Type ℓ} → Option A → (A → List Row) → List Row
rows_of none f = []
rows_of (some a) f = f a

abbrev pub peer_rows : Option Veth → List Row
peer_rows o = rows_of o (λ v. row (codes "Peer") (codes "Name") v.peer ∷ [])

abbrev pub kind_rows : Inet → NetDev → List Row
kind_rows inet n = elim n.kind [
  | vlan ↦ rows_of n.vlan_data vlan_rows
  | bridge ↦ rows_of n.bridge_data bridge_rows
  | bond ↦ rows_of n.bond_data bond_rows
  | vxlan ↦ rows_of n.vxlan_data (vxlan_rows inet)
  | macvlan ↦ rows_of n.macvlan_data (λ v.
      row (codes "MACVLAN") (codes "Mode") (named (enum_to_name macvlan_mode_table v.mode) v.mode)
      ∷ [])
  | macvtap ↦ rows_of n.macvlan_data (λ v.
      row (codes "MACVTAP") (codes "Mode")
        (some (text_or_empty (enum_to_name macvlan_mode_table v.mode)))
      ∷ [])
  | ipvlan ↦ rows_of n.ipvlan_data (λ v.
      row (codes "IPVLAN") (codes "Mode")
        (some (text_or_empty (enum_to_name ipvlan_mode_table v.mode)))
      ∷ [])
  | ipvtap ↦ rows_of n.ipvlan_data (λ v.
      row (codes "IPVTAP") (codes "Mode")
        (some (text_or_empty (enum_to_name ipvlan_mode_table v.mode)))
      ∷ [])
  | vrf ↦ rows_of n.vrf_data (λ v. row (codes "VRF") (codes "Table") (some (unsigned v.table)) ∷ [])
  | tun ↦ rows_of n.tun_tap (tuntap_rows (codes "Tun"))
  | tap ↦ rows_of n.tun_tap (tuntap_rows (codes "Tap"))
  | veth ↦ peer_rows n.veth_data
  | ipip_tunnel ↦ rows_of n.tunnel (tunnel_rows inet)
  | sit_tunnel ↦ rows_of n.tunnel (tunnel_rows inet)
  | gre_tunnel ↦ rows_of n.tunnel (tunnel_rows inet)
  | vti_tunnel ↦ rows_of n.tunnel (tunnel_rows inet)
  | wireguard ↦ rows_of n.wg wireguard_rows
  | invalid_kind ↦ []
]

-- The rows of a device.
abbrev pub netdev_rows : Inet → NetDev → List Row
netdev_rows inet n = name_rows n ++ kind_rows inet n
