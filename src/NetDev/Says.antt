-- ===== src/NetDev/Says.antt =====
-- The settings of `generate_netdev_config` say what the table of a device says.
use mathlib.Core.Path.{subst}
use network_config_manager.Base.{
  ◌-◌, ◌^◌, ◌≡◌, refl, sym, true, not, ◌||◌, List, [], ◌∷◌, ◌++◌, Bytes, codes, Option, none, some,
  leb, ltb, ◌==◌,
}
use network_config_manager.CLib.Decimal.{print_uint}
use network_config_manager.Outcome.{ok}
use network_config_manager.NetworkUtil.{Inet, IpAddress, ip_to_str, ip_is_null}
use network_config_manager.Settings.{Setting, text, counted, is_set, is_true, spaced}
use network_config_manager.Settings.Overlay.{text_or_empty}
use network_config_manager.Settings.Table.{
  Row, row, Says, ◌also◌, nothing-Says, always, when-Says, when_bool-Says, if_str-Says,
  if_bool-Says, if_counted-Says, if_valid-Says,
}
use network_config_manager.EnumTable.{enum_to_name}
use network_config_manager.EnumTable.NetDev.{
  netdev_kind_table, bond_mode_table, bond_xmit_hash_policy_table, bond_lacp_rate_table,
  bond_arp_validate_table, bond_fail_over_mac_table, bond_ad_select_table,
  bond_primary_reselect_table, macvlan_mode_table, ipvlan_mode_table,
}
use network_config_manager.Network.Sections.{or_null}
use network_config_manager.NetDev.{
  NetDevKind, vlan, bridge, bond, vxlan, macvlan, macvtap, ipvlan, ipvtap, vrf, tun, tap, veth,
  ipip_tunnel, sit_tunnel, gre_tunnel, vti_tunnel, wireguard, invalid_kind, resend_igmp_max,
  packets_per_slave_max, gratuitous_arp_max, Bridge, Vlan, Bond, Vxlan, Tunnel, TunTap, WireGuard,
  Veth, NetDev,
}
use network_config_manager.NetDev.Settings.{
  is_minus_one, kind_number, if_address, if_some_words, peer_of, of_pointer, name_settings,
  bridge_settings, vlan_settings, bond_settings, vxlan_settings, tuntap_settings, tunnel_settings,
  wireguard_settings, kind_settings,
}
use network_config_manager.NetDev.Documented.{
  kind_word, listed_if_any, address, name_rows, bridge_rows, vlan_rows, bond_rows, vxlan_rows,
  tuntap_rows, tunnel_rows, wireguard_rows, rows_of, peer_rows, kind_rows,
}

kind_number-word :
    (k : NetDevKind) → text_or_empty (enum_to_name netdev_kind_table (kind_number k)) ≡ kind_word k
unfolding enum_to_name
kind_number-word vlan = refl
kind_number-word bridge = refl
kind_number-word bond = refl
kind_number-word vxlan = refl
kind_number-word macvlan = refl
kind_number-word macvtap = refl
kind_number-word ipvlan = refl
kind_number-word ipvtap = refl
kind_number-word vrf = refl
kind_number-word tun = refl
kind_number-word tap = refl
kind_number-word veth = refl
kind_number-word ipip_tunnel = refl
kind_number-word sit_tunnel = refl
kind_number-word gre_tunnel = refl
kind_number-word vti_tunnel = refl
kind_number-word wireguard = refl
kind_number-word invalid_kind = refl

pub name-Says : (n : NetDev) → Says (name_settings n) (name_rows n)
unfolding name_settings
name-Says n =
    always (codes "NetDev") (codes "Name") (text (ok (some n.ifname)))
    also rw (sym (kind_number-word n.kind)) (
        always (codes "NetDev") (codes "Kind")
          (text (enum_to_name netdev_kind_table (kind_number n.kind))))

if_address-Says :
    (inet : Inet) (t j : Bytes) (a : IpAddress)
    → Says (if_address inet t j a) (row t j (address inet a) ∷ [])
if_address-Says inet t j a =
    when-Says t j (not (ip_is_null a)) (text (or_null (ip_to_str inet a.family a)))

if_some_words-Says :
    (t j : Bytes) (xs : Option (List Bytes))
    → Says (if_some_words t j xs) (row t j (listed_if_any xs) ∷ [])
if_some_words-Says t j none = if_str-Says t j none
if_some_words-Says t j (some []) = if_str-Says t j none
if_some_words-Says t j (some (x ∷ xs)) = if_str-Says t j (some (spaced (x ∷ xs)))

bridge-Says : (v : Bridge) → Says (bridge_settings v) (bridge_rows v)
unfolding bridge_settings
bridge-Says v =
    if_bool-Says (codes "Bridge") (codes "MulticastQuerier") v.mcast_querier
    also if_bool-Says (codes "Bridge") (codes "MulticastSnooping") v.mcast_snooping
    also if_bool-Says (codes "Bridge") (codes "VLANFiltering") v.vlan_filtering
    also if_bool-Says (codes "Bridge") (codes "VLANProtocol") v.vlan_protocol
    also if_bool-Says (codes "Bridge") (codes "STP") v.stp
    also when-Says (codes "Bridge") (codes "ForwardDelaySec") (not (v.forward_delay == 2 ^ 64 - 1))
        (counted v.forward_delay)
    also when-Says (codes "Bridge") (codes "HelloTimeSec") (not (v.hello_time == 2 ^ 64 - 1))
        (counted v.hello_time)
    also when-Says (codes "Bridge") (codes "AgeingTimeSec") (not (v.ageing_time == 2 ^ 64 - 1))
        (counted v.ageing_time)
    also when-Says (codes "Bridge") (codes "MaxAgeSec") (not (v.max_age == 2 ^ 64 - 1))
        (counted v.max_age)
    also when-Says (codes "Bridge") (codes "Priority") (not (v.priority == 2 ^ 16 - 1))
        (counted v.priority)

vlan-Says : (v : Vlan) → Says (vlan_settings v) (vlan_rows v)
unfolding vlan_settings
vlan-Says v =
    always (codes "VLAN") (codes "Id") (counted v.id)
    also if_str-Says (codes "VLAN") (codes "Protocol") v.proto
    also if_bool-Says (codes "VLAN") (codes "GVRP") v.gvrp
    also if_bool-Says (codes "VLAN") (codes "MVRP") v.mvrp
    also if_bool-Says (codes "VLAN") (codes "LooseBinding") v.loose_binding
    also if_bool-Says (codes "VLAN") (codes "ReorderHeader") v.reorder_header

bond-Says : (v : Bond) → Says (bond_settings v) (bond_rows v)
unfolding bond_settings
bond-Says v =
    if_valid-Says (codes "Bond") (codes "Mode") v.mode (enum_to_name bond_mode_table v.mode)
    also if_valid-Says (codes "Bond") (codes "TransmitHashPolicy") v.xmit_hash_policy
        (enum_to_name bond_xmit_hash_policy_table v.xmit_hash_policy)
    also if_valid-Says (codes "Bond") (codes "LACPTransmitRate") v.lacp_rate
        (enum_to_name bond_lacp_rate_table v.lacp_rate)
    also if_valid-Says (codes "Bond") (codes "ARPValidate") v.arp_validate
        (enum_to_name bond_arp_validate_table v.arp_validate)
    also if_valid-Says (codes "Bond") (codes "FailOverMACPolicy") v.fail_over_mac
        (enum_to_name bond_fail_over_mac_table v.fail_over_mac)
    also if_valid-Says (codes "Bond") (codes "AdSelect") v.ad_select
        (enum_to_name bond_ad_select_table v.ad_select)
    also if_valid-Says (codes "Bond") (codes "PrimaryReselectPolicy") v.primary_reselect
        (enum_to_name bond_primary_reselect_table v.primary_reselect)
    also when-Says (codes "Bond") (codes "MIIMonitorSec")
        (not (v.mii_monitor_interval == 2 ^ 64 - 1)) (counted v.mii_monitor_interval)
    also if_counted-Says (codes "Bond") (codes "MinLinks") v.min_links
    also if_counted-Says (codes "Bond") (codes "ARPIntervalSec") v.arp_interval
    also if_counted-Says (codes "Bond") (codes "UpDelaySec") v.up_delay
    also if_counted-Says (codes "Bond") (codes "DownDelaySec") v.down_delay
    also if_counted-Says (codes "Bond") (codes "LearnPacketIntervalSec") v.lp_interval
    also when-Says (codes "Bond") (codes "ResendIGMP") (leb v.resend_igmp resend_igmp_max)
        (counted v.resend_igmp)
    also when-Says (codes "Bond") (codes "PacketsPerSlave")
        (leb v.packets_per_slave packets_per_slave_max) (counted v.packets_per_slave)
    also when-Says (codes "Bond") (codes "GratuitousARP") (leb v.ngrat_arp gratuitous_arp_max)
        (counted v.ngrat_arp)
    also if_bool-Says (codes "Bond") (codes "AllSlavesActive") v.all_slaves_active
    also if_some_words-Says (codes "Bond") (codes "ARPIPTargets") v.arp_ip_targets

vxlan-Says : (inet : Inet) (v : Vxlan) → Says (vxlan_settings inet v) (vxlan_rows inet v)
unfolding vxlan_settings
vxlan-Says inet v =
    always (codes "VXLAN") (codes "VNI") (counted v.vni)
    also if_address-Says inet (codes "VXLAN") (codes "Local") v.local
    also if_address-Says inet (codes "VXLAN") (codes "Remote") v.remote
    also if_address-Says inet (codes "VXLAN") (codes "Group") v.group
    also if_counted-Says (codes "VXLAN") (codes "DestinationPort") v.destination_port
    also when_bool-Says (codes "VXLAN") (codes "Independent") (is_true v.independent) true
    also if_counted-Says (codes "VXLAN") (codes "TOS") v.tos
    also when_bool-Says (codes "VXLAN") (codes "MacLearning") (not (is_minus_one v.learning))
        (leb 1 v.learning.size)
    also when_bool-Says (codes "VXLAN") (codes "ReduceARPProxy")
        (is_set v.arp_proxy || is_minus_one v.arp_proxy) (leb 1 v.arp_proxy.size)
    also if_counted-Says (codes "VXLAN") (codes "FDBAgeingSec") v.fdb_ageing
    also when-Says (codes "VXLAN") (codes "FlowLabel") (not (v.flow_label == 2 ^ 32 - 1))
        (counted v.flow_label)
    also if_counted-Says (codes "VXLAN") (codes "MaximumFDBEntries") v.max_fdb
    also if_bool-Says (codes "VXLAN") (codes "IPDoNotFragment") v.df
    also if_bool-Says (codes "VXLAN") (codes "L2MissNotification") v.l2miss
    also when_bool-Says (codes "VXLAN") (codes "L3MissNotification") (is_set v.l3miss)
        (leb 1 v.l2miss.size)
    also if_bool-Says (codes "VXLAN") (codes "RouteShortCircuit") v.route_short_circuit
    also if_bool-Says (codes "VXLAN") (codes "UDPChecksum") v.udpcsum
    also if_bool-Says (codes "VXLAN") (codes "UDP6ZeroChecksumTx") v.udp6zerocsumtx
    also if_bool-Says (codes "VXLAN") (codes "UDP6ZeroChecksumRx") v.udp6zerocsumrx
    also if_bool-Says (codes "VXLAN") (codes "RemoteChecksumTx") v.remote_csum_tx
    also if_bool-Says (codes "VXLAN") (codes "RemoteChecksumRx") v.remote_csum_rx
    also if_bool-Says (codes "VXLAN") (codes "GroupPolicyExtension") v.group_policy
    also if_bool-Says (codes "VXLAN") (codes "GenericProtocolExtension")
        v.generic_protocol_extension
    also when-Says (codes "VXLAN") (codes "PortRange") (ltb v.low_port v.high_port)
        (text (ok (some (print_uint v.low_port ++ (b'-' ∷ print_uint v.high_port)))))

tuntap-Says :
    (section : Bytes) (v : TunTap) → Says (tuntap_settings section v) (tuntap_rows section v)
unfolding tuntap_settings
tuntap-Says section v =
    if_str-Says section (codes "User") v.user
    also if_str-Says section (codes "Group") v.group
    also if_bool-Says section (codes "PacketInfo") v.packet_info
    also if_bool-Says section (codes "VNetHeader") v.vnet_hdr
    also if_bool-Says section (codes "KeepCarrier") v.keep_carrier
    also if_bool-Says section (codes "MultiQueue") v.multi_queue

tunnel-Says : (inet : Inet) (v : Tunnel) → Says (tunnel_settings inet v) (tunnel_rows inet v)
unfolding tunnel_settings
tunnel-Says inet v =
    when_bool-Says (codes "Tunnel") (codes "Independent") v.independent true
    also if_address-Says inet (codes "Tunnel") (codes "Local") v.local
    also if_address-Says inet (codes "Tunnel") (codes "Remote") v.remote
    also if_counted-Says (codes "Tunnel") (codes "Key") v.key
    also if_counted-Says (codes "Tunnel") (codes "InputKey") v.ikey
    also if_counted-Says (codes "Tunnel") (codes "OutputKey") v.okey
    also if_counted-Says (codes "Tunnel") (codes "TTL") v.ttl

wireguard-Says : (v : WireGuard) → Says (wireguard_settings v) (wireguard_rows v)
unfolding wireguard_settings
wireguard-Says v =
    if_str-Says (codes "WireGuard") (codes "PrivateKey") v.private_key
    also if_str-Says (codes "WireGuard") (codes "PrivateKeyFile") v.private_key_file
    also if_counted-Says (codes "WireGuard") (codes "ListenPort") v.listen_port
    also if_counted-Says (codes "WireGuard") (codes "FwMark") v.fwmark

peer-Says : (o : Option Veth) → Says (peer_of o) (peer_rows o)
peer-Says none = nothing-Says
peer-Says (some v) = if_str-Says (codes "Peer") (codes "Name") v.peer

of_ok : {ss ts : List Setting} → {rs : List Row} → Says ss rs → ok ss ≡ ok ts → Says ts rs
of_ok {ss = ss} {ts = ts} {rs = rs} says h =
    let same : ss ≡ ts = cc in subst (λ s. Says s rs) same says

of_pointer-Says {ℓ} :
    {A : Type ℓ}
    → {f : A → List Setting} → {g : A → List Row} → {ss : List Setting} → (o : Option A)
    → ((a : A) → Says (f a) (g a))
    → of_pointer o f ≡ ok ss
    → Says ss (rows_of o g)
of_pointer-Says {g = g} none says h = cc
of_pointer-Says {g = g} (some a) says h = of_ok (says a) h

kind-Says_at :
    (inet : Inet) (n : NetDev) (k : NetDevKind)
    → n.kind ≡ k
    → {ss : List Setting} → kind_settings inet n ≡ ok ss
    → Says ss (kind_rows inet n)
unfolding kind_settings
kind-Says_at inet n vlan at h = rw at (of_pointer-Says n.vlan_data vlan-Says (rw at at h))
kind-Says_at inet n bridge at h = rw at (of_pointer-Says n.bridge_data bridge-Says (rw at at h))
kind-Says_at inet n bond at h = rw at (of_pointer-Says n.bond_data bond-Says (rw at at h))
kind-Says_at inet n vxlan at h = rw at (of_pointer-Says n.vxlan_data (vxlan-Says inet) (rw at at h))
kind-Says_at inet n macvlan at h = rw at (
    of_pointer-Says n.macvlan_data
      (λ v.
        if_valid-Says (codes "MACVLAN") (codes "Mode") v.mode
          (enum_to_name macvlan_mode_table v.mode))
      (rw at at h))
kind-Says_at inet n macvtap at h = rw at (
    of_pointer-Says n.macvlan_data
      (λ v. always (codes "MACVTAP") (codes "Mode") (text (enum_to_name macvlan_mode_table v.mode)))
      (rw at at h))
kind-Says_at inet n ipvlan at h = rw at (
    of_pointer-Says n.ipvlan_data
      (λ v. always (codes "IPVLAN") (codes "Mode") (text (enum_to_name ipvlan_mode_table v.mode)))
      (rw at at h))
kind-Says_at inet n ipvtap at h = rw at (
    of_pointer-Says n.ipvlan_data
      (λ v. always (codes "IPVTAP") (codes "Mode") (text (enum_to_name ipvlan_mode_table v.mode)))
      (rw at at h))
kind-Says_at inet n vrf at h = rw at (
    of_pointer-Says n.vrf_data (λ v. always (codes "VRF") (codes "Table") (counted v.table))
      (rw at at h))
kind-Says_at inet n tun at h =
    rw at (of_pointer-Says n.tun_tap (tuntap-Says (codes "Tun")) (rw at at h))
kind-Says_at inet n tap at h =
    rw at (of_pointer-Says n.tun_tap (tuntap-Says (codes "Tap")) (rw at at h))
kind-Says_at inet n veth at h = rw at (of_ok (peer-Says n.veth_data) (rw at at h))
kind-Says_at inet n ipip_tunnel at h =
    rw at (of_pointer-Says n.tunnel (tunnel-Says inet) (rw at at h))
kind-Says_at inet n sit_tunnel at h =
    rw at (of_pointer-Says n.tunnel (tunnel-Says inet) (rw at at h))
kind-Says_at inet n gre_tunnel at h =
    rw at (of_pointer-Says n.tunnel (tunnel-Says inet) (rw at at h))
kind-Says_at inet n vti_tunnel at h =
    rw at (of_pointer-Says n.tunnel (tunnel-Says inet) (rw at at h))
kind-Says_at inet n wireguard at h = rw at (of_pointer-Says n.wg wireguard-Says (rw at at h))
kind-Says_at inet n invalid_kind at h = rw at (of_ok nothing-Says (rw at at h))

pub kind-Says :
    (inet : Inet) (n : NetDev) (ss : List Setting)
    → kind_settings inet n ≡ ok ss
    → Says ss (kind_rows inet n)
kind-Says inet n ss h = kind-Says_at inet n n.kind refl h
