-- ===== src/NetDev/Devices.antt =====
-- The operations of `src/manager/netdev-manager.c` that create a device: its .netdev file, its .network
-- file, and the key that names it in the .network files of the links under it.
use network_config_manager.Base.{
  Bool, true, false, List, [], ◌∷◌, Bytes, codes, Option, none, some, if◌then◌else◌,
}
use network_config_manager.Glib.{Glib}
use network_config_manager.Outcome.{ok, fault}
use network_config_manager.ConfFile.{Files, Call, pure, ◌>>=◌, ◌>>◌, add_key_to_section_str}
use network_config_manager.NetworkUtil.{Inet}
use network_config_manager.NetworkUtil.Names.{Links, parse_ifname_or_index}
use network_config_manager.Settings.{is_true}
use network_config_manager.Network.{network_new}
use network_config_manager.Network.Paths.{
  System, create_network_conf_file, create_or_parse_network_file,
}
use network_config_manager.Network.Generate.{generate_network_config}
use network_config_manager.NetworkUtil.Names.{IfNameIndex}
use network_config_manager.NetDev.{
  NetDev, NetDevKind, vlan, bridge, bond, vxlan, macvlan, macvtap, ipvlan, ipvtap, vrf, veth,
  wireguard, netdev_new, Vlan, Bridge, Bond, Vxlan, Macvlan, Ipvlan, Veth, Tunnel, Vrf, WireGuard,
  TunTap,
}
use network_config_manager.NetDev.Generate.{generate_netdev_config}

-- `errno` is the argument `stale`.
module _ (fs : Files) (sys : System fs) (g : Glib) (inet : Inet) (links : Links)
    (stale : Bool) where
  -- The files of the device itself.
  unfoldable pub create_device : NetDev → Call fs (Unit {0})
  create_device n =
      ◌>>◌ fs (generate_netdev_config fs sys g inet n)
        (generate_network_config fs inet sys g (network_new n.ifname))

  unfoldable pub add_to_link : Bytes → Bytes → IfNameIndex → Call fs (Unit {0})
  add_to_link kind ifname p =
      ◌>>=◌ fs (create_or_parse_network_file fs sys g p)
        λ network. add_key_to_section_str fs g network (codes "Network") kind ifname

  abbrev add_to_name : Bytes → Bytes → Bytes → Call fs (Unit {0})
  add_to_name kind ifname dev =
      ◌>>=◌ fs (pure fs (parse_ifname_or_index links stale dev)) (add_to_link kind ifname)

  -- NULL is asserted not to be there.
  abbrev add_to_dev : Bytes → Bytes → Option Bytes → Call fs (Unit {0})
  add_to_dev kind ifname none = pure fs fault
  add_to_dev kind ifname (some dev) = add_to_name kind ifname dev

  unfoldable pub manager_create_vlan : IfNameIndex → Bytes → Vlan → Call fs (Unit {0})
  manager_create_vlan p ifname v =
      ◌>>◌ fs (create_device (record (netdev_new ifname) { kind = vlan; vlan_data = some v }))
        (add_to_link (codes "VLAN") ifname p)

  unfoldable pub add_to_each : Bytes → Bytes → List Bytes → Call fs (Unit {0})
  add_to_each kind ifname [] = pure fs (ok tt)
  add_to_each kind ifname (s ∷ interfaces) =
      ◌>>◌ fs (add_to_name kind ifname s) (add_to_each kind ifname interfaces)

  unfoldable pub manager_create_bridge : Bytes → Bridge → List Bytes → Call fs (Unit {0})
  manager_create_bridge ifname b interfaces =
      ◌>>◌ fs (create_device (record (netdev_new ifname) { kind = bridge; bridge_data = some b }))
        (add_to_each (codes "Bridge") ifname interfaces)

  -- The .network files of the links of a bond are created anew.
  unfoldable pub add_to_new : Bytes → List Bytes → Call fs (Unit {0})
  add_to_new ifname [] = pure fs (ok tt)
  add_to_new ifname (s ∷ interfaces) = ◌>>=◌ fs (create_network_conf_file fs sys g s) λ network.
      ◌>>◌ fs (add_key_to_section_str fs g network (codes "Network") (codes "Bond") ifname)
        (add_to_new ifname interfaces)

  unfoldable pub manager_create_bond : Bytes → Bond → List Bytes → Call fs (Unit {0})
  manager_create_bond ifname b interfaces =
      ◌>>◌ fs (create_device (record (netdev_new ifname) { kind = bond; bond_data = some b }))
        (add_to_new ifname interfaces)

  abbrev unless_independent : Bool → Call fs (Unit {0}) → Call fs (Unit {0})
  unless_independent true add = pure fs (ok tt)
  unless_independent false add = add

  unfoldable pub manager_create_vxlan : Bytes → Option Bytes → Vxlan → Call fs (Unit {0})
  manager_create_vxlan ifname dev v =
      ◌>>◌ fs (create_device (record (netdev_new ifname) { kind = vxlan; vxlan_data = some v }))
        (unless_independent (is_true v.independent) (add_to_dev (codes "VXLAN") ifname dev))

  unfoldable pub manager_create_macvlan : Bytes → Bytes → Macvlan → Bool → Call fs (Unit {0})
  manager_create_macvlan ifname dev m plain =
      ◌>>◌ fs
        (create_device (record (netdev_new ifname) {
          kind = if plain then macvlan else macvtap;
          macvlan_data = some m;
        }))
        (◌>>◌ fs (add_to_name (if plain then codes "MACVLAN" else codes "MACVTAP") ifname dev)
          sys.network_reload)

  unfoldable pub manager_create_ipvlan : Bytes → Bytes → Ipvlan → Bool → Call fs (Unit {0})
  manager_create_ipvlan ifname dev m plain =
      ◌>>◌ fs
        (create_device (record (netdev_new ifname) {
          kind = if plain then ipvlan else ipvtap;
          ipvlan_data = some m;
        }))
        (◌>>◌ fs (add_to_name (if plain then codes "IPVLAN" else codes "IPVTAP") ifname dev)
          sys.network_reload)

  unfoldable pub manager_create_veth : Bytes → Veth → Call fs (Unit {0})
  manager_create_veth ifname v =
      create_device (record (netdev_new ifname) { kind = veth; veth_data = some v })

  unfoldable pub manager_create_tunnel :
      Bytes → NetDevKind → Option Bytes → Tunnel → Call fs (Unit {0})
  manager_create_tunnel ifname k dev t =
      ◌>>◌ fs (create_device (record (netdev_new ifname) { kind = k; tunnel = some t }))
        (unless_independent t.independent (add_to_dev (codes "Tunnel") ifname dev))

  unfoldable pub manager_create_vrf : Bytes → Vrf → Call fs (Unit {0})
  manager_create_vrf ifname v =
      create_device (record (netdev_new ifname) { kind = vrf; vrf_data = some v })

  unfoldable pub manager_create_wireguard : Bytes → WireGuard → Call fs (Unit {0})
  manager_create_wireguard ifname w =
      create_device (record (netdev_new ifname) { kind = wireguard; wg = some w })

  unfoldable pub manager_create_tun_tap : Bytes → NetDevKind → TunTap → Call fs (Unit {0})
  manager_create_tun_tap ifname k t =
      create_device (record (netdev_new ifname) { kind = k; tun_tap = some t })
