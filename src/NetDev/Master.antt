-- ===== src/NetDev/Master.antt =====
-- `generate_master_device_network` of `src/manager/network.c`, which names a device in the .network
-- files of the links under it, and the table of `src/manager/netdev.c` that it uses.
use network_config_manager.Base.{
  Bool, true, false, List, [], ◌∷◌, Bytes, codes, Option, none, some, if◌then◌else◌,
}
use network_config_manager.CLib.Strtol.{Long}
use network_config_manager.Glib.{Glib}
use network_config_manager.Outcome.{Outcome, ok, err, fault}
use network_config_manager.ConfFile.{
  Files, Call, pure, ◌>>=◌, ◌>>◌, config_exists, add_key_to_section_str,
}
use network_config_manager.ConfFile.Ctl.{Config, config_manager_new, ctl_to_config}
use network_config_manager.EnumTable.{enum_to_name}
use network_config_manager.EnumTable.NetDev.{netdev_kind_table}
use network_config_manager.NetworkUtil.Names.{Links, parse_ifname_or_index}
use network_config_manager.Settings.{unset}
use network_config_manager.Network.Paths.{System, parse_network_file}
use network_config_manager.NetDev.{NetDev, NetDevKind, vlan, bridge, bond, vxlan, macvlan, vrf}
use network_config_manager.NetDev.Settings.{kind_number}

abbrev netdev_ctl_name_to_config_table : List Config
netdev_ctl_name_to_config_table =
    (codes "vlan", codes "VLAN")
    ∷ (codes "bridge", codes "Bridge")
    ∷ (codes "bond", codes "Bond")
    ∷ (codes "vxlan", codes "VXLAN")
    ∷ (codes "macvlan", codes "MACVLAN")
    ∷ (codes "macvtap", codes "MACVLAN")
    ∷ (codes "vrf", codes "VRF")
    ∷ (codes "ipvlan", codes "IPVLAN")
    ∷ (codes "ipvtap", codes "IPVTAP")
    ∷ (codes "veth", codes "Peer")
    ∷ (codes "ipip", codes "Tunnel")
    ∷ (codes "gre", codes "Tunnel")
    ∷ (codes "sit", codes "Tunnel")
    ∷ (codes "vti", codes "Tunnel")
    ∷ (codes "tun", codes "Tun")
    ∷ (codes "tap", codes "Tap")
    ∷ []

abbrev pub netdev_ctl_name_to_configs_new : List Config
netdev_ctl_name_to_configs_new = config_manager_new netdev_ctl_name_to_config_table

-- NULL is asserted not to be there.
abbrev not_null : {A : Type 0} → Option A → Outcome A
not_null none = fault
not_null (some x) = ok x

-- The key for a kind.
unfoldable pub kind_key : NetDevKind → Outcome Bytes
kind_key k = elim (enum_to_name netdev_kind_table (kind_number k)) [
  | ok (some name) ↦ not_null (ctl_to_config netdev_ctl_name_to_configs_new name)
  | ok none ↦ fault
  | err n ↦ err n
  | fault ↦ fault
]

-- `p ? p->ifindex : -1`: a link that is not found leaves `p` as it is.
unfoldable pub index_of_link : Links → Bool → Long → Bytes → Outcome Long
index_of_link links stale last dev = elim (parse_ifname_or_index links stale dev) [
  | ok p ↦ ok p.ifindex
  | err n ↦ ok last
  | fault ↦ fault
]

module _ (fs : Files) (sys : System fs) (g : Glib) (links : Links) (stale : Bool) where
  -- Whether the file has the key with the device already; otherwise it gets it.
  unfoldable pub name_device : NetDev → Long → Bytes → Call fs Bool
  name_device n index dev = ◌>>=◌ fs (parse_network_file fs sys g index dev) λ found.
      ◌>>=◌ fs (pure fs (not_null found)) λ network. ◌>>=◌ fs (pure fs (kind_key n.kind)) λ k.
        ◌>>=◌ fs (config_exists fs g network (codes "Network") k n.ifname) λ there.
          if there
          then pure fs (ok true)
          else ◌>>◌ fs (add_key_to_section_str fs g network (codes "Network") k n.ifname)
              (pure fs (ok false))

  abbrev name_in_master : NetDev → Option Bytes → Call fs (Unit {0})
  name_in_master n master = ◌>>=◌ fs (pure fs (not_null master)) λ dev.
      ◌>>=◌ fs (pure fs (index_of_link links stale unset dev))
        λ index. ◌>>=◌ fs (name_device n index dev) λ _. pure fs (ok tt)

  -- `break` at a file that has the key leaves the loop.
  unfoldable pub name_in_each : NetDev → Long → List Bytes → Call fs (Unit {0})
  name_in_each n last [] = pure fs (ok tt)
  name_in_each n last (d ∷ interfaces) =
      ◌>>=◌ fs (pure fs (index_of_link links stale last d)) λ index.
        ◌>>=◌ fs (name_device n index d)
          λ there. elim there [ true ↦ pure fs (ok tt) | false ↦ name_in_each n index interfaces ]

  abbrev name_in_all : NetDev → Option (List Bytes) → Call fs (Unit {0})
  name_in_all n none = pure fs (ok tt)
  name_in_all n (some interfaces) = name_in_each n unset interfaces

  -- The structure of the kind is read without a test for NULL.
  abbrev of_part : {A : Type 0} → Option A → (A → Call fs (Unit {0})) → Call fs (Unit {0})
  of_part part f = ◌>>=◌ fs (pure fs (not_null part)) f

  abbrev name_by_kind : NetDevKind → NetDev → Call fs (Unit {0})
  name_by_kind macvlan n = of_part n.macvlan_data λ m. name_in_master n m.master
  name_by_kind vlan n = of_part n.vlan_data λ v. name_in_master n v.master
  name_by_kind bond n = of_part n.bond_data λ b. name_in_all n b.interfaces
  name_by_kind bridge n = of_part n.bridge_data λ b. name_in_all n b.interfaces
  name_by_kind vrf n = of_part n.vrf_data λ v. name_in_all n v.interfaces
  name_by_kind vxlan n = of_part n.vxlan_data λ v. name_in_master n v.master
  name_by_kind k n = pure fs (ok tt)

  unfoldable pub generate_master_device_network : Option NetDev → Call fs (Unit {0})
  generate_master_device_network none = pure fs (ok tt)
  generate_master_device_network (some n) = name_by_kind n.kind n
