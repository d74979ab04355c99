-- ===== src/EnumTable/NetDev.antt =====
-- The tables of `src/manager/netdev.c`.
use network_config_manager.Base.{true, [], ◌∷◌, codes, some}
use network_config_manager.EnumTable.{Enum, enum}

abbrev pub netdev_kind_table : Enum
netdev_kind_table =
    enum
      (some (codes "vlan")
        ∷ some (codes "bridge")
        ∷ some (codes "bond")
        ∷ some (codes "vxlan")
        ∷ some (codes "macvlan")
        ∷ some (codes "macvtap")
        ∷ some (codes "ipvlan")
        ∷ some (codes "ipvtap")
        ∷ some (codes "vrf")
        ∷ some (codes "tun")
        ∷ some (codes "tap")
        ∷ some (codes "veth")
        ∷ some (codes "ipip")
        ∷ some (codes "sit")
        ∷ some (codes "gre")
        ∷ some (codes "vti")
        ∷ some (codes "wireguard")
        ∷ [])
      0 true

abbrev pub bond_mode_table : Enum
bond_mode_table =
    enum
      (some (codes "balance-rr")
        ∷ some (codes "active-backup")
        ∷ some (codes "balance-xor")
        ∷ some (codes "broadcast")
        ∷ some (codes "802.3ad")
        ∷ some (codes "balance-tlb")
        ∷ some (codes "balance-alb")
        ∷ [])
      0 true

abbrev pub bond_xmit_hash_policy_table : Enum
bond_xmit_hash_policy_table =
    enum
      (some (codes "layer2")
        ∷ some (codes "layer3+4")
        ∷ some (codes "layer2+3")
        ∷ some (codes "encap2+3")
        ∷ some (codes "encap3+4")
        ∷ some (codes "vlan+srcmac")
        ∷ [])
      0 true

abbrev pub bond_lacp_rate_table : Enum
bond_lacp_rate_table = enum (some (codes "slow") ∷ some (codes "fast") ∷ []) 0 true

abbrev pub macvlan_mode_table : Enum
macvlan_mode_table =
    enum
      (some (codes "private")
        ∷ some (codes "vepa")
        ∷ some (codes "bridge")
        ∷ some (codes "passthru")
        ∷ some (codes "source")
        ∷ [])
      0 true

abbrev pub bond_arp_validate_table : Enum
bond_arp_validate_table =
    enum
      (some (codes "none")
        ∷ some (codes "active")
        ∷ some (codes "backup")
        ∷ some (codes "all")
        ∷ [])
      0 true

abbrev pub bond_fail_over_mac_table : Enum
bond_fail_over_mac_table =
    enum (some (codes "none") ∷ some (codes "active") ∷ some (codes "follow") ∷ []) 0 true

abbrev pub bond_ad_select_table : Enum
bond_ad_select_table =
    enum (some (codes "stable") ∷ some (codes "bandwidth") ∷ some (codes "count") ∷ []) 0 true

abbrev pub bond_primary_reselect_table : Enum
bond_primary_reselect_table =
    enum (some (codes "always") ∷ some (codes "better") ∷ some (codes "failure") ∷ []) 0 true

abbrev pub ipvlan_mode_table : Enum
ipvlan_mode_table = enum (some (codes "L2") ∷ some (codes "L3") ∷ some (codes "L3S") ∷ []) 0 true
