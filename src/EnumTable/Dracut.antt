-- ===== src/EnumTable/Dracut.antt =====
-- The tables of `src/dracut/dracut-parser.c`.
use network_config_manager.Base.{false, [], ◌∷◌, ◌++◌, codes, some}
use network_config_manager.EnumTable.{Enum, enum, gap}

abbrev pub dracut_dhcp_mode_table : Enum
dracut_dhcp_mode_table =
    enum
      (some (codes "none")
        ∷ some (codes "off")
        ∷ some (codes "dhcp")
        ∷ some (codes "on")
        ∷ some (codes "any")
        ∷ some (codes "dhcp6")
        ∷ some (codes "auto6")
        ∷ some (codes "either6")
        ∷ some (codes "ibft")
        ∷ [])
      0 false

-- The last three modes have no name.
abbrev pub dracut_to_networkd_dhcp_mode_table : Enum
dracut_to_networkd_dhcp_mode_table =
    enum
      ((some (codes "no")
          ∷ some (codes "no")
          ∷ some (codes "ipv4")
          ∷ some (codes "yes")
          ∷ some (codes "yes")
          ∷ some (codes "ipv6")
          ∷ [])
        ++ gap 3)
      0 false
