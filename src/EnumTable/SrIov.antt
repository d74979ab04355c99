-- ===== src/EnumTable/SrIov.antt =====
-- The tables of `src/manager/network-sriov.c`.
use network_config_manager.Base.{false, [], ◌∷◌, codes, some}
use network_config_manager.EnumTable.{Enum, enum}

-- There is no function from a name.
abbrev pub sriov_link_state_table : Enum
sriov_link_state_table =
    enum (some (codes "no") ∷ some (codes "yes") ∷ some (codes "auto") ∷ []) 3 false
