-- ===== src/EnumTable/Link.antt =====
-- The tables of `src/lib-network/netlink/network-link.c`; numbers of the kernel's headers as in `linux/if.h` and
-- `linux/if_link.h`.
use network_config_manager.Base.{ℕ, false, [], ◌∷◌, Bytes, codes, some}
use network_config_manager.Outcome.{Outcome, ok, err, fault}
use network_config_manager.EnumTable.{Enum, enum, search_from}

-- There is no function from a name.
abbrev pub link_operstates_table : Enum
link_operstates_table =
    enum
      (some (codes "unknown")
        ∷ some (codes "not-present")
        ∷ some (codes "down")
        ∷ some (codes "lower-layerdown")
        ∷ some (codes "testing")
        ∷ some (codes "dormant")
        ∷ some (codes "up")
        ∷ [])
      7 false

-- The function from a name is `link_name_to_state`, below: its result behind the loop is its own.
abbrev pub link_states_table : Enum
link_states_table = enum (some (codes "down") ∷ some (codes "up") ∷ []) 2 false

-- Behind the loop, `_LINK_STATE_INVALID`, which stands behind `_LINK_STATE_MAX` without a value of its
-- own.
abbrev invalid_where_none : Outcome ℕ → Outcome ℕ
invalid_where_none (ok i) = ok i
invalid_where_none (err n) = ok 3
invalid_where_none fault = fault

unfoldable pub link_name_to_state : Bytes → Outcome ℕ
link_name_to_state name = invalid_where_none (search_from link_states_table name 2 0)

-- There is no function from a name.
abbrev pub ipv6_address_generation_mode_table : Enum
ipv6_address_generation_mode_table =
    enum
      (some (codes "eui64")
        ∷ some (codes "none")
        ∷ some (codes "stable-privacy")
        ∷ some (codes "random")
        ∷ [])
      4 false
