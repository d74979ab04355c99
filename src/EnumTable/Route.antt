-- ===== src/EnumTable/Route.antt =====
-- The tables of `src/lib-network/netlink/network-route.c`; numbers of the kernel's headers as in `linux/rtnetlink.h`.
use network_config_manager.Base.{true, false, [], ◌∷◌, ◌++◌, codes, some}
use network_config_manager.EnumTable.{Enum, enum, gap}

abbrev pub route_table : Enum
route_table =
    enum (gap 253 ++ (some (codes "default") ∷ some (codes "main") ∷ some (codes "local") ∷ [])) 253
      false

abbrev pub route_scope_type : Enum
route_scope_type =
    enum
      ((some (codes "global") ∷ [])
        ++ gap 199
        ++ (some (codes "site") ∷ [])
        ++ gap 52
        ++ (some (codes "link") ∷ some (codes "host") ∷ some (codes "nowhere") ∷ []))
      0 true

abbrev pub route_type : Enum
route_type =
    enum
      (gap 1
        ++ (some (codes "unicast")
            ∷ some (codes "local")
            ∷ some (codes "broadcast")
            ∷ some (codes "anycast")
            ∷ some (codes "multicast")
            ∷ some (codes "blackhole")
            ∷ some (codes "unreachable")
            ∷ some (codes "prohibit")
            ∷ some (codes "throw")
            ∷ some (codes "nat")
            ∷ some (codes "xresolve")
            ∷ []))
      1 true

abbrev pub ipv6_route_preference_type : Enum
ipv6_route_preference_type =
    enum (some (codes "low") ∷ some (codes "medium") ∷ some (codes "high") ∷ []) 0 false

abbrev pub route_protocol_type : Enum
route_protocol_type =
    enum
      (some (codes "kernel")
        ∷ some (codes "boot")
        ∷ some (codes "static")
        ∷ some (codes "dhcp")
        ∷ [])
      0 false

abbrev pub ipoib_mode_table : Enum
ipoib_mode_table = enum (some (codes "datagram") ∷ some (codes "connected") ∷ []) 0 false
