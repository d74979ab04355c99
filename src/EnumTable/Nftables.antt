-- ===== src/EnumTable/Nftables.antt =====
-- The tables of `src/nftables/nftables.c`; numbers of the kernel's headers as in `linux/netfilter.h` and
-- `netinet/in.h`.
use network_config_manager.Base.{true, [], ◌∷◌, ◌++◌, codes, some}
use network_config_manager.EnumTable.{Enum, enum, gap}

abbrev pub nft_family_table : Enum
nft_family_table =
    enum
      ((some (codes "none") ∷ some (codes "ip") ∷ some (codes "ipv4") ∷ some (codes "arp") ∷ [])
        ++ gap 1
        ++ (some (codes "netdev") ∷ [])
        ++ gap 1
        ++ (some (codes "bridge") ∷ [])
        ++ gap 2
        ++ (some (codes "ipv6") ∷ []))
      1 true

abbrev pub nft_packet_action_table : Enum
nft_packet_action_table =
    enum
      (some (codes "drop")
        ∷ some (codes "accept")
        ∷ some (codes "stolen")
        ∷ some (codes "queue")
        ∷ some (codes "repeat")
        ∷ some (codes "stop")
        ∷ [])
      0 true

abbrev pub ip_packet_port_table : Enum
ip_packet_port_table = enum (some (codes "sport") ∷ some (codes "dport") ∷ []) 0 true

abbrev pub ip_packet_protocol_table : Enum
ip_packet_protocol_table =
    enum (gap 6 ++ (some (codes "tcp") ∷ []) ++ gap 10 ++ (some (codes "udp") ∷ [])) 6 true
