-- ===== src/EnumTable/Network.antt =====
-- The tables of `src/manager/network.c`.
use network_config_manager.Base.{ℕ, false, [], ◌∷◌, ◌++◌, Bytes, codes, some, if◌then◌else◌}
use network_config_manager.CLib.{streq}
use network_config_manager.Outcome.{Outcome, ok, err, fault}
use network_config_manager.EnumTable.{Enum, Names, enum, gap, enum_of_name}

abbrev pub or_digit : Bytes → Outcome ℕ → Outcome ℕ
or_digit name (ok i) = ok i
or_digit name fault = fault
or_digit name (err n) =
    if streq name (codes "4") then ok 2 else if streq name (codes "6") then ok 3 else err n

abbrev pub use_domains_mode_table : Enum
use_domains_mode_table =
    enum (some (codes "no") ∷ some (codes "yes") ∷ some (codes "route") ∷ []) 0 false

abbrev pub dhcp_client_mode_table : Enum
dhcp_client_mode_table =
    enum (some (codes "no") ∷ some (codes "yes") ∷ some (codes "ipv4") ∷ some (codes "ipv6") ∷ []) 0
      false

abbrev pub dhcp_client_kind_table : Enum
dhcp_client_kind_table = enum (gap 2 ++ (some (codes "ipv4") ∷ some (codes "ipv6") ∷ [])) 2 false

-- `dhcp_name_to_client`: the loop, then the two digits.
unfoldable pub dhcp_name_to_client : Bytes → Outcome ℕ
dhcp_name_to_client name = or_digit name (enum_of_name dhcp_client_kind_table name)

abbrev pub dhcp_client_identifier : Enum
dhcp_client_identifier =
    enum (some (codes "mac") ∷ some (codes "duid") ∷ some (codes "duid-ony") ∷ []) 0 false

abbrev pub dhcp_client_duid_type : Enum
dhcp_client_duid_type =
    enum
      (some (codes "link-layer-time")
        ∷ some (codes "vendor")
        ∷ some (codes "link-layer")
        ∷ some (codes "uuid")
        ∷ [])
      0 false

abbrev pub link_local_address_type : Enum
link_local_address_type =
    enum (some (codes "no") ∷ some (codes "yes") ∷ some (codes "ipv4") ∷ some (codes "ipv6") ∷ []) 0
      false

abbrev pub ipv6_link_local_address_gen_type : Enum
ipv6_link_local_address_gen_type =
    enum
      (some (codes "eui64")
        ∷ some (codes "none")
        ∷ some (codes "stable-privacy")
        ∷ some (codes "random")
        ∷ [])
      0 false

abbrev pub address_protocol_table : Enum
address_protocol_table =
    enum
      (some (codes "unspec")
        ∷ some (codes "kernel-loopback")
        ∷ some (codes "kernel-router-announcement")
        ∷ some (codes "kernel-link-local")
        ∷ [])
      0 false

abbrev pub link_event_table : Enum
link_event_table =
    enum
      (some (codes "none")
        ∷ some (codes "reboot")
        ∷ some (codes "feature-change")
        ∷ some (codes "bonding-failover")
        ∷ some (codes "notify-peers")
        ∷ some (codes "resend-igmp")
        ∷ some (codes "bonding-option")
        ∷ [])
      0 false

abbrev pub ipv6_privacy_extensions_names : Names
ipv6_privacy_extensions_names =
    some (codes "no") ∷ some (codes "prefer-public") ∷ some (codes "yes") ∷ []

-- The loop of `ipv6_privacy_extensions_to_type` goes to the number of `ipv6_link_local_address_gen_type`.
abbrev pub ipv6_privacy_extensions_type : Enum
ipv6_privacy_extensions_type = record {
  bound = 3;
  named = ipv6_privacy_extensions_names;
  first = 0;
  stop = 4;
  searched = ipv6_privacy_extensions_names;
  skips_null = false;
}

abbrev pub ipv6_ra_preference_type : Enum
ipv6_ra_preference_type =
    enum (some (codes "low") ∷ some (codes "medium") ∷ some (codes "high") ∷ []) 0 false

abbrev pub ip_duplicate_address_detection_type : Enum
ip_duplicate_address_detection_type =
    enum
      (some (codes "none") ∷ some (codes "ipv4") ∷ some (codes "ipv6") ∷ some (codes "both") ∷ []) 0
      false

abbrev pub keep_configuration_table : Enum
keep_configuration_table =
    enum
      (some (codes "no")
        ∷ some (codes "dhcp-on-stop")
        ∷ some (codes "dhcp")
        ∷ some (codes "static")
        ∷ some (codes "yes")
        ∷ [])
      0 false

abbrev pub dhcp6_client_start_mode_table : Enum
dhcp6_client_start_mode_table =
    enum (some (codes "no") ∷ some (codes "information-request") ∷ some (codes "solicit") ∷ []) 0
      false

abbrev pub auth_key_management_type : Enum
auth_key_management_type =
    enum
      (some (codes "password")
        ∷ some (codes "psk")
        ∷ some (codes "eap")
        ∷ some (codes "8021x")
        ∷ [])
      0 false

abbrev pub auth_eap_method_type : Enum
auth_eap_method_type =
    enum (some (codes "none") ∷ some (codes "tls") ∷ some (codes "peap") ∷ some (codes "ttls") ∷ [])
      0 false
