-- ===== src/Manager/Setters.antt =====
-- The operations that set or read one setting of a link.
use network_config_manager.Base.{
  ℕ, ◌%◌, ◌^◌, Bool, true, false, not, ◌&&◌, List, Bytes, codes, Option, none, some, leb, ◌==◌,
  if◌then◌else◌,
}
use network_config_manager.CLib.{streq}
use network_config_manager.CLib.Decimal.{print_uint}
use network_config_manager.CLib.Strtol.{Long}
use network_config_manager.Glib.{Glib}
use network_config_manager.Outcome.{Outcome, ok, err, fault, einval}
use network_config_manager.EnumTable.{enum_to_name, enum_of_name}
use network_config_manager.EnumTable.Network.{
  dhcp_client_identifier, dhcp_client_mode_table, link_local_address_type,
  ipv6_link_local_address_gen_type,
}
use network_config_manager.NetworkUtil.Names.{IfNameIndex}
use network_config_manager.ConfFile.{
  Files, Call, pure, ◌>>=◌, ◌>>◌, parse_config_file, set_config_file_str, set_config_file_bool,
  set_config_file_int, remove_key_from_config_file, remove_section_from_config_file,
}
use network_config_manager.StateFile.Keys.{network_parse_link_network_file}
use network_config_manager.Network.Paths.{System, create_or_parse_network_file, or_else}
use network_config_manager.Network.Generate.{ignored}
use network_config_manager.Manager.{edit_link, acquire, asserted}

abbrev pub dhcp_client_ipv4 : ℕ
dhcp_client_ipv4 = 2

abbrev pub dhcp_client_ipv6 : ℕ
dhcp_client_ipv6 = 3

abbrev pub is_kind : ℕ → Long → Bool
is_kind n kind = not kind.neg && kind.size == n

-- `kind == DHCP_CLIENT_IPV4 ? "DHCPv4" : "DHCPv6"`
abbrev pub dhcp_section : Long → Bytes
dhcp_section kind = if is_kind dhcp_client_ipv4 kind then codes "DHCPv4" else codes "DHCPv6"

module _ (fs : Files) (sys : System fs) (g : Glib) where
  unfoldable pub set_link : Bytes → Bytes → Option Bytes → IfNameIndex → Call fs (Unit {0})
  set_link section k v p =
      edit_link fs sys g p λ network. set_config_file_str fs g network section k v

  -- The value is a name of a table.
  abbrev set_link_name : Bytes → Bytes → Outcome (Option Bytes) → IfNameIndex → Call fs (Unit {0})
  set_link_name section k name p =
      edit_link fs sys g p
        λ network. ◌>>=◌ fs (pure fs name) λ v. set_config_file_str fs g network section k v

  -- `assert(v > 0)`
  abbrev set_link_positive : Bytes → Bytes → ℕ → IfNameIndex → Call fs (Unit {0})
  set_link_positive section k v p =
      if leb 1 v then set_link section k (some (print_uint (v % 2 ^ 32))) p else pure fs fault

  unfoldable pub manager_set_link_flag : IfNameIndex → Bytes → Bytes → Call fs (Unit {0})
  manager_set_link_flag p k v = set_link (codes "Link") k (some v) p

  unfoldable pub manager_set_link_dhcp4_client_identifier : IfNameIndex → Long → Call fs (Unit {0})
  manager_set_link_dhcp4_client_identifier p identifier =
      set_link_name (codes "DHCPv4") (codes "ClientIdentifier")
        (enum_to_name dhcp_client_identifier identifier) p

  unfoldable pub manager_set_link_ipv6_dad : IfNameIndex → ℕ → Call fs (Unit {0})
  manager_set_link_ipv6_dad p dad = edit_link fs sys g p λ network.
      set_config_file_int fs g network (codes "Network") (codes "IPv6DuplicateAddressDetection") dad

  unfoldable pub manager_set_link_ipv6_link_local_address_generation_mode :
      IfNameIndex → Long → Call fs (Unit {0})
  manager_set_link_ipv6_link_local_address_generation_mode p mode =
      set_link_name (codes "Network") (codes "IPv6LinkLocalAddressGenerationMode")
        (enum_to_name ipv6_link_local_address_gen_type mode) p

  unfoldable pub manager_set_link_dhcp_client_iaid :
      IfNameIndex → Long → Option Bytes → Call fs (Unit {0})
  manager_set_link_dhcp_client_iaid p kind iaid = set_link (dhcp_section kind) (codes "IAID") iaid p

  abbrev duid_file : Bool → IfNameIndex → Call fs Bytes
  duid_file true p = pure fs (ok (codes "/etc/systemd/networkd.conf"))
  duid_file false p = create_or_parse_network_file fs sys g p

  abbrev set_if_given : Bytes → Bytes → Bytes → Option Bytes → Call fs (Unit {0})
  set_if_given path section k none = pure fs (ok tt)
  set_if_given path section k (some v) = set_config_file_str fs g path section k (some v)

  unfoldable pub manager_set_link_dhcp_client_duid :
      IfNameIndex → Option Bytes → Option Bytes → Bool → Long → Call fs (Unit {0})
  manager_set_link_dhcp_client_duid p duid raw_data system kind = ◌>>=◌ fs (duid_file system p) λ c.
      ◌>>◌ fs (set_config_file_str fs g c (dhcp_section kind) (codes "DUIDType") duid) (
        ◌>>◌ fs (set_if_given c (dhcp_section kind) (codes "DUIDRawData") raw_data)
          sys.network_reload)

  unfoldable pub manager_set_link_mtu : IfNameIndex → ℕ → Call fs (Unit {0})
  manager_set_link_mtu p mtu = set_link_positive (codes "Link") (codes "MTUBytes") mtu p

  unfoldable pub manager_set_link_group : IfNameIndex → ℕ → Call fs (Unit {0})
  manager_set_link_group p group = set_link_positive (codes "Link") (codes "Group") group p

  unfoldable pub manager_set_link_rf_online : IfNameIndex → Bytes → Call fs (Unit {0})
  manager_set_link_rf_online p addrfamily =
      set_link (codes "Link") (codes "RequiredFamilyForOnline") (some addrfamily) p

  unfoldable pub manager_set_link_act_policy : IfNameIndex → Bytes → Call fs (Unit {0})
  manager_set_link_act_policy p actpolicy =
      set_link (codes "Link") (codes "ActivationPolicy") (some actpolicy) p

  -- The `uint32_t` is passed as an `int`.
  unfoldable pub manager_link_set_network_ipv6_mtu : IfNameIndex → ℕ → Call fs (Unit {0})
  manager_link_set_network_ipv6_mtu p mtu =
      if leb 1 mtu
      then edit_link fs sys g p (λ network.
        set_config_file_int fs g network (codes "Network") (codes "IPv6MTUBytes") (mtu % 2 ^ 32))
      else pure fs fault

  unfoldable pub manager_set_link_local_address : IfNameIndex → Bytes → Bytes → Call fs (Unit {0})
  manager_set_link_local_address p k v = set_link (codes "Network") k (some v) p

  -- An address that the file has already is not written again.
  unfoldable pub manager_set_link_mac_addr : IfNameIndex → Bytes → Call fs (Unit {0})
  manager_set_link_mac_addr p mac = ◌>>=◌ fs (create_or_parse_network_file fs sys g p) λ network.
      let write : Call fs (Unit {0}) =
        ◌>>◌ fs (set_config_file_str fs g network (codes "Link") (codes "MACAddress") (some mac))
          sys.network_reload in
      or_else fs (parse_config_file fs g network (codes "Link") (codes "MACAddress"))
        (λ old. if streq old mac then pure fs (ok tt) else write) write

  unfoldable pub manager_set_network_section_bool : IfNameIndex → Bytes → Bool → Call fs (Unit {0})
  manager_set_network_section_bool p k v =
      edit_link fs sys g p λ network. set_config_file_bool fs g network (codes "Network") k v

  unfoldable pub manager_set_network_section :
      IfNameIndex → Bytes → Option Bytes → Call fs (Unit {0})
  manager_set_network_section p k v = set_link (codes "Network") k v p

  abbrev set_dhcp_bool : Bytes → Bytes → Bytes → Bool → Call fs (Unit {0})
  set_dhcp_bool network section k v =
      ◌>>◌ fs (ignored fs (set_config_file_bool fs g network section k v)) sys.network_reload

  -- The result of the write is overwritten by that of the reload.
  unfoldable pub manager_set_dhcp_section : Long → IfNameIndex → Bytes → Bool → Call fs (Unit {0})
  manager_set_dhcp_section kind p k v =
      ◌>>=◌ fs (create_or_parse_network_file fs sys g p) λ network.
        if is_kind dhcp_client_ipv4 kind
        then set_dhcp_bool network (codes "DHCPv4") k v
        else if is_kind dhcp_client_ipv6 kind
        then set_dhcp_bool network (codes "DHCPv6") k v
        else pure fs (err einval)

  unfoldable pub manager_remove_routing_policy_rules : IfNameIndex → Call fs (Unit {0})
  manager_remove_routing_policy_rules p =
      edit_link fs sys g p
        λ network. remove_section_from_config_file fs g network (codes "RoutingPolicyRule")

  unfoldable pub manager_remove_dhcpv4_server : IfNameIndex → Call fs (Unit {0})
  manager_remove_dhcpv4_server p = edit_link fs sys g p λ network.
      ◌>>◌ fs (remove_key_from_config_file fs g network (codes "Network") (codes "DHCPServer"))
        (remove_section_from_config_file fs g network (codes "DHCPServer"))

  unfoldable pub manager_remove_ipv6_router_advertisement : IfNameIndex → Call fs (Unit {0})
  manager_remove_ipv6_router_advertisement p = edit_link fs sys g p λ network.
      ◌>>◌ fs (remove_key_from_config_file fs g network (codes "Network") (codes "IPv6SendRA")) (
        ◌>>◌ fs (remove_section_from_config_file fs g network (codes "IPv6SendRA")) (
          ◌>>◌ fs (remove_section_from_config_file fs g network (codes "IPv6Prefix"))
            (remove_section_from_config_file fs g network (codes "IPv6RoutePrefix"))))

module _ (fs : Files) (g : Glib) where
  unfoldable pub manager_acquire_link_local_addressing_kind : IfNameIndex → Call fs ℕ
  manager_acquire_link_local_addressing_kind p =
      ◌>>=◌ fs (acquire fs g p (codes "Network") (codes "LinkLocalAddressing"))
        λ v. pure fs (enum_of_name link_local_address_type v)

  unfoldable pub manager_acquire_link_dhcp_client_kind : IfNameIndex → Call fs ℕ
  manager_acquire_link_dhcp_client_kind p =
      ◌>>=◌ fs (acquire fs g p (codes "Network") (codes "DHCP"))
        λ v. pure fs (enum_of_name dhcp_client_mode_table v)

  -- The error of the name is the value that is returned: `none` is the invalid one.
  abbrev value_or_invalid : Outcome ℕ → Outcome (Option ℕ)
  value_or_invalid (ok n) = ok (some n)
  value_or_invalid (err n) = ok none
  value_or_invalid fault = fault

  unfoldable pub manager_acquire_link_dhcp4_client_identifier : IfNameIndex → Call fs (Option ℕ)
  manager_acquire_link_dhcp4_client_identifier p =
      ◌>>=◌ fs (acquire fs g p (codes "DHCPv4") (codes "ClientIdentifier"))
        λ v. pure fs (value_or_invalid (enum_of_name dhcp_client_identifier v))

  unfoldable pub manager_acquire_link_dhcp_client_iaid : IfNameIndex → Long → Call fs Bytes
  manager_acquire_link_dhcp_client_iaid p kind = acquire fs g p (dhcp_section kind) (codes "IAID")

  unfoldable pub manager_acquire_link_dhcp_client_duid :
      IfNameIndex → Long → Call fs (Bytes × Bytes)
  manager_acquire_link_dhcp_client_duid p kind =
      ◌>>=◌ fs (network_parse_link_network_file fs g p.ifindex) λ network.
        ◌>>=◌ fs (asserted fs g network) λ path.
          ◌>>=◌ fs (parse_config_file fs g path (dhcp_section kind) (codes "DUIDType")) λ duid.
            ◌>>=◌ fs (parse_config_file fs g path (dhcp_section kind) (codes "DUIDRawData"))
              λ raw. pure fs (ok (duid, raw))

  unfoldable pub manager_link_has_static_address : IfNameIndex → Call fs Bool
  manager_link_has_static_address p =
      let yes : Bytes → Call fs Bool = λ _. pure fs (ok true) in
      or_else fs (network_parse_link_network_file fs g p.ifindex)
        (λ network. ◌>>=◌ fs (asserted fs g network) λ path.
          or_else fs (parse_config_file fs g path (codes "Network") (codes "Address")) yes (
            or_else fs (parse_config_file fs g path (codes "Address") (codes "Address")) yes
              (pure fs (ok false))))
        (pure fs (ok false))

  abbrev split_value : Bytes → Option (List Bytes)
  split_value v = some (g.strsplit v (codes " ") 0)

  unfoldable pub manager_parse_link_dns_servers : IfNameIndex → Call fs (Option (List Bytes))
  manager_parse_link_dns_servers p =
      ◌>>=◌ fs (acquire fs g p (codes "Network") (codes "DNS")) λ v. pure fs (ok (split_value v))

  unfoldable pub manager_parse_link_ntp_servers : IfNameIndex → Call fs (Option (List Bytes))
  manager_parse_link_ntp_servers p =
      ◌>>=◌ fs (acquire fs g p (codes "Network") (codes "NTP")) λ v. pure fs (ok (split_value v))

  unfoldable pub manager_read_domains_from_system_config : Call fs Bytes
  manager_read_domains_from_system_config =
      parse_config_file fs g (codes "/etc/systemd/resolved.conf") (codes "Resolve")
        (codes "DOMAINS")
