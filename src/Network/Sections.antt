-- ===== src/Network/Sections.antt =====
-- The sections that `generate_network_config` appends: `append_addresses`, `append_routes`,
-- `append_routing_policy_rules` and `append_dhcp4_server_static_leases` of `src/manager/network.c`,
-- and `sriov_add_new_section` of `src/manager/network-sriov.c`.
use network_config_manager.Base.{
  ℕ, ◌-◌, ◌^◌, ◌%◌, not, ◌&&◌, List, [], ◌∷◌, ◌++◌, Bytes, codes, Option, none, some, leb, ◌==◌,
  if◌then◌else◌,
}
use network_config_manager.CLib.Decimal.{print_uint}
use network_config_manager.CLib.Strtol.{Long}
use network_config_manager.Outcome.{Outcome, ok, err, fault, ◌>>=◌}
use network_config_manager.StringUtil.{bool_to_str}
use network_config_manager.KeyFile.{
  Section, KeyFile, section_new, add_key_to_section, add_section_to_key_file,
}
use network_config_manager.NetworkUtil.{
  Inet, IpAddress, ip_is_null, ip_to_str, ip_to_str_prefix, af_inet, af_inet6,
}
use network_config_manager.Settings.{when, is_set, is_true, is_invalid, is_positive}
use network_config_manager.EnumTable.{enum_to_name}
use network_config_manager.EnumTable.Route.{route_scope_type, route_type}
use network_config_manager.EnumTable.SrIov.{sriov_link_state_table}
use network_config_manager.Network.{Route, RoutingPolicyRule, Dhcp4ServerLease, Sriov}

-- A key of a new section, with the text that it gets or NULL.
abbrev pub Entry : Type 0
Entry = Bytes × Outcome (Option Bytes)

module _ (key : Bytes) where
  abbrev pub entry : Outcome (Option Bytes) → List Entry
  entry v = (key, v) ∷ []

  abbrev pub entry_str : Bytes → List Entry
  entry_str x = entry (ok (some x))

  abbrev pub entry_if_str : Option Bytes → List Entry
  entry_if_str none = []
  entry_if_str (some x) = entry_str x

  abbrev pub entry_if_bool : Long → List Entry
  entry_if_bool v = when (is_set v) (entry_str (bool_to_str (is_true v)))

  -- `add_key_to_section_uint` of a `uint`
  abbrev pub entry_uint : ℕ → List Entry
  entry_uint v = entry_str (print_uint (v % 2 ^ 32))

  abbrev pub entry_if_uint : ℕ → List Entry
  entry_if_uint v = when (leb 1 v) (entry_uint v)

  abbrev pub entry_unless : ℕ → ℕ → List Entry
  entry_unless top v = when (not (v == top)) (entry_uint v)

-- The keys are added one after the other.
unfoldable pub add_entries : Section → List Entry → Outcome Section
add_entries s [] = ok s
add_entries s ((k, v) ∷ es) = do x ← v; add_entries (add_key_to_section s k x) es

unfoldable pub add_new_section : KeyFile → Bytes → List Entry → Outcome KeyFile
add_new_section kf name es = do
  s ← add_entries (section_new name) es
  ok (add_section_to_key_file kf s)

-- A text that could not be made is NULL.
abbrev pub or_null : Outcome Bytes → Outcome (Option Bytes)
or_null (ok x) = ok (some x)
or_null (err n) = ok none
or_null fault = fault

-- RT_TABLE_MAIN
abbrev pub rt_table_main : ℕ
rt_table_main = 254

abbrev pub uint_max : ℕ
uint_max = 2 ^ 32 - 1

abbrev pub table_entries : ℕ → List Entry
table_entries t = when (leb 1 t && not (t == rt_table_main)) (entry_uint (codes "Table") t)

abbrev pub default_destination : ℕ → List Entry
default_destination family =
    if family == af_inet
    then entry_str (codes "Destination") (codes "0.0.0.0/0")
    else if family == af_inet6
    then entry_str (codes "Destination") (codes "::/0")
    else []

unfoldable pub sriov_entries : Sriov → List Entry
sriov_entries s =
    entry_unless (codes "VirtualFunction") uint_max s.vf
    ++ entry_if_uint (codes "VLANId") s.vlan
    ++ entry_if_uint (codes "QualityOfService") s.qos
    ++ entry_if_str (codes "VLANProtocol") s.vlan_proto
    ++ entry_if_bool (codes "MACSpoofCheck") s.vf_spoof_check_setting
    ++ entry_if_bool (codes "QueryReceiveSideScaling") s.query_rss
    ++ entry_if_bool (codes "Trust") s.trust
    ++ when (is_set s.link_state)
        (entry (codes "LinkState") (enum_to_name sriov_link_state_table s.link_state))
    ++ entry_if_str (codes "MACAddress") s.macaddr

unfoldable pub sriov_add_new_section : KeyFile → Sriov → Outcome KeyFile
sriov_add_new_section kf s = add_new_section kf (codes "SR-IOV") (sriov_entries s)

module _ (inet : Inet) where
  abbrev pub prefixed : Bytes → IpAddress → List Entry
  prefixed key a =
      when (not (ip_is_null a)) (entry key (or_null (ip_to_str_prefix inet a.family a)))

  unfoldable pub route_entries : Route → List Entry
  route_entries route =
      (if not (ip_is_null route.dst)
        then entry (codes "Destination")
            (or_null (ip_to_str_prefix inet route.dst.family route.dst))
        else when route.to_default (default_destination route.family))
      ++ prefixed (codes "Gateway") route.gw
      ++ prefixed (codes "PreferredSource") route.prefsrc
      ++ entry_if_bool (codes "Onlink") route.onlink
      ++ table_entries route.table
      ++ when (is_positive route.scope)
          (entry (codes "Scope") (enum_to_name route_scope_type route.scope))
      ++ when (not (is_invalid route.type))
          (entry (codes "Type") (enum_to_name route_type route.type))
      ++ entry_if_uint (codes "RouteMetric") route.metric
      ++ entry_if_uint (codes "InitialCongestionWindow") route.initcwnd
      ++ entry_if_uint (codes "InitialAdvertisedReceiveWindow") route.initrwnd
      ++ entry_if_bool (codes "QuickAck") route.quick_ack
      ++ entry_if_bool (codes "FastOpenNoCookie") route.tfo
      ++ entry_if_bool (codes "TTLPropagate") route.ttl_propogate

  -- A route with neither a destination nor a gateway is left out, a default route too.
  unfoldable pub append_routes : KeyFile → Route → Outcome KeyFile
  append_routes kf route =
      if ip_is_null route.dst && ip_is_null route.gw
      then ok kf
      else add_new_section kf (codes "Route") (route_entries route)

  unfoldable pub rule_entries : RoutingPolicyRule → List Entry
  rule_entries rule =
      prefixed (codes "From") rule.from
      ++ prefixed (codes "To") rule.to
      ++ entry_unless (codes "Priority") uint_max rule.priority
      ++ table_entries rule.table
      ++ entry_unless (codes "TypeOfService") 255 rule.tos
      ++ entry_unless (codes "FirewallMark") uint_max rule.fwmark

  unfoldable pub append_routing_policy_rules : KeyFile → RoutingPolicyRule → Outcome KeyFile
  append_routing_policy_rules kf rule =
      if ip_is_null rule.to && ip_is_null rule.from
      then ok kf
      else add_new_section kf (codes "RoutingPolicyRule") (rule_entries rule)

  -- An address that cannot be printed is left out.
  unfoldable pub append_addresses : KeyFile → IpAddress → Outcome KeyFile
  append_addresses kf a = elim (ip_to_str_prefix inet a.family a) [
    | ok addr ↦ add_new_section kf (codes "Address") (
        entry_str (codes "Address") addr
        ++ entry_if_str (codes "Label") a.label
        ++ entry_if_str (codes "PreferredLifetime") a.lifetime)
    | err n ↦ ok kf
    | fault ↦ fault
  ]

  unfoldable pub append_dhcp4_server_static_leases : KeyFile → Dhcp4ServerLease → Outcome KeyFile
  append_dhcp4_server_static_leases kf l = elim (ip_to_str inet l.addr.family l.addr) [
    | ok address ↦
        add_new_section kf (codes "DHCPServerStaticLease")
          (entry_str (codes "MACAddress") l.mac ++ entry_str (codes "Address") address)
    | err n ↦ ok kf
    | fault ↦ fault
  ]

-- `set_foreach` and `g_hash_table_foreach`
unfoldable pub append_each {ℓ} :
    {A : Type ℓ} → (KeyFile → A → Outcome KeyFile) → KeyFile → List A → Outcome KeyFile
append_each append kf [] = ok kf
append_each append kf (a ∷ rest) = do kf' ← append kf a; append_each append kf' rest
