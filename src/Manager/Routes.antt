-- ===== src/Manager/Routes.antt =====
-- The operations of `src/manager/network-manager.c` that configure routes and routing policy rules.
use network_config_manager.Base.{
  ℕ, Bool, true, not, List, [], ◌++◌, Bytes, codes, Option, none, some, ◌==◌, if◌then◌else◌,
}
use network_config_manager.CLib.Strtol.{Long}
use network_config_manager.Glib.{Glib}
use network_config_manager.Outcome.{Outcome, ok, err, fault}
use network_config_manager.Outcome
use network_config_manager.StringUtil.{bool_to_str}
use network_config_manager.KeyFile.{KeyFile}
use network_config_manager.KeyFile.Numbers.{print_int, key_file_set_str}
use network_config_manager.EnumTable.{Enum, enum_to_name}
use network_config_manager.EnumTable.Route.{
  route_table, route_scope_type, route_type, ipv6_route_preference_type, route_protocol_type,
}
use network_config_manager.NetworkUtil.{
  Inet, IpAddress, ip_to_str, ip_to_str_prefix, ip_is_null, af_inet, af_inet6,
}
use network_config_manager.NetworkUtil.Names.{IfNameIndex}
use network_config_manager.Settings.{when, is_set, is_positive}
use network_config_manager.ConfFile.{
  Files, Call, pure, ◌>>=◌, ◌>>◌, set_file_permisssion, networkd_user,
}
use network_config_manager.Network.{Route, RoutingPolicyRule}
use network_config_manager.Network.Paths.{System}
use network_config_manager.Network.Sections.{
  Entry, entry, entry_str, entry_if_str, entry_if_bool, entry_if_uint, add_new_section,
}
use network_config_manager.Manager.{rewrite_file, kept_or_new}
use network_config_manager.Manager.Addresses.{
  entry_int, entry_if_int, bits, plain_text, rewrite_link, rewrite_owned,
}

-- The arguments of `manager_configure_route`.
pub record RouteConf : Type 0 where
  pub gateway : Option IpAddress
  pub destination : Option IpAddress
  pub source : Option IpAddress
  pub pref_source : Option IpAddress
  pub rt_pref : Long
  pub protocol : Long
  pub scope : Long
  pub type : Long
  pub table : Long
  pub mtu : ℕ
  pub metric : Long
  pub onlink : Long
  pub b : Bool

-- The name of the number or, where it has none, the number.
unfoldable pub name_or_number : Enum → Long → Outcome (Option Bytes)
name_or_number e v = elim (enum_to_name e v) [
  | ok none ↦ ok (some (print_int (bits v)))
  | ok (some x) ↦ ok (some x)
  | err n ↦ err n
  | fault ↦ fault
]

-- The default route of a family.
unfoldable pub default_of : ℕ → Option Bytes
default_of family =
    if family == af_inet
    then some (codes "0.0.0.0/0")
    else if family == af_inet6
    then some (codes "::/0")
    else none

abbrev entry_positive : Bytes → Enum → Long → List Entry
entry_positive key e v = when (is_positive v) (entry key (enum_to_name e v))

abbrev entry_number : Bytes → Enum → Long → List Entry
entry_number key e v = when (is_positive v) (entry key (name_or_number e v))

module _ (inet : Inet) where
  abbrev entry_address : Bytes → Outcome Bytes → List Entry
  entry_address key text = entry key (Outcome.◌>>=◌ text λ x. ok (some x))

  abbrev entry_if_address : Bytes → (IpAddress → Outcome Bytes) → Option IpAddress → List Entry
  entry_if_address key print none = []
  entry_if_address key print (some a) = entry_address key (print a)

  abbrev own_prefix : IpAddress → Outcome Bytes
  own_prefix a = ip_to_str_prefix inet a.family a

  -- The source is printed by the family of the gateway, which may be NULL.
  abbrev source_text : Option IpAddress → IpAddress → Outcome Bytes
  source_text none a = fault
  source_text (some gw) a = ip_to_str_prefix inet gw.family a

  unfoldable pub destination_entries : RouteConf → Option IpAddress → Option IpAddress → List Entry
  destination_entries c (some d) gw = entry_address (codes "Destination") (own_prefix d)
  destination_entries c none none = when c.b (entry (codes "Destination") fault)
  destination_entries c none (some gw) =
      when c.b (entry_if_str (codes "Destination") (default_of gw.family))

  unfoldable pub configured_route_entries : RouteConf → List Entry
  configured_route_entries c =
      entry_if_address (codes "Gateway") (plain_text inet) c.gateway
      ++ entry_if_bool (codes "GatewayOnLink") c.onlink
      ++ entry_if_address (codes "Source") (source_text c.gateway) c.source
      ++ entry_if_address (codes "PreferredSource") own_prefix c.pref_source
      ++ destination_entries c c.destination c.gateway
      ++ when (is_positive c.metric) (entry_str (codes "Metric") (print_int (bits c.metric)))
      ++ entry_if_int (codes "MTUBytes") c.mtu
      ++ entry_number (codes "Protocol") route_protocol_type c.protocol
      ++ when (is_set c.rt_pref)
          (entry (codes "IPv6Preference") (enum_to_name ipv6_route_preference_type c.rt_pref))
      ++ entry_positive (codes "Scope") route_scope_type c.scope
      ++ entry_positive (codes "Type") route_type c.type
      ++ entry_number (codes "Table") route_table c.table

  unfoldable pub add_routing_policy_rule : RoutingPolicyRule → KeyFile → Outcome KeyFile
  add_routing_policy_rule rule kf = Outcome.◌>>=◌ (own_prefix rule.to) λ to.
      Outcome.◌>>=◌ (own_prefix rule.from) λ from. add_new_section kf (codes "RoutingPolicyRule") (
        entry_if_uint (codes "TypeOfService") rule.tos
        ++ entry_int (codes "Table") rule.table
        ++ entry_if_int (codes "Priority") rule.priority
        ++ entry_str (codes "From") from
        ++ entry_str (codes "To") to
        ++ entry_if_str (codes "IncomingInterface") rule.iif
        ++ entry_if_str (codes "OutgoingInterface") rule.oif
        ++ when rule.invert_rule (entry_str (codes "Invert") (bool_to_str true))
        ++ entry_if_str (codes "SourcePort") rule.sport_str
        ++ entry_if_str (codes "DestinationPort") rule.dport_str
        ++ entry_if_str (codes "IPProtocol") rule.ipproto_str)

  abbrev rule_destination : Route → Outcome (Option Bytes)
  rule_destination rt =
      if not (ip_is_null rt.dst)
      then (Outcome.◌>>=◌ (ip_to_str inet rt.dst.family rt.dst) λ x. ok (some x))
      else ok (default_of rt.family)

  abbrev rule_gateway : Route → Bytes → Outcome Bytes
  rule_gateway rt gw = if not (ip_is_null rt.gw) then ip_to_str inet rt.gw.family rt.gw else ok gw

  -- A table of its own for the address: a route over the link, one over the gateway, and rules to and
  -- from the address. `strdup` reads a NULL address.
  unfoldable pub add_address_table : Option IpAddress → Route → KeyFile → Outcome KeyFile
  add_address_table none rt kf = Outcome.◌>>=◌ (ip_to_str inet rt.gw.family rt.gw) λ _. fault
  add_address_table (some a) rt kf =
      let table = entry_int (codes "Table") rt.table in
      Outcome.◌>>=◌ (ip_to_str inet rt.gw.family rt.gw) λ gw₀.
        Outcome.◌>>=◌ (own_prefix a) λ address.
          Outcome.◌>>=◌ (key_file_set_str kf (codes "Address") (codes "Address") (some address))
            λ kf₁. Outcome.◌>>=◌ (rule_gateway rt gw₀) λ gw.
              Outcome.◌>>=◌ (rule_destination rt) λ destination.
                Outcome.◌>>=◌
                  (add_new_section kf₁ (codes "Route") (
                    table
                    ++ entry_str (codes "PreferredSource") address
                    ++ entry (codes "Destination") (ok destination)))
                  λ kf₂.
                    Outcome.◌>>=◌
                      (add_new_section kf₂ (codes "Route")
                        (table ++ entry_str (codes "Gateway") gw))
                      λ kf₃.
                        Outcome.◌>>=◌
                          (add_new_section kf₃ (codes "RoutingPolicyRule")
                            (table ++ entry_str (codes "To") address))
                          λ kf₄.
                            add_new_section kf₄ (codes "RoutingPolicyRule")
                              (table ++ entry_str (codes "From") address)

  module _ (fs : Files) (sys : System fs) (g : Glib) where
    unfoldable pub manager_configure_route : IfNameIndex → RouteConf → Call fs (Unit {0})
    manager_configure_route p c =
        rewrite_owned inet fs sys g p
          λ kf. add_new_section kf (codes "Route") (configured_route_entries c)

    unfoldable pub manager_configure_routing_policy_rules :
        IfNameIndex → RoutingPolicyRule → Call fs (Unit {0})
    manager_configure_routing_policy_rules p rule =
        rewrite_link inet fs sys g p (add_routing_policy_rule rule)

    unfoldable pub manager_configure_routing_policy_rule :
        IfNameIndex → Option IpAddress → Route → Bool → Call fs (Unit {0})
    manager_configure_routing_policy_rule p a rt keep =
        ◌>>=◌ fs (kept_or_new fs sys g keep p) λ network.
          ◌>>◌ fs
            (◌>>◌ fs (rewrite_file fs g network (λ kf. pure fs (add_address_table a rt kf)))
              (set_file_permisssion fs network (networkd_user fs)))
            sys.network_reload
