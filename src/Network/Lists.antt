-- ===== src/Network/Lists.antt =====
-- The sections for addresses, routes, rules, virtual functions and leases are appended, whatever
-- these are.
use network_config_manager.Base.{
  ℕ, ◌%◌, ◌^◌, ◌==◌, ◌≡◌, refl, Bool, true, false, not, ◌&&◌, List, [], ◌∷◌, ◌++◌, Bytes, codes,
  Option, none, some, if◌then◌else◌, inl, inr, ◌⊎◌, leb, length,
}
use network_config_manager.CLib.{streq}
use network_config_manager.CLib.Strtol.{Long}
use network_config_manager.Outcome.{Outcome, ok, err}
use network_config_manager.KeyFile.{KeyFile}
use network_config_manager.EnumTable.{Enum, enum_to_name}
use network_config_manager.EnumTable.Laws.{to_name-bounded}
use network_config_manager.EnumTable.Route.{route_scope_type, route_type}
use network_config_manager.EnumTable.SrIov.{sriov_link_state_table}
use network_config_manager.NetworkUtil.{
  Inet, IpAddress, af_inet, af_inet6, ip_to_str_prefix, ip_is_null,
}
use network_config_manager.NetworkUtil.Address.{ip_to_str-cases, ip_to_str_prefix-cases}
use network_config_manager.Settings.{when, is_set, is_true, is_positive, is_invalid}
use network_config_manager.StringUtil.{bool_to_str}
use network_config_manager.CLib.Decimal.{print_uint}
use network_config_manager.Network.{Network, Route, RoutingPolicyRule, Dhcp4ServerLease, Sriov}
use network_config_manager.Network.Sections.{
  entry_str, uint_max, rt_table_main, table_entries, default_destination, prefixed, Entry,
  entry_if_str, entry_if_bool, entry_if_uint, entry_unless, or_null, append_each, append_addresses,
  append_routes, append_routing_policy_rules, append_dhcp4_server_static_leases,
  sriov_add_new_section, route_entries, rule_entries, sriov_entries,
}
use network_config_manager.Network.Generate.{append_sections, append_leases, leases_of}
use network_config_manager.Network.Appended.{
  Appended, Appended-refl, Appended-trans, HasTexts, no_entry, one_more, add_new_section-Appended,
  is_listed,
}

-- It succeeds, and only appends sections of the listed names.
abbrev pub Appends : KeyFile → Outcome KeyFile → Type 0
Appends kf m = (after : KeyFile) × (m ≡ ok after) × Appended kf after

pub append_each-Appends {ℓ} :
    {A : Type ℓ} (append : KeyFile → A → Outcome KeyFile)
    → ((kf : KeyFile) (a : A) → Appends kf (append kf a))
    → (kf : KeyFile) (as' : List A) → Appends kf (append_each append kf as')
unfolding append_each
append_each-Appends append step kf [] = (kf, refl, Appended-refl kf)
append_each-Appends append step kf (a ∷ rest) =
    let (mid, done, p) = step kf a in
    let (after, done', q) = append_each-Appends append step mid rest in
    (after, rw done done', Appended-trans kf mid after p q)

infixl 5 ◌with◌
pub ◌with◌ : {xs ys : List Entry} → HasTexts xs → HasTexts ys → HasTexts (xs ++ ys)
no_entry with q = q
one_more o e p with q = one_more o e (p with q)

pub made :
    (key : Bytes) (v : Outcome (Option Bytes))
    → (o : Option Bytes) × (v ≡ ok o)
    → HasTexts ((key, v) ∷ [])
made key v (o, e) = one_more o e no_entry

either :
    (b : Bool) {xs ys : List Entry} → HasTexts xs → HasTexts ys → HasTexts (if b then xs else ys)
either true p q = p
either false p q = q

pub guarded : (b : Bool) {es : List Entry} → HasTexts es → HasTexts (when b es)
guarded true h = h
guarded false h = no_entry

module _ (key : Bytes) where
  pub if_text : (v : Option Bytes) → HasTexts (entry_if_str key v)
  if_text none = no_entry
  if_text (some x) = made key (ok (some x)) (some x, refl)

  pub plain : (b : Bool) (x : Bytes) → HasTexts (when b ((key, ok (some x)) ∷ []))
  plain b x = guarded b (made key (ok (some x)) (some x, refl))

  if_bool : (v : Long) → HasTexts (entry_if_bool key v)
  if_bool v = plain (is_set v) (bool_to_str (is_true v))

  if_uint : (v : ℕ) → HasTexts (entry_if_uint key v)
  if_uint v = plain (leb 1 v) (print_uint (v % 2 ^ 32))

  unless_is : (top v : ℕ) → HasTexts (entry_unless key top v)
  unless_is top v = plain (not (v == top)) (print_uint (v % 2 ^ 32))

or_null-ok :
    (m : Outcome Bytes)
    → ((x : Bytes) × (m ≡ ok x)) ⊎ ((n : ℕ) × (m ≡ err n))
    → (o : Option Bytes) × (or_null m ≡ ok o)
or_null-ok m (inl (x, e)) = (some x, rw e refl)
or_null-ok m (inr (n, e)) = (none, rw e refl)

made_name :
    (key : Bytes) (e : Enum) (id : Long)
    → leb e.bound (length e.named) ≡ true
    → HasTexts ((key, enum_to_name e id) ∷ [])
made_name key e id h = made key (enum_to_name e id) (to_name-bounded e id h)

sriov_entries-HasTexts : (s : Sriov) → HasTexts (sriov_entries s)
unfolding sriov_entries
sriov_entries-HasTexts s =
    unless_is (codes "VirtualFunction") uint_max s.vf
    with if_uint (codes "VLANId") s.vlan
    with if_uint (codes "QualityOfService") s.qos
    with if_text (codes "VLANProtocol") s.vlan_proto
    with if_bool (codes "MACSpoofCheck") s.vf_spoof_check_setting
    with if_bool (codes "QueryReceiveSideScaling") s.query_rss
    with if_bool (codes "Trust") s.trust
    with guarded (is_set s.link_state)
        (made_name (codes "LinkState") sriov_link_state_table s.link_state refl)
    with if_text (codes "MACAddress") s.macaddr

sriov_add-Appends : (kf : KeyFile) (s : Sriov) → Appends kf (sriov_add_new_section kf s)
unfolding sriov_add_new_section is_listed streq
sriov_add-Appends kf s =
    add_new_section-Appended kf (codes "SR-IOV") (sriov_entries s) refl (sriov_entries-HasTexts s)

or_same :
    (kf : KeyFile) (b : Bool) {m : Outcome KeyFile}
    → Appends kf m
    → Appends kf (if b then ok kf else m)
or_same kf true h = (kf, refl, Appended-refl kf)
or_same kf false h = h

table_entries-HasTexts : (t : ℕ) → HasTexts (table_entries t)
table_entries-HasTexts t =
    plain (codes "Table") (leb 1 t && not (t == rt_table_main)) (print_uint (t % 2 ^ 32))

default_destination-HasTexts : (family : ℕ) → HasTexts (default_destination family)
default_destination-HasTexts family =
    either (family == af_inet) (fixed (codes "0.0.0.0/0"))
      (either (family == af_inet6) (fixed (codes "::/0")) no_entry)
  where
    fixed : (x : Bytes) → HasTexts ((codes "Destination", ok (some x)) ∷ [])
    fixed x = made (codes "Destination") (ok (some x)) (some x, refl)

module _ (inet : Inet) where
  prefix_made :
      (key : Bytes) (a : IpAddress)
      → HasTexts ((key, or_null (ip_to_str_prefix inet a.family a)) ∷ [])
  prefix_made key a =
      made key (or_null (ip_to_str_prefix inet a.family a))
        (or_null-ok (ip_to_str_prefix inet a.family a) (ip_to_str_prefix-cases inet a.family a))

  prefixed-HasTexts : (key : Bytes) (a : IpAddress) → HasTexts (prefixed inet key a)
  prefixed-HasTexts key a = guarded (not (ip_is_null a)) (prefix_made key a)

  route_entries-HasTexts : (r : Route) → HasTexts (route_entries inet r)
  unfolding route_entries
  route_entries-HasTexts r =
      either (not (ip_is_null r.dst)) (prefix_made (codes "Destination") r.dst)
        (guarded r.to_default (default_destination-HasTexts r.family))
      with prefixed-HasTexts (codes "Gateway") r.gw
      with prefixed-HasTexts (codes "PreferredSource") r.prefsrc
      with if_bool (codes "Onlink") r.onlink
      with table_entries-HasTexts r.table
      with guarded (is_positive r.scope) (made_name (codes "Scope") route_scope_type r.scope refl)
      with guarded (not (is_invalid r.type)) (made_name (codes "Type") route_type r.type refl)
      with if_uint (codes "RouteMetric") r.metric
      with if_uint (codes "InitialCongestionWindow") r.initcwnd
      with if_uint (codes "InitialAdvertisedReceiveWindow") r.initrwnd
      with if_bool (codes "QuickAck") r.quick_ack
      with if_bool (codes "FastOpenNoCookie") r.tfo
      with if_bool (codes "TTLPropagate") r.ttl_propogate

  rule_entries-HasTexts : (r : RoutingPolicyRule) → HasTexts (rule_entries inet r)
  unfolding rule_entries
  rule_entries-HasTexts r =
      prefixed-HasTexts (codes "From") r.from
      with prefixed-HasTexts (codes "To") r.to
      with unless_is (codes "Priority") uint_max r.priority
      with table_entries-HasTexts r.table
      with unless_is (codes "TypeOfService") 255 r.tos
      with unless_is (codes "FirewallMark") uint_max r.fwmark

  append_routes-Appends : (kf : KeyFile) (r : Route) → Appends kf (append_routes inet kf r)
  unfolding append_routes is_listed streq
  append_routes-Appends kf r = or_same kf (ip_is_null r.dst && ip_is_null r.gw) (
      add_new_section-Appended kf (codes "Route") (route_entries inet r) refl
        (route_entries-HasTexts r))

  append_rules-Appends :
      (kf : KeyFile) (r : RoutingPolicyRule) → Appends kf (append_routing_policy_rules inet kf r)
  unfolding append_routing_policy_rules is_listed streq
  append_rules-Appends kf r = or_same kf (ip_is_null r.to && ip_is_null r.from) (
      add_new_section-Appended kf (codes "RoutingPolicyRule") (rule_entries inet r) refl
        (rule_entries-HasTexts r))

  append_addresses-Appends :
      (kf : KeyFile) (a : IpAddress) → Appends kf (append_addresses inet kf a)
  unfolding append_addresses is_listed streq
  append_addresses-Appends kf a = elim (ip_to_str_prefix-cases inet a.family a) [
    | inl (x, e) ↦
        rw (e, append_addresses)
          (add_new_section-Appended kf (codes "Address")
            (entry_str (codes "Address") x
              ++ entry_if_str (codes "Label") a.label
              ++ entry_if_str (codes "PreferredLifetime") a.lifetime)
            refl
            (made (codes "Address") (ok (some x)) (some x, refl)
              with if_text (codes "Label") a.label
              with if_text (codes "PreferredLifetime") a.lifetime))
    | inr (n, e) ↦ rw (e, append_addresses) (kf, refl, Appended-refl kf)
  ]

  append_leases_of-Appends :
      (kf : KeyFile) (l : Dhcp4ServerLease)
      → Appends kf (append_dhcp4_server_static_leases inet kf l)
  unfolding append_dhcp4_server_static_leases is_listed streq
  append_leases_of-Appends kf l = elim (ip_to_str-cases inet l.addr.family l.addr) [
    | inl (x, e) ↦
        rw (e, append_dhcp4_server_static_leases)
          (add_new_section-Appended kf (codes "DHCPServerStaticLease")
            (entry_str (codes "MACAddress") l.mac ++ entry_str (codes "Address") x) refl
            (made (codes "MACAddress") (ok (some l.mac)) (some l.mac, refl)
              with made (codes "Address") (ok (some x)) (some x, refl)))
    | inr (n, e) ↦ rw (e, append_dhcp4_server_static_leases) (kf, refl, Appended-refl kf)
  ]

  pub append_leases-Appends : (kf : KeyFile) (n : Network) → Appends kf (append_leases inet kf n)
  unfolding append_leases
  append_leases-Appends kf n =
      append_each-Appends (append_dhcp4_server_static_leases inet) append_leases_of-Appends kf
        (leases_of n.dhcp4_server)

  -- The four runs of sections succeed whatever the addresses, routes, rules and virtual functions are,
  -- and leave the other sections as they are.
  pub append_sections-Appends :
      (kf : KeyFile) (n : Network) → Appends kf (append_sections inet kf n)
  unfolding append_sections
  append_sections-Appends kf n =
      let (k₁, d₁, p₁) =
        append_each-Appends (append_addresses inet) append_addresses-Appends kf n.addresses in
      let (k₂, d₂, p₂) =
        append_each-Appends (append_routes inet) append_routes-Appends k₁ n.routes in
      let (k₃, d₃, p₃) =
        append_each-Appends (append_routing_policy_rules inet) append_rules-Appends k₂
          n.routing_policy_rules in
      let (k₄, d₄, p₄) = append_each-Appends sriov_add_new_section sriov_add-Appends k₃ n.sriovs in
      (
        k₄,
        rw d₁ (rw d₂ (rw d₃ d₄)),
        Appended-trans kf k₁ k₄ p₁ (Appended-trans k₁ k₂ k₄ p₂ (Appended-trans k₂ k₃ k₄ p₃ p₄)),
      )
