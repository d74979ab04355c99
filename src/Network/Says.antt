-- ===== src/Network/Says.antt =====
-- The settings of `generate_network_config` say what the table of a network says.
use network_config_manager.Base.{
  ◌≡◌, refl, Bool, true, false, Bool-cases, inl, inr, not, ◌||◌, ◌&&◌, List, [], ◌∷◌, ◌++◌, Bytes,
  codes, Option, none, some, leb, if◌then◌else◌, All, arith,
}
use network_config_manager.Outcome.{ok}
use network_config_manager.StringUtil.{bool_to_str}
use network_config_manager.NetworkUtil.{Inet, ip_to_str, ip_is_null}
use network_config_manager.Settings.{text, number, when, set_str, is_set, is_positive, spaced}
use network_config_manager.Settings.Table.{
  row, Says, ◌also◌, only, nothing-Says, silent, only-none, always, when-Says, when_bool-Says,
  if_str-Says, if_bool-Says, if_not_bool-Says, if_uint-Says, if_counted-Says, if_valid-Says, listed,
}
use network_config_manager.EnumTable.{enum_to_name}
use network_config_manager.EnumTable.Network.{
  keep_configuration_table, link_local_address_type, ipv6_link_local_address_gen_type,
  ipv6_privacy_extensions_type, dhcp_client_identifier, dhcp6_client_start_mode_table,
}
use network_config_manager.EnumTable.Route.{ipoib_mode_table}
use network_config_manager.Network.{Network, Dhcp4Server, bridge_priority_max}
use network_config_manager.Network.Settings.{
  has, both, if_words, if_any, if_server, printed, printed_servers, dhcp_name, match_settings,
  link_settings, network_settings, dhcp4_settings, dhcp6_settings, ipv6_accept_ra_settings,
  front_settings, server_settings, middle_settings, back_settings,
}
use network_config_manager.Network.Documented.{
  families, of_any, match_rows, has_link, link_rows, network_section_rows, dhcp4_rows, dhcp6_rows,
  ipv6_accept_ra_rows, server_rows, back_rows, rows_if_server, bridge_port_rows, network_rows,
}

if_words-Says :
    (t j : Bytes) (xs : Option (List Bytes)) → Says (if_words t j xs) (row t j (listed xs) ∷ [])
if_words-Says t j none = if_str-Says t j none
if_words-Says t j (some xs) = if_str-Says t j (some (spaced xs))

if_any-Says {ℓ} :
    {A : Type ℓ}
    → (t j : Bytes) (xs : List A) (x : Bytes)
    → Says (if_any xs (set_str t j x)) (row t j (of_any xs x) ∷ [])
if_any-Says t j [] x = if_str-Says t j none
if_any-Says t j (y ∷ ys) x = if_str-Says t j (some x)

both-Says :
    (b p q : Bool)
    → Says
        (when b (both p q))
        (row (codes "Network") (codes "DHCP") (if b then families p q else none) ∷ [])
both-Says false p q = if_str-Says (codes "Network") (codes "DHCP") none
both-Says true true true = if_str-Says (codes "Network") (codes "DHCP") (some (codes "yes"))
both-Says true true false = if_str-Says (codes "Network") (codes "DHCP") (some (codes "ipv4"))
both-Says true false true = if_str-Says (codes "Network") (codes "DHCP") (some (codes "ipv6"))
both-Says true false false = if_str-Says (codes "Network") (codes "DHCP") none

network-Says :
    (inet : Inet) (n : Network) → Says (network_settings inet n) (network_section_rows inet n)
unfolding network_settings
network-Says inet n =
    if_valid-Says (codes "Network") (codes "DHCP") n.dhcp_type (dhcp_name n.parser_type n.dhcp_type)
    also if_valid-Says (codes "Network") (codes "KeepConfiguration") n.keep_configuration
        (enum_to_name keep_configuration_table n.keep_configuration)
    also both-Says (is_set n.dhcp4 || is_set n.dhcp6) (is_positive n.dhcp4) (is_positive n.dhcp6)
    also if_bool-Says (codes "Network") (codes "LLDP") n.lldp
    also if_valid-Says (codes "Network") (codes "LinkLocalAddressing") n.link_local
        (enum_to_name link_local_address_type n.link_local)
    also if_valid-Says (codes "Network") (codes "IPv6LinkLocalAddressGenerationMode")
        n.ipv6_address_generation
        (enum_to_name ipv6_link_local_address_gen_type n.ipv6_address_generation)
    also if_valid-Says (codes "Network") (codes "IPv6PrivacyExtensions") n.ipv6_privacy
        (enum_to_name ipv6_privacy_extensions_type n.ipv6_privacy)
    also if_bool-Says (codes "Network") (codes "IPv6AcceptRA") n.ipv6_accept_ra
    also if_bool-Says (codes "Network") (codes "DHCPServer") n.enable_dhcp4_server
    also if_uint-Says (codes "Network") (codes "IPv6MTUBytes") n.ipv6_mtu
    also if_bool-Says (codes "Network") (codes "ConfigureWithoutCarrier")
        n.configure_without_carrier
    also if_any-Says (codes "Network") (codes "DNS") n.nameservers
        (spaced (printed_servers inet n.nameservers))
    also if_any-Says (codes "Network") (codes "Domains") n.domains (spaced n.domains)
    also if_words-Says (codes "Network") (codes "NTP") n.ntps

match-Says : (n : Network) → Says (match_settings n) (match_rows n)
unfolding match_settings
match-Says n =
    always (codes "Match") (codes "Name") (text (ok (some n.ifname)))
    also if_str-Says (codes "Match") (codes "MACAddress") n.match_mac
    also if_words-Says (codes "Match") (codes "Driver") n.driver

dhcp4-Says : (n : Network) → Says (dhcp4_settings n) (dhcp4_rows n)
unfolding dhcp4_settings
dhcp4-Says n =
    if_valid-Says (codes "DHCPv4") (codes "ClientIdentifier") n.dhcp_client_identifier_type
      (enum_to_name dhcp_client_identifier n.dhcp_client_identifier_type)
    also if_bool-Says (codes "DHCPv4") (codes "UseDNS") n.dhcp4_use_dns
    also if_bool-Says (codes "DHCPv4") (codes "UseDomains") n.dhcp4_use_domains
    also if_bool-Says (codes "DHCPv4") (codes "UseNTP") n.dhcp4_use_ntp
    also if_bool-Says (codes "DHCPv4") (codes "UseMTU") n.dhcp4_use_mtu
    also if_bool-Says (codes "DHCPv4") (codes "UseRoutes") n.dhcp4_use_routes
    also if_bool-Says (codes "DHCPv4") (codes "UseGateway") n.dhcp4_use_gw
    also if_bool-Says (codes "DHCPv4") (codes "UseHostname") n.dhcp4_use_hostname
    also if_bool-Says (codes "DHCPv4") (codes "SendHostname") n.dhcp4_send_hostname
    also if_bool-Says (codes "DHCPv4") (codes "SendRelease") n.dhcp4_send_release
    also if_str-Says (codes "DHCPv4") (codes "Hostname") n.dhcp4_hostname
    also if_uint-Says (codes "DHCPv4") (codes "RouteMetric") n.dhcp4_route_metric
    also if_uint-Says (codes "DHCPv4") (codes "InitialCongestionWindow")
        n.dhcp4_initial_congestion_window
    also if_uint-Says (codes "DHCPv4") (codes "InitialAdvertisedReceiveWindow")
        n.dhcp4_advertised_receive_window
    also if_str-Says (codes "DHCPv4") (codes "IAID") n.dhcp4_iaid
    also if_bool-Says (codes "DHCPv4") (codes "RapidCommit") n.dhcp4_rapid_commit

dhcp6-Says : (n : Network) → Says (dhcp6_settings n) (dhcp6_rows n)
unfolding dhcp6_settings
dhcp6-Says n =
    if_bool-Says (codes "DHCPv6") (codes "UseDNS") n.dhcp6_use_dns
    also if_bool-Says (codes "DHCPv6") (codes "UseDomains") n.dhcp6_use_domains
    also if_bool-Says (codes "DHCPv6") (codes "UseNTP") n.dhcp6_use_ntp
    also if_bool-Says (codes "DHCPv6") (codes "UseHostname") n.dhcp6_use_hostname
    also if_bool-Says (codes "DHCPv6") (codes "RapidCommit") n.dhcp6_rapid_commit
    also if_bool-Says (codes "DHCPv6") (codes "UseAddress") n.dhcp6_use_address
    also if_bool-Says (codes "DHCPv6") (codes "SendRelease") n.dhcp6_send_release
    also when-Says (codes "DHCPv6") (codes "WithoutRA") (is_set n.dhcp6_client_start_mode)
        (text (enum_to_name dhcp6_client_start_mode_table n.dhcp6_client_start_mode))
    also if_str-Says (codes "DHCPv6") (codes "IAID") n.dhcp6_iaid

ipv6_accept_ra-Says : (n : Network) → Says (ipv6_accept_ra_settings n) (ipv6_accept_ra_rows n)
unfolding ipv6_accept_ra_settings
ipv6_accept_ra-Says n =
    if_str-Says (codes "IPv6AcceptRA") (codes "Token") n.ipv6_ra_token
    also if_bool-Says (codes "IPv6AcceptRA") (codes "UseDNS") n.ipv6_ra_use_dns
    also if_bool-Says (codes "IPv6AcceptRA") (codes "UseDomains") n.ipv6_ra_use_domains
    also if_bool-Says (codes "IPv6AcceptRA") (codes "UseMTU") n.ipv6_ra_use_mtu
    also if_bool-Says (codes "IPv6AcceptRA") (codes "UseGateway") n.ipv6_ra_use_gw
    also if_bool-Says (codes "IPv6AcceptRA") (codes "UseRoutePrefix") n.ipv6_ra_use_route_prefix
    also if_bool-Says (codes "IPv6AcceptRA") (codes "UseAutonomousPrefix") n.ipv6_ra_use_auto_prefix
    also if_bool-Says (codes "IPv6AcceptRA") (codes "UseOnLinkPrefix") n.ipv6_ra_use_onlink_prefix

server-Says : (inet : Inet) (s : Dhcp4Server) → Says (server_settings inet s) (server_rows inet s)
unfolding server_settings
server-Says inet s =
    always (codes "DHCPServer") (codes "PoolOffset") (number s.pool_offset)
    also always (codes "DHCPServer") (codes "PoolSize") (number s.pool_size)
    also if_str-Says (codes "DHCPServer") (codes "DefaultLeaseTimeSec") s.default_lease_time
    also if_str-Says (codes "DHCPServer") (codes "MaxLeaseTimeSec") s.max_lease_time
    also if_bool-Says (codes "DHCPServer") (codes "EmitDNS") s.emit_dns
    also when-Says (codes "DHCPServer") (codes "DNS") (not (ip_is_null s.dns))
        (text (printed (ip_to_str inet s.dns.family s.dns)))

back-Says : (n : Network) → Says (back_settings n) (back_rows n)
unfolding back_settings
back-Says n =
    if_uint-Says (codes "Bridge") (codes "Cost") n.cost
    also when-Says (codes "Bridge") (codes "Priority") (leb n.priority bridge_priority_max)
        (number n.priority)
    also if_valid-Says (codes "IPoIB") (codes "Mode") n.ipoib_mode
        (enum_to_name ipoib_mode_table n.ipoib_mode)

has-none : (o : Option Bytes) → has o ≡ false → o ≡ none
has-none none h = refl
has-none (some x) h = cc

no_link : (n : Network) → has_link n ≡ false → All (λ r. r.value ≡ none) (link_rows n)
no_link n h = (
  only-none _ _ (ground arith),
  (
    has-none n.mac (ground arith),
    (
      only-none _ _ (ground arith),
      (
        only-none _ _ (ground arith),
        (
          only-none _ _ (ground arith),
          (
            only-none _ _ (ground arith),
            (
              only-none _ _ (ground arith),
              (
                rw h refl,
                (
                  only-none _ _ (ground arith),
                  (
                    has-none n.mac (ground arith),
                    (
                      has-none n.req_family_for_online (ground arith),
                      (has-none n.activation_policy (ground arith), tt),
                    ),
                  ),
                ),
              ),
            ),
          ),
        ),
      ),
    ),
  ),
)

link-Says : (n : Network) → Says (link_settings n) (link_rows n)
unfolding link_settings
link-Says n = elim (Bool-cases (has_link n)) [
  | inl given ↦ rw given (
      if_not_bool-Says (codes "Link") (codes "Unmanaged") n.unmanaged
      also if_str-Says (codes "Link") (codes "MACAddress") n.mac
      also if_bool-Says (codes "Link") (codes "ARP") n.arp
      also if_bool-Says (codes "Link") (codes "Multicast") n.multicast
      also if_bool-Says (codes "Link") (codes "AllMulticast") n.all_multicast
      also if_bool-Says (codes "Link") (codes "Promiscuous") n.promiscuous
      also if_bool-Says (codes "Link") (codes "RequiredForOnline") n.req_for_online
      also if_not_bool-Says (codes "Link") (codes "RequiredForOnline") n.optional
      also if_counted-Says (codes "Link") (codes "MTUBytes") n.mtu
      also if_str-Says (codes "Link") (codes "MACAddress") n.mac
      also if_str-Says (codes "Link") (codes "RequiredFamilyForOnline") n.req_family_for_online
      also if_str-Says (codes "Link") (codes "ActivationPolicy") n.activation_policy)
  | inr lacks ↦ rw lacks (rw lacks at (silent (link_rows n) (no_link n lacks)))
]

front-Says :
    (inet : Inet) (n : Network)
    → Says (front_settings inet n) (
        match_rows n
        ++ link_rows n
        ++ network_section_rows inet n
        ++ dhcp4_rows n
        ++ dhcp6_rows n
        ++ ipv6_accept_ra_rows n)
unfolding front_settings
front-Says inet n =
    match-Says n
    also link-Says n
    also network-Says inet n
    also dhcp4-Says n
    also dhcp6-Says n
    also ipv6_accept_ra-Says n

port-Says :
    (negative nonzero : Bool)
    → Says
        (when
          (not negative && nonzero)
          (set_str (codes "Bridge") (codes "NeighborSuppression") (bool_to_str nonzero)))
        (row
            (codes "Bridge")
            (codes "NeighborSuppression")
            (only (not negative && nonzero) (codes "yes"))
          ∷ [])
port-Says negative true =
    when_bool-Says (codes "Bridge") (codes "NeighborSuppression") (not negative && true) true
port-Says true false = when_bool-Says (codes "Bridge") (codes "NeighborSuppression") false false
port-Says false false = when_bool-Says (codes "Bridge") (codes "NeighborSuppression") false false

if_server-Says :
    (inet : Inet) (o : Option Dhcp4Server) → Says (if_server inet o) (rows_if_server inet o)
if_server-Says inet none = nothing-Says
if_server-Says inet (some s) = server-Says inet s

middle-Says :
    (inet : Inet) (n : Network)
    → Says (middle_settings inet n) (bridge_port_rows n ++ rows_if_server inet n.dhcp4_server)
unfolding middle_settings
middle-Says inet n =
    port-Says n.neighbor_suppression.neg (leb 1 n.neighbor_suppression.size)
    also if_server-Says inet n.dhcp4_server

-- The three runs of settings say the rows of a network.
pub network_rows-Says :
    (inet : Inet) (n : Network)
    → Says
        (front_settings inet n ++ middle_settings inet n ++ back_settings n)
        (network_rows inet n)
network_rows-Says inet n = front-Says inet n also middle-Says inet n also back-Says n
