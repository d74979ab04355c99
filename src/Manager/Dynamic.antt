-- ===== src/Manager/Dynamic.antt =====
-- `manager_set_link_dhcp_client`, `manager_set_link_dynamic_conf` and what the latter writes, in
-- `src/manager/network-manager.c`.
use network_config_manager.Base.{ℕ, Bool, ◌||◌, List, ◌++◌, Bytes, codes, Option, if◌then◌else◌}
use network_config_manager.CLib.Strtol.{Long}
use network_config_manager.Glib.{Glib}
use network_config_manager.EnumTable.{enum_to_name}
use network_config_manager.EnumTable.Network.{
  dhcp_client_identifier, dhcp_client_mode_table, link_local_address_type,
}
use network_config_manager.NetworkUtil.Names.{IfNameIndex}
use network_config_manager.Settings.{
  Setting, text, when, setting, set_str, set_bool, if_str, if_bool, is_set, write_settings,
}
use network_config_manager.ConfFile.{Files, Call, ◌>>=◌, ◌>>◌}
use network_config_manager.Network.Paths.{System}
use network_config_manager.Manager.{edit_link, rewrite_file, kept_or_new}
use network_config_manager.Manager.Setters.{is_kind, dhcp_client_ipv4, dhcp_client_ipv6}

pub record DhcpUses : Type 0 where
  pub use_dns_ipv4 : Long
  pub use_dns_ipv6 : Long
  pub use_domains_ipv4 : Long
  pub use_domains_ipv6 : Long
  pub send_release_ipv4 : Long
  pub send_release_ipv6 : Long

pub record DynamicConf : Type 0 where
  pub accept_ra : Long
  pub dhcp_kind : Long
  pub uses : DhcpUses
  pub dhcp4_identifier : Long
  pub iaid4 : Option Bytes
  pub iaid6 : Option Bytes
  pub lla : Long

unfoldable pub use_settings : DhcpUses → List Setting
use_settings u =
    if_bool (codes "DHCPv4") (codes "UseDNS") u.use_dns_ipv4
    ++ if_bool (codes "DHCPv6") (codes "UseDNS") u.use_dns_ipv6
    ++ if_bool (codes "DHCPv4") (codes "UseDomains") u.use_domains_ipv4
    ++ if_bool (codes "DHCPv6") (codes "UseDomains") u.use_domains_ipv6
    ++ if_bool (codes "DHCPv4") (codes "SendRelease") u.send_release_ipv4
    ++ if_bool (codes "DHCPv6") (codes "SendRelease") u.send_release_ipv6

abbrev pub dhcp_client_yes : ℕ
dhcp_client_yes = 1

abbrev pub set_network : Bytes → Bytes → List Setting
set_network k v = set_str (codes "Network") k v

-- DHCPv6 needs router advertisements and a link-local address.
unfoldable pub kind_lla_settings : Long → List Setting
kind_lla_settings kind =
    if is_kind dhcp_client_yes kind || is_kind dhcp_client_ipv6 kind
    then set_network (codes "LinkLocalAddressing") (codes "ipv6")
      ++ set_network (codes "IPv6AcceptRA") (codes "yes")
    else when (is_kind dhcp_client_ipv4 kind) (
        set_network (codes "LinkLocalAddressing") (codes "no")
        ++ set_network (codes "IPv6AcceptRA") (codes "no"))

unfoldable pub accept_ra_settings : Long → List Setting
accept_ra_settings v = when (is_set v) (
    set_network (codes "LinkLocalAddressing") (codes "ipv6")
    ++ set_bool (codes "Network") (codes "IPv6AcceptRA") v)

unfoldable pub lla_settings : Long → List Setting
lla_settings v = when (is_set v) (
    setting (codes "Network") (codes "LinkLocalAddressing")
      (text (enum_to_name link_local_address_type v)))

unfoldable pub identifier_settings : DynamicConf → List Setting
identifier_settings c =
    when (is_set c.dhcp4_identifier) (
      setting (codes "DHCPv4") (codes "ClientIdentifier")
        (text (enum_to_name dhcp_client_identifier c.dhcp4_identifier)))
    ++ if_str (codes "DHCPv4") (codes "IAID") c.iaid4
    ++ if_str (codes "DHCPv6") (codes "IAID") c.iaid6

unfoldable pub dhcp_kind_settings : Long → List Setting
dhcp_kind_settings kind =
    when (is_set kind)
      (setting (codes "Network") (codes "DHCP") (text (enum_to_name dhcp_client_mode_table kind)))

unfoldable pub dynamic_settings : DynamicConf → List Setting
dynamic_settings c =
    identifier_settings c
    ++ kind_lla_settings c.dhcp_kind
    ++ accept_ra_settings c.accept_ra
    ++ lla_settings c.lla
    ++ dhcp_kind_settings c.dhcp_kind
    ++ use_settings c.uses

module _ (fs : Files) (sys : System fs) (g : Glib) where
  unfoldable pub manager_set_link_dhcp_client : IfNameIndex → Long → DhcpUses → Call fs (Unit {0})
  manager_set_link_dhcp_client p mode u = edit_link fs sys g p λ network.
      rewrite_file fs g network λ kf. write_settings fs kf (
        setting (codes "Network") (codes "DHCP") (text (enum_to_name dhcp_client_mode_table mode))
        ++ use_settings u)

  unfoldable pub manager_set_link_dynamic_conf :
      IfNameIndex → DynamicConf → Bool → Call fs (Unit {0})
  manager_set_link_dynamic_conf p c keep = ◌>>=◌ fs (kept_or_new fs sys g keep p) λ network.
      ◌>>◌ fs (rewrite_file fs g network λ kf. write_settings fs kf (dynamic_settings c))
        sys.network_reload
