-- ===== src/Manager/Servers.antt =====
-- The operations of `src/manager/network-manager.c` that configure the DHCP server and the router
-- advertisements of a link.
use network_config_manager.Base.{ℕ, not, List, ◌++◌, Bytes, codes, Option, none, some}
use network_config_manager.CLib.Strtol.{Long}
use network_config_manager.Glib.{Glib}
use network_config_manager.Outcome.{Outcome, ok, err, fault}
use network_config_manager.Outcome
use network_config_manager.KeyFile.{KeyFile, set_config}
use network_config_manager.EnumTable.{enum_to_name}
use network_config_manager.EnumTable.Network.{ipv6_ra_preference_type}
use network_config_manager.NetworkUtil.{Inet, IpAddress, ip_to_str_prefix}
use network_config_manager.NetworkUtil.Names.{IfNameIndex}
use network_config_manager.Settings.{when, is_invalid}
use network_config_manager.ConfFile.{
  Files, Call, pure, ◌>>=◌, ◌>>◌, set_file_permisssion, networkd_user,
  remove_section_from_config_file_key_value,
}
use network_config_manager.Network.Paths.{System, or_else}
use network_config_manager.Network.Sections.{
  Entry, entry, entry_str, entry_if_str, entry_if_bool, add_new_section,
}
use network_config_manager.Manager.{edit_link}
use network_config_manager.Manager.Addresses.{
  entry_if_int, if_address, plain_text, rewrite_link, rewrite_owned,
}

pub record Dhcp4ServerConf : Type 0 where
  pub dns_address : Option IpAddress
  pub ntp_address : Option IpAddress
  pub pool_offset : ℕ
  pub pool_size : ℕ
  pub default_lease_time : ℕ
  pub max_lease_time : ℕ
  pub emit_dns : Long
  pub emit_ntp : Long
  pub emit_router : Long

unfoldable pub dhcp4_server_entries : Dhcp4ServerConf → Option Bytes → Option Bytes → List Entry
dhcp4_server_entries c dns ntp =
    entry_if_int (codes "PoolOffset") c.pool_offset
    ++ entry_if_int (codes "PoolSize") c.pool_size
    ++ entry_if_int (codes "DefaultLeaseTimeSec") c.default_lease_time
    ++ entry_if_int (codes "MaxLeaseTimeSec") c.max_lease_time
    ++ entry_if_str (codes "DNS") dns
    ++ entry_if_bool (codes "EmitDNS") c.emit_dns
    ++ entry_if_str (codes "NTP") ntp
    ++ entry_if_bool (codes "EmitNTP") c.emit_ntp
    ++ entry_if_bool (codes "EmitRouter") c.emit_router

pub record RouterAdvertisement : Type 0 where
  pub prefix : Option IpAddress
  pub route_prefix : Option IpAddress
  pub dns : Option IpAddress
  pub domain : Option Bytes
  pub pref_lifetime : ℕ
  pub valid_lifetime : ℕ
  pub dns_lifetime : ℕ
  pub route_lifetime : ℕ
  pub preference : Long
  pub emit_dns : Long
  pub assign : Long

unfoldable pub send_ra_entries : RouterAdvertisement → Option Bytes → List Entry
send_ra_entries ra d =
    when (not (is_invalid ra.preference))
      (entry (codes "RouterPreference") (enum_to_name ipv6_ra_preference_type ra.preference))
    ++ entry_if_str (codes "DNS") d
    ++ entry_if_bool (codes "EmitDNS") ra.emit_dns
    ++ entry_if_int (codes "DNSLifetimeSec") ra.dns_lifetime
    ++ entry_if_str (codes "Domains") ra.domain
    ++ entry_if_bool (codes "Assign") ra.assign

module _ (inet : Inet) where
  unfoldable pub add_dhcp4_server : Dhcp4ServerConf → KeyFile → Outcome KeyFile
  add_dhcp4_server c kf = Outcome.◌>>=◌ (if_address (plain_text inet) c.dns_address) λ dns.
      Outcome.◌>>=◌ (if_address (plain_text inet) c.ntp_address) λ ntp.
        Outcome.◌>>=◌ (set_config kf (codes "Network") (codes "DHCPServer") (some (codes "yes")))
          λ kf₁. add_new_section kf₁ (codes "DHCPServer") (dhcp4_server_entries c dns ntp)

  -- The family is that of the DNS server, which is read without a test for NULL.
  abbrev family_of : Option IpAddress → Outcome ℕ
  family_of none = fault
  family_of (some d) = ok d.family

  abbrev prefix_text : RouterAdvertisement → Option IpAddress → Outcome (Option Bytes)
  prefix_text ra none = ok none
  prefix_text ra (some a) =
      Outcome.◌>>=◌ (family_of ra.dns)
        λ family. Outcome.◌>>=◌ (ip_to_str_prefix inet family a) λ x. ok (some x)

  -- `managed`, `other` and `emit_domain` are not used.
  unfoldable pub add_router_advertisement : RouterAdvertisement → KeyFile → Outcome KeyFile
  add_router_advertisement ra kf = Outcome.◌>>=◌ (prefix_text ra ra.prefix) λ p.
      Outcome.◌>>=◌ (prefix_text ra ra.route_prefix) λ rt.
        Outcome.◌>>=◌ (if_address (plain_text inet) ra.dns) λ d.
          Outcome.◌>>=◌ (set_config kf (codes "Network") (codes "IPv6SendRA") (some (codes "yes")))
            λ kf₁.
              Outcome.◌>>=◌ (add_new_section kf₁ (codes "IPv6SendRA") (send_ra_entries ra d)) λ kf₂.
                Outcome.◌>>=◌
                  (add_new_section kf₂ (codes "IPv6Prefix") (
                    entry_if_str (codes "Prefix") p
                    ++ entry_if_int (codes "PreferredLifetimeSec") ra.pref_lifetime
                    ++ entry_if_int (codes "ValidLifetimeSec") ra.valid_lifetime))
                  λ kf₃. add_new_section kf₃ (codes "IPv6RoutePrefix") (
                    entry_if_str (codes "Route") rt
                    ++ entry_if_int (codes "LifetimeSec") ra.route_lifetime)

  unfoldable pub add_static_lease : IpAddress → Option Bytes → KeyFile → Outcome KeyFile
  add_static_lease addr mac kf = Outcome.◌>>=◌ (ip_to_str_prefix inet addr.family addr) λ a.
      add_new_section kf (codes "DHCPServerStaticLease")
        (entry (codes "MACAddress") (ok mac) ++ entry_str (codes "Address") a)

  module _ (fs : Files) (sys : System fs) (g : Glib) where
    unfoldable pub manager_configure_dhcpv4_server :
        IfNameIndex → Dhcp4ServerConf → Call fs (Unit {0})
    manager_configure_dhcpv4_server p c = rewrite_link inet fs sys g p (add_dhcp4_server c)

    unfoldable pub manager_add_dhcpv4_server_static_address :
        IfNameIndex → IpAddress → Option Bytes → Call fs (Unit {0})
    manager_add_dhcpv4_server_static_address p addr mac =
        rewrite_owned inet fs sys g p (add_static_lease addr mac)

    unfoldable pub manager_configure_ipv6_router_advertisement :
        IfNameIndex → RouterAdvertisement → Call fs (Unit {0})
    manager_configure_ipv6_router_advertisement p ra =
        rewrite_owned inet fs sys g p (add_router_advertisement ra)

    -- By the address, or where that fails by the MAC address.
    unfoldable pub manager_remove_dhcpv4_server_static_address :
        IfNameIndex → IpAddress → Bytes → Call fs (Unit {0})
    manager_remove_dhcpv4_server_static_address p addr mac = edit_link fs sys g p λ network.
        ◌>>=◌ fs (pure fs (ip_to_str_prefix inet addr.family addr)) λ a.
          ◌>>◌ fs
            (or_else fs
              (remove_section_from_config_file_key_value fs g network
                (codes "DHCPServerStaticLease") (codes "Address") a)
              (λ _. pure fs (ok tt))
              (remove_section_from_config_file_key_value fs g network
                (codes "DHCPServerStaticLease") (codes "MACAddress") mac))
            (set_file_permisssion fs network (networkd_user fs))
