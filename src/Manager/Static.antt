-- ===== src/Manager/Static.antt =====
-- The operations of `src/manager/network-manager.c` on the addresses, name servers, domains and time
-- servers of a link.
use network_config_manager.Base.{
  Bool, true, false, List, [], ◌∷◌, ◌++◌, Bytes, codes, Option, none, some, if◌then◌else◌, ◌==◌,
}
use network_config_manager.CLib.{streq}
use network_config_manager.CLib.Strtol.{Long}
use network_config_manager.Glib.{Glib}
use network_config_manager.Outcome.{Outcome, ok, err, fault}
use network_config_manager.StringUtil.Strv.{strv_empty, strv_join, strv_unique}
use network_config_manager.KeyFile.{KeyFile, set_config}
use network_config_manager.NetworkUtil.{Inet, parse_ip, af_inet6}
use network_config_manager.NetworkUtil.Names.{IfNameIndex}
use network_config_manager.Settings.{Setting, set_str, if_bool, write_settings}
use network_config_manager.ConfFile.{
  Files, Call, pure, ◌>>=◌, ◌>>◌, parse_config_file, set_config_file_str, key_file_parse_strv,
  remove_key_from_config_file,
}
use network_config_manager.StateFile.Keys.{
  network_parse_link_setup_state, network_parse_link_network_file,
}
use network_config_manager.Network.Paths.{System, create_or_parse_network_file, or_else}
use network_config_manager.Network.Sections.{entry_str, add_new_section, append_each}
use network_config_manager.Network.Generate.{ignored}
use network_config_manager.Manager.{edit_link, rewrite_file, kept_or_new, asserted}
use network_config_manager.Manager.Dynamic.{DynamicConf, dynamic_settings, lla_settings}

-- The words of the setting that the file has, behind those that are given.
abbrev pub added_to : List Bytes → Option (List Bytes) → List Bytes
added_to words none = words
added_to words (some old) = if strv_empty old then words else strv_unique words old

module _ (fs : Files) (g : Glib) where
  -- `if (keep)`: the words with those of the file, or alone.
  unfoldable pub words_to_write : Bool → Bytes → Bytes → List Bytes → Call fs (List Bytes)
  words_to_write true path k words =
      ◌>>=◌ fs (key_file_parse_strv fs g path (codes "Network") k)
        λ old. pure fs (ok (added_to words old))
  words_to_write false path k words = pure fs (ok words)

  unfoldable pub write_words :
      Bool → Bytes → Bytes → KeyFile → Option (List Bytes) → Call fs KeyFile
  write_words keep path k kf none = pure fs (ok kf)
  write_words keep path k kf (some words) =
      ◌>>=◌ fs (words_to_write keep path k words)
        λ l. pure fs (set_config kf (codes "Network") k (some (strv_join (codes " ") l)))

pub record StaticConf : Type 0 where
  pub addrs : List Bytes
  pub gws : List Bytes
  pub dns : Option (List Bytes)
  pub lla : Long

abbrev append_one : Bytes → Bytes → KeyFile → Bytes → Outcome KeyFile
append_one section k kf a = add_new_section kf section (entry_str k a)

-- An address with a prefix length is not one that `parse_ip` reads.
unfoldable pub has_ipv6 : Inet → List Bytes → Outcome Bool
has_ipv6 inet [] = ok false
has_ipv6 inet (a ∷ addrs) =
    let rest = has_ipv6 inet addrs in
    elim (parse_ip inet a) [
      | ok addr ↦ if addr.family == af_inet6 then ok true else rest
      | err n ↦ rest
      | fault ↦ fault
    ]

abbrev ipv6_settings : Bool → List Setting
ipv6_settings true = set_str (codes "Network") (codes "LinkLocalAddressing") (codes "ipv6")
ipv6_settings false = []

module _ (fs : Files) (sys : System fs) (g : Glib) (inet : Inet) where
  unfoldable pub manager_set_link_static_conf_internal :
      StaticConf → Bool → KeyFile → Call fs KeyFile
  manager_set_link_static_conf_internal c keep kf =
      ◌>>=◌ fs (write_settings fs kf (lla_settings c.lla)) λ kf₁.
        ◌>>=◌ fs (write_words fs g keep kf₁.name (codes "DNS") kf₁ c.dns) λ kf₂.
          ◌>>=◌ fs
            (pure fs (append_each (append_one (codes "Address") (codes "Address")) kf₂ c.addrs))
            λ kf₃. pure fs (append_each (append_one (codes "Route") (codes "Gateway")) kf₃ c.gws)

  abbrev enable_ipv6 : List Bytes → KeyFile → Call fs KeyFile
  enable_ipv6 addrs kf =
      ◌>>=◌ fs (pure fs (has_ipv6 inet addrs)) λ six. write_settings fs kf (ipv6_settings six)

  -- The file is edited and saved, and networkd reloaded.
  abbrev configure : IfNameIndex → Bool → (KeyFile → Call fs KeyFile) → Call fs (Unit {0})
  configure p keep edit =
      ◌>>=◌ fs (kept_or_new fs sys g keep p)
        λ network. ◌>>◌ fs (rewrite_file fs g network edit) sys.network_reload

  unfoldable pub manager_set_link_static_conf : IfNameIndex → StaticConf → Bool → Call fs (Unit {0})
  manager_set_link_static_conf p c keep =
      configure p keep
        λ kf. ◌>>=◌ fs (manager_set_link_static_conf_internal c keep kf) (enable_ipv6 c.addrs)

  -- The mode of link-local addresses is given to both parts.
  unfoldable pub manager_set_link_network_conf :
      IfNameIndex → DynamicConf → StaticConf → Bool → Call fs (Unit {0})
  manager_set_link_network_conf p d c keep = configure p keep λ kf.
      ◌>>=◌ fs (write_settings fs kf (dynamic_settings d)) λ kf₁.
        ◌>>=◌ fs (manager_set_link_static_conf_internal (record c { lla = d.lla }) keep kf₁)
          (enable_ipv6 c.addrs)

  unfoldable pub manager_set_dns_server :
      IfNameIndex → Option (List Bytes) → Long → Long → Bool → Call fs (Unit {0})
  manager_set_dns_server p dns ipv4 ipv6 keep = edit_link fs sys g p λ network.
      rewrite_file fs g network λ kf.
        ◌>>=◌ fs (write_words fs g keep network (codes "DNS") kf dns) λ kf₁. write_settings fs kf₁ (
          if_bool (codes "DHCPv4") (codes "UseDNS") ipv4
          ++ if_bool (codes "DHCPv6") (codes "UseDNS") ipv6)

  abbrev set_words : Bytes → Bytes → List Bytes → Bool → Call fs (Unit {0})
  set_words network k words keep =
      ◌>>=◌ fs (words_to_write fs g keep network k words)
        λ l. set_config_file_str fs g network (codes "Network") k (some (strv_join (codes " ") l))

  -- A state that is NULL fails the comparison's read.
  abbrev is_unmanaged : Option Bytes → Outcome Bool
  is_unmanaged none = fault
  is_unmanaged (some s) = ok (streq s (codes "unmanaged"))

  -- What is done over the bus where networkd does not manage the link, and what on its file.
  abbrev if_managed : IfNameIndex → Call fs (Unit {0}) → Call fs (Unit {0}) → Call fs (Unit {0})
  if_managed p bus managed =
      or_else fs (network_parse_link_setup_state fs g p.ifindex)
        (λ setup. ◌>>=◌ fs (pure fs (is_unmanaged setup)) λ b. if b then bus else managed) bus

  module _ (dbus_add_dns_domains : Long → List Bytes → Call fs (Unit {0}))
      (dbus_revert_resolve_link : Long → Call fs (Unit {0}))
      (dbus_restart_timesyncd : Call fs (Unit {0})) where
    unfoldable pub manager_set_dns_server_domain :
        IfNameIndex → List Bytes → Bool → Call fs (Unit {0})
    manager_set_dns_server_domain p domains keep =
        if_managed p (dbus_add_dns_domains p.ifindex domains)
          (edit_link fs sys g p λ network. set_words network (codes "Domains") domains keep)

    -- The key is removed where it is there.
    abbrev remove_if_there : Bytes → Bytes → Call fs (Unit {0})
    remove_if_there path k =
        or_else fs (parse_config_file fs g path (codes "Network") k)
          (λ old. remove_key_from_config_file fs g path (codes "Network") k) (pure fs (ok tt))

    unfoldable pub manager_revert_dns_server_and_domain :
        IfNameIndex → Bool → Bool → Call fs (Unit {0})
    manager_revert_dns_server_and_domain p dns domain =
        if_managed p (dbus_revert_resolve_link p.ifindex) (
          ◌>>=◌ fs (network_parse_link_network_file fs g p.ifindex) λ network.
            ◌>>◌ fs (on_path dns network (codes "DNS"))
              (◌>>◌ fs (on_path domain network (codes "Domains")) sys.network_reload))
      where
        on_path : Bool → Option Bytes → Bytes → Call fs (Unit {0})
        on_path false network k = pure fs (ok tt)
        on_path true network k = ◌>>=◌ fs (asserted fs g network) λ path. remove_if_there path k

    -- `(void)`: what follows is not waited for.
    abbrev reload_and_restart : Call fs (Unit {0})
    reload_and_restart = ◌>>◌ fs (ignored fs sys.network_reload) (ignored fs dbus_restart_timesyncd)

    unfoldable pub manager_set_ntp_servers : IfNameIndex → List Bytes → Bool → Call fs (Unit {0})
    manager_set_ntp_servers p ntp keep =
        ◌>>=◌ fs (create_or_parse_network_file fs sys g p)
          λ network. ◌>>◌ fs (set_words network (codes "NTP") ntp keep) reload_and_restart

    unfoldable pub manager_remove_ntp_addresses : IfNameIndex → Call fs (Unit {0})
    manager_remove_ntp_addresses p = ◌>>=◌ fs (create_or_parse_network_file fs sys g p) λ network.
        ◌>>◌ fs (remove_key_from_config_file fs g network (codes "Network") (codes "NTP"))
          reload_and_restart

  -- The link is taken down by netlink.
  unfoldable pub manager_enable_ipv6 :
      (IfNameIndex → Call fs (Unit {0})) → IfNameIndex → Bool → Call fs (Unit {0})
  manager_enable_ipv6 set_link_down p enable =
      ◌>>=◌ fs (create_or_parse_network_file fs sys g p) λ network.
        ◌>>◌ fs
          (set_config_file_str fs g network (codes "Network") (codes "LinkLocalAddressing")
            (some (if enable then codes "ipv6" else codes "no")))
          (◌>>◌ fs (set_link_down p) sys.network_reload)
