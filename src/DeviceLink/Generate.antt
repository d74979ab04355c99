-- ===== src/DeviceLink/Generate.antt =====
-- `create_or_parse_netdev_link_conf_file` and `netdev_link_configure` of `src/manager/netdev-link.c`.
use network_config_manager.Base.{List, [], ◌∷◌, Bytes, codes, Option, none, some, if◌then◌else◌}
use network_config_manager.Glib.{Glib}
use network_config_manager.Outcome.{ok, fault}
use network_config_manager.StringUtil.{isempty}
use network_config_manager.Settings.{spaced}
use network_config_manager.ConfFile.{
  Files, Call, pure, ◌>>=◌, ◌>>◌, set_config_file_str, set_config_file_int,
}
use network_config_manager.ConfFile.Ctl.{config_manager_new, ctl_to_config}
use network_config_manager.Network.Paths.{
  System, or_else, network_dir, create_conf_file, determine_conf_file, determine_conf_file_name,
}
use network_config_manager.DeviceLink.{NetDevLink}
use network_config_manager.DeviceLink.Settings.{
  LinkValue, text, int, link_ctl_to_config_table, link_entries,
}

unfoldable pub determine_link_conf_file : Bytes → Bytes
determine_link_conf_file ifname =
    determine_conf_file network_dir (determine_conf_file_name ifname) (codes "link")

-- The MAC address of a link is read over netlink; without it the link is matched by its name alone.
module _ (fs : Files) (sys : System fs) (g : Glib)
    (acquire_link_mac_address : Bytes → Call fs Bytes) where
  abbrev match_mac : Bytes → Bytes → Call fs (Unit {0})
  match_mac path mac =
      if isempty mac
      then pure fs (ok tt)
      else set_config_file_str fs g path (codes "Match") (codes "MACAddress") (some mac)

  abbrev create_link_file : Bytes → Bytes → Call fs Bytes
  create_link_file ifname path =
      let created : Bytes → Call fs Bytes = λ mac.
        ◌>>=◌ fs
          (create_conf_file fs sys network_dir (determine_conf_file_name ifname) (codes "link"))
          (λ _. ◌>>◌ fs (match_mac path mac) (
            ◌>>◌ fs
              (set_config_file_str fs g path (codes "Match") (codes "OriginalName") (some ifname))
              (pure fs (ok path)))) in
      or_else fs (acquire_link_mac_address ifname) created (created [])

  unfoldable pub create_or_parse_netdev_link_conf_file : Bytes → Call fs Bytes
  create_or_parse_netdev_link_conf_file ifname st =
      let path = determine_link_conf_file ifname in
      if fs.exists path st then (ok path, st) else create_link_file ifname path st

  -- A name that is not in the table gives NULL, which is asserted not to be.
  abbrev pub set_value : Bytes → Option Bytes → LinkValue → Call fs (Unit {0})
  set_value path none v = pure fs fault
  set_value path (some k) (text x) = set_config_file_str fs g path (codes "Link") k (some x)
  set_value path (some k) (int v) = set_config_file_int fs g path (codes "Link") k v

  unfoldable pub set_each : Bytes → List (Bytes × LinkValue) → Call fs (Unit {0})
  set_each path [] = pure fs (ok tt)
  set_each path ((name, v) ∷ rest) =
      ◌>>◌ fs (set_value path (ctl_to_config (config_manager_new link_ctl_to_config_table) name) v)
        (set_each path rest)

  abbrev pub match_driver : Bytes → Option (List Bytes) → Call fs (Unit {0})
  match_driver path none = pure fs (ok tt)
  match_driver path (some driver) =
      set_config_file_str fs g path (codes "Match") (codes "Driver") (some (spaced driver))

  unfoldable pub netdev_link_configure : Bytes → NetDevLink → Call fs (Unit {0})
  netdev_link_configure ifname n =
      ◌>>=◌ fs (create_or_parse_netdev_link_conf_file ifname)
        λ path. ◌>>◌ fs (match_driver path n.driver) (set_each path (link_entries n))
