-- ===== src/NetDev/Generate.antt =====
-- `generate_netdev_config` of `src/manager/netdev.c`: the .netdev file of a device.
use network_config_manager.Base.{List, [], ◌++◌, Bytes, codes, Option, none, some}
use network_config_manager.Glib.{Glib}
use network_config_manager.Outcome.{Outcome, ok, err, fault}
use network_config_manager.KeyFile.{KeyFile}
use network_config_manager.NetworkUtil.{Inet}
use network_config_manager.Settings.{spaced, is_positive, when, write_settings}
use network_config_manager.ConfFile.{
  Files, Call, pure, ◌>>=◌, ◌>>◌, parse_key_file, key_file_save, set_file_permisssion,
  networkd_user,
}
use network_config_manager.Network.Paths.{
  System, network_dir, create_conf_file, determine_conf_file,
}
use network_config_manager.Network.Sections.{
  Entry, entry_str, entry_if_str, entry_uint, add_new_section, append_each,
}
use network_config_manager.Network.Generate.{ignored}
use network_config_manager.NetDev.{NetDev, wireguard, WireGuard, WireGuardPeer}
use network_config_manager.NetDev.Settings.{name_settings, kind_settings}

abbrev pub entry_if_words : Bytes → Option (List Bytes) → List Entry
entry_if_words key none = []
entry_if_words key (some xs) = entry_str key (spaced xs)

unfoldable pub peer_entries : WireGuardPeer → List Entry
peer_entries p =
    entry_if_str (codes "PublicKey") p.public_key
    ++ entry_if_str (codes "Endpoint") p.endpoint
    ++ entry_if_str (codes "PresharedKey") p.preshared_key
    ++ entry_if_str (codes "PresharedKeyFile") p.preshared_key_file
    ++ entry_if_words (codes "AllowedIPs") p.allowed_ips
    ++ when (is_positive p.persistent_keep_alive)
        (entry_uint (codes "PersistentKeepalive") p.persistent_keep_alive.size)

unfoldable pub append_peer : KeyFile → WireGuardPeer → Outcome KeyFile
append_peer kf p = add_new_section kf (codes "WireGuardPeer") (peer_entries p)

abbrev peers_of : Option WireGuard → List WireGuardPeer
peers_of none = []
peers_of (some w) = w.peers

-- Only the case of this kind has peers.
abbrev pub peers_by_kind : NetDev → List WireGuardPeer
peers_by_kind n = elim n.kind [ wireguard ↦ peers_of n.wg | _ ↦ [] ]

unfoldable pub determine_netdev_conf_file : Bytes → Bytes
determine_netdev_conf_file ifname =
    determine_conf_file network_dir (codes "10-" ++ ifname) (codes "netdev")

module _ (fs : Files) where
  unfoldable pub create_or_parse_netdev_conf_file : System fs → Glib → Bytes → Call fs KeyFile
  create_or_parse_netdev_conf_file sys g ifname =
      ◌>>=◌ fs (create_conf_file fs sys network_dir (codes "10-" ++ ifname) (codes "netdev"))
        (parse_key_file fs g)

  -- The key file in memory, between reading the file and saving it.
  unfoldable pub fill_netdev : Inet → NetDev → KeyFile → Call fs KeyFile
  fill_netdev inet n kf = ◌>>=◌ fs (write_settings fs kf (name_settings n)) λ kf₁.
      ◌>>=◌ fs (pure fs (kind_settings inet n)) λ ss.
        ◌>>=◌ fs (write_settings fs kf₁ ss)
          λ kf₂. pure fs (append_each append_peer kf₂ (peers_by_kind n))

  unfoldable pub save_netdev : System fs → KeyFile → Call fs (Unit {0})
  save_netdev sys kf = ◌>>◌ fs (key_file_save fs kf) (
      ◌>>◌ fs (ignored fs (set_file_permisssion fs kf.name (networkd_user fs)))
        (ignored fs sys.network_reload))

  -- A file that cannot be created or read is no error.
  abbrev pub if_created :
      (KeyFile → Call fs (Unit {0})) → Outcome KeyFile × fs.State → Outcome (Unit {0}) × fs.State
  if_created f (ok kf, st) = f kf st
  if_created f (err e, st) = (ok tt, st)
  if_created f (fault, st) = (fault, st)

  unfoldable pub generate_netdev_config : System fs → Glib → Inet → NetDev → Call fs (Unit {0})
  generate_netdev_config sys g inet n st =
      if_created (λ kf. ◌>>=◌ fs (fill_netdev inet n kf) (save_netdev sys))
        (create_or_parse_netdev_conf_file sys g n.ifname st)
