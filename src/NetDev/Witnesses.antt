-- ===== src/NetDev/Witnesses.antt =====
-- The theorem on `generate_netdev_config` for a bridge, on a disk that maps paths to contents.
use network_config_manager.Base.{◌≡◌, refl, true, false, Bytes, codes, none, some, if◌then◌else◌}
use network_config_manager.CLib.{streq}
use network_config_manager.CLib.Decimal.{print_uint}
use network_config_manager.Glib.Model.{model, model-laws}
use network_config_manager.Outcome.{ok, err, enoent}
use network_config_manager.KeyFile.{KeyFile, key_file_parse_str}
use network_config_manager.KeyFile.Text.{save_sections}
use network_config_manager.NetworkUtil.Model.{inet_model}
use network_config_manager.StringUtil.{bool_to_str}
use network_config_manager.Network.Appended.{is_listed}
use network_config_manager.Network.Disk.{
  Disk, contents, disk, system, disk-laws, system-laws, disk-IsReady,
}
use network_config_manager.Network.Paths.{determine_conf_file}
use network_config_manager.NetDev.{bridge, NetDev, netdev_new, bridge_new}
use network_config_manager.NetDev.Settings.{kind_settings, bridge_settings}
use network_config_manager.NetDev.Generate.{determine_netdev_conf_file, generate_netdev_config}
use network_config_manager.NetDev.Documented.{netdev_rows}
use network_config_manager.Settings.Table.{stated}
use network_config_manager.NetDev.Saved.{IsComplete, generate_netdev_config-Holds}

abbrev path : Bytes
path = codes "/etc/systemd/network/10-br0.netdev"

-- The file of another device is there before.
abbrev before : Disk
before p = if streq p path then some (codes "[NetDev]\nKind=dummy\n") else none

abbrev br0 : NetDev
br0 = record (netdev_new (codes "br0")) {
  kind = bridge;
  bridge_data =
      some (record bridge_new { stp = record { neg = false; size = 1 }; ageing_time = 300 });
}

br0-IsComplete : IsComplete inet_model br0
unfolding kind_settings bridge_settings
br0-IsComplete = record {
  has_kind = λ e. cc e;
  settings = _;
  settings_are = refl;
  texts = ((bool_to_str true, refl), ((print_uint 300, refl), tt));
}

br0-path : determine_netdev_conf_file (codes "br0") ≡ path
unfolding determine_netdev_conf_file determine_conf_file
br0-path = refl

generate_netdev_config-Holds_example :
    (after : Disk) × (generate_netdev_config disk system model inet_model br0 before
      ≡ (ok tt, after))
    × (kf : KeyFile) × (text : Bytes) × (contents (after path) ≡ ok text)
    × (save_sections kf.sections ≡ ok text)
    × ((section k : Bytes)
        → is_listed section ≡ false
        → key_file_parse_str kf section k
          ≡ stated (netdev_rows inet_model br0) section k (err enoent))
generate_netdev_config-Holds_example =
    generate_netdev_config-Holds disk system disk-laws system-laws path (disk-IsReady path) model
      model-laws inet_model br0 before br0-path br0-IsComplete
