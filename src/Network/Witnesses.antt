-- ===== src/Network/Witnesses.antt =====
-- The theorems on `generate_network_config` for a link with an address, a route and a virtual function,
-- on a disk that maps paths to contents.
use network_config_manager.Base.{
  ◌≡◌, refl, true, false, [], ◌∷◌, Bytes, codes, none, some, arith, if◌then◌else◌,
}
use network_config_manager.CLib.{strchr, streq, isspace}
use network_config_manager.Glib.Model.{model, model-laws}
use network_config_manager.Outcome.{ok, err, enoent}
use network_config_manager.KeyFile.{KeyFile, key_file_parse_str}
use network_config_manager.KeyFile.Stays.{IsPrintableEdit}
use network_config_manager.KeyFile.Text.{save_sections}
use network_config_manager.NetworkUtil.Address.{address4}
use network_config_manager.NetworkUtil.Model.{inet_model}
use network_config_manager.EnumTable.{enum_to_name}
use network_config_manager.Settings.Table.{stated}
use network_config_manager.Network.{yaml, Network, network_new}
use network_config_manager.Network.Settings.{
  front_settings, middle_settings, back_settings, match_settings, link_settings, network_settings,
  dhcp4_settings, dhcp6_settings, ipv6_accept_ra_settings,
}
use network_config_manager.Network.Paths.{
  determine_network_conf_file, determine_conf_file, determine_conf_file_name,
}
use network_config_manager.Network.Generate.{generate_network_config}
use network_config_manager.Network.Appended.{is_listed}
use network_config_manager.Network.Disk.{
  Disk, contents, disk, system, disk-laws, system-laws, disk-IsReady,
}
use network_config_manager.Network.Documented.{network_rows}
use network_config_manager.Network.Written.{IsComplete}
use network_config_manager.Network.Saved.{generate_network_config-Holds}

abbrev path : Bytes
path = codes "/etc/systemd/network/10-eth0.network"

-- The file of another program is there before.
abbrev before : Disk
before p = if streq p path then some (codes "[Network]\nDHCP=no\n") else none

abbrev eth0 : Network
eth0 = record (network_new (codes "eth0")) {
  mac = some (codes "52:54:00:01:02:03");
  parser_type = yaml;
  modified = true;
  arp = record { neg = false; size = 1 };
  dhcp_type = record { neg = false; size = 1 };
  addresses = address4 0xC0A80107 24 ∷ [];
  nameservers = address4 0xC0A80101 0 ∷ [];
}

eth0-IsComplete : IsComplete inet_model eth0
unfolding front_settings middle_settings back_settings match_settings link_settings network_settings
    dhcp4_settings dhcp6_settings ipv6_accept_ra_settings enum_to_name
eth0-IsComplete = record {
  front_texts =
      ((_, refl), ((_, refl), ((_, refl), ((_, refl), ((codes "yes", refl), ((_, refl), tt))))));
  middle_texts = tt;
  back_texts = tt;
}

name_printable : IsPrintableEdit (codes "Match") (codes "Name") (codes "eth0")
unfolding isspace
name_printable = record {
  key_printable = record {
    name_plain = (omega arith, omega arith, (refl, refl));
    name_starts = omega arith;
    name_lacks = omega arith;
    value = codes "eth0";
    value_is = refl;
    value_plain = (omega arith, omega arith, (refl, refl));
  };
  section_printable = record {
    name_one_line = omega arith;
    name_lacks_escape = omega arith;
    name_lacks_bracket = omega arith;
    name_fits = omega arith;
    keys_printable = tt;
  };
}

eth0-path : determine_network_conf_file (codes "eth0") ≡ path
unfolding determine_network_conf_file determine_conf_file determine_conf_file_name strchr
eth0-path = refl

generate_network_config-Holds_example :
    (after : Disk) × (generate_network_config disk inet_model system model eth0 before
      ≡ (ok tt, after))
    × (kf : KeyFile) × (text : Bytes) × (contents (after path) ≡ ok text)
    × (save_sections kf.sections ≡ ok text)
    × ((section k : Bytes)
        → is_listed section ≡ false
        → key_file_parse_str kf section k
          ≡ stated (network_rows inet_model eth0) section k (err enoent))
generate_network_config-Holds_example =
    generate_network_config-Holds disk system disk-laws system-laws path (disk-IsReady path) model
      model-laws inet_model eth0 before refl eth0-path name_printable eth0-IsComplete
