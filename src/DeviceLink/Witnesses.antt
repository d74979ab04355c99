-- ===== src/DeviceLink/Witnesses.antt =====
-- The theorem on `netdev_link_configure`, on a disk with a .link file.
use network_config_manager.Base.{
  ◌≡◌, refl, [], ◌∷◌, Bytes, codes, none, some, All, arith, if◌then◌else◌,
}
use network_config_manager.CLib.{streq, strchr, isspace}
use network_config_manager.Glib.Model.{model, model-laws}
use network_config_manager.Outcome.{ok, err, enoent}
use network_config_manager.KeyFile.{Section, key_new}
use network_config_manager.KeyFile.Text.{save_sections}
use network_config_manager.KeyFile.Printable.{IsPrintableKey}
use network_config_manager.KeyFile.Stays.{IsPrintableEdit}
use network_config_manager.ConfFile.{parse_config_file}
use network_config_manager.ConfFile.Ctl.{
  config_manager_new, ctl_to_config, insert_all, insert_config,
}
use network_config_manager.ConfFile.EndToEnd.{IsOwnFile}
use network_config_manager.Network.Disk.{Disk, disk, system, disk-laws, disk-IsReady}
use network_config_manager.Network.Paths.{determine_conf_file, determine_conf_file_name}
use network_config_manager.DeviceLink.{NetDevLink, netdev_link_new}
use network_config_manager.DeviceLink.Settings.{
  link_entries, name_entries, device_entries, offload_entries, flow_entries, channel_entries,
  queue_entries, coalesce_entries, frame_entries, rate_entries,
}
use network_config_manager.DeviceLink.Generate.{determine_link_conf_file, netdev_link_configure}
use network_config_manager.Settings.Table.{stated}
use network_config_manager.DeviceLink.Documented.{link_rows}
use network_config_manager.DeviceLink.Reads.{IsLinkEntry, parse_config_file-netdev_link_configure}

abbrev path : Bytes
path = codes "/etc/systemd/network/10-eth0.link"

abbrev match : Section
match = record {
  name = codes "Match";
  keys = key_new (codes "OriginalName") (some (codes "eth0")) ∷ [];
}

abbrev before : Disk
before p = if streq p path then some (codes "[Match]\nOriginalName=eth0\n\n") else none

name_printable : IsPrintableKey (key_new (codes "OriginalName") (some (codes "eth0")))
unfolding isspace
name_printable = record {
  name_plain = (omega arith, omega arith, (refl, refl));
  name_starts = omega arith;
  name_lacks = omega arith;
  value = codes "eth0";
  value_is = refl;
  value_plain = (omega arith, omega arith, (refl, refl));
}

before-IsOwnFile :
    IsOwnFile disk disk-laws path (disk-IsReady path).writable model (match ∷ []) before
unfolding save_sections streq
before-IsOwnFile = record {
  text = codes "[Match]\nOriginalName=eth0\n\n";
  there = (refl, refl);
  text_is = refl;
  printable = (
    record {
      name_one_line = omega arith;
      name_lacks_escape = omega arith;
      name_lacks_bracket = omega arith;
      name_fits = omega arith;
      keys_printable = (name_printable, tt);
    },
    tt,
  );
}

-- The MTU alone.
abbrev jumbo : NetDevLink
jumbo = record netdev_link_new { mtu = some (codes "9000") }

mtu_printable : IsPrintableEdit (codes "Link") (codes "MTUBytes") (codes "9000")
unfolding isspace
mtu_printable = record {
  key_printable = record {
    name_plain = (omega arith, omega arith, (refl, refl));
    name_starts = omega arith;
    name_lacks = omega arith;
    value = codes "9000";
    value_is = refl;
    value_plain = (omega arith, omega arith, (refl, refl));
  };
  section_printable = record {
    name_one_line = omega arith;
    name_lacks_escape = omega arith;
    name_lacks_bracket = omega arith;
    name_fits = omega arith;
    keys_printable = tt;
  };
}

jumbo-All : All IsLinkEntry (link_entries jumbo)
unfolding link_entries name_entries device_entries offload_entries flow_entries channel_entries
    queue_entries coalesce_entries frame_entries rate_entries config_manager_new ctl_to_config
    insert_all insert_config streq
jumbo-All = (record { key = codes "MTUBytes"; has_key = refl; writable = mtu_printable }, tt)

eth0-path : determine_link_conf_file (codes "eth0") ≡ path
unfolding determine_link_conf_file determine_conf_file determine_conf_file_name strchr
eth0-path = refl

parse_config_file-netdev_link_configure_example :
    (after : Disk) × (netdev_link_configure disk system model
        (λ ifname st. (err enoent, st))
        (codes "eth0")
        jumbo
        before
      ≡ (ok tt, after))
    × ((section k : Bytes)
        → (parse_config_file disk model path section k after).0
          ≡ stated
              (link_rows jumbo)
              section
              k
              (parse_config_file disk model path section k before).0)
parse_config_file-netdev_link_configure_example =
    parse_config_file-netdev_link_configure disk disk-laws path (disk-IsReady path).writable model
      model-laws system (λ ifname st. (err enoent, st)) (codes "eth0") jumbo (match ∷ []) before
      eth0-path refl jumbo-All before-IsOwnFile
