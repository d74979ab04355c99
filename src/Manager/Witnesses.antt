-- ===== src/Manager/Witnesses.antt =====
-- The theorems on the operations of a link, on a disk where networkd names the link's file.
use network_config_manager.Base.{
  ◌≡◌, refl, false, ◌&&◌, List, [], ◌∷◌, Bytes, codes, none, some, All, arith, if◌then◌else◌, true,
  ap, sym, ◌∙◌,
}
use network_config_manager.CLib.{streq, strchr, isspace}
use network_config_manager.CLib.Decimal.{print_uint, digits}
use network_config_manager.Glib.Model.{model, model-laws}
use network_config_manager.Outcome.{ok, err, enoent}
use network_config_manager.EnumTable.{enum_to_name, Enum}
use network_config_manager.KeyFile.{Section, KeyFile, key_new, key_file_parse_str, find_in}
use network_config_manager.KeyFile.Text.{save_sections, parse_key_file_contents}
use network_config_manager.KeyFile.Printable.{IsPrintableKey, with_keys}
use network_config_manager.KeyFile.Stays.{IsPrintableEdit}
use network_config_manager.ConfFile.{parse_config_file}
use network_config_manager.ConfFile.EndToEnd.{IsOwnFile, parse_config_file-Holds}
use network_config_manager.NetworkUtil.Names.{IfNameIndex}
use network_config_manager.Settings.{unset}
use network_config_manager.Settings.Overlay.{HasText, overlay}
use network_config_manager.StateFile.Reading.{
  StateEntry, IsStateEntry, render_state, distinct, has_key, found,
}
use network_config_manager.Network.Disk.{
  Disk, contents, disk, system, disk-laws, system-laws, disk-IsReady,
}
use network_config_manager.Network.Paths.{
  determine_network_conf_file, determine_conf_file, determine_conf_file_name,
}
use network_config_manager.Manager.Dynamic.{
  DynamicConf, dynamic_settings, identifier_settings, kind_lla_settings, accept_ra_settings,
  lla_settings, dhcp_kind_settings, use_settings, manager_set_link_dynamic_conf,
}
use network_config_manager.Manager.Found.{IsManaged}
use network_config_manager.Manager.Reads.{Operation, link_flag, run, target, parse_config_file-run}
use network_config_manager.Manager.Configured.{chosen_lla, manager_set_link_dynamic_conf-Holds}
use network_config_manager.NetworkUtil.Model.{inet_model}
use network_config_manager.KeyFile.RoundTrip.{parse_key_file-save}
use network_config_manager.EnumTable.Network.{dhcp_client_mode_table, link_local_address_type}
use network_config_manager.Manager.Families.{manager_set_ipv4, manager_set_ipv6}
use network_config_manager.Manager.Words.{mode_read, modes_only}
use network_config_manager.Manager.Rewritten.{HasModes, FamiliesAre}
use network_config_manager.Manager.Switched.{
  manager_set_ipv4-FamiliesAre, manager_set_ipv6-FamiliesAre,
}

abbrev path : Bytes
path = codes "/etc/systemd/network/10-eth0.network"

abbrev eth0 : IfNameIndex
eth0 = record { ifname = codes "eth0"; ifindex = record { neg = false; size = 2 } }

abbrev entries : List StateEntry
entries = (codes "ADMIN_STATE", codes "configured") ∷ (codes "NETWORK_FILE", path) ∷ []

abbrev before : Disk
before p =
    if streq p path
    then some (codes "[Match]\nName=eth0\n\n")
    else if streq p (codes "/run/systemd/netif/links/2")
    then some (render_state entries)
    else none

entries-All : All IsStateEntry entries
unfolding isspace
entries-All = (
  record {
    key_starts = (refl, omega arith);
    key_line = omega arith;
    key_lacks_escape = omega arith;
    key_lacks_equals = omega arith;
    value_line = omega arith;
    value_lacks_escape = omega arith;
    value_ends = refl;
  },
  (
    record {
      key_starts = (refl, omega arith);
      key_line = omega arith;
      key_lacks_escape = omega arith;
      key_lacks_equals = omega arith;
      value_line = omega arith;
      value_lacks_escape = omega arith;
      value_ends = refl;
    },
    tt,
  ),
)

eth0-IsManaged : IsManaged disk model eth0 path before
unfolding streq found distinct has_key print_uint digits
eth0-IsManaged = record {
  entries = entries;
  state_there = refl;
  state_is = refl;
  plain = entries-All;
  once = refl;
  state = codes "configured";
  has_state = refl;
  has_file = refl;
  has_index = refl;
  path_named = refl;
  file_there = refl;
}

abbrev match : Section
match = record { name = codes "Match"; keys = key_new (codes "Name") (some (codes "eth0")) ∷ [] }

name_printable : IsPrintableKey (key_new (codes "Name") (some (codes "eth0")))
unfolding isspace
name_printable = record {
  name_plain = (omega arith, omega arith, (refl, refl));
  name_starts = omega arith;
  name_lacks = omega arith;
  value = codes "eth0";
  value_is = refl;
  value_plain = (omega arith, omega arith, (refl, refl));
}

before-IsOwnFile :
    IsOwnFile disk disk-laws path (disk-IsReady path).writable model (match ∷ []) before
unfolding save_sections streq
before-IsOwnFile = record {
  text = codes "[Match]\nName=eth0\n\n";
  there = (refl, refl);
  text_is = refl;
  printable = (
    record {
      name_one_line = omega arith;
      name_lacks_escape = omega arith;
      name_lacks_bracket = omega arith;
      name_fits = omega arith;
      keys_printable = (name_printable, tt);
    },
    tt,
  );
}

arp_printable : IsPrintableEdit (codes "Link") (codes "ARP") (codes "no")
unfolding isspace
arp_printable = record {
  key_printable = record {
    name_plain = (omega arith, omega arith, (refl, refl));
    name_starts = omega arith;
    name_lacks = omega arith;
    value = codes "no";
    value_is = refl;
    value_plain = (omega arith, omega arith, (refl, refl));
  };
  section_printable = record {
    name_one_line = omega arith;
    name_lacks_escape = omega arith;
    name_lacks_bracket = omega arith;
    name_fits = omega arith;
    keys_printable = tt;
  };
}

abbrev arp_off : Operation
arp_off = link_flag (codes "ARP") (codes "no")

parse_config_file-run_example :
    (after : Disk) × (run disk system model arp_off eth0 before ≡ (ok tt, after))
    × ((section' k' : Bytes)
        → (parse_config_file disk model path section' k' after).0 ≡ (
            if streq (target arp_off).0 section' && streq (target arp_off).1 k'
            then ok (codes "no")
            else (parse_config_file disk model path section' k' before).0))
parse_config_file-run_example =
    parse_config_file-run disk system disk-laws system-laws path (disk-IsReady path) model
      model-laws arp_off eth0 (codes "no") (match ∷ []) before refl eth0-IsManaged arp_printable
      before-IsOwnFile

match_printable : IsPrintableEdit (codes "Match") (codes "Name") (codes "eth0")
unfolding isspace
match_printable = record {
  key_printable = name_printable;
  section_printable = record {
    name_one_line = omega arith;
    name_lacks_escape = omega arith;
    name_lacks_bracket = omega arith;
    name_fits = omega arith;
    keys_printable = tt;
  };
}

-- DHCPv4 alone, with an identifier.
abbrev dhcp4 : DynamicConf
dhcp4 = record {
  accept_ra = unset;
  dhcp_kind = record { neg = false; size = 2 };
  uses = record {
    use_dns_ipv4 = unset;
    use_dns_ipv6 = unset;
    use_domains_ipv4 = unset;
    use_domains_ipv6 = unset;
    send_release_ipv4 = unset;
    send_release_ipv6 = unset;
  };
  dhcp4_identifier = unset;
  iaid4 = some (codes "0xb6220feb");
  iaid6 = none;
  lla = unset;
}

dhcp4-texts : All HasText (dynamic_settings dhcp4)
unfolding dynamic_settings identifier_settings kind_lla_settings accept_ra_settings lla_settings
    dhcp_kind_settings use_settings enum_to_name
dhcp4-texts = ((_, refl), ((_, refl), ((_, refl), ((_, refl), tt))))

eth0-path : determine_network_conf_file (codes "eth0") ≡ path
unfolding determine_network_conf_file determine_conf_file determine_conf_file_name strchr
eth0-path = refl

manager_set_link_dynamic_conf-Holds_example :
    (after : Disk) × (manager_set_link_dynamic_conf disk system model eth0 dhcp4 false before
      ≡ (ok tt, after))
    × (kf : KeyFile) × (text : Bytes) × (contents (after path) ≡ ok text)
    × (save_sections kf.sections ≡ ok text)
    × ((section k : Bytes)
        → key_file_parse_str kf section k
          ≡ overlay (dynamic_settings dhcp4) section k (
              if streq (codes "Match") section && streq (codes "Name") k
              then ok (codes "eth0")
              else err enoent))
    × (key_file_parse_str kf (codes "Network") (codes "LinkLocalAddressing")
        ≡ chosen_lla dhcp4 (err enoent))
manager_set_link_dynamic_conf-Holds_example =
    manager_set_link_dynamic_conf-Holds disk system disk-laws system-laws path (disk-IsReady path)
      model model-laws eth0 dhcp4 before eth0-path match_printable dhcp4-texts

-- The file has no [Network].
no_key :
    (e : Enum) (k : Bytes)
    → mode_read e (parse_config_file disk model path (codes "Network") k before).0 ≡ ok none
unfolding with_keys key_file_parse_str find_in streq
no_key e k =
    let own = before-IsOwnFile in
    let (text, saved, kf, parsed, back) =
      parse_key_file-save model model-laws path (match ∷ []) own.printable in
    let same : text ≡ own.text = ground (arith, saved, own.text_is) in
    ap (λ r. mode_read e r.0)
      (parse_config_file-Holds disk disk-laws path (disk-IsReady path).writable model own.text
        before kf (codes "Network") k own.there
        (ap (parse_key_file_contents model path) (sym same) ∙ parsed))
    ∙ rw (back.sections_are, key_file_parse_str) refl

-- The modes of a file that has neither key.
eth0-HasModes :
    HasModes disk system disk-laws system-laws path
      (disk-IsReady path)
      model
      model-laws
      inet_model
      eth0
      none
      none
      before
unfolding streq with_keys
eth0-HasModes = record {
  sections = match ∷ [];
  managed = eth0-IsManaged;
  own = before-IsOwnFile;
  others = ((refl, refl), tt);
  known_dhcp = tt;
  known_lla = tt;
  has_dhcp = no_key dhcp_client_mode_table (codes "DHCP");
  has_lla = no_key link_local_address_type (codes "LinkLocalAddressing");
}

-- DHCP of IPv4 is turned on, and link-local addresses off.
manager_set_ipv4-FamiliesAre_example :
    (after : Disk) × (manager_set_ipv4 inet_model disk system model eth0 unset
        (modes_only (record { neg = false; size = 1 }) (record { neg = false; size = 0 }))
        true
        before
      ≡ (ok tt, after))
    × FamiliesAre disk system disk-laws system-laws path
        (disk-IsReady path)
        model
        model-laws
        inet_model
        (true, false)
        (false, false)
        after
manager_set_ipv4-FamiliesAre_example =
    manager_set_ipv4-FamiliesAre disk system disk-laws system-laws path (disk-IsReady path) model
      model-laws inet_model eth0 (record { neg = false; size = 1 })
      (record { neg = false; size = 0 }) none none before refl refl eth0-HasModes

-- DHCP of IPv6 is turned on, which turns link-local addresses on.
manager_set_ipv6-FamiliesAre_example :
    (after : Disk) × (manager_set_ipv6 inet_model disk system model eth0 unset
        (modes_only (record { neg = false; size = 1 }) (record { neg = false; size = 0 }))
        true
        before
      ≡ (ok tt, after))
    × FamiliesAre disk system disk-laws system-laws path
        (disk-IsReady path)
        model
        model-laws
        inet_model
        (false, true)
        (false, true)
        after
manager_set_ipv6-FamiliesAre_example =
    manager_set_ipv6-FamiliesAre disk system disk-laws system-laws path (disk-IsReady path) model
      model-laws inet_model eth0 (record { neg = false; size = 1 })
      (record { neg = false; size = 0 }) none none before refl refl eth0-HasModes
