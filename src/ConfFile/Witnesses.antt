-- ===== src/ConfFile/Witnesses.antt =====
-- The end-to-end theorem on a disk that maps paths to contents.
use network_config_manager.Base.{
  ◌≡◌, refl, Bool, true, false, ◌&&◌, [], ◌∷◌, Bytes, codes, Option, none, some, arith,
  if◌then◌else◌,
}
use network_config_manager.CLib.{streq, streq_refl, isspace}
use network_config_manager.Glib.Model.{model, model-laws}
use network_config_manager.Outcome.{Outcome, ok, err, enoent}
use network_config_manager.KeyFile.{Section, key_new}
use network_config_manager.KeyFile.Text.{save_sections}
use network_config_manager.KeyFile.Printable.{IsPrintable, IsPrintableKey}
use network_config_manager.KeyFile.Stays.{IsPrintableEdit}
use network_config_manager.ConfFile.{Files, set_config_file_str, parse_config_file}
use network_config_manager.ConfFile.EndToEnd.{
  FilesLaws, IsWritable, IsOwnFile, parse_config_file-set_config_file_str,
}

abbrev Disk : Type 0
Disk = Bytes → Option Bytes

abbrev is_some : Option Bytes → Bool
is_some none = false
is_some (some c) = true

abbrev contents : Option Bytes → Outcome Bytes
contents none = err enoent
contents (some c) = ok c

abbrev disk : Files
disk = record {
  State = Disk;
  exists = λ p d. is_some (d p);
  get_contents = λ p d. contents (d p);
  set_contents = λ p c d. (ok tt, λ q. if streq p q then some c else d q);
  getpwnam = λ u d. ok (76, 76);
  chown = λ p u g d. (ok tt, d);
}

disk-laws : FilesLaws disk
disk-laws = record {
  contents_set = λ p c d e. (rw (streq_refl p), rw (streq_refl p));
  chown_keeps = λ p u g d. (refl, refl);
}

abbrev path : Bytes
path = codes "/etc/systemd/network/10-eth0.network"

disk-IsWritable : IsWritable disk path
disk-IsWritable = record {
  written = λ c d. refl;
  user = λ d. ((76, 76), refl);
  owned = λ u g d. refl;
}

abbrev match : Section
match = record { name = codes "Match"; keys = key_new (codes "Name") (some (codes "eth0")) ∷ [] }

abbrev before : Disk
before p = if streq p path then some (codes "[Match]\nName=eth0\n\n") else none

name_printable : IsPrintableKey (key_new (codes "Name") (some (codes "eth0")))
unfolding isspace
name_printable = record {
  name_plain = (omega arith, omega arith, (refl, refl));
  name_starts = omega arith;
  name_lacks = omega arith;
  value = codes "eth0";
  value_is = refl;
  value_plain = (omega arith, omega arith, (refl, refl));
}

match-IsPrintable : IsPrintable match
match-IsPrintable = record {
  name_one_line = omega arith;
  name_lacks_escape = omega arith;
  name_lacks_bracket = omega arith;
  name_fits = omega arith;
  keys_printable = (name_printable, tt);
}

before-IsOwnFile : IsOwnFile disk disk-laws path disk-IsWritable model (match ∷ []) before
unfolding save_sections streq
before-IsOwnFile = record {
  text = codes "[Match]\nName=eth0\n\n";
  there = (refl, refl);
  text_is = refl;
  printable = (match-IsPrintable, tt);
}

dhcp_printable : IsPrintableEdit (codes "Network") (codes "DHCP") (codes "yes")
unfolding isspace
dhcp_printable = record {
  key_printable = record {
    name_plain = (omega arith, omega arith, (refl, refl));
    name_starts = omega arith;
    name_lacks = omega arith;
    value = codes "yes";
    value_is = refl;
    value_plain = (omega arith, omega arith, (refl, refl));
  };
  section_printable = record {
    name_one_line = omega arith;
    name_lacks_escape = omega arith;
    name_lacks_bracket = omega arith;
    name_fits = omega arith;
    keys_printable = tt;
  };
}

parse_config_file-set_config_file_str_example :
    (after : Disk) × (set_config_file_str disk model path
        (codes "Network")
        (codes "DHCP")
        (some (codes "yes"))
        before
      ≡ (ok tt, after))
    × ((section' k' : Bytes)
        → (parse_config_file disk model path section' k' after).0 ≡ (
            if streq (codes "Network") section' && streq (codes "DHCP") k'
            then ok (codes "yes")
            else (parse_config_file disk model path section' k' before).0))
parse_config_file-set_config_file_str_example =
    parse_config_file-set_config_file_str disk disk-laws path disk-IsWritable model model-laws
      (codes "Network") (codes "DHCP") (codes "yes") (match ∷ []) before dhcp_printable
      before-IsOwnFile
