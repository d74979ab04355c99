-- ===== src/KeyFile/Tests.antt =====
-- Key files at concrete inputs.
use network_config_manager.Base.{◌≡◌, refl, List, [], ◌∷◌, Bytes, codes}
use network_config_manager.Glib.Model.{model}
use network_config_manager.Outcome.{ok, fault}
use network_config_manager.CLib.{strchr, isspace}
use network_config_manager.StringUtil.{
  str_strip, split_pair, rstrip, find_chars_or_comment, string_copy,
}
use network_config_manager.KeyFile.{add_key_to_section, add_section_to_key_file, Section, Key, str}
use network_config_manager.KeyFile.Text.{
  parse_key_file_contents, parse_lines, parse_one, parse_stripped, parse_entry, parse_line,
  add_parsed, open_section, finish, save_sections,
}

abbrev key : Bytes → Bytes → Key
key n v = record { name = n; v = str v }

abbrev two_sections : List Section
two_sections =
    record { name = codes "Match"; keys = key (codes "Name") (codes "eth0") ∷ [] }
    ∷ record {
      name = codes "Network";
      keys = key (codes "DHCP") (codes "yes") ∷ key (codes "DNS") (codes "8.8.8.8 1.1.1.1") ∷ [];
    }
    ∷ []

abbrev file : Bytes
file = codes "# comment\n [Match] \nName = eth0\n\n[Network]\nDHCP=yes\n;x\nDNS=8.8.8.8 1.1.1.1\n\n"

parse_file :
    parse_key_file_contents model (codes "p") file
    ≡ ok (record { nsections = 2; name = codes "p"; sections = two_sections })
unfolding parse_key_file_contents parse_lines parse_one parse_stripped parse_entry parse_line
    add_parsed open_section finish str_strip split_pair rstrip find_chars_or_comment string_copy
    strchr isspace model add_key_to_section add_section_to_key_file
parse_file = refl

-- A key before the first section.
orphan : parse_key_file_contents model (codes "p") (codes "Name=eth0\n") ≡ fault
unfolding parse_key_file_contents parse_lines parse_one parse_stripped parse_entry parse_line
    add_parsed open_section finish str_strip split_pair rstrip find_chars_or_comment string_copy
    strchr isspace model add_key_to_section add_section_to_key_file
orphan = refl

save_two :
    save_sections two_sections
    ≡ ok (codes "[Match]\nName=eth0\n\n[Network]\nDHCP=yes\nDNS=8.8.8.8 1.1.1.1\n\n")
unfolding save_sections
save_two = refl
