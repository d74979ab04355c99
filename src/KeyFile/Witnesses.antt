-- ===== src/KeyFile/Witnesses.antt =====
-- The theorems on key files, at a file of two sections that meets their hypotheses.
use network_config_manager.Base.{
  ℕ, ◌≡◌, refl, true, false, ◌&&◌, List, [], ◌∷◌, Bytes, codes, none, some, arith, if◌then◌else◌,
  All,
}
use network_config_manager.CLib.{streq, isspace}
use network_config_manager.Glib.Model.{model, model-laws}
use network_config_manager.Outcome.{Outcome, ok, err, fault, enoent, ◌>>=◌}
use network_config_manager.KeyFile.{
  KeyFile, Section, Key, str, set_config, add_config, key_file_parse_str, key_file_config_exists,
  find_in, read,
}
use network_config_manager.KeyFile.Text.{parse_key_file_contents, save_sections}
use network_config_manager.KeyFile.Put.{put, set_config-put, IsIntact, IsCounted}
use network_config_manager.KeyFile.Lookup.{parse_str-set_config, parse_str-add_config}
use network_config_manager.KeyFile.Removal.{
  remove_key, remove_key_value, remove_section, remove_section_key_value, remove_section_key,
}
use network_config_manager.KeyFile.Removal.Keys.{
  remove_key-find_in, config_exists-remove_key_value, count_key, IsOnce,
}
use network_config_manager.KeyFile.Removal.Sections.{
  has_section, remove_section-has_section, remove_section_key_value-config_exists, is_hit, times,
  without_first, without_hits, HasOnce, remove_section_key-without_first,
  remove_section_key-without_hits,
}
use network_config_manager.KeyFile.Removal.Restart.{
  count_in, behind_first, delete_sections, delete_sections-behind_first,
}
use network_config_manager.KeyFile.Printable.{IsPrintable, IsPrintableKey}
use network_config_manager.KeyFile.RoundTrip.{ReadBack, parse_key_file-save}

abbrev key : Bytes → Bytes → Key
key n v = record { name = n; v = str v }

abbrev match : Section
match = record { name = codes "Match"; keys = key (codes "Name") (codes "eth0") ∷ [] }

abbrev route : Bytes → Section
route gw = record { name = codes "Route"; keys = key (codes "Gateway") gw ∷ [] }

abbrev routes : List Section
routes = route (codes "10.0.0.1") ∷ route (codes "10.0.0.2") ∷ []

abbrev two : KeyFile
two = record { nsections = 3; name = codes "10-eth0.network"; sections = match ∷ routes }

two-IsIntact : IsIntact two.sections
two-IsIntact = ((λ e. cc e, tt), ((λ e. cc e, tt), ((λ e. cc e, tt), tt)))

two-IsOnce : IsOnce two.sections (codes "Route") (codes "Gateway") (codes "10.0.0.1")
unfolding count_key streq
two-IsOnce = (λ e. omega arith, (λ e. omega arith, (λ e. omega arith, tt)))

two_hits : All (HasOnce (codes "Route") (codes "Gateway")) two.sections
unfolding times streq
two_hits = (λ e. omega arith, (λ e. omega arith, (λ e. omega arith, tt)))

name_printable : IsPrintableKey (key (codes "Name") (codes "eth0"))
unfolding isspace
name_printable = record {
  name_plain = (omega arith, omega arith, (refl, refl));
  name_starts = omega arith;
  name_lacks = omega arith;
  value = codes "eth0";
  value_is = refl;
  value_plain = (omega arith, omega arith, (refl, refl));
}

match-IsPrintable : IsPrintable match
match-IsPrintable = record {
  name_one_line = omega arith;
  name_lacks_escape = omega arith;
  name_lacks_bracket = omega arith;
  name_fits = omega arith;
  keys_printable = (name_printable, tt);
}

set_config-put_example :
    (after : KeyFile) × (set_config two (codes "Match") (codes "Name") (some (codes "eth1"))
      ≡ ok after)
    × (after.sections ≡ put two.sections (codes "Match") (codes "Name") (codes "eth1"))
    × (after.name ≡ two.name)
    × IsCounted after
    × IsIntact after.sections
set_config-put_example =
    set_config-put two (codes "Match") (codes "Name") (codes "eth1") two-IsIntact refl

parse_str-set_config_example :
    (after : KeyFile) × (set_config two (codes "Link") (codes "MTUBytes") (some (codes "9000"))
      ≡ ok after)
    × ((section' k' : Bytes)
        → key_file_parse_str after section' k' ≡ (
            if streq (codes "Link") section' && streq (codes "MTUBytes") k'
            then ok (codes "9000")
            else key_file_parse_str two section' k'))
parse_str-set_config_example =
    parse_str-set_config two (codes "Link") (codes "MTUBytes") (codes "9000") two-IsIntact

parse_str-add_config_example :
    key_file_parse_str
      (add_config two (codes "Route") (codes "Gateway") (some (codes "10.0.0.3")))
      (codes "Route")
      (codes "Gateway")
    ≡ (elim (find_in two.sections (codes "Route") (codes "Gateway")) [
      | none ↦
          if streq (codes "Route") (codes "Route") && streq (codes "Gateway") (codes "Gateway")
          then ok (codes "10.0.0.3")
          else err enoent
      | some v ↦ read v
    ])
parse_str-add_config_example =
    parse_str-add_config two (codes "Route") (codes "Gateway") (codes "10.0.0.3") (codes "Route")
      (codes "Gateway")

remove_key-find_in_example :
    remove_key two (codes "Match") (codes "Name")
    ≡ (elim (find_in two.sections (codes "Match") (codes "Name")) [
      | none ↦ ok two
      | some v ↦ fault
    ])
remove_key-find_in_example = remove_key-find_in two (codes "Match") (codes "Name")

config_exists-remove_key_value_example :
    (after : KeyFile) × (remove_key_value two (codes "Route") (codes "Gateway") (codes "10.0.0.1")
      ≡ ok after)
    × ((section' k' v' : Bytes)
        → key_file_config_exists after section' k' v' ≡ (
            if streq (codes "Route") section'
              && (streq (codes "Gateway") k' && streq (codes "10.0.0.1") v')
            then ok false
            else key_file_config_exists two section' k' v'))
config_exists-remove_key_value_example =
    config_exists-remove_key_value two (codes "Route") (codes "Gateway") (codes "10.0.0.1")
      (
        ((codes "eth0", refl), tt),
        (((codes "10.0.0.1", refl), tt), (((codes "10.0.0.2", refl), tt), tt)),
      )
      two-IsOnce

remove_section-has_section_example :
    remove_section two (codes "Route")
    ≡ (if has_section two.sections (codes "Route") then fault else ok two)
remove_section-has_section_example = remove_section-has_section two (codes "Route")

remove_section_key_value-config_exists_example :
    remove_section_key_value two (codes "Route") (codes "Gateway") (codes "10.0.0.2") ≡ (
      key_file_config_exists two (codes "Route") (codes "Gateway") (codes "10.0.0.2") >>= λ b.
      if b then fault else ok two)
remove_section_key_value-config_exists_example =
    remove_section_key_value-config_exists two (codes "Route") (codes "Gateway") (codes "10.0.0.2")

remove_section_key-without_first_example :
    (remove_section_key two (codes "Route") (codes "Gateway") false).sections
    ≡ without_first (codes "Route") (codes "Gateway") two.sections
remove_section_key-without_first_example =
    remove_section_key-without_first two (codes "Route") (codes "Gateway")

remove_section_key-without_hits_example :
    (remove_section_key two (codes "Route") (codes "Gateway") true).sections ≡ (
      if is_hit (codes "Route") (codes "Gateway") match
      then routes
      else without_hits (codes "Route") (codes "Gateway") (match ∷ routes))
remove_section_key-without_hits_example =
    remove_section_key-without_hits two (codes "Route") (codes "Gateway") match routes refl two_hits

parse_key_file-save_example :
    (text : Bytes) × (save_sections (match ∷ []) ≡ ok text)
    × (kf : KeyFile) × (parse_key_file_contents model (codes "p") text ≡ ok kf)
    × ReadBack model model-laws (codes "p") (match ∷ []) kf
parse_key_file-save_example =
    parse_key_file-save model model-laws (codes "p") (match ∷ []) (match-IsPrintable, tt)

-- The inner loop hits every gateway.
abbrev gateways : Section → Outcome ℕ
gateways = count_in (codes "Route") (λ k. ok (streq k.name (codes "Gateway")))

delete_sections-behind_first_example :
    delete_sections gateways two
    ≡ (behind_first gateways two.sections >>= λ ss. ok (record two { sections = ss }))
delete_sections-behind_first_example = delete_sections-behind_first gateways two
