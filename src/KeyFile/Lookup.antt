-- ===== src/KeyFile/Lookup.antt =====
-- What the readers of a key file return after its writers: `key_file_parse_str`,
-- `key_file_config_get` and `key_file_config_exists` after `set_config` and `add_config`.
use network_config_manager.Base.{
  ◌≡◌, refl, ◌&&◌, List, [], ◌∷◌, ◌++◌, arith, if◌then◌else◌, Bytes, none, some,
}
use network_config_manager.CLib.{streq}
use network_config_manager.Outcome.{ok, err, enoent}
use network_config_manager.KeyFile.{
  str, Section, KeyFile, section_new, add_key_to_section, set_config, add_config, find_in,
  key_file_parse_str, read,
}
use network_config_manager.KeyFile.Put.{IsIntact, Edited, find_in-put, set_config-Edited}

-- The readers after an edit, in terms of the readers before it.
parse_str-Edited :
    (kf after : KeyFile) (section k x section' k' : Bytes)
    → Edited kf after section k x
    → key_file_parse_str after section' k'
      ≡ (if streq section section' && streq k k' then ok x else key_file_parse_str kf section' k')
unfolding key_file_parse_str
parse_str-Edited kf after section k x section' k' edit =
    ground (arith, edit.sections_are, find_in-put kf.sections section k x section' k')

-- After `set_config kf section k x`, in a key file with no freed value, the same section and key
-- read `x` and every other pair reads what it read before.
pub parse_str-set_config :
    (kf : KeyFile) (section k x : Bytes)
    → IsIntact kf.sections
    → (after : KeyFile) × (set_config kf section k (some x) ≡ ok after)
      × ((section' k' : Bytes)
          → key_file_parse_str after section' k' ≡ (
              if streq section section' && streq k k'
              then ok x
              else key_file_parse_str kf section' k'))
parse_str-set_config kf section k x h =
    let (after, done, edit) = set_config-Edited kf section k x h in
    (after, done, λ section' k'. parse_str-Edited kf after section k x section' k' edit)

-- A key that one section of a file has found stays found when sections follow.
find_in-append :
    (ss : List Section) (t : Section) (section k : Bytes)
    → find_in (ss ++ (t ∷ [])) section k
      ≡ (elim (find_in ss section k) [ none ↦ find_in (t ∷ []) section k | some v ↦ some v ])
unfolding find_in
find_in-append [] t section k = refl
find_in-append (s ∷ ss) t section k = ground (arith, find_in-append ss t section k)

find_in_new :
    (section k x section' k' : Bytes)
    → find_in (add_key_to_section (section_new section) k (some x) ∷ []) section' k'
      ≡ (if streq section section' && streq k k' then some (str x) else none)
unfolding find_in add_key_to_section
find_in_new section k x section' k' = ground arith

-- `add_config` changes no value that a reader found, and sets the value where none was found.
pub parse_str-add_config :
    (kf : KeyFile) (section k x section' k' : Bytes)
    → key_file_parse_str (add_config kf section k (some x)) section' k'
      ≡ (elim (find_in kf.sections section' k') [
        | none ↦ if streq section section' && streq k k' then ok x else err enoent
        | some v ↦ read v
      ])
unfolding key_file_parse_str add_config
parse_str-add_config kf section k x section' k' =
    let new = add_key_to_section (section_new section) k (some x) in
    ground (arith, find_in-append kf.sections new section' k', find_in_new section k x section' k')
