-- ===== src/StateFile.antt =====
-- The state files of networkd: `parse_state_file` of `src/share/config-parser.c`, and
-- `src/lib-network/networkd/networkd-api.c`, which asks them for single settings.
pub mod Keys
pub mod Reading
mod Witnesses
use network_config_manager.Base.{
  ℕ, Bool, true, false, not, ◌&&◌, List, [], ◌∷◌, ◌++◌, Bytes, codes, Option, none, some,
  if◌then◌else◌, leb, ◌==◌,
}
use network_config_manager.CLib.{streq}
use network_config_manager.CLib.Decimal.{print_uint}
use network_config_manager.CLib.Strtol.{Long}
use network_config_manager.Glib.{Glib}
use network_config_manager.Outcome.{Outcome, ok, err, fault, enoent, enodata}
use network_config_manager.StringUtil.{isempty, str_strip}
use network_config_manager.KeyFile.Text.{parse_line}
use network_config_manager.ConfFile.{Files, Call, ◌>>=◌, pure}

-- The hash table, as the list of what was inserted, the latest first; a value may be NULL.
abbrev pub Table : Type 0
Table = List (Bytes × Option Bytes)

unfoldable pub lookup : Table → Bytes → Option (Option Bytes)
lookup [] key = none
lookup ((k, v) ∷ t) key = if streq k key then some v else lookup t key

-- `g_hash_table_insert` frees the key that it is given when the table has it, and so does the loop
-- then, behind `continue`: the second free of the key is a fault.
unfoldable pub insert : Table → Bytes → Option Bytes → Outcome Table
insert t k v = elim (lookup t k) [ none ↦ ok ((k, v) ∷ t) | some old ↦ fault ]

-- A key that is missing and one whose value is NULL are alike.
abbrev pub value_of : Outcome Table → Bytes → Outcome Bytes
value_of (err n) key = err n
value_of fault key = fault
value_of (ok t) key = elim (lookup t key) [
  | none ↦ err enoent
  | some none ↦ err enoent
  | some (some v) ↦ ok v
]

module _ (g : Glib) where
  -- The round of a line, behind `str_strip`.
  abbrev pub parse_state_stripped : Table → Bytes → Outcome Table
  parse_state_stripped t [] = ok t
  parse_state_stripped t (c ∷ s) = elim (parse_line g (c ∷ s)) [
    | ok (k, v) ↦ insert t k v
    | err n ↦ ok t
    | fault ↦ fault
  ]

  unfoldable pub parse_state_lines : Table → List Bytes → Outcome Table
  parse_state_lines t [] = ok t
  parse_state_lines t (l ∷ ls) = elim (parse_state_stripped t (str_strip g l)) [
    | ok t' ↦ parse_state_lines t' ls
    | err n ↦ err n
    | fault ↦ fault
  ]

  unfoldable pub parse_state_contents : Bytes → Bytes → Outcome Bytes
  parse_state_contents contents key =
      value_of (parse_state_lines [] (g.strsplit contents (codes "\n") 0)) key

module _ (fs : Files) (g : Glib) where
  -- `parse_state_file(path, key, &value, NULL)`
  unfoldable pub parse_state_file : Bytes → Bytes → Call fs Bytes
  parse_state_file path key st =
      if fs.exists path st
      then ◌>>=◌ fs (λ s. pure fs (fs.get_contents path s) s)
          (λ c. pure fs (parse_state_contents g c key)) st
      else (err enoent, st)

  abbrev pub state_path : Bytes
  state_path = codes "/run/systemd/netif/state"

  abbrev pub filled : Bytes → Outcome Bytes
  filled s = if isempty s then err enodata else ok s

  unfoldable pub network_parse_string : Bytes → Call fs Bytes
  network_parse_string key = ◌>>=◌ fs (parse_state_file state_path key) λ s. pure fs (filled s)

  -- `none` is a NULL vector or a NULL text.
  abbrev pub split_words : Bytes → Option (List Bytes)
  split_words s = if isempty s then none else some (g.strsplit s (codes " ") 0)

  abbrev pub if_filled : Bytes → Option Bytes
  if_filled s = if isempty s then none else some s

  unfoldable pub network_parse_strv : Bytes → Call fs (Option (List Bytes))
  network_parse_strv key =
      ◌>>=◌ fs (parse_state_file state_path key) λ s. pure fs (ok (split_words s))

  -- `%i`
  abbrev pub print_long : Long → Bytes
  print_long v = if v.neg && leb 1 v.size then b'-' ∷ print_uint v.size else print_uint v.size

  abbrev pub links_dir : Bytes
  links_dir = codes "/run/systemd/netif/links/"

  abbrev pub leases_dir : Bytes
  leases_dir = codes "/run/systemd/netif/leases/"

  -- The file of a link; `assert(ifindex)`.
  unfoldable pub parse_link_file : Bytes → Long → Bytes → Call fs Bytes
  parse_link_file dir ifindex key =
      if ifindex.size == 0 then pure fs fault else parse_state_file (dir ++ print_long ifindex) key

  unfoldable pub network_parse_link_strv : Long → Bytes → Call fs (Option (List Bytes))
  network_parse_link_strv ifindex key =
      ◌>>=◌ fs (parse_link_file links_dir ifindex key) λ s. pure fs (ok (split_words s))

  unfoldable pub network_parse_link_string : Long → Bytes → Call fs (Option Bytes)
  network_parse_link_string ifindex key =
      ◌>>=◌ fs (parse_link_file links_dir ifindex key) λ s. pure fs (ok (if_filled s))

  unfoldable pub network_parse_link_lease_strv : Long → Bytes → Call fs (Option (List Bytes))
  network_parse_link_lease_strv ifindex key =
      ◌>>=◌ fs (parse_link_file leases_dir ifindex key) λ s. pure fs (ok (split_words s))

  unfoldable pub network_parse_link_lease_string : Long → Bytes → Call fs (Option Bytes)
  network_parse_link_lease_string ifindex key =
      ◌>>=◌ fs (parse_link_file leases_dir ifindex key) λ s. pure fs (ok (if_filled s))
