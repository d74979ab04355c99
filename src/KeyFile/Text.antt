-- ===== src/KeyFile/Text.antt =====
-- The text of a key file: what `key_file_save` (`src/share/config-file.c`) writes, and the loop of
-- `parse_key_file` with `parse_line` (`src/share/config-parser.c`) that reads it.
use mathlib.Core.Option
use network_config_manager.Base.{
  ℕ, List, [], ◌∷◌, ◌++◌, if◌then◌else◌, Bytes, codes, Option, none, some, ◌==◌,
}
use network_config_manager.CLib.{strchr}
use network_config_manager.Glib.{Glib}
use network_config_manager.Outcome.{Outcome, ok, err, fault, ◌>>=◌, enodata}
use network_config_manager.StringUtil.{
  rstrip, find_chars_or_comment, string_copy, str_strip, split_pair,
}
use network_config_manager.KeyFile.{
  CString, null, str, freed, Key, Section, KeyFile, section_new, key_file_new, add_key_to_section,
  add_section_to_key_file,
}

-- `key->v ? strdup(key->v) : strdup("")`
abbrev pub written_value : CString → Outcome Bytes
written_value null = ok []
written_value (str x) = ok x
written_value freed = fault

unfoldable pub save_keys : List Key → Outcome Bytes
save_keys [] = ok []
save_keys (key ∷ ks) = do
  x ← written_value key.v
  r ← save_keys ks
  ok (key.name ++ (b'=' ∷ (x ++ (b'\n' ∷ r))))

-- The text that `key_file_save` writes; a section without keys is left out.
unfoldable pub save_sections : List Section → Outcome Bytes
unfolding save_keys
save_sections [] = ok []
save_sections (s ∷ rest) =
    let later = save_sections rest in
    elim s.keys [
      | [] ↦ later
      | key ∷ ks ↦ (do
        t ← save_keys s.keys
        r ← later
        ok (b'[' ∷ (s.name ++ (b']' ∷ b'\n' ∷ (t ++ (b'\n' ∷ r))))))
    ]

-- The locals of `parse_key_file` that a round of its loop changes.
pub record Parsing : Type 0 where
  pub key_file : KeyFile
  pub section : Option Section

-- `if (section) add_section_to_key_file(key_file, section)`
unfoldable pub finish : Parsing → KeyFile
finish st = elim st.section [ none ↦ st.key_file | some s ↦ add_section_to_key_file st.key_file s ]

-- The size of `section_name`.
abbrev pub line_max : ℕ
line_max = 2048

-- At a line behind its `[`, cut at the first `]`.
unfoldable pub open_section : Parsing → Bytes × Bytes → Parsing
open_section st (before, []) = st
open_section st (before, c ∷ at) = record {
  key_file = finish st;
  section = some (section_new (string_copy before line_max));
}

module _ (g : Glib) where
  unfoldable pub parse_line : Bytes → Outcome (Bytes × Option Bytes)
  parse_line line =
      let s = str_strip g line in
      elim s [
        | [] ↦ err enodata
        | c ∷ rest ↦ if c == b'#' then err enodata else split_pair g (c ∷ rest) (codes "=")
      ]

  -- A key without a section fails the assertion of `add_key_to_section`.
  unfoldable pub add_parsed : Parsing → Bytes → Option Bytes → Outcome Parsing
  add_parsed st k v = elim st.section [
    | none ↦ fault
    | some s ↦ ok (record st {
      section = some (add_key_to_section s (str_strip g k) (Option.map (str_strip g) v));
    })
  ]

  unfoldable pub parse_entry : Parsing → Bytes → Outcome Parsing
  parse_entry st s = elim (parse_line s) [
    | ok (k, v) ↦ add_parsed st k v
    | err n ↦ ok st
    | fault ↦ fault
  ]

  -- The round of a line, behind `rstrip`.
  unfoldable pub parse_stripped : Parsing → Bytes → Outcome Parsing
  parse_stripped st [] = ok st
  parse_stripped st (c ∷ s) =
      if c == b'['
      then ok (open_section st (find_chars_or_comment s (some (codes "]"))))
      else parse_entry st (c ∷ s)

  -- A round of the loop.
  unfoldable pub parse_one : Parsing → Bytes → Outcome Parsing
  parse_one st line =
      let s = str_strip g line in
      elim s [
        | [] ↦ ok st
        | c ∷ rest ↦
            if strchr (codes "#;") c
            then ok st
            else parse_stripped st (rstrip (find_chars_or_comment (c ∷ rest) none).0)
      ]

  unfoldable pub parse_lines : Parsing → List Bytes → Outcome Parsing
  parse_lines st [] = ok st
  parse_lines st (l ∷ ls) = do st' ← parse_one st l; parse_lines st' ls

  -- `parse_key_file` behind `g_file_get_contents`.
  unfoldable pub parse_key_file_contents : Bytes → Bytes → Outcome KeyFile
  parse_key_file_contents path contents = do
    let start : Parsing = record { key_file = key_file_new path; section = none }
    st ← parse_lines start (g.strsplit contents (codes "\n") 0)
    ok (finish st)
