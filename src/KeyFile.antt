-- ===== src/KeyFile.antt =====
-- `src/share/config-file.h` and the operations of `src/share/config-file.c` and
-- `src/share/config-parser.c` on a key file in memory: sections of keys, in the order of the file.
pub mod Put
pub mod Lookup
pub mod Removal
pub mod Text
pub mod Printable
pub mod Lines
pub mod RoundTrip
pub mod Stays
pub mod Numbers
pub mod Saved
mod Tests
mod Witnesses
use mathlib.Core.Option
use network_config_manager.Base.{
  ℕ, ◌+◌, ◌%◌, ◌^◌, ◌≡◌, refl, Bool, true, false, ◌&&◌, List, [], ◌∷◌, ◌++◌, arith, if◌then◌else◌,
  Bytes, Option, none, some, length,
}
use network_config_manager.CLib.{streq, strstr}
use network_config_manager.Outcome.{Outcome, ok, err, fault, ◌>>=◌, enoent}
use network_config_manager.StringUtil.{bool_to_str}

-- What a `char *` field holds.
pub data CString : Type 0 where
  null : CString
  str : Bytes → CString
  freed : CString

pub record Key : Type 0 where
  pub name : Bytes
  pub v : CString

pub record Section : Type 0 where
  pub name : Bytes
  pub keys : List Key

pub record KeyFile : Type 0 where
  pub nsections : ℕ
  pub name : Bytes
  pub sections : List Section

-- An argument of type `const char *` that may be NULL, copied.
abbrev pub copy_of : Option Bytes → CString
copy_of none = null
copy_of (some x) = str x

-- `strdup(key->v)`, and any other read of the text.
abbrev pub read : CString → Outcome Bytes
read null = fault
read (str x) = ok x
read freed = fault

abbrev pub key_new : Bytes → Option Bytes → Key
key_new k v = record { name = k; v = copy_of v }

abbrev pub section_new : Bytes → Section
section_new n = record { name = n; keys = [] }

abbrev pub key_file_new : Bytes → KeyFile
key_file_new n = record { nsections = 0; name = n; sections = [] }

unfoldable pub add_key_to_section : Section → Bytes → Option Bytes → Section
add_key_to_section s k v = record s { keys = s.keys ++ (key_new k v ∷ []) }

-- `nsections` is a 64-bit `size_t`.
unfoldable pub add_section_to_key_file : KeyFile → Section → KeyFile
add_section_to_key_file kf s = record kf {
  nsections = (kf.nsections + 1) % 2 ^ 64;
  sections = kf.sections ++ (s ∷ []);
}

-- `free(key->v); if (v) key->v = strdup(v);`
pub set_value : CString → Option Bytes → Outcome CString
set_value freed v = fault
set_value null none = ok null
set_value null (some x) = ok (str x)
set_value (str old) none = ok freed
set_value (str old) (some x) = ok (str x)

-- The inner loop of `set_config`; `none` when no key has the name.
pub set_keys : List Key → Bytes → Option Bytes → Outcome (Option (List Key))
unfolding set_value
set_keys [] k v = ok none
set_keys (key ∷ ks) k v =
    let here = (do w ← set_value key.v v; ok (some (record key { v = w } ∷ ks))) in
    let later = (do r ← set_keys ks k v; ok (Option.map (◌∷◌ key) r)) in
    if streq key.name k then here else later

abbrev set_or_append : Section → Bytes → Option Bytes → Option (List Key) → Section
set_or_append s k v none = add_key_to_section s k v
set_or_append s k v (some ks) = record s { keys = ks }

-- The outer loop of `set_config`; `none` when no section has the name.
pub set_sections : List Section → Bytes → Bytes → Option Bytes → Outcome (Option (List Section))
unfolding set_keys add_key_to_section
set_sections [] section k v = ok none
set_sections (s ∷ rest) section k v =
    let here = (do r ← set_keys s.keys k v; ok (some (set_or_append s k v r ∷ rest))) in
    let later = (do r ← set_sections rest section k v; ok (Option.map (◌∷◌ s) r)) in
    if streq s.name section then here else later

-- A new section with the one key, at the end of the file.
unfoldable pub add_config : KeyFile → Bytes → Bytes → Option Bytes → KeyFile
unfolding add_key_to_section add_section_to_key_file
add_config kf section k v =
    add_section_to_key_file kf (add_key_to_section (section_new section) k v)

abbrev set_or_add : KeyFile → Bytes → Bytes → Option Bytes → Option (List Section) → KeyFile
set_or_add kf section k v none = add_config kf section k v
set_or_add kf section k v (some ss) = record kf { sections = ss }

unfoldable pub set_config : KeyFile → Bytes → Bytes → Option Bytes → Outcome KeyFile
unfolding set_sections add_config
set_config kf section k v = do
  r ← set_sections kf.sections section k v
  ok (set_or_add kf section k v r)

unfoldable pub key_file_set_bool : KeyFile → Bytes → Bytes → Bool → Outcome KeyFile
unfolding bool_to_str
key_file_set_bool kf section k b = set_config kf section k (some (bool_to_str b))

-- The first key of the name, in a section.
pub find_key : List Key → Bytes → Option CString
find_key [] k = none
find_key (key ∷ ks) k = if streq key.name k then some key.v else find_key ks k

-- The first key of the name, in the sections of a name.
unfoldable pub find_in : List Section → Bytes → Bytes → Option CString
unfolding find_key
find_in [] section k = none
find_in (s ∷ rest) section k =
    let later = find_in rest section k in
    if streq s.name section
    then elim (find_key s.keys k) [ none ↦ later | some v ↦ some v ]
    else later

unfoldable pub key_file_parse_str : KeyFile → Bytes → Bytes → Outcome Bytes
key_file_parse_str kf section k = elim (find_in kf.sections section k) [
  | none ↦ err enoent
  | some v ↦ read v
]

-- `strtoll` is the bit pattern that `g_ascii_strtoll` returns in base 10.
unfoldable pub key_file_parse_int : (Bytes → ℕ) → KeyFile → Bytes → Bytes → Outcome ℕ
key_file_parse_int strtoll kf section k = do
  value ← key_file_parse_str kf section k
  ok (strtoll value % 2 ^ 32)

-- NULL where there is no such key.
unfoldable pub key_file_config_get : KeyFile → Bytes → Bytes → Outcome (Option Bytes)
key_file_config_get kf section k = elim (find_in kf.sections section k) [
  | none ↦ ok none
  | some v ↦ (do x ← read v; ok (some x))
]

module _ (test : Bytes → Bytes → Bool) where
  -- Whether a key of the name has a value that passes the test; the loop stops at the first one.
  pub any_key : List Key → Bytes → Bytes → Outcome Bool
  any_key [] k v = ok false
  any_key (key ∷ ks) k v =
      let later = any_key ks k v in
      let here = (do w ← read key.v; if test w v then ok true else later) in
      if streq key.name k then here else later

  unfoldable pub any_section : List Section → Bytes → Bytes → Bytes → Outcome Bool
  unfolding any_key
  any_section [] section k v = ok false
  any_section (s ∷ rest) section k v =
      let later = any_section rest section k v in
      let here = (do b ← any_key s.keys k v; if b then ok true else later) in
      if streq s.name section then here else later

unfoldable pub key_file_config_exists : KeyFile → Bytes → Bytes → Bytes → Outcome Bool
key_file_config_exists kf section k v = any_section streq kf.sections section k v

unfoldable pub key_file_config_contains : KeyFile → Bytes → Bytes → Bytes → Outcome Bool
key_file_config_contains kf section k v = any_section strstr kf.sections section k v

-- The loop of `add_key_to_section_str`: the key is added to the first section of the name.
pub add_in_section : List Section → Bytes → Bytes → Bytes → Option (List Section)
unfolding add_key_to_section
add_in_section [] section k v = none
add_in_section (s ∷ rest) section k v =
    if streq s.name section
    then some (add_key_to_section s k (some v) ∷ rest)
    else Option.map (◌∷◌ s) (add_in_section rest section k v)

-- The part of `add_key_to_section_str` between reading the file and writing it.
unfoldable pub add_key_str : KeyFile → Bytes → Bytes → Bytes → KeyFile
unfolding add_in_section
add_key_str kf section k v =
    set_or_add kf section k (some v) (add_in_section kf.sections section k v)
