-- ===== src/KeyFile/Removal.antt =====
-- The loops of `src/share/config-file.c` that remove keys and sections, between reading the file and
-- writing it. `g_list_delete_link` unlinks a link and frees it; `g_list_remove_link` unlinks it and
-- leaves it alone in a list of its own. A loop that then takes `g_list_next` of a freed link reads
-- freed memory.
pub mod Keys
pub mod Sections
pub mod Restart
use mathlib.Core.List.{reverse_aux}
use network_config_manager.Base.{
  ℕ, ◌+◌, ◌%◌, ◌^◌, ◌≡◌, ◌≢◌, ◌⊎◌, inl, inr, refl, Bool, true, false, ◌&&◌, List, [], ◌∷◌, ◌++◌,
  arith, if◌then◌else◌, Bytes, Option, none, some, length, All, ap, sym, ◌∙◌, Bool-cases,
}
use network_config_manager.CLib.{streq, streq_iff, streq_refl}
use network_config_manager.Outcome.{Outcome, ok, err, fault, ◌>>=◌, enoent}
use network_config_manager.KeyFile.{CString, Key, Section, KeyFile, read, any_key}

-- The inner loop of `remove_key_from_config_file`: it goes on from the link that it has freed.
unfoldable pub remove_key_links : List Key → Bytes → Outcome (List Key)
remove_key_links [] k = ok []
remove_key_links (key ∷ ks) k =
    let later = (do r ← remove_key_links ks k; ok (key ∷ r)) in
    if streq key.name k then fault else later

-- The inner loop of `remove_key_value_from_config_file`: it stops behind the link that it frees.
unfoldable pub remove_value_link : List Key → Bytes → Bytes → Outcome (List Key)
remove_value_link [] k v = ok []
remove_value_link (key ∷ ks) k v =
    let later = (do r ← remove_value_link ks k v; ok (key ∷ r)) in
    let here = (do w ← read key.v; if streq w v then ok ks else later) in
    if streq key.name k then here else later

-- An outer loop that gives each section of the name to an inner loop.
unfoldable pub each_section :
    (List Key → Outcome (List Key)) → List Section → Bytes → Outcome (List Section)
each_section inner [] section = ok []
each_section inner (s ∷ rest) section =
    let later = each_section inner rest section in
    let here = (do ks ← inner s.keys; r ← later; ok (record s { keys = ks } ∷ r)) in
    if streq s.name section then here else (do r ← later; ok (s ∷ r))

abbrev with_sections : KeyFile → Outcome (List Section) → Outcome KeyFile
with_sections kf m = do ss ← m; ok (record kf { sections = ss })

-- `remove_key_from_config_file`
unfoldable pub remove_key : KeyFile → Bytes → Bytes → Outcome KeyFile
remove_key kf section k =
    with_sections kf (each_section (λ ks. remove_key_links ks k) kf.sections section)

-- `remove_key_value_from_config_file`
unfoldable pub remove_key_value : KeyFile → Bytes → Bytes → Bytes → Outcome KeyFile
remove_key_value kf section k v =
    with_sections kf (each_section (λ ks. remove_value_link ks k v) kf.sections section)

-- The loop of `remove_section_from_config_file`: it goes on from the link that it has freed.
unfoldable pub remove_section_links : List Section → Bytes → Outcome (List Section)
remove_section_links [] section = ok []
remove_section_links (s ∷ rest) section =
    let later = (do r ← remove_section_links rest section; ok (s ∷ r)) in
    if streq s.name section then fault else later

-- `remove_section_from_config_file`
unfoldable pub remove_section : KeyFile → Bytes → Outcome KeyFile
remove_section kf section = with_sections kf (remove_section_links kf.sections section)

-- The loops of `remove_section_from_config_file_key_value`. A pair that is found frees the section's
-- link, and the outer loop goes on from that link.
unfoldable pub remove_pair_links : List Section → Bytes → Bytes → Bytes → Outcome (List Section)
remove_pair_links [] section k v = ok []
remove_pair_links (s ∷ rest) section k v =
    let later = (do r ← remove_pair_links rest section k v; ok (s ∷ r)) in
    let here = (do b ← any_key streq s.keys k v; if b then fault else later) in
    if streq s.name section then here else later

-- `remove_section_from_config_file_key_value`
unfoldable pub remove_section_key_value : KeyFile → Bytes → Bytes → Bytes → Outcome KeyFile
remove_section_key_value kf section k v =
    with_sections kf (remove_pair_links kf.sections section k v)

-- What the loop variable of `remove_section_from_config_file_key` points to: the link of the section
-- at hand, the link before it, a link that is in no list any more, or nothing.
pub data Iter : Type 0 where
  at_section at_previous at_detached at_null : Iter

-- `left` holds the links before the section at hand, the nearest first.
pub record Walk : Type 0 where
  pub left : List Section
  pub iter : Iter

abbrev previous : List Section → Iter
previous [] = at_null
previous (s ∷ left) = at_previous

-- `g_list_remove_link(key_file->sections, iter)` and, if all are to go, `iter = new_link`.
unlink : Bool → Walk → Walk
unlink all w = elim w.iter [
  | at_section ↦ record w { iter = if all then previous w.left else at_detached }
  | at_previous ↦ elim w.left [
    | [] ↦ record w { iter = at_null }
    | s ∷ left ↦ record { left = left; iter = at_detached }
  ]
  | at_detached ↦ w
  | at_null ↦ w
]

-- The inner loop: it stops at the first key of the name unless all are to go.
unlink_for_keys : Bool → List Key → Bytes → Walk → Walk
unfolding unlink
unlink_for_keys all [] k w = w
unlink_for_keys all (key ∷ ks) k w =
    let w' = unlink all w in
    let hit = if all then unlink_for_keys all ks k w' else w' in
    let miss = unlink_for_keys all ks k w in if streq key.name k then hit else miss

-- The outer loop, from a section on; `g_list_next` of a detached link, or of NULL, is NULL.
unfoldable pub walk_sections : Bool → List Section → List Section → Bytes → Bytes → List Section
unfolding unlink_for_keys
walk_sections all left [] section k = reverse_aux left []
walk_sections all left (s ∷ rest) section k =
    let w =
      if streq s.name section
      then unlink_for_keys all s.keys k (record { left = left; iter = at_section })
      else record { left = left; iter = at_section } in
    elim w.iter [
      | at_section ↦ walk_sections all (s ∷ w.left) rest section k
      | at_previous ↦ walk_sections all w.left rest section k
      | at_detached ↦ reverse_aux w.left rest
      | at_null ↦ reverse_aux w.left rest
    ]

-- `remove_section_from_config_file_key`
unfoldable pub remove_section_key : KeyFile → Bytes → Bytes → Bool → KeyFile
unfolding walk_sections
remove_section_key kf section k all = record kf {
  sections = walk_sections all [] kf.sections section k;
}
