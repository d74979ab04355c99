-- ===== src/KeyFile/Removal/Sections.antt =====
-- The functions that remove whole sections: `remove_section_from_config_file`,
-- `remove_section_from_config_file_key_value` and `remove_section_from_config_file_key`.
use mathlib.Core.List.{reverse_aux}
use network_config_manager.Base.{
  ℕ, ◌+◌, ◌≤◌, ◌≡◌, refl, Bool, true, false, ◌&&◌, ◌||◌, List, [], ◌∷◌, arith, if◌then◌else◌, Bytes,
  All, ltb,
}
use network_config_manager.CLib.{streq, streq_iff}
use network_config_manager.Outcome.{ok, fault, ◌>>=◌}
use network_config_manager.KeyFile.{Key, Section, KeyFile, any_section, key_file_config_exists}
use network_config_manager.KeyFile.Removal.{
  remove_section_links, remove_section, remove_pair_links, remove_section_key_value, at_section,
  at_detached, Walk, previous, unlink_for_keys, walk_sections, remove_section_key,
}

unfoldable pub has_section : List Section → Bytes → Bool
has_section [] section = false
has_section (s ∷ rest) section = streq s.name section || has_section rest section

remove_section_links-has_section :
    (ss : List Section) (section : Bytes)
    → remove_section_links ss section ≡ (if has_section ss section then fault else ok ss)
unfolding remove_section_links has_section
remove_section_links-has_section [] section = refl
remove_section_links-has_section (s ∷ rest) section =
    ground (arith, remove_section_links-has_section rest section)

-- `remove_section_from_config_file` reads freed memory whenever there is a section of the name, and
-- otherwise leaves the key file as it is.
pub remove_section-has_section :
    (kf : KeyFile) (section : Bytes)
    → remove_section kf section ≡ (if has_section kf.sections section then fault else ok kf)
unfolding remove_section
remove_section-has_section kf section =
    ground (arith, remove_section_links-has_section kf.sections section)

remove_pair_links-any_section :
    (ss : List Section) (section k v : Bytes)
    → remove_pair_links ss section k v
      ≡ (any_section streq ss section k v >>= λ b. if b then fault else ok ss)
unfolding remove_pair_links any_section
remove_pair_links-any_section [] section k v = refl
remove_pair_links-any_section (s ∷ rest) section k v =
    ground (arith, remove_pair_links-any_section rest section k v)

-- `remove_section_from_config_file_key_value` reads freed memory, or faults on the way, exactly where
-- `key_file_config_exists` finds the pair or faults; otherwise it leaves the key file as it is.
pub remove_section_key_value-config_exists :
    (kf : KeyFile) (section k v : Bytes)
    → remove_section_key_value kf section k v
      ≡ (key_file_config_exists kf section k v >>= λ b. if b then fault else ok kf)
unfolding remove_section_key_value key_file_config_exists
remove_section_key_value-config_exists kf section k v =
    ground (arith, remove_pair_links-any_section kf.sections section k v)

-- How many keys of a section have the name.
unfoldable pub times : List Key → Bytes → ℕ
times [] k = 0
times (key ∷ ks) k = (if streq key.name k then 1 else 0) + times ks k

-- The section has the name, and a key of the name.
unfoldable pub is_hit : Bytes → Bytes → Section → Bool
unfolding times
is_hit section k s = streq s.name section && ltb 0 (times s.keys k)

unlink_first :
    (ks : List Key) (k : Bytes) (left : List Section)
    → unlink_for_keys false ks k (record { left = left; iter = at_section })
      ≡ record { left = left; iter = if ltb 0 (times ks k) then at_detached else at_section }
unfolding unlink_for_keys times
unlink_first [] k left = refl
unlink_first (key ∷ ks) k left = ground (arith, unlink_first ks k left)

unlink_none :
    (ks : List Key) (k : Bytes) (w : Walk) → times ks k ≡ 0 → unlink_for_keys true ks k w ≡ w
unfolding unlink_for_keys times
unlink_none [] k w h = refl
unlink_none (key ∷ ks) k w h = ground (arith, unlink_none ks k w)

unlink_once :
    (ks : List Key) (k : Bytes) (left : List Section)
    → times ks k ≤ 1
    → unlink_for_keys true ks k (record { left = left; iter = at_section })
      ≡ record { left = left; iter = if ltb 0 (times ks k) then previous left else at_section }
unfolding unlink_for_keys times
unlink_once [] k left h = refl
unlink_once (key ∷ ks) k left h =
    ground (
      arith,
      unlink_once ks k left,
      unlink_none ks k (record { left = left; iter = previous left }),
    )

-- The first hit is taken out.
unfoldable pub without_first : Bytes → Bytes → List Section → List Section
without_first section k [] = []
without_first section k (s ∷ rest) =
    if is_hit section k s then rest else s ∷ without_first section k rest

-- All hits are taken out.
unfoldable pub without_hits : Bytes → Bytes → List Section → List Section
without_hits section k [] = []
without_hits section k (s ∷ rest) =
    if is_hit section k s then without_hits section k rest else s ∷ without_hits section k rest

walk_sections_first :
    (ss left : List Section) (section k : Bytes)
    → walk_sections false left ss section k ≡ reverse_aux left (without_first section k ss)
unfolding walk_sections without_first is_hit
walk_sections_first [] left section k = refl
walk_sections_first (s ∷ ss) left section k =
    ground (arith, unlink_first s.keys k left, walk_sections_first ss (s ∷ left) section k)

abbrev pub HasOnce : Bytes → Bytes → Section → Type 0
HasOnce section k s = s.name ≡ section → times s.keys k ≤ 1

walk_sections-without_hits :
    (ss left : List Section) (p : Section) (section k : Bytes)
    → All (HasOnce section k) ss
    → walk_sections true (p ∷ left) ss section k
      ≡ reverse_aux (p ∷ left) (without_hits section k ss)
unfolding walk_sections without_hits is_hit
walk_sections-without_hits [] left p section k h = refl
walk_sections-without_hits (s ∷ ss) left p section k (hs, h) = ground (
  arith,
  hs,
  streq_iff s.name section,
  unlink_once s.keys k (p ∷ left),
  walk_sections-without_hits ss (p ∷ left) s section k h,
  walk_sections-without_hits ss left p section k h,
)

walk_sections_head :
    (s : Section) (rest : List Section) (section k : Bytes)
    → All (HasOnce section k) (s ∷ rest)
    → walk_sections true [] (s ∷ rest) section k
      ≡ (if is_hit section k s then rest else without_hits section k (s ∷ rest))
unfolding walk_sections without_hits is_hit
walk_sections_head s rest section k (hs, h) = ground (
  arith,
  hs,
  streq_iff s.name section,
  unlink_once s.keys k [],
  walk_sections-without_hits rest [] s section k h,
)

-- `remove_section_from_config_file_key` with `all` unset takes out the first section of the name
-- that has a key of the name, and no other.
pub remove_section_key-without_first :
    (kf : KeyFile) (section k : Bytes)
    → (remove_section_key kf section k false).sections ≡ without_first section k kf.sections
unfolding remove_section_key
remove_section_key-without_first kf section k = walk_sections_first kf.sections [] section k

-- With `all` set, and where no section of the name has the key twice, it takes out every section of
-- the name that has the key if the first section of the file is not one of them; if it is, that
-- one goes and all the others stay.
pub remove_section_key-without_hits :
    (kf : KeyFile) (section k : Bytes) (s : Section) (rest : List Section)
    → kf.sections ≡ s ∷ rest
    → All (HasOnce section k) kf.sections
    → (remove_section_key kf section k true).sections
      ≡ (if is_hit section k s then rest else without_hits section k (s ∷ rest))
unfolding remove_section_key
remove_section_key-without_hits kf section k s rest e h =
    rw e (walk_sections_head s rest section k (rw e at h))
