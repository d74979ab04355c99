-- ===== src/KeyFile/Removal/Keys.antt =====
-- `remove_key_from_config_file` and `remove_key_value_from_config_file`: which of them return, and
-- what they leave.
use network_config_manager.Base.{
  ltb, ℕ, ◌+◌, ◌-◌, ◌≤◌, ◌≡◌, refl, Bool, true, false, ◌&&◌, List, [], ◌∷◌, arith, if◌then◌else◌,
  Bytes, none, some, All,
}
use network_config_manager.CLib.{streq, streq_iff}
use network_config_manager.Outcome.{ok, fault}
use network_config_manager.KeyFile.{
  CString, null, str, freed, Key, Section, KeyFile, any_key, any_section, find_key, find_in,
  key_file_config_exists,
}
use network_config_manager.KeyFile.Removal.{
  remove_key_links, remove_value_link, each_section, remove_key, remove_key_value,
}

remove_key_links-find_key :
    (ks : List Key) (k : Bytes)
    → remove_key_links ks k ≡ (elim (find_key ks k) [ none ↦ ok ks | some v ↦ fault ])
unfolding remove_key_links find_key
remove_key_links-find_key [] k = refl
remove_key_links-find_key (key ∷ ks) k = ground (arith, remove_key_links-find_key ks k)

each_section-find_in :
    (ss : List Section) (section k : Bytes)
    → each_section (λ ks. remove_key_links ks k) ss section
      ≡ (elim (find_in ss section k) [ none ↦ ok ss | some v ↦ fault ])
unfolding each_section find_in
each_section-find_in [] section k = refl
each_section-find_in (s ∷ rest) section k =
    ground (arith, remove_key_links-find_key s.keys k, each_section-find_in rest section k)

-- `remove_key_from_config_file` reads freed memory whenever there is a key to remove, and
-- otherwise leaves the key file as it is.
pub remove_key-find_in :
    (kf : KeyFile) (section k : Bytes)
    → remove_key kf section k
      ≡ (elim (find_in kf.sections section k) [ none ↦ ok kf | some v ↦ fault ])
unfolding remove_key
remove_key-find_in kf section k = ground (arith, each_section-find_in kf.sections section k)

-- Every value is a text.
abbrev pub HasValues : List Key → Type 0
HasValues = All (λ key. (x : Bytes) × (key.v ≡ str x))

abbrev pub IsReadable : List Section → Type 0
IsReadable = All (λ s. HasValues s.keys)

-- How often a key of the name has the value.
abbrev pub is_str : CString → Bytes → Bool
is_str null v = false
is_str (str w) v = streq w v
is_str freed v = false

unfoldable pub count_key : List Key → Bytes → Bytes → ℕ
count_key [] k v = 0
count_key (key ∷ ks) k v = (if streq key.name k && is_str key.v v then 1 else 0) + count_key ks k v

-- The first key of the name with the value is taken out.
drop_first : List Key → Bytes → Bytes → List Key
drop_first [] k v = []
drop_first (key ∷ ks) k v =
    if streq key.name k && is_str key.v v then ks else key ∷ drop_first ks k v

remove_value_link-drop_first :
    (ks : List Key) (k v : Bytes)
    → HasValues ks
    → (remove_value_link ks k v ≡ ok (drop_first ks k v)) × HasValues (drop_first ks k v)
unfolding remove_value_link drop_first
remove_value_link-drop_first [] k v h = (refl, tt)
remove_value_link-drop_first (key ∷ ks) k v ((x, e), h) =
    ground (arith, remove_value_link-drop_first ks k v h)

is_str_unique : (c : CString) (v v' : Bytes) → is_str c v ≡ true → is_str c v' ≡ true → v ≡ v'
is_str_unique null v v' p q = cc
is_str_unique (str w) v v' p q = ground (arith, streq_iff w v, streq_iff w v')
is_str_unique freed v v' p q = cc

count_key-drop_first :
    (ks : List Key) (k v k' v' : Bytes)
    → count_key (drop_first ks k v) k' v'
      ≡ (if streq k k' && streq v v' then count_key ks k' v' - 1 else count_key ks k' v')
unfolding drop_first count_key
count_key-drop_first [] k v k' v' = ground arith
count_key-drop_first (key ∷ ks) k v k' v' = ground (
  arith,
  streq_iff key.name k,
  streq_iff key.name k',
  streq_iff k k',
  streq_iff v v',
  is_str_unique key.v v v',
  count_key-drop_first ks k v k' v',
)

any_key-count_key :
    (ks : List Key) (k v : Bytes)
    → HasValues ks
    → any_key streq ks k v ≡ ok (ltb 0 (count_key ks k v))
unfolding any_key count_key
any_key-count_key [] k v h = refl
any_key-count_key (key ∷ ks) k v ((x, e), h) = ground (arith, any_key-count_key ks k v h)

-- How often the sections of the name hold the pair.
pub count_in : List Section → Bytes → Bytes → Bytes → ℕ
unfolding count_key
count_in [] section k v = 0
count_in (s ∷ rest) section k v =
    (if streq s.name section then count_key s.keys k v else 0) + count_in rest section k v

any_section-count_in :
    (ss : List Section) (section k v : Bytes)
    → IsReadable ss
    → any_section streq ss section k v ≡ ok (ltb 0 (count_in ss section k v))
unfolding any_section count_in
any_section-count_in [] section k v h = refl
any_section-count_in (s ∷ rest) section k v (hs, h) =
    ground (arith, any_key-count_key s.keys k v hs, any_section-count_in rest section k v h)

-- The specification of `remove_key_value_from_config_file`.
drop_each : List Section → Bytes → Bytes → Bytes → List Section
drop_each [] section k v = []
drop_each (s ∷ rest) section k v =
    (if streq s.name section then record s { keys = drop_first s.keys k v } else s)
    ∷ drop_each rest section k v

each_section-drop_each :
    (ss : List Section) (section k v : Bytes)
    → IsReadable ss
    → (each_section (λ ks. remove_value_link ks k v) ss section ≡ ok (drop_each ss section k v))
      × IsReadable (drop_each ss section k v)
unfolding each_section drop_each
each_section-drop_each [] section k v h = (refl, tt)
each_section-drop_each (s ∷ rest) section k v (hs, h) =
    ground
      (arith, remove_value_link-drop_first s.keys k v hs, each_section-drop_each rest section k v h)

-- No section of the name holds the pair twice.
abbrev pub IsOnce : List Section → Bytes → Bytes → Bytes → Type 0
IsOnce ss section k v = All (λ s. s.name ≡ section → count_key s.keys k v ≤ 1) ss

count_in-drop_each :
    (ss : List Section) (section k v section' k' v' : Bytes)
    → IsOnce ss section k v
    → count_in (drop_each ss section k v) section' k' v' ≡ (
        if streq section section' && (streq k k' && streq v v')
        then 0
        else count_in ss section' k' v')
unfolding count_in drop_each
count_in-drop_each [] section k v section' k' v' h = ground arith
count_in-drop_each (s ∷ rest) section k v section' k' v' (hs, h) = ground (
  arith,
  streq_iff s.name section,
  streq_iff s.name section',
  streq_iff section section',
  streq_iff k k',
  streq_iff v v',
  count_key-drop_first s.keys k v k' v',
  hs,
  count_in-drop_each rest section k v section' k' v' h,
)

-- In a key file whose values are all texts, and whose sections of the name hold the pair at most
-- once each, `remove_key_value_from_config_file` succeeds; afterwards `key_file_config_exists` does
-- not find the pair, and answers as before on every other pair.
pub config_exists-remove_key_value :
    (kf : KeyFile) (section k v : Bytes)
    → IsReadable kf.sections
    → IsOnce kf.sections section k v
    → (after : KeyFile) × (remove_key_value kf section k v ≡ ok after)
      × ((section' k' v' : Bytes)
          → key_file_config_exists after section' k' v' ≡ (
              if streq section section' && (streq k k' && streq v v')
              then ok false
              else key_file_config_exists kf section' k' v'))
unfolding remove_key_value key_file_config_exists
config_exists-remove_key_value kf section k v h once =
    let ss = drop_each kf.sections section k v in
    let (done, readable) = each_section-drop_each kf.sections section k v h in
    (
      record kf { sections = ss },
      rw done,
      λ section' k' v'. ground (
        arith,
        any_section-count_in ss section' k' v' readable,
        any_section-count_in kf.sections section' k' v' h,
        count_in-drop_each kf.sections section k v section' k' v' once,
      ),
    )
