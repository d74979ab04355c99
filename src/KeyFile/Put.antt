-- ===== src/KeyFile/Put.antt =====
-- `set_config` against a specification: the key file as a map from a section's and a key's name to
-- a value, in which the first key of the name counts.
use network_config_manager.Base.{
  ◌%◌, ◌^◌, ◌≡◌, ◌≢◌, ◌⊎◌, inl, inr, refl, ◌&&◌, List, [], ◌∷◌, ◌++◌, arith, if◌then◌else◌, Bytes,
  none, some, length, All, ap, sym, ◌∙◌, length-append,
}
use network_config_manager.CLib.{streq, streq_iff}
use network_config_manager.Outcome.{ok}
use network_config_manager.KeyFile.{
  str, freed, Key, Section, KeyFile, key_new, section_new, add_key_to_section,
  add_section_to_key_file, set_keys, set_sections, add_config, set_config, find_key, find_in,
}

abbrev pub IntactKeys : List Key → Type 0
IntactKeys = All (λ key. key.v ≢ freed)

-- No value is a pointer to freed memory.
abbrev pub IsIntact : List Section → Type 0
IsIntact = All (λ s. IntactKeys s.keys)

-- `nsections` counts the sections.
abbrev pub IsCounted : KeyFile → Type 0
IsCounted kf = kf.nsections ≡ length kf.sections % 2 ^ 64

unfoldable pub put_keys : List Key → Bytes → Bytes → List Key
put_keys [] k x = key_new k (some x) ∷ []
put_keys (key ∷ ks) k x =
    if streq key.name k then record key { v = str x } ∷ ks else key ∷ put_keys ks k x

-- The specification: the first section of the name gets the key, or its first key of the name the
-- value; where there is no such section, it is added at the end.
unfoldable pub put : List Section → Bytes → Bytes → Bytes → List Section
unfolding put_keys add_key_to_section
put [] section k x = add_key_to_section (section_new section) k (some x) ∷ []
put (s ∷ rest) section k x =
    if streq s.name section
    then record s { keys = put_keys s.keys k x } ∷ rest
    else s ∷ put rest section k x

set_keys-put :
    (ks : List Key) (k x : Bytes)
    → IntactKeys ks
    → (set_keys ks k (some x) ≡ ok none) × (put_keys ks k x ≡ ks ++ (key_new k (some x) ∷ []))
      ⊎ (set_keys ks k (some x) ≡ ok (some (put_keys ks k x)))
unfolding set_keys put_keys
set_keys-put [] k x h = inl (refl, refl)
set_keys-put (key ∷ ks) k x h = ground (arith, set_keys-put ks k x h.1)

set_sections-put :
    (ss : List Section) (section k x : Bytes)
    → IsIntact ss
    → (set_sections ss section k (some x) ≡ ok none)
        × (put ss section k x ≡ ss ++ (add_key_to_section (section_new section) k (some x) ∷ []))
      ⊎ (set_sections ss section k (some x) ≡ ok (some (put ss section k x)))
        × (length (put ss section k x) ≡ length ss)
unfolding set_sections put
set_sections-put [] section k x h = inl (refl, refl)
set_sections-put (s ∷ rest) section k x h =
    ground (arith, set_keys-put s.keys k x h.0, set_sections-put rest section k x h.1)

find_key-put_keys :
    (ks : List Key) (k j x : Bytes)
    → find_key (put_keys ks k x) j ≡ (if streq k j then some (str x) else find_key ks j)
unfolding find_key put_keys
find_key-put_keys [] k j x = refl
find_key-put_keys (key ∷ ks) k j x =
    ground
      (arith, streq_iff key.name k, streq_iff key.name j, streq_iff k j, find_key-put_keys ks k j x)

-- The map law of the specification, in `if` form.
pub find_in-put :
    (ss : List Section) (section k x section' k' : Bytes)
    → find_in (put ss section k x) section' k'
      ≡ (if streq section section' && streq k k' then some (str x) else find_in ss section' k')
unfolding find_in put
find_in-put [] section k x section' k' = unfold find_key in ground arith
find_in-put (s ∷ rest) section k x section' k' = ground (
  arith,
  streq_iff s.name section,
  streq_iff s.name section',
  streq_iff section section',
  find_key-put_keys s.keys k k' x,
  find_in-put rest section k x section' k',
)

put_keys-IntactKeys : (ks : List Key) (k x : Bytes) → IntactKeys ks → IntactKeys (put_keys ks k x)
unfolding put_keys
put_keys-IntactKeys [] k x h = (cc, tt)
put_keys-IntactKeys (key ∷ ks) k x h = ground (arith, put_keys-IntactKeys ks k x h.1)

put-IsIntact :
    (ss : List Section) (section k x : Bytes) → IsIntact ss → IsIntact (put ss section k x)
unfolding put
put-IsIntact [] section k x h = ((cc, tt), tt)
put-IsIntact (s ∷ rest) section k x h =
    ground (arith, put_keys-IntactKeys s.keys k x h.0, put-IsIntact rest section k x h.1)

-- What one edit of a key file promises.
pub record Edited (before after : KeyFile) (section k x : Bytes) : Type 0 where
  pub sections_are : after.sections ≡ put before.sections section k x
  pub name_kept : after.name ≡ before.name
  pub counted : IsCounted before → IsCounted after
  pub intact : IsIntact after.sections

pub add_section_to_key_file-IsCounted :
    (kf : KeyFile) (s : Section) → IsCounted kf → IsCounted (add_section_to_key_file kf s)
unfolding add_section_to_key_file
add_section_to_key_file-IsCounted kf s c = omega (arith, c, length-append kf.sections (s ∷ []))

pub set_config-Edited :
    (kf : KeyFile) (section k x : Bytes)
    → IsIntact kf.sections
    → (after : KeyFile) × (set_config kf section k (some x) ≡ ok after)
      × Edited kf after section k x
unfolding set_config
set_config-Edited kf section k x h = elim (set_sections-put kf.sections section k x h) [
  | inl (missing, added) ↦ (
    add_config kf section k (some x),
    rw missing,
    record {
      sections_are = sym added;
      name_kept = refl;
      counted = add_section_to_key_file-IsCounted kf _;
      intact = rw added at (put-IsIntact kf.sections section k x h);
    },
  )
  | inr (found, same) ↦ (
    record kf { sections = put kf.sections section k x },
    rw found,
    record {
      sections_are = refl;
      name_kept = refl;
      counted = λ c. c ∙ ap (λ n. n % 2 ^ 64) (sym same);
      intact = put-IsIntact kf.sections section k x h;
    },
  )
]

-- In a key file that holds no freed value and whose `nsections` is the number of its sections,
-- `set_config` with a value succeeds; the sections are then those of the specification, the file's
-- name is kept, `nsections` is their number, and no value is freed.
pub set_config-put :
    (kf : KeyFile) (section k x : Bytes)
    → IsIntact kf.sections
    → IsCounted kf
    → (after : KeyFile) × (set_config kf section k (some x) ≡ ok after)
      × (after.sections ≡ put kf.sections section k x)
      × (after.name ≡ kf.name)
      × IsCounted after
      × IsIntact after.sections
set_config-put kf section k x h c =
    let (after, done, edit) = set_config-Edited kf section k x h in
    (after, done, edit.sections_are, edit.name_kept, edit.counted c, edit.intact)

put_keys_twice : (ks : List Key) (k x y : Bytes) → put_keys (put_keys ks k x) k y ≡ put_keys ks k y
unfolding put_keys
put_keys_twice [] k x y = ground (arith, streq_iff k k)
put_keys_twice (key ∷ ks) k x y = ground (arith, put_keys_twice ks k x y)

-- A second `set_config` of the same key leaves no trace of the first.
pub put_twice :
    (ss : List Section) (section k x y : Bytes)
    → put (put ss section k x) section k y ≡ put ss section k y
unfolding put
put_twice [] section k x y = ground (arith, streq_iff k k, streq_iff section section)
put_twice (s ∷ ss) section k x y =
    ground (arith, put_keys_twice s.keys k x y, put_twice ss section k x y)
