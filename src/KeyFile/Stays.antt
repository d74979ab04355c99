-- ===== src/KeyFile/Stays.antt =====
-- A printable key file stays printable under an edit and under writing and reading, and reading finds
-- in it what was there.
use network_config_manager.Base.{
  ◌≡◌, refl, List, [], ◌∷◌, arith, Bytes, some, All, Bool-cases, inl, inr, ◌∙◌,
}
use network_config_manager.CLib.{streq}
use network_config_manager.KeyFile.{
  str, Key, Section, key_new, section_new, add_key_to_section, find_key, find_in,
}
use network_config_manager.KeyFile.Put.{IntactKeys, IsIntact, put, put_keys}
use network_config_manager.KeyFile.Printable.{IsPrintableKey, IsPrintable, keep_if_keys, with_keys}

-- The names and the value of an edit can be written.
pub record IsPrintableEdit (section k x : Bytes) : Type 0 where
  pub key_printable : IsPrintableKey (key_new k (some x))
  pub section_printable : IsPrintable (section_new section)

find_in-keep_if_keys :
    (s : Section) (ks : List Key) (ss : List Section) (section k : Bytes)
    → s.keys ≡ ks
    → find_in (keep_if_keys s ks ss) section k ≡ find_in (s ∷ ss) section k
unfolding find_in find_key
find_in-keep_if_keys s [] ss section k e = ground arith
find_in-keep_if_keys s (key ∷ ks) ss section k e = refl

find_in-cons :
    (s : Section) (ss ts : List Section) (section k : Bytes)
    → find_in ss section k ≡ find_in ts section k
    → find_in (s ∷ ss) section k ≡ find_in (s ∷ ts) section k
unfolding find_in
find_in-cons s ss ts section k e = ground arith

-- Sections without keys make no difference to a reader.
pub find_in-with_keys :
    (ss : List Section) (section k : Bytes)
    → find_in (with_keys ss) section k ≡ find_in ss section k
unfolding with_keys
find_in-with_keys [] section k = refl
find_in-with_keys (s ∷ ss) section k =
    find_in-keep_if_keys s s.keys (with_keys ss) section k refl
    ∙ find_in-cons s (with_keys ss) ss section k (find_in-with_keys ss section k)

keep_if_keys-IsPrintable :
    (s : Section) (ks : List Key) (ss : List Section)
    → IsPrintable s
    → All IsPrintable ss
    → All IsPrintable (keep_if_keys s ks ss)
keep_if_keys-IsPrintable s [] ss p h = h
keep_if_keys-IsPrintable s (key ∷ ks) ss p h = (p, h)

pub with_keys-IsPrintable :
    (ss : List Section) → All IsPrintable ss → All IsPrintable (with_keys ss)
unfolding with_keys
with_keys-IsPrintable [] h = tt
with_keys-IsPrintable (s ∷ ss) (p, h) =
    keep_if_keys-IsPrintable s s.keys (with_keys ss) p (with_keys-IsPrintable ss h)

key-IsIntact : (ks : List Key) → All IsPrintableKey ks → IntactKeys ks
key-IsIntact [] h = tt
key-IsIntact (key ∷ ks) (p, h) = (λ e. cc (p.value_is), key-IsIntact ks h)

pub IsPrintable-IsIntact : (ss : List Section) → All IsPrintable ss → IsIntact ss
IsPrintable-IsIntact [] h = tt
IsPrintable-IsIntact (s ∷ ss) (p, h) =
    (key-IsIntact s.keys p.keys_printable, IsPrintable-IsIntact ss h)

set_value-IsPrintableKey :
    (key : Key) (k x : Bytes)
    → IsPrintableKey key
    → IsPrintableKey (key_new k (some x))
    → IsPrintableKey (record key { v = str x })
set_value-IsPrintableKey key k x p n = record {
  name_plain = p.name_plain;
  name_starts = p.name_starts;
  name_lacks = p.name_lacks;
  value = n.value;
  value_is = n.value_is;
  value_plain = n.value_plain;
}

put_keys-IsPrintableKey :
    (ks : List Key) (k x : Bytes)
    → IsPrintableKey (key_new k (some x))
    → All IsPrintableKey ks
    → All IsPrintableKey (put_keys ks k x)
unfolding put_keys
put_keys-IsPrintableKey [] k x n h = (n, tt)
put_keys-IsPrintableKey (key ∷ ks) k x n (p, h) = elim (Bool-cases (streq key.name k)) [
  | inl same ↦ rw same (set_value-IsPrintableKey key k x p n, h)
  | inr other ↦ rw other (p, put_keys-IsPrintableKey ks k x n h)
]

keys-IsPrintable :
    (s : Section) (ks : List Key)
    → IsPrintable s
    → All IsPrintableKey ks
    → IsPrintable (record s { keys = ks })
keys-IsPrintable s ks p h = record {
  name_one_line = p.name_one_line;
  name_lacks_escape = p.name_lacks_escape;
  name_lacks_bracket = p.name_lacks_bracket;
  name_fits = p.name_fits;
  keys_printable = h;
}

-- An edit whose names and value can be written keeps the file printable.
pub put-IsPrintable :
    (ss : List Section) (section k x : Bytes)
    → IsPrintableEdit section k x
    → All IsPrintable ss
    → All IsPrintable (put ss section k x)
unfolding put add_key_to_section
put-IsPrintable [] section k x n h =
    (keys-IsPrintable (section_new section) _ n.section_printable (n.key_printable, tt), tt)
put-IsPrintable (s ∷ ss) section k x n (p, h) = elim (Bool-cases (streq s.name section)) [
  | inl same ↦ rw same (
    keys-IsPrintable s _ p (put_keys-IsPrintableKey s.keys k x n.key_printable p.keys_printable),
    h,
  )
  | inr other ↦ rw other (p, put-IsPrintable ss section k x n h)
]
