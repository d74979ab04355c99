-- ===== src/StateFile/Reading.antt =====
-- A state file of `KEY=VALUE` lines, as networkd writes it: `parse_state_file` reads the values of
-- its keys, if no key comes twice.
use network_config_manager.Base.{
  ℕ, ◌≡◌, ◌≢◌, refl, ap, sym, ◌∙◌, Bool, true, false, not, ◌&&◌, ◌||◌, List, [], ◌∷◌, ◌++◌, Bytes,
  codes, Option, none, some, if◌then◌else◌, All, All-append, Lacks, arith, Bool-cases, Option-cases,
  inl, inr,
}
use network_config_manager.CLib.{streq, streq_iff, isspace}
use network_config_manager.Glib.{Glib, GlibLaws, EndsBare, pieces, pieces-append}
use network_config_manager.Outcome.{Outcome, ok, err, fault, enoent}
use network_config_manager.StringUtil.{str_strip, split_pair}
use network_config_manager.StringUtil.Strip.{EndsBare-append, EndsBare-cons}
use network_config_manager.KeyFile.Text.{parse_line}
use network_config_manager.KeyFile.Lines.{str_strip_plain}
use network_config_manager.StateFile.{
  Table, lookup, insert, parse_state_stripped, parse_state_lines, value_of, parse_state_contents,
}

abbrev pub StateEntry : Type 0
StateEntry = Bytes × Bytes

-- A key is not empty and starts no comment; the line has nothing to strip and no escape.
abbrev StartsLine : Bytes → Type 0
StartsLine [] = ⊥
StartsLine (c ∷ s) = (isspace c ≡ false) × (c ≢ b'#')

pub record IsStateEntry (e : StateEntry) : Type 0 where
  pub key_starts : StartsLine e.0
  pub key_line : Lacks b'\n' e.0
  pub key_lacks_escape : Lacks b'\\' e.0
  pub key_lacks_equals : Lacks b'=' e.0
  pub value_line : Lacks b'\n' e.1
  pub value_lacks_escape : Lacks b'\\' e.1
  pub value_ends : EndsBare e.1

unfoldable pub render_state : List StateEntry → Bytes
render_state [] = []
render_state ((k, v) ∷ es) = (k ++ (b'=' ∷ v)) ++ (b'\n' ∷ render_state es)

unfoldable pub has_key : List StateEntry → Bytes → Bool
has_key [] key = false
has_key ((k, v) ∷ es) key = streq k key || has_key es key

-- No key comes twice.
unfoldable pub distinct : List StateEntry → Bool
unfolding has_key
distinct [] = true
distinct ((k, v) ∷ es) = not (has_key es k) && distinct es

-- The value of a key, or what is known of it already.
unfoldable pub found : List StateEntry → Bytes → Outcome Bytes → Outcome Bytes
found [] key old = old
found ((k, v) ∷ es) key old = if streq k key then ok v else found es key old

-- The entries are inserted one after the other.
unfoldable load : Table → List StateEntry → Outcome Table
load t [] = ok t
load t ((k, v) ∷ es) = elim (insert t k (some v)) [
  | ok t' ↦ load t' es
  | err n ↦ err n
  | fault ↦ fault
]

abbrev is_in : Option (Option Bytes) → Bool
is_in none = false
is_in (some v) = true

unfoldable disjoint : Table → List StateEntry → Bool
disjoint t [] = true
disjoint t ((k, v) ∷ es) = not (is_in (lookup t k)) && disjoint t es

disjoint-insert :
    (t : Table) (k : Bytes) (v : Option Bytes) (es : List StateEntry)
    → disjoint ((k, v) ∷ t) es ≡ (disjoint t es && not (has_key es k))
unfolding disjoint has_key lookup
disjoint-insert t k v [] = refl
disjoint-insert t k v ((j, x) ∷ es) =
    ground (arith, disjoint-insert t k v es, streq_iff j k, streq_iff k j)

found-absent :
    (es : List StateEntry) (key : Bytes) (old : Outcome Bytes)
    → has_key es key ≡ false
    → found es key old ≡ old
unfolding found has_key
found-absent [] key old h = refl
found-absent ((k, v) ∷ es) key old h = ground (arith, found-absent es key old)

found-first :
    (es : List StateEntry) (k v key : Bytes) (old : Outcome Bytes)
    → has_key es k ≡ false
    → found es key (if streq k key then ok v else old)
      ≡ (if streq k key then ok v else found es key old)
found-first es k v key old h = elim (Bool-cases (streq k key)) [
  | inl e ↦ rw e (found-absent es key (ok v) (rw (← (streq_iff k key).0 e) h))
  | inr e ↦ rw e refl
]

value_of-insert :
    (t : Table) (k v key : Bytes)
    → value_of (ok ((k, some v) ∷ t)) key ≡ (if streq k key then ok v else value_of (ok t) key)
unfolding lookup
value_of-insert t k v key = ground arith

load-new :
    (t : Table) (k v : Bytes) (es : List StateEntry)
    → lookup t k ≡ none
    → load t ((k, v) ∷ es) ≡ load ((k, some v) ∷ t) es
unfolding load insert
load-new t k v es new = rw (new, insert, load) refl

load-again :
    (t : Table) (k v : Bytes) (es : List StateEntry) (old : Option Bytes)
    → lookup t k ≡ some old
    → load t ((k, v) ∷ es) ≡ fault
unfolding load insert
load-again t k v es old at = rw (at, insert, load) refl

value_of-load :
    (t : Table) (es : List StateEntry) (key : Bytes)
    → value_of (load t es) key
      ≡ (if disjoint t es && distinct es then found es key (value_of (ok t) key) else fault)
unfolding load disjoint distinct found
value_of-load t [] key = refl
value_of-load t ((k, v) ∷ es) key = elim (Option-cases (lookup t k)) [
  | inl new ↦
      ap (λ m. value_of m key) (load-new t k v es new)
      ∙ value_of-load ((k, some v) ∷ t) es key
      ∙ ground (
        arith,
        disjoint-insert t k (some v) es,
        new,
        value_of-insert t k v key,
        found-first es k v key (value_of (ok t) key),
      )
  | inr (old, at) ↦ ap (λ m. value_of m key) (load-again t k v es old at) ∙ ground (arith, at)
]

cons-ne-nil : (c : ℕ) (s : Bytes) → c ∷ s ≢ []
cons-ne-nil c s e = cc e

module _ (g : Glib) (laws : GlibLaws g) where
  parse_pair :
      (t : Table) (c : ℕ) (n v : Bytes)
      → c ≢ b'#'
      → Lacks b'=' (c ∷ n)
      → str_strip g (c ∷ (n ++ (b'=' ∷ v))) ≡ c ∷ (n ++ (b'=' ∷ v))
      → parse_state_stripped g t (str_strip g (c ∷ (n ++ (b'=' ∷ v)))) ≡ insert t (c ∷ n) (some v)
  unfolding parse_line split_pair
  parse_pair t c n v nc h line = ground (arith, line, laws.strsplit_pair b'=' (c ∷ n) v h)

  parse_entry :
      (t : Table) (k v : Bytes)
      → IsStateEntry (k, v)
      → parse_state_stripped g t (str_strip g (k ++ (b'=' ∷ v))) ≡ insert t k (some v)
  parse_entry t [] v p = absurd p.key_starts
  parse_entry t (c ∷ n) v p = parse_pair t c n v p.key_starts.1 p.key_lacks_equals (
      str_strip_plain g laws (c ∷ (n ++ (b'=' ∷ v)))
        (All-append (λ b. b ≢ b'\\') (c ∷ n) (b'=' ∷ v) p.key_lacks_escape
          (omega arith, p.value_lacks_escape))
        (
          p.key_starts.0,
          EndsBare-append (c ∷ n) b'=' v (EndsBare-cons b'=' v equals_bare p.value_ends),
        ))
    where
      equals_bare : isspace b'=' ≡ false
      equals_bare = unfold isspace in refl

  empty_line : (t : Table) → parse_state_stripped g t (str_strip g []) ≡ ok t
  empty_line t = rw (str_strip_plain g laws [] tt (tt, tt)) refl

  read_behind :
      (t : Table) (k v : Bytes) (es : List StateEntry) (l : Bytes) (ls : List Bytes)
      → parse_state_stripped g t (str_strip g l) ≡ insert t k (some v)
      → ((t' : Table) → parse_state_lines g t' ls ≡ load t' es)
      → parse_state_lines g t (l ∷ ls) ≡ load t ((k, v) ∷ es)
  unfolding parse_state_lines load insert
  read_behind t k v es l ls e later = elim (Option-cases (lookup t k)) [
    | inl new ↦ ground (arith, e, new, later ((k, some v) ∷ t))
    | inr (old, at) ↦ ground (arith, e, at)
  ]

  one_empty_line : (t : Table) → parse_state_lines g t (pieces b'\n' []) ≡ ok t
  unfolding pieces parse_state_lines
  one_empty_line t = ground (arith, empty_line t)

  read_lines :
      (t : Table) (es : List StateEntry)
      → All IsStateEntry es
      → parse_state_lines g t (pieces b'\n' (render_state es)) ≡ load t es
  unfolding render_state
  read_lines t [] h = unfold load in one_empty_line t
  read_lines t ((k, v) ∷ es) (p, h) =
      ap (parse_state_lines g t) (
        pieces-append b'\n' (k ++ (b'=' ∷ v)) (render_state es)
          (All-append (λ b. b ≢ b'\n') k (b'=' ∷ v) p.key_line (omega arith, p.value_line)))
      ∙ read_behind t k v es (k ++ (b'=' ∷ v)) (pieces b'\n' (render_state es))
          (parse_entry t k v p) (λ t'. read_lines t' es h)

  split_lines :
      (s : Bytes)
      → parse_state_lines g [] (g.strsplit s (codes "\n") 0)
        ≡ parse_state_lines g [] (pieces b'\n' s)
  split_lines [] =
      ap (parse_state_lines g []) (laws.strsplit_empty b'\n' 0)
      ∙ unfold parse_state_lines in sym (one_empty_line [])
  split_lines (c ∷ s) = rw (laws.strsplit_all b'\n' (c ∷ s) (cons-ne-nil c s))

  disjoint-empty : (es : List StateEntry) → disjoint [] es ≡ true
  unfolding disjoint lookup
  disjoint-empty [] = refl
  disjoint-empty ((k, v) ∷ es) = disjoint-empty es

  -- Of the lines `KEY=VALUE` of state entries, with no key twice, `parse_state_file` reads the value
  -- of each key and finds no other; where a key comes twice, it frees the key twice.
  pub parse_state_contents-render_state :
      (es : List StateEntry) (key : Bytes)
      → All IsStateEntry es
      → parse_state_contents g (render_state es) key
        ≡ (if distinct es then found es key (err enoent) else fault)
  unfolding parse_state_contents lookup
  parse_state_contents-render_state es key h =
      ap (λ m. value_of m key) (split_lines (render_state es) ∙ read_lines [] es h)
      ∙ value_of-load [] es key
      ∙ ap (λ b. if b && distinct es then found es key (err enoent) else fault) (disjoint-empty es)
