-- ===== src/EnumTable/Laws.antt =====
-- What the two functions on a table promise.
use mathlib.Core.Path.{subst}
use network_config_manager.Base.{
  ℕ, zero, suc, ◌+◌, ◌-◌, ◌≤◌, ◌<◌, ◌≡◌, refl, Bool, true, false, ◌&&◌, ◌||◌, List, [], ◌∷◌, Bytes,
  Option, none, some, get_elem?, Bool-cases, Option-cases, inl, inr, ◌⊎◌, arith, leb, ltb, ◌==◌,
  length,
}
use network_config_manager.CLib.{streq_fold}
use network_config_manager.CLib.Strtol.{Long}
use network_config_manager.Outcome.{Outcome, ok, err, fault, einval}
use network_config_manager.EnumTable.{Enum, Names, enum_to_name, search_from, enum_of_name}
use network_config_manager.EnumTable.Search.{
  is_entry, lacks_from, readable, search_from-is_entry, search_from-first, search_from-lacks,
  search_from-finds, search_from-streq_fold,
}
use network_config_manager.EnumTable.Tables.{tables, searched_tables}

abbrev is_number : Outcome ℕ → ℕ → Bool
is_number (ok j) i = i == j
is_number (err n) i = false
is_number fault i = false

-- Whether each name from `i` on, in front of which `k` others stand, is read as its number.
unfoldable reads_back : Enum → Names → ℕ → Bool
reads_back e [] i = true
reads_back e (none ∷ names) i = reads_back e names (suc i)
reads_back e (some s ∷ names) i =
    (ltb i e.first || is_number (enum_of_name e s) i) && reads_back e names (suc i)

abbrev agrees : Enum → Bool
agrees e = reads_back e e.named 0

abbrev is_readable : Enum → Bool
is_readable e = readable e (e.stop - e.first) e.first

abbrev is_bounded : Enum → Bool
is_bounded e = leb e.bound (length e.named)

unfoldable all_of : (Enum → Bool) → List Enum → Bool
all_of p [] = true
all_of p (e ∷ es) = p e && all_of p es

tables-agree : all_of agrees tables ≡ true
unfolding all_of reads_back enum_of_name search_from streq_fold
tables-agree = refl

searched_tables-readable : all_of is_readable searched_tables ≡ true
unfolding all_of readable
searched_tables-readable = refl

all_of-get_elem :
    (p : Enum → Bool) (es : List Enum) (t : ℕ) (e : Enum)
    → all_of p es ≡ true
    → get_elem? es t ≡ some e
    → p e ≡ true
unfolding all_of
all_of-get_elem p [] t e h at = cc
all_of-get_elem p (d ∷ es) zero e h at = ground (arith)
all_of-get_elem p (d ∷ es) (suc t) e h at = all_of-get_elem p es t e (ground arith) at

suc_add : (k i : ℕ) → suc k + i ≡ k + suc i
suc_add k i = omega arith

zero_add : (i : ℕ) → 0 + i ≡ i
zero_add i = omega arith

is_number-ok : (r : Outcome ℕ) (i : ℕ) → is_number r i ≡ true → r ≡ ok i
is_number-ok (ok j) i h = ground arith
is_number-ok (err n) i h = cc
is_number-ok fault i h = cc

reads_back-enum_of_name :
    (e : Enum) (names : Names) (i k : ℕ) (s : Bytes)
    → reads_back e names k ≡ true
    → e.first ≤ k + i
    → get_elem? names i ≡ some (some s)
    → enum_of_name e s ≡ ok (k + i)
unfolding reads_back
reads_back-enum_of_name e [] i k s h le at = cc
reads_back-enum_of_name e (none ∷ names) zero k s h le at = cc
reads_back-enum_of_name e (none ∷ names) (suc i) k s h le at =
    subst (λ n. enum_of_name e s ≡ ok n) (suc_add k i)
      (reads_back-enum_of_name e names i (suc k) s h (omega arith) at)
reads_back-enum_of_name e (some x ∷ names) zero k s h le at =
    ground (arith, is_number-ok (enum_of_name e s) k)
reads_back-enum_of_name e (some x ∷ names) (suc i) k s h le at =
    subst (λ n. enum_of_name e s ≡ ok n) (suc_add k i)
      (reads_back-enum_of_name e names i (suc k) s (ground arith) (omega arith) at)

to_name-get_elem :
    (e : Enum) (i : ℕ) (s : Bytes)
    → enum_to_name e (record { neg = false; size = i }) ≡ ok (some s)
    → get_elem? e.named i ≡ some (some s)
unfolding enum_to_name
to_name-get_elem e i s h = elim (Option-cases (get_elem? e.named i)) [
  | inl out ↦ ground arith
  | inr (x, at) ↦ ground arith
]

-- In each table of `tables`, which are those with both functions other than the five that its comment
-- names, a number from the first of the loop on that has a name is what its name is read as. Of
-- `dhcp_client_kind_table` it is the loop with which `dhcp_name_to_client` begins.
pub enum_of_name-to_name :
    (t : ℕ) (e : Enum) (i : ℕ) (s : Bytes)
    → get_elem? tables t ≡ some e
    → e.first ≤ i
    → enum_to_name e (record { neg = false; size = i }) ≡ ok (some s)
    → enum_of_name e s ≡ ok i
enum_of_name-to_name t e i s at le h =
    subst (λ n. enum_of_name e s ≡ ok n) (zero_add i)
      (reads_back-enum_of_name e e.named i 0 s (all_of-get_elem agrees tables t e tables-agree at)
        (omega arith) (to_name-get_elem e i s h))

-- `name` is the entry at `i`, and no entry that the loop reads before it.
pub record FirstEntry (e : Enum) (name : Bytes) (i : ℕ) : Type 0 where
  pub from_first : e.first ≤ i
  pub below_stop : i < e.stop
  pub stands : is_entry e.searched name i ≡ true
  pub others : lacks_from e.searched name (i - e.first) e.first ≡ true

enum_of_name-FirstEntry :
    (e : Enum) (name : Bytes) (i : ℕ)
    → enum_of_name e name ≡ ok (e.first + i)
    → FirstEntry e name (e.first + i)
unfolding enum_of_name
enum_of_name-FirstEntry e name i h =
    let (le, lt, here) = search_from-is_entry e name (e.stop - e.first) e.first (e.first + i) h in
    record {
      from_first = le;
      below_stop = omega arith;
      stands = here;
      others = grind (arith, search_from-first e name (e.stop - e.first) e.first i h);
    }

-- In each table of `searched_tables`, which are those with a function from a name other than
-- `link_states_table`, `ipv6_privacy_extensions_type` and `dracut_to_networkd_dhcp_mode_table`, every
-- text is read as the number of the first entry that it equals up to case, or, where it is none of
-- them, refused with -EINVAL. Of `dhcp_client_kind_table` it is the loop with which
-- `dhcp_name_to_client` begins.
pub enum_of_name-FirstEntry_or_err :
    (t : ℕ) (e : Enum) (name : Bytes)
    → get_elem? searched_tables t ≡ some e
    → ((i : ℕ) × (enum_of_name e name ≡ ok i) × FirstEntry e name i)
      ⊎ ((enum_of_name e name ≡ err einval)
          × (lacks_from e.searched name (e.stop - e.first) e.first ≡ true))
unfolding enum_of_name
enum_of_name-FirstEntry_or_err t e name at =
    let rounds = e.stop - e.first in
    let safe = all_of-get_elem is_readable searched_tables t e searched_tables-readable at in
    elim (Bool-cases (lacks_from e.searched name rounds e.first)) [
      | inl lacks ↦ inr (search_from-lacks e name rounds e.first safe lacks, lacks)
      | inr has ↦
          let (j, found) = search_from-finds e name rounds e.first safe has in
          inl (e.first + j, found, enum_of_name-FirstEntry e name j found)
    ]

get_elem-below :
    (names : Names) (n : ℕ) → n < length names → (o : Option Bytes) × (get_elem? names n ≡ some o)
get_elem-below [] n lt = absurd (omega arith)
get_elem-below (x ∷ names) zero lt = (x, refl)
get_elem-below (x ∷ names) (suc n) lt = get_elem-below names n (omega arith)

pub to_name-bounded :
    (e : Enum) (id : Long)
    → leb e.bound (length e.named) ≡ true
    → (o : Option Bytes) × (enum_to_name e id ≡ ok o)
unfolding enum_to_name
to_name-bounded e id h = elim (Option-cases (get_elem? e.named id.size)) [
  | inl out ↦ (none, ground (arith, get_elem-below e.named id.size))
  | inr (o, at) ↦ elim (Bool-cases ((id.neg && leb 1 id.size) || leb e.bound id.size)) [
    | inl outside ↦ (none, ground arith)
    | inr inside ↦ (o, ground arith)
  ]
]

-- Texts that differ only in case are read alike, whatever the table.
pub enum_of_name-streq_fold :
    (e : Enum) (v w : Bytes) → streq_fold v w ≡ true → enum_of_name e v ≡ enum_of_name e w
unfolding enum_of_name
enum_of_name-streq_fold e v w h = search_from-streq_fold e v w (e.stop - e.first) e.first h
