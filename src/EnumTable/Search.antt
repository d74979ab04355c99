-- ===== src/EnumTable/Search.antt =====
-- What the loop of a `..._name_to_...` finds.
use network_config_manager.Base.{
  ℕ, zero, suc, ◌+◌, ◌≤◌, ◌<◌, ◌≡◌, refl, Bool, true, false, not, ◌&&◌, Bytes, none, some,
  get_elem?, Bool-cases, Option-cases, inl, inr, arith,
}
use network_config_manager.CLib.{streq_fold}
use network_config_manager.Outcome.{ok, err, einval}
use network_config_manager.EnumTable.{Enum, Names, search_from}
use network_config_manager.ParseUtil.Booleans.{streq_fold_congr}

-- Whether `name` is the entry at `i`, up to case.
abbrev pub is_entry : Names → Bytes → ℕ → Bool
is_entry names name i = elim (get_elem? names i) [
  | none ↦ false
  | some none ↦ false
  | some (some s) ↦ streq_fold name s
]

-- Whether it is none of the `rounds` entries from `i` on.
unfoldable pub lacks_from : Names → Bytes → ℕ → ℕ → Bool
lacks_from names name zero i = true
lacks_from names name (suc rounds) i =
    not (is_entry names name i) && lacks_from names name rounds (suc i)

-- Whether the loop may read and compare these entries.
unfoldable pub readable : Enum → ℕ → ℕ → Bool
readable e zero i = true
readable e (suc rounds) i =
    elim (get_elem? e.searched i) [ none ↦ false | some none ↦ e.skips_null | some (some s) ↦ true ]
    && readable e rounds (suc i)

pub search_from-is_entry :
    (e : Enum) (name : Bytes) (rounds i j : ℕ)
    → search_from e name rounds i ≡ ok j
    → (i ≤ j) × (j < i + rounds) × (is_entry e.searched name j ≡ true)
unfolding search_from
search_from-is_entry e name zero i j h = cc
search_from-is_entry e name (suc rounds) i j h =
    ground (arith, search_from-is_entry e name rounds (suc i) j)

-- The entries before the one that is found are others.
pub search_from-first :
    (e : Enum) (name : Bytes) (rounds i j : ℕ)
    → search_from e name rounds i ≡ ok (i + j)
    → lacks_from e.searched name j i ≡ true
unfolding search_from lacks_from
search_from-first e name zero i j h = cc
search_from-first e name (suc rounds) i zero h = refl
search_from-first e name (suc rounds) i (suc j) h =
    ground (arith, search_from-first e name rounds (suc i) j)

pub search_from-lacks :
    (e : Enum) (name : Bytes) (rounds i : ℕ)
    → readable e rounds i ≡ true
    → lacks_from e.searched name rounds i ≡ true
    → search_from e name rounds i ≡ err einval
unfolding search_from lacks_from readable
search_from-lacks e name zero i r h = refl
search_from-lacks e name (suc rounds) i r h =
    ground (arith, search_from-lacks e name rounds (suc i))

pub search_from-finds :
    (e : Enum) (name : Bytes) (rounds i : ℕ)
    → readable e rounds i ≡ true
    → lacks_from e.searched name rounds i ≡ false
    → (j : ℕ) × (search_from e name rounds i ≡ ok (i + j))
unfolding search_from lacks_from readable
search_from-finds e name zero i r h = cc
search_from-finds e name (suc rounds) i r h = elim (Bool-cases (is_entry e.searched name i)) [
  | inl here ↦ (0, ground arith)
  | inr there ↦
      let (j, found) = search_from-finds e name rounds (suc i) (ground arith) (ground arith) in
      (suc j, ground arith)
]

pub search_from-streq_fold :
    (e : Enum) (v w : Bytes) (rounds i : ℕ)
    → streq_fold v w ≡ true
    → search_from e v rounds i ≡ search_from e w rounds i
unfolding search_from
search_from-streq_fold e v w zero i h = refl
search_from-streq_fold e v w (suc rounds) i h = elim (Option-cases (get_elem? e.searched i)) [
  | inl out ↦ ground arith
  | inr (none, at) ↦ ground (arith, search_from-streq_fold e v w rounds (suc i))
  | inr (some s, at) ↦
      ground (arith, streq_fold_congr v w s, search_from-streq_fold e v w rounds (suc i))
]
