-- ===== src/EnumTable.antt =====
-- The `..._to_name` and `..._name_to_...` pairs on a table of names. A pair has the shape below and
-- differs in the table and the bounds that it names; `dhcp_name_to_client` and `link_name_to_state`
-- go on behind the loop in their own way.
pub mod Network
pub mod NetworkUtil
pub mod Route
pub mod Link
pub mod SrIov
pub mod Nftables
pub mod NetDev
pub mod Dracut
pub mod Tables
pub mod Laws
pub mod Search
pub mod Faults
mod Tests
mod Witnesses
use network_config_manager.Base.{
  ℕ, zero, suc, ◌+◌, ◌-◌, Bool, true, false, ◌&&◌, List, [], ◌∷◌, ◌++◌, Bytes, codes, Option, none,
  some, length, leb, get_elem?, if◌then◌else◌,
}
use network_config_manager.CLib.{streq_fold}
use network_config_manager.CLib.Strtol.{Long}
use network_config_manager.Outcome.{Outcome, ok, err, fault, einval}

-- The entries of an array, an entry without initializer being NULL.
abbrev pub Names : Type 0
Names = List (Option Bytes)

-- The bound and the array of `..._to_name`, and the start, bound and array of the loop of
-- `..._name_to_...`, with whether the loop tests an entry for NULL before it compares it.
pub record Enum : Type 0 where
  pub bound : ℕ
  pub named : Names
  pub first : ℕ
  pub stop : ℕ
  pub searched : Names
  pub skips_null : Bool

-- Both functions on one array, as long as its initializer.
abbrev pub enum : Names → ℕ → Bool → Enum
enum names first skips = record {
  bound = length names;
  named = names;
  first = first;
  stop = length names;
  searched = names;
  skips_null = skips;
}

abbrev pub gap : ℕ → Names
gap zero = []
gap (suc n) = none ∷ gap n

abbrev pub entry : Option (Option Bytes) → Outcome (Option Bytes)
entry none = fault
entry (some e) = ok e

-- `id` is an `int`; the result `none` is NULL, and an element outside the array is a fault.
unfoldable pub enum_to_name : Enum → Long → Outcome (Option Bytes)
enum_to_name e id =
    if id.neg && leb 1 id.size
    then ok none
    else if leb e.bound id.size
    then ok none
    else entry (get_elem? e.named id.size)

-- The rounds of the loop that are left, from `i` on, with what they come to.
unfoldable pub search_from : Enum → Bytes → ℕ → ℕ → Outcome ℕ
search_from e name zero i = err einval
search_from e name (suc rounds) i =
    let rest = search_from e name rounds (suc i) in
    elim (get_elem? e.searched i) [
      | none ↦ fault
      | some none ↦ if e.skips_null then rest else fault
      | some (some s) ↦ if streq_fold name s then ok i else rest
    ]

unfoldable pub enum_of_name : Enum → Bytes → Outcome ℕ
enum_of_name e name = search_from e name (e.stop - e.first) e.first
