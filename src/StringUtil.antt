-- ===== src/StringUtil.antt =====
-- `src/share/string-util.c` over texts. A pointer into a text is the pair of what stands before it
-- and what it points to; allocations succeed.
pub mod Strip
pub mod Strv
mod Witnesses
use network_config_manager.Base.{
  ℕ, zero, suc, ◌+◌, ◌-◌, Bool, true, false, ◌&&◌, ◌||◌, List, [], ◌∷◌, leb, ◌==◌, if◌then◌else◌,
  Bytes, codes, Option, none, some, length, take, get_elem?,
}
use network_config_manager.CLib.{isspace, strchr}
use network_config_manager.Glib.{Glib}
use network_config_manager.Outcome.{Outcome, ok, err, fault, einval}

is_space_at : Bytes → ℕ → Bool
is_space_at s p = elim (get_elem? s p) [ none ↦ false | some c ↦ isspace c ]

-- The loop of `rstrip`, by the pointer's distance from the start.
rstrip_from : ℕ → Bytes → Bytes
rstrip_from zero s = s
rstrip_from (suc p) s = if is_space_at s p then rstrip_from p (take p s) else s

unfoldable pub rstrip : Bytes → Bytes
unfolding rstrip_from is_space_at
rstrip s = rstrip_from (length s) s

unfoldable pub lskip : Bytes → Bytes
lskip [] = []
lskip (c ∷ s) = if isspace c then lskip s else c ∷ s

abbrev stops : Option Bytes → ℕ → Bool
stops none c = false
stops (some chars) c = strchr chars c

-- The result is `s` cut at the returned pointer.
unfoldable pub find_chars_or_comment : Bytes → Option Bytes → Bytes × Bytes
find_chars_or_comment [] chars = ([], [])
find_chars_or_comment (c ∷ s) chars =
    let (before, at) = find_chars_or_comment s chars in
    if stops chars c then ([], c ∷ s) else (c ∷ before, at)

copy_rounds : ℕ → Bytes → Bytes
copy_rounds zero src = []
copy_rounds (suc n) [] = []
copy_rounds (suc n) (c ∷ src) = c ∷ copy_rounds n src

-- The text that `dest`, of `size` bytes, holds afterwards.
unfoldable pub string_copy : Bytes → ℕ → Bytes
unfolding copy_rounds
string_copy src size = copy_rounds (size - 1) src

unfoldable pub bool_to_str : Bool → Bytes
bool_to_str x = if x then codes "yes" else codes "no"

abbrev pub isempty : Bytes → Bool
isempty [] = true
isempty (c ∷ s) = false

-- `s[strcspn(s, "\n\r")] = 0`
unfoldable pub truncate_newline : Bytes → Bytes
truncate_newline [] = []
truncate_newline (c ∷ s) = if c == b'\n' || c == b'\r' then [] else c ∷ truncate_newline s

-- The value, or the error that -EINVAL stands for.
unfoldable pub unhexchar : ℕ → Outcome ℕ
unhexchar c =
    if leb b'0' c && leb c b'9'
    then ok (c - b'0')
    else if leb b'a' c && leb c b'f'
    then ok (c - b'a' + 10)
    else if leb b'A' c && leb c b'F'
    then ok (c - b'A' + 10)
    else err einval

-- `x[1]` is NULL behind one piece; behind none it stands outside the vector.
abbrev pair_of : List Bytes → Outcome (Bytes × Option Bytes)
pair_of [] = fault
pair_of (a ∷ []) = ok (a, none)
pair_of (a ∷ b ∷ rest) = ok (a, some b)

module _ (g : Glib) where
  unfoldable pub str_strip : Bytes → Bytes
  str_strip s = g.strstrip (g.strcompress s)

  unfoldable pub split_pair : Bytes → Bytes → Outcome (Bytes × Option Bytes)
  split_pair s sep = if isempty sep then err einval else pair_of (g.strsplit s sep 2)
