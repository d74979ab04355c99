-- ===== src/Settings/Table.antt =====
-- Tables of what a file says: for each key of a section its text, where it has one. They are written by
-- the keys of networkd and the fields that decide them, apart from the runs of settings that the
-- program writes, and compared with what a reader finds behind such a run.
use network_config_manager.Base.{
  ℕ, ◌%◌, ◌^◌, ◌≡◌, refl, ap, sym, ◌∙◌, Bool, true, false, not, ◌&&◌, List, [], ◌∷◌, ◌++◌, All,
  Bytes, codes, Option, none, some, leb, if◌then◌else◌,
}
use network_config_manager.CLib.{streq}
use network_config_manager.CLib.Decimal.{print_uint}
use network_config_manager.CLib.Strtol.{Long}
use network_config_manager.Outcome.{Outcome, ok}
use network_config_manager.KeyFile.Numbers.{print_int}
use network_config_manager.StringUtil.{bool_to_str}
use network_config_manager.Settings.{
  value_text, Setting, Value, text, number, counted, when, setting, set_str, if_str, if_bool,
  if_not_bool, if_uint, if_counted, if_valid, is_set, is_true, is_invalid, spaced,
}
use network_config_manager.Settings.Overlay.{overlay, overlay-append, text_or_empty}

pub record Row : Type 0 where
  pub section : Bytes
  pub key : Bytes
  pub value : Option Bytes

abbrev pub row : Bytes → Bytes → Option Bytes → Row
row section key value = record { section = section; key = key; value = value }

abbrev given : Bytes → Bytes → Option Bytes → Bytes → Bytes → Outcome Bytes → Outcome Bytes
given t j none section k old = old
given t j (some x) section k old = if streq t section && streq j k then ok x else old

-- What a reader finds for a key: the last text that a row gives it, or what was there before.
unfoldable pub stated : List Row → Bytes → Bytes → Outcome Bytes → Outcome Bytes
stated [] section k old = old
stated (r ∷ rs) section k old = stated rs section k (given r.section r.key r.value section k old)

-- The texts of the fields.
abbrev pub yes_or_no : Bool → Bytes
yes_or_no true = codes "yes"
yes_or_no false = codes "no"

-- A text where a condition holds.
abbrev pub only : Bool → Bytes → Option Bytes
only true x = some x
only false x = none

-- Of an `int` that is -1, or another negative number, where nobody sets it.
abbrev pub flag : Long → Option Bytes
flag v = only (is_set v) (yes_or_no (leb 1 v.size))

abbrev pub negated : Long → Option Bytes
negated v = only (is_set v) (yes_or_no (not (leb 1 v.size)))

-- Of an enumeration whose number -EINVAL stands for none.
abbrev pub named : Outcome (Option Bytes) → Long → Option Bytes
named name v = only (not (is_invalid v)) (text_or_empty name)

-- Of an `unsigned` number as "%u", and as "%i".
abbrev pub unsigned : ℕ → Bytes
unsigned v = print_uint (v % 2 ^ 32)

abbrev pub signed : ℕ → Bytes
signed v = print_int (v % 2 ^ 32)

-- Of a list, its texts with a space behind each.
abbrev pub listed : Option (List Bytes) → Option Bytes
listed none = none
listed (some xs) = some (spaced xs)

-- A run of settings says what a table says.
pub record Says (ss : List Setting) (rs : List Row) : Type 0 where
  pub reads :
      (section k : Bytes) (old : Outcome Bytes) → overlay ss section k old ≡ stated rs section k old

pub stated-append :
    (rs qs : List Row) (section k : Bytes) (old : Outcome Bytes)
    → stated (rs ++ qs) section k old ≡ stated qs section k (stated rs section k old)
unfolding stated
stated-append [] qs section k old = refl
stated-append (r ∷ rs) qs section k old =
    stated-append rs qs section k (given r.section r.key r.value section k old)

-- A run behind another, and its rows behind those.
infixl 5 ◌also◌
pub ◌also◌ :
    {ss ts : List Setting}
    → {rs qs : List Row} → Says ss rs
    → Says ts qs
    → Says (ss ++ ts) (rs ++ qs)
◌also◌ {ss = ss} {ts = ts} {rs = rs} {qs = qs} p q = record {
  reads = λ section k old.
      overlay-append ss ts section k old
      ∙ ap (overlay ts section k) (p.reads section k old)
      ∙ q.reads section k (stated rs section k old)
      ∙ sym (stated-append rs qs section k old);
}

pub nothing-Says : Says [] []
unfolding overlay stated
nothing-Says = record { reads = λ section k old. refl }

silent_row : (r : Row) → r.value ≡ none → Says [] (r ∷ [])
unfolding overlay stated
silent_row r h = record { reads = λ section k old. rw h refl }

-- Rows without a text say nothing.
pub silent : (rs : List Row) → All (λ r. r.value ≡ none) rs → Says [] rs
silent [] h = nothing-Says
silent (r ∷ rs) (p, h) = silent_row r p also silent rs h

pub only-none : (b : Bool) (x : Bytes) → b ≡ false → only b x ≡ none
only-none b x h = rw h refl

pub bool_text : (b : Bool) → bool_to_str b ≡ yes_or_no b
unfolding bool_to_str
bool_text true = refl
bool_text false = refl

module _ (t j : Bytes) where
  -- A setting that is always written.
  pub always :
      (v : Value) → Says (setting t j v) (row t j (some (text_or_empty (value_text v))) ∷ [])
  unfolding overlay stated
  always v = record { reads = λ section k old. refl }

  pub when-Says :
      (b : Bool) (v : Value)
      → Says (when b (setting t j v)) (row t j (only b (text_or_empty (value_text v))) ∷ [])
  unfolding overlay stated
  when-Says true v = record { reads = λ section k old. refl }
  when-Says false v = record { reads = λ section k old. refl }

  pub if_str-Says : (x : Option Bytes) → Says (if_str t j x) (row t j x ∷ [])
  unfolding overlay stated
  if_str-Says none = record { reads = λ section k old. refl }
  if_str-Says (some x) = record { reads = λ section k old. refl }

  pub when_bool-Says :
      (b c : Bool)
      → Says (when b (set_str t j (bool_to_str c))) (row t j (only b (yes_or_no c)) ∷ [])
  when_bool-Says b c = rw (sym (bool_text c)) (when-Says b (text (ok (some (bool_to_str c)))))

  pub if_bool-Says : (v : Long) → Says (if_bool t j v) (row t j (flag v) ∷ [])
  if_bool-Says v = when_bool-Says (is_set v) (is_true v)

  pub if_not_bool-Says : (v : Long) → Says (if_not_bool t j v) (row t j (negated v) ∷ [])
  if_not_bool-Says v = when_bool-Says (is_set v) (not (is_true v))

  pub if_uint-Says : (v : ℕ) → Says (if_uint t j v) (row t j (only (leb 1 v) (signed v)) ∷ [])
  if_uint-Says v = when-Says (leb 1 v) (number v)

  pub if_counted-Says :
      (v : ℕ) → Says (if_counted t j v) (row t j (only (leb 1 v) (unsigned v)) ∷ [])
  if_counted-Says v = when-Says (leb 1 v) (counted v)

  pub if_valid-Says :
      (v : Long) (name : Outcome (Option Bytes))
      → Says (if_valid t j v name) (row t j (named name v) ∷ [])
  if_valid-Says v name = when-Says (not (is_invalid v)) (text name)
