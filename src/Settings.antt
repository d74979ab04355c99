-- ===== src/Settings.antt =====
-- A run of settings that a function writes one after the other into a key file in memory, by
-- `key_file_set_str`, `set_config_uint` and `key_file_set_uint` of `src/share/config-file.c`.
pub mod Overlay
pub mod Table
use network_config_manager.Base.{
  ℕ, ◌%◌, ◌^◌, Bool, true, false, not, ◌&&◌, ◌||◌, List, [], ◌∷◌, ◌++◌, Bytes, codes, Option, none,
  some, leb, ltb, ◌==◌, if◌then◌else◌,
}
use network_config_manager.CLib.Decimal.{print_uint}
use network_config_manager.CLib.Strtol.{Long}
use network_config_manager.Outcome.{Outcome, ok, err, fault}
use network_config_manager.StringUtil.{bool_to_str}
use network_config_manager.KeyFile.{KeyFile, set_config, Section, key_new}
use network_config_manager.KeyFile.Numbers.{print_int, set_config_uint, key_file_set_str}
use network_config_manager.ConfFile.{Files, Call, ◌>>=◌, pure, set_file_permisssion, networkd_user}

-- The function that writes the value, and its argument: `text` for `set_config` and
-- `key_file_set_str`, where NULL is `none`; `number` for `set_config_uint`; `counted` for
-- `key_file_set_uint`. A text may come from a table, and be a read outside it.
pub data Value : Type 0 where
  text : Outcome (Option Bytes) → Value
  number : ℕ → Value
  counted : ℕ → Value

pub record Setting : Type 0 where
  pub section : Bytes
  pub key : Bytes
  pub value : Value

-- What is done where a condition holds.
abbrev pub when {ℓ} : {A : Type ℓ} → Bool → List A → List A
when true ss = ss
when false ss = []

-- The tests on an `int`.
abbrev pub is_negative : Long → Bool
is_negative v = v.neg && leb 1 v.size

abbrev pub is_set : Long → Bool
is_set v = not (is_negative v)

abbrev pub is_positive : Long → Bool
is_positive v = not v.neg && leb 1 v.size

abbrev pub is_true : Long → Bool
is_true v = leb 1 v.size

-- Whether it is an enumeration's -EINVAL.
abbrev pub is_invalid : Long → Bool
is_invalid v = v.neg && v.size == 22

abbrev pub unset : Long
unset = record { neg = true; size = 1 }

abbrev pub invalid : Long
invalid = record { neg = true; size = 22 }

module _ (section : Bytes) (key : Bytes) where
  abbrev pub setting : Value → List Setting
  setting v = record { section = section; key = key; value = v } ∷ []

  abbrev pub set_str : Bytes → List Setting
  set_str x = setting (text (ok (some x)))

  -- `if (v) set_config(…, v)`
  abbrev pub if_str : Option Bytes → List Setting
  if_str none = []
  if_str (some x) = set_str x

  abbrev pub set_bool : Long → List Setting
  set_bool v = set_str (bool_to_str (is_true v))

  -- `if (v >= 0) set_config(…, bool_to_str(v))`
  abbrev pub if_bool : Long → List Setting
  if_bool v = when (is_set v) (set_bool v)

  -- `if (v >= 0) set_config(…, bool_to_str(!v))`
  abbrev pub if_not_bool : Long → List Setting
  if_not_bool v = when (is_set v) (set_str (bool_to_str (not (is_true v))))

  -- `if (v > 0) set_config_uint(…, v)`
  abbrev pub if_uint : ℕ → List Setting
  if_uint v = when (leb 1 v) (setting (number v))

  -- `if (v > 0) key_file_set_uint(…, v)`
  abbrev pub if_counted : ℕ → List Setting
  if_counted v = when (leb 1 v) (setting (counted v))

  -- `if (v != INVALID) set_config(…, to_name(v))`
  abbrev pub if_valid : Long → Outcome (Option Bytes) → List Setting
  if_valid v name = when (not (is_invalid v)) (setting (text name))

-- The text that a value becomes. An argument of type `uint` is cut to 32 bits.
abbrev pub value_text : Value → Outcome (Option Bytes)
value_text (text x) = x
value_text (number v) = ok (some (print_int (v % 2 ^ 32)))
value_text (counted v) = ok (some (print_uint (v % 2 ^ 32)))

-- `"%s "` for each, in one text.
unfoldable pub spaced : List Bytes → Bytes
spaced [] = []
spaced (x ∷ xs) = x ++ (b' ' ∷ spaced xs)

module _ (fs : Files) where
  -- `key_file_set_uint` gives the file to the user of networkd.
  abbrev pub owner_of : Value → KeyFile → Call fs (Unit {0})
  owner_of (text x) kf st = (ok tt, st)
  owner_of (number v) kf st = (ok tt, st)
  owner_of (counted v) kf st = set_file_permisssion fs kf.name (networkd_user fs) st

  unfoldable pub write_setting : KeyFile → Setting → Call fs KeyFile
  write_setting kf s = ◌>>=◌ fs (pure fs (value_text s.value)) λ x.
      ◌>>=◌ fs (pure fs (set_config kf s.section s.key x))
        λ kf'. ◌>>=◌ fs (owner_of s.value kf') λ _. pure fs (ok kf')

  unfoldable pub write_settings : KeyFile → List Setting → Call fs KeyFile
  write_settings kf [] = pure fs (ok kf)
  write_settings kf (s ∷ ss) = ◌>>=◌ fs (write_setting kf s) λ kf'. write_settings kf' ss
