-- ===== src/KeyFile/Numbers.antt =====
-- The operations of `src/share/config-file.c` that write a number into a value. An `int` is the
-- remainder of its value modulo 2^32.
use network_config_manager.Base.{ℕ, ◌-◌, ◌^◌, ◌∷◌, Bytes, Option, some, ltb, if◌then◌else◌}
use network_config_manager.CLib.Decimal.{print_uint}
use network_config_manager.Outcome.{Outcome}
use network_config_manager.KeyFile.{Section, KeyFile, add_key_to_section, set_config, add_config}

-- `%i` and `%u` of a 32-bit argument.
unfoldable pub print_int : ℕ → Bytes
print_int v = if ltb v (2 ^ 31) then print_uint v else b'-' ∷ print_uint (2 ^ 32 - v)

unfoldable pub set_config_uint : KeyFile → Bytes → Bytes → ℕ → Outcome KeyFile
set_config_uint kf section k v = set_config kf section k (some (print_int v))

unfoldable pub add_key_to_section_int : Section → Bytes → ℕ → Section
add_key_to_section_int s k v = add_key_to_section s k (some (print_int v))

unfoldable pub add_key_to_section_uint : Section → Bytes → ℕ → Section
add_key_to_section_uint s k v = add_key_to_section s k (some (print_uint v))

unfoldable pub key_file_set_str : KeyFile → Bytes → Bytes → Option Bytes → Outcome KeyFile
key_file_set_str kf section k v = set_config kf section k v

unfoldable pub key_file_add_str : KeyFile → Bytes → Bytes → Option Bytes → KeyFile
key_file_add_str kf section k v = add_config kf section k v
