-- ===== src/EnumTable/NetworkUtil.antt =====
-- The tables of `src/share/network-util.c`.
use network_config_manager.Base.{false, [], ◌∷◌, codes, some}
use network_config_manager.EnumTable.{Enum, Names, enum}

abbrev pub address_family_names : Names
address_family_names =
    some (codes "no") ∷ some (codes "ipv4") ∷ some (codes "ipv6") ∷ some (codes "yes") ∷ []

abbrev pub address_family_table : Enum
address_family_table = enum address_family_names 0 false

abbrev pub required_address_family_for_online_names : Names
required_address_family_for_online_names =
    some (codes "ipv4") ∷ some (codes "ipv6") ∷ some (codes "both") ∷ some (codes "any") ∷ []

-- Its `..._to_name` returns an element of `address_family_table`.
abbrev pub required_address_family_for_online_table : Enum
required_address_family_for_online_table = record {
  bound = 4;
  named = address_family_names;
  first = 0;
  stop = 4;
  searched = required_address_family_for_online_names;
  skips_null = false;
}

abbrev pub device_activation_policy_names : Names
device_activation_policy_names =
    some (codes "up")
    ∷ some (codes "always-up")
    ∷ some (codes "manual")
    ∷ some (codes "always-down")
    ∷ some (codes "down")
    ∷ some (codes "bound")
    ∷ []

-- Its `..._to_name` returns an element of `address_family_table`.
abbrev pub device_activation_policy_table : Enum
device_activation_policy_table = record {
  bound = 6;
  named = address_family_names;
  first = 0;
  stop = 6;
  searched = device_activation_policy_names;
  skips_null = false;
}
