-- ===== src/ConfFile/Ctl.antt =====
-- The names of the command line for settings: `config_manager_new` and `ctl_to_config` of
-- `src/share/config-file.c`.
use network_config_manager.Base.{List, [], ◌∷◌, Bytes, Option, none, some, if◌then◌else◌}
use network_config_manager.CLib.{streq}

-- The name and the key.
abbrev pub Config : Type 0
Config = Bytes × Bytes

-- `g_hash_table_insert`: the key's old value is replaced.
unfoldable pub insert_config : Bytes → Bytes → List Config → List Config
insert_config name key [] = (name, key) ∷ []
insert_config name key ((n, k) ∷ rest) =
    let later = insert_config name key rest in
    if streq n name then (n, key) ∷ rest else (n, k) ∷ later

unfoldable pub insert_all : List Config → List Config → List Config
insert_all t [] = t
insert_all t ((n, k) ∷ configs) = insert_all (insert_config n k t) configs

unfoldable pub config_manager_new : List Config → List Config
config_manager_new configs = insert_all [] configs

unfoldable pub ctl_to_config : List Config → Bytes → Option Bytes
ctl_to_config [] name = none
ctl_to_config ((n, k) ∷ rest) name =
    let later = ctl_to_config rest name in if streq n name then some k else later
