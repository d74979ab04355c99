-- ===== src/ConfFile.antt =====
-- The functions of `src/share/config-file.c` and `src/share/config-parser.c` that take a path: they
-- read the file, edit it in memory, write it and set its owner. `src/share/file-util.c` gives the last.
pub mod Ctl
pub mod Resolv
pub mod EndToEnd
mod Witnesses
use network_config_manager.Base.{
  ap, ℕ, zero, suc, ◌+◌, ◌≡◌, Bool, true, false, List, [], ◌∷◌, if◌then◌else◌, Bytes, codes, Option,
  none, some,
}
use network_config_manager.CLib.{streq}
use network_config_manager.Glib.{Glib}
use network_config_manager.Outcome.{Outcome, ok, err, fault, enoent}
use network_config_manager.StringUtil.{bool_to_str, isempty}
use network_config_manager.KeyFile.{
  KeyFile, set_config, add_config, add_key_str, key_file_parse_str, key_file_parse_int,
  key_file_config_exists, key_file_config_contains, key_file_config_get,
}
use network_config_manager.KeyFile.Removal.{
  remove_key, remove_key_value, remove_section, remove_section_key_value, remove_section_key,
}
use network_config_manager.KeyFile.Numbers.{print_int}
use network_config_manager.KeyFile.Text.{save_sections, parse_key_file_contents}

-- What the program asks of the system: GLib's file functions, and two of the C library. An
-- `err` is a failure with its error code; for `getpwnam` that is `errno`, and `ok` has the ids.
pub record Files : Type 1 where
  pub State : Type 0
  pub exists : Bytes → State → Bool
  pub get_contents : Bytes → State → Outcome Bytes
  pub set_contents : Bytes → Bytes → State → Outcome (Unit {0}) × State
  pub getpwnam : Bytes → State → Outcome (ℕ × ℕ)
  pub chown : Bytes → ℕ → ℕ → State → Outcome (Unit {0}) × State

module _ (fs : Files) where
  -- A call that may change the files: its result, and the files after it.
  abbrev pub Call : Type 0 → Type 0
  Call A = fs.State → Outcome A × fs.State

  abbrev resume : {A B : Type 0} → (A → Call B) → Outcome A × fs.State → Outcome B × fs.State
  resume f (ok a, st) = f a st
  resume f (err n, st) = (err n, st)
  resume f (fault, st) = (fault, st)

  infixl 5 ◌>>=◌ ◌>>◌
  abbrev pub ◌>>=◌ : {A B : Type 0} → Call A → (A → Call B) → Call B
  ◌>>=◌ m f st = resume f (m st)

  abbrev pub ◌>>◌ : {B : Type 0} → Call (Unit {0}) → Call B → Call B
  m >> k = m >>= λ _. k

  -- A first step that succeeds hands its value and the files on.
  pub bind-ok :
      {A B : Type 0} (m : Call A) (f : A → Call B) (st : fs.State) {a : A} {st' : fs.State}
      → m st ≡ (ok a, st')
      → (m >>= f) st ≡ f a st'
  bind-ok m f st e = ap (resume f) e

  -- A computation that leaves the files alone.
  abbrev pub pure : {A : Type 0} → Outcome A → Call A
  pure r st = (r, st)

  -- `return -errno`: zero is success.
  abbrev negated : ℕ → Outcome (Unit {0})
  negated zero = ok tt
  negated (suc n) = err (suc n)

  unfoldable pub set_file_permisssion : Bytes → Bytes → Call (Unit {0})
  set_file_permisssion path user st = elim (fs.getpwnam user st) [
    | ok (uid, gid) ↦ fs.chown path uid gid st
    | err n ↦ (negated n, st)
    | fault ↦ (fault, st)
  ]

  abbrev pub networkd_user : Bytes
  networkd_user = codes "systemd-network"

  unfoldable pub write_to_conf_file : Bytes → Bytes → Call (Unit {0})
  write_to_conf_file path s = do fs.set_contents path s; set_file_permisssion path networkd_user

  unfoldable pub key_file_save : KeyFile → Call (Unit {0})
  key_file_save kf = do config ← pure (save_sections kf.sections); write_to_conf_file kf.name config

  module _ (g : Glib) where
    unfoldable pub parse_key_file : Bytes → Call KeyFile
    parse_key_file path st =
        if fs.exists path st
        then (do
          contents ← (λ s. pure (fs.get_contents path s) s)
          pure (parse_key_file_contents g path contents))
            st
        else (err enoent, st)

    -- Write the edited key file, and set the owner once more.
    unfoldable pub save_edited : Bytes → Outcome KeyFile → Call (Unit {0})
    save_edited path edited = do
      kf ← pure edited
      key_file_save kf
      set_file_permisssion path networkd_user

    -- Read, edit, write: what the functions below share.
    unfoldable pub edit_file : Bytes → (KeyFile → Outcome KeyFile) → Call (Unit {0})
    edit_file path edit = do kf ← parse_key_file path; save_edited path (edit kf)

    unfoldable pub set_config_file_str : Bytes → Bytes → Bytes → Option Bytes → Call (Unit {0})
    set_config_file_str path section k v = edit_file path (λ kf. set_config kf section k v)

    -- `%i` of an `int`, as its remainder modulo 2^32.
    unfoldable pub set_config_file_int : Bytes → Bytes → Bytes → ℕ → Call (Unit {0})
    set_config_file_int path section k v =
        edit_file path (λ kf. set_config kf section k (some (print_int v)))

    unfoldable pub set_config_file_bool : Bytes → Bytes → Bytes → Bool → Call (Unit {0})
    set_config_file_bool path section k b =
        set_config_file_str path section k (some (bool_to_str b))

    unfoldable pub add_config_file_str : Bytes → Bytes → Bytes → Option Bytes → Call (Unit {0})
    add_config_file_str path section k v = edit_file path (λ kf. ok (add_config kf section k v))

    unfoldable pub add_key_to_section_str : Bytes → Bytes → Bytes → Bytes → Call (Unit {0})
    add_key_to_section_str path section k v = edit_file path (λ kf. ok (add_key_str kf section k v))

    unfoldable pub remove_key_from_config_file : Bytes → Bytes → Bytes → Call (Unit {0})
    remove_key_from_config_file path section k = edit_file path (λ kf. remove_key kf section k)

    unfoldable pub remove_key_value_from_config_file :
        Bytes → Bytes → Bytes → Bytes → Call (Unit {0})
    remove_key_value_from_config_file path section k v =
        edit_file path (λ kf. remove_key_value kf section k v)

    unfoldable pub remove_section_from_config_file : Bytes → Bytes → Call (Unit {0})
    remove_section_from_config_file path section = edit_file path (λ kf. remove_section kf section)

    unfoldable pub remove_section_from_config_file_key_value :
        Bytes → Bytes → Bytes → Bytes → Call (Unit {0})
    remove_section_from_config_file_key_value path section k v =
        edit_file path (λ kf. remove_section_key_value kf section k v)

    unfoldable pub remove_section_from_config_file_key :
        Bytes → Bytes → Bytes → Bool → Call (Unit {0})
    remove_section_from_config_file_key path section k all =
        edit_file path (λ kf. ok (remove_section_key kf section k all))

    unfoldable pub parse_config_file : Bytes → Bytes → Bytes → Call Bytes
    parse_config_file path section k = do
      kf ← parse_key_file path
      pure (key_file_parse_str kf section k)

    unfoldable pub parse_config_file_integer : (Bytes → ℕ) → Bytes → Bytes → Bytes → Call ℕ
    parse_config_file_integer strtoll path section k = do
      kf ← parse_key_file path
      pure (key_file_parse_int strtoll kf section k)

    -- A negative number that a `bool` function returns is `true`.
    abbrev as_bool : Call Bool → Call Bool
    as_bool m st =
        let (r, st') = m st in
        elim r [ ok b ↦ (ok b, st') | err n ↦ (ok true, st') | fault ↦ (fault, st') ]

    unfoldable pub config_exists : Bytes → Bytes → Bytes → Bytes → Call Bool
    config_exists path section k v =
        as_bool (do kf ← parse_key_file path; pure (key_file_config_exists kf section k v))

    unfoldable pub config_contains : Bytes → Bytes → Bytes → Bytes → Call Bool
    config_contains path section k v =
        as_bool (do kf ← parse_key_file path; pure (key_file_config_contains kf section k v))

    abbrev words : Option Bytes → Option (List Bytes)
    words none = none
    words (some s) = if isempty s then none else some (g.strsplit s (codes " ") 0)

    -- `none` is a NULL vector.
    unfoldable pub key_file_parse_strv : Bytes → Bytes → Bytes → Call (Option (List Bytes))
    key_file_parse_strv path section key = do
      kf ← parse_key_file path
      s ← pure (key_file_config_get kf section key)
      pure (ok (words s))
