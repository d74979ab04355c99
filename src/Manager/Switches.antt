-- ===== src/Manager/Switches.antt =====
-- What `manager_set_ipv4` and `manager_set_ipv6` do to the modes of DHCP and of link-local addresses.
use mathlib.Core.Path.{subst, fun_ext}
use network_config_manager.Base.{
  ℕ, ◌≡◌, refl, Bool, true, false, Bytes, codes, Option, none, some, ◌==◌, if◌then◌else◌, arith,
  ◌<◌, ◌||◌, zero, suc, Bool-cases, inl, inr, sym,
}
use network_config_manager.CLib.{streq_fold}
use network_config_manager.CLib.Strtol.{Long}
use network_config_manager.Outcome.{Outcome, ok, err, fault}
use network_config_manager.Settings.{is_set, is_positive}
use network_config_manager.EnumTable.{Enum, enum_of_name, search_from}
use network_config_manager.EnumTable.Network.{dhcp_client_mode_table, link_local_address_type}
use network_config_manager.Manager.Families.{
  Mode, is_mode, is_mode_or_invalid, is_zero, Family, switched, dhcp_of_ipv4, lla_of_ipv4,
  dhcp_of_ipv6, lla_of_ipv6,
}

-- Whether a mode has IPv4 and IPv6.
abbrev pub families : Mode → Bool × Bool
families none = (false, false)
families (some m) = ((m == 1) || (m == 2), (m == 1) || (m == 3))

-- What the table reads the text as that is written, if one is.
abbrev read_mode : Outcome ℕ → Mode
read_mode (ok m) = some m
read_mode (err n) = none
read_mode fault = none

abbrev pub mode_after : Enum → Option Bytes → Mode → Mode
mode_after e none mode = mode
mode_after e (some x) mode = read_mode (enum_of_name e x)

-- `switched` for a family that is turned on or off.
abbrev on_off : Family → Bool → Mode → Option Bytes
on_off f true mode =
    if is_mode_or_invalid 0 mode
    then some f.own_name
    else if is_mode f.other_mode mode
    then some (codes "yes")
    else none
on_off f false mode =
    if is_mode 1 mode
    then some f.other_name
    else if is_mode_or_invalid f.last_mode mode
    then some (codes "no")
    else none

switched-on_off :
    (f : Family) (v : Long) (mode : Mode)
    → is_set v ≡ true
    → switched f v mode ≡ on_off f (is_positive v) mode
unfolding switched
switched-on_off f v mode h = elim (Bool-cases (is_positive v)) [
  | inl above ↦ rw above refl
  | inr below ↦ rw below (rw (nothing below h) refl)
]
  where
    nothing : is_positive v ≡ false → is_set v ≡ true → is_zero v ≡ true
    nothing b h = ground (arith, b, h)

-- The modes that a file has after a family is turned on or off.
abbrev pub Switched : Bool → Mode → (Family → Option Bytes) → Type 0
Switched on mode new =
    (families (mode_after dhcp_client_mode_table (new dhcp_of_ipv4) mode) ≡ (on, (families mode).1))
    × (families (mode_after link_local_address_type (new lla_of_ipv4) mode)
        ≡ (on, (families mode).1))
    × (families (mode_after dhcp_client_mode_table (new dhcp_of_ipv6) mode)
        ≡ ((families mode).0, on))
    × (families (mode_after link_local_address_type (new lla_of_ipv6) mode)
        ≡ (if on then ((families mode).0, true) else (is_mode 1 mode, is_mode 3 mode)))

abbrev pub IsKnown : Mode → Type 0
IsKnown none = Unit
IsKnown (some m) = m < 4

on_off-Switched :
    (on : Bool) (mode : Mode) → IsKnown mode → Switched on mode (λ f. on_off f on mode)
unfolding enum_of_name search_from streq_fold
on_off-Switched true none h = (refl, refl, refl, refl)
on_off-Switched true (some zero) h = (refl, refl, refl, refl)
on_off-Switched true (some (suc zero)) h = (refl, refl, refl, refl)
on_off-Switched true (some (suc (suc zero))) h = (refl, refl, refl, refl)
on_off-Switched true (some (suc (suc (suc zero)))) h = (refl, refl, refl, refl)
on_off-Switched true (some (suc (suc (suc (suc m))))) h = absurd (omega (arith, h))
on_off-Switched false none h = (refl, refl, refl, refl)
on_off-Switched false (some zero) h = (refl, refl, refl, refl)
on_off-Switched false (some (suc zero)) h = (refl, refl, refl, refl)
on_off-Switched false (some (suc (suc zero))) h = (refl, refl, refl, refl)
on_off-Switched false (some (suc (suc (suc zero)))) h = (refl, refl, refl, refl)
on_off-Switched false (some (suc (suc (suc (suc m))))) h = absurd (omega (arith, h))

-- For a number that is set and a mode of the table or an invalid one: DHCP of either family and the
-- link-local addresses of IPv4 are turned on or off as the number says, and the other family stays as
-- it was. The link-local addresses of IPv6 are turned on in the same way; turned off, they stay on in
-- the mode "ipv6", and in the mode "ipv4" those of IPv4 go.
pub switched-Switched :
    (v : Long) (mode : Mode)
    → is_set v ≡ true
    → IsKnown mode
    → Switched (is_positive v) mode (λ f. switched f v mode)
switched-Switched v mode h k =
    subst (Switched (is_positive v) mode) (fun_ext (λ f. sym (switched-on_off f v mode h)))
      (on_off-Switched (is_positive v) mode k)
