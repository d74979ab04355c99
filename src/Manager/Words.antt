-- ===== src/Manager/Words.antt =====
-- The words for modes in [Network], which `manager_set_ipv4` and `manager_set_ipv6` write, and what they
-- are read as.
use network_config_manager.Base.{
  ℕ, ◌≡◌, refl, ap, sym, ◌∙◌, Bool, true, false, inl, inr, [], Bytes, codes, Option, none, some,
  if◌then◌else◌, Lacks, arith,
}
use network_config_manager.CLib.{isspace}
use network_config_manager.CLib.Strtol.{Long}
use network_config_manager.Outcome.{Outcome, ok, err, fault}
use network_config_manager.KeyFile.Printable.{IsPlain, StartsKey}
use network_config_manager.KeyFile.Stays.{IsPrintableEdit}
use network_config_manager.EnumTable.{Enum, enum_of_name}
use network_config_manager.EnumTable.Network.{dhcp_client_mode_table, link_local_address_type}
use network_config_manager.EnumTable.Laws.{enum_of_name-FirstEntry_or_err}
use network_config_manager.Settings.{unset, is_positive}
use network_config_manager.Manager.Families.{
  Mode, Family, FamilyConf, is_zero, is_mode, is_mode_or_invalid, switched,
}
use network_config_manager.Manager.Switches.{mode_after}
use network_config_manager.Manager.Modes.{Writes, over}

abbrev pub network : Bytes
network = codes "Network"

abbrev pub dhcp : Bytes
dhcp = codes "DHCP"

abbrev pub lla : Bytes
lla = codes "LinkLocalAddressing"

-- The mode that a text is read as; `none` is the invalid one.
abbrev pub as_mode : Outcome ℕ → Outcome Mode
as_mode (ok n) = ok (some n)
as_mode (err n) = ok none
as_mode fault = fault

abbrev pub mode_read : Enum → Outcome Bytes → Outcome Mode
mode_read e (ok x) = as_mode (enum_of_name e x)
mode_read e (err n) = ok none
mode_read e fault = fault

printable :
    (k x : Bytes) → IsPlain k → StartsKey k → Lacks b'=' k → IsPlain x → IsPrintableEdit network k x
unfolding isspace
printable k x p s l v = record {
  key_printable = record {
    name_plain = p;
    name_starts = s;
    name_lacks = l;
    value = x;
    value_is = refl;
    value_plain = v;
  };
  section_printable = record {
    name_one_line = omega arith;
    name_lacks_escape = omega arith;
    name_lacks_bracket = omega arith;
    name_fits = omega arith;
    keys_printable = tt;
  };
}

-- A key with which each word for a mode can be written.
pub record Worded (k : Bytes) : Type 0 where
  pub yes : IsPrintableEdit network k (codes "yes")
  pub no : IsPrintableEdit network k (codes "no")
  pub ipv4 : IsPrintableEdit network k (codes "ipv4")
  pub ipv6 : IsPrintableEdit network k (codes "ipv6")

worded : (k : Bytes) → IsPlain k → StartsKey k → Lacks b'=' k → Worded k
unfolding isspace
worded k p s l = record {
  yes = printable k (codes "yes") p s l (omega arith, omega arith, (refl, refl));
  no = printable k (codes "no") p s l (omega arith, omega arith, (refl, refl));
  ipv4 = printable k (codes "ipv4") p s l (omega arith, omega arith, (refl, refl));
  ipv6 = printable k (codes "ipv6") p s l (omega arith, omega arith, (refl, refl));
}

pub dhcp-Worded : Worded dhcp
unfolding isspace
dhcp-Worded =
    worded dhcp (omega arith, omega arith, (refl, refl)) (omega arith, omega arith, omega arith)
      (omega arith)

abbrev pub accept_ra : Bytes
accept_ra = codes "IPv6AcceptRA"

pub accept_ra-Worded : Worded accept_ra
unfolding isspace
accept_ra-Worded =
    worded accept_ra (omega arith, omega arith, (refl, refl))
      (omega arith, omega arith, omega arith) (omega arith)

pub lla-Worded : Worded lla
unfolding isspace
lla-Worded =
    worded lla (omega arith, omega arith, (refl, refl)) (omega arith, omega arith, omega arith)
      (omega arith)

pub if-Writes :
    (k : Bytes) (b : Bool) (x y : Option Bytes)
    → Writes k x
    → Writes k y
    → Writes k (if b then x else y)
if-Writes k true x y p q = p
if-Writes k false x y p q = q

pub switched-Writes :
    (k : Bytes) (f : Family) (v : Long) (m : Mode)
    → Worded k
    → IsPrintableEdit network k f.own_name
    → IsPrintableEdit network k f.other_name
    → Writes k (switched f v m)
unfolding switched
switched-Writes k f v m w own other =
    if-Writes k (is_positive v) _ _
      (if-Writes k (is_mode_or_invalid 0 m) (some f.own_name) _ own
        (if-Writes k (is_mode f.other_mode m) (some (codes "yes")) none w.yes tt))
      (if-Writes k (is_zero v) _ none
        (if-Writes k (is_mode 1 m) (some f.other_name) _ other
          (if-Writes k (is_mode_or_invalid f.last_mode m) (some (codes "no")) none w.no tt))
        tt)

-- A table whose search is safe reads every text as a mode.
abbrev pub IsSafe : Enum → Type 0
IsSafe e =
    (x : Bytes)
    → (m : Mode) × (as_mode (enum_of_name e x) ≡ ok m) × (mode_after e (some x) none ≡ m)

pub dhcp-IsSafe : IsSafe dhcp_client_mode_table
dhcp-IsSafe x = elim (enum_of_name-FirstEntry_or_err 3 dhcp_client_mode_table x refl) [
  | inl (i, e, h) ↦ (some i, rw e refl, rw e refl)
  | inr (e, h) ↦ (none, rw e refl, rw e refl)
]

pub lla-IsSafe : IsSafe link_local_address_type
lla-IsSafe x = elim (enum_of_name-FirstEntry_or_err 7 link_local_address_type x refl) [
  | inl (i, e, h) ↦ (some i, rw e refl, rw e refl)
  | inr (e, h) ↦ (none, rw e refl, rw e refl)
]

pub mode_read-over :
    (e : Enum) (o : Option Bytes) (old : Outcome Bytes) (m : Mode)
    → IsSafe e
    → mode_read e old ≡ ok m
    → mode_read e (over o true old) ≡ ok (mode_after e o m)
mode_read-over e none old m safe h = h
mode_read-over e (some x) old m safe h = let (n, read, after) = safe x in read ∙ ap ok (sym after)

pub over-false : (o : Option Bytes) (old : Outcome Bytes) → over o false old ≡ old
over-false none old = refl
over-false (some x) old = refl

-- The arguments that set the modes alone.
abbrev pub modes_only : Long → Long → FamilyConf
modes_only v w = record {
  dhcp = v;
  lla = w;
  addrs = [];
  gateway = none;
  dns = none;
  domains = none;
  use_dns = unset;
  use_domains = unset;
  send_release = unset;
}
