-- ===== src/Manager/Families.antt =====
-- `manager_set_ipv4` and `manager_set_ipv6` of `src/manager/network-manager.c`, which configure all of
-- one family.
use network_config_manager.Base.{
  ℕ, Bool, true, false, ◌||◌, List, ◌++◌, Bytes, codes, Option, none, some, ◌==◌, if◌then◌else◌,
}
use network_config_manager.CLib.Strtol.{Long}
use network_config_manager.Glib.{Glib}
use network_config_manager.Outcome.{Outcome, ok, err, fault}
use network_config_manager.Outcome
use network_config_manager.StringUtil.{bool_to_str}
use network_config_manager.KeyFile.{KeyFile, set_config}
use network_config_manager.EnumTable.{enum_to_name}
use network_config_manager.EnumTable.Network.{use_domains_mode_table, dhcp_client_identifier}
use network_config_manager.NetworkUtil.{Inet}
use network_config_manager.NetworkUtil.Names.{IfNameIndex}
use network_config_manager.Settings.{
  Setting, text, when, setting, if_bool, is_set, is_true, is_positive, write_settings,
}
use network_config_manager.ConfFile.{Files, Call, pure, ◌>>=◌, ◌>>◌}
use network_config_manager.Network.{Route}
use network_config_manager.Network.Paths.{System, or_else}
use network_config_manager.Manager.{rewrite_file, kept_or_new}
use network_config_manager.Manager.Setters.{
  manager_acquire_link_dhcp_client_kind, manager_acquire_link_local_addressing_kind,
}
use network_config_manager.Manager.Static.{write_words}
use network_config_manager.Manager.Addresses.{manager_set_gateway}
use network_config_manager.Manager.Removal.{
  manager_replace_link_address_internal, manager_remove_gateway_or_route_full_internal,
}

-- The arguments that both functions have.
pub record FamilyConf : Type 0 where
  pub dhcp : Long
  pub lla : Long
  pub addrs : List Bytes
  pub gateway : Option Route
  pub dns : Option (List Bytes)
  pub domains : Option (List Bytes)
  pub use_dns : Long
  pub use_domains : Long
  pub send_release : Long

-- The mode that the file has: `none` is the invalid one.
abbrev pub Mode : Type 0
Mode = Option ℕ

abbrev pub is_mode : ℕ → Mode → Bool
is_mode n none = false
is_mode n (some m) = m == n

abbrev pub is_mode_or_invalid : ℕ → Mode → Bool
is_mode_or_invalid n none = true
is_mode_or_invalid n (some m) = m == n

abbrev pub no : ℕ
no = 0

abbrev pub yes : ℕ
yes = 1

abbrev ipv4 : ℕ
ipv4 = 2

abbrev pub ipv6 : ℕ
ipv6 = 3

-- What a family is called in the settings of modes, with the mode of the other family and the one that
-- is the last to go when it is turned off.
pub record Family : Type 0 where
  pub own_name : Bytes
  pub other_name : Bytes
  pub other_mode : ℕ
  pub last_mode : ℕ

abbrev pub is_zero : Long → Bool
is_zero v = v.size == 0

-- The new text of the mode, where it changes: the family is turned on or off beside the other.
unfoldable pub switched : Family → Long → Mode → Option Bytes
switched f v mode =
    if is_positive v
    then if is_mode_or_invalid no mode
      then some f.own_name
      else if is_mode f.other_mode mode
      then some (codes "yes")
      else none
    else if is_zero v
    then if is_mode yes mode
      then some f.other_name
      else if is_mode_or_invalid f.last_mode mode
      then some (codes "no")
      else none
    else none

abbrev pub dhcp_of_ipv4 : Family
dhcp_of_ipv4 = record {
  own_name = codes "ipv4";
  other_name = codes "ipv6";
  other_mode = ipv6;
  last_mode = ipv4;
}

abbrev pub lla_of_ipv4 : Family
lla_of_ipv4 = record {
  own_name = codes "ipv4";
  other_name = codes "ipv6";
  other_mode = ipv6;
  last_mode = ipv4;
}

abbrev pub dhcp_of_ipv6 : Family
dhcp_of_ipv6 = record {
  own_name = codes "ipv6";
  other_name = codes "ipv4";
  other_mode = ipv4;
  last_mode = ipv6;
}

-- `manager_set_ipv6` tests for the mode of IPv4 here, as `manager_set_ipv4` does.
abbrev pub lla_of_ipv6 : Family
lla_of_ipv6 = record {
  own_name = codes "ipv6";
  other_name = codes "ipv4";
  other_mode = ipv4;
  last_mode = ipv4;
}

-- `set_config` whose result is not looked at.
unfoldable pub tried : Bytes → Option Bytes → KeyFile → Outcome KeyFile
tried k none kf = ok kf
tried k (some v) kf = elim (set_config kf (codes "Network") k (some v)) [
  | ok kf' ↦ ok kf'
  | err n ↦ ok kf
  | fault ↦ fault
]

abbrev pub if_set : Long → Option Bytes
if_set v = if is_set v then some (bool_to_str (is_true v)) else none

abbrev lla_ipv6 : Long
lla_ipv6 = record { neg = false; size = 3 }

-- DHCPv6 and router advertisements turn the link-local addresses on.
unfoldable pub lla_for_ipv6 : Long → Long → Long → Long
lla_for_ipv6 dhcp accept_ra lla =
    if is_positive dhcp || is_positive accept_ra then lla_ipv6 else lla

unfoldable pub use_settings_of : Bytes → FamilyConf → List Setting
use_settings_of section c =
    when (is_set c.use_domains) (
      setting section (codes "UseDomains")
        (text (enum_to_name use_domains_mode_table c.use_domains)))
    ++ if_bool section (codes "UseDNS") c.use_dns
    ++ if_bool section (codes "SendRelease") c.send_release

unfoldable pub client_id_settings : Long → List Setting
client_id_settings client_id = when (is_set client_id) (
    setting (codes "DHCPv4") (codes "ClientIdentifier")
      (text (enum_to_name dhcp_client_identifier client_id)))

abbrev pub flag_ipv4 : Long
flag_ipv4 = record { neg = false; size = 1 }

abbrev pub flag_ipv6 : Long
flag_ipv6 = record { neg = false; size = 2 }

module _ (inet : Inet) where
  abbrev gateway_of_family : Option Route → Long → KeyFile → Outcome KeyFile
  gateway_of_family none flag kf = manager_remove_gateway_or_route_full_internal inet true flag kf
  gateway_of_family (some rt) flag kf = manager_set_gateway inet rt kf

  -- The addresses and the gateway of the family are replaced, or removed where there are none.
  unfoldable pub replace_family : FamilyConf → Long → KeyFile → Outcome KeyFile
  replace_family c flag kf =
      Outcome.◌>>=◌ (manager_replace_link_address_internal inet c.addrs flag kf)
        (gateway_of_family c.gateway flag)

  module _ (fs : Files) (sys : System fs) (g : Glib) where
    abbrev pub acquired : Call fs ℕ → Call fs Mode
    acquired m = or_else fs m (λ n. pure fs (ok (some n))) (pure fs (ok none))

    abbrev pub switch_dhcp : IfNameIndex → Family → Long → KeyFile → Call fs KeyFile
    switch_dhcp p f v kf =
        ◌>>=◌ fs (acquired (manager_acquire_link_dhcp_client_kind fs g p))
          λ mode. pure fs (tried (codes "DHCP") (switched f v mode) kf)

    abbrev pub switch_lla : IfNameIndex → Family → Long → KeyFile → Call fs KeyFile
    switch_lla p f v kf =
        ◌>>=◌ fs (acquired (manager_acquire_link_local_addressing_kind fs g p))
          λ mode. pure fs (tried (codes "LinkLocalAddressing") (switched f v mode) kf)

    -- Servers, domains, settings, addresses and the gateway.
    unfoldable pub write_family :
        Bool → Bytes → FamilyConf → List Setting → Long → KeyFile → Call fs KeyFile
    write_family keep network c ss flag kf =
        ◌>>=◌ fs (write_words fs g keep network (codes "DNS") kf c.dns) λ kf₁.
          ◌>>=◌ fs (write_words fs g keep network (codes "Domains") kf₁ c.domains)
            λ kf₂. ◌>>=◌ fs (write_settings fs kf₂ ss) λ kf₃. pure fs (replace_family c flag kf₃)

    unfoldable pub manager_set_ipv6 : IfNameIndex → Long → FamilyConf → Bool → Call fs (Unit {0})
    manager_set_ipv6 p accept_ra c keep = ◌>>=◌ fs (kept_or_new fs sys g keep p) λ network.
        ◌>>◌ fs
          (rewrite_file fs g network λ kf. ◌>>=◌ fs (switch_dhcp p dhcp_of_ipv6 c.dhcp kf) λ kf₁.
            ◌>>=◌ fs
              (pure fs (
                tried (codes "IPv6AcceptRA")
                  (if is_positive c.dhcp then some (codes "yes") else none) kf₁))
              λ kf₂. ◌>>=◌ fs (pure fs (tried (codes "IPv6AcceptRA") (if_set accept_ra) kf₂)) λ kf₃.
                ◌>>=◌ fs (switch_lla p lla_of_ipv6 (lla_for_ipv6 c.dhcp accept_ra c.lla) kf₃)
                  (write_family keep network c (use_settings_of (codes "DHCPv6") c) flag_ipv6))
          sys.network_reload

    unfoldable pub manager_set_ipv4 : IfNameIndex → Long → FamilyConf → Bool → Call fs (Unit {0})
    manager_set_ipv4 p client_id c keep = ◌>>=◌ fs (kept_or_new fs sys g keep p) λ network.
        ◌>>◌ fs
          (rewrite_file fs g network λ kf. ◌>>=◌ fs (switch_lla p lla_of_ipv4 c.lla kf) λ kf₁.
            ◌>>=◌ fs (switch_dhcp p dhcp_of_ipv4 c.dhcp kf₁) (
              write_family keep network c
                (client_id_settings client_id ++ use_settings_of (codes "DHCPv4") c) flag_ipv4))
          sys.network_reload
