-- ===== src/Manager/Addresses.antt =====
-- The operations of `src/manager/network-manager.c` on the addresses and gateways of a link.
use network_config_manager.Base.{
  ℕ, ◌%◌, ◌^◌, Bool, true, false, not, ◌||◌, List, [], ◌∷◌, ◌++◌, Bytes, codes, Option, none, some,
  leb, ◌==◌, if◌then◌else◌,
}
use network_config_manager.CLib.{streq}
use network_config_manager.CLib.Strtol.{Long, to_unsigned}
use network_config_manager.Glib.{Glib}
use network_config_manager.Outcome.{Outcome, ok, err, fault}
use network_config_manager.Outcome
use network_config_manager.StringUtil.{bool_to_str}
use network_config_manager.KeyFile.{str, freed, read, Key, Section, KeyFile, key_file_config_exists}
use network_config_manager.KeyFile.Numbers.{print_int, key_file_set_str}
use network_config_manager.EnumTable.{enum_to_name}
use network_config_manager.EnumTable.Network.{ip_duplicate_address_detection_type}
use network_config_manager.NetworkUtil.{Inet, IpAddress, ip_to_str, ip_to_str_prefix, parse_ip}
use network_config_manager.NetworkUtil.Names.{IfNameIndex}
use network_config_manager.Settings.{when, is_set, is_true, is_invalid}
use network_config_manager.ConfFile.{Files, Call, pure, ◌>>◌, set_file_permisssion, networkd_user}
use network_config_manager.Network.{Route}
use network_config_manager.Network.Paths.{System}
use network_config_manager.Network.Sections.{
  Entry, entry, entry_str, entry_if_str, entry_if_bool, add_new_section, append_each,
}
use network_config_manager.Manager.{edit_link, rewrite_file}

-- `add_key_to_section_int` of an `int` or a `uint32_t`, as its remainder modulo 2^32.
abbrev pub entry_int : Bytes → ℕ → List Entry
entry_int key v = entry_str key (print_int (v % 2 ^ 32))

abbrev pub entry_if_int : Bytes → ℕ → List Entry
entry_if_int key v = when (leb 1 v) (entry_int key v)

-- The bits of an `int`.
abbrev pub bits : Long → ℕ
bits v = to_unsigned (2 ^ 32) v

pub record LinkAddress : Type 0 where
  pub address : Option IpAddress
  pub peer : Option IpAddress
  pub scope : Option Bytes
  pub pref_lft : Option Bytes
  pub dad : Long
  pub prefix_route : Long
  pub label : Option Bytes
  pub many : List Bytes

unfoldable pub link_address_entries : LinkAddress → Bytes → Option Bytes → List Entry
link_address_entries l a b =
    entry_str (codes "Address") a
    ++ entry_if_str (codes "Peer") b
    ++ entry_if_str (codes "Scope") l.scope
    ++ entry_if_str (codes "PreferredLifetime") l.pref_lft
    ++ entry_if_str (codes "Label") l.label
    ++ entry_if_bool (codes "AddPrefixRoute") l.prefix_route
    ++ when (not (is_invalid l.dad)) (
        entry (codes "DuplicateAddressDetection")
          (enum_to_name ip_duplicate_address_detection_type l.dad))

abbrev pub if_address : (IpAddress → Outcome Bytes) → Option IpAddress → Outcome (Option Bytes)
if_address print none = ok none
if_address print (some a) = elim (print a) [ ok x ↦ ok (some x) | err n ↦ err n | fault ↦ fault ]

module _ (inet : Inet) where
  -- With its prefix where it has one.
  abbrev address_text : IpAddress → Outcome Bytes
  address_text a =
      if is_true a.prefix_len then ip_to_str_prefix inet a.family a else ip_to_str inet a.family a

  abbrev pub plain_text : IpAddress → Outcome Bytes
  plain_text a = ip_to_str inet a.family a

  -- A new section of an address that the file does not have.
  unfoldable pub add_address : KeyFile → Bytes → List Entry → Outcome KeyFile
  add_address kf a es = elim (key_file_config_exists kf (codes "Address") (codes "Address") a) [
    | ok true ↦ ok kf
    | ok false ↦ add_new_section kf (codes "Address") es
    | err n ↦ err n
    | fault ↦ fault
  ]

  abbrev add_plain : KeyFile → Bytes → Outcome KeyFile
  add_plain kf a = add_address kf a (entry_str (codes "Address") a)

  abbrev add_if : KeyFile → LinkAddress → Option Bytes → Option Bytes → Outcome KeyFile
  add_if kf l none b = ok kf
  add_if kf l (some a) b = add_address kf a (link_address_entries l a b)

  unfoldable pub add_link_addresses : LinkAddress → KeyFile → Outcome KeyFile
  add_link_addresses l kf = Outcome.◌>>=◌ (if_address address_text l.address) λ a.
      Outcome.◌>>=◌ (if_address address_text l.peer)
        λ b. Outcome.◌>>=◌ (add_if kf l a b) λ kf₁. append_each add_plain kf₁ l.many

  -- The value of the first gateway of the family, of each section; an address that cannot be printed
  -- leaves the old value freed.
  unfoldable pub set_gateway_keys : Route → List Key → Outcome (List Key × Bool)
  set_gateway_keys rt [] = ok ([], false)
  set_gateway_keys rt (key ∷ ks) =
      let later : Key → Outcome (List Key × Bool) = λ k. elim (set_gateway_keys rt ks) [
        | ok (ks', b) ↦ ok (k ∷ ks', b)
        | err n ↦ err n
        | fault ↦ fault
      ] in
      if not (streq key.name (codes "Gateway"))
      then later key
      else elim (Outcome.◌>>=◌ (read key.v) (parse_ip inet)) [
        | ok a ↦
            if not (a.family == rt.family)
            then later key
            else elim (ip_to_str inet rt.family rt.gw) [
              | ok gw ↦ ok (record key { v = str gw } ∷ ks, true)
              | err n ↦ later (record key { v = freed })
              | fault ↦ fault
            ]
        | err n ↦ later key
        | fault ↦ fault
      ]

  unfoldable pub set_gateway_sections : Route → List Section → Outcome (List Section × Bool)
  set_gateway_sections rt [] = ok ([], false)
  set_gateway_sections rt (s ∷ ss) =
      let rest = set_gateway_sections rt ss in
      if not (streq s.name (codes "Route"))
      then elim rest [ ok (ss', b) ↦ ok (s ∷ ss', b) | err n ↦ err n | fault ↦ fault ]
      else (Outcome.◌>>=◌ (set_gateway_keys rt s.keys)
          λ p. Outcome.◌>>=◌ rest λ q. ok (record s { keys = p.0 } ∷ q.0, p.1 || q.1))

  unfoldable pub manager_set_gateway : Route → KeyFile → Outcome KeyFile
  manager_set_gateway rt kf = Outcome.◌>>=◌ (set_gateway_sections rt kf.sections) λ p.
      if p.1
      then ok (record kf { sections = p.0 })
      else (Outcome.◌>>=◌ (ip_to_str inet rt.gw.family rt.gw) λ gw.
          add_new_section (record kf { sections = p.0 }) (codes "Route")
            (entry_str (codes "Gateway") gw))

  abbrev gateway_if : Option Route → KeyFile → Outcome KeyFile
  gateway_if none kf = ok kf
  gateway_if (some rt) kf = manager_set_gateway rt kf

  -- The default gateway, in the first section or in a new one.
  unfoldable pub add_default_gateway : Route → Bool → KeyFile → Outcome KeyFile
  add_default_gateway rt keep kf = Outcome.◌>>=◌ (ip_to_str inet rt.gw.family rt.gw) λ gw.
      if keep
      then add_new_section kf (codes "Route")
          (entry_str (codes "Gateway") gw ++ entry_if_bool (codes "GatewayOnlink") rt.onlink)
      else (Outcome.◌>>=◌ (key_file_set_str kf (codes "Route") (codes "Gateway") (some gw)) λ kf₁.
          if is_set rt.onlink
          then key_file_set_str kf₁ (codes "Route") (codes "GatewayOnlink")
              (some (bool_to_str (is_true rt.onlink)))
          else ok kf₁)

  module _ (fs : Files) (sys : System fs) (g : Glib) where
    abbrev pub rewrite_link : IfNameIndex → (KeyFile → Outcome KeyFile) → Call fs (Unit {0})
    rewrite_link p edit =
        edit_link fs sys g p λ network. rewrite_file fs g network (λ kf. pure fs (edit kf))

    -- The owner of the file is set once more.
    abbrev pub rewrite_owned : IfNameIndex → (KeyFile → Outcome KeyFile) → Call fs (Unit {0})
    rewrite_owned p edit = edit_link fs sys g p λ network.
        ◌>>◌ fs (rewrite_file fs g network (λ kf. pure fs (edit kf)))
          (set_file_permisssion fs network (networkd_user fs))

    unfoldable pub manager_configure_link_address : IfNameIndex → LinkAddress → Call fs (Unit {0})
    manager_configure_link_address p l = rewrite_link p (add_link_addresses l)

    unfoldable pub manager_configure_default_gateway_full :
        IfNameIndex → Option Route → Option Route → Call fs (Unit {0})
    manager_configure_default_gateway_full p rt4 rt6 =
        rewrite_link p λ kf. Outcome.◌>>=◌ (gateway_if rt4 kf) (gateway_if rt6)

    unfoldable pub manager_configure_default_gateway :
        IfNameIndex → Route → Bool → Call fs (Unit {0})
    manager_configure_default_gateway p rt keep = rewrite_link p (add_default_gateway rt keep)
