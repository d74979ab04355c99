-- ===== src/Manager/Removal.antt =====
-- The operations of `src/manager/network-manager.c` that remove the addresses, gateways and routes of a
-- family.
use network_config_manager.Base.{
  ℕ, ◌%◌, ◌/◌, Bool, true, false, ◌&&◌, ◌||◌, List, [], ◌∷◌, Bytes, codes, ◌==◌, if◌then◌else◌,
}
use network_config_manager.CLib.{streq}
use network_config_manager.CLib.Strtol.{Long}
use network_config_manager.Glib.{Glib}
use network_config_manager.Outcome.{Outcome, ok, err, fault}
use network_config_manager.Outcome
use network_config_manager.KeyFile.{read, Key, KeyFile}
use network_config_manager.KeyFile.Removal.Restart.{
  count_in, delete_sections, key_file_remove_section_key_value,
}
use network_config_manager.NetworkUtil.{
  Inet, IpAddress, parse_ip, parse_ip_from_str, af_inet, af_inet6,
}
use network_config_manager.NetworkUtil.Names.{IfNameIndex}
use network_config_manager.ConfFile.{
  Files, Call, pure, ◌>>=◌, ◌>>◌, parse_config_file, remove_section_from_config_file_key,
}
use network_config_manager.Settings.{is_positive}
use network_config_manager.Network.Paths.{System, or_else}
use network_config_manager.Network.Sections.{entry_str, append_each}
use network_config_manager.StateFile.Keys.{
  network_parse_link_setup_state, network_parse_link_network_file,
}
use network_config_manager.Manager.{rewrite_file, asserted}
use network_config_manager.Manager.Addresses.{add_address, bits}

-- `family & ADDRESS_FAMILY_IPV4` and `family & ADDRESS_FAMILY_IPV6`
abbrev of_family : Long → IpAddress → Bool
of_family family a =
    ((a.family == af_inet) && (bits family % 2 == 1))
    || ((a.family == af_inet6) && (bits family / 2 % 2 == 1))

abbrev address_family_yes : ℕ
address_family_yes = 3

-- Whether the value of a key of the name is an address that is wanted.
unfoldable pub is_address_key :
    (Bytes → Outcome IpAddress) → Bytes → (IpAddress → Bool) → Key → Outcome Bool
is_address_key parse name wanted key =
    if streq key.name name
    then (Outcome.◌>>=◌ (read key.v)
        λ v. elim (parse v) [ ok a ↦ ok (wanted a) | err n ↦ ok false | fault ↦ fault ])
    else ok false

-- `key_file_remove_section_key_value` for each address.
unfoldable pub remove_each : KeyFile → List Bytes → Outcome KeyFile
remove_each kf [] = ok kf
remove_each kf (a ∷ rest) =
    Outcome.◌>>=◌ (key_file_remove_section_key_value kf (codes "Address") (codes "Address") a)
      λ kf'. remove_each kf' rest

module _ (inet : Inet) where
  unfoldable pub delete_addresses : Long → KeyFile → Outcome KeyFile
  delete_addresses family = delete_sections (
      count_in (codes "Address") (
        is_address_key (parse_ip_from_str inet) (codes "Address")
          (λ a. of_family family a || (bits family == address_family_yes))))

  unfoldable pub manager_replace_link_address_internal :
      List Bytes → Long → KeyFile → Outcome KeyFile
  manager_replace_link_address_internal many family kf =
      Outcome.◌>>=◌ (delete_addresses family kf)
        λ kf'. append_each (λ kf a. add_address inet kf a (entry_str (codes "Address") a)) kf' many

  unfoldable pub manager_remove_gateway_or_route_full_internal :
      Bool → Long → KeyFile → Outcome KeyFile
  manager_remove_gateway_or_route_full_internal gateway family = delete_sections (
      count_in (codes "Route") (
        is_address_key (parse_ip inet) (if gateway then codes "Gateway" else codes "Destination")
          (of_family family)))

  module _ (fs : Files) (sys : System fs) (g : Glib) where
    -- The file that networkd names for a link that it knows.
    abbrev named_file : IfNameIndex → Call fs Bytes
    named_file p = ◌>>=◌ fs (network_parse_link_setup_state fs g p.ifindex) λ _.
        ◌>>=◌ fs (network_parse_link_network_file fs g p.ifindex) λ network. asserted fs g network

    abbrev rewrite_named : IfNameIndex → (KeyFile → Outcome KeyFile) → Call fs (Unit {0})
    rewrite_named p edit =
        ◌>>=◌ fs (named_file p) λ network.
          ◌>>◌ fs (rewrite_file fs g network (λ kf. pure fs (edit kf))) sys.network_reload

    unfoldable pub manager_replace_link_address :
        IfNameIndex → List Bytes → Long → Call fs (Unit {0})
    manager_replace_link_address p many family =
        rewrite_named p (manager_replace_link_address_internal many family)

    unfoldable pub manager_remove_link_address :
        IfNameIndex → List Bytes → Long → Call fs (Unit {0})
    manager_remove_link_address p addresses family =
        rewrite_named p λ kf. Outcome.◌>>=◌ (remove_each kf addresses) (delete_addresses family)

    unfoldable pub manager_remove_gateway_or_route_full : Bytes → Bool → Long → Call fs (Unit {0})
    manager_remove_gateway_or_route_full network gateway family =
        ◌>>◌ fs
          (rewrite_file fs g network
            (λ kf. pure fs (manager_remove_gateway_or_route_full_internal gateway family kf)))
          sys.network_reload

    -- Where the file sets the key, the sections with it go.
    abbrev remove_if_set : Bytes → Bytes → Call fs (Unit {0})
    remove_if_set network k =
        or_else fs (parse_config_file fs g network (codes "Route") k)
          (λ _. remove_section_from_config_file_key fs g network (codes "Route") k true)
          (pure fs (ok tt))

    unfoldable pub manager_remove_gateway_or_route : IfNameIndex → Bool → Long → Call fs (Unit {0})
    manager_remove_gateway_or_route p gateway family = ◌>>=◌ fs (named_file p) λ network.
        elim (is_positive family) [
          | true ↦ manager_remove_gateway_or_route_full network gateway family
          | false ↦
              ◌>>◌ fs
                (remove_if_set network (if gateway then codes "Gateway" else codes "Destination"))
                sys.network_reload
        ]
