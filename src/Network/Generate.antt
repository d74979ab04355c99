-- ===== src/Network/Generate.antt =====
-- `generate_network_config` of `src/manager/network.c`: the .network file of a `Network`.
use network_config_manager.Base.{
  Bool, true, false, not, ◌&&◌, List, [], Option, none, some, if◌then◌else◌,
}
use network_config_manager.Glib.{Glib}
use network_config_manager.Outcome.{Outcome, ok, err, fault, ◌>>=◌}
use network_config_manager.KeyFile.{KeyFile}
use network_config_manager.NetworkUtil.{Inet}
use network_config_manager.Settings.{write_settings}
use network_config_manager.ConfFile
use network_config_manager.ConfFile.{Files, Call, pure, parse_key_file, key_file_save}
use network_config_manager.Network.{
  Network, Dhcp4Server, Dhcp4ServerLease, ParserType, yaml, dracut, no_parser,
}
use network_config_manager.Network.Paths.{System, create_network_conf_file}
use network_config_manager.Network.Settings.{front_settings, middle_settings, back_settings}
use network_config_manager.Network.Sections.{
  append_each, append_addresses, append_routes, append_routing_policy_rules, sriov_add_new_section,
  append_dhcp4_server_static_leases,
}

abbrev pub is_yaml : ParserType → Bool
is_yaml yaml = true
is_yaml dracut = false
is_yaml no_parser = false

abbrev pub leases_of : Option Dhcp4Server → List Dhcp4ServerLease
leases_of none = []
leases_of (some s) = s.static_leases

module _ (inet : Inet) where
  unfoldable pub append_sections : KeyFile → Network → Outcome KeyFile
  append_sections kf n = do
    kf₁ ← append_each (append_addresses inet) kf n.addresses
    kf₂ ← append_each (append_routes inet) kf₁ n.routes
    kf₃ ← append_each (append_routing_policy_rules inet) kf₂ n.routing_policy_rules
    append_each sriov_add_new_section kf₃ n.sriovs

  unfoldable pub append_leases : KeyFile → Network → Outcome KeyFile
  append_leases kf n =
      append_each (append_dhcp4_server_static_leases inet) kf (leases_of n.dhcp4_server)

module _ (fs : Files) where
  -- `(void)`: an error is dropped.
  abbrev pub ignored : Call fs (Unit {0}) → Call fs (Unit {0})
  ignored m st =
      let (r, st') = m st in
      elim r [ ok u ↦ (ok tt, st') | err n ↦ (ok tt, st') | fault ↦ (fault, st') ]

  module _ (inet : Inet) where
    -- The key file in memory, between reading the file and saving it.
    unfoldable pub fill_network : Network → KeyFile → Call fs KeyFile
    fill_network n kf = ConfFile.◌>>=◌ fs (write_settings fs kf (front_settings inet n)) λ kf₁.
        ConfFile.◌>>=◌ fs (pure fs (append_sections inet kf₁ n)) λ kf₂.
          ConfFile.◌>>=◌ fs (write_settings fs kf₂ (middle_settings inet n)) λ kf₃.
            ConfFile.◌>>=◌ fs (pure fs (append_leases inet kf₃ n))
              λ kf₄. write_settings fs kf₄ (back_settings n)

    unfoldable pub generate_network_config : System fs → Glib → Network → Call fs (Unit {0})
    generate_network_config sys g n =
        if is_yaml n.parser_type && not n.modified
        then pure fs (ok tt)
        else ConfFile.◌>>=◌ fs (create_network_conf_file fs sys g n.ifname) λ network.
          ConfFile.◌>>=◌ fs (parse_key_file fs g network) λ kf.
            ConfFile.◌>>=◌ fs (fill_network n kf)
              λ kf'. ConfFile.◌>>=◌ fs (key_file_save fs kf') λ _. ignored sys.network_reload
