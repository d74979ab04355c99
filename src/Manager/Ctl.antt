-- ===== src/Manager/Ctl.antt =====
-- The tables of `src/manager/network-manager.c` between names of the command line and keys.
use network_config_manager.Base.{List, [], ◌∷◌, codes}
use network_config_manager.ConfFile.Ctl.{Config, config_manager_new}

abbrev network_ctl_to_network_section_config_table : List Config
network_ctl_to_network_section_config_table =
    (codes "set-lla", codes "LinkLocalAddressing")
    ∷ (codes "set-ipv4ll-route", codes "IPv4LLRoute")
    ∷ (codes "llmnr", codes "LLMNR")
    ∷ (codes "set-llmnr", codes "LLMNR")
    ∷ (codes "set-mcast-dns", codes "MulticastDNS")
    ∷ (codes "mcast-dns", codes "MulticastDNS")
    ∷ (codes "set-lldp", codes "LLDP")
    ∷ (codes "set-emit-lldp", codes "EmitLLDP")
    ∷ (codes "set-ipforward", codes "IPForward")
    ∷ (codes "set-ipv6acceptra", codes "IPv6AcceptRA")
    ∷ (codes "set-ipmasquerade", codes "IPMasquerade")
    ∷ (codes "set-proxyarp", codes "IPv4ProxyARP")
    ∷ (codes "set-proxyndp", codes "IPv6ProxyNDP")
    ∷ (codes "set-conf-wc", codes "ConfigureWithoutCarrier")
    ∷ []

abbrev network_ctl_to_dhcp4_section_config_table : List Config
network_ctl_to_dhcp4_section_config_table =
    (codes "use-dns", codes "UseDNS")
    ∷ (codes "use-ntp", codes "UseNTP")
    ∷ (codes "use-domains", codes "UseDomains")
    ∷ (codes "use-mtu", codes "UseMTU")
    ∷ (codes "use-routes", codes "UseRoutes")
    ∷ (codes "use-hostname", codes "UseHostname")
    ∷ (codes "use-timezone", codes "UseTimezone")
    ∷ (codes "send-release", codes "SendRelease")
    ∷ (codes "use-routes", codes "UseRoutes")
    ∷ (codes "use-gw", codes "UseGateway")
    ∷ (codes "use-tz", codes "UseTimezone")
    ∷ []

abbrev network_ctl_to_dhcp6_section_config_table : List Config
network_ctl_to_dhcp6_section_config_table =
    (codes "use-dns", codes "UseDNS")
    ∷ (codes "use-ntp", codes "UseNTP")
    ∷ (codes "use-domains", codes "UseDomains")
    ∷ (codes "use-mtu", codes "UseMTU")
    ∷ (codes "use-hostname", codes "UseHostname")
    ∷ (codes "rapid-commit", codes "RapidCommit")
    ∷ (codes "use-addr", codes "UseAddress")
    ∷ (codes "use-delegataed-prefix", codes "UseDelegatedPrefix")
    ∷ (codes "without-ra", codes "WithoutRA")
    ∷ (codes "send-release", codes "SendRelease")
    ∷ []

abbrev network_ctl_to_link_section_config_table : List Config
network_ctl_to_link_section_config_table =
    (codes "manage", codes "Unmanaged")
    ∷ (codes "arp", codes "ARP")
    ∷ (codes "mc", codes "Multicast")
    ∷ (codes "amc", codes "AllMulticast")
    ∷ (codes "pcs", codes "Promiscuous")
    ∷ []

abbrev pub manager_network_section_configs_new : List Config
manager_network_section_configs_new = config_manager_new network_ctl_to_network_section_config_table

abbrev pub manager_network_dhcp4_section_configs_new : List Config
manager_network_dhcp4_section_configs_new =
    config_manager_new network_ctl_to_dhcp4_section_config_table

abbrev pub manager_network_dhcp6_section_configs_new : List Config
manager_network_dhcp6_section_configs_new =
    config_manager_new network_ctl_to_dhcp6_section_config_table

abbrev pub manager_network_link_section_configs_new : List Config
manager_network_link_section_configs_new =
    config_manager_new network_ctl_to_link_section_config_table
