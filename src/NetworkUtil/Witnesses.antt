-- ===== src/NetworkUtil/Witnesses.antt =====
-- The theorems on addresses and names at concrete inputs.
use network_config_manager.Base.{◌≡◌, refl, true, ◌↔◌, ◌<◌, Bytes, codes, some, All, arith, length}
use network_config_manager.Outcome.{ok}
use network_config_manager.NetworkUtil.{ip_to_str_prefix, parse_ip_from_str, af_inet, af_inet6}
use network_config_manager.NetworkUtil.Address.{
  address4, address6, parse_ip_from_str-ip_to_str_prefix,
}
use network_config_manager.NetworkUtil.Names.{IsNameByte, valid_ifname, valid_ifname-All}
use network_config_manager.NetworkUtil.Model.{inet_model, inet_model-laws}

-- 192.168.1.7/24 and ::7/24
parse_ip_from_str-ip_to_str_prefix_example :
    ((x : Bytes) × (ip_to_str_prefix inet_model af_inet (address4 0xC0A80107 24) ≡ ok x)
      × (parse_ip_from_str inet_model x ≡ ok (address4 0xC0A80107 24)))
    × ((x : Bytes) × (ip_to_str_prefix inet_model af_inet6 (address6 7 24) ≡ ok x)
        × (parse_ip_from_str inet_model x ≡ ok (address6 7 24)))
parse_ip_from_str-ip_to_str_prefix_example =
    parse_ip_from_str-ip_to_str_prefix inet_model inet_model-laws 0xC0A80107 7 24 (omega arith)
      (omega arith) (omega arith)

valid_ifname-All_example :
    (valid_ifname (λ s. true) (some (codes "eth0")) ≡ true)
    ↔ ((0 < length (codes "eth0")) × (length (codes "eth0") < 16) × All IsNameByte (codes "eth0"))
valid_ifname-All_example = valid_ifname-All (λ s. true) (λ s h. refl) (codes "eth0")
