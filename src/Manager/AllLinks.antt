-- ===== src/Manager/AllLinks.antt =====
-- The operations of `src/manager/network-manager.c` that collect a setting of every link.
use network_config_manager.Base.{Bool, List, [], ◌∷◌, ◌++◌, Bytes, codes, Option, none, some}
use network_config_manager.Glib.{Glib}
use network_config_manager.Outcome.{Outcome, ok}
use network_config_manager.ConfFile.{Files, Call, pure, ◌>>=◌, parse_config_file}
use network_config_manager.NetworkUtil.Names.{IfNameIndex, Links, parse_ifname_or_index}
use network_config_manager.StateFile.Keys.{network_parse_link_network_file}
use network_config_manager.Network.Paths.{or_else}
use network_config_manager.Manager.{asserted}

-- `strjoin(" ", c, dns, NULL)`, where NULL ends the list of texts.
abbrev joined : Bytes → Option Bytes → Bytes
joined c none = c
joined c (some old) = c ++ (codes " " ++ old)

-- The links that netlink tells of are an argument; `errno` is `stale`.
module _ (fs : Files) (g : Glib) (links : Links) (stale : Bool) where
  -- A link that is not found, has no file, or whose file lacks the key is passed over.
  unfoldable pub setting_of_link : Bytes → IfNameIndex → Call fs Bytes
  setting_of_link k link = ◌>>=◌ fs (pure fs (parse_ifname_or_index links stale link.ifname)) λ p.
      ◌>>=◌ fs (network_parse_link_network_file fs g link.ifindex) λ network.
        ◌>>=◌ fs (asserted fs g network) λ path. parse_config_file fs g path (codes "Network") k

  unfoldable pub collect : Bytes → List IfNameIndex → Option Bytes → Call fs (Option Bytes)
  collect k [] found = pure fs (ok found)
  collect k (link ∷ all) found =
      or_else fs (setting_of_link k link) (λ c. collect k all (some (joined c found)))
        (collect k all found)

  abbrev split : Option Bytes → Option (List Bytes)
  split none = none
  split (some words) = some (g.strsplit words (codes " ") 0)

  abbrev collected : Bytes → Outcome (List IfNameIndex) → Call fs (Option (List Bytes))
  collected k all =
      ◌>>=◌ fs (pure fs all) λ ls. ◌>>=◌ fs (collect k ls none) λ words. pure fs (ok (split words))

  unfoldable pub manager_acquire_all_link_dns :
      Outcome (List IfNameIndex) → Call fs (Option (List Bytes))
  manager_acquire_all_link_dns = collected (codes "DNS")

  unfoldable pub manager_acquire_all_link_ntp :
      Outcome (List IfNameIndex) → Call fs (Option (List Bytes))
  manager_acquire_all_link_ntp = collected (codes "NTP")
