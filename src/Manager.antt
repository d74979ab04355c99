-- ===== src/Manager.antt =====
-- The operations of `src/manager/network-manager.c` on the .network file of a link. Netlink and the
-- reload of networkd are arguments.
pub mod Ctl
pub mod Setters
pub mod Dynamic
pub mod Static
pub mod Addresses
pub mod Servers
pub mod Routes
pub mod Removal
pub mod Families
pub mod AllLinks
pub mod Switches
pub mod Found
pub mod Modes
pub mod Words
pub mod Rewritten
pub mod Switched
pub mod Reads
pub mod Configured
mod Witnesses
use network_config_manager.Base.{Bool, true, false, Bytes, Option, none, some}
use network_config_manager.Glib.{Glib}
use network_config_manager.Outcome.{Outcome, ok, err, fault}
use network_config_manager.KeyFile.{KeyFile}
use network_config_manager.NetworkUtil.Names.{IfNameIndex}
use network_config_manager.ConfFile.{
  Files, Call, pure, ◌>>=◌, ◌>>◌, parse_key_file, key_file_save, parse_config_file,
}
use network_config_manager.StateFile.Keys.{network_parse_link_network_file}
use network_config_manager.Network.Paths.{
  System, create_or_parse_network_file, create_network_conf_file,
}

module _ (fs : Files) (g : Glib) where
  -- The file is read, edited in memory, and written.
  unfoldable pub rewrite_file : Bytes → (KeyFile → Call fs KeyFile) → Call fs (Unit {0})
  rewrite_file network edit =
      ◌>>=◌ fs (parse_key_file fs g network) λ kf. ◌>>=◌ fs (edit kf) λ kf'. key_file_save fs kf'

  -- The file that networkd names for the link; NULL fails an assertion of its reader.
  abbrev pub asserted : Option Bytes → Call fs Bytes
  asserted none = pure fs fault
  asserted (some path) = pure fs (ok path)

  unfoldable pub acquire : IfNameIndex → Bytes → Bytes → Call fs Bytes
  acquire p section k =
      ◌>>=◌ fs (network_parse_link_network_file fs g p.ifindex)
        λ network. ◌>>=◌ fs (asserted network) λ path. parse_config_file fs g path section k

module _ (fs : Files) (sys : System fs) (g : Glib) where
  -- An operation on the .network file of the link, and the reload.
  unfoldable pub edit_link : IfNameIndex → (Bytes → Call fs (Unit {0})) → Call fs (Unit {0})
  edit_link p edit =
      ◌>>=◌ fs (create_or_parse_network_file fs sys g p)
        λ network. ◌>>◌ fs (edit network) sys.network_reload

  -- `if (keep)`: the link's file as it is, or a new one.
  abbrev pub kept_or_new : Bool → IfNameIndex → Call fs Bytes
  kept_or_new true p = create_or_parse_network_file fs sys g p
  kept_or_new false p = create_network_conf_file fs sys g p.ifname
