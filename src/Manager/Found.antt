-- ===== src/Manager/Found.antt =====
-- Where networkd names the .network file of a link, in the link's state file, the operations take it.
use network_config_manager.Base.{◌≡◌, true, false, List, ◌++◌, Bytes, codes, All, arith, ◌==◌}
use network_config_manager.Glib.{Glib, GlibLaws}
use network_config_manager.Outcome.{ok, err, enoent}
use network_config_manager.NetworkUtil.Names.{IfNameIndex}
use network_config_manager.ConfFile.{Files}
use network_config_manager.StateFile.{
  parse_state_file, parse_link_file, network_parse_link_string, links_dir, print_long, if_filled,
}
use network_config_manager.StateFile.Reading.{
  StateEntry, IsStateEntry, render_state, distinct, found, parse_state_contents-render_state,
}
use network_config_manager.StringUtil.{isempty}
use network_config_manager.Network.Paths.{System, create_or_parse_network_file}

-- The state file of the link, which tells its state and its .network file.
pub record IsManaged (fs : Files) (g : Glib) (p : IfNameIndex) (path : Bytes) (st : fs.State)
    : Type 0 where
  pub entries : List StateEntry
  pub state_there : fs.exists (links_dir fs g ++ print_long fs g p.ifindex) st ≡ true
  pub state_is :
      fs.get_contents (links_dir fs g ++ print_long fs g p.ifindex) st ≡ ok (render_state entries)
  pub plain : All IsStateEntry entries
  pub once : distinct entries ≡ true
  pub state : Bytes
  pub has_state : found entries (codes "ADMIN_STATE") (err enoent) ≡ ok state
  pub has_file : found entries (codes "NETWORK_FILE") (err enoent) ≡ ok path
  pub has_index : (p.ifindex.size == 0) ≡ false
  pub path_named : isempty path ≡ false
  pub file_there : fs.exists path st ≡ true

module _ (fs : Files) (sys : System fs) (g : Glib) (laws : GlibLaws g) (p : IfNameIndex) where
  pub parse_link_string-found :
      (path key x : Bytes) (st : fs.State) (m : IsManaged fs g p path st)
      → found m.entries key (err enoent) ≡ ok x
      → network_parse_link_string fs g p.ifindex key st ≡ (ok (if_filled fs g x), st)
  unfolding network_parse_link_string parse_link_file parse_state_file
  parse_link_string-found path key x st m e = ground (
    arith,
    m.has_index,
    m.state_there,
    m.state_is,
    e,
    m.once,
    parse_state_contents-render_state g laws m.entries key m.plain,
  )

  -- The link's file is the one that networkd names.
  pub create_or_parse-found :
      (path : Bytes) (st : fs.State)
      → IsManaged fs g p path st
      → create_or_parse_network_file fs sys g p st ≡ (ok path, st)
  unfolding create_or_parse_network_file
  create_or_parse-found path st m = ground (
    arith,
    parse_link_string-found path (codes "ADMIN_STATE") m.state st m m.has_state,
    parse_link_string-found path (codes "NETWORK_FILE") path st m m.has_file,
    m.path_named,
    m.file_there,
  )
