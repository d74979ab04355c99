-- ===== src/Network/Paths.antt =====
-- Where the .network file of a link is: `determine_conf_file_name` of `src/share/config-file.c`,
-- `src/share/file-util.c`, and the functions of `src/manager/network.c` that find or create it.
use network_config_manager.Base.{◌∷◌, ◌++◌, Bytes, codes, Option, none, some, if◌then◌else◌}
use network_config_manager.CLib.{strchr}
use network_config_manager.CLib.Strtol.{Long}
use network_config_manager.Glib.{Glib}
use network_config_manager.NetworkUtil.Names.{IfNameIndex}
use network_config_manager.Outcome.{Outcome, ok, err, fault}
use network_config_manager.Settings.{is_positive}
use network_config_manager.StateFile.Keys.{
  network_parse_link_setup_state, network_parse_link_network_file,
}
use network_config_manager.ConfFile.{
  Files, Call, ◌>>=◌, ◌>>◌, pure, set_file_permisssion, networkd_user, set_config_file_str,
}

-- `strstr(ifname, "*")`
unfoldable pub determine_conf_file_name : Bytes → Bytes
determine_conf_file_name ifname =
    codes "10-" ++ (if strchr ifname b'*' then codes "network-config-manager" else ifname)

-- `g_build_path("/", path, f)` of a directory and a file name.
unfoldable pub determine_conf_file : Bytes → Bytes → Bytes → Bytes
determine_conf_file path ifname extension = path ++ (b'/' ∷ (ifname ++ (b'.' ∷ extension)))

abbrev pub network_dir : Bytes
network_dir = codes "/etc/systemd/network"

unfoldable pub determine_network_conf_file : Bytes → Bytes
determine_network_conf_file ifname =
    determine_conf_file network_dir (determine_conf_file_name ifname) (codes "network")

-- What the program asks of the system besides `Files`: `creat`, which empties a file that is there,
-- and the call of networkd over the bus.
pub record System (fs : Files) : Type 0 where
  pub creat : Bytes → fs.State → Outcome (Unit {0}) × fs.State
  pub network_reload : fs.State → Outcome (Unit {0}) × fs.State

module _ (fs : Files) where
  -- What follows where a call fails; a fault stays one.
  abbrev pub or_else : {A B : Type 0} → Call fs A → (A → Call fs B) → Call fs B → Call fs B
  or_else m found failed st =
      let (r, st') = m st in
      elim r [ ok a ↦ found a st' | err n ↦ failed st' | fault ↦ (fault, st') ]

module _ (fs : Files) (sys : System fs) where
  -- The owner is set of the directory, not of the file.
  unfoldable pub create_conf_file : Bytes → Bytes → Bytes → Call fs Bytes
  create_conf_file path ifname extension =
      ◌>>◌ fs (sys.creat (determine_conf_file path ifname extension)) (
        ◌>>◌ fs (set_file_permisssion fs path (networkd_user fs))
          (pure fs (ok (determine_conf_file path ifname extension))))

  module _ (g : Glib) where
    unfoldable pub create_network_conf_file : Bytes → Call fs Bytes
    create_network_conf_file ifname =
        ◌>>=◌ fs (create_conf_file network_dir (determine_conf_file_name ifname) (codes "network"))
          λ network.
            ◌>>◌ fs (set_config_file_str fs g network (codes "Match") (codes "Name") (some ifname))
              (◌>>◌ fs (set_file_permisssion fs network (networkd_user fs))
                (◌>>◌ fs sys.network_reload (pure fs (ok network))))

    -- `g_file_test` is false for NULL.
    abbrev if_missing : Bytes → Option Bytes → Call fs Bytes
    if_missing ifname none st = create_network_conf_file ifname st
    if_missing ifname (some path) st =
        if fs.exists path st then (ok path, st) else create_network_conf_file ifname st

    abbrev found_or_created : IfNameIndex → Option Bytes → Call fs Bytes
    found_or_created p path = if_missing p.ifname path

    unfoldable pub create_or_parse_network_file : IfNameIndex → Call fs Bytes
    create_or_parse_network_file p =
        or_else fs (network_parse_link_setup_state fs g p.ifindex)
          (λ _.
            or_else fs (network_parse_link_network_file fs g p.ifindex) (found_or_created p) (
              ◌>>=◌ fs (create_network_conf_file p.ifname) λ path. if_missing p.ifname (some path)))
          (◌>>=◌ fs (create_network_conf_file p.ifname) λ path. if_missing p.ifname (some path))

    -- The file that networkd names for the link is taken as it is, NULL included.
    unfoldable pub parse_network_file : Long → Bytes → Call fs (Option Bytes)
    parse_network_file ifindex ifname =
        let determined : Call fs (Option Bytes) =
          ◌>>=◌ fs (if_missing ifname (some (determine_network_conf_file ifname)))
            λ path. pure fs (ok (some path)) in
        if is_positive ifindex
        then (λ st.
            let (r, st') = network_parse_link_network_file fs g ifindex st in
            elim r [ ok path ↦ (ok path, st') | err n ↦ determined st' | fault ↦ (fault, st') ])
        else determined
