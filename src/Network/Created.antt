-- ===== src/Network/Created.antt =====
-- `create_conf_file`, `create_network_conf_file` and the saving of a key file, on files that this
-- program can create and write.
use network_config_manager.Base.{ℕ, ◌≡◌, refl, ap, ◌∙◌, true, [], Bytes}
use network_config_manager.Glib.{Glib, GlibLaws}
use network_config_manager.Outcome.{ok, err, enoent}
use network_config_manager.KeyFile.{KeyFile, key_file_new, find_in, key_file_parse_str}
use network_config_manager.KeyFile.Put.{IsIntact}
use network_config_manager.KeyFile.Text.{
  parse_key_file_contents, parse_lines, finish, save_sections,
}
use network_config_manager.KeyFile.Saved.{save_sections-ok}
use network_config_manager.ConfFile.{Files, set_file_permisssion, networkd_user, key_file_save}
use network_config_manager.ConfFile.EndToEnd.{FilesLaws, IsWritable, Holds, write-Holds, saves}
use network_config_manager.Network.Paths.{
  System, network_dir, determine_conf_file, create_conf_file,
}

-- `creat` empties the file, and neither giving a file to a user nor a reload of networkd changes
-- the contents of a file.
pub record SystemLaws (fs : Files) (sys : System fs) : Type 0 where
  pub creat_empties :
      (path : Bytes) (st : fs.State)
      → (sys.creat path st).0 ≡ ok tt
      → (fs.exists path (sys.creat path st).1 ≡ true)
        × (fs.get_contents path (sys.creat path st).1 ≡ ok [])
  pub chown_others :
      (path other : Bytes) (uid gid : ℕ) (st : fs.State)
      → (fs.exists path (fs.chown other uid gid st).1 ≡ fs.exists path st)
        × (fs.get_contents path (fs.chown other uid gid st).1 ≡ fs.get_contents path st)
  pub reload_keeps :
      (path : Bytes) (st : fs.State)
      → (fs.exists path (sys.network_reload st).1 ≡ fs.exists path st)
        × (fs.get_contents path (sys.network_reload st).1 ≡ fs.get_contents path st)

-- Creating the file, giving the directory to the user of networkd and reloading networkd succeed.
pub record IsReady (fs : Files) (sys : System fs) (path : Bytes) : Type 0 where
  pub writable : IsWritable fs path
  pub created : (st : fs.State) → (sys.creat path st).0 ≡ ok tt
  pub directory_owned : (uid gid : ℕ) (st : fs.State) → (fs.chown network_dir uid gid st).0 ≡ ok tt
  pub reloaded : (st : fs.State) → (sys.network_reload st).0 ≡ ok tt

-- An empty file has no sections.
pub parse_empty :
    (g : Glib) (laws : GlibLaws g) (path : Bytes)
    → parse_key_file_contents g path [] ≡ ok (key_file_new path)
unfolding parse_key_file_contents parse_lines finish
parse_empty g laws path = rw (laws.strsplit_empty b'\n' 0, parse_key_file_contents) refl

pub parse_str-empty :
    (path section k : Bytes) → key_file_parse_str (key_file_new path) section k ≡ err enoent
unfolding key_file_parse_str find_in
parse_str-empty path section k = refl

module _ (fs : Files) (sys : System fs) (files : FilesLaws fs) (system : SystemLaws fs sys)
    (path : Bytes) (ready : IsReady fs sys path) where
  abbrev pub w : IsWritable fs path
  w = ready.writable

  abbrev pub There : Bytes → fs.State → Type 0
  There c st = Holds fs files path w c st

  directory_owned-keeps :
      (c : Bytes) (st : fs.State)
      → There c st
      → (st' : fs.State) × (set_file_permisssion fs network_dir (networkd_user fs) st
          ≡ (ok tt, st'))
        × There c st'
  unfolding set_file_permisssion
  directory_owned-keeps c st (e, h) =
      let (ids, found) = w.user st in
      let kept = system.chown_others path network_dir ids.0 ids.1 st in
      let st' = (fs.chown network_dir ids.0 ids.1 st).1 in
      (
        st',
        rw (found, set_file_permisssion)
            (ap (λ r. (r, st')) (ready.directory_owned ids.0 ids.1 st)),
        (kept.0 ∙ e, kept.1 ∙ h),
      )

  -- The new file is empty.
  pub create_conf_file-Holds :
      (ifname extension : Bytes) (st : fs.State)
      → determine_conf_file network_dir ifname extension ≡ path
      → (st' : fs.State) × (create_conf_file fs sys network_dir ifname extension st
          ≡ (ok path, st'))
        × There [] st'
  unfolding create_conf_file
  create_conf_file-Holds ifname extension st at =
      let st₁ = (sys.creat path st).1 in
      let (st', owned, there) =
        directory_owned-keeps [] st₁ (system.creat_empties path st (ready.created st)) in
      (st', rw (at, create_conf_file) (rw (ready.created st) (rw owned refl)), there)

  pub reload-Holds :
      (c : Bytes) (st : fs.State)
      → There c st
      → (st' : fs.State) × (sys.network_reload st ≡ (ok tt, st')) × There c st'
  reload-Holds c st (e, h) =
      let kept = system.reload_keeps path st in
      let st' = (sys.network_reload st).1 in
      (st', ap (λ r. (r, st')) (ready.reloaded st), (kept.0 ∙ e, kept.1 ∙ h))

  -- An intact key file of the path is saved.
  pub key_file_save-Holds :
      (g : Glib) (kf : KeyFile) (st : fs.State)
      → kf.name ≡ path
      → IsIntact kf.sections
      → (st' : fs.State) × (key_file_save fs kf st ≡ (ok tt, st'))
        × (text : Bytes) × (save_sections kf.sections ≡ ok text)
        × There text st'
  key_file_save-Holds g kf st named h =
      let (text, saved) = save_sections-ok kf.sections h in
      let (st', wrote, there) = write-Holds fs files path w text st in
      (st', saves fs files path w g kf text st named saved ∙ wrote, text, saved, there)
