-- ===== src/DeviceLink/Reads.antt =====
-- What `parse_config_file` reads from a .link file behind `netdev_link_configure`.
use network_config_manager.Base.{
  ◌≡◌, refl, ap, ◌∙◌, sym, List, [], ◌∷◌, Bytes, codes, none, some, All,
}
use network_config_manager.Glib.{Glib, GlibLaws}
use network_config_manager.Outcome.{ok}
use network_config_manager.KeyFile.{Section}
use network_config_manager.KeyFile.Stays.{IsPrintableEdit}
use network_config_manager.ConfFile.{
  Files, Call, ◌>>◌, bind-ok, parse_config_file, set_config_file_str, set_config_file_int,
}
use network_config_manager.ConfFile.EndToEnd.{
  FilesLaws, IsWritable, IsOwnFile, set_config_file_str-IsOwnFile,
}
use network_config_manager.Network.Paths.{System}
use network_config_manager.DeviceLink.{NetDevLink}
use network_config_manager.DeviceLink.Settings.{LinkValue, text, int, link_entries}
use network_config_manager.DeviceLink.Overlay.{value_of_link, key_of, or_read, link_overlay}
use network_config_manager.DeviceLink.Documented.{link_rows}
use network_config_manager.DeviceLink.Says.{link-LinkSays}
use network_config_manager.Settings.Table.{stated}
use network_config_manager.DeviceLink.Generate.{
  determine_link_conf_file, create_or_parse_netdev_link_conf_file, set_each, set_value,
  match_driver, netdev_link_configure,
}

-- A setting whose name is in the table and whose value can be written.
pub record IsLinkEntry (e : Bytes × LinkValue) : Type 0 where
  pub key : Bytes
  pub has_key : key_of e.0 ≡ some key
  pub writable : IsPrintableEdit (codes "Link") key (value_of_link e.1)

module _ (fs : Files) (files : FilesLaws fs) (path : Bytes) (writable : IsWritable fs path)
    (g : Glib) (laws : GlibLaws g) (sys : System fs) (acquire : Bytes → Call fs Bytes) where
  set_value-str :
      (key : Bytes) (v : LinkValue)
      → set_value fs sys g acquire path (some key) v
        ≡ set_config_file_str fs g path (codes "Link") key (some (value_of_link v))
  unfolding set_config_file_str set_config_file_int
  set_value-str key (text x) = refl
  set_value-str key (int v) = refl

  set_each-IsOwnFile :
      (es : List (Bytes × LinkValue)) (ss : List Section) (st : fs.State)
      → All IsLinkEntry es
      → IsOwnFile fs files path writable g ss st
      → (st' : fs.State) × (set_each fs sys g acquire path es st ≡ (ok tt, st'))
        × ((section k : Bytes)
            → (parse_config_file fs g path section k st').0
              ≡ link_overlay es section k (parse_config_file fs g path section k st).0)
  unfolding set_each link_overlay
  set_each-IsOwnFile [] ss st h own = (st, refl, λ section k. refl)
  set_each-IsOwnFile ((name, v) ∷ es) ss st (e, h) own =
      let (st₁, done, ss₁, own₁, reads) =
        set_config_file_str-IsOwnFile fs files path writable g laws (codes "Link") e.key
          (value_of_link v) ss st e.writable own in
      let (st₂, rest, reads') = set_each-IsOwnFile es ss₁ st₁ h own₁ in
      (
        st₂,
        bind-ok fs (set_value fs sys g acquire path (key_of name) v)
              (λ _. set_each fs sys g acquire path es) st
              (ap (λ o. set_value fs sys g acquire path o v st) e.has_key
                ∙ ap (λ f. f st) (set_value-str e.key v)
                ∙ done)
            ∙ rest,
        λ section k.
            reads' section k
            ∙ ap (link_overlay es section k) (
                reads section k
                ∙ ap (λ o. or_read o v section k (parse_config_file fs g path section k st).0)
                    (sym e.has_key)),
      )

  -- For a link that has its .link file, which this program wrote and can write, without a list of drivers,
  -- and settings whose names are in the table and whose values can be written: `netdev_link_configure`
  -- returns success, and `parse_config_file` then reads from the file, for every section and key, what
  -- `link_rows` says, the table of the keys of [Link] with the field that decides each, or, where no
  -- row of the key has a text, what it read before.
  pub parse_config_file-netdev_link_configure :
      (ifname : Bytes) (n : NetDevLink) (ss : List Section) (st : fs.State)
      → determine_link_conf_file ifname ≡ path
      → n.driver ≡ none
      → All IsLinkEntry (link_entries n)
      → IsOwnFile fs files path writable g ss st
      → (st' : fs.State) × (netdev_link_configure fs sys g acquire ifname n st ≡ (ok tt, st'))
        × ((section k : Bytes)
            → (parse_config_file fs g path section k st').0
              ≡ stated (link_rows n) section k (parse_config_file fs g path section k st).0)
  unfolding netdev_link_configure create_or_parse_netdev_link_conf_file
  parse_config_file-netdev_link_configure ifname n ss st at none_given h own =
      let (st', done, reads) = set_each-IsOwnFile (link_entries n) ss st h own in
      let all = set_each fs sys g acquire path (link_entries n) in
      let alone = ap (λ d. ◌>>◌ fs (match_driver fs sys g acquire path d) all st) none_given in
      (
        st',
        rw at (rw own.there.0 (alone ∙ done)),
        λ section k.
            reads section k
            ∙ (link-LinkSays n).reads section k (parse_config_file fs g path section k st).0,
      )
