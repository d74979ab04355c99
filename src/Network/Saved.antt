-- ===== src/Network/Saved.antt =====
-- The .network file that `generate_network_config` leaves on the disk.
use mathlib.Core.Path.{subst}
use network_config_manager.Base.{
  ◌≡◌, refl, ap, sym, ◌∙◌, false, not, ◌&&◌, if◌then◌else◌, [], ◌++◌, Bytes, codes, some, All,
}
use network_config_manager.CLib.{streq}
use network_config_manager.Glib.{Glib, GlibLaws}
use network_config_manager.Outcome.{Outcome, ok, err, enoent}
use network_config_manager.KeyFile.{KeyFile, key_file_new, key_file_parse_str, set_config}
use network_config_manager.KeyFile.Put.{IsIntact, put, set_config-Edited}
use network_config_manager.KeyFile.Text.{parse_key_file_contents, save_sections}
use network_config_manager.KeyFile.Printable.{IsPrintable}
use network_config_manager.KeyFile.RoundTrip.{parse_key_file-save}
use network_config_manager.KeyFile.Stays.{
  IsPrintableEdit, put-IsPrintable, with_keys-IsPrintable, IsPrintable-IsIntact,
}
use network_config_manager.ConfFile.{Files, Call, set_config_file_str}
use network_config_manager.ConfFile.EndToEnd.{
  FilesLaws, permission_keeps, parse_key_file-Holds, edit_file-Holds, reads_edited,
}
use network_config_manager.NetworkUtil.{Inet}
use network_config_manager.Settings.Overlay.{overlay, overlay_first, overlay-append}
use network_config_manager.Settings.Table.{stated}
use network_config_manager.Network.{Network}
use network_config_manager.Network.Settings.{
  front_settings, match_settings, middle_settings, back_settings,
}
use network_config_manager.Network.Documented.{network_rows}
use network_config_manager.Network.Says.{network_rows-Says}
use network_config_manager.Network.Paths.{
  System, determine_network_conf_file, determine_conf_file_name, create_network_conf_file,
}
use network_config_manager.Network.Generate.{is_yaml, ignored, generate_network_config}
use network_config_manager.Network.Appended.{is_listed}
use network_config_manager.Network.Created.{
  SystemLaws, IsReady, parse_empty, parse_str-empty, There, create_conf_file-Holds, reload-Holds,
  key_file_save-Holds,
}
use network_config_manager.Network.Written.{IsComplete, network_overlay, fill_network-Filled}

pub ignored-ok :
    (fs : Files) (m : Call fs (Unit {0})) (st st' : fs.State)
    → m st ≡ (ok tt, st')
    → ignored fs m st ≡ (ok tt, st')
ignored-ok fs m st st' e = rw (e, ignored) (ap (λ s. (ok tt, s)) (ap (λ r. r.1) e))

module _ (fs : Files) (sys : System fs) (files : FilesLaws fs) (system : SystemLaws fs sys)
    (path : Bytes) (ready : IsReady fs sys path) (g : Glib) (laws : GlibLaws g) where
  -- A new file for the link: what is in it, and what it reads as.
  pub record Started (ifname : Bytes) (st : fs.State) : Type 0 where
    pub text : Bytes
    pub there : There fs sys files system path ready text st
    pub read_as : KeyFile
    pub parsed : parse_key_file_contents g path text ≡ ok read_as
    pub named : read_as.name ≡ path
    pub intact : IsIntact read_as.sections
    pub reads :
        (section k : Bytes)
        → key_file_parse_str read_as section k ≡ (
            if streq (codes "Match") section && streq (codes "Name") k
            then ok ifname
            else err enoent)

  pub create_network-Started :
      (ifname : Bytes) (st : fs.State)
      → determine_network_conf_file ifname ≡ path
      → IsPrintableEdit (codes "Match") (codes "Name") ifname
      → (st' : fs.State) × (create_network_conf_file fs sys g ifname st ≡ (ok path, st'))
        × Started ifname st'
  unfolding create_network_conf_file set_config_file_str determine_network_conf_file
  create_network-Started ifname st at n =
      let ss = put [] (codes "Match") (codes "Name") ifname in
      let start = key_file_new path in
      let printable = put-IsPrintable [] (codes "Match") (codes "Name") ifname n tt in
      let (after, set, edit) = set_config-Edited start (codes "Match") (codes "Name") ifname tt in
      let (text, saved, kf, parsed, back) = parse_key_file-save g laws path ss printable in
      let (s₁, made, empty) =
        create_conf_file-Holds fs sys files system path ready (determine_conf_file_name ifname)
          (codes "network") st at in
      let (s₂, edited, h₂) =
        edit_file-Holds fs files path ready.writable g [] text start after
          (λ f. set_config f (codes "Match") (codes "Name") (some ifname)) s₁ empty
          (parse_empty g laws path) set edit.name_kept
          (ap save_sections edit.sections_are ∙ saved) in
      let (s₃, owned, h₃) = permission_keeps fs files path ready.writable text s₂ h₂ in
      let (s₄, reloaded, h₄) = reload-Holds fs sys files system path ready text s₃ h₃ in
      (
        s₄,
        rw made (rw edited (rw owned (rw reloaded refl))),
        record {
          text = text;
          there = h₄;
          read_as = kf;
          parsed = parsed;
          named = back.name_is;
          intact = IsPrintable-IsIntact kf.sections (
              subst (All IsPrintable) (sym back.sections_are) (with_keys-IsPrintable ss printable));
          reads = λ section k.
              reads_edited fs files path ready.writable g laws start kf (codes "Match")
                (codes "Name") ifname section k back.sections_are
              ∙ ap
                  (λ o.
                    if streq (codes "Match") section && streq (codes "Name") k
                    then ok ifname
                    else o)
                  (parse_str-empty path section k);
        },
      )

  module _ (inet : Inet) where
    -- The first setting of a network is the key that a new file has.
    overlay_started :
        (n : Network) (section k : Bytes)
        → overlay (front_settings inet n) section k (
            if streq (codes "Match") section && streq (codes "Name") k
            then ok n.ifname
            else err enoent)
          ≡ overlay (front_settings inet n) section k (err enoent)
    unfolding overlay front_settings match_settings
    overlay_started n section k =
        overlay_first (codes "Match") (codes "Name") n.ifname _ (front_settings inet n) refl section
          k (err enoent)

    network_overlay-stated :
        (n : Network) (section k : Bytes) (old : Outcome Bytes)
        → network_overlay inet n section k old ≡ stated (network_rows inet n) section k old
    network_overlay-stated n section k old =
        sym (
          overlay-append (front_settings inet n ++ middle_settings inet n) (back_settings n) section
            k old
          ∙ ap (overlay (back_settings n) section k)
              (overlay-append (front_settings inet n) (middle_settings inet n) section k old))
        ∙ (network_rows-Says inet n).reads section k old

    abbrev network_overlay_behind : Network → Bytes → Bytes → Outcome Bytes → Outcome Bytes
    network_overlay_behind n section k old =
        overlay (back_settings n) section k (overlay (middle_settings inet n) section k old)

    -- For a network that is not an unmodified one of a YAML file, whose settings all have their texts
    -- and whose name can be written, on files where creating and writing succeed:
    -- `generate_network_config` returns success, and the link's .network file, whatever it held before,
    -- then holds the saved text of a key file in which every section that does not come once for
    -- each address, route, rule, virtual function or lease reads as `network_rows` says, the table of
    -- the keys with the field that decides each, where the last row with a text for a key counts, and
    -- has no key without such a row.
    pub generate_network_config-Holds :
        (n : Network) (st : fs.State)
        → (is_yaml n.parser_type && not n.modified) ≡ false
        → determine_network_conf_file n.ifname ≡ path
        → IsPrintableEdit (codes "Match") (codes "Name") n.ifname
        → IsComplete inet n
        → (st' : fs.State) × (generate_network_config fs inet sys g n st ≡ (ok tt, st'))
          × (kf : KeyFile) × (text : Bytes) × (fs.get_contents path st' ≡ ok text)
          × (save_sections kf.sections ≡ ok text)
          × ((section k : Bytes)
              → is_listed section ≡ false
              → key_file_parse_str kf section k
                ≡ stated (network_rows inet n) section k (err enoent))
    unfolding generate_network_config
    generate_network_config-Holds n st wanted at name c =
        let (s₁, made, new) = create_network-Started n.ifname st at name in
        let (after, s₂, filled, f) =
          fill_network-Filled fs path ready.writable inet n new.read_as s₁ new.named new.intact c in
        let (s₃, saved, text, text_is, there) =
          key_file_save-Holds fs sys files system path ready g after s₂ (f.name_kept ∙ new.named)
            f.intact in
        let (s₄, reloaded, there') = reload-Holds fs sys files system path ready text s₃ there in
        let read =
          parse_key_file-Holds fs files path ready.writable g new.text s₁ new.there
          ∙ ap (λ r. (r, s₁)) new.parsed in
        (
          s₄,
          rw (wanted, generate_network_config)
              (rw made
                (rw read (rw filled (rw saved (ignored-ok fs sys.network_reload s₃ s₄ reloaded))))),
          after,
          text,
          there'.1,
          text_is,
          λ section k l.
              f.reads section k l
              ∙ ap (network_overlay_behind n section k) (
                  ap (overlay (front_settings inet n) section k) (new.reads section k)
                  ∙ overlay_started n section k)
              ∙ network_overlay-stated n section k (err enoent),
        )
