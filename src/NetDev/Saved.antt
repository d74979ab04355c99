-- ===== src/NetDev/Saved.antt =====
-- The .netdev file that `generate_netdev_config` leaves on the disk.
use network_config_manager.Base.{
  ◌%◌, ◌^◌, ◌≡◌, ◌≢◌, refl, ap, sym, ◌∙◌, false, List, [], ◌++◌, Bytes, codes, Option, none, some,
  All,
}
use network_config_manager.CLib.{streq}
use network_config_manager.CLib.Decimal.{print_uint}
use network_config_manager.Glib.{Glib, GlibLaws}
use network_config_manager.Outcome.{Outcome, ok, err, enoent}
use network_config_manager.KeyFile.{KeyFile, key_file_new, key_file_parse_str}
use network_config_manager.KeyFile.Put.{IsIntact}
use network_config_manager.KeyFile.Text.{save_sections}
use network_config_manager.ConfFile.{Files, set_file_permisssion, networkd_user}
use network_config_manager.ConfFile.EndToEnd.{
  FilesLaws, IsWritable, permission_keeps, parse_key_file-Holds,
}
use network_config_manager.NetworkUtil.{Inet}
use network_config_manager.EnumTable.{enum_to_name}
use network_config_manager.EnumTable.NetDev.{netdev_kind_table}
use network_config_manager.Settings.{Setting, is_positive, spaced}
use network_config_manager.Settings.Overlay.{
  HasText, overlay, overlay-append, write_settings-Written,
}
use network_config_manager.Settings.Table.{stated, ◌also◌}
use network_config_manager.Network.Paths.{System}
use network_config_manager.Network.Appended.{
  is_listed, add_new_section-Appended, no_entry, HasTexts,
}
use network_config_manager.Network.Lists.{
  Appends, append_each-Appends, ◌with◌, if_text, plain, made,
}
use network_config_manager.Network.Created.{
  SystemLaws, IsReady, parse_empty, parse_str-empty, create_conf_file-Holds, reload-Holds,
  key_file_save-Holds,
}
use network_config_manager.Network.Written.{parse_str-same, parse_str-Written}
use network_config_manager.Network.Saved.{ignored-ok}
use network_config_manager.NetDev.{
  NetDevKind, vlan, bridge, bond, vxlan, macvlan, macvtap, ipvlan, ipvtap, vrf, tun, tap, veth,
  ipip_tunnel, sit_tunnel, gre_tunnel, vti_tunnel, wireguard, invalid_kind, WireGuardPeer, NetDev,
}
use network_config_manager.NetDev.Settings.{kind_number, name_settings, kind_settings}
use network_config_manager.NetDev.Documented.{netdev_rows}
use network_config_manager.NetDev.Says.{name-Says, kind-Says}
use network_config_manager.NetDev.Generate.{
  entry_if_words, peer_entries, append_peer, peers_by_kind, determine_netdev_conf_file,
  create_or_parse_netdev_conf_file, fill_netdev, save_netdev, generate_netdev_config,
}

-- The device has a kind, the structure of the kind is there, and every setting has its text.
pub record IsComplete (inet : Inet) (n : NetDev) : Type 0 where
  pub has_kind : n.kind ≢ invalid_kind
  pub settings : List Setting
  pub settings_are : kind_settings inet n ≡ ok settings
  pub texts : All HasText settings

kind_named :
    (k : NetDevKind)
    → k ≢ invalid_kind
    → (x : Bytes) × (enum_to_name netdev_kind_table (kind_number k) ≡ ok (some x))
unfolding enum_to_name
kind_named vlan h = (_, refl)
kind_named bridge h = (_, refl)
kind_named bond h = (_, refl)
kind_named vxlan h = (_, refl)
kind_named macvlan h = (_, refl)
kind_named macvtap h = (_, refl)
kind_named ipvlan h = (_, refl)
kind_named ipvtap h = (_, refl)
kind_named vrf h = (_, refl)
kind_named tun h = (_, refl)
kind_named tap h = (_, refl)
kind_named veth h = (_, refl)
kind_named ipip_tunnel h = (_, refl)
kind_named sit_tunnel h = (_, refl)
kind_named gre_tunnel h = (_, refl)
kind_named vti_tunnel h = (_, refl)
kind_named wireguard h = (_, refl)
kind_named invalid_kind h = absurd (h refl)

name_settings-All : (n : NetDev) → n.kind ≢ invalid_kind → All HasText (name_settings n)
unfolding name_settings
name_settings-All n h = ((n.ifname, refl), (kind_named n.kind h, tt))

if_words : (key : Bytes) (v : Option (List Bytes)) → HasTexts (entry_if_words key v)
if_words key none = no_entry
if_words key (some xs) = made key (ok (some (spaced xs))) (some (spaced xs), refl)

append_peer-Appends : (kf : KeyFile) (p : WireGuardPeer) → Appends kf (append_peer kf p)
unfolding append_peer peer_entries is_listed streq
append_peer-Appends kf p =
    add_new_section-Appended kf (codes "WireGuardPeer") (peer_entries p) refl (
      if_text (codes "PublicKey") p.public_key
      with if_text (codes "Endpoint") p.endpoint
      with if_text (codes "PresharedKey") p.preshared_key
      with if_text (codes "PresharedKeyFile") p.preshared_key_file
      with if_words (codes "AllowedIPs") p.allowed_ips
      with plain (codes "PersistentKeepalive") (is_positive p.persistent_keep_alive)
          (print_uint (p.persistent_keep_alive.size % 2 ^ 32)))

-- What a reader finds behind the settings of a device.
abbrev pub netdev_overlay : NetDev → List Setting → Bytes → Bytes → Outcome Bytes → Outcome Bytes
netdev_overlay n ss section k old = overlay ss section k (overlay (name_settings n) section k old)

netdev_overlay-stated :
    (inet : Inet) (n : NetDev) (c : IsComplete inet n) (section k : Bytes) (old : Outcome Bytes)
    → netdev_overlay n c.settings section k old ≡ stated (netdev_rows inet n) section k old
netdev_overlay-stated inet n c section k old =
    sym (overlay-append (name_settings n) c.settings section k old)
    ∙ (name-Says n also kind-Says inet n c.settings c.settings_are).reads section k old

record Filled (n : NetDev) (ss : List Setting) (before after : KeyFile) : Type 0 where
  reads :
      (section k : Bytes)
      → is_listed section ≡ false
      → key_file_parse_str after section k
        ≡ netdev_overlay n ss section k (key_file_parse_str before section k)
  name_kept : after.name ≡ before.name
  intact : IsIntact after.sections

module _ (fs : Files) (path : Bytes) (w : IsWritable fs path) (inet : Inet) where
  fill_netdev-Filled :
      (n : NetDev) (kf : KeyFile) (st : fs.State)
      → kf.name ≡ path
      → IsIntact kf.sections
      → (c : IsComplete inet n)
      → (after : KeyFile) × (st' : fs.State) × (fill_netdev fs inet n kf st ≡ (ok after, st'))
        × Filled n c.settings kf after
  unfolding fill_netdev
  fill_netdev-Filled n kf st named h c =
      let (k₁, s₁, d₁, w₁) =
        write_settings-Written fs path w kf (name_settings n) st named h
          (name_settings-All n c.has_kind) in
      let (k₂, s₂, d₂, w₂) =
        write_settings-Written fs path w k₁ c.settings s₁ (w₁.name_kept ∙ named) w₁.intact
          c.texts in
      let (k₃, d₃, a₃) = append_each-Appends append_peer append_peer-Appends k₂ (peers_by_kind n) in
      (
        k₃,
        s₂,
        rw d₁ (rw c.settings_are (rw d₂ (rw d₃ refl))),
        record {
          reads = λ section k l.
              parse_str-same k₃ k₂ section k (a₃.reads section k l)
              ∙ parse_str-Written k₁ k₂ c.settings section k w₂
              ∙ ap (overlay c.settings section k)
                  (parse_str-Written kf k₁ (name_settings n) section k w₁);
          name_kept = a₃.name_kept ∙ w₂.name_kept ∙ w₁.name_kept;
          intact = a₃.intact w₂.intact;
        },
      )

module _ (fs : Files) (sys : System fs) (files : FilesLaws fs) (system : SystemLaws fs sys)
    (path : Bytes) (ready : IsReady fs sys path) (g : Glib) (laws : GlibLaws g) (inet : Inet) where
  create_netdev-Holds :
      (ifname : Bytes) (st : fs.State)
      → determine_netdev_conf_file ifname ≡ path
      → (st' : fs.State) × (create_or_parse_netdev_conf_file fs sys g ifname st
          ≡ (ok (key_file_new path), st'))
  unfolding create_or_parse_netdev_conf_file determine_netdev_conf_file
  create_netdev-Holds ifname st at =
      let (s₁, made, empty) =
        create_conf_file-Holds fs sys files system path ready (codes "10-" ++ ifname)
          (codes "netdev") st at in
      (
        s₁,
        rw made (
            parse_key_file-Holds fs files path ready.writable g [] s₁ empty
            ∙ ap (λ r. (r, s₁)) (parse_empty g laws path)),
      )

  save_netdev-Holds :
      (kf : KeyFile) (st : fs.State)
      → kf.name ≡ path
      → IsIntact kf.sections
      → (st' : fs.State) × (save_netdev fs sys kf st ≡ (ok tt, st'))
        × (text : Bytes) × (save_sections kf.sections ≡ ok text)
        × (fs.get_contents path st' ≡ ok text)
  unfolding save_netdev
  save_netdev-Holds kf st named h =
      let (s₁, saved, text, text_is, there₁) =
        key_file_save-Holds fs sys files system path ready g kf st named h in
      let (s₂, owned, there₂) = permission_keeps fs files path ready.writable text s₁ there₁ in
      let (s₃, reloaded, there₃) = reload-Holds fs sys files system path ready text s₂ there₂ in
      let owner = ap (λ p. set_file_permisssion fs p (networkd_user fs) s₁) named ∙ owned in
      (
        s₃,
        rw saved (
            rw (ignored-ok fs (set_file_permisssion fs kf.name (networkd_user fs)) s₁ s₂ owner)
              (ignored-ok fs sys.network_reload s₂ s₃ reloaded)),
        text,
        text_is,
        there₃.1,
      )

  -- For a device with a kind, with the structure of that kind, and whose settings all have their texts,
  -- on files where creating and writing succeed: `generate_netdev_config` returns success, and the
  -- device's .netdev file, whatever it held before, then holds the saved text of a key file in which
  -- every section, but those of WireGuard peers, reads as `netdev_rows` says, the table of the keys of
  -- each kind with the field that decides each, and has no key without a row with a text. By that
  -- table `L3MissNotification` is there where `l3miss` is set, with the value of `l2miss`.
  pub generate_netdev_config-Holds :
      (n : NetDev) (st : fs.State)
      → determine_netdev_conf_file n.ifname ≡ path
      → (c : IsComplete inet n)
      → (st' : fs.State) × (generate_netdev_config fs sys g inet n st ≡ (ok tt, st'))
        × (kf : KeyFile) × (text : Bytes) × (fs.get_contents path st' ≡ ok text)
        × (save_sections kf.sections ≡ ok text)
        × ((section k : Bytes)
            → is_listed section ≡ false
            → key_file_parse_str kf section k ≡ stated (netdev_rows inet n) section k (err enoent))
  unfolding generate_netdev_config
  generate_netdev_config-Holds n st at c =
      let (s₁, made) = create_netdev-Holds n.ifname st at in
      let (after, s₂, filled, f) =
        fill_netdev-Filled fs path ready.writable inet n (key_file_new path) s₁ refl tt c in
      let (s₃, saved, text, text_is, there) = save_netdev-Holds after s₂ f.name_kept f.intact in
      (
        s₃,
        rw made (rw filled saved),
        after,
        text,
        there,
        text_is,
        λ section k l.
            f.reads section k l
            ∙ ap (netdev_overlay n c.settings section k) (parse_str-empty path section k)
            ∙ netdev_overlay-stated inet n c section k (err enoent),
      )
