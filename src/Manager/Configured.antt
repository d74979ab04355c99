-- ===== src/Manager/Configured.antt =====
-- What `manager_set_link_dynamic_conf` leaves in a new .network file.
use network_config_manager.Base.{
  ◌≡◌, refl, ap, ◌∙◌, Bool, true, false, ◌&&◌, ◌||◌, List, ◌++◌, Bytes, codes, Option, none, some,
  All, if◌then◌else◌,
}
use network_config_manager.CLib.{streq}
use network_config_manager.CLib.Strtol.{Long}
use network_config_manager.Glib.{Glib, GlibLaws}
use network_config_manager.Outcome.{Outcome, ok, err, enoent}
use network_config_manager.EnumTable.{enum_to_name}
use network_config_manager.EnumTable.Network.{link_local_address_type}
use network_config_manager.KeyFile.{KeyFile, key_file_parse_str}
use network_config_manager.KeyFile.Text.{save_sections}
use network_config_manager.KeyFile.Stays.{IsPrintableEdit}
use network_config_manager.NetworkUtil.Names.{IfNameIndex}
use network_config_manager.Settings.{Setting, when, if_bool, if_str, is_set, set_bool}
use network_config_manager.Settings.Overlay.{
  HasText, overlay, overlay-append, overlay-when, overlay-other, text_or_empty,
  write_settings-Written,
}
use network_config_manager.ConfFile.{Files}
use network_config_manager.ConfFile.EndToEnd.{FilesLaws, parse_key_file-Holds}
use network_config_manager.Network.Paths.{System, determine_network_conf_file}
use network_config_manager.Network.Created.{SystemLaws, IsReady, reload-Holds, key_file_save-Holds}
use network_config_manager.Network.Written.{parse_str-Written}
use network_config_manager.Network.Saved.{create_network-Started}
use network_config_manager.Manager.{rewrite_file}
use network_config_manager.Manager.Setters.{is_kind, dhcp_client_ipv4, dhcp_client_ipv6}
use network_config_manager.Manager.Dynamic.{
  DhcpUses, DynamicConf, dynamic_settings, identifier_settings, kind_lla_settings,
  accept_ra_settings, lla_settings, dhcp_kind_settings, use_settings, dhcp_client_yes,
  manager_set_link_dynamic_conf,
}

abbrev network : Bytes
network = codes "Network"

abbrev lla : Bytes
lla = codes "LinkLocalAddressing"

-- What DHCP asks of the link-local addresses.
abbrev kind_lla : Long → Outcome Bytes → Outcome Bytes
kind_lla kind old =
    if is_kind dhcp_client_yes kind || is_kind dhcp_client_ipv6 kind
    then ok (codes "ipv6")
    else if is_kind dhcp_client_ipv4 kind
    then ok (codes "no")
    else old

-- The mode that is given, or what router advertisements need, or what DHCP asks for.
abbrev pub chosen_lla : DynamicConf → Outcome Bytes → Outcome Bytes
chosen_lla c old =
    if is_set c.lla
    then ok (text_or_empty (enum_to_name link_local_address_type c.lla))
    else if is_set c.accept_ra
    then ok (codes "ipv6")
    else kind_lla c.dhcp_kind old

abbrev Keeps : List Setting → Type 0
Keeps ss = (old : Outcome Bytes) → overlay ss network lla old ≡ old

both : (ss ts : List Setting) → Keeps ss → Keeps ts → Keeps (ss ++ ts)
both ss ts h i old = overlay-append ss ts network lla old ∙ i (overlay ss network lla old) ∙ h old

kept_when : (b : Bool) (ss : List Setting) → Keeps ss → Keeps (when b ss)
kept_when true ss h old = h old
kept_when false ss h old = unfold overlay in refl

kept_if_str :
    (section k : Bytes) (v : Option Bytes)
    → (streq section network && streq k lla) ≡ false
    → Keeps (if_str section k v)
kept_if_str section k none e old = unfold overlay in refl
kept_if_str section k (some x) e old =
    overlay-other (if_str section k (some x)) network lla old (e, tt)

kept_if_bool :
    (section k : Bytes) (v : Long)
    → (streq section network && streq k lla) ≡ false
    → Keeps (if_bool section k v)
kept_if_bool section k v e =
    kept_when (is_set v) (set_bool section k v)
      (λ old. overlay-other (set_bool section k v) network lla old (e, tt))

overlay-if :
    (b : Bool) (xs ys : List Setting) (section k : Bytes) (old : Outcome Bytes)
    → overlay (if b then xs else ys) section k old
      ≡ (if b then overlay xs section k old else overlay ys section k old)
overlay-if true xs ys section k old = refl
overlay-if false xs ys section k old = refl

lla_settings-overlay :
    (v : Long) (old : Outcome Bytes)
    → overlay (lla_settings v) network lla old
      ≡ (if is_set v then ok (text_or_empty (enum_to_name link_local_address_type v)) else old)
unfolding lla_settings overlay streq
lla_settings-overlay v old = overlay-when (is_set v) _ network lla old

accept_ra-overlay :
    (v : Long) (old : Outcome Bytes)
    → overlay (accept_ra_settings v) network lla old ≡ (if is_set v then ok (codes "ipv6") else old)
unfolding accept_ra_settings overlay streq
accept_ra-overlay v old = overlay-when (is_set v) _ network lla old

kind_lla-overlay :
    (v : Long) (old : Outcome Bytes)
    → overlay (kind_lla_settings v) network lla old ≡ kind_lla v old
unfolding kind_lla_settings overlay streq
kind_lla-overlay v old =
    overlay-if (is_kind dhcp_client_yes v || is_kind dhcp_client_ipv6 v) _ _ network lla old
    ∙ ap
        (λ o.
          if is_kind dhcp_client_yes v || is_kind dhcp_client_ipv6 v then ok (codes "ipv6") else o)
        (overlay-when (is_kind dhcp_client_ipv4 v) _ network lla old)

dhcp_kind-kept : (v : Long) → Keeps (dhcp_kind_settings v)
unfolding dhcp_kind_settings streq
dhcp_kind-kept v = kept_when (is_set v) _ (λ old. overlay-other _ network lla old (refl, tt))

identifier-kept : (c : DynamicConf) → Keeps (identifier_settings c)
unfolding identifier_settings streq
identifier-kept c =
    both _ _
      (both _ _
        (kept_when (is_set c.dhcp4_identifier) _
          (λ old. overlay-other _ network lla old (refl, tt)))
        (kept_if_str (codes "DHCPv4") (codes "IAID") c.iaid4 refl))
      (kept_if_str (codes "DHCPv6") (codes "IAID") c.iaid6 refl)

uses-kept : (u : DhcpUses) → Keeps (use_settings u)
unfolding use_settings streq
uses-kept u =
    both _ _
      (both _ _
        (both _ _
          (both _ _
            (both _ _ (kept_if_bool (codes "DHCPv4") (codes "UseDNS") u.use_dns_ipv4 refl)
              (kept_if_bool (codes "DHCPv6") (codes "UseDNS") u.use_dns_ipv6 refl))
            (kept_if_bool (codes "DHCPv4") (codes "UseDomains") u.use_domains_ipv4 refl))
          (kept_if_bool (codes "DHCPv6") (codes "UseDomains") u.use_domains_ipv6 refl))
        (kept_if_bool (codes "DHCPv4") (codes "SendRelease") u.send_release_ipv4 refl))
      (kept_if_bool (codes "DHCPv6") (codes "SendRelease") u.send_release_ipv6 refl)

dynamic-overlay :
    (c : DynamicConf) (old : Outcome Bytes)
    → overlay (dynamic_settings c) network lla old ≡ chosen_lla c old
unfolding dynamic_settings
dynamic-overlay c old =
    overlay-append _ (use_settings c.uses) network lla old
    ∙ uses-kept c.uses _
    ∙ overlay-append _ (dhcp_kind_settings c.dhcp_kind) network lla old
    ∙ dhcp_kind-kept c.dhcp_kind _
    ∙ overlay-append _ (lla_settings c.lla) network lla old
    ∙ lla_settings-overlay c.lla _
    ∙ ap
        (λ o.
          if is_set c.lla
          then ok (text_or_empty (enum_to_name link_local_address_type c.lla))
          else o)
        (overlay-append _ (accept_ra_settings c.accept_ra) network lla old
          ∙ accept_ra-overlay c.accept_ra _
          ∙ ap (λ o. if is_set c.accept_ra then ok (codes "ipv6") else o)
              (overlay-append (identifier_settings c) (kind_lla_settings c.dhcp_kind) network lla
                  old
                ∙ kind_lla-overlay c.dhcp_kind _
                ∙ ap (kind_lla c.dhcp_kind) (identifier-kept c old)))

module _ (fs : Files) (sys : System fs) (files : FilesLaws fs) (system : SystemLaws fs sys)
    (path : Bytes) (ready : IsReady fs sys path) (g : Glib) (laws : GlibLaws g) where
  -- With `keep` unset, for a link whose name can be written, settings that all have their texts, and
  -- files where creating and writing succeed: `manager_set_link_dynamic_conf` returns success, and the
  -- link's .network file, whatever it held before, then holds the saved text of a key file in which
  -- every key reads as the last of the settings says, Name= of [Match] as the link's name, and no other
  -- is there; LinkLocalAddressing= is the given mode, without one "ipv6" where router advertisements
  -- are set, without these what DHCP needs.
  pub manager_set_link_dynamic_conf-Holds :
      (p : IfNameIndex) (c : DynamicConf) (st : fs.State)
      → determine_network_conf_file p.ifname ≡ path
      → IsPrintableEdit (codes "Match") (codes "Name") p.ifname
      → All HasText (dynamic_settings c)
      → (st' : fs.State) × (manager_set_link_dynamic_conf fs sys g p c false st ≡ (ok tt, st'))
        × (kf : KeyFile) × (text : Bytes) × (fs.get_contents path st' ≡ ok text)
        × (save_sections kf.sections ≡ ok text)
        × ((section k : Bytes)
            → key_file_parse_str kf section k
              ≡ overlay (dynamic_settings c) section k (
                  if streq (codes "Match") section && streq (codes "Name") k
                  then ok p.ifname
                  else err enoent))
        × (key_file_parse_str kf (codes "Network") (codes "LinkLocalAddressing")
            ≡ chosen_lla c (err enoent))
  unfolding manager_set_link_dynamic_conf rewrite_file streq
  manager_set_link_dynamic_conf-Holds p c st at name texts =
      let (s₁, made, new) =
        create_network-Started fs sys files system path ready g laws p.ifname st at name in
      let (after, s₂, written, w) =
        write_settings-Written fs path ready.writable new.read_as (dynamic_settings c) s₁ new.named
          new.intact texts in
      let (s₃, saved, text, text_is, there) =
        key_file_save-Holds fs sys files system path ready g after s₂ (w.name_kept ∙ new.named)
          w.intact in
      let (s₄, reloaded, there') = reload-Holds fs sys files system path ready text s₃ there in
      let read =
        parse_key_file-Holds fs files path ready.writable g new.text s₁ new.there
        ∙ ap (λ r. (r, s₁)) new.parsed in
      let reads = λ (section : Bytes) (k : Bytes).
        parse_str-Written new.read_as after (dynamic_settings c) section k w
        ∙ ap (overlay (dynamic_settings c) section k) (new.reads section k) in
      (
        s₄,
        rw made (rw read (rw written (rw saved reloaded))),
        after,
        text,
        there'.1,
        text_is,
        reads,
        reads network lla ∙ dynamic-overlay c (err enoent),
      )
