-- ===== src/Manager/Switched.antt =====
-- What `manager_set_ipv4` and `manager_set_ipv6` of `src/manager/network-manager.c` leave of the modes in
-- a link's file.
use network_config_manager.Base.{
  ◌≡◌, refl, ap, ◌∙◌, Bool, true, false, Bool-cases, inl, inr, ◌||◌, ◌++◌, Bytes, codes, Option,
  none, some, if◌then◌else◌, All,
}
use network_config_manager.CLib.{streq}
use network_config_manager.CLib.Strtol.{Long}
use network_config_manager.Glib.{Glib, GlibLaws}
use network_config_manager.Outcome.{ok}
use network_config_manager.KeyFile.{KeyFile, key_file_parse_str}
use network_config_manager.NetworkUtil.{Inet}
use network_config_manager.NetworkUtil.Names.{IfNameIndex}
use network_config_manager.ConfFile.{Files, Call, pure, ◌>>=◌}
use network_config_manager.ConfFile.EndToEnd.{FilesLaws}
use network_config_manager.EnumTable.Network.{dhcp_client_mode_table, link_local_address_type}
use network_config_manager.Settings.{write_settings, unset, is_set, is_positive}
use network_config_manager.Network.Paths.{System}
use network_config_manager.Network.Created.{SystemLaws, IsReady}
use network_config_manager.Manager.Static.{write_words}
use network_config_manager.Manager.Families.{
  Mode, FamilyConf, is_mode, switched, tried, switch_dhcp, switch_lla, write_family,
  client_id_settings, use_settings_of, manager_set_ipv4, manager_set_ipv6, lla_for_ipv6,
  dhcp_of_ipv6, lla_of_ipv6, flag_ipv6, dhcp_of_ipv4, lla_of_ipv4, flag_ipv4,
}
use network_config_manager.Manager.Found.{create_or_parse-found}
use network_config_manager.Manager.Switches.{families, mode_after, switched-Switched}
use network_config_manager.Manager.Modes.{
  IsOther, replace_family-none, Writes, over, InMemory, tried-InMemory,
}
use network_config_manager.Manager.Words.{
  network, dhcp, lla, accept_ra, dhcp-Worded, accept_ra-Worded, lla-Worded, if-Writes,
  switched-Writes, over-false, modes_only,
}
use network_config_manager.Manager.Rewritten.{
  HasModes, FamiliesAre, Edited, dhcp-acquired, lla-acquired, both-tried, write_family-none,
  rewritten-modes, mode_of-read,
}

module _ (fs : Files) (sys : System fs) (files : FilesLaws fs) (system : SystemLaws fs sys)
    (path : Bytes) (ready : IsReady fs sys path) (g : Glib) (laws : GlibLaws g) (inet : Inet) where
  abbrev edit_ipv4 : IfNameIndex → FamilyConf → KeyFile → Call fs KeyFile
  edit_ipv4 p c kf = ◌>>=◌ fs (switch_lla inet fs sys g p lla_of_ipv4 c.lla kf) λ kf₁.
      ◌>>=◌ fs (switch_dhcp inet fs sys g p dhcp_of_ipv4 c.dhcp kf₁) (
        write_family inet fs sys g true path c
          (client_id_settings unset ++ use_settings_of (codes "DHCPv4") c) flag_ipv4)

  -- `manager_set_ipv4` with `keep` and with the two modes alone to set, both set, on a link's own file
  -- without addresses and routes that has a mode of the table, or none, for each: it returns success, and
  -- then DHCP and link-local addresses of IPv4 are on or off in the file as the two numbers say, and
  -- those of IPv6 as they were.
  pub manager_set_ipv4-FamiliesAre :
      (p : IfNameIndex) (v w : Long) (m l : Mode) (st : fs.State)
      → is_set v ≡ true
      → is_set w ≡ true
      → HasModes fs sys files system path ready g laws inet p m l st
      → (st' : fs.State) × (manager_set_ipv4 inet fs sys g p unset (modes_only v w) true st
          ≡ (ok tt, st'))
        × FamiliesAre fs sys files system path ready g laws inet
            (is_positive v, (families m).1)
            (is_positive w, (families l).1)
            st'
  unfolding manager_set_ipv4
  manager_set_ipv4-FamiliesAre p v w m l st hv hw h =
      let d = switched dhcp_of_ipv4 v m in
      let o = switched lla_of_ipv4 w l in
      let (st', done, has_d, has_o) =
        rewritten-modes fs sys files system path ready g laws inet (edit_ipv4 p (modes_only v w)) d
          o m l h.sections st h.own h.others h.has_dhcp h.has_lla
          (λ kf start read.
            let (k₁, k₂, tried₁, tried₂, edit) =
              both-tried fs sys files system path ready g laws inet kf d o
                (switched-Writes dhcp dhcp_of_ipv4 v m dhcp-Worded dhcp-Worded.ipv4
                  dhcp-Worded.ipv6)
                (switched-Writes lla lla_of_ipv4 w l lla-Worded lla-Worded.ipv4 lla-Worded.ipv6)
                start in
            (
              k₂,
              rw
                  (lla-acquired fs sys files system path ready g laws inet p _ l st h.managed
                    (read lla)
                    (mode_of-read fs sys files system path ready g laws inet link_local_address_type
                      lla l _ st h.has_lla (read lla)))
                  (rw tried₁ (
                    rw
                      (dhcp-acquired fs sys files system path ready g laws inet p _ m st h.managed
                        (read dhcp)
                        (mode_of-read fs sys files system path ready g laws inet
                          dhcp_client_mode_table dhcp m _ st h.has_dhcp (read dhcp)))
                      (rw tried₂ (
                        write_family-none fs sys files system path ready g laws inet v w k₂ st
                          edit.memory.others)))),
              edit,
            )) in
      (
        st',
        rw (create_or_parse-found fs sys g laws p path st h.managed) done,
        (
          mode_after dhcp_client_mode_table d m,
          mode_after link_local_address_type o l,
          has_d,
          has_o,
          (switched-Switched v m hv h.known_dhcp).0,
          (switched-Switched w l hw h.known_lla).1,
        ),
      )

  -- What DHCPv6 writes for router advertisements.
  abbrev accept : Long → Option Bytes
  accept v = if is_positive v then some (codes "yes") else none

  accept-Writes : (v : Long) → Writes accept_ra (accept v)
  accept-Writes v = if-Writes accept_ra (is_positive v) _ none accept_ra-Worded.yes tt

  three-tried :
      (kf : KeyFile) (d a o : Option Bytes)
      → Writes dhcp d
      → Writes accept_ra a
      → Writes lla o
      → InMemory path kf
      → (k₁ k₂ k₃ : KeyFile) × (tried dhcp d kf ≡ ok k₁)
        × (tried accept_ra a k₁ ≡ ok k₂)
        × (tried lla o k₂ ≡ ok k₃)
        × Edited fs sys files system path ready g laws inet kf k₃ d o
  unfolding streq
  three-tried kf d a o wd wa wo m =
      let (k₁, tried₁, in₁, reads₁) = tried-InMemory path dhcp d kf wd m in
      let (k₂, tried₂, in₂, reads₂) = tried-InMemory path accept_ra a k₁ wa in₁ in
      let (k₃, tried₃, in₃, reads₃) = tried-InMemory path lla o k₂ wo in₂ in
      (
        k₁,
        k₂,
        k₃,
        tried₁,
        tried₂,
        tried₃,
        record {
          memory = in₃;
          dhcp_is =
              reads₃ dhcp
              ∙ over-false o (key_file_parse_str k₂ network dhcp)
              ∙ reads₂ dhcp
              ∙ over-false a (key_file_parse_str k₁ network dhcp)
              ∙ reads₁ dhcp;
          lla_is =
              reads₃ lla
              ∙ ap (over o true) (
                  reads₂ lla
                  ∙ over-false a (key_file_parse_str k₁ network lla)
                  ∙ reads₁ lla
                  ∙ over-false d (key_file_parse_str kf network lla));
        },
      )

  tried-none : (k : Bytes) (kf : KeyFile) → tried k none kf ≡ ok kf
  unfolding tried
  tried-none k kf = refl

  ipv6_family-none :
      (v w : Long) (kf : KeyFile) (st : fs.State)
      → All IsOther kf.sections
      → write_family inet fs sys g true path
          (modes_only v w)
          (use_settings_of (codes "DHCPv6") (modes_only v w))
          flag_ipv6
          kf
          st
        ≡ (ok kf, st)
  unfolding write_family write_words use_settings_of write_settings
  ipv6_family-none v w kf st h =
      rw (replace_family-none inet (modes_only v w) flag_ipv6 kf refl refl h) refl

  -- The number that `manager_set_ipv6` goes by for link-local addresses: DHCPv6 needs them on.
  abbrev pub lla_number : Long → Long → Long
  lla_number v w = if is_positive v then record { neg = false; size = 3 } else w

  lla_number-set : (v w : Long) → is_set w ≡ true → is_set (lla_number v w) ≡ true
  lla_number-set v w h = elim (Bool-cases (is_positive v)) [
    | inl above ↦ rw above refl
    | inr below ↦ rw below h
  ]

  lla_number-positive :
      (v w : Long) (x y : Bool × Bool)
      → (if is_positive (lla_number v w) then x else y)
        ≡ (if is_positive v || is_positive w then x else y)
  lla_number-positive v w x y = elim (Bool-cases (is_positive v)) [
    | inl above ↦ rw above refl
    | inr below ↦ rw below refl
  ]

  lla_for-number : (v w : Long) → lla_for_ipv6 v unset w ≡ lla_number v w
  unfolding lla_for_ipv6
  lla_for-number v w = elim (Bool-cases (is_positive v)) [
    | inl above ↦ rw above refl
    | inr below ↦ rw below refl
  ]

  abbrev edit_ipv6 : IfNameIndex → FamilyConf → KeyFile → Call fs KeyFile
  edit_ipv6 p c kf = ◌>>=◌ fs (switch_dhcp inet fs sys g p dhcp_of_ipv6 c.dhcp kf) λ kf₁.
      ◌>>=◌ fs (pure fs (tried accept_ra (accept c.dhcp) kf₁)) λ kf₂.
        ◌>>=◌ fs (pure fs (tried accept_ra none kf₂)) λ kf₃.
          ◌>>=◌ fs (switch_lla inet fs sys g p lla_of_ipv6 (lla_for_ipv6 c.dhcp unset c.lla) kf₃)
            (write_family inet fs sys g true path c (use_settings_of (codes "DHCPv6") c) flag_ipv6)

  -- `manager_set_ipv6` with `keep` and with the two modes alone to set, both set, on a link's own file
  -- without addresses and routes that has a mode of the table, or none, for each: it returns success, and
  -- then DHCP of IPv6 is on or off in the file as its number says, and that of IPv4 as it was. Where one of
  -- the numbers is positive, link-local addresses of IPv6 are on, and those of IPv4 as they were; else
  -- those of IPv6 are on only if the mode was "ipv6", and those of IPv4 only if it was "yes".
  pub manager_set_ipv6-FamiliesAre :
      (p : IfNameIndex) (v w : Long) (m l : Mode) (st : fs.State)
      → is_set v ≡ true
      → is_set w ≡ true
      → HasModes fs sys files system path ready g laws inet p m l st
      → (st' : fs.State) × (manager_set_ipv6 inet fs sys g p unset (modes_only v w) true st
          ≡ (ok tt, st'))
        × FamiliesAre fs sys files system path ready g laws inet
            ((families m).0, is_positive v)
            (if is_positive v || is_positive w
              then ((families l).0, true)
              else (is_mode 1 l, is_mode 3 l))
            st'
  unfolding manager_set_ipv6
  manager_set_ipv6-FamiliesAre p v w m l st hv hw h =
      let d = switched dhcp_of_ipv6 v m in
      let n = lla_number v w in
      let o = switched lla_of_ipv6 n l in
      let (st', done, has_d, has_o) =
        rewritten-modes fs sys files system path ready g laws inet (edit_ipv6 p (modes_only v w)) d
          o m l h.sections st h.own h.others h.has_dhcp h.has_lla
          (λ kf start read.
            let (k₁, k₂, k₃, tried₁, tried₂, tried₃, edit) =
              three-tried kf d (accept v) o
                (switched-Writes dhcp dhcp_of_ipv6 v m dhcp-Worded dhcp-Worded.ipv6
                  dhcp-Worded.ipv4)
                (accept-Writes v)
                (switched-Writes lla lla_of_ipv6 n l lla-Worded lla-Worded.ipv6 lla-Worded.ipv4)
                start in
            (
              k₃,
              rw
                  (dhcp-acquired fs sys files system path ready g laws inet p _ m st h.managed
                    (read dhcp)
                    (mode_of-read fs sys files system path ready g laws inet dhcp_client_mode_table
                      dhcp m _ st h.has_dhcp (read dhcp)))
                  (rw tried₁ (
                    rw tried₂ (
                      rw (tried-none accept_ra k₂) (
                        rw
                          (lla-acquired fs sys files system path ready g laws inet p _ l st
                            h.managed (read lla)
                            (mode_of-read fs sys files system path ready g laws inet
                              link_local_address_type lla l _ st h.has_lla (read lla)))
                          (rw (lla_for-number v w)
                            (rw tried₃ (ipv6_family-none v w k₃ st edit.memory.others))))))),
              edit,
            )) in
      (
        st',
        rw (create_or_parse-found fs sys g laws p path st h.managed) done,
        (
          mode_after dhcp_client_mode_table d m,
          mode_after link_local_address_type o l,
          has_d,
          has_o,
          (switched-Switched v m hv h.known_dhcp).2,
          (switched-Switched n l (lla_number-set v w hw) h.known_lla).3
              ∙ lla_number-positive v w _ _,
        ),
      )
