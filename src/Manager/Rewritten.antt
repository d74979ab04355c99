-- ===== src/Manager/Rewritten.antt =====
-- A link's file that `manager_set_ipv4` or `manager_set_ipv6` reads, edits in memory and saves, with the
-- modes that it has before and after.
use mathlib.Core.Path.{subst}
use network_config_manager.Base.{
  ℕ, ◌≡◌, refl, ap, sym, ◌∙◌, Bool, true, List, ◌++◌, Bytes, codes, Option, none, some, All, arith,
}
use network_config_manager.CLib.{streq}
use network_config_manager.CLib.Strtol.{Long}
use network_config_manager.Glib.{Glib, GlibLaws}
use network_config_manager.Outcome.{Outcome, ok, err, fault}
use network_config_manager.KeyFile.{KeyFile, Section, key_file_parse_str}
use network_config_manager.KeyFile.Text.{parse_key_file_contents, save_sections}
use network_config_manager.KeyFile.Printable.{IsPrintable, with_keys}
use network_config_manager.KeyFile.RoundTrip.{parse_key_file-save}
use network_config_manager.KeyFile.Stays.{
  find_in-with_keys, with_keys-IsPrintable, IsPrintable-IsIntact,
}
use network_config_manager.NetworkUtil.{Inet}
use network_config_manager.NetworkUtil.Names.{IfNameIndex}
use network_config_manager.ConfFile.{Files, Call, pure, ◌>>=◌, ◌>>◌, parse_config_file}
use network_config_manager.ConfFile.EndToEnd.{
  Holds, FilesLaws, IsOwnFile, parse_key_file-Holds, parse_config_file-Holds,
}
use network_config_manager.EnumTable.{Enum, enum_of_name}
use network_config_manager.EnumTable.Network.{dhcp_client_mode_table, link_local_address_type}
use network_config_manager.Settings.{write_settings, unset}
use network_config_manager.Network.Paths.{System, or_else}
use network_config_manager.Network.Created.{SystemLaws, IsReady, key_file_save-Holds, reload-Holds}
use network_config_manager.Manager.{acquire, rewrite_file}
use network_config_manager.Manager.Setters.{
  manager_acquire_link_dhcp_client_kind, manager_acquire_link_local_addressing_kind,
}
use network_config_manager.Manager.Static.{write_words}
use network_config_manager.Manager.Families.{
  Mode, is_mode, tried, acquired, write_family, client_id_settings, use_settings_of, flag_ipv4,
}
use network_config_manager.Manager.Found.{IsManaged, parse_link_string-found}
use network_config_manager.Manager.Switches.{families, mode_after, IsKnown}
use network_config_manager.Manager.Modes.{
  IsOther, replace_family-none, Writes, over, InMemory, tried-InMemory,
}
use network_config_manager.Manager.Words.{
  network, dhcp, lla, as_mode, mode_read, IsSafe, dhcp-IsSafe, lla-IsSafe, mode_read-over,
  over-false, modes_only,
}

module _ (fs : Files) (g : Glib) where
  abbrev kind_or_none : Outcome ℕ × fs.State → Outcome Mode × fs.State
  kind_or_none (r, st) = elim r [
    | ok n ↦ (ok (some n), st)
    | err n ↦ (ok none, st)
    | fault ↦ (fault, st)
  ]

  kind_or_none-as_mode : (r : Outcome ℕ) (st : fs.State) → kind_or_none (r, st) ≡ (as_mode r, st)
  kind_or_none-as_mode (ok n) st = refl
  kind_or_none-as_mode (err n) st = refl
  kind_or_none-as_mode fault st = refl

  abbrev resumed : Enum → Outcome Bytes → fs.State → Outcome ℕ × fs.State
  resumed e r = elim r [
    | ok x ↦ pure fs (enum_of_name e x)
    | err n ↦ (λ st. (err n, st))
    | fault ↦ (λ st. (fault, st))
  ]

  kind_or_none-resumed :
      (e : Enum) (r : Outcome Bytes) (st : fs.State)
      → kind_or_none (resumed e r st) ≡ (mode_read e r, st)
  kind_or_none-resumed e (ok x) st = kind_or_none-as_mode (enum_of_name e x) st
  kind_or_none-resumed e (err n) st = refl
  kind_or_none-resumed e fault st = refl

  acquired-mode :
      (e : Enum) (m : Call fs Bytes) (r : Outcome Bytes) (st : fs.State)
      → m st ≡ (r, st)
      → or_else fs
          (◌>>=◌ fs m λ v. pure fs (enum_of_name e v))
          (λ n. pure fs (ok (some n)))
          (pure fs (ok none))
          st
        ≡ (mode_read e r, st)
  acquired-mode e m r st h =
      ap (λ q. kind_or_none (resumed e q.0 q.1)) h ∙ kind_or_none-resumed e r st

parse_str-with_keys :
    (a b : KeyFile) (section k : Bytes)
    → a.sections ≡ with_keys b.sections
    → key_file_parse_str a section k ≡ key_file_parse_str b section k
unfolding key_file_parse_str
parse_str-with_keys a b section k e =
    rw (e, key_file_parse_str) (rw (find_in-with_keys b.sections section k) refl)

module _ (fs : Files) (sys : System fs) (files : FilesLaws fs) (system : SystemLaws fs sys)
    (path : Bytes) (ready : IsReady fs sys path) (g : Glib) (laws : GlibLaws g) (inet : Inet) where
  acquire-found :
      (p : IfNameIndex) (k : Bytes) (r : Outcome Bytes) (st : fs.State)
      → IsManaged fs g p path st
      → parse_config_file fs g path network k st ≡ (r, st)
      → acquire fs g p network k st ≡ (r, st)
  unfolding acquire
  acquire-found p k r st m read =
      rw (parse_link_string-found fs sys g laws p path (codes "NETWORK_FILE") path st m m.has_file)
        (rw m.path_named read)

  pub dhcp-acquired :
      (p : IfNameIndex) (r : Outcome Bytes) (m : Mode) (st : fs.State)
      → IsManaged fs g p path st
      → parse_config_file fs g path network dhcp st ≡ (r, st)
      → mode_read dhcp_client_mode_table r ≡ ok m
      → acquired inet fs sys g (manager_acquire_link_dhcp_client_kind fs g p) st ≡ (ok m, st)
  unfolding manager_acquire_link_dhcp_client_kind
  dhcp-acquired p r m st managed read is_mode =
      acquired-mode fs g dhcp_client_mode_table (acquire fs g p network dhcp) r st
        (acquire-found p dhcp r st managed read)
      ∙ ap (λ o. (o, st)) is_mode

  pub lla-acquired :
      (p : IfNameIndex) (r : Outcome Bytes) (m : Mode) (st : fs.State)
      → IsManaged fs g p path st
      → parse_config_file fs g path network lla st ≡ (r, st)
      → mode_read link_local_address_type r ≡ ok m
      → acquired inet fs sys g (manager_acquire_link_local_addressing_kind fs g p) st ≡ (ok m, st)
  unfolding manager_acquire_link_local_addressing_kind
  lla-acquired p r m st managed read is_mode =
      acquired-mode fs g link_local_address_type (acquire fs g p network lla) r st
        (acquire-found p lla r st managed read)
      ∙ ap (λ o. (o, st)) is_mode

  pub write_family-none :
      (v w : Long) (kf : KeyFile) (st : fs.State)
      → All IsOther kf.sections
      → write_family inet fs sys g true path
          (modes_only v w)
          (client_id_settings unset ++ use_settings_of (codes "DHCPv4") (modes_only v w))
          flag_ipv4
          kf
          st
        ≡ (ok kf, st)
  unfolding write_family write_words client_id_settings use_settings_of write_settings
  write_family-none v w kf st h =
      rw (replace_family-none inet (modes_only v w) flag_ipv4 kf refl refl h) refl

  -- What is found of the two keys in a file that is saved and read again.
  pub record Edited (before after : KeyFile) (d l : Option Bytes) : Type 0 where
    pub memory : InMemory path after
    pub dhcp_is :
        key_file_parse_str after network dhcp ≡ over d true (key_file_parse_str before network dhcp)
    pub lla_is :
        key_file_parse_str after network lla ≡ over l true (key_file_parse_str before network lla)

  pub both-tried :
      (kf : KeyFile) (d l : Option Bytes)
      → Writes dhcp d
      → Writes lla l
      → InMemory path kf
      → (k₁ k₂ : KeyFile) × (tried lla l kf ≡ ok k₁) × (tried dhcp d k₁ ≡ ok k₂) × Edited kf k₂ d l
  unfolding streq
  both-tried kf d l wd wl m =
      let (k₁, tried₁, in₁, reads₁) = tried-InMemory path lla l kf wl m in
      let (k₂, tried₂, in₂, reads₂) = tried-InMemory path dhcp d k₁ wd in₁ in
      (
        k₁,
        k₂,
        tried₁,
        tried₂,
        record {
          memory = in₂;
          dhcp_is =
              reads₂ dhcp
              ∙ ap (over d true) (reads₁ dhcp ∙ over-false l (key_file_parse_str kf network dhcp));
          lla_is = reads₂ lla ∙ over-false d (key_file_parse_str k₁ network lla) ∙ reads₁ lla;
        },
      )

  -- The mode that a key of [Network] has in the file.
  abbrev pub HasMode : Enum → Bytes → Mode → fs.State → Type 0
  HasMode e k m st = mode_read e (parse_config_file fs g path network k st).0 ≡ ok m

  saved-mode :
      (e : Enum) (k : Bytes) (o : Option Bytes) (old : Outcome Bytes) (m : Mode) (kf : KeyFile)
      (text : Bytes) (st : fs.State)
      → IsSafe e
      → Holds fs files path ready.writable text st
      → save_sections kf.sections ≡ ok text
      → All IsPrintable kf.sections
      → key_file_parse_str kf network k ≡ over o true old
      → mode_read e old ≡ ok m
      → HasMode e k (mode_after e o m) st
  saved-mode e k o old m kf text st safe there saved printed found is_mode =
      let (text', saved', kf', parsed, back) =
        parse_key_file-save g laws path kf.sections printed in
      let same : text' ≡ text = ground (arith, saved, saved') in
      ap (λ r. mode_read e r.0)
        (parse_config_file-Holds fs files path ready.writable g text st kf' network k there
          (ap (parse_key_file_contents g path) (sym same) ∙ parsed))
      ∙ ap (mode_read e) (parse_str-with_keys kf' kf network k back.sections_are ∙ found)
      ∙ mode_read-over e o old m safe is_mode

  -- The file is read, the modes are edited in memory, and it is saved.
  pub rewritten-modes :
      (edit : KeyFile → Call fs KeyFile) (d o : Option Bytes) (m l : Mode) (ss : List Section)
      (st : fs.State)
      → IsOwnFile fs files path ready.writable g ss st
      → All IsOther (with_keys ss)
      → HasMode dhcp_client_mode_table dhcp m st
      → HasMode link_local_address_type lla l st
      → ((kf : KeyFile)
          → InMemory path kf
          → ((k : Bytes)
              → parse_config_file fs g path network k st ≡ (key_file_parse_str kf network k, st))
          → (after : KeyFile) × (edit kf st ≡ (ok after, st)) × Edited kf after d o)
      → (st' : fs.State) × (◌>>◌ fs (rewrite_file fs g path edit) sys.network_reload st
          ≡ (ok tt, st'))
        × HasMode dhcp_client_mode_table dhcp (mode_after dhcp_client_mode_table d m) st'
        × HasMode link_local_address_type lla (mode_after link_local_address_type o l) st'
  unfolding rewrite_file
  rewritten-modes edit d o m l ss st own others is_m is_l edits =
      let (text, saved, kf, parsed, back) = parse_key_file-save g laws path ss own.printable in
      let same : text ≡ own.text = ground (arith, saved, own.text_is) in
      let parsed₁ = ap (parse_key_file_contents g path) (sym same) ∙ parsed in
      let read : (k : Bytes)
          → parse_config_file fs g path network k st ≡ (key_file_parse_str kf network k, st) =
        λ k.
          parse_config_file-Holds fs files path ready.writable g own.text st kf network k own.there
            parsed₁ in
      let start : InMemory path kf = record {
        named = back.name_is;
        printable =
            subst (All IsPrintable) (sym back.sections_are)
              (with_keys-IsPrintable ss own.printable);
        others = subst (All IsOther) (sym back.sections_are) others;
      } in
      let (after, edited, e) = edits kf start read in
      let (s₁, done, text₁, text_is, there) =
        key_file_save-Holds fs sys files system path ready g after st e.memory.named
          (IsPrintable-IsIntact after.sections e.memory.printable) in
      let (s₂, reloaded, there₂) = reload-Holds fs sys files system path ready text₁ s₁ there in
      let was_m = ap (λ r. mode_read dhcp_client_mode_table r.0) (sym (read dhcp)) ∙ is_m in
      let was_l = ap (λ r. mode_read link_local_address_type r.0) (sym (read lla)) ∙ is_l in
      let opened =
        parse_key_file-Holds fs files path ready.writable g own.text st own.there
        ∙ ap (λ r. (r, st)) parsed₁ in
      (
        s₂,
        rw opened (rw edited (rw done reloaded)),
        saved-mode dhcp_client_mode_table dhcp d _ m after text₁ s₂ dhcp-IsSafe there₂ text_is
            e.memory.printable e.dhcp_is was_m,
        saved-mode link_local_address_type lla o _ l after text₁ s₂ lla-IsSafe there₂ text_is
            e.memory.printable e.lla_is was_l,
      )

  pub mode_of-read :
      (e : Enum) (k : Bytes) (m : Mode) (r : Outcome Bytes) (st : fs.State)
      → HasMode e k m st
      → parse_config_file fs g path network k st ≡ (r, st)
      → mode_read e r ≡ ok m
  mode_of-read e k m r st h read = ap (λ q. mode_read e q.0) (sym read) ∙ h

  -- A link whose .network file networkd names, and this program wrote and can write, and that has neither
  -- addresses nor routes, with the mode of DHCP and of link-local addresses in it, of the table or none.
  pub record HasModes (p : IfNameIndex) (m l : Mode) (st : fs.State) : Type 0 where
    pub sections : List Section
    pub managed : IsManaged fs g p path st
    pub own : IsOwnFile fs files path ready.writable g sections st
    pub others : All IsOther (with_keys sections)
    pub known_dhcp : IsKnown m
    pub known_lla : IsKnown l
    pub has_dhcp : HasMode dhcp_client_mode_table dhcp m st
    pub has_lla : HasMode link_local_address_type lla l st

  -- What the file has of the families behind an operation.
  abbrev pub FamiliesAre : Bool × Bool → Bool × Bool → fs.State → Type 0
  FamiliesAre d o st =
      (m : Mode) × (l : Mode) × HasMode dhcp_client_mode_table dhcp m st
      × HasMode link_local_address_type lla l st
      × (families m ≡ d)
      × (families l ≡ o)
