-- ===== src/ConfFile/EndToEnd.antt =====
-- `set_config_file_str` on a file that this program wrote, and what `parse_config_file` reads from it
-- afterwards.
use mathlib.Core.Path.{subst}
use network_config_manager.Base.{
  ℕ, ◌≡◌, true, ◌&&◌, List, arith, Bytes, some, All, ap, sym, ◌∙◌, if◌then◌else◌,
}
use network_config_manager.CLib.{streq}
use network_config_manager.Glib.{Glib, GlibLaws}
use network_config_manager.Outcome.{Outcome, ok}
use network_config_manager.KeyFile.{Section, KeyFile, set_config, key_file_parse_str}
use network_config_manager.KeyFile.Put.{put, find_in-put, set_config-Edited}
use network_config_manager.KeyFile.Text.{save_sections, parse_key_file_contents}
use network_config_manager.KeyFile.Printable.{IsPrintable, with_keys}
use network_config_manager.KeyFile.RoundTrip.{parse_key_file-save}
use network_config_manager.KeyFile.Stays.{
  IsPrintableEdit, find_in-with_keys, with_keys-IsPrintable, IsPrintable-IsIntact, put-IsPrintable,
}
use network_config_manager.ConfFile.{
  Files, set_file_permisssion, networkd_user, write_to_conf_file, key_file_save, parse_key_file,
  edit_file, save_edited, set_config_file_str, parse_config_file, bind-ok,
}

-- A file holds what was written to it, and setting an owner changes no contents.
pub record FilesLaws (fs : Files) : Type 0 where
  pub contents_set :
      (path c : Bytes) (st : fs.State)
      → (fs.set_contents path c st).0 ≡ ok tt
      → (fs.exists path (fs.set_contents path c st).1 ≡ true)
        × (fs.get_contents path (fs.set_contents path c st).1 ≡ ok c)
  pub chown_keeps :
      (path : Bytes) (uid gid : ℕ) (st : fs.State)
      → (fs.exists path (fs.chown path uid gid st).1 ≡ fs.exists path st)
        × (fs.get_contents path (fs.chown path uid gid st).1 ≡ fs.get_contents path st)

-- Writing the file and giving it to the user of networkd succeed.
pub record IsWritable (fs : Files) (path : Bytes) : Type 0 where
  pub written : (c : Bytes) (st : fs.State) → (fs.set_contents path c st).0 ≡ ok tt
  pub user : (st : fs.State) → (ids : ℕ × ℕ) × (fs.getpwnam (networkd_user fs) st ≡ ok ids)
  pub owned : (uid gid : ℕ) (st : fs.State) → (fs.chown path uid gid st).0 ≡ ok tt

module _ (fs : Files) (files : FilesLaws fs) (path : Bytes) (w : IsWritable fs path) where
  -- The file is there, with these contents.
  abbrev pub Holds : Bytes → fs.State → Type 0
  Holds c st = (fs.exists path st ≡ true) × (fs.get_contents path st ≡ ok c)

  permission-chown :
      (st : fs.State) (ids : ℕ × ℕ)
      → fs.getpwnam (networkd_user fs) st ≡ ok ids
      → set_file_permisssion fs path (networkd_user fs) st ≡ fs.chown path ids.0 ids.1 st
  unfolding set_file_permisssion
  permission-chown st ids e = rw (e, set_file_permisssion)

  pub permission_keeps :
      (c : Bytes) (st : fs.State)
      → Holds c st
      → (st' : fs.State) × (set_file_permisssion fs path (networkd_user fs) st ≡ (ok tt, st'))
        × Holds c st'
  permission_keeps c st (e, h) =
      let (ids, found) = w.user st in
      let kept = files.chown_keeps path ids.0 ids.1 st in
      let st' = (fs.chown path ids.0 ids.1 st).1 in
      (
        st',
        permission-chown st ids found ∙ ap (λ r. (r, st')) (w.owned ids.0 ids.1 st),
        (kept.0 ∙ e, kept.1 ∙ h),
      )

  pub write-Holds :
      (c : Bytes) (st : fs.State)
      → (st' : fs.State) × (write_to_conf_file fs path c st ≡ (ok tt, st')) × Holds c st'
  unfolding write_to_conf_file
  write-Holds c st =
      let st₁ = (fs.set_contents path c st).1 in
      let (st', done, holds) =
        permission_keeps c st₁ (files.contents_set path c st (w.written c st)) in
      let owner = λ (_ : Unit {0}). set_file_permisssion fs path (networkd_user fs) in
      let set = ap (λ r. (r, st₁)) (w.written c st) in
      (st', bind-ok fs (fs.set_contents path c) owner st set ∙ done, holds)

  module _ (g : Glib) where
    pub parse_key_file-Holds :
        (c : Bytes) (st : fs.State)
        → Holds c st
        → parse_key_file fs g path st ≡ (parse_key_file_contents g path c, st)
    unfolding parse_key_file
    parse_key_file-Holds c st (e, h) = rw e (
        bind-ok fs (λ s. (fs.get_contents path s, s)) (λ x s. (parse_key_file_contents g path x, s))
          st (ap (λ r. (r, st)) h))

    -- Saving writes the text to the path.
    pub saves :
        (kf : KeyFile) (c : Bytes) (st : fs.State)
        → kf.name ≡ path
        → save_sections kf.sections ≡ ok c
        → key_file_save fs kf st ≡ write_to_conf_file fs path c st
    unfolding key_file_save
    saves kf c st named saved =
        bind-ok fs (λ s. (save_sections kf.sections, s)) (write_to_conf_file fs kf.name) st
          (ap (λ r. (r, st)) saved)
        ∙ ap (λ p. write_to_conf_file fs p c st) named

    pub edit_file-Holds :
        (c c' : Bytes) (kf kf' : KeyFile) (edit : KeyFile → Outcome KeyFile) (st : fs.State)
        → Holds c st
        → parse_key_file_contents g path c ≡ ok kf
        → edit kf ≡ ok kf'
        → kf'.name ≡ path
        → save_sections kf'.sections ≡ ok c'
        → (st' : fs.State) × (edit_file fs g path edit st ≡ (ok tt, st')) × Holds c' st'
    unfolding edit_file save_edited
    edit_file-Holds c c' kf kf' edit st h parsed edited named saved =
        let (st₁, wrote, h₁) = write-Holds c' st in
        let (st₂, owned, h₂) = permission_keeps c' st₁ h₁ in
        let owner = set_file_permisssion fs path (networkd_user fs) in
        (
          st₂,
          bind-ok fs (parse_key_file fs g path) (λ k. save_edited fs g path (edit k)) st
                (parse_key_file-Holds c st h ∙ ap (λ r. (r, st)) parsed)
              ∙ ap (λ r. save_edited fs g path r st) edited
              ∙ bind-ok fs (key_file_save fs kf') (λ _. owner) st
                  (saves kf' c' st named saved ∙ wrote)
              ∙ owned,
          h₂,
        )

    pub parse_config_file-Holds :
        (c : Bytes) (st : fs.State) (kf : KeyFile) (section k : Bytes)
        → Holds c st
        → parse_key_file_contents g path c ≡ ok kf
        → parse_config_file fs g path section k st ≡ (key_file_parse_str kf section k, st)
    unfolding parse_config_file
    parse_config_file-Holds c st kf section k h parsed =
        bind-ok fs (parse_key_file fs g path) (λ kf' s. (key_file_parse_str kf' section k, s)) st
          (parse_key_file-Holds c st h ∙ ap (λ r. (r, st)) parsed)

    -- A file of printable sections, as `key_file_save` writes them.
    pub record IsOwnFile (ss : List Section) (st : fs.State) : Type 0 where
      pub text : Bytes
      pub there : Holds text st
      pub text_is : save_sections ss ≡ ok text
      pub printable : All IsPrintable ss

    module _ (laws : GlibLaws g) where
      pub reads_edited :
          (kf kf' : KeyFile) (section k x section' k' : Bytes)
          → kf'.sections ≡ with_keys (put kf.sections section k x)
          → key_file_parse_str kf' section' k' ≡ (
              if streq section section' && streq k k'
              then ok x
              else key_file_parse_str kf section' k')
      unfolding key_file_parse_str
      reads_edited kf kf' section k x section' k' e = ground (
        arith,
        e,
        find_in-with_keys (put kf.sections section k x) section' k',
        find_in-put kf.sections section k x section' k',
      )

      -- On a file of printable sections that this program wrote, and can write, `set_config_file_str`
      -- succeeds when the names and the value can be written, and leaves such a file again, with the
      -- value for the key and everything else as before.
      pub set_config_file_str-IsOwnFile :
          (section k x : Bytes) (ss : List Section) (st : fs.State)
          → IsPrintableEdit section k x
          → IsOwnFile ss st
          → (st' : fs.State) × (set_config_file_str fs g path section k (some x) st ≡ (ok tt, st'))
            × (ss' : List Section) × IsOwnFile ss' st'
            × ((section' k' : Bytes)
                → (parse_config_file fs g path section' k' st').0 ≡ (
                    if streq section section' && streq k k'
                    then ok x
                    else (parse_config_file fs g path section' k' st).0))
      unfolding set_config_file_str
      set_config_file_str-IsOwnFile section k x ss st n own =
          let (text, saved, kf, parsed, back) = parse_key_file-save g laws path ss own.printable in
          let same : text ≡ own.text = ground (arith, saved, own.text_is) in
          let ready : All IsPrintable kf.sections =
            subst (All IsPrintable) (sym back.sections_are)
              (with_keys-IsPrintable ss own.printable) in
          let (after, set, edit) =
            set_config-Edited kf section k x (IsPrintable-IsIntact kf.sections ready) in
          let (text', saved', kf', parsed', back') =
            parse_key_file-save g laws path (put kf.sections section k x)
              (put-IsPrintable kf.sections section k x n ready) in
          let parsed₁ = ap (parse_key_file_contents g path) (sym same) ∙ parsed in
          let (st', done, there') =
            edit_file-Holds own.text text' kf after (λ f. set_config f section k (some x)) st
              own.there parsed₁ set (edit.name_kept ∙ back.name_is)
              (ap save_sections edit.sections_are ∙ saved') in
          (
            st',
            done,
            put kf.sections section k x,
            record {
              text = text';
              there = there';
              text_is = saved';
              printable = put-IsPrintable kf.sections section k x n ready;
            },
            λ section' k'.
                ap (λ r. r.0) (parse_config_file-Holds text' st' kf' section' k' there' parsed')
                ∙ reads_edited kf kf' section k x section' k' back'.sections_are
                ∙ ap (λ o. if streq section section' && streq k k' then ok x else o)
                    (sym (
                      ap (λ r. r.0)
                        (parse_config_file-Holds own.text st kf section' k' own.there parsed₁))),
          )

      -- On a file of printable sections that this program wrote, and can write, `set_config_file_str`
      -- succeeds when the names and the value can be written; then `parse_config_file` reads the
      -- value for the key, and for every other section and key what it read before.
      pub parse_config_file-set_config_file_str :
          (section k x : Bytes) (ss : List Section) (st : fs.State)
          → IsPrintableEdit section k x
          → IsOwnFile ss st
          → (st' : fs.State) × (set_config_file_str fs g path section k (some x) st ≡ (ok tt, st'))
            × ((section' k' : Bytes)
                → (parse_config_file fs g path section' k' st').0 ≡ (
                    if streq section section' && streq k k'
                    then ok x
                    else (parse_config_file fs g path section' k' st).0))
      parse_config_file-set_config_file_str section k x ss st n own =
          let (st', done, ss', own', reads) =
            set_config_file_str-IsOwnFile section k x ss st n own in
          (st', done, reads)
