-- ===== src/Settings/Overlay.antt =====
-- What a run of settings leaves in a key file: the sections of a specification, in which a reader
-- finds the last setting of each key.
use network_config_manager.Base.{
  ℕ, ◌≡◌, refl, ap, sym, ◌∙◌, Bool, true, false, ◌&&◌, List, [], ◌∷◌, ◌++◌, Bytes, Option, none,
  some, if◌then◌else◌, All, arith,
}
use network_config_manager.CLib.{streq}
use network_config_manager.Outcome.{Outcome, ok, err, fault}
use network_config_manager.KeyFile.{Section, KeyFile, key_file_parse_str}
use network_config_manager.KeyFile.Put.{
  IsIntact, IsCounted, put, find_in-put, set_config-Edited, Edited,
}
use network_config_manager.ConfFile.{Files, bind-ok, set_file_permisssion, networkd_user}
use network_config_manager.ConfFile.EndToEnd.{IsWritable}
use network_config_manager.Settings.{
  when, Value, text, number, counted, Setting, value_text, owner_of, write_setting, write_settings,
}

-- The value is a text: not NULL, and not read outside a table.
abbrev pub HasText : Setting → Type 0
HasText s = (x : Bytes) × (value_text s.value ≡ ok (some x))

abbrev pub text_or_empty : Outcome (Option Bytes) → Bytes
text_or_empty (ok none) = []
text_or_empty (ok (some x)) = x
text_or_empty (err n) = []
text_or_empty fault = []

abbrev pub text_of_setting : Setting → Bytes
text_of_setting s = text_or_empty (value_text s.value)

unfoldable pub put_all : List Section → List Setting → List Section
put_all base [] = base
put_all base (s ∷ ss) = put_all (put base s.section s.key (text_of_setting s)) ss

-- What a reader finds for a key behind the settings, `old` being what it found before.
unfoldable pub overlay : List Setting → Bytes → Bytes → Outcome Bytes → Outcome Bytes
overlay [] section k old = old
overlay (s ∷ ss) section k old =
    overlay ss section k
      (if streq s.section section && streq s.key k then ok (text_of_setting s) else old)

parse_str-put :
    (kf : KeyFile) (base : List Section) (t j x section k : Bytes)
    → key_file_parse_str (record kf { sections = put base t j x }) section k ≡ (
        if streq t section && streq j k
        then ok x
        else key_file_parse_str (record kf { sections = base }) section k)
unfolding key_file_parse_str
parse_str-put kf base t j x section k = ground (arith, find_in-put base t j x section k)

pub parse_str-put_all :
    (kf : KeyFile) (base : List Section) (ss : List Setting) (section k : Bytes)
    → key_file_parse_str (record kf { sections = put_all base ss }) section k
      ≡ overlay ss section k (key_file_parse_str (record kf { sections = base }) section k)
unfolding put_all overlay
parse_str-put_all kf base [] section k = refl
parse_str-put_all kf base (s ∷ ss) section k =
    parse_str-put_all kf (put base s.section s.key (text_of_setting s)) ss section k
    ∙ ap (overlay ss section k)
        (parse_str-put kf base s.section s.key (text_of_setting s) section k)

if-if :
    (x y : Outcome Bytes) (b : Bool)
    → (if b then x else (if b then x else y)) ≡ (if b then x else y)
if-if x y true = refl
if-if x y false = refl

-- Where the first setting is a key's value, it does not matter whether the key had it before.
pub overlay_first :
    (t j x : Bytes) (ss all : List Setting)
    → all ≡ record { section = t; key = j; value = text (ok (some x)) } ∷ ss
    → (section k : Bytes) (old : Outcome Bytes)
    → overlay all section k (if streq t section && streq j k then ok x else old)
      ≡ overlay all section k old
unfolding overlay
overlay_first t j x ss all e section k old =
    rw e (ap (overlay ss section k) (if-if (ok x) old (streq t section && streq j k)))

pub overlay-append :
    (ss ts : List Setting) (section k : Bytes) (old : Outcome Bytes)
    → overlay (ss ++ ts) section k old ≡ overlay ts section k (overlay ss section k old)
unfolding overlay
overlay-append [] ts section k old = refl
overlay-append (s ∷ ss) ts section k old =
    overlay-append ss ts section k
      (if streq s.section section && streq s.key k then ok (text_of_setting s) else old)

pub overlay-when :
    (b : Bool) (ss : List Setting) (section k : Bytes) (old : Outcome Bytes)
    → overlay (when b ss) section k old ≡ (if b then overlay ss section k old else old)
unfolding overlay
overlay-when true ss section k old = refl
overlay-when false ss section k old = refl

-- Settings that do not set the key leave it.
pub overlay-other :
    (ss : List Setting) (section k : Bytes) (old : Outcome Bytes)
    → All (λ s. (streq s.section section && streq s.key k) ≡ false) ss
    → overlay ss section k old ≡ old
unfolding overlay
overlay-other [] section k old h = refl
overlay-other (s ∷ ss) section k old h = rw (h.0, overlay) (overlay-other ss section k old h.1)

-- What a run of settings promises of the key file.
pub record Written (before after : KeyFile) (ss : List Setting) : Type 0 where
  pub sections_are : after.sections ≡ put_all before.sections ss
  pub name_kept : after.name ≡ before.name
  pub counted : IsCounted before → IsCounted after
  pub intact : IsIntact after.sections

module _ (fs : Files) (path : Bytes) (w : IsWritable fs path) where
  permission-chown :
      (st : fs.State) (ids : ℕ × ℕ)
      → fs.getpwnam (networkd_user fs) st ≡ ok ids
      → set_file_permisssion fs path (networkd_user fs) st ≡ fs.chown path ids.0 ids.1 st
  unfolding set_file_permisssion
  permission-chown st ids e = rw (e, set_file_permisssion)

  permission_ok :
      (p : Bytes) (st : fs.State)
      → p ≡ path
      → (st' : fs.State) × (set_file_permisssion fs p (networkd_user fs) st ≡ (ok tt, st'))
  permission_ok p st e =
      let (ids, found) = w.user st in
      let st' = (fs.chown path ids.0 ids.1 st).1 in
      (
        st',
        ap (λ q. set_file_permisssion fs q (networkd_user fs) st) e
            ∙ permission-chown st ids found
            ∙ ap (λ r. (r, st')) (w.owned ids.0 ids.1 st),
      )

  owner_of-ok :
      (v : Value) (kf : KeyFile) (st : fs.State)
      → kf.name ≡ path
      → (st' : fs.State) × (owner_of fs v kf st ≡ (ok tt, st'))
  owner_of-ok (text x) kf st e = (st, refl)
  owner_of-ok (number v) kf st e = (st, refl)
  owner_of-ok (counted v) kf st e = permission_ok kf.name st e

  write_setting-Edited :
      (kf : KeyFile) (s : Setting) (st : fs.State)
      → kf.name ≡ path
      → IsIntact kf.sections
      → HasText s
      → (after : KeyFile) × (st' : fs.State) × (write_setting fs kf s st ≡ (ok after, st'))
        × Edited kf after s.section s.key (text_of_setting s)
  unfolding write_setting
  write_setting-Edited kf s st named h (x, has) =
      let y = text_of_setting s in
      let same : value_text s.value ≡ ok (some y) =
        has ∙ ap (λ z. ok (some z)) (sym (ap text_or_empty has)) in
      let (after, set, edit) = set_config-Edited kf s.section s.key y h in
      let (st', owned) = owner_of-ok s.value after st (edit.name_kept ∙ named) in
      (after, st', rw same (rw set (rw owned refl)), edit)

  pub write_settings-Written :
      (kf : KeyFile) (ss : List Setting) (st : fs.State)
      → kf.name ≡ path
      → IsIntact kf.sections
      → All HasText ss
      → (after : KeyFile) × (st' : fs.State) × (write_settings fs kf ss st ≡ (ok after, st'))
        × Written kf after ss
  unfolding write_settings put_all
  write_settings-Written kf [] st named h has =
      (kf, st, refl, record { sections_are = refl; name_kept = refl; counted = λ c. c; intact = h })
  write_settings-Written kf (s ∷ ss) st named h (p, has) =
      let (mid, st₁, done, edit) = write_setting-Edited kf s st named h p in
      let (after, st', rest, w') =
        write_settings-Written mid ss st₁ (edit.name_kept ∙ named) edit.intact has in
      (
        after,
        st',
        bind-ok fs (write_setting fs kf s) (λ kf'. write_settings fs kf' ss) st done ∙ rest,
        record {
          sections_are = w'.sections_are ∙ ap (λ b. put_all b ss) edit.sections_are;
          name_kept = w'.name_kept ∙ edit.name_kept;
          counted = λ c. w'.counted (edit.counted c);
          intact = w'.intact;
        },
      )
