-- ===== src/KeyFile/RoundTrip.antt =====
-- What `key_file_save` writes for a printable key file, `parse_key_file` reads back. Each lemma runs
-- the loop over one piece of the text, with any text behind it.
use mathlib.Core.Path.{subst}
use mathlib.Core.List.{cons-ne-nil}
use network_config_manager.Base.{
  ◌≡◌, ◌≢◌, refl, List, [], ◌∷◌, ◌++◌, arith, Bytes, none, some, All, All-append, Lacks, ap, sym,
  ◌∙◌, append-nil, append_assoc,
}
use network_config_manager.Glib.{Glib, GlibLaws, pieces, pieces-append}
use network_config_manager.Outcome.{Outcome, ok, ◌>>=◌}
use network_config_manager.KeyFile.{
  CString, null, str, freed, Key, Section, KeyFile, key_file_new, section_new, add_key_to_section,
  add_section_to_key_file,
}
use network_config_manager.KeyFile.Put.{IsCounted, add_section_to_key_file-IsCounted}
use network_config_manager.KeyFile.Text.{
  save_sections, Parsing, finish, parse_one, parse_lines, parse_key_file_contents,
}
use network_config_manager.KeyFile.Lines.{parse_one_empty, parse_one_header, parse_one_pair}
use network_config_manager.KeyFile.Printable.{
  IsPlain, IsPrintableKey, IsPrintable, text_of, render_keys, render_section, render, keep_if_keys,
  with_keys, save_sections-render,
}

-- The sections are added one by one, as `parse_key_file` does.
add_all : KeyFile → List Section → KeyFile
add_all kf [] = kf
add_all kf (s ∷ ss) = add_all (add_section_to_key_file kf s) ss

add_all-sections : (kf : KeyFile) (ss : List Section) → (add_all kf ss).sections ≡ kf.sections ++ ss
unfolding add_all add_section_to_key_file
add_all-sections kf [] = sym (append-nil kf.sections)
add_all-sections kf (s ∷ ss) =
    add_all-sections (add_section_to_key_file kf s) ss ∙ append_assoc kf.sections (s ∷ []) ss

add_all-name : (kf : KeyFile) (ss : List Section) → (add_all kf ss).name ≡ kf.name
unfolding add_all add_section_to_key_file
add_all-name kf [] = refl
add_all-name kf (s ∷ ss) = add_all-name (add_section_to_key_file kf s) ss

add_all-IsCounted : (kf : KeyFile) (ss : List Section) → IsCounted kf → IsCounted (add_all kf ss)
unfolding add_all
add_all-IsCounted kf [] c = c
add_all-IsCounted kf (s ∷ ss) c =
    add_all-IsCounted (add_section_to_key_file kf s) ss (add_section_to_key_file-IsCounted kf s c)

regroup :
    (n x ks r : Bytes)
    → (n ++ (b'=' ∷ (x ++ (b'\n' ∷ ks)))) ++ r ≡ n ++ (b'=' ∷ (x ++ (b'\n' ∷ (ks ++ r))))
regroup n x ks r = simp append_assoc

module _ (g : Glib) (laws : GlibLaws g) where
  -- The loop over the lines of a text, and what follows it.
  read_text : Parsing → Bytes → Outcome KeyFile
  read_text st text = do st' ← parse_lines g st (pieces b'\n' text); ok (finish st')

  read_text-line :
      (st st' : Parsing) (line r : Bytes)
      → Lacks b'\n' line
      → parse_one g st line ≡ ok st'
      → read_text st (line ++ (b'\n' ∷ r)) ≡ read_text st' r
  unfolding read_text parse_lines
  read_text-line st st' line r h e = rw (pieces-append b'\n' line r h, e, parse_lines)

  abbrev inside : KeyFile → Section → Parsing
  inside kf s = record { key_file = kf; section = some s }

  read_text-pair :
      (kf : KeyFile) (s : Section) (name : Bytes) (v : CString) (r : Bytes)
      → IsPrintableKey (record { name = name; v = v })
      → read_text (inside kf s) (name ++ (b'=' ∷ (text_of v ++ (b'\n' ∷ r))))
        ≡ read_text
            (inside kf (record s { keys = s.keys ++ (record { name = name; v = v } ∷ []) }))
            r
  read_text-pair kf s [] v r p = absurd p.name_starts
  read_text-pair kf s (c ∷ n) null r p = cc p.value_is
  read_text-pair kf s (c ∷ n) freed r p = cc p.value_is
  read_text-pair kf s (c ∷ n) (str x) r p =
      ap (read_text (inside kf s)) (sym (append_assoc (c ∷ n) (b'=' ∷ x) (b'\n' ∷ r)))
      ∙ read_text-line (inside kf s) _ (c ∷ (n ++ (b'=' ∷ x))) r
          (All-append (λ b. b ≢ b'\n') (c ∷ n) (b'=' ∷ x) p.name_plain.0 (omega arith, plain.0))
          (parse_one_pair g laws (inside kf s) s c n x refl p.name_plain p.name_starts p.name_lacks
            plain)
      ∙ unfold add_key_to_section in refl
    where
      plain : IsPlain x
      plain = subst IsPlain (ground (arith, p.value_is)) p.value_plain

  read_text-keys :
      (ks : List Key) (kf : KeyFile) (s : Section) (r : Bytes)
      → All IsPrintableKey ks
      → read_text (inside kf s) (render_keys ks ++ r)
        ≡ read_text (inside kf (record s { keys = s.keys ++ ks })) r
  unfolding render_keys
  read_text-keys [] kf s r h = rw append-nil
  read_text-keys (key ∷ ks) kf s r (p, h) =
      ap (read_text (inside kf s)) (regroup key.name (text_of key.v) (render_keys ks) r)
      ∙ read_text-pair kf s key.name key.v (render_keys ks ++ r) p
      ∙ read_text-keys ks kf (record s { keys = s.keys ++ (key ∷ []) }) r h
      ∙ rw append_assoc

  -- A section's text adds the section.
  read_text-section :
      (st : Parsing) (s : Section) (ks : List Key) (r : Bytes)
      → IsPrintable s
      → s.keys ≡ ks
      → ks ≢ []
      → read_text st (render_section s.name ks r) ≡ read_text (inside (finish st) s) r
  read_text-section st s [] r p e ne = absurd (ne refl)
  read_text-section st s (key ∷ ks) r p e ne =
      unfold render_section in
      ap (read_text st) (sym (append_assoc (b'[' ∷ s.name) (b']' ∷ []) (b'\n' ∷ behind)))
      ∙ read_text-line st (inside (finish st) (section_new s.name)) (b'[' ∷ (s.name ++ (b']' ∷ [])))
          behind
          (
            omega arith,
            All-append (λ b. b ≢ b'\n') s.name (b']' ∷ []) p.name_one_line (omega arith, tt),
          )
          (parse_one_header g laws st s.name p.name_lacks_escape p.name_lacks_bracket p.name_fits)
      ∙ read_text-keys (key ∷ ks) (finish st) (section_new s.name) (b'\n' ∷ r)
          (rw e at p.keys_printable)
      ∙ read_text-line (inside (finish st) whole) (inside (finish st) whole) [] r tt
          (parse_one_empty g laws (inside (finish st) whole))
      ∙ rw e
    where
      behind : Bytes
      behind = render_keys (key ∷ ks) ++ (b'\n' ∷ r)

      whole : Section
      whole = record { name = s.name; keys = key ∷ ks }

  read_text-render_section :
      (st : Parsing) (s : Section) (ks : List Key) (ss : List Section) (r : Bytes)
      → IsPrintable s
      → s.keys ≡ ks
      → ((st' : Parsing) → read_text st' r ≡ ok (add_all (finish st') ss))
      → read_text st (render_section s.name ks r) ≡ ok (add_all (finish st) (keep_if_keys s ks ss))
  unfolding render_section
  read_text-render_section st s [] ss r p e later = later st
  read_text-render_section st s (key ∷ ks) ss r p e later =
      read_text-section st s (key ∷ ks) r p e (cons-ne-nil key ks)
      ∙ later (inside (finish st) s)
      ∙ unfold add_all finish in refl

  read_text-render :
      (ss : List Section) (st : Parsing)
      → All IsPrintable ss
      → read_text st (render ss) ≡ ok (add_all (finish st) (with_keys ss))
  unfolding render with_keys
  read_text-render [] st h =
      unfold read_text pieces parse_lines add_all in rw (parse_one_empty g laws st)
  read_text-render (s ∷ ss) st (p, h) =
      read_text-render_section st s s.keys (with_keys ss) (render ss) p refl
        (λ st'. read_text-render ss st' h)

  abbrev start : Bytes → Parsing
  start path = record { key_file = key_file_new path; section = none }

  parse_key_file_contents-read_text :
      (path text : Bytes) → parse_key_file_contents g path text ≡ read_text (start path) text
  unfolding parse_key_file_contents read_text
  parse_key_file_contents-read_text path [] =
      rw (laws.strsplit_empty b'\n' 0)
        (unfold pieces parse_lines in rw (parse_one_empty g laws (start path)))
  parse_key_file_contents-read_text path (c ∷ text) =
      rw (laws.strsplit_all b'\n' (c ∷ text) (cons-ne-nil c text))

  -- A key file that was read back from the text of sections.
  pub record ReadBack (path : Bytes) (ss : List Section) (kf : KeyFile) : Type 0 where
    pub sections_are : kf.sections ≡ with_keys ss
    pub name_is : kf.name ≡ path
    pub counted : IsCounted kf

  -- Printable sections are written by `key_file_save`, and `parse_key_file` reads from the text the
  -- same sections, keys and values in the same order, but for sections without keys, which are not
  -- written; the number of sections is right.
  pub parse_key_file-save :
      (path : Bytes) (ss : List Section)
      → All IsPrintable ss
      → (text : Bytes) × (save_sections ss ≡ ok text)
        × (kf : KeyFile) × (parse_key_file_contents g path text ≡ ok kf)
        × ReadBack path ss kf
  parse_key_file-save path ss h =
      let kf = add_all (finish (start path)) (with_keys ss) in
      (
        render ss,
        save_sections-render ss h,
        kf,
        parse_key_file_contents-read_text path (render ss) ∙ read_text-render ss (start path) h,
        unfold finish in
            record {
              sections_are = add_all-sections (key_file_new path) (with_keys ss);
              name_is = add_all-name (key_file_new path) (with_keys ss);
              counted = add_all-IsCounted (key_file_new path) (with_keys ss) refl;
            },
      )
