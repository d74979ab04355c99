-- ===== src/KeyFile/Lines.antt =====
-- What a round of the loop of `parse_key_file` makes of a line that was written for a printable key
-- file: a header, a key's line, an empty line.
use network_config_manager.Base.{
  ℕ, ◌<◌, ◌≡◌, ◌≢◌, refl, false, [], ◌∷◌, ◌++◌, arith, Bytes, some, length, All-append, Lacks, ap,
  sym, ◌∙◌, append-nil,
}
use network_config_manager.CLib.{isspace, strchr}
use network_config_manager.Glib.{Glib, GlibLaws, IsTrimmed}
use network_config_manager.Outcome.{ok}
use network_config_manager.StringUtil.{str_strip, split_pair}
use network_config_manager.StringUtil.Strip.{
  EndsBare-append, EndsBare-cons, rstrip-EndsBare, find_none, find_stop, string_copy_fits,
}
use network_config_manager.KeyFile.{Section, section_new, add_key_to_section}
use network_config_manager.KeyFile.Text.{
  line_max, Parsing, finish, open_section, parse_line, add_parsed, parse_entry, parse_stripped,
  parse_one,
}
use network_config_manager.KeyFile.Printable.{IsPlain, StartsKey}

module _ (g : Glib) (laws : GlibLaws g) where
  pub str_strip_plain : (s : Bytes) → Lacks b'\\' s → IsTrimmed s → str_strip g s ≡ s
  unfolding str_strip
  str_strip_plain s h t =
      ap g.strstrip (laws.strcompress_plain s h)
      ∙ ap g.strstrip (sym (append-nil s))
      ∙ laws.strstrip_padded [] s [] tt tt t

  -- A line that nothing is stripped from, and that is no comment, goes on as it is.
  pub parse_one_plain :
      (st : Parsing) (c : ℕ) (s : Bytes)
      → Lacks b'\\' (c ∷ s)
      → IsTrimmed (c ∷ s)
      → c ≢ b'#'
      → c ≢ b';'
      → parse_one g st (c ∷ s) ≡ parse_stripped g st (c ∷ s)
  parse_one_plain st c s h t n m =
      unfold parse_one strchr in
      ground (arith, str_strip_plain (c ∷ s) h t, find_none (c ∷ s), rstrip-EndsBare (c ∷ s) t.1)

  pub parse_one_empty : (st : Parsing) → parse_one g st [] ≡ ok st
  unfolding parse_one
  parse_one_empty st = ground (arith, str_strip_plain [] tt (tt, tt))

  -- The header of a section.
  pub parse_one_header :
      (st : Parsing) (name : Bytes)
      → Lacks b'\\' name
      → Lacks b']' name
      → length name < line_max
      → parse_one g st (b'[' ∷ (name ++ (b']' ∷ [])))
        ≡ ok (record { key_file = finish st; section = some (section_new name) })
  unfolding parse_stripped open_section
  parse_one_header st name h m fits =
      parse_one_plain st b'[' (name ++ (b']' ∷ []))
        (omega arith, All-append (λ c. c ≢ b'\\') name (b']' ∷ []) h (omega arith, tt))
        (bare, EndsBare-append (b'[' ∷ name) b']' [] bracket) (omega arith) (omega arith)
      ∙ ground (arith, find_stop name b']' [] m, string_copy_fits name line_max fits)
    where
      bare : isspace b'[' ≡ false
      bare = unfold isspace in refl

      bracket : isspace b']' ≡ false
      bracket = unfold isspace in refl

  parse_entry_pair :
      (st : Parsing) (s : Section) (c : ℕ) (n x : Bytes)
      → st.section ≡ some s
      → c ≢ b'#'
      → Lacks b'=' (c ∷ n)
      → str_strip g (c ∷ (n ++ (b'=' ∷ x))) ≡ c ∷ (n ++ (b'=' ∷ x))
      → str_strip g (c ∷ n) ≡ c ∷ n
      → str_strip g x ≡ x
      → parse_entry g st (c ∷ (n ++ (b'=' ∷ x)))
        ≡ ok (record st { section = some (add_key_to_section s (c ∷ n) (some x)) })
  unfolding parse_entry parse_line split_pair add_parsed
  parse_entry_pair st s c n x e nc h line name value =
      ground (arith, laws.strsplit_pair b'=' (c ∷ n) x h)

  -- The line of a key.
  pub parse_one_pair :
      (st : Parsing) (s : Section) (c : ℕ) (n x : Bytes)
      → st.section ≡ some s
      → IsPlain (c ∷ n)
      → StartsKey (c ∷ n)
      → Lacks b'=' (c ∷ n)
      → IsPlain x
      → parse_one g st (c ∷ (n ++ (b'=' ∷ x)))
        ≡ ok (record st { section = some (add_key_to_section s (c ∷ n) (some x)) })
  unfolding parse_stripped
  parse_one_pair st s c n x e (n1, n2, n3) (k1, k2, k3) h (x1, x2, x3) =
      parse_one_plain st c (n ++ (b'=' ∷ x)) lacks trimmed k2 k3
      ∙ ground (
        arith,
        parse_entry_pair st s c n x e k2 h (str_strip_plain _ lacks trimmed)
            (str_strip_plain (c ∷ n) n2 n3) (str_strip_plain x x2 x3),
      )
    where
      lacks : Lacks b'\\' (c ∷ (n ++ (b'=' ∷ x)))
      lacks = All-append (λ b. b ≢ b'\\') (c ∷ n) (b'=' ∷ x) n2 (omega arith, x2)

      equals_bare : isspace b'=' ≡ false
      equals_bare = unfold isspace in refl

      trimmed : IsTrimmed (c ∷ (n ++ (b'=' ∷ x)))
      trimmed = (n3.0, EndsBare-append (c ∷ n) b'=' x (EndsBare-cons b'=' x equals_bare x3.1))
