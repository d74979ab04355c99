-- ===== src/Glib/Model.antt =====
-- Concrete text functions that meet the laws asked of GLib: they show that the laws can hold, and
-- let the tests run.
use network_config_manager.Base.{
  ℕ, zero, suc, ◌≡◌, ◌≢◌, refl, ◌∙◌, Bool, true, false, ◌||◌, List, [], ◌∷◌, ◌++◌, arith, Bytes,
  All, ap, ◌==◌, if◌then◌else◌, Lacks,
}
use network_config_manager.CLib.{isspace}
use network_config_manager.Glib.{Glib, GlibLaws, IsBlank, EndsBare, IsTrimmed, pieces, add_front}

unescaped : ℕ → ℕ
unescaped c = if c == b'n' then b'\n' else if c == b't' then b'\t' else c

compress : Bytes → Bytes
compress [] = []
compress (c ∷ []) = if c == b'\\' then [] else c ∷ []
compress (c ∷ d ∷ s) =
    let escaped = unescaped d ∷ compress s in
    let plain = c ∷ compress (d ∷ s) in if c == b'\\' then escaped else plain

is_blank : ℕ → Bool
is_blank c = c == 32 || (c == 9 || (c == 10 || (c == 12 || c == 13)))

trim_left : Bytes → Bytes
unfolding is_blank
trim_left [] = []
trim_left (c ∷ s) = if is_blank c then trim_left s else c ∷ s

keep_front : ℕ → Bytes → Bytes
unfolding is_blank
keep_front c [] = if is_blank c then [] else c ∷ []
keep_front c (d ∷ s) = c ∷ d ∷ s

trim_right : Bytes → Bytes
unfolding keep_front
trim_right [] = []
trim_right (c ∷ s) = keep_front c (trim_right s)

limited : ℕ → ℕ → Bytes → List Bytes
unfolding add_front
limited zero sep s = s ∷ []
limited (suc m) sep [] = [] ∷ []
limited (suc m) sep (c ∷ s) =
    let cut = [] ∷ limited m sep s in
    let on = add_front c (limited (suc m) sep s) in if c == sep then cut else on

split : Bytes → Bytes → ℕ → List Bytes
unfolding limited pieces
split [] sep n = []
split (c ∷ s) [] n = (c ∷ s) ∷ []
split (c ∷ s) (sep ∷ more) zero = pieces sep (c ∷ s)
split (c ∷ s) (sep ∷ more) (suc n) = limited n sep (c ∷ s)

unfoldable pub model : Glib
unfolding compress unescaped trim_left trim_right split
model = record {
  strcompress = compress;
  strstrip = λ s. trim_right (trim_left s);
  strsplit = split;
}

compress_plain : (s : Bytes) → Lacks b'\\' s → compress s ≡ s
unfolding compress
compress_plain [] h = refl
compress_plain (c ∷ []) h = ground arith
compress_plain (c ∷ d ∷ s) h = ground (arith, compress_plain (d ∷ s) h.1)

bare-not_blank : (c : ℕ) → isspace c ≡ false → is_blank c ≡ false
unfolding isspace is_blank
bare-not_blank c h = ground arith

blank-is_blank : (c : ℕ) → IsBlank c → is_blank c ≡ true
unfolding is_blank
blank-is_blank c h = ground arith

trim_left-append : (l t : Bytes) → All IsBlank l → trim_left (l ++ t) ≡ trim_left t
unfolding trim_left
trim_left-append [] t h = refl
trim_left-append (c ∷ l) t h = ground (arith, blank-is_blank c h.0, trim_left-append l t h.1)

trim_left_blank : (r : Bytes) → All IsBlank r → trim_left r ≡ []
unfolding trim_left
trim_left_blank [] h = refl
trim_left_blank (c ∷ r) h = ground (arith, blank-is_blank c h.0, trim_left_blank r h.1)

trim_right_blank : (r : Bytes) → All IsBlank r → trim_right r ≡ []
unfolding trim_right
trim_right_blank [] h = refl
trim_right_blank (c ∷ r) h = ground (arith, blank-is_blank c h.0, trim_right_blank r h.1)

trim_right-append : (s r : Bytes) → EndsBare s → All IsBlank r → trim_right (s ++ r) ≡ s
unfolding trim_right
trim_right-append [] r e h = unfold trim_right in trim_right_blank r h
trim_right-append (c ∷ []) r e h = ground (arith, trim_right_blank r h, bare-not_blank c e)
trim_right-append (c ∷ d ∷ s) r e h = ground (arith, trim_right-append (d ∷ s) r e h)

trim-append : (s r : Bytes) → IsTrimmed s → All IsBlank r → trim_right (trim_left (s ++ r)) ≡ s
unfolding trim_left
trim-append [] r t h = ap trim_right (trim_left_blank r h) ∙ trim_right_blank [] tt
trim-append (c ∷ s) r t h = ground (arith, bare-not_blank c t.0, trim_right-append (c ∷ s) r t.1 h)

limited_one : (sep : ℕ) (a b : Bytes) → Lacks sep a → limited 1 sep (a ++ (sep ∷ b)) ≡ a ∷ b ∷ []
unfolding limited
limited_one sep [] b h = ground arith
limited_one sep (c ∷ a) b h = ground (arith, limited_one sep a b h.1)

limited_single : (sep : ℕ) (s : Bytes) → Lacks sep s → limited 1 sep s ≡ s ∷ []
unfolding limited
limited_single sep [] h = refl
limited_single sep (c ∷ s) h = ground (arith, limited_single sep s h.1)

split_pair_at :
    (sep : ℕ) (a b : Bytes) → Lacks sep a → split (a ++ (sep ∷ b)) (sep ∷ []) 2 ≡ a ∷ b ∷ []
unfolding split
split_pair_at sep [] b h = limited_one sep [] b tt
split_pair_at sep (c ∷ a) b h = limited_one sep (c ∷ a) b h

split_whole : (c : ℕ) (s : Bytes) → s ≢ [] → split s (c ∷ []) 0 ≡ pieces c s
unfolding split
split_whole c [] h = absurd (h refl)
split_whole c (d ∷ s) h = refl

split_single : (c : ℕ) (s : Bytes) → s ≢ [] → Lacks c s → split s (c ∷ []) 2 ≡ s ∷ []
unfolding split
split_single c [] h l = absurd (h refl)
split_single c (d ∷ s) h l = limited_single c (d ∷ s) l

pub model-laws : GlibLaws model
unfolding model
model-laws = record {
  strcompress_plain = compress_plain;
  strstrip_padded =
      λ l s r hl hr t. ap trim_right (trim_left-append l (s ++ r) hl) ∙ trim-append s r t hr;
  strsplit_empty = λ c n. refl;
  strsplit_all = split_whole;
  strsplit_pair = split_pair_at;
  strsplit_single = split_single;
}
