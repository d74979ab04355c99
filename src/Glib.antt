-- ===== src/Glib.antt =====
-- The text functions of GLib that the program calls. GLib is not part of the repository, so they are
-- parameters, with what its documentation says of them. Its lists (`GList`, `GString`, string
-- vectors) are read as plain lists.
pub mod Model
use network_config_manager.Base.{
  arith, ℕ, ◌≡◌, ◌≢◌, ◌⊎◌, false, List, [], ◌∷◌, ◌++◌, ◌==◌, if◌then◌else◌, Bytes, All, Lacks,
}
use network_config_manager.CLib.{isspace}

-- `strsplit s sep n`: at most `n` pieces, or all of them where the program passes 0 or -1.
pub record Glib : Type 0 where
  pub strcompress : Bytes → Bytes
  pub strstrip : Bytes → Bytes
  pub strsplit : Bytes → Bytes → ℕ → List Bytes

abbrev pub IsBlank : ℕ → Type 0
IsBlank c = (c ≡ b' ') ⊎ (c ≡ b'\t')

-- Neither end of the text is white space.
abbrev pub StartsBare : Bytes → Type 0
StartsBare [] = Unit
StartsBare (c ∷ s) = isspace c ≡ false

abbrev pub EndsBare : Bytes → Type 0
EndsBare [] = Unit
EndsBare (c ∷ []) = isspace c ≡ false
EndsBare (c ∷ d ∷ s) = EndsBare (d ∷ s)

abbrev pub IsTrimmed : Bytes → Type 0
IsTrimmed s = StartsBare s × EndsBare s

-- The pieces of a text between the separators; there is one more of them than separators.
unfoldable pub add_front : ℕ → List Bytes → List Bytes
add_front c [] = (c ∷ []) ∷ []
add_front c (p ∷ ps) = (c ∷ p) ∷ ps

unfoldable pub pieces : ℕ → Bytes → List Bytes
unfolding add_front
pieces sep [] = [] ∷ []
pieces sep (c ∷ s) = if c == sep then [] ∷ pieces sep s else add_front c (pieces sep s)

-- What the documentation says of these functions where a text holds no escape, where its ends are
-- padded with blanks, and where the separator is one byte.
pub record GlibLaws (g : Glib) : Type 0 where
  pub strcompress_plain : (s : Bytes) → Lacks b'\\' s → g.strcompress s ≡ s
  pub strstrip_padded :
      (l s r : Bytes) → All IsBlank l → All IsBlank r → IsTrimmed s → g.strstrip (l ++ (s ++ r)) ≡ s
  pub strsplit_empty : (c n : ℕ) → g.strsplit [] (c ∷ []) n ≡ []
  pub strsplit_all : (c : ℕ) (s : Bytes) → s ≢ [] → g.strsplit s (c ∷ []) 0 ≡ pieces c s
  pub strsplit_pair :
      (c : ℕ) (a b : Bytes) → Lacks c a → g.strsplit (a ++ (c ∷ b)) (c ∷ []) 2 ≡ a ∷ b ∷ []
  pub strsplit_single : (c : ℕ) (s : Bytes) → s ≢ [] → Lacks c s → g.strsplit s (c ∷ []) 2 ≡ s ∷ []

-- What one blank-free piece before a separator, or at the end, contributes.
pub pieces-append :
    (sep : ℕ) (p s : Bytes) → Lacks sep p → pieces sep (p ++ (sep ∷ s)) ≡ p ∷ pieces sep s
unfolding pieces
pieces-append sep [] s h = ground arith
pieces-append sep (c ∷ p) s h = ground (arith, pieces-append sep p s h.1)
