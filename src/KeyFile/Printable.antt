-- ===== src/KeyFile/Printable.antt =====
-- The key files that the format can express, and the text that is written for them.
use network_config_manager.Base.{
  ◌<◌, ◌≡◌, ◌≢◌, refl, List, [], ◌∷◌, ◌++◌, arith, Bytes, length, All, Lacks,
}
use network_config_manager.Glib.{IsTrimmed}
use network_config_manager.Outcome.{ok}
use network_config_manager.KeyFile.{CString, null, str, freed, Key, Section}
use network_config_manager.KeyFile.Text.{save_keys, save_sections, line_max}

-- One line that `str_strip` leaves as it is.
abbrev pub IsPlain : Bytes → Type 0
IsPlain s = Lacks b'\n' s × Lacks b'\\' s × IsTrimmed s

-- A name that opens no section and no comment.
abbrev pub StartsKey : Bytes → Type 0
StartsKey [] = ⊥
StartsKey (c ∷ s) = (c ≢ b'[') × (c ≢ b'#') × (c ≢ b';')

pub record IsPrintableKey (key : Key) : Type 0 where
  pub name_plain : IsPlain key.name
  pub name_starts : StartsKey key.name
  pub name_lacks : Lacks b'=' key.name
  pub value : Bytes
  pub value_is : (key.v ≡ str value)
  pub value_plain : IsPlain value

pub record IsPrintable (s : Section) : Type 0 where
  pub name_one_line : Lacks b'\n' s.name
  pub name_lacks_escape : Lacks b'\\' s.name
  pub name_lacks_bracket : Lacks b']' s.name
  pub name_fits : length s.name < line_max
  pub keys_printable : All IsPrintableKey s.keys

abbrev pub text_of : CString → Bytes
text_of null = []
text_of (str x) = x
text_of freed = []

unfoldable pub render_keys : List Key → Bytes
render_keys [] = []
render_keys (key ∷ ks) = key.name ++ (b'=' ∷ (text_of key.v ++ (b'\n' ∷ render_keys ks)))

unfoldable pub render_section : Bytes → List Key → Bytes → Bytes
unfolding render_keys
render_section name [] r = r
render_section name (key ∷ ks) r =
    b'[' ∷ (name ++ (b']' ∷ b'\n' ∷ (render_keys (key ∷ ks) ++ (b'\n' ∷ r))))

unfoldable pub render : List Section → Bytes
unfolding render_section
render [] = []
render (s ∷ ss) = render_section s.name s.keys (render ss)

-- The sections that have keys.
abbrev pub keep_if_keys : Section → List Key → List Section → List Section
keep_if_keys s [] ss = ss
keep_if_keys s (key ∷ ks) ss = s ∷ ss

unfoldable pub with_keys : List Section → List Section
with_keys [] = []
with_keys (s ∷ ss) = keep_if_keys s s.keys (with_keys ss)

save_keys-render : (ks : List Key) → All IsPrintableKey ks → save_keys ks ≡ ok (render_keys ks)
unfolding save_keys render_keys
save_keys-render [] h = refl
save_keys-render (key ∷ ks) (p, h) = ground (arith, p.value_is, save_keys-render ks h)

pub save_sections-render :
    (ss : List Section) → All IsPrintable ss → save_sections ss ≡ ok (render ss)
unfolding save_sections render
save_sections-render [] h = refl
save_sections-render (s ∷ ss) (p, h) =
    ground (arith, save_keys-render s.keys p.keys_printable, save_sections-render ss h)
