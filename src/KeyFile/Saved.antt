-- ===== src/KeyFile/Saved.antt =====
-- When `key_file_save` has a text to write.
use network_config_manager.Base.{◌≡◌, ◌≢◌, refl, List, [], ◌∷◌, ◌++◌, Bytes}
use network_config_manager.Outcome.{ok}
use network_config_manager.KeyFile.{CString, null, str, freed, Key, Section}
use network_config_manager.KeyFile.Put.{IntactKeys, IsIntact}
use network_config_manager.KeyFile.Text.{written_value, save_keys, save_sections}

written_value-ok : (v : CString) → v ≢ freed → (x : Bytes) × (written_value v ≡ ok x)
written_value-ok null h = ([], refl)
written_value-ok (str x) h = (x, refl)
written_value-ok freed h = absurd (h refl)

save_keys-ok : (ks : List Key) → IntactKeys ks → (text : Bytes) × (save_keys ks ≡ ok text)
unfolding save_keys
save_keys-ok [] h = ([], refl)
save_keys-ok (key ∷ ks) h =
    let (x, read) = written_value-ok key.v h.0 in
    let (r, rest) = save_keys-ok ks h.1 in
    (key.name ++ (b'=' ∷ (x ++ (b'\n' ∷ r))), rw read (rw rest refl))

save_sections-cons :
    (name : Bytes) (ks : List Key) (ss : List Section) (r : Bytes)
    → IntactKeys ks
    → save_sections ss ≡ ok r
    → (text : Bytes) × (save_sections (record { name = name; keys = ks } ∷ ss) ≡ ok text)
unfolding save_sections
save_sections-cons name [] ss r h later = (r, later)
save_sections-cons name (key ∷ ks) ss r h later =
    let (t, keys) = save_keys-ok (key ∷ ks) h in
    (b'[' ∷ (name ++ (b']' ∷ b'\n' ∷ (t ++ (b'\n' ∷ r)))), rw keys (rw later refl))

-- Sections without a freed value are always written.
pub save_sections-ok :
    (ss : List Section) → IsIntact ss → (text : Bytes) × (save_sections ss ≡ ok text)
unfolding save_sections
save_sections-ok [] h = ([], refl)
save_sections-ok (s ∷ ss) h =
    let (r, later) = save_sections-ok ss h.1 in save_sections-cons s.name s.keys ss r h.0 later
