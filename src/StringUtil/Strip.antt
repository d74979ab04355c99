-- ===== src/StringUtil/Strip.antt =====
-- `rstrip` and the pointer functions of `src/share/string-util.c`: what they cut off.
use mathlib.Core.Path.{subst}
use network_config_manager.Base.{
  ℕ, zero, suc, ◌-◌, ◌≤◌, ◌<◌, ◌≡◌, refl, true, false, [], ◌∷◌, ◌++◌, append_assoc, append-nil,
  arith, if◌then◌else◌, Bytes, none, some, length, All, take, get_elem?, Lacks, ap, ◌∙◌, sym,
  Bool-cases, inl, inr, All-append,
}
use network_config_manager.CLib.{isspace, strchr}
use network_config_manager.Glib.{EndsBare}
use network_config_manager.StringUtil.{
  is_space_at, rstrip_from, rstrip, find_chars_or_comment, string_copy, copy_rounds,
}

pub EndsBare-append : (s : Bytes) (c : ℕ) (t : Bytes) → EndsBare (c ∷ t) → EndsBare (s ++ (c ∷ t))
EndsBare-append [] c t h = h
EndsBare-append (a ∷ []) c t h = h
EndsBare-append (a ∷ b ∷ s) c t h = EndsBare-append (b ∷ s) c t h

pub EndsBare-cons : (c : ℕ) (s : Bytes) → isspace c ≡ false → EndsBare s → EndsBare (c ∷ s)
EndsBare-cons c [] h e = h
EndsBare-cons c (d ∷ s) h e = e

-- The last byte of a text, behind the others.
take_last :
    (s : Bytes) (p : ℕ)
    → length s ≡ suc p
    → (z : ℕ) × (get_elem? s p ≡ some z) × (s ≡ take p s ++ (z ∷ [])) × (length (take p s) ≡ p)
take_last [] p e = absurd (omega arith)
take_last (z ∷ []) zero e = (z, refl, refl, refl)
take_last (z ∷ a ∷ s) zero e = absurd (omega arith)
take_last (a ∷ s) (suc p) e =
    let (z, at, splits, len) = take_last s p (omega arith) in (z, at, ap (◌∷◌ a) splits, ap suc len)

EndsBare-concat : (s : Bytes) (z : ℕ) → isspace z ≡ false → EndsBare (s ++ (z ∷ []))
EndsBare-concat s z h = EndsBare-append s z [] h

-- The kept text and what `rstrip` has cut off.
pub record Stripped (s kept : Bytes) : Type 0 where
  pub cut : Bytes
  pub splits : s ≡ kept ++ cut
  pub cut_spaces : All (λ c. isspace c ≡ true) cut
  pub ends_bare : EndsBare kept

rstrip_from_step :
    (p : ℕ) (s : Bytes) (z : ℕ)
    → get_elem? s p ≡ some z
    → rstrip_from (suc p) s ≡ (if isspace z then rstrip_from p (take p s) else s)
unfolding rstrip_from is_space_at
rstrip_from_step p s z at = ground arith

Stripped-concat :
    (s t kept : Bytes) (z : ℕ)
    → s ≡ t ++ (z ∷ [])
    → isspace z ≡ true
    → Stripped t kept
    → Stripped s kept
Stripped-concat s t kept z e space st = record {
  cut = st.cut ++ (z ∷ []);
  splits = e ∙ ap (λ (u : Bytes). u ++ (z ∷ [])) st.splits ∙ append_assoc kept st.cut (z ∷ []);
  cut_spaces = All-append (λ c. isspace c ≡ true) st.cut (z ∷ []) st.cut_spaces (space, tt);
  ends_bare = st.ends_bare;
}

rstrip_from-Stripped : (p : ℕ) (s : Bytes) → length s ≡ p → Stripped s (rstrip_from p s)
rstrip_from-Stripped zero [] e =
    unfold rstrip_from in record { cut = []; splits = refl; cut_spaces = tt; ends_bare = tt }
rstrip_from-Stripped zero (c ∷ s) e = absurd (omega arith)
rstrip_from-Stripped (suc p) s e =
    let (z, at, splits, len) = take_last s p e in
    elim (Bool-cases (isspace z)) [
      | inl space ↦
          rw (rstrip_from_step p s z at, space)
            (Stripped-concat s (take p s) _ z splits space (rstrip_from-Stripped p (take p s) len))
      | inr bare ↦
          rw (rstrip_from_step p s z at, bare)
            (record {
              cut = [];
              splits = sym (append-nil s);
              cut_spaces = tt;
              ends_bare = rw (← splits) at (EndsBare-concat (take p s) z bare);
            })
    ]

-- `rstrip` cuts white space, and all of it, off the end of a text.
pub rstrip-Stripped : (s : Bytes) → Stripped s (rstrip s)
rstrip-Stripped s = unfold rstrip in rstrip_from-Stripped (length s) s refl

EndsBare-not_space :
    (kept cut : Bytes) (c : ℕ)
    → EndsBare (kept ++ (c ∷ cut))
    → All (λ c. isspace c ≡ true) (c ∷ cut)
    → ⊥
EndsBare-not_space [] [] c e (h, _) = cc
EndsBare-not_space [] (d ∷ cut) c e (h, hs) = EndsBare-not_space [] cut d e hs
EndsBare-not_space (a ∷ []) cut c e h = EndsBare-not_space [] cut c e h
EndsBare-not_space (a ∷ b ∷ kept) cut c e h = EndsBare-not_space (b ∷ kept) cut c e h

-- A text that does not end in white space is left as it is.
pub rstrip-EndsBare : (s : Bytes) → EndsBare s → rstrip s ≡ s
rstrip-EndsBare s h =
    go (rstrip-Stripped s).cut (rstrip-Stripped s).splits (rstrip-Stripped s).cut_spaces
  where
    go : (cut : Bytes) → s ≡ rstrip s ++ cut → All (λ c. isspace c ≡ true) cut → rstrip s ≡ s
    go [] e a = sym (e ∙ append-nil (rstrip s))
    go (c ∷ cut) e a = absurd (EndsBare-not_space (rstrip s) cut c (subst EndsBare e h) a)

-- With no stop characters the pointer runs to the end.
pub find_none : (s : Bytes) → find_chars_or_comment s none ≡ (s, [])
unfolding find_chars_or_comment
find_none [] = refl
find_none (c ∷ s) = rw (find_none s)

-- With one stop character the pointer stops at its first occurrence.
pub find_stop :
    (s : Bytes) (b : ℕ) (t : Bytes)
    → Lacks b s
    → find_chars_or_comment (s ++ (b ∷ t)) (some (b ∷ [])) ≡ (s, b ∷ t)
unfolding find_chars_or_comment strchr
find_stop [] b t h = ground arith
find_stop (c ∷ s) b t h = ground (arith, find_stop s b t h.1)

copy_rounds_all : (n : ℕ) (s : Bytes) → length s ≤ n → copy_rounds n s ≡ s
unfolding copy_rounds
copy_rounds_all zero [] h = refl
copy_rounds_all zero (c ∷ s) h = absurd (omega arith)
copy_rounds_all (suc n) [] h = refl
copy_rounds_all (suc n) (c ∷ s) h = ap (◌∷◌ c) (copy_rounds_all n s (omega arith))

-- A text that fits with its NUL is copied whole.
pub string_copy_fits : (s : Bytes) (size : ℕ) → length s < size → string_copy s size ≡ s
unfolding string_copy
string_copy_fits s size h = copy_rounds_all (size - 1) s (omega arith)
