-- ===== src/ParseUtil/Booleans.antt =====
-- `parse_bool` goes by the text without regard to case.
use network_config_manager.Base.{
  ℕ, ◌≡◌, refl, Bool, true, false, List, [], ◌∷◌, ◌++◌, arith, ◌<◌, ◌∙◌, All, Bool-cases, inl, inr,
  Bytes, some, codes,
}
use network_config_manager.CLib.{streq, streq_fold}
use network_config_manager.Outcome.{ok}
use network_config_manager.ParseUtil.{any_fold, yes_words, no_words, parse_bool}

pub streq_fold_congr : (v w x : Bytes) → streq_fold v w ≡ true → streq_fold v x ≡ streq_fold w x
unfolding streq_fold
streq_fold_congr [] [] x h = refl
streq_fold_congr [] (c ∷ w) x h = cc
streq_fold_congr (c ∷ v) [] x h = cc
streq_fold_congr (c ∷ v) (d ∷ w) [] h = refl
streq_fold_congr (c ∷ v) (d ∷ w) (e ∷ x) h = ground (arith, streq_fold_congr v w x)

any_fold_congr :
    (v w : Bytes) (xs : List Bytes) → streq_fold v w ≡ true → any_fold v xs ≡ any_fold w xs
any_fold_congr v w [] h = refl
any_fold_congr v w (x ∷ xs) h = rw (streq_fold_congr v w x h, any_fold_congr v w xs h)

-- A digit has no other case.
pub streq_digit : (v : Bytes) (d : ℕ) → d < 65 → streq v (d ∷ []) ≡ streq_fold v (d ∷ [])
unfolding streq streq_fold
streq_digit [] d h = refl
streq_digit (c ∷ []) d h = ground arith
streq_digit (c ∷ e ∷ v) d h = ground arith

-- Texts that differ only in case are the same boolean, or both none.
pub parse_bool-streq_fold :
    (v w : Bytes) → streq_fold v w ≡ true → parse_bool (some v) ≡ parse_bool (some w)
unfolding parse_bool
parse_bool-streq_fold v w h = rw (
  streq_digit v b'1' (omega arith),
  streq_digit v b'0' (omega arith),
  streq_digit w b'1' (omega arith),
  streq_digit w b'0' (omega arith),
  streq_fold_congr v w (codes "1") h,
  streq_fold_congr v w (codes "0") h,
  any_fold_congr v w (yes_words ++ (codes "enable" ∷ [])) h,
  any_fold_congr v w (no_words ++ (codes "disable" ∷ [])) h,
)

-- The words for a boolean.
abbrev pub words_of : Bool → List Bytes
words_of true =
    codes "1"
    ∷ codes "yes"
    ∷ codes "y"
    ∷ codes "true"
    ∷ codes "t"
    ∷ codes "on"
    ∷ codes "enable"
    ∷ []
words_of false =
    codes "0"
    ∷ codes "no"
    ∷ codes "n"
    ∷ codes "false"
    ∷ codes "f"
    ∷ codes "off"
    ∷ codes "disable"
    ∷ []

any_fold-parse_bool :
    (b : Bool) (v : Bytes) (xs : List Bytes)
    → All (λ x. parse_bool (some x) ≡ ok b) xs
    → any_fold v xs ≡ true
    → parse_bool (some v) ≡ ok b
any_fold-parse_bool b v [] h e = cc
any_fold-parse_bool b v (x ∷ xs) (p, h) e = elim (Bool-cases (streq_fold v x)) [
  | inl same ↦ parse_bool-streq_fold v x same ∙ p
  | inr other ↦ any_fold-parse_bool b v xs h (rw other at e)
]

words_of-parse_bool : (b : Bool) → All (λ x. parse_bool (some x) ≡ ok b) (words_of b)
unfolding parse_bool streq streq_fold
words_of-parse_bool true = (refl, (refl, (refl, (refl, (refl, (refl, (refl, tt)))))))
words_of-parse_bool false = (refl, (refl, (refl, (refl, (refl, (refl, (refl, tt)))))))

-- `parse_bool` reads each of the seven words for true and of the seven for false as that boolean,
-- in any case.
pub parse_bool-words_of :
    (b : Bool) (v : Bytes) → any_fold v (words_of b) ≡ true → parse_bool (some v) ≡ ok b
parse_bool-words_of b v = any_fold-parse_bool b v (words_of b) (words_of-parse_bool b)
