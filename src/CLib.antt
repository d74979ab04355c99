-- ===== src/CLib.antt =====
-- The functions of the C library that the program's text handling calls, in the C locale: character
-- classes, comparison of strings, and search in them.
pub mod Strtol
pub mod Decimal
use network_config_manager.Base.{
  ℕ, ◌+◌, ◌≡◌, refl, ◌↔◌, Bool, true, false, ◌&&◌, ◌||◌, [], ◌∷◌, arith, leb, ◌==◌, if◌then◌else◌,
  Bytes,
}

unfoldable pub isspace : ℕ → Bool
isspace c = c == 32 || (leb 9 c && leb c 13)

unfoldable pub isdigit : ℕ → Bool
isdigit c = leb b'0' c && leb c b'9'

unfoldable pub isalnum : ℕ → Bool
unfolding isdigit
isalnum c = isdigit c || (leb b'a' c && leb c b'z') || (leb b'A' c && leb c b'Z')

unfoldable pub tolower : ℕ → ℕ
tolower c = if leb b'A' c && leb c b'Z' then c + 32 else c

-- `strcmp(a, b) == 0`
unfoldable pub streq : Bytes → Bytes → Bool
streq [] [] = true
streq (x ∷ xs) (y ∷ ys) = x == y && streq xs ys
streq _ _ = false

-- `strcasecmp(a, b) == 0`
unfoldable pub streq_fold : Bytes → Bytes → Bool
unfolding tolower
streq_fold [] [] = true
streq_fold (x ∷ xs) (y ∷ ys) = tolower x == tolower y && streq_fold xs ys
streq_fold _ _ = false

-- Whether `strchr(s, c)` finds a byte other than the final NUL.
unfoldable pub strchr : Bytes → ℕ → Bool
strchr [] c = false
strchr (x ∷ s) c = x == c || strchr s c

-- Whether `s` begins with `p`.
unfoldable pub has_prefix : Bytes → Bytes → Bool
has_prefix s [] = true
has_prefix [] (x ∷ p) = false
has_prefix (y ∷ s) (x ∷ p) = x == y && has_prefix s p

-- Whether `strstr(s, p)` finds an occurrence.
unfoldable pub strstr : Bytes → Bytes → Bool
unfolding has_prefix
strstr [] p = has_prefix [] p
strstr (x ∷ s) p = has_prefix (x ∷ s) p || strstr s p

pub streq_iff : (a b : Bytes) → (streq a b ≡ true) ↔ (a ≡ b)
unfolding streq
streq_iff (x ∷ a) (y ∷ b) = ground (arith, streq_iff a b)
streq_iff _ _ = ground arith

pub streq_refl : (a : Bytes) → streq a a ≡ true
streq_refl a = (streq_iff a a).1 refl

pub streq_fold_refl : (a : Bytes) → streq_fold a a ≡ true
unfolding streq_fold
streq_fold_refl [] = refl
streq_fold_refl (x ∷ a) = ground (arith, streq_fold_refl a)
