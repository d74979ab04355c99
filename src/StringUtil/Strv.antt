-- ===== src/StringUtil/Strv.antt =====
-- The string vectors of `src/share/string-util.c`, as lists.
use network_config_manager.Base.{
  ℕ, zero, suc, ◌≤◌, ◌≡◌, refl, Bool, true, false, not, ◌&&◌, ◌||◌, List, [], ◌∷◌, ◌++◌, Bytes,
  Option, none, some, if◌then◌else◌, length, arith,
}
use network_config_manager.CLib.{streq, streq_iff}
use network_config_manager.Glib.{Glib}
use network_config_manager.StringUtil.{str_strip}

-- `g_strv_contains`
unfoldable pub strv_contains : List Bytes → Bytes → Bool
strv_contains [] s = false
strv_contains (x ∷ xs) s = streq x s || strv_contains xs s

abbrev pub strv_empty : List Bytes → Bool
strv_empty [] = true
strv_empty (x ∷ xs) = false

-- `g_strjoinv(" ", l)`
unfoldable pub strv_join : Bytes → List Bytes → Bytes
strv_join sep [] = []
strv_join sep (x ∷ []) = x
strv_join sep (x ∷ y ∷ xs) = x ++ (sep ++ strv_join sep (y ∷ xs))

unfoldable pub missing_from : List Bytes → List Bytes → List Bytes
unfolding strv_contains
missing_from a [] = []
missing_from a (t ∷ b) = let rest = missing_from a b in if strv_contains a t then rest else t ∷ rest

unfoldable pub strv_unique : List Bytes → List Bytes → List Bytes
strv_unique a b = a ++ missing_from a b

unfoldable pub strv_merge : List Bytes → List Bytes → List Bytes
strv_merge a b = a ++ b

unfoldable pub strv_add : List Bytes → Bytes → List Bytes
strv_add l value = l ++ (value ∷ [])

-- A NULL vector becomes a new one.
unfoldable pub strv_extend : List Bytes → Bytes → List Bytes
strv_extend l value = l ++ (value ∷ [])

-- The arguments that are not NULL.
unfoldable pub argv_to_strv : Glib → List (Option Bytes) → List Bytes
argv_to_strv g [] = []
argv_to_strv g (none ∷ argv) = argv_to_strv g argv
argv_to_strv g (some x ∷ argv) = str_strip g x ∷ argv_to_strv g argv

unfoldable pub strv_remove : List Bytes → Bytes → List Bytes
strv_remove [] s = []
strv_remove (x ∷ xs) s = let rest = strv_remove xs s in if streq x s then rest else x ∷ rest

-- The rounds of the loop that are left, at most.
unfoldable pub remove_behind : ℕ → List Bytes → List Bytes
unfolding strv_remove
remove_behind zero s = s
remove_behind (suc n) [] = []
remove_behind (suc n) (x ∷ xs) = x ∷ remove_behind n (strv_remove xs x)

unfoldable pub strv_remove_duplicates : List Bytes → List Bytes
strv_remove_duplicates s = remove_behind (length s) s

-- Each word stands once.
unfoldable pub words_once : List Bytes → Bool
words_once [] = true
words_once (x ∷ xs) = not (strv_contains xs x) && words_once xs

length-strv_remove : (xs : List Bytes) (s : Bytes) → length (strv_remove xs s) ≤ length xs
unfolding strv_remove
length-strv_remove [] s = omega arith
length-strv_remove (x ∷ xs) s = ground (arith, length-strv_remove xs s)

contains-remove :
    (xs : List Bytes) (s y : Bytes)
    → strv_contains (strv_remove xs s) y ≡ (strv_contains xs y && not (streq s y))
unfolding strv_remove strv_contains
contains-remove [] s y = refl
contains-remove (x ∷ xs) s y =
    ground (arith, contains-remove xs s y, streq_iff x s, streq_iff x y, streq_iff s y)

contains-remove_behind :
    (n : ℕ) (xs : List Bytes) (y : Bytes)
    → strv_contains (remove_behind n xs) y ≡ strv_contains xs y
unfolding remove_behind strv_contains
contains-remove_behind zero xs y = refl
contains-remove_behind (suc n) [] y = refl
contains-remove_behind (suc n) (x ∷ xs) y =
    ground (arith, contains-remove_behind n (strv_remove xs x) y, contains-remove xs x y)

remove_behind-once :
    (n : ℕ) (xs : List Bytes) → length xs ≤ n → words_once (remove_behind n xs) ≡ true
unfolding remove_behind words_once
remove_behind-once zero [] h = refl
remove_behind-once zero (x ∷ xs) h = absurd (omega (arith, h))
remove_behind-once (suc n) [] h = refl
remove_behind-once (suc n) (x ∷ xs) h = ground (
  arith,
  remove_behind-once n (strv_remove xs x) (omega (arith, h, length-strv_remove xs x)),
  contains-remove_behind n (strv_remove xs x) x,
  contains-remove xs x x,
  streq_iff x x,
)

-- `strv_remove_duplicates` ends with the words of the vector, each of them once.
pub strv_remove_duplicates-once :
    (s : List Bytes)
    → (words_once (strv_remove_duplicates s) ≡ true)
      × ((y : Bytes) → strv_contains (strv_remove_duplicates s) y ≡ strv_contains s y)
unfolding strv_remove_duplicates
strv_remove_duplicates-once s =
    (remove_behind-once (length s) s (omega arith), λ y. contains-remove_behind (length s) s y)
