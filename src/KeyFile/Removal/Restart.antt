-- ===== src/KeyFile/Removal/Restart.antt =====
-- The loops of `src/share/config-file.c` and `src/manager/network-manager.c` with
-- `i = g_list_delete_link(key_file->sections, i)`. The call returns the first link, from which the loop
-- goes on, and `key_file->sections` keeps to the link that was first, freed or not.
use network_config_manager.Base.{
  ℕ, zero, suc, ◌+◌, ◌<◌, ◌≡◌, refl, ap, sym, ◌∙◌, Bool, false, List, [], ◌∷◌, ◌++◌, Bytes,
  if◌then◌else◌, length, arith, All, All-append, append-nil, append_assoc, length-append,
}
use network_config_manager.CLib.{streq}
use network_config_manager.Outcome.{Outcome, ok, err, fault, ◌>>=◌}
use network_config_manager.KeyFile.{Key, Section, KeyFile, read}

-- How many keys of the section an inner loop deletes the link for.
unfoldable pub count_keys : (Key → Outcome Bool) → List Key → Outcome ℕ
count_keys hit [] = ok 0
count_keys hit (key ∷ ks) = do b ← hit key; n ← count_keys hit ks; ok ((if b then 1 else 0) + n)

unfoldable pub count_in : Bytes → (Key → Outcome Bool) → Section → Outcome ℕ
count_in name hit s = if streq s.name name then count_keys hit s.keys else ok 0

-- The walk, with the sections in front of the link at hand and those from it on. Without a first section
-- the freed link stays in `key_file->sections`, which every caller reads; of a second key of one
-- section it is the first link that goes.
unfoldable pub restart_walk :
    (Section → Outcome ℕ) → ℕ → List Section → List Section → Outcome (List Section)
restart_walk count zero done rest = fault
restart_walk count (suc n) done [] = ok done
restart_walk count (suc n) done (s ∷ rest) = count s >>= λ h. elim h [
  | zero ↦ restart_walk count n (done ++ (s ∷ [])) rest
  | suc zero ↦ elim done [ [] ↦ fault | d ∷ ds ↦ restart_walk count n (d ∷ []) (ds ++ rest) ]
  | suc (suc k) ↦ fault
]

abbrev triangle : ℕ → ℕ
triangle zero = 0
triangle (suc m) = suc m + triangle m

-- One round for each section, after each deletion again, and one for the end.
abbrev pub rounds : List Section → ℕ
rounds ss = suc (triangle (length ss) + length ss)

unfoldable pub delete_sections : (Section → Outcome ℕ) → KeyFile → Outcome KeyFile
delete_sections count kf = do
  ss ← restart_walk count (rounds kf.sections) [] kf.sections
  ok (record kf { sections = ss })

abbrev is_pair : Bytes → Bytes → Key → Outcome Bool
is_pair k v key = if streq key.name k then (do w ← read key.v; ok (streq w v)) else ok false

unfoldable pub key_file_remove_section_key_value : KeyFile → Bytes → Bytes → Bytes → Outcome KeyFile
key_file_remove_section_key_value kf section k v =
    delete_sections (count_in section (is_pair k v)) kf

-- The specification: the sections without a hit.
unfoldable pub without_counted : (Section → Outcome ℕ) → List Section → Outcome (List Section)
without_counted count [] = ok []
without_counted count (s ∷ rest) = count s >>= λ h. elim h [
  | zero ↦ (do r ← without_counted count rest; ok (s ∷ r))
  | suc zero ↦ without_counted count rest
  | suc (suc k) ↦ fault
]

unfoldable pub behind_first : (Section → Outcome ℕ) → List Section → Outcome (List Section)
behind_first count [] = ok []
behind_first count (s ∷ rest) = count s >>= λ h. elim h [
  | zero ↦ (do r ← without_counted count rest; ok (s ∷ r))
  | suc k ↦ fault
]

abbrev behind : List Section → Outcome (List Section) → Outcome (List Section)
behind done (ok r) = ok (done ++ r)
behind done (err n) = err n
behind done fault = fault

behind-append :
    (ds : List Section) (s : Section) (o : Outcome (List Section))
    → behind (ds ++ (s ∷ [])) o ≡ behind ds (do r ← o; ok (s ∷ r))
behind-append ds s (ok r) = ap ok (append_assoc ds (s ∷ []) r)
behind-append ds s (err n) = refl
behind-append ds s fault = refl

behind-cons :
    (d : Section) (ds : List Section) (o : Outcome (List Section))
    → behind (d ∷ []) (behind ds o) ≡ behind (d ∷ ds) o
behind-cons d ds (ok r) = refl
behind-cons d ds (err n) = refl
behind-cons d ds fault = refl

behind-first :
    (s : Section) (o : Outcome (List Section)) → behind (s ∷ []) o ≡ (do r ← o; ok (s ∷ r))
behind-first s (ok r) = refl
behind-first s (err n) = refl
behind-first s fault = refl

module _ (count : Section → Outcome ℕ) where
  abbrev IsKept : Section → Type 0
  IsKept s = count s ≡ ok 0

  kept-without :
      (ds rest : List Section)
      → All IsKept ds
      → without_counted count (ds ++ rest) ≡ behind ds (without_counted count rest)
  unfolding without_counted
  kept-without [] rest h = ground (arith)
  kept-without (d ∷ ds) rest (k, ks) = rw k (rw (kept-without ds rest ks) (ground (arith)))

  walk-behind :
      (n m : ℕ) (d : Section) (ds rest : List Section)
      → All IsKept (d ∷ ds)
      → length ds + length rest ≡ m
      → triangle m + length rest < n
      → restart_walk count n (d ∷ ds) rest ≡ behind (d ∷ ds) (without_counted count rest)
  unfolding restart_walk without_counted
  walk-behind zero m d ds rest h e b = absurd (omega (arith, b))
  walk-behind (suc n) m d ds [] h e b = ap ok (sym (append-nil (d ∷ ds)))
  walk-behind (suc n) zero d ds (s ∷ rest) h e b = absurd (omega (arith, e))
  walk-behind (suc n) (suc m) d ds (s ∷ rest) h e b =
      by_count (count s) refl
        (λ k.
          walk-behind n (suc m) d (ds ++ (s ∷ [])) rest
            (All-append IsKept (d ∷ ds) (s ∷ []) h (k, tt))
            (omega (arith, e, length-append ds (s ∷ []))) (omega (arith, b))
          ∙ behind-append (d ∷ ds) s (without_counted count rest))
        (walk-behind n m d [] (ds ++ rest) (h.0, tt) (omega (arith, e, length-append ds rest))
            (omega (arith, b, e, length-append ds rest))
          ∙ ap (behind (d ∷ [])) (kept-without ds rest h.1)
          ∙ behind-cons d ds (without_counted count rest))
    where
      by_count :
          (o : Outcome ℕ)
          → count s ≡ o
          → (count s ≡ ok 0
              → restart_walk count n ((d ∷ ds) ++ (s ∷ [])) rest
                ≡ behind (d ∷ ds) (do r ← without_counted count rest; ok (s ∷ r)))
          → (restart_walk count n (d ∷ []) (ds ++ rest)
              ≡ behind (d ∷ ds) (without_counted count rest))
          → (o >>= λ c. elim c [
            | zero ↦ restart_walk count n ((d ∷ ds) ++ (s ∷ [])) rest
            | suc zero ↦ restart_walk count n (d ∷ []) (ds ++ rest)
            | suc (suc k) ↦ fault
          ])
            ≡ behind (d ∷ ds) (
                o >>= λ c. elim c [
                  | zero ↦ (do r ← without_counted count rest; ok (s ∷ r))
                  | suc zero ↦ without_counted count rest
                  | suc (suc k) ↦ fault
                ])
      by_count (err c) k kept gone = refl
      by_count fault k kept gone = refl
      by_count (ok zero) k kept gone = kept k
      by_count (ok (suc zero)) k kept gone = gone
      by_count (ok (suc (suc c))) k kept gone = refl

  restart_walk-behind_first :
      (ss : List Section) → restart_walk count (rounds ss) [] ss ≡ behind_first count ss
  unfolding restart_walk behind_first
  restart_walk-behind_first [] = refl
  restart_walk-behind_first (s ∷ rest) = by_count (count s) refl
    where
      by_count :
          (o : Outcome ℕ)
          → count s ≡ o
          → (o >>= λ c. elim c [
            | zero ↦
                restart_walk count (triangle (length (s ∷ rest)) + length (s ∷ rest)) (s ∷ []) rest
            | suc zero ↦ fault
            | suc (suc k) ↦ fault
          ])
            ≡ (o >>= λ c. elim c [
              | zero ↦ (do r ← without_counted count rest; ok (s ∷ r))
              | suc k ↦ fault
            ])
      by_count (err c) k = refl
      by_count fault k = refl
      by_count (ok zero) k =
          walk-behind (triangle (length (s ∷ rest)) + length (s ∷ rest)) (length rest) s [] rest
            (k, tt) (omega arith) (omega arith)
          ∙ behind-first s (without_counted count rest)
      by_count (ok (suc zero)) k = refl
      by_count (ok (suc (suc c))) k = refl

  -- The walk with `i = g_list_delete_link(key_file->sections, i)` ends, and takes out the sections of
  -- which the inner loop hits one key, and no other. Where it hits a key of the first section, or two of
  -- one section, the key file is left with a freed link.
  pub delete_sections-behind_first :
      (kf : KeyFile)
      → delete_sections count kf
        ≡ (behind_first count kf.sections >>= λ ss. ok (record kf { sections = ss }))
  unfolding delete_sections
  delete_sections-behind_first kf =
      ap (λ o. o >>= λ ss. ok (record kf { sections = ss })) (restart_walk-behind_first kf.sections)
