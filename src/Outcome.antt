-- ===== src/Outcome.antt =====
-- What a call of a C function comes to: a value, the negative number that it returns on an error,
-- or no return at all.
use network_config_manager.Base.{ℕ, ◌≡◌, refl}

-- `err n` is the return value -n. `fault` is an assertion that fails (`macros.h` undefines NDEBUG),
-- a NULL pointer that is read, or a read or a second free of freed memory.
pub data Outcome {ℓ} (A : Type ℓ) : Type ℓ where
  ok : A → Outcome A
  err : ℕ → Outcome A
  fault : Outcome A

infixl 5 ◌>>=◌
abbrev pub ◌>>=◌ {ℓ κ} : {A : Type ℓ} {B : Type κ} → Outcome A → (A → Outcome B) → Outcome B
ok a >>= f = f a
err n >>= f = err n
fault >>= f = fault

abbrev pub enoent : ℕ
enoent = 2

abbrev pub enxio : ℕ
enxio = 6

abbrev pub einval : ℕ
einval = 22

abbrev pub erange : ℕ
erange = 34

abbrev pub enodata : ℕ
enodata = 61

-- A successful chain has a successful first step.
pub bind-eq-ok {ℓ κ} :
    {A : Type ℓ} {B : Type κ} (m : Outcome A) (f : A → Outcome B) {b : B}
    → (m >>= f) ≡ ok b
    → (a : A) × (m ≡ ok a) × (f a ≡ ok b)
bind-eq-ok (ok a) f h = (a, refl, h)
bind-eq-ok (err n) f h = cc
bind-eq-ok fault f h = cc
