-- ===== src/Prelude/Arrays.antt =====
-- Slices that are read and written at an index. A read out of range has the default, and a write
-- out of range changes nothing; the programs modelled here do neither.
use Prim.Native.Nat.{ℕ, zero, suc, ◌+◌, ◌<◌}
use mathlib.Core.Path.{◌≡◌, refl, ap}
use mathlib.Core.List.{List, [], ◌∷◌, ◌++◌}
use native.Mathlib.Omega.{arith}
use duto_ai.Prelude.Tests.{◌==◌, if◌then◌else◌}
use duto_ai.Prelude.Lists.{length}

module _ {ℓ} {A : Type ℓ} where
  abbrev pub get_or : List A → ℕ → A → A
  get_or [] i d = d
  get_or (x ∷ xs) zero d = x
  get_or (x ∷ xs) (suc i) d = get_or xs i d

  -- xs[i] = f(xs[i])
  abbrev pub update : List A → ℕ → (A → A) → List A
  update [] i f = []
  update (x ∷ xs) zero f = f x ∷ xs
  update (x ∷ xs) (suc i) f = x ∷ update xs i f

  pub length-update : (xs : List A) (i : ℕ) (f : A → A) → length (update xs i f) ≡ length xs
  length-update [] i f = refl
  length-update (x ∷ xs) zero f = refl
  length-update (x ∷ xs) (suc i) f = ap suc (length-update xs i f)

  pub get_or-update :
      (xs : List A) (i j : ℕ) (f : A → A) (d : A)
      → i < length xs
      → get_or (update xs i f) j d ≡ (if i == j then f (get_or xs j d) else get_or xs j d)
  get_or-update [] i j f d h = absurd (omega arith)
  get_or-update (x ∷ xs) zero zero f d h = refl
  get_or-update (x ∷ xs) zero (suc j) f d h = ground arith
  get_or-update (x ∷ xs) (suc i) zero f d h = ground arith
  get_or-update (x ∷ xs) (suc i) (suc j) f d h = ground (arith, get_or-update xs i j f d)

-- How often a number stands in a list.
abbrev pub count : ℕ → List ℕ → ℕ
count v [] = 0
count v (x ∷ xs) = (if x == v then 1 else 0) + count v xs

pub count-append : (v : ℕ) (xs ys : List ℕ) → count v (xs ++ ys) ≡ count v xs + count v ys
count-append v [] ys = omega arith
count-append v (x ∷ xs) ys = omega (arith, count-append v xs ys)
