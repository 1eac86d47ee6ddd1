-- ===== src/Prelude/Cover.antt =====
-- Lists with no repetition, over any decidable equality, and the counting of what they cover.
use Prim.Native.Nat.{suc, ◌≤◌}
use mathlib.Core.Path.{◌≡◌, refl, sym, ◌∙◌, ap, subst}
use mathlib.Core.Logic.{inl, inr}
use mathlib.Core.Bool.{Bool, true, false, ◌||◌, false≢true}
use mathlib.Core.List.{List, [], ◌∷◌}
use native.Mathlib.Omega.{arith}
use duto_ai.Prelude.Tests.{if◌then◌else◌, Bool-cases}
use duto_ai.Prelude.Lists.{length}

module _ {ℓ} {A : Type ℓ} (eq : A → A → Bool) where
  unfoldable pub has : A → List A → Bool
  has a [] = false
  has a (x ∷ xs) = eq x a || has a xs

  abbrev pub Unique : List A → Type 0
  Unique [] = Unit
  Unique (x ∷ xs) = (has x xs ≡ false) × Unique xs

  erase : A → List A → List A
  erase a [] = []
  erase a (x ∷ xs) = if eq x a then xs else x ∷ erase a xs

  module _ (eq_true : (a b : A) → eq a b ≡ true → a ≡ b) (eq_refl : (a : A) → eq a a ≡ true) where
    length-erase : (a : A) (xs : List A) → has a xs ≡ true → length xs ≡ suc (length (erase a xs))
    unfolding has erase
    length-erase a [] h = cc
    length-erase a (x ∷ xs) h = elim (Bool-cases (eq x a)) [
      | inl e ↦ rw e refl
      | inr e ↦ rw e (ap suc (length-erase a xs (rw e at h)))
    ]

    has-erase_ne :
        (a b : A) (xs : List A) → eq a b ≡ false → has b xs ≡ true → has b (erase a xs) ≡ true
    unfolding has erase
    has-erase_ne a b [] n h = cc
    has-erase_ne a b (x ∷ xs) n h = elim (Bool-cases (eq x a)) [
      | inl e ↦ rw e (rw (ap (λ y. eq y b) (eq_true x a e) ∙ n) at h)
      | inr e ↦ rw e (elim (Bool-cases (eq x b)) [
        | inl f ↦ rw f refl
        | inr f ↦ rw f (has-erase_ne a b xs n (rw f at h))
      ])
    ]

    -- As many different elements of a list as the list is long are all of its elements.
    pub Unique-covers :
        (xs ys : List A)
        → Unique xs
        → ((a : A) → has a xs ≡ true → has a ys ≡ true)
        → length ys ≤ length xs
        → (a : A) → has a ys ≡ true
        → has a xs ≡ true
    unfolding has
    Unique-covers [] [] u sub le a h = h
    Unique-covers [] (y ∷ ys) u sub le a h = absurd (omega arith)
    Unique-covers (x ∷ xs) ys u sub le a h = elim (Bool-cases (eq x a)) [
      | inl e ↦ rw e refl
      | inr e ↦ rw e (Unique-covers xs (erase x ys) u.1 inside shorter a (has-erase_ne x a ys e h))
    ]
      where
        there : has x ys ≡ true
        there = sub x (rw (eq_refl x) refl)

        shorter : length (erase x ys) ≤ length xs
        shorter = omega (arith, length-erase x ys there)

        different : (b : A) → has b xs ≡ true → (c : Bool) → eq x b ≡ c → c ≡ false
        different b m true q =
            absurd (false≢true (sym u.0 ∙ subst (λ y. has y xs ≡ true) (sym (eq_true x b q)) m))
        different b m false q = refl

        covered : (c : Bool) {d : Bool} → d ≡ true → (c || d) ≡ true
        covered c p = ground arith

        inside : (b : A) → has b xs ≡ true → has b (erase x ys) ≡ true
        inside b m = has-erase_ne x b ys (different b m (eq x b) refl) (sub b (covered (eq x b) m))
