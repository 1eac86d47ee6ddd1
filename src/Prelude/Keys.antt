-- ===== src/Prelude/Keys.antt =====
-- Go's maps with text keys, as association lists, and sets, as lists of texts. Where the source
-- ranges over a map, the order of the list is the order in which Go visits it.
use duto_ai.Prelude.Tests.{if◌then◌else◌, Bool-cases}
use duto_ai.Prelude.Text.{str_eq, str_eq-true, eq_iff, eq_refl}
use duto_ai.Prelude.Lists.{filter, All}
use Prim.Native.String.{String}
use mathlib.Core.Path.{◌≡◌, refl, ap, subst}
use mathlib.Core.Logic.{inl, inr}
use mathlib.Core.Bool.{Bool, true, false, not, ◌&&◌, ◌||◌, false≢true}
use mathlib.Core.Option.{Option, none, some}
use mathlib.Core.List.{List, [], ◌∷◌, ◌++◌}
use native.Mathlib.Omega.{arith}

-- _, exists := set[k]; also slices.Contains(set, k)
unfoldable pub member : String → List String → Bool
member k [] = false
member k (x ∷ xs) = str_eq x k || member k xs

-- set[k] = struct{}{}
unfoldable pub add : String → List String → List String
unfolding member
add k xs = if member k xs then xs else k ∷ xs

-- delete(set, k)
unfoldable pub remove : String → List String → List String
remove k [] = []
remove k (x ∷ xs) = let rest = remove k xs in if str_eq x k then rest else x ∷ rest

-- No key stands twice.
abbrev pub Distinct : List String → Type 0
Distinct [] = Unit
Distinct (x ∷ xs) = (member x xs ≡ false) × Distinct xs

pub member-append :
    (k : String) (xs ys : List String) → member k (xs ++ ys) ≡ (member k xs || member k ys)
unfolding member
member-append k [] ys = refl
member-append k (x ∷ xs) ys = ground (arith, member-append k xs ys)

pub member-add :
    (k j : String) (xs : List String) → member k (add j xs) ≡ (str_eq j k || member k xs)
unfolding add
member-add k j xs = ground (arith, eq_iff j k)

pub member-remove :
    (k j : String) (xs : List String) → member k (remove j xs) ≡ (not (str_eq j k) && member k xs)
unfolding member remove
member-remove k j [] = ground arith
member-remove k j (x ∷ xs) =
    ground (arith, member-remove k j xs, eq_iff x j, eq_iff x k, eq_iff j k)

pub add-Distinct : (k : String) (xs : List String) → Distinct xs → Distinct (add k xs)
unfolding add
add-Distinct k xs d = ground arith

pub remove-Distinct : (k : String) (xs : List String) → Distinct xs → Distinct (remove k xs)
unfolding remove
remove-Distinct k [] d = d
remove-Distinct k (x ∷ xs) d = ground (arith, remove-Distinct k xs d.1, member-remove x k xs)

pub member-filter :
    (p : String → Bool) (k : String) (xs : List String)
    → member k (filter p xs) ≡ (p k && member k xs)
unfolding member filter
member-filter p k [] = ground arith
member-filter p k (x ∷ xs) = ground (arith, member-filter p k xs, eq_iff x k)

pub member_self : (k : String) (xs : List String) → member k (k ∷ xs) ≡ true
unfolding member
member_self k xs = ground (arith, eq_refl k)

module _ {ℓ} {V : Type ℓ} where
  -- value, exists := m[k]
  unfoldable pub lookup : String → List (String × V) → Option V
  lookup k [] = none
  lookup k ((j, v) ∷ m) = if str_eq j k then some v else lookup k m

  -- _, exists := m[k]
  unfoldable pub has_key : String → List (String × V) → Bool
  has_key k [] = false
  has_key k ((j, v) ∷ m) = str_eq j k || has_key k m

  -- m[k] = v
  unfoldable pub insert : String → V → List (String × V) → List (String × V)
  insert k v [] = (k, v) ∷ []
  insert k v ((j, w) ∷ m) = if str_eq j k then (k, v) ∷ m else (j, w) ∷ insert k v m

  pub lookup-insert :
      (put asked : String) (new : V) (entries : List (String × V))
      → lookup asked (insert put new entries)
        ≡ (if str_eq put asked then some new else lookup asked entries)
  unfolding insert lookup
  lookup-insert put asked new [] = refl
  lookup-insert put asked new ((first, old) ∷ entries) = ground (
    arith,
    lookup-insert put asked new entries,
    eq_iff first asked,
    eq_iff first put,
    eq_iff put asked,
  )

  abbrev pub keys : List (String × V) → List String
  keys [] = []
  keys ((k, v) ∷ m) = k ∷ keys m

  pub has_key-member : (k : String) (m : List (String × V)) → has_key k m ≡ member k (keys m)
  unfolding has_key member
  has_key-member k [] = refl
  has_key-member k ((j, v) ∷ m) = ap (λ b. str_eq j k || b) (has_key-member k m)

  pub has_key-insert :
      (k j : String) (v : V) (m : List (String × V))
      → has_key j (insert k v m) ≡ (str_eq k j || has_key j m)
  unfolding has_key insert
  has_key-insert k j v [] = refl
  has_key-insert k j v ((i, w) ∷ m) =
      ground (arith, eq_iff k j, eq_iff i k, eq_iff i j, has_key-insert k j v m)

  pub keys-insert_new :
      (k : String) (v : V) (m : List (String × V))
      → has_key k m ≡ false
      → keys (insert k v m) ≡ keys m ++ k ∷ []
  unfolding has_key insert
  keys-insert_new k v [] h = refl
  keys-insert_new k v ((j, w) ∷ m) h = ground (arith, keys-insert_new k v m)

pub Distinct-snoc :
    (k : String) (xs : List String) → Distinct xs → member k xs ≡ false → Distinct (xs ++ k ∷ [])
unfolding member
Distinct-snoc k [] d h = (refl, tt)
Distinct-snoc k (x ∷ xs) d h =
    ground (arith, Distinct-snoc k xs d.1, member-append x xs (k ∷ []), eq_iff x k, eq_iff k x)

pub All-of_member {κ} :
    (P : String → Type κ) (xs : List String) → ((k : String) → member k xs ≡ true → P k) → All P xs
unfolding member
All-of_member P [] f = tt
All-of_member P (x ∷ xs) f =
    (f x (member_self x xs), All-of_member P xs (λ k h. f k (ground (arith, h))))

-- What holds of every element holds of a member.
pub of_All {κ} :
    (P : String → Type κ) (k : String) (xs : List String) → All P xs → member k xs ≡ true → P k
unfolding member
of_All P k [] a h = absurd (false≢true h)
of_All P k (x ∷ xs) a h = elim (Bool-cases (str_eq x k)) [
  | inl e ↦ subst P (str_eq-true x k e) a.0
  | inr e ↦ of_All P k xs a.1 (rw e at h)
]
