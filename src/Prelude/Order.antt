-- ===== src/Prelude/Order.antt =====
-- Sorting texts, as slices.Sort and sort.Strings do: what the program relies on is that the result
-- is in order and has the same elements, and insertion sort is the reference for that.
use duto_ai.Prelude.Tests.{if◌then◌else◌}
use duto_ai.Prelude.Text.{
  str_eq, eq_iff, eq_refl, str_leb, str_leb_total, str_leb_trans, str_leb_antisymm,
}
use duto_ai.Prelude.Lists.{All}
use duto_ai.Prelude.Keys.{member, member_self, Distinct}
use Prim.Native.String.{String}
use mathlib.Core.Path.{◌≡◌, refl, sym, ap₂, ◌∙◌}
use mathlib.Core.Bool.{true, false, ◌||◌, false≢true}
use mathlib.Core.List.{List, [], ◌∷◌}
use native.Mathlib.Omega.{arith}

place : String → List String → List String
place x [] = x ∷ []
place x (y ∷ ys) = if str_leb x y then x ∷ y ∷ ys else y ∷ place x ys

-- slices.Sort
unfoldable pub sort : List String → List String
unfolding place str_leb
sort [] = []
sort (x ∷ xs) = place x (sort xs)

abbrev pub AtMost : String → List String → Type 0
AtMost x ys = All (λ y. str_leb x y ≡ true) ys

abbrev pub IsSorted : List String → Type 0
IsSorted [] = Unit
IsSorted (x ∷ xs) = AtMost x xs × IsSorted xs

member-place :
    (k x : String) (ys : List String) → member k (place x ys) ≡ (str_eq x k || member k ys)
unfolding member place
member-place k x [] = refl
member-place k x (y ∷ ys) = ground (arith, member-place k x ys)

-- Sorting keeps the elements.
pub member-sort : (k : String) (xs : List String) → member k (sort xs) ≡ member k xs
unfolding member sort
member-sort k [] = refl
member-sort k (x ∷ xs) = ground (arith, member-place k x (sort xs), member-sort k xs)

AtMost-trans : (x y : String) (zs : List String) → str_leb x y ≡ true → AtMost y zs → AtMost x zs
AtMost-trans x y [] h a = tt
AtMost-trans x y (z ∷ zs) h a = (str_leb_trans x y z h a.0, AtMost-trans x y zs h a.1)

AtMost-place :
    (x y : String) (zs : List String) → str_leb x y ≡ true → AtMost x zs → AtMost x (place y zs)
unfolding place
AtMost-place x y [] h a = (h, tt)
AtMost-place x y (z ∷ zs) h a = ground (arith, AtMost-place x y zs h a.1)

place-IsSorted : (x : String) (ys : List String) → IsSorted ys → IsSorted (place x ys)
unfolding place
place-IsSorted x [] s = (tt, tt)
place-IsSorted x (y ∷ ys) s =
    ground
      (arith, AtMost-trans x y ys, str_leb_total x y, AtMost-place y x ys, place-IsSorted x ys s.1)

pub sort-IsSorted : (xs : List String) → IsSorted (sort xs)
unfolding sort
sort-IsSorted [] = tt
sort-IsSorted (x ∷ xs) = place-IsSorted x (sort xs) (sort-IsSorted xs)

place-Distinct :
    (x : String) (ys : List String) → member x ys ≡ false → Distinct ys → Distinct (place x ys)
unfolding member place
place-Distinct x [] h d = (refl, tt)
place-Distinct x (y ∷ ys) h d =
    ground (arith, place-Distinct x ys, member-place y x ys, eq_iff x y, eq_iff y x)

pub sort-Distinct : (xs : List String) → Distinct xs → Distinct (sort xs)
unfolding sort
sort-Distinct [] d = tt
sort-Distinct (x ∷ xs) d =
    place-Distinct x (sort xs) (member-sort x xs ∙ d.0) (sort-Distinct xs d.1)

AtMost-member :
    (x k : String) (ys : List String) → AtMost x ys → member k ys ≡ true → str_leb x k ≡ true
unfolding member
AtMost-member x k [] a h = cc
AtMost-member x k (y ∷ ys) a h = ground (arith, AtMost-member x k ys a.1, eq_iff y k)

abbrev pub SameMembers : List String → List String → Type 0
SameMembers xs ys = (k : String) → member k xs ≡ member k ys

heads-eq :
    (x y : String) (xs ys : List String)
    → IsSorted (x ∷ xs)
    → IsSorted (y ∷ ys)
    → SameMembers (x ∷ xs) (y ∷ ys)
    → x ≡ y
unfolding member
heads-eq x y xs ys s t same = ground (
  arith,
  same x,
  same y,
  eq_iff x y,
  eq_iff y x,
  eq_refl x,
  eq_refl y,
  AtMost-member x y xs s.0,
  AtMost-member y x ys t.0,
  str_leb_antisymm x y,
)

tail_same :
    (x k : String) (xs ys : List String)
    → member x xs ≡ false
    → member x ys ≡ false
    → member k (x ∷ xs) ≡ member k (x ∷ ys)
    → member k xs ≡ member k ys
unfolding member
tail_same x k xs ys h g e = ground (arith, eq_iff x k)

-- A sorted list with no repetition is determined by its members.
pub sorted_ext :
    (xs ys : List String)
    → IsSorted xs
    → IsSorted ys
    → Distinct xs
    → Distinct ys
    → SameMembers xs ys
    → xs ≡ ys
unfolding member
sorted_ext [] [] s t d e same = refl
sorted_ext [] (y ∷ ys) s t d e same = absurd (false≢true (same y ∙ member_self y ys))
sorted_ext (x ∷ xs) [] s t d e same = absurd (false≢true (sym (same x) ∙ member_self x xs))
sorted_ext (x ∷ xs) (y ∷ ys) s t d e same =
    let eq : x ≡ y = heads-eq x y xs ys s t same in
    let e' : member x ys ≡ false = rw eq e.0 in
    let same' : SameMembers xs ys = λ k. tail_same x k xs ys d.0 e' (rw (← eq) at (same k)) in
    ap₂ ◌∷◌ eq (sorted_ext xs ys s.1 t.1 d.1 e.1 same')

-- The order in which a map yields its keys does not show after sorting.
pub sort_ext :
    (xs ys : List String) → Distinct xs → Distinct ys → SameMembers xs ys → sort xs ≡ sort ys
sort_ext xs ys d e same =
    sorted_ext (sort xs) (sort ys) (sort-IsSorted xs) (sort-IsSorted ys) (sort-Distinct xs d)
      (sort-Distinct ys e) (λ k. member-sort k xs ∙ same k ∙ sym (member-sort k ys))
