-- ===== src/Tool/Catalog/Built.antt =====
-- Catalogs as NewCatalog builds them.
use duto_ai.Prelude.{
  String, true, false, List, [], ◌∷◌, ◌++◌, ◌≡◌, refl, sym, ◌∙◌, arith, Bool-cases, inl, inr, subst,
  ok-injective, eq_iff, ok, >>=-eq-ok, All,
}
use duto_ai.Prelude.Keys.{
  Distinct-snoc, All-of_member, has_key-insert, member, member-append, has_key, insert, Distinct,
}
use duto_ai.Prelude.Order.{sort, member-sort, sort-IsSorted, sort-Distinct, IsSorted}
use duto_ai.Tool.Catalog.{
  Catalog, Definition, empty, admissible, register, new_catalog, valid_tool_name,
}

-- A catalog as NewCatalog leaves it.
pub record IsCatalog (c : Catalog) : Type 0 where
  pub listed : (k : String) → member k c.names ≡ has_key k c.definitions
  pub distinct : Distinct c.names
  pub sorted : IsSorted c.names
  pub valid : All (λ name. valid_tool_name name ≡ true) c.names

-- The same before the names are sorted.
record IsPartial (c : Catalog) : Type 0 where
  order : (k : String) → member k c.names ≡ has_key k c.definitions
  distinct : Distinct c.names
  valid : (k : String) → member k c.names ≡ true → valid_tool_name k ≡ true

abbrev grown : Catalog → Definition → Catalog
grown c d = record { definitions = insert d.name d c.definitions; names = c.names ++ d.name ∷ [] }

admissible_new :
    (c : Catalog) (d : Definition) → admissible c d ≡ true → has_key d.name c.definitions ≡ false
unfolding admissible
admissible_new c d h = ground arith

admissible_valid :
    (c : Catalog) (d : Definition) → admissible c d ≡ true → valid_tool_name d.name ≡ true
unfolding admissible
admissible_valid c d h = ground arith

module _ (c : Catalog) (d : Definition) (p : IsPartial c) (h : admissible c d ≡ true) where
  grown_order : (k : String) → member k (grown c d).names ≡ has_key k (grown c d).definitions
  unfolding member
  grown_order k = ground (
    arith,
    member-append k c.names (d.name ∷ []),
    has_key-insert d.name k d c.definitions,
    p.order k,
  )

  grown_valid : (k : String) → member k (grown c d).names ≡ true → valid_tool_name k ≡ true
  unfolding member
  grown_valid k m = ground (
    arith,
    member-append k c.names (d.name ∷ []),
    p.valid k,
    admissible_valid c d h,
    eq_iff d.name k,
  )

  grown-IsPartial : IsPartial (grown c d)
  grown-IsPartial = record {
    order = grown_order;
    distinct = Distinct-snoc d.name c.names p.distinct (p.order d.name ∙ admissible_new c d h);
    valid = grown_valid;
  }

register-IsPartial :
    (c : Catalog) (ds : List Definition) {out : Catalog}
    → IsPartial c
    → register c ds ≡ ok out
    → IsPartial out
unfolding register
register-IsPartial c [] {out} p h = subst IsPartial (cc) p
register-IsPartial c (d ∷ ds) p h = elim (Bool-cases (admissible c d)) [
  | inl e ↦ register-IsPartial (grown c d) ds (grown-IsPartial c d p e) (rw e at h)
  | inr e ↦ absurd (ground (arith, e))
]

empty-IsPartial : IsPartial empty
unfolding member has_key
empty-IsPartial = record { order = λ k. refl; distinct = tt; valid = λ k h. cc }

-- A catalog that NewCatalog accepts lists exactly the tools that it defines, in order, each once,
-- and each under a valid name.
pub new_catalog-IsCatalog :
    (ds : List Definition) {c : Catalog} → new_catalog ds ≡ ok c → IsCatalog c
unfolding new_catalog
new_catalog-IsCatalog ds h =
    let (r, e, f) = >>=-eq-ok (register empty ds) _ h in
    subst IsCatalog (ok-injective f) (sorted r (register-IsPartial empty ds empty-IsPartial e))
  where
    sorted : (r : Catalog) → IsPartial r → IsCatalog (record r { names = sort r.names })
    sorted r p = record {
      listed = λ k. member-sort k r.names ∙ p.order k;
      distinct = sort-Distinct r.names p.distinct;
      sorted = sort-IsSorted r.names;
      valid = All-of_member _ (sort r.names) (λ k m. p.valid k (sym (member-sort k r.names) ∙ m));
    }
