-- ===== src/Config/Graph/Built.antt =====
-- The graph that is built from the needs of the steps.
use duto_ai.Prelude.{
  ℕ, zero, suc, ◌+◌, ◌≤◌, ◌<◌, String, Bool, false, Option, none, some, List, [], ◌∷◌, ◌++◌, length,
  ◌≡◌, refl, ap, ◌∙◌, subst, arith, if◌then◌else◌, ◌==◌, inl, inr, Bool-cases, ok, >>=-eq-ok,
  ok-injective,
}
use duto_ai.Prelude.Keys.{lookup}
use duto_ai.Prelude.Arrays.{get_or, update, get_or-update, length-update, count, count-append}
use duto_ai.Config.Graph.{Graph, GraphStep, connect, or_unknown, add_needs, add_steps, no_step}
use duto_ai.Config.Graph.Counting.{total}

abbrev pub Indices : Type 0
Indices = List (String × ℕ)

abbrev pub is_index : Option ℕ → ℕ → Bool
is_index none u = false
is_index (some i) u = i == u

-- How many of these needs have an index.
abbrev pub wanted : Indices → ℕ → List String → ℕ
wanted indices u [] = 0
wanted indices u (need ∷ needs) =
    (if is_index (lookup need indices) u then 1 else 0) + wanted indices u needs

-- A graph whose degrees count its edges.
pub record Counted (n : ℕ) (g : Graph) : Type 0 where
  pub edges : length g.edges ≡ n
  pub degrees : length g.degrees ≡ n
  pub agree : (v : ℕ) → v < n → get_or g.degrees v 0 ≡ total g.edges v

total-connect :
    (edges : List (List ℕ)) (from to v : ℕ)
    → from < length edges
    → total (update edges from (λ targets. targets ++ to ∷ [])) v
      ≡ total edges v + (if to == v then 1 else 0)
total-connect [] from to v h = absurd (omega arith)
total-connect (t ∷ edges) zero to v h = omega (arith, count-append v t (to ∷ []))
total-connect (t ∷ edges) (suc from) to v h =
    omega (arith, total-connect edges from to v (omega arith))

connect-Counted :
    (n from to : ℕ) (g : Graph) → from < n → to < n → Counted n g → Counted n (connect from to g)
connect-Counted n from to g f t c = record {
  edges = length-update {A = List ℕ} g.edges from (λ targets. targets ++ to ∷ []) ∙ c.edges;
  degrees = length-update {A = ℕ} g.degrees to (λ d. suc d) ∙ c.degrees;
  agree = λ v h.
      let in_degrees : to < length g.degrees = omega (arith, c.degrees) in
      let in_edges : from < length g.edges = omega (arith, c.edges) in
      ground (
        arith,
        get_or-update {A = ℕ} g.degrees to v (λ d. suc d) 0 in_degrees,
        total-connect g.edges from to v in_edges,
        c.agree v h,
      );
}

connect-count :
    (from to u v : ℕ) (g : Graph)
    → from < length g.edges
    → count v (get_or (connect from to g).edges u [])
      ≡ count v (get_or g.edges u []) + (if from == u then (if to == v then 1 else 0) else 0)
connect-count from to u v g h =
    let read = get_or-update {A = List ℕ} g.edges from u (λ targets. targets ++ to ∷ []) [] h in
    elim (Bool-cases (from == u)) [
      | inl e ↦
          let written : get_or (connect from to g).edges u [] ≡ get_or g.edges u [] ++ to ∷ [] =
            rw e at read in
          rw e
            (ap (count v) written ∙ omega (arith, count-append v (get_or g.edges u []) (to ∷ [])))
      | inr e ↦
          let kept : get_or (connect from to g).edges u [] ≡ get_or g.edges u [] = rw e at read in
          rw e (ap (count v) kept ∙ omega arith)
    ]

pub or_unknown-ok : (o : Option ℕ) {i : ℕ} → or_unknown o ≡ ok i → o ≡ some i
or_unknown-ok none h = cc
or_unknown-ok (some i) h = ap some (ok-injective h)

module _ (indices : Indices) (n : ℕ)
    (bounded : (k : String) (u : ℕ) → lookup k indices ≡ some u → u < n) where
  -- What the needs of a step add.
  record Added (i : ℕ) (needs : List String) (g out : Graph) : Type 0 where
    counted : Counted n out
    edge :
        (u v : ℕ)
        → count v (get_or out.edges u [])
          ≡ count v (get_or g.edges u []) + (if i == v then wanted indices u needs else 0)

  add_needs-Added :
      (i : ℕ) (needs : List String) (g : Graph) {out : Graph}
      → i < n
      → Counted n g
      → add_needs indices i needs g ≡ ok out
      → Added i needs g out
  unfolding add_needs
  add_needs-Added i [] g h c e =
      subst (Added i [] g) (ok-injective e) (record { counted = c; edge = λ u v. ground arith })
  add_needs-Added i (need ∷ needs) g {out} h c e =
      let (from, e1, h1) = >>=-eq-ok (or_unknown (lookup need indices)) _ e in
      let found : lookup need indices ≡ some from = or_unknown-ok (lookup need indices) e1 in
      let in_range : from < n = bounded need from found in
      let rest : Added i needs (connect from i g) out =
        add_needs-Added i needs (connect from i g) h (connect-Counted n from i g in_range h c) h1 in
      record {
        counted = rest.counted;
        edge = λ u v. rw found (
            ground (
              arith,
              rest.edge u v,
              connect-count from i u v g (omega (arith, in_range, c.edges)),
            ));
      }

  -- The needs of all steps from an index on.
  abbrev pub demand : ℕ → ℕ → List GraphStep → ℕ → ℕ
  demand u i [] v = 0
  demand u i (step ∷ steps) v =
      (if i == v then wanted indices u step.needs else 0) + demand u (suc i) steps v

  demand_below : (u i v : ℕ) (steps : List GraphStep) → v < i → demand u i steps v ≡ 0
  demand_below u i v [] h = refl
  demand_below u i v (step ∷ steps) h = ground (arith, demand_below u (suc i) v steps (omega arith))

  pub demand_at :
      (u i j v : ℕ) (steps : List GraphStep)
      → v ≡ i + j
      → demand u i steps v ≡ wanted indices u (get_or steps j no_step).needs
  demand_at u i j v [] h = refl
  demand_at u i zero v (step ∷ steps) h =
      ground (arith, demand_below u (suc i) v steps (omega (arith, h)), h)
  demand_at u i (suc j) v (step ∷ steps) h =
      let other : (i == v) ≡ false = ground (arith, h) in
      rw other (rw (demand_at u (suc i) j v steps (omega (arith, h))) (omega arith))

  pub record Grown (i : ℕ) (steps : List GraphStep) (g out : Graph) : Type 0 where
    pub counted : Counted n out
    pub edge :
        (u v : ℕ)
        → count v (get_or out.edges u []) ≡ count v (get_or g.edges u []) + demand u i steps v

  pub add_steps-Grown :
      (i : ℕ) (steps : List GraphStep) (g : Graph) {out : Graph}
      → i + length steps ≤ n
      → Counted n g
      → add_steps indices i steps g ≡ ok out
      → Grown i steps g out
  unfolding add_steps
  add_steps-Grown i [] g h c e =
      subst (Grown i [] g) (ok-injective e) (record { counted = c; edge = λ u v. omega arith })
  add_steps-Grown i (step ∷ steps) g {out} h c e =
      let (g', e1, h1) = >>=-eq-ok (add_needs indices i step.needs g) _ e in
      let added : Added i step.needs g g' = add_needs-Added i step.needs g (omega arith) c e1 in
      let rest : Grown (suc i) steps g' out =
        add_steps-Grown (suc i) steps g' (omega arith) added.counted h1 in
      record { counted = rest.counted; edge = λ u v. omega (arith, rest.edge u v, added.edge u v) }
