-- ===== src/Config/Agents/Search.antt =====
-- The search for a cycle of subagents, by what its marks mean.
use duto_ai.Prelude.{
  ℕ, zero, suc, String, true, false, Option, none, some, List, [], ◌∷◌, ◌≡◌, refl, sym, ◌∙◌, subst,
  if◌then◌else◌, ◌⊎◌, inl, inr, Bool-cases, str_eq, str_eq-true, eq_refl, Result, ok, err, ◌>>=◌,
  >>=-eq-ok, ok-injective,
}
use duto_ai.Prelude.Keys.{lookup, insert, lookup-insert, member}
use duto_ai.Config.Graph.{GraphError, circular_dependency}
use duto_ai.Config.Agents.{
  Agents, Mark, visiting, visited, Marks, subagents_of, visit_each, visit_agent,
}
use duto_ai.Config.Agents.Cycles.{Grounded, grounded}

pub insert-new :
    (k name : String) (m : Mark) (marks : Marks) {found : Option Mark}
    → lookup k (insert name m marks) ≡ found
    → ((name ≡ k) × (some m ≡ found)) ⊎ (lookup k marks ≡ found)
insert-new k name m marks {found} h =
    split (Bool-cases (str_eq name k)) (sym (lookup-insert name k m marks) ∙ h)
  where
    split :
        ((str_eq name k ≡ true) ⊎ (str_eq name k ≡ false))
        → (if str_eq name k then some m else lookup k marks) ≡ found
        → ((name ≡ k) × (some m ≡ found)) ⊎ (lookup k marks ≡ found)
    split (inl e) r = inl (str_eq-true name k e, rw e at r)
    split (inr e) r = inr (rw e at r)

pub insert_here :
    (name : String) (m : Mark) (marks : Marks) → lookup name (insert name m marks) ≡ some m
insert_here name m marks = rw (lookup-insert name name m marks) (rw (eq_refl name))

module _ (agents : Agents) where
  -- What is marked as visited has only chains that end.
  abbrev pub Sound : Marks → Type 0
  Sound marks = (k : String) → lookup k marks ≡ some visited → Grounded agents k

  abbrev pub Kept : Marks → Marks → Type 0
  Kept marks out = (k : String) → lookup k marks ≡ some visited → lookup k out ≡ some visited

  pub record Visited (name : String) (marks out : Marks) : Type 0 where
    pub sound : Sound out
    pub kept : Kept marks out
    pub self : lookup name out ≡ some visited

  abbrev pub Visits : (String → Marks → Result GraphError Marks) → Type 0
  Visits f =
      (name : String) (marks out : Marks)
      → Sound marks
      → f name marks ≡ ok out
      → Visited name marks out

  pub record VisitedAll (names : List String) (marks out : Marks) : Type 0 where
    pub sound : Sound out
    pub kept : Kept marks out
    pub each : (name : String) → member name names ≡ true → lookup name out ≡ some visited

  pub visit_each-Visited :
      (f : String → Marks → Result GraphError Marks)
      → Visits f
      → (names : List String) (marks out : Marks) → Sound marks
      → visit_each f names marks ≡ ok out
      → VisitedAll names marks out
  unfolding visit_each member
  visit_each-Visited f v [] marks out s e =
      subst (VisitedAll [] marks) (ok-injective e)
        (record { sound = s; kept = λ k h. h; each = λ k h. cc })
  visit_each-Visited f v (name ∷ names) marks out s e =
      let (next, first, rest) = >>=-eq-ok (f name marks) _ e in
      let one : Visited name marks next = v name marks next s first in
      let others : VisitedAll names next out =
        visit_each-Visited f v names next out one.sound rest in
      record {
        sound = others.sound;
        kept = λ k h. others.kept k (one.kept k h);
        each = λ k h. elim (Bool-cases (str_eq name k)) [
          | inl same ↦
              subst (λ j. lookup j out ≡ some visited) (str_eq-true name k same)
                (others.kept name one.self)
          | inr other ↦ others.each k (rw other at h)
        ];
      }

  -- The marks after an agent all of whose subagents are visited.
  close-Visited :
      (name : String) (marks out : Marks)
      → lookup name marks ≡ none
      → VisitedAll (subagents_of agents name) (insert name visiting marks) out
      → Visited name marks (insert name visited out)
  close-Visited name marks out new below = record {
    sound = λ k h. elim (insert-new k name visited out h) [
      | inl (same, _) ↦
          subst (Grounded agents) same
            (grounded name (λ child edge. below.sound child (below.each child edge)))
      | inr old ↦ below.sound k old
    ];
    kept = λ k h. rw (lookup-insert name k visited out) (elim (Bool-cases (str_eq name k)) [
      | inl same ↦ rw same
      | inr other ↦ rw other (below.kept k (rw (lookup-insert name k visiting marks) (rw other h)))
    ]);
    self = insert_here name visited out;
  }

  open-Sound : (name : String) (marks : Marks) → Sound marks → Sound (insert name visiting marks)
  open-Sound name marks s k h = elim (insert-new k name visiting marks h) [
    | inl (_, differ) ↦ absurd (cc)
    | inr old ↦ s k old
  ]

  -- A visit by the mark.
  module _ (fuel : ℕ) (name : String) (marks : Marks) where
    pub visit_new :
        lookup name marks ≡ none
        → visit_agent (suc fuel) agents name marks ≡ (
            visit_each
              (visit_agent fuel agents)
              (subagents_of agents name)
              (insert name visiting marks)
            >>= λ out. ok (insert name visited out))
    unfolding visit_agent
    visit_new found = rw (found, visit_agent) refl

    pub visit_closed :
        lookup name marks ≡ some visited → visit_agent (suc fuel) agents name marks ≡ ok marks
    unfolding visit_agent
    visit_closed found = rw (found, visit_agent) refl

    pub visit_open :
        lookup name marks ≡ some visiting
        → visit_agent (suc fuel) agents name marks ≡ err circular_dependency
    unfolding visit_agent
    visit_open found = rw (found, visit_agent) refl

  pub visit_agent-Visited : (fuel : ℕ) → Visits (visit_agent fuel agents)
  unfolding visit_agent
  visit_agent-Visited zero name marks out s e = cc
  visit_agent-Visited (suc fuel) name marks out s e =
      split (visit_agent-Visited fuel) (lookup name marks) refl
    where
      split :
          Visits (visit_agent fuel agents)
          → (o : Option Mark) → lookup name marks ≡ o
          → Visited name marks out
      split v (some visiting) found = cc (visit_open fuel name marks found)
      split v (some visited) found =
          let same : marks ≡ out = ok-injective (sym (visit_closed fuel name marks found) ∙ e) in
          subst (Visited name marks) same (record { sound = s; kept = λ k h. h; self = found })
      split v none found =
          let (below, first, rest) =
            >>=-eq-ok
              (visit_each (visit_agent fuel agents) (subagents_of agents name)
                (insert name visiting marks))
              _ (sym (visit_new fuel name marks found) ∙ e) in
          subst (Visited name marks) (ok-injective rest) (
            close-Visited name marks below found (
              visit_each-Visited (visit_agent fuel agents) v (subagents_of agents name)
                (insert name visiting marks) below (open-Sound name marks s) first))
