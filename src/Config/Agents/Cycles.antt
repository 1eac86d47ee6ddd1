-- ===== src/Config/Agents/Cycles.antt =====
-- Chains of subagents.
use duto_ai.Prelude.{String, true, ◌≡◌, refl, subst, sym}
use duto_ai.Prelude.Keys.{member}
use duto_ai.Config.Agents.{Agents, subagents_of}

abbrev pub Edge : Agents → String → String → Type 0
Edge agents name child = member child (subagents_of agents name) ≡ true

-- Every chain of subagents from this agent ends.
pub data Grounded (agents : Agents) : String → Type 0 where
  grounded :
      (name : String)
      → ((child : String) → Edge agents name child → Grounded agents child)
      → Grounded agents name

pub child-Grounded :
    (agents : Agents) (name child : String)
    → Grounded agents name
    → Edge agents name child
    → Grounded agents child
child-Grounded agents name child (grounded _ below) edge = below child edge

-- A chain of subagents, of none or more edges.
pub data Chain (agents : Agents) : String → String → Type 0 where
  here : (name other : String) → name ≡ other → Chain agents name other
  via :
      (name child last : String)
      → Edge agents name child
      → Chain agents child last
      → Chain agents name last

pub snoc-Chain :
    (agents : Agents) (name last child : String)
    → Chain agents name last
    → Edge agents last child
    → Chain agents name child
snoc-Chain agents name last child (here _ _ same) edge =
    via name child child (subst (λ k. Edge agents k child) (sym same) edge) (here child child refl)
snoc-Chain agents name last child (via _ next _ first chain) edge =
    via name next child first (snoc-Chain agents next last child chain edge)

-- An agent all of whose chains end is on no cycle.
pub Grounded-acyclic :
    (agents : Agents) (name child : String)
    → Grounded agents name
    → Edge agents name child
    → Chain agents child name
    → ⊥
Grounded-acyclic agents name child (grounded _ below) edge (here _ _ same) =
    Grounded-acyclic agents child child (below child edge)
      (subst (λ k. Edge agents k child) (sym same) edge) (here child child refl)
Grounded-acyclic agents name child (grounded _ below) edge (via _ next _ first chain) =
    Grounded-acyclic agents child next (below child edge) first
      (snoc-Chain agents next name child chain edge)
