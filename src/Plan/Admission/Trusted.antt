-- ===== src/Plan/Admission/Trusted.antt =====
-- What stands behind a capability that a plan uses.
use duto_ai.Prelude.{
  ℕ, String, Bool, true, false, not, ◌&&◌, ◌||◌, Option, none, some, List, [], ◌∷◌, ◌≡◌, ◌≢◌, refl,
  sym, ◌∙◌, ap, ◌⊎◌, inl, inr, arith, if◌then◌else◌, Bool-cases, str_eq, str_eq-true, ok, >>=-eq-ok,
  ok-injective, require, require->>, require-eq-ok, false≢true, subst, any,
}
use duto_ai.Prelude.Keys.{member, add, member-add}
use duto_ai.Tool.Catalog.{Definition}
use duto_ai.Trust.Context.{Context, context_text}
use duto_ai.Trust.Decision.{Platform, Decision, decode, or_undecodable, invalid_utf8, invalid_json}
use duto_ai.Trust.Eligibility.{
  Eligibility, eligibility_for, eligibility_for_local, is_restricted, is_trusted, read_only, grant,
  staged, denied, local_capabilities,
}
use duto_ai.Trust.Source.{Vouched, decode_trusted}
use duto_ai.Plan.Admission.{
  Policy, ToolScope, CapabilityDecision, TrustProjection, capability_order, capability_admitted,
  add_all, add_definitions, no_projection, selected_capabilities, selected_operation_set,
  admitted_policy, decide, compile_trust_projection, trust_denied, is_some,
}

-- Every capability that was decided on and selected is admitted.
decide_admitted :
    (policy : Option Policy) (context : Context) (selected capabilities : List String)
    (allowed : Bool) (order : List String) (k : String) {ds : List CapabilityDecision}
    → decide policy context selected capabilities allowed order ≡ ok ds
    → member k order ≡ true
    → member k selected ≡ true
    → capability_admitted policy context capabilities allowed k (eligibility_for context k) ≡ true
unfolding decide member
decide_admitted policy context selected capabilities allowed [] k h m s = cc
decide_admitted policy context selected capabilities allowed (c ∷ order) k h m s =
    let admitted : Bool =
      capability_admitted policy context capabilities allowed c (eligibility_for context c) in
    let (u, e1, h1) =
      >>=-eq-ok (require (not (member c selected && not admitted)) trust_denied) _ h in
    let (rest, e2, h2) =
      >>=-eq-ok (decide policy context selected capabilities allowed order) _ h1 in
    elim (Bool-cases (str_eq c k)) [
      | inl same ↦
          let eq : c ≡ k = str_eq-true c k same in
          subst
            (λ j.
              capability_admitted policy context capabilities allowed j (eligibility_for context j)
              ≡ true)
            eq
            (checked (member c selected) admitted (ap (λ j. member j selected) eq ∙ s)
              (require-eq-ok _ trust_denied e1))
      | inr other ↦
          decide_admitted policy context selected capabilities allowed order k e2 (rw other at m) s
    ]
  where
    checked : (a b : Bool) → a ≡ true → not (a && not b) ≡ true → b ≡ true
    checked a b p q = ground arith

-- A capability that needs more than reading is one that the policy admits by name, in a context
-- that the policy names and that is neither a fork's nor unknown.
pub record Admitted (policy : Option Policy) (d : Decision) (capability : String) : Type 0 where
  pub rules : Policy
  pub policy_is : policy ≡ some rules
  pub admission : d.admission_id ≡ rules.admission_id
  pub context_listed : member (context_text d.context) rules.contexts ≡ true
  pub capability_listed : member capability rules.capabilities ≡ true
  pub unrestricted : is_restricted d.context ≡ false
  pub eligible : eligibility_for d.context capability ≢ denied

admitted_beyond_reading :
    (policy : Option Policy) (context : Context) (capabilities : List String) (allowed : Bool)
    (k : String) (e : Eligibility)
    → e ≢ read_only
    → capability_admitted policy context capabilities allowed k e ≡ true
    → (e ≢ denied)
      × ((is_some policy && allowed && member k capabilities && not (is_restricted context)) ≡ true)
unfolding capability_admitted
admitted_beyond_reading policy context capabilities allowed k read_only n h = absurd (n refl)
admitted_beyond_reading policy context capabilities allowed k denied n h = cc
admitted_beyond_reading policy context capabilities allowed k grant n h = (λ e. cc, h)
admitted_beyond_reading policy context capabilities allowed k staged n h = (λ e. cc, h)

policy_admits :
    (policy : Option Policy) (d : Decision) (k : String) {found : List String × Bool}
    → admitted_policy policy d ≡ ok found
    → (is_some policy && found.1 && member k found.0 && not (is_restricted d.context)) ≡ true
    → eligibility_for d.context k ≢ denied
    → Admitted policy d k
unfolding admitted_policy
policy_admits none d k h t e = absurd (false≢true t)
policy_admits (some m) d k {found} h t e =
    let (u, e1, h1) = >>=-eq-ok (require (str_eq d.admission_id m.admission_id) trust_denied) _ h in
    let same : (m.capabilities, member (context_text d.context) m.contexts) ≡ found =
      ok-injective h1 in
    let parts : (member (context_text d.context) m.contexts
          && member k m.capabilities
          && not (is_restricted d.context))
        ≡ true =
      subst
        (λ (f : List String × Bool). (f.1 && member k f.0 && not (is_restricted d.context)) ≡ true)
        (sym same) t in
    record {
      rules = m;
      policy_is = refl;
      admission = str_eq-true d.admission_id m.admission_id (require-eq-ok _ trust_denied e1);
      context_listed = ground (arith, parts);
      capability_listed = ground (arith, parts);
      unrestricted = ground (arith, parts);
      eligible = e;
    }

local_eligibility :
    (context : Context) (k : String)
    → member k local_capabilities ≡ true
    → (eligibility_for context k ≢ read_only)
      × ((is_trusted context ≡ true) ⊎ (eligibility_for context k ≡ denied))
local_eligibility context k m = rw (eligibility_for_local context k m) (cases (is_trusted context))
  where
    cases :
        (b : Bool)
        → ((if b then grant else denied) ≢ read_only)
          × ((b ≡ true) ⊎ ((if b then grant else denied) ≡ denied))
    cases true = (λ e. cc, inl refl)
    cases false = (λ e. cc, inr refl)

-- One of these scopes has a tool that uses the capability.
abbrev pub uses : List ToolScope → String → Bool
uses scopes k = any (λ scope. any (λ tool. member k tool.capabilities) scope.definitions) scopes

add_all-member :
    (k : String) (selected names : List String)
    → member k (add_all selected names) ≡ (member k selected || member k names)
unfolding add_all member
add_all-member k selected [] = ground arith
add_all-member k selected (name ∷ names) =
    ground (arith, add_all-member k (add name selected) names, member-add k name selected)

add_definitions-member :
    (k : String) (selected : List String) (ds : List Definition)
    → member k (add_definitions selected ds)
      ≡ (member k selected || any (λ d. member k d.capabilities) ds)
unfolding add_definitions any
add_definitions-member k selected [] = ground arith
add_definitions-member k selected (d ∷ ds) = ground (
  arith,
  add_definitions-member k (add_all selected d.capabilities) ds,
  add_all-member k selected d.capabilities,
)

selected_capabilities-member :
    (k : String) (selected : List String) (scopes : List ToolScope)
    → member k (selected_capabilities selected scopes) ≡ (member k selected || uses scopes k)
unfolding selected_capabilities any
selected_capabilities-member k selected [] = ground arith
selected_capabilities-member k selected (scope ∷ scopes) = ground (
  arith,
  selected_capabilities-member k (add_definitions selected scope.definitions) scopes,
  add_definitions-member k selected scope.definitions,
)

used-selected :
    (k : String) (scopes : List ToolScope)
    → uses scopes k ≡ true
    → member k (selected_capabilities [] scopes) ≡ true
unfolding member
used-selected k scopes h = selected_capabilities-member k [] scopes ∙ h

decode-present :
    (p : Platform) (bytes : List ℕ) (now : ℕ) {d : Decision}
    → decode p bytes now ≡ ok d
    → d.present ≡ true
unfolding decode
decode-present p bytes now h =
    let (utf8, h1) = require->> (p.utf8_valid bytes) invalid_utf8 _ h in
    let (json, h2) = require->> (p.json_valid bytes) invalid_json _ h1 in
    let (v, read, h3) = >>=-eq-ok (or_undecodable (p.decode_json bytes)) _ h2 in
    sym (ap (λ (e : Decision). e.present) (ok-injective h3))

local_ordered : (k : String) → member k local_capabilities ≡ true → member k capability_order ≡ true
unfolding member
local_ordered k h = ground (arith, h)

-- Neither a policy nor control evidence: nothing is checked, and the projection is empty.
pub record Ungoverned (policy : Option Policy) (d : Decision) (projection : TrustProjection)
    : Type 0 where
  pub no_policy : policy ≡ none
  pub no_evidence : d.present ≡ false
  pub empty : projection ≡ no_projection

module _ (policy : Option Policy) (policy_sha256 : String) (scopes : List ToolScope) (d : Decision)
    (k : String) {projection : TrustProjection}
    (compiled : compile_trust_projection policy policy_sha256 scopes d ≡ ok projection)
    (used : uses scopes k ≡ true) where
  governed :
      (not (is_some policy) && not d.present) ≡ false
      → member k capability_order ≡ true
      → eligibility_for d.context k ≢ read_only
      → Admitted policy d k
  unfolding compile_trust_projection
  governed gate ordered beyond =
      let (operation_set, e1, h1) =
        >>=-eq-ok (selected_operation_set policy scopes d) _ (rw gate at compiled) in
      let (found, e2, h2) = >>=-eq-ok (admitted_policy policy d) _ h1 in
      let (decisions, e3, h3) =
        >>=-eq-ok
          (decide policy d.context (selected_capabilities [] scopes) found.0 found.1
            capability_order)
          _ h2 in
      let (eligible, admitted) =
        admitted_beyond_reading policy d.context found.0 found.1 k (eligibility_for d.context k)
          beyond
          (decide_admitted policy d.context (selected_capabilities [] scopes) found.0 found.1
            capability_order k e3 ordered (used-selected k scopes used)) in
      policy_admits policy d k e2 admitted eligible

  ungoverned : (not (is_some policy) && not d.present) ≡ true → Ungoverned policy d projection
  unfolding compile_trust_projection
  ungoverned gate = record {
    no_policy = none_of policy (ground (arith, gate));
    no_evidence = ground (arith, gate);
    empty = sym (ok-injective (rw gate at compiled));
  }
    where
      none_of : (o : Option Policy) → is_some o ≡ false → o ≡ none
      none_of none h = refl
      none_of (some rules) h = cc

  -- If a plan's trust projection compiles, and a tool of one of its scopes uses one of the eleven
  -- capabilities, which the context makes more than read-only, then that capability is admitted: a
  -- policy names the capability, the context and the decision's admission, the context is neither a
  -- fork's nor unknown, and it does not deny the capability. The one exception is that there is
  -- neither a policy nor control evidence: then nothing is checked and the projection is empty.
  pub compile_trust_projection-Admitted :
      member k capability_order ≡ true
      → eligibility_for d.context k ≢ read_only
      → Ungoverned policy d projection ⊎ Admitted policy d k
  compile_trust_projection-Admitted ordered beyond =
      elim (Bool-cases (not (is_some policy) && not d.present)) [
        | inl gate ↦ inl (ungoverned gate)
        | inr gate ↦ inr (governed gate ordered beyond)
      ]

  -- If a plan's trust projection compiles by a decision that was decoded from evidence, and a tool of
  -- one of its scopes uses a capability that changes local state or runs a process, then the
  -- evidence decodes, its admission is under way and at most six hours long, and it is local, or an
  -- event of GitHub whose head is in the repository itself.
  pub compile_trust_projection-Vouched :
      (p : Platform) (bytes : List ℕ) (now : ℕ)
      → decode p bytes now ≡ ok d
      → member k local_capabilities ≡ true
      → Vouched p bytes now
  compile_trust_projection-Vouched p bytes now decoded changes =
      let (beyond, trusted) = local_eligibility d.context k changes in
      let present : d.present ≡ true = decode-present p bytes now decoded in
      let gate : (not (is_some policy) && not d.present) ≡ false = ground arith in
      elim trusted [
        | inl t ↦ decode_trusted p bytes now decoded t
        | inr no_grant ↦ absurd ((governed gate (local_ordered k changes) beyond).eligible no_grant)
      ]
