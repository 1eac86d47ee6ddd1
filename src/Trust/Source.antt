-- ===== src/Trust/Source.antt =====
-- The evidence behind a decision.
use duto_ai.Prelude.{
  ℕ, ◌+◌, ◌≤◌, ◌<◌, String, Bool, true, false, not, Option, none, some, List, ◌≡◌, refl, ◌∙◌, ap,
  arith, ◌⊎◌, List, if◌then◌else◌, inl, inr, str_eq, str_eq-true, ok, >>=-eq-ok, ok-injective,
  require, and_true,
}
use duto_ai.Trust.Evidence.{ControlEvidence, Event, Run, Operator, Admission}
use duto_ai.Trust.Context.{
  Context, local, unknown, github_context, event_context, github_parts, local_parts, valid_event,
  valid_local,
}
use duto_ai.Trust.Decision.{
  Platform, Decision, decode, context_of, valid_common, valid_fields, valid_window, canonical_time,
  max_admission, invalid_utf8, invalid_json, or_undecodable, window,
}
use duto_ai.Trust.Eligibility.{is_trusted}

-- A trusted event is the repository's own: its head is in the repository.
event_context_trusted :
    (v : ControlEvidence) (e : Event)
    → is_trusted (event_context v e) ≡ true
    → str_eq e.head.repository_id v.repository.id ≡ true
unfolding event_context
event_context_trusted v e h = ground arith

-- Local evidence carries no event; evidence from GitHub has an event whose head is in the
-- repository itself.
abbrev pub FromOwn : ControlEvidence → Option Event → Type 0
FromOwn v none = v.source ≡ "local"
FromOwn v (some e) = (v.source ≡ "github") × (e.head.repository_id ≡ v.repository.id)

local_parts-FromOwn :
    (v : ControlEvidence) (e : Option Event) (r : Option Run) (o : Option Operator)
    → local_parts v e r o ≡ true
    → v.source ≡ "local"
    → FromOwn v e
local_parts-FromOwn v none none (some o) h s = s
local_parts-FromOwn v none none none h s = cc
local_parts-FromOwn v none (some r) o h s = cc
local_parts-FromOwn v (some e) r o h s = cc

github_parts-FromOwn :
    (v : ControlEvidence) (e : Option Event) (r : Option Run) (o : Option Operator)
    → is_trusted (github_parts v e r o) ≡ true
    → v.source ≡ "github"
    → FromOwn v e
github_parts-FromOwn v (some e) (some r) none h s = (
  s,
  str_eq-true e.head.repository_id v.repository.id
      (event_context_trusted v e (passed (valid_event v e r) h)),
)
  where
    passed :
        (b : Bool)
        → is_trusted (if b then event_context v e else unknown) ≡ true
        → is_trusted (event_context v e) ≡ true
    passed true k = k
    passed false k = cc
github_parts-FromOwn v (some e) (some r) (some o) h s = cc
github_parts-FromOwn v (some e) none o h s = cc
github_parts-FromOwn v none r o h s = cc

-- The branches of `context_of`, over its computed tests.
branches_trusted :
    (common is_local valid is_github : Bool) (c : Context)
    → is_trusted (
        if not common
        then unknown
        else if is_local
        then (if valid then local else unknown)
        else if is_github
        then c
        else unknown)
      ≡ true
    → (common ≡ true)
      × (((is_local ≡ true) × (valid ≡ true)) ⊎ ((is_github ≡ true) × (is_trusted c ≡ true)))
branches_trusted common is_local valid is_github c h = ground arith

-- The admission's times bound the decision's time, at most six hours apart.
pub record Timely (p : Platform) (now : ℕ) (a : Admission) : Type 0 where
  pub issued : ℕ
  pub expires : ℕ
  pub issued_is : p.parse_time a.issued_at ≡ some issued
  pub expires_is : p.parse_time a.expires_at ≡ some expires
  pub started : issued ≤ now
  pub current : now < expires
  pub short : expires ≤ issued + max_admission

module _ (p : Platform) where
  canonical_time_parsed :
      (text : String) {t : ℕ} → canonical_time p text ≡ some t → p.parse_time text ≡ some t
  unfolding canonical_time
  canonical_time_parsed text h = ground arith

  window-Timely :
      (now : ℕ) (a : Admission) (i x : Option ℕ)
      → canonical_time p a.issued_at ≡ i
      → canonical_time p a.expires_at ≡ x
      → window now i x ≡ true
      → Timely p now a
  window-Timely now a none x hi hx h = cc
  window-Timely now a (some i) none hi hx h = cc
  window-Timely now a (some i) (some x) hi hx h = record {
    issued = i;
    expires = x;
    issued_is = canonical_time_parsed a.issued_at hi;
    expires_is = canonical_time_parsed a.expires_at hx;
    started = ground arith;
    current = ground arith;
    short = ground arith;
  }

  valid_window-Timely : (now : ℕ) (a : Admission) → valid_window p now a ≡ true → Timely p now a
  unfolding valid_window
  valid_window-Timely now a h =
      window-Timely now a (canonical_time p a.issued_at) (canonical_time p a.expires_at) refl refl h

  valid_common-Timely :
      (v : ControlEvidence) (now : ℕ) → valid_common p v now ≡ true → Timely p now v.admission
  unfolding valid_common
  valid_common-Timely v now h =
      valid_window-Timely now v.admission
        (and_true (valid_fields v) (valid_window p now v.admission) h).1

-- What stands behind a decision that grants trust.
pub record Vouched (p : Platform) (bytes : List ℕ) (now : ℕ) : Type 0 where
  pub evidence : ControlEvidence
  pub read : p.decode_json bytes ≡ some evidence
  pub in_time : Timely p now evidence.admission
  pub own : FromOwn evidence evidence.event

module _ (p : Platform) where
  context_of_own :
      (v : ControlEvidence) (now : ℕ)
      → is_trusted (context_of p v now) ≡ true
      → (valid_common p v now ≡ true) × FromOwn v v.event
  unfolding context_of
  context_of_own v now h =
      let (common, source) =
        branches_trusted (valid_common p v now) (str_eq v.source "local") (valid_local v)
          (str_eq v.source "github") (github_context v) h in
      (
        common,
        elim source [
          | inl l ↦
              unfold valid_local in
              local_parts-FromOwn v v.event v.run v.operator l.1 (str_eq-true v.source "local" l.0)
          | inr g ↦
              unfold github_context in
              github_parts-FromOwn v v.event v.run v.operator g.1
                (str_eq-true v.source "github" g.0)
        ],
      )

  -- A decision that is trusted has evidence behind it that decoded, whose admission is under way
  -- and at most six hours long, and which is local, or an event of GitHub whose head is in the
  -- repository itself.
  pub decode_trusted :
      (bytes : List ℕ) (now : ℕ) {d : Decision}
      → decode p bytes now ≡ ok d
      → is_trusted d.context ≡ true
      → Vouched p bytes now
  unfolding decode
  decode_trusted bytes now {d} h t =
      let (u1, e1, h1) = >>=-eq-ok (require (p.utf8_valid bytes) invalid_utf8) _ h in
      let (u2, e2, h2) = >>=-eq-ok (require (p.json_valid bytes) invalid_json) _ h1 in
      let (v, e3, h3) = >>=-eq-ok (or_undecodable (p.decode_json bytes)) _ h2 in
      let same : context_of p v now ≡ d.context =
        ap (λ (x : Decision). x.context) (ok-injective h3) in
      let (common, own) = context_of_own v now (ap is_trusted same ∙ t) in
      record {
        evidence = v;
        read = decoded (p.decode_json bytes) e3;
        in_time = valid_common-Timely p v now common;
        own = own;
      }
    where
      decoded :
          (o : Option ControlEvidence) {v : ControlEvidence} → or_undecodable o ≡ ok v → o ≡ some v
      decoded none k = cc
      decoded (some w) k = cc
