-- ===== src/Trust/Evidence.antt =====
-- The control evidence, as its JSON decodes (internal/trust/trust.go). A pointer is an option.
use duto_ai.Prelude.{String, Option}
use duto_ai.Prelude.Int.{ℤ}

pub record Repository : Type 0 where
  pub id : String
  pub owner_id : String
  pub owner : String
  pub name : String
  pub default_branch : String

pub record Subject : Type 0 where
  pub kind : String
  pub number : ℤ

pub record Ref : Type 0 where
  pub repository_id : String
  pub ref : String
  pub sha : String

pub record Event : Type 0 where
  pub name : String
  pub actor_id : String
  pub subject : Subject
  pub base : Ref
  pub head : Ref

pub record Run : Type 0 where
  pub id : String
  pub attempt : ℤ
  pub workflow_sha : String

pub record Operator : Type 0 where
  pub profile : String

pub record Checkout : Type 0 where
  pub ref : String
  pub sha : String

pub record Admission : Type 0 where
  pub id : String
  pub correlation_key : String
  pub issued_at : String
  pub expires_at : String

pub record ControlEvidence : Type 0 where
  pub version : ℤ
  pub source : String
  pub repository : Repository
  pub event : Option Event
  pub run : Option Run
  pub operator : Option Operator
  pub checkout : Checkout
  pub admission : Admission
