-- ===== src/Trust/Decision.antt =====
-- The decision that control evidence leads to (Decode of internal/trust/trust.go). The JSON decoder,
-- SHA-256 and the RFC 3339 times are the standard library's, and enter as a record; a time is a
-- number of nanoseconds.
use duto_ai.Prelude.{
  ℕ, ◌*◌, ◌-◌, String, Bool, true, false, not, ◌&&◌, Option, none, some, List, ltb, if◌then◌else◌,
  str_eq, Result, ok, err, ◌>>=◌, ◌>>◌, require, ◌==◌,
}
use duto_ai.Prelude.Int.{ℤ, pos, negsuc}
use duto_ai.Pattern.{is_name, is_admission, is_resource_name}
use duto_ai.Trust.Evidence.{ControlEvidence, Event, Admission}
use duto_ai.Trust.Context.{Context, unknown, local, valid_checkout, valid_local, github_context}

pub data TrustError : Type 0 where
  invalid_utf8 invalid_json undecodable : TrustError

pub record Platform : Type 0 where
  -- utf8.Valid
  pub utf8_valid : List ℕ → Bool
  -- validateJSON: no null, no repeated key, nothing after the value.
  pub json_valid : List ℕ → Bool
  -- json.Decoder with unknown fields refused.
  pub decode_json : List ℕ → Option ControlEvidence
  -- The lower-case hexadecimal SHA-256.
  pub sha256_hex : List ℕ → String
  -- time.Parse and Time.Format, of RFC 3339, in UTC.
  pub parse_time : String → Option ℕ
  pub format_time : ℕ → String

pub record Repository : Type 0 where
  pub id : String
  pub owner : String
  pub name : String

pub record Origin : Type 0 where
  pub kind : String
  pub number : ℤ

pub record Decision : Type 0 where
  pub context : Context
  pub admission_id : String
  pub correlation_key : String
  pub control_sha256 : String
  pub control_json : List ℕ
  pub transport : String
  pub repository : Repository
  pub origin : Origin
  pub checkout_ref : String
  pub checkout_sha : String
  pub present : Bool

-- Unknown(), the decision without evidence.
abbrev pub unknown_decision : Decision
unknown_decision = record {
  context = unknown;
  admission_id = "";
  correlation_key = "";
  control_sha256 = "";
  control_json = List.[];
  transport = "none";
  repository = record { id = ""; owner = ""; name = "" };
  origin = record { kind = ""; number = pos 0 };
  checkout_ref = "";
  checkout_sha = "";
  present = false;
}

-- Six hours, in nanoseconds.
abbrev pub max_admission : ℕ
max_admission = 6 * 3600 * 1000000000

unfoldable pub is_one : ℤ → Bool
is_one (pos n) = n == 1
is_one (negsuc n) = false

abbrev pub origin_of : Option Event → Origin
origin_of none = record { kind = "none"; number = pos 0 }
origin_of (some e) = record { kind = e.subject.kind; number = e.subject.number }

abbrev pub window : ℕ → Option ℕ → Option ℕ → Bool
window now (some issued) (some expires) =
    ltb issued expires
    && not (ltb max_admission (expires - issued))
    && not (ltb now issued)
    && ltb now expires
window now _ _ = false

abbrev pub or_undecodable : Option ControlEvidence → Result TrustError ControlEvidence
or_undecodable none = err undecodable
or_undecodable (some v) = ok v

-- The first condition of validCommon, which reads no time.
unfoldable pub valid_fields : ControlEvidence → Bool
unfolding is_one is_name is_admission is_resource_name valid_checkout
valid_fields v =
    is_one v.version
    && is_admission v.admission.id
    && is_admission v.admission.correlation_key
    && valid_checkout v.checkout
    && is_resource_name v.repository.owner
    && is_resource_name v.repository.name
    && is_name v.repository.default_branch

module _ (p : Platform) where
  -- A time that is written in the one form that formatting gives.
  unfoldable pub canonical_time : String → Option ℕ
  canonical_time text = elim (p.parse_time text) [
    | none ↦ none
    | some t ↦ if str_eq (p.format_time t) text then some t else none
  ]

  -- The times of an admission: at most six hours apart, and now lies between them.
  unfoldable pub valid_window : ℕ → Admission → Bool
  unfolding canonical_time
  valid_window now a = window now (canonical_time a.issued_at) (canonical_time a.expires_at)

  unfoldable pub valid_common : ControlEvidence → ℕ → Bool
  unfolding valid_fields valid_window
  valid_common v now = valid_fields v && valid_window now v.admission

  -- The context of decoded evidence: unknown unless its common fields are valid.
  unfoldable pub context_of : ControlEvidence → ℕ → Context
  unfolding valid_common valid_local github_context
  context_of v now =
      if not (valid_common v now)
      then unknown
      else if str_eq v.source "local"
      then (if valid_local v then local else unknown)
      else if str_eq v.source "github"
      then github_context v
      else unknown

  abbrev pub decision_of : ControlEvidence → List ℕ → ℕ → Decision
  decision_of v bytes now = record {
    context = context_of v now;
    admission_id = v.admission.id;
    correlation_key = v.admission.correlation_key;
    control_sha256 = p.sha256_hex bytes;
    control_json = bytes;
    transport = "staged";
    repository = record {
      id = v.repository.id;
      owner = v.repository.owner;
      name = v.repository.name;
    };
    origin = origin_of v.event;
    checkout_ref = v.checkout.ref;
    checkout_sha = v.checkout.sha;
    present = true;
  }

  unfoldable pub decode : List ℕ → ℕ → Result TrustError Decision
  unfolding context_of
  decode bytes now = do
    require (p.utf8_valid bytes) invalid_utf8
    require (p.json_valid bytes) invalid_json
    v ← or_undecodable (p.decode_json bytes)
    ok (decision_of v bytes now)
