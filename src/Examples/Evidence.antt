-- ===== src/Examples/Evidence.antt =====
-- Local control evidence, read by a decoder that knows this one document.
use duto_ai.Prelude.{ℕ, true, List, [], ◌∷◌, ◌≡◌, refl, ok, none, some, str_eq, if◌then◌else◌, ◌==◌}
use duto_ai.Prelude.Int.{pos}
use duto_ai.Trust.Evidence.{ControlEvidence}
use duto_ai.Trust.Context.{local}
use duto_ai.Trust.Decision.{Platform, Decision, decode}
use duto_ai.Trust.Source.{Vouched, decode_trusted}

abbrev pub evidence : ControlEvidence
evidence = record {
  version = pos 1;
  source = "local";
  repository = record {
    id = "repo-1";
    owner_id = "owner-1";
    owner = "acme";
    name = "widgets";
    default_branch = "main";
  };
  event = none;
  run = none;
  operator = some (record { profile = "ops" });
  checkout = record { ref = "refs/heads/main"; sha = "0123456789abcdef0123456789abcdef01234567" };
  admission = record {
    id = "adm-1";
    correlation_key = "key-1";
    issued_at = "2026-01-01T00:00:00Z";
    expires_at = "2026-01-01T01:00:00Z";
  };
}

-- An hour, in nanoseconds.
abbrev pub hour : ℕ
hour = 3600000000000

abbrev pub platform : Platform
platform = record {
  utf8_valid = λ bytes. true;
  json_valid = λ bytes. true;
  decode_json = λ bytes. some evidence;
  sha256_hex = λ bytes. "00";
  parse_time = λ text.
      if str_eq text "2026-01-01T00:00:00Z"
      then some 0
      else if str_eq text "2026-01-01T01:00:00Z"
      then some hour
      else none;
  format_time = λ t. if t == 0 then "2026-01-01T00:00:00Z" else "2026-01-01T01:00:00Z";
}

abbrev pub bytes : List ℕ
bytes = 123 ∷ 125 ∷ []

abbrev pub decision : Decision
decision = record {
  context = local;
  admission_id = "adm-1";
  correlation_key = "key-1";
  control_sha256 = "00";
  control_json = bytes;
  transport = "staged";
  repository = record { id = "repo-1"; owner = "acme"; name = "widgets" };
  origin = record { kind = "none"; number = pos 0 };
  checkout_ref = "refs/heads/main";
  checkout_sha = "0123456789abcdef0123456789abcdef01234567";
  present = true;
}

pub decoded : decode platform bytes 60 ≡ ok decision
unfolding decode
decoded = refl

decode_trusted_example : Vouched platform bytes 60
decode_trusted_example = decode_trusted platform bytes 60 decoded refl
