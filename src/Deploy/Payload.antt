-- ===== src/Deploy/Payload.antt =====
-- What `upsert_github_deployment` of backend/app/deployment_services.py reads from a payload. A value
-- of the payload stands as the text that `str` makes of it, `none` where it is missing or null;
-- `datetime.fromisoformat` is an argument, and a time is a number.
use Prim.Native.String.{String}
use deployguardai.Prelude.{
  ℕ, Bool, true, false, Option, none, some, List, [], ◌∷◌, if◌then◌else◌, first, or_else,
}
use deployguardai.Prelude.Codes.{codes, lower}
use deployguardai.Prelude.Texts.{strip, prefix, is_blank}
use deployguardai.Incident.Status.{same_codes}

pub data DeploymentStatus : Type 0 where
  waiting in_progress succeeded failed cancelled inactive unknown : DeploymentStatus

-- `GITHUB_DEPLOYMENT_STATUS`
unfoldable pub github_statuses : List (String × DeploymentStatus)
github_statuses =
    ("created", waiting)
    ∷ ("queued", waiting)
    ∷ ("pending", waiting)
    ∷ ("in_progress", in_progress)
    ∷ ("success", succeeded)
    ∷ ("failure", failed)
    ∷ ("error", failed)
    ∷ ("cancelled", cancelled)
    ∷ ("inactive", inactive)
    ∷ []

-- `LEGACY_DEPLOYMENT_STATUS`
unfoldable pub legacy_status : DeploymentStatus → String
legacy_status waiting = "pending"
legacy_status in_progress = "in_progress"
legacy_status succeeded = "deployed"
legacy_status failed = "failed"
legacy_status cancelled = "cancelled"
legacy_status inactive = "inactive"
legacy_status unknown = "unknown"

abbrev pub is_final : DeploymentStatus → Bool
is_final succeeded = true
is_final failed = true
is_final cancelled = true
is_final inactive = true
is_final _ = false

-- `payload["deployment"]`
pub record DeploymentPayload : Type 0 where
  pub id : Option String
  pub state : Option String
  pub sha : Option String
  pub ref : Option String
  pub environment : Option String
  pub url : Option String
  pub created_at : Option String
  pub updated_at : Option String

-- `payload["deployment_status"]`
pub record StatusPayload : Type 0 where
  pub state : Option String
  pub sha : Option String
  pub environment : Option String
  pub environment_url : Option String
  pub log_url : Option String
  pub created_at : Option String

-- A part that is no object is `none`.
pub record Payload : Type 0 where
  pub deployment : Option DeploymentPayload
  pub deployment_status : Option StatusPayload
  pub action : Option String

abbrev pub no_status : StatusPayload
no_status = record {
  state = none;
  sha = none;
  environment = none;
  environment_url = none;
  log_url = none;
  created_at = none;
}

-- `a or b`
infixr 4 ◌or◌
abbrev pub ◌or◌ : Option String → Option String → Option String
none or b = b
(some a) or b = if is_blank a then b else some a

-- `str(value or default).strip()[:size]`, `none` where that is empty.
unfoldable pub clipped : (default : String) (size : ℕ) → Option String → Option String
clipped default size value =
    let t = prefix size (strip (or_else (value or none) default)) in
    if is_blank t then none else some t

-- `_parse_timestamp`
unfoldable pub parse_timestamp : (parse : String → Option ℕ) → Option String → (fallback : ℕ) → ℕ
parse_timestamp parse none fallback = fallback
parse_timestamp parse (some t) fallback = or_else (parse t) fallback

unfoldable pub normalized_status : Option String → DeploymentStatus
normalized_status value =
    let raw = lower (codes (strip (or_else (value or none) "unknown"))) in
    elim (first (λ (p : String × DeploymentStatus). same_codes raw (codes p.0)) github_statuses) [
      | none ↦ unknown
      | some p ↦ p.1
    ]

-- What is read from a payload, and where the event and the delivery come from.
pub record Reading : Type 0 where
  pub provider_deployment_id : String
  pub status : DeploymentStatus
  pub provider_created_at : ℕ
  pub provider_updated_at : ℕ
  pub commit_sha : Option String
  pub ref : Option String
  pub environment : String
  pub provider_url : Option String

unfoldable pub read_fields :
    (parse : String → Option ℕ) (event_time : ℕ) (provider_id : String)
    → DeploymentPayload
    → StatusPayload
    → (action : Option String) → Reading
read_fields parse event_time id d s action = record {
  provider_deployment_id = id;
  status = normalized_status (s.state or d.state or action);
  provider_created_at = parse_timestamp parse d.created_at event_time;
  provider_updated_at = parse_timestamp parse (s.created_at or d.updated_at) event_time;
  commit_sha = clipped "" 64 (d.sha or s.sha);
  ref = clipped "" 160 d.ref;
  environment = or_else (clipped "unknown" 80 (d.environment or s.environment)) "unknown";
  provider_url = clipped "" 2048 (s.environment_url or s.log_url or d.url);
}

-- `none` where the payload has no deployment or the deployment no id.
unfoldable pub read_payload :
    (parse : String → Option ℕ) (event_time : ℕ) → Payload → Option Reading
read_payload parse event_time p = elim p.deployment [
  | none ↦ none
  | some d ↦
      let id = strip (or_else (d.id or none) "") in
      if is_blank id
      then none
      else some (read_fields parse event_time id d (or_else p.deployment_status no_status) p.action)
]
