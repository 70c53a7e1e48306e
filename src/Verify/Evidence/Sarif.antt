-- ===== src/Verify/Evidence/Sarif.antt =====
-- `_sarif_severity` and `parse_sarif` of verify/deployguard_verify/evidence.py, behind the parsing
-- of the JSON. A result is what the code reads of it: its own `security-severity` and its rule's,
-- its level in lower case, and whether it is suppressed.
use Prim.Native.String.{String}
use deployguardai.Prelude.{
  ℕ, ◌+◌, Bool, true, false, not, ◌&&◌, ◌||◌, Option, none, some, List, [], ◌∷◌, leb, ◌==◌,
  if◌then◌else◌, length, select,
}
use text.Mathlib.Text.{◌==◌ as str_eq}
use deployguardai.Verify.Models.{
  EvidenceState, passed, failed, unknown, security, Metrics, EvidenceItem,
}
use deployguardai.Verify.Evidence.Junit.{Artifact, artifact_id, sha_differs}

pub data Severity : Type 0 where
  critical high medium low note : Severity

abbrev pub is_severity : Severity → Severity → Bool
is_severity critical critical = true
is_severity high high = true
is_severity medium medium = true
is_severity low low = true
is_severity note note = true
is_severity _ _ = false

-- A `security-severity` property: absent, no finite float, or a finite float by its floor, which is
-- all that comparisons with 9, 7 and 4 need; a negative one counts as 0.
pub data Score : Type 0 where
  absent unreadable : Score
  finite : (floor : ℕ) → Score

pub record SarifResult : Type 0 where
  pub own_score : Score
  pub rule_score : Score
  pub level : String
  pub is_object : Bool
  pub is_suppressed : Bool

-- `properties.get("security-severity", rule_properties.get("security-severity"))`
unfoldable pub raw_score : SarifResult → Score
raw_score r = elim r.own_score [
  | absent ↦ r.rule_score
  | unreadable ↦ unreadable
  | finite n ↦ finite n
]

abbrev pub score_severity : ℕ → Severity
score_severity n =
    if leb 9 n then critical else if leb 7 n then high else if leb 4 n then medium else low

abbrev pub level_severity : String → Severity
level_severity level =
    if str_eq level "error"
    then high
    else if str_eq level "warning"
    then medium
    else if str_eq level "note"
    then note
    else medium

unfoldable pub sarif_severity : SarifResult → Severity
unfolding raw_score
sarif_severity r = elim (raw_score r) [
  | finite n ↦ score_severity n
  | absent ↦ level_severity r.level
  | unreadable ↦ level_severity r.level
]

-- The results that count: objects without suppressions.
abbrev pub live : List SarifResult → List SarifResult
live results = select (λ r. r.is_object && not r.is_suppressed) results

unfoldable pub tally : Severity → List SarifResult → ℕ
unfolding sarif_severity
tally s results = length (select (λ r. is_severity (sarif_severity r) s) (live results))

unfoldable pub sarif_state : (differs : Bool) (criticals highs : ℕ) → EvidenceState
sarif_state differs criticals highs =
    if differs then unknown else if not (criticals == 0) || not (highs == 0) then failed else passed

unfoldable pub parse_sarif :
    (describe : EvidenceState → Metrics → String) (source_sha : Option String)
    (expected_sha : String)
    → Artifact
    → (results : List SarifResult) → EvidenceItem
parse_sarif describe source_sha expected_sha artifact results =
    let n = λ (s : Severity). tally s results in
    let state = sarif_state (sha_differs source_sha expected_sha) (n critical) (n high) in
    let metrics : Metrics = record {
      counts =
          ("critical", n critical)
          ∷ ("high", n high)
          ∷ ("medium", n medium)
          ∷ ("low", n low)
          ∷ ("note", n note)
          ∷ ("total", n critical + n high + n medium + n low + n note)
          ∷ [];
      line_rate = none;
      build_status = none;
    } in
    record {
      id = artifact_id security artifact.digest;
      kind = security;
      state = state;
      source = artifact.source;
      source_sha = source_sha;
      artifact_sha256 = some artifact.digest;
      summary = describe state metrics;
      metrics = metrics;
    }
