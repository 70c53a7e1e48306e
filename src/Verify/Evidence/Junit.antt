-- ===== src/Verify/Evidence/Junit.antt =====
-- `parse_junit` of verify/deployguard_verify/evidence.py, behind the reading of the file: a test case
-- is known by which of the three child elements it has.
use Prim.Native.String
use Prim.Native.String.{String}
use text.Mathlib.Text.{◌==◌ as str_eq}
use deployguardai.Prelude.{
  ℕ, Bool, true, not, ◌||◌, Option, none, some, List, [], ◌∷◌, ◌==◌, if◌then◌else◌, length, select,
}
use deployguardai.Prelude.Texts.{prefix}
use deployguardai.Verify.Models.{
  EvidenceState, passed, failed, unknown, EvidenceKind, tests, kind_name, Metrics, EvidenceItem,
}

-- What the file and its place give every item: the digest of its bytes and its path.
pub record Artifact : Type 0 where
  pub digest : String
  pub source : String

-- `source_sha != expected_sha`
abbrev pub sha_differs : Option String → String → Bool
sha_differs none expected = true
sha_differs (some sha) expected = not (str_eq sha expected)

-- `_artifact_id`
unfoldable pub artifact_id : EvidenceKind → String → String
unfolding kind_name prefix
artifact_id kind digest = String.◌++◌ (String.◌++◌ (kind_name kind) "-") (prefix 16 digest)

pub record TestCase : Type 0 where
  pub has_failure : Bool
  pub has_error : Bool
  pub was_skipped : Bool

abbrev pub count_cases : (TestCase → Bool) → List TestCase → ℕ
count_cases p cases = length (select p cases)

unfoldable pub junit_state : (differs : Bool) (total failures errors : ℕ) → EvidenceState
junit_state differs total failures errors =
    if differs
    then unknown
    else if total == 0
    then unknown
    else if not (failures == 0) || not (errors == 0)
    then failed
    else passed

-- The summaries are texts for people; `describe` makes them.
unfoldable pub parse_junit :
    (describe : EvidenceState → Metrics → String) (source_sha : Option String)
    (expected_sha : String)
    → Artifact
    → List TestCase
    → EvidenceItem
parse_junit describe source_sha expected_sha artifact cases =
    let failures = count_cases (λ c. c.has_failure) cases in
    let errors = count_cases (λ c. c.has_error) cases in
    let skipped = count_cases (λ c. c.was_skipped) cases in
    let state = junit_state (sha_differs source_sha expected_sha) (length cases) failures errors in
    let metrics : Metrics = record {
      counts =
          ("tests", length cases)
          ∷ ("failures", failures)
          ∷ ("errors", errors)
          ∷ ("skipped", skipped)
          ∷ [];
      line_rate = none;
      build_status = none;
    } in
    record {
      id = artifact_id tests artifact.digest;
      kind = tests;
      state = state;
      source = artifact.source;
      source_sha = source_sha;
      artifact_sha256 = some artifact.digest;
      summary = describe state metrics;
      metrics = metrics;
    }
