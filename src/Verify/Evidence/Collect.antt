-- ===== src/Verify/Evidence/Collect.antt =====
-- `collect_artifacts` of verify/deployguard_verify/evidence.py. The artifacts stand in the order of
-- the sorted paths, each with what its reader found.
use Prim.Native.String
use Prim.Native.String.{String}
use deployguardai.Prelude.{
  Bool, Option, none, some, List, [], ◌∷◌, ◌++◌, Outcome, returns, raises, ◌>>=◌, if◌then◌else◌,
}
use deployguardai.Prelude.Texts.{prefix}
use deployguardai.Prelude.Sort.{sort}
use deployguardai.Verify.Models.{
  EvidenceState, passed, failed, unknown, build, Metrics, EvidenceItem,
}
use deployguardai.Verify.Engine.{item_leb}
use deployguardai.Verify.Evidence.Junit.{Artifact, TestCase, sha_differs, parse_junit}
use deployguardai.Verify.Evidence.Coverage.{Floats, CoverageReport, CoverageError, parse_coverage}
use deployguardai.Verify.Evidence.Sarif.{SarifResult, parse_sarif}

-- The arguments of `--build-status`.
pub data BuildStatus : Type 0 where
  success failure unreported : BuildStatus

abbrev pub status_name : BuildStatus → String
status_name success = "success"
status_name failure = "failure"
status_name unreported = "unknown"

pub record Artifacts : Type 0 where
  pub junit : List (Artifact × List TestCase)
  pub coverage : List (Artifact × CoverageReport)
  pub sarif : List (Artifact × List SarifResult)

unfoldable pub build_state : (differs : Bool) → BuildStatus → EvidenceState
build_state differs status =
    if differs
    then unknown
    else elim status [ success ↦ passed | failure ↦ failed | unreported ↦ failed ]

module _ (fl : Floats) (describe : EvidenceState → Metrics → String) (source_sha : Option String)
    (expected_sha : String) where
  unfoldable pub build_item : BuildStatus → EvidenceItem
  unfolding build_state prefix
  build_item status =
      let state = build_state (sha_differs source_sha expected_sha) status in
      let metrics : Metrics = record {
        counts = [];
        line_rate = none;
        build_status = some (status_name status);
      } in
      record {
        id = String.◌++◌ "build-" (prefix 16 expected_sha);
        kind = build;
        state = state;
        source = "ci:build-status";
        source_sha = source_sha;
        artifact_sha256 = none;
        summary = describe state metrics;
        metrics = metrics;
      }

  abbrev pub build_items : BuildStatus → List EvidenceItem
  build_items unreported = []
  build_items success = build_item success ∷ []
  build_items failure = build_item failure ∷ []

  abbrev pub junit_items : List (Artifact × List TestCase) → List EvidenceItem
  junit_items [] = []
  junit_items ((a, cases) ∷ rest) =
      parse_junit describe source_sha expected_sha a cases ∷ junit_items rest

  abbrev pub sarif_items : List (Artifact × List SarifResult) → List EvidenceItem
  sarif_items [] = []
  sarif_items ((a, results) ∷ rest) =
      parse_sarif describe source_sha expected_sha a results ∷ sarif_items rest

  unfoldable pub coverage_items :
      List (Artifact × CoverageReport) → Outcome CoverageError (List EvidenceItem)
  coverage_items [] = returns []
  coverage_items ((a, report) ∷ rest) =
      parse_coverage fl describe source_sha expected_sha a report >>= λ item.
      coverage_items rest >>= λ items. returns (item ∷ items)

  -- All items, once the coverage artifacts have been read.
  unfoldable pub all_items :
      Artifacts
      → BuildStatus
      → Outcome CoverageError (List EvidenceItem)
      → Outcome CoverageError (List EvidenceItem)
  all_items artifacts status (raises e) = raises e
  all_items artifacts status (returns coverage) = returns (
      sort item_leb (
        junit_items artifacts.junit
        ++ (coverage ++ (sarif_items artifacts.sarif ++ build_items status))))

  unfoldable pub collect_artifacts :
      Artifacts → BuildStatus → Outcome CoverageError (List EvidenceItem)
  collect_artifacts artifacts status =
      all_items artifacts status (coverage_items artifacts.coverage)
