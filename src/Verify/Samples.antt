-- ===== src/Verify/Samples.antt =====
-- A sample run of the command, for the tests: one change to one file, one JUnit report.
use Prim.Native.String.{String}
use deployguardai.Prelude.{true, false, Option, none, some, [], ◌∷◌, returns}
use deployguardai.Verify.Models.{EvidenceState, EvidenceKind, EvidenceItem, GitChange}
use deployguardai.Verify.Policy.{default_policy}
use deployguardai.Verify.Policy.Yaml.{
  Fields, field, end, str, object, boolean, number, sequence, cons, nil,
}
use deployguardai.Verify.Evidence.Junit.{Artifact, TestCase}
use deployguardai.Verify.Evidence.Coverage.{Floats}
use deployguardai.Verify.Evidence.Sarif.{SarifResult, finite, absent}
use deployguardai.Verify.Evidence.Collect.{Artifacts, unreported}
use deployguardai.Verify.Cli.{Library, Inputs, builtin}

abbrev pub head : String
head = "00112233445566778899aabbccddeeff00112233"

abbrev pub other_sha : String
other_sha = "ffeeddccbbaa99887766554433221100ffeeddcc"

abbrev pub sample_change : GitChange
sample_change = record {
  repository = "octo/app";
  base_sha = "base";
  head_sha = head;
  merge_base_sha = "base";
  generated_at = "2026-01-01T00:00:00Z";
  paths = "src/app.py" ∷ [];
  files_changed = 1;
  lines_added = 2;
  lines_deleted = 1;
  flags = [];
}

abbrev pub sample_item : (id : String) → EvidenceKind → EvidenceState → EvidenceItem
sample_item id kind state = record {
  id = id;
  kind = kind;
  state = state;
  source = "reports/report.xml";
  source_sha = some head;
  artifact_sha256 = some id;
  summary = "";
  metrics = record { counts = []; line_rate = none; build_status = none };
}

abbrev pub sample_artifact : Artifact
sample_artifact = record { digest = "0123456789abcdef0123"; source = "reports/junit.xml" }

abbrev pub good_case : TestCase
good_case = record { has_failure = false; has_error = false; was_skipped = false }

abbrev pub minor_result : SarifResult
minor_result = record {
  own_score = absent;
  rule_score = finite 6;
  level = "error";
  is_object = true;
  is_suppressed = false;
}

abbrev pub sample_artifacts : Artifacts
sample_artifacts = record {
  junit = (sample_artifact, good_case ∷ []) ∷ [];
  coverage = [];
  sarif = [];
}

abbrev pub sample_floats : Floats
sample_floats = record { divide = λ _ _. 0; rounded = λ r. r; whole = 1 }

abbrev pub sample_library : Library
sample_library = record {
  lower = λ s. s;
  percent = λ _. "80.0%";
  floats = sample_floats;
  describe = λ _ _. "";
  digest_policy = λ _. "";
  digest_receipt = λ _. "";
}

abbrev pub sample_inputs : (evidence_sha : Option String) → Inputs
sample_inputs evidence_sha = record {
  change = returns sample_change;
  policy_source = builtin;
  base_policy = returns none;
  tree_policy =
      returns record { content = default_policy; source = ".deployguard.yml"; sha256 = "" };
  evidence_sha = evidence_sha;
  environment_sha = none;
  artifacts = returns sample_artifacts;
  build_status = unreported;
  output_inside = true;
  written = returns tt;
}

-- A policy with one requirement and one rule.
abbrev pub sample_fields : Fields
sample_fields = field "schema_version" (str "deployguard-policy/v0.1") (
    field "requirements"
      (object (
        field "tests" (object (field "required" (boolean true) end))
          (field "coverage" (object (field "minimum_line_rate" (number 1) end)) end)))
      (field "path_rules"
        (sequence (
          cons
            (object (
              field "id" (str "api") (
                field "patterns" (sequence (cons (str "src/api/*") nil))
                  (field "required_evidence" (sequence (cons (str "tests") nil)) end))))
            nil))
        end))
