-- ===== src/Verify/Evidence/Coverage.antt =====
-- `_coverage_rate` and `parse_coverage` of verify/deployguard_verify/evidence.py, behind the reading
-- of the file. Float division, `round(rate, 6)` and the float 1.0 are arguments.
use Prim.Native.String.{String}
use deployguardai.Prelude.{
  ℕ, Bool, ◌||◌, Option, none, some, List, [], ◌∷◌, Outcome, returns, raises, leb, ◌==◌,
  if◌then◌else◌, length, select,
}
use deployguardai.Prelude.Int.{ℤ, pos, is_negative, magnitude, ◌+ℤ◌, ltb_ℤ}
use deployguardai.Verify.Models.{EvidenceState, passed, unknown, coverage, Metrics, EvidenceItem}
use deployguardai.Verify.Evidence.Junit.{Artifact, artifact_id, sha_differs}

-- An `LF:` or an `LH:` line of an LCOV file, with its integer; other lines count for nothing.
pub data LcovLine : Type 0 where
  found hit : ℤ → LcovLine

-- What the reader finds: an LCOV file; a Cobertura file without `line-rate`, as the `hits` of its
-- lines; or its `line-rate`, `none` where that is not a finite float from 0 on.
pub data CoverageReport : Type 0 where
  lcov : List LcovLine → CoverageReport
  cobertura_lines : (hits : List ℤ) → CoverageReport
  cobertura_rate : Option ℕ → CoverageReport

pub data CoverageError : Type 0 where
  invalid_totals invalid_rate : CoverageError

pub record Floats : Type 0 where
  pub divide : ℕ → ℕ → ℕ
  pub rounded : ℕ → ℕ
  pub whole : ℕ

-- `lines_found` and `lines_hit` behind the loop.
unfoldable pub totals : List LcovLine → ℤ × ℤ → ℤ × ℤ
unfolding ◌+ℤ◌
totals [] sums = sums
totals (found n ∷ ls) (f, h) = totals ls (f +ℤ n, h)
totals (hit n ∷ ls) (f, h) = totals ls (f, h +ℤ n)

-- `lines_hit / lines_found if lines_found else 0.0`
unfoldable pub line_ratio : Floats → (lines_found lines_hit : ℕ) → ℕ
line_ratio fl lines_found lines_hit =
    if lines_found == 0 then 0 else fl.divide lines_hit lines_found

abbrev pub line_counts : (lines_found lines_hit : ℕ) → List (String × ℕ)
line_counts lines_found lines_hit = ("lines_found", lines_found) ∷ ("lines_hit", lines_hit) ∷ []

-- `_coverage_rate`: the rate and the integer metrics. The totals of an LCOV file are tested after
-- the division, whose result is dropped where they are invalid.
unfoldable pub coverage_rate :
    Floats → CoverageReport → Outcome CoverageError (ℕ × List (String × ℕ))
unfolding totals line_ratio
coverage_rate fl (lcov ls) =
    let (f, h) = totals ls (pos 0, pos 0) in
    if is_negative f || is_negative h || ltb_ℤ f h
    then raises invalid_totals
    else returns
        (line_ratio fl (magnitude f) (magnitude h), line_counts (magnitude f) (magnitude h))
coverage_rate fl (cobertura_lines hits) =
    let lines_found = length hits in
    let lines_hit = length (select (λ n. ltb_ℤ (pos 0) n) hits) in
    returns (line_ratio fl lines_found lines_hit, line_counts lines_found lines_hit)
coverage_rate fl (cobertura_rate none) = raises invalid_rate
coverage_rate fl (cobertura_rate (some rate)) =
    if leb rate fl.whole then returns (rate, []) else raises invalid_rate

unfoldable pub coverage_state : (differs : Bool) → EvidenceState
coverage_state differs = if differs then unknown else passed

abbrev pub coverage_item :
    Floats
    → (describe : EvidenceState → Metrics → String) (source_sha : Option String)
      (expected_sha : String)
    → Artifact
    → ℕ × List (String × ℕ)
    → EvidenceItem
coverage_item fl describe source_sha expected_sha artifact (rate, counts) =
    let state = coverage_state (sha_differs source_sha expected_sha) in
    let metrics : Metrics = record {
      counts = counts;
      line_rate = some (fl.rounded rate);
      build_status = none;
    } in
    record {
      id = artifact_id coverage artifact.digest;
      kind = coverage;
      state = state;
      source = artifact.source;
      source_sha = source_sha;
      artifact_sha256 = some artifact.digest;
      summary = describe state metrics;
      metrics = metrics;
    }

-- The item of a rate, or the error that there is none.
unfoldable pub rated :
    Floats
    → (describe : EvidenceState → Metrics → String) (source_sha : Option String)
      (expected_sha : String)
    → Artifact
    → Outcome CoverageError (ℕ × List (String × ℕ))
    → Outcome CoverageError EvidenceItem
rated fl describe source_sha expected_sha artifact (raises e) = raises e
rated fl describe source_sha expected_sha artifact (returns r) =
    returns (coverage_item fl describe source_sha expected_sha artifact r)

unfoldable pub parse_coverage :
    Floats
    → (describe : EvidenceState → Metrics → String) (source_sha : Option String)
      (expected_sha : String)
    → Artifact
    → CoverageReport
    → Outcome CoverageError EvidenceItem
parse_coverage fl describe source_sha expected_sha artifact report =
    rated fl describe source_sha expected_sha artifact (coverage_rate fl report)
