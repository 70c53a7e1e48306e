-- ===== src/Verify/Engine/Contract.antt =====
-- What decides a change, read off the evidence without the engine's lists of reasons.
use Prim.Native.String.{String}
use deployguardai.Prelude.{
  ℕ, ◌≡◌, refl, ◌∙◌, Bool, false, not, ◌&&◌, ◌||◌, List, arith, inl, inr, if◌then◌else◌, all,
  is_empty, Bool-cases,
}
use deployguardai.Verify.Models.{
  Decision, pass, review, block, EvidenceKind, tests, build, coverage, security, EvidenceItem,
  GitChange, docs_only,
}
use deployguardai.Verify.Policy.{PathRule, Policy, matching_path_rules}
use deployguardai.Verify.Findings.{
  Findings, by_kind, any_failed, required, require, observe, coverage_too_low, check_coverage,
  finding_blocked, check_security,
}
use deployguardai.Verify.Engine.{no_change, gather, evaluate_decision}
use deployguardai.Verify.Engine.Steps.{
  apply_rules-lem, blocks_algebra, check_coverage-blocks, check_coverage-reviews,
  check_security-blocks, check_security-reviews, conclude-decision, fails_requirement,
  fails_requirement-failed, lacks, no_blocks, no_change-reviews, no_reviews, observe-blocks,
  observe-reviews, require-blocks, require-reviews, reviews_algebra, rule_met,
}

module _ (change : GitChange) (policy : Policy) (evidence : List EvidenceItem) where
  abbrev pub needs : EvidenceKind → Bool
  needs kind = required policy.requirements kind (docs_only change)

  -- The evidence breaks an objective rule.
  unfoldable pub is_violated : Bool
  is_violated =
      (any_failed (by_kind tests evidence) || any_failed (by_kind build evidence))
      || (fails_requirement (needs coverage) (by_kind coverage evidence)
          || fails_requirement (needs security) (by_kind security evidence))
      || (coverage_too_low policy.requirements.minimum_line_rate (by_kind coverage evidence)
          || finding_blocked policy.requirements.block_severities (by_kind security evidence))

  -- There is a change, and all that is required of it has passed.
  unfoldable pub is_complete : Bool
  is_complete =
      (not (is_empty change.paths)
        && not (lacks (needs tests) (by_kind tests evidence))
        && not (lacks (needs build) (by_kind build evidence))
        && not (lacks (needs coverage) (by_kind coverage evidence))
        && not (lacks (needs security) (by_kind security evidence)))
      && all (rule_met evidence) (matching_path_rules policy change.paths)

  unfoldable pub expected_decision : Decision
  expected_decision = if is_violated then block else if is_complete then pass else review

module _ (percent : ℕ → String) (change : GitChange) (policy : Policy)
    (evidence : List EvidenceItem) where
  abbrev of : EvidenceKind → List EvidenceItem
  of kind = by_kind kind evidence

  abbrev q : EvidenceKind → Bool
  q kind = needs change policy evidence kind

  abbrev round : EvidenceKind → Findings → Findings
  round kind f = require (q kind) kind (of kind) f

  abbrev required_findings : Findings
  required_findings =
      round security (round coverage (round build (round tests (no_change change.paths))))

  abbrev checked_findings : Findings
  checked_findings =
      let r = policy.requirements in
      check_security r.block_severities (of security) (
        check_coverage percent r.minimum_line_rate (of coverage)
          (observe build (of build) (observe tests (of tests) required_findings)))

  checked-blocks : no_blocks checked_findings ≡ not (is_violated change policy evidence)
  unfolding is_violated
  checked-blocks =
      simp (check_security-blocks, check_coverage-blocks, observe-blocks, require-blocks)
        (blocks_algebra (fails_requirement (q tests) (of tests))
          (fails_requirement (q build) (of build)) (fails_requirement (q coverage) (of coverage))
          (fails_requirement (q security) (of security)) (any_failed (of tests))
          (any_failed (of build)) _ _ (fails_requirement-failed (q tests) (of tests))
          (fails_requirement-failed (q build) (of build)))

  checked-reviews : no_reviews checked_findings ≡ (
      (((not (is_empty change.paths)
            && not (lacks (q tests) (of tests) && not (any_failed (of tests))))
          && not (lacks (q build) (of build) && not (any_failed (of build))))
        && not (lacks (q coverage) (of coverage) && not (any_failed (of coverage))))
      && not (lacks (q security) (of security) && not (any_failed (of security))))
  checked-reviews = simp (
    check_security-reviews, check_coverage-reviews, observe-reviews, require-reviews,
    no_change-reviews,
  )

  abbrev rules : List PathRule
  rules = matching_path_rules policy change.paths

  gather-blocks :
      no_blocks (gather percent change policy evidence) ≡ not (is_violated change policy evidence)
  unfolding gather
  gather-blocks = (apply_rules-lem evidence rules checked_findings).0 ∙ checked-blocks

  gather-reviews :
      is_violated change policy evidence ≡ false
      → no_reviews (gather percent change policy evidence) ≡ is_complete change policy evidence
  unfolding gather is_complete is_violated
  gather-reviews h =
      (apply_rules-lem evidence rules checked_findings).1
      ∙ rw checked-reviews (
          reviews_algebra (is_empty change.paths) (lacks (q tests) (of tests))
            (lacks (q build) (of build)) (lacks (q coverage) (of coverage))
            (lacks (q security) (of security)) (any_failed (of tests)) (any_failed (of build))
            (any_failed (of coverage)) (any_failed (of security)) (all (rule_met evidence) rules)
            (ground (arith)))

-- The decision is the expected one: BLOCK where the evidence breaks an objective rule, else PASS
-- exactly where there is a change and all that is required of it has passed, else REVIEW.
pub evaluate_decision-decision :
    (percent : ℕ → String) (change : GitChange) (policy : Policy) (evidence : List EvidenceItem)
    → (evaluate_decision percent change policy evidence).decision
      ≡ expected_decision change policy evidence
unfolding evaluate_decision expected_decision
evaluate_decision-decision percent change policy evidence =
    conclude-decision (gather percent change policy evidence)
    ∙ elim (Bool-cases (is_violated change policy evidence)) [
      | inl e ↦ rw (gather-blocks, e) refl
      | inr e ↦ rw (gather-blocks, e) (rw (gather-reviews percent change policy evidence e) refl)
    ]
