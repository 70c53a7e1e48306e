-- ===== src/Verify/Engine/Stale.antt =====
-- Evidence that was not verified for the head: it neither passes nor blocks.
use Prim.Native.String.{String}
use deployguardai.Prelude.{
  ℕ, ◌≡◌, refl, ◌∙◌, Bool, true, false, not, ◌&&◌, List, [], ◌∷◌, arith, all, All, is_empty,
  if◌then◌else◌,
}
use deployguardai.Verify.Models.{
  pass, review, EvidenceKind, tests, build, coverage, security, is_unknown, EvidenceItem, GitChange,
  docs_only,
}
use deployguardai.Verify.Policy.{PathRule, Policy, matching_path_rules}
use deployguardai.Verify.Findings.{
  by_kind, any_passed, any_failed, known_rates, least, coverage_too_low, finding_blocked, required,
}
use deployguardai.Verify.Engine.{evaluate_decision}
use deployguardai.Verify.Engine.Steps.{rule_met}
use deployguardai.Verify.Engine.Contract.{
  is_violated, is_complete, expected_decision, evaluate_decision-decision,
}

abbrev pub IsStale : EvidenceItem → Type 0
IsStale item = is_unknown item.state ≡ true

IsStale-by_kind :
    (kind : EvidenceKind) (evidence : List EvidenceItem)
    → All IsStale evidence
    → All IsStale (by_kind kind evidence)
unfolding by_kind
IsStale-by_kind kind [] h = tt
IsStale-by_kind kind (x ∷ xs) (s, h) = ground (arith, IsStale-by_kind kind xs h)

stale_none :
    (items : List EvidenceItem)
    → All IsStale items
    → (any_passed items ≡ false) × (any_failed items ≡ false)
stale_none [] h = (refl, refl)
stale_none (x ∷ items) (s, h) = ground (arith, stale_none items h)

stale_rates : (items : List EvidenceItem) → All IsStale items → known_rates items ≡ []
unfolding known_rates
stale_rates [] h = refl
stale_rates (x ∷ items) (s, h) = ground (arith, stale_rates items h)

stale_findings :
    (blocked : List String) (items : List EvidenceItem)
    → All IsStale items
    → finding_blocked blocked items ≡ false
unfolding finding_blocked
stale_findings blocked [] h = refl
stale_findings blocked (x ∷ items) (s, h) = ground (arith, stale_findings blocked items h)

-- Nothing is required of the change: by no requirement and by no rule that it matches.
unfoldable pub asks_nothing : GitChange → Policy → Bool
asks_nothing change policy =
    let q = λ (kind : EvidenceKind). required policy.requirements kind (docs_only change) in
    (not (is_empty change.paths)
      && not (q tests)
      && not (q build)
      && not (q coverage)
      && not (q security))
    && all (λ rule. is_empty rule.required_evidence) (matching_path_rules policy change.paths)

module _ (change : GitChange) (policy : Policy) (evidence : List EvidenceItem)
    (stale : All IsStale evidence) where
  no_pass : (kind : EvidenceKind) → any_passed (by_kind kind evidence) ≡ false
  no_pass kind = (stale_none _ (IsStale-by_kind kind evidence stale)).0

  no_fail : (kind : EvidenceKind) → any_failed (by_kind kind evidence) ≡ false
  no_fail kind = (stale_none _ (IsStale-by_kind kind evidence stale)).1

  no_rate : (threshold : ℕ) → coverage_too_low threshold (by_kind coverage evidence) ≡ false
  unfolding coverage_too_low least
  no_rate threshold = rw (stale_rates _ (IsStale-by_kind coverage evidence stale)) (ground arith)

  rule_unmet : (rule : PathRule) → rule_met evidence rule ≡ is_empty rule.required_evidence
  rule_unmet rule = go rule.required_evidence
    where
      go :
          (kinds : List EvidenceKind)
          → all (λ kind. any_passed (by_kind kind evidence)) kinds ≡ is_empty kinds
      go [] = refl
      go (kind ∷ kinds) = rw (no_pass kind) refl

  rules_unmet :
      (rules : List PathRule)
      → all (rule_met evidence) rules ≡ all (λ rule. is_empty rule.required_evidence) rules
  rules_unmet [] = refl
  rules_unmet (rule ∷ rules) = rw (rule_unmet rule, rules_unmet rules) refl

  stale_not_violated : is_violated change policy evidence ≡ false
  unfolding is_violated
  stale_not_violated =
      rw
        (
          no_fail tests,
          no_fail build,
          no_fail coverage,
          no_fail security,
          no_rate policy.requirements.minimum_line_rate,
          stale_findings policy.requirements.block_severities _
              (IsStale-by_kind security evidence stale),
        )
        (ground arith)

  pub stale_complete : is_complete change policy evidence ≡ asks_nothing change policy
  unfolding is_complete asks_nothing
  stale_complete =
      rw
        (
          no_pass tests,
          no_pass build,
          no_pass coverage,
          no_pass security,
          rules_unmet (matching_path_rules policy change.paths),
        )
        (ground arith)

pub expected_decision_stale :
    (change : GitChange) (policy : Policy) (evidence : List EvidenceItem)
    → All IsStale evidence
    → expected_decision change policy evidence
      ≡ (if asks_nothing change policy then pass else review)
unfolding expected_decision
expected_decision_stale change policy evidence stale =
    rw
      (stale_not_violated change policy evidence stale, stale_complete change policy evidence stale)
      refl

-- On evidence of which no item could be verified for the head SHA the decision is PASS where nothing
-- is asked of the change, and REVIEW everywhere else.
pub evaluate_decision_stale :
    (percent : ℕ → String) (change : GitChange) (policy : Policy) (evidence : List EvidenceItem)
    → All IsStale evidence
    → (evaluate_decision percent change policy evidence).decision
      ≡ (if asks_nothing change policy then pass else review)
evaluate_decision_stale percent change policy evidence stale =
    evaluate_decision-decision percent change policy evidence
    ∙ expected_decision_stale change policy evidence stale
