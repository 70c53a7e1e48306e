-- ===== src/Verify/Findings.antt =====
-- What `_evaluate_decision` of verify/deployguard_verify/engine.py finds: the rounds of its loops over the
-- kinds of evidence and over the path rules.
use Prim.Native.String
use Prim.Native.String.{String}
use text.Mathlib.Text.{◌==◌ as str_eq}
use deployguardai.Prelude.{
  ℕ, Bool, false, not, ◌&&◌, Option, none, some, List, [], ◌∷◌, ◌++◌, ltb, if◌then◌else◌, any,
  select, is_empty,
}
use deployguardai.Verify.Models.{
  EvidenceKind, tests, build, coverage, security, kind_name, is_kind, is_passed, is_failed,
  is_unknown, EvidenceItem,
}
use deployguardai.Verify.Policy.{Requirements, PathRule}

-- A reason: its code and its message.
abbrev pub Reason : Type 0
Reason = String × String

infixl 65 ◌<>◌
abbrev pub ◌<>◌ : String → String → String
s <> t = String.◌++◌ s t

-- The local lists of `_evaluate_decision`.
pub record Findings : Type 0 where
  pub blocks : List Reason
  pub reviews : List Reason
  pub matched_rules : List String

abbrev pub add_block : Reason → Findings → Findings
add_block r f = record f { blocks = f.blocks ++ r ∷ [] }

abbrev pub add_review : Reason → Findings → Findings
add_review r f = record f { reviews = f.reviews ++ r ∷ [] }

-- `by_kind.get(kind, [])`
unfoldable pub by_kind : EvidenceKind → List EvidenceItem → List EvidenceItem
by_kind kind evidence = select (λ item. is_kind item.kind kind) evidence

abbrev pub any_passed : List EvidenceItem → Bool
any_passed items = any (λ item. is_passed item.state) items

abbrev pub any_failed : List EvidenceItem → Bool
any_failed items = any (λ item. is_failed item.state) items

-- `_required`
unfoldable pub required : Requirements → EvidenceKind → (docs_only : Bool) → Bool
required r tests docs = if docs && r.skip_for_docs_only then false else r.tests_required
required r build docs = r.build_required
required r coverage docs = r.coverage_required
required r security docs = r.security_required

-- `int(item.metrics.get(severity, 0) or 0)`
unfoldable pub metric : String → List (String × ℕ) → ℕ
metric key [] = 0
metric key ((k, n) ∷ counts) = if str_eq k key then n else metric key counts

-- `_security_blocks`
unfoldable pub security_blocks : List String → EvidenceItem → Bool
unfolding metric
security_blocks blocked item = any (λ severity. ltb 0 (metric severity item.metrics.counts)) blocked

-- One round of the first loop over the kinds.
unfoldable pub require :
    (is_required : Bool) → EvidenceKind → List EvidenceItem → Findings → Findings
require is_required kind items f =
    if is_required && is_empty items
    then add_review
        (
          "missing-" <> kind_name kind <> "-evidence",
          "Required " <> kind_name kind <> " evidence was not provided.",
        )
        f
    else if is_required && not (is_empty items) && not (any_passed items)
    then if any_failed items
      then add_block
          (
            "failed-" <> kind_name kind <> "-evidence",
            "Required " <> kind_name kind <> " evidence contains a failure.",
          )
          f
      else add_review
          (
            "unknown-" <> kind_name kind <> "-evidence",
            "Required " <> kind_name kind <> " evidence could not be verified for the head SHA.",
          )
          f
    else f

-- One round of the second loop.
unfoldable pub observe : EvidenceKind → List EvidenceItem → Findings → Findings
observe kind items f =
    if any_failed items
    then add_block
        (
          "failed-" <> kind_name kind <> "-evidence",
          "Observed " <> kind_name kind <> " evidence contains a failure.",
        )
        f
    else f

-- The line rates that were verified for the head.
unfoldable pub known_rates : List EvidenceItem → List ℕ
known_rates [] = []
known_rates (item ∷ items) =
    if not (is_unknown item.state)
    then elim item.metrics.line_rate [ none ↦ known_rates items | some r ↦ r ∷ known_rates items ]
    else known_rates items

-- `min(rates)`, where there are any
unfoldable pub least : List ℕ → Option ℕ
least [] = none
least (r ∷ rates) = elim (least rates) [ none ↦ some r | some s ↦ some (if ltb s r then s else r) ]

-- `rates and min(rates) < threshold`
abbrev pub is_below : ℕ → Option ℕ → Bool
is_below threshold none = false
is_below threshold (some r) = ltb r threshold

unfoldable pub coverage_too_low : (threshold : ℕ) → List EvidenceItem → Bool
unfolding known_rates least
coverage_too_low threshold items = ltb 0 threshold && is_below threshold (least (known_rates items))

unfoldable pub check_coverage :
    (percent : ℕ → String) (threshold : ℕ) → List EvidenceItem → Findings → Findings
check_coverage percent threshold items f =
    if coverage_too_low threshold items
    then add_block
        (
          "coverage-below-policy",
          "Observed line coverage is below the " <> percent threshold <> " policy threshold.",
        )
        f
    else f

unfoldable pub finding_blocked : List String → List EvidenceItem → Bool
unfolding security_blocks
finding_blocked blocked items =
    any (λ item. not (is_unknown item.state) && security_blocks blocked item) items

unfoldable pub check_security : List String → List EvidenceItem → Findings → Findings
check_security blocked items f =
    if finding_blocked blocked items
    then add_block
        ("security-finding-blocked", "SARIF contains a finding at a policy-blocking severity.") f
    else f

-- One round of the inner loop over a rule's required evidence.
unfoldable pub require_of_rule :
    (rule_id : String) → EvidenceKind → List EvidenceItem → Findings → Findings
require_of_rule rule_id kind items f =
    if not (any_passed items)
    then add_review
        (
          "path-rule-" <> rule_id <> "-" <> kind_name kind,
          "Path rule " <> rule_id <> " requires verified " <> kind_name kind <> " evidence.",
        )
        f
    else f

unfoldable pub require_by_rule :
    (rule_id : String) → List EvidenceItem → List EvidenceKind → Findings → Findings
require_by_rule rule_id evidence [] f = f
require_by_rule rule_id evidence (kind ∷ kinds) f =
    require_by_rule rule_id evidence kinds (require_of_rule rule_id kind (by_kind kind evidence) f)

-- The loop over the matching rules.
unfoldable pub apply_rules : List EvidenceItem → List PathRule → Findings → Findings
apply_rules evidence [] f = f
apply_rules evidence (rule ∷ rules) f = apply_rules evidence rules (
    require_by_rule rule.id evidence rule.required_evidence
      (record f { matched_rules = f.matched_rules ++ rule.id ∷ [] }))
