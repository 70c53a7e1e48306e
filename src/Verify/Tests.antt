-- ===== src/Verify/Tests.antt =====
-- The theorems on the verification command at a sample run.
use mathlib.Core.List.Perm
use deployguardai.Prelude.{
  ◌≡◌, ◌≢◌, ◌↔◌, ◌<◌, refl, All, true, false, not, none, some, List, [], ◌∷◌, all, length,
  if◌then◌else◌, returns,
}
use deployguardai.Verify.Models.{
  passed, unknown, pass, review, tests, security, EvidenceItem, docs_only,
}
use deployguardai.Verify.Policy.{LoadedPolicy, default_policy, builtin_policy, matching_path_rules}
use deployguardai.Prelude.Sort.{sort}
use deployguardai.Verify.Findings.{
  apply_rules, check_security, finding_blocked, by_kind, check_coverage, coverage_too_low, observe,
  require, required,
}
use deployguardai.Verify.Engine.{
  evaluate_decision, verify_change, conclude, gather, add_reasons, item_leb,
}
use deployguardai.Verify.Engine.Contract.{
  is_violated, is_complete, expected_decision, evaluate_decision-decision,
}
use deployguardai.Verify.Engine.Order.{verify_change-decision}
use deployguardai.Verify.Engine.Stale.{asks_nothing, evaluate_decision_stale}
use deployguardai.Verify.Evidence.Junit.{sha_differs, junit_state, parse_junit}
use deployguardai.Verify.Evidence.Sarif.{parse_sarif}
use deployguardai.Verify.Evidence.Collect.{
  all_items, build_item, coverage_items, collect_artifacts, unreported,
}
use deployguardai.Verify.Evidence.Verdicts.{
  Stales, IsSeriousResult, parse_junit-passed, parse_sarif-passed, collect_artifacts-Stales,
}
use deployguardai.Verify.Cli.{load_policy, resolve_sha, main}
use deployguardai.Verify.Cli.Gate.{Run, main_zero, main_stale}
use deployguardai.Verify.Policy.Yaml.{object, get, only_fields}
use deployguardai.Verify.Policy.Check.{
  validate_policy, check_kinds, check_requirements, check_requirement, config_of, check_threshold,
  one_rate, check_names, check_path_rules, check_rules, check_rule, has_patterns, all_patterns,
  all_in,
}
use deployguardai.Verify.Policy.Rules.{IsPolicy, validate_policy-IsPolicy}
use deployguardai.Verify.Samples.{
  sample_fields, head, other_sha, sample_change, sample_item, sample_artifact, good_case,
  minor_result, sample_artifacts, sample_floats, sample_library, sample_inputs,
}

abbrev two_items : List EvidenceItem
two_items = sample_item "t" tests passed ∷ sample_item "s" security passed ∷ []

abbrev two_items_swapped : List EvidenceItem
two_items_swapped = sample_item "s" security passed ∷ sample_item "t" tests passed ∷ []

abbrev stale_items : List EvidenceItem
stale_items = sample_item "t" tests unknown ∷ []

evaluate_decision-decision_example :
    (evaluate_decision (λ _. "80.0%") sample_change default_policy two_items).decision
    ≡ expected_decision sample_change default_policy two_items
evaluate_decision-decision_example =
    evaluate_decision-decision (λ _. "80.0%") sample_change default_policy two_items

sample_loaded : LoadedPolicy
sample_loaded = builtin_policy (λ _. "")

verify_change-decision_example :
    let result =
      verify_change (λ _. "80.0%") (λ _. "") sample_change sample_loaded two_items_swapped in
    (result.decision ≡ expected_decision sample_change sample_loaded.content two_items)
    × (result.receipt.status ≡ result.decision)
verify_change-decision_example =
    verify_change-decision (λ _. "80.0%") (λ _. "") sample_change sample_loaded two_items
      two_items_swapped (Perm.swap _ _ [])

evaluate_decision_stale_example :
    (evaluate_decision (λ _. "80.0%") sample_change default_policy stale_items).decision
    ≡ (if asks_nothing sample_change default_policy then pass else review)
evaluate_decision_stale_example =
    evaluate_decision_stale (λ _. "80.0%") sample_change default_policy stale_items (refl, tt)

parse_junit-passed_example :
    ((parse_junit (λ _ _. "") (some head) head sample_artifact (good_case ∷ [])).state ≡ passed) ↔ (
      (sha_differs (some head) head ≡ false)
      × (0 < length (good_case ∷ []))
      × (all (λ c. not c.has_failure) (good_case ∷ []) ≡ true)
      × (all (λ c. not c.has_error) (good_case ∷ []) ≡ true))
parse_junit-passed_example =
    parse_junit-passed (λ _ _. "") (some head) head sample_artifact (good_case ∷ [])

parse_sarif-passed_example :
    ((parse_sarif (λ _ _. "") (some head) head sample_artifact (minor_result ∷ [])).state ≡ passed)
    ↔ ((sha_differs (some head) head ≡ false) × All (λ r. ¬ IsSeriousResult r) (minor_result ∷ []))
parse_sarif-passed_example =
    parse_sarif-passed (λ _ _. "") (some head) head sample_artifact (minor_result ∷ [])

collect_artifacts-Stales_example :
    Stales (
      collect_artifacts sample_floats (λ _ _. "") (some other_sha) head sample_artifacts unreported)
collect_artifacts-Stales_example =
    collect_artifacts-Stales sample_floats (λ _ _. "") (some other_sha) head refl sample_artifacts
      unreported

passes : main sample_library (sample_inputs none) ≡ 0
unfolding main all_items coverage_items evaluate_decision conclude gather apply_rules
    matching_path_rules check_security finding_blocked by_kind sort parse_junit check_coverage
    coverage_too_low observe junit_state require required docs_only add_reasons item_leb build_item
passes = refl

main_zero_example :
    (r : Run sample_library (sample_inputs none)) × (is_violated r.change r.policy.content
        r.evidence
      ≡ false)
    × (is_complete r.change r.policy.content r.evidence ≡ true)
main_zero_example = main_zero sample_library (sample_inputs none) passes

loads :
    load_policy sample_library (sample_inputs (some other_sha)) ≡ returns (builtin_policy (λ _. ""))
unfolding load_policy
loads = refl

resolves : resolve_sha sample_library (sample_inputs (some other_sha)) head ≡ returns other_sha
unfolding resolve_sha
resolves = refl

tests_asked : asks_nothing sample_change (builtin_policy (λ _. "")).content ≡ false
unfolding asks_nothing builtin_policy required docs_only
tests_asked = refl

main_stale_example : main sample_library (sample_inputs (some other_sha)) ≢ 0
main_stale_example =
    main_stale sample_library (sample_inputs (some other_sha)) sample_change
      (builtin_policy (λ _. "")) other_sha refl loads resolves refl tests_asked

accepted_sample : validate_policy (object sample_fields) ≡ returns sample_fields
unfolding validate_policy only_fields get check_kinds check_requirements check_requirement config_of
    check_threshold one_rate check_names check_path_rules check_rules check_rule has_patterns
    all_patterns all_in
accepted_sample = refl

validate_policy-IsPolicy_example : IsPolicy sample_fields
validate_policy-IsPolicy_example = validate_policy-IsPolicy sample_fields accepted_sample
