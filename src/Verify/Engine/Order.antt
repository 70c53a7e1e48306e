-- ===== src/Verify/Engine/Order.antt =====
-- The decision does not depend on the order of the evidence.
use mathlib.Core.List.{Perm, foldr}
use mathlib.Core.List.Perm
use Prim.Native.String.{String}
use native.Mathlib.Decide.{ℕ_discrete}
use deployguardai.Prelude.{
  ℕ, ◌≡◌, refl, sym, ◌∙◌, ap, Bool, not, ◌&&◌, ◌||◌, Option, none, some, List, [], ◌∷◌, arith, all,
  if◌then◌else◌, any, ltb,
}
use deployguardai.Prelude.Sort.{sort, sort-perm}
use deployguardai.Verify.Models.{
  EvidenceKind, tests, build, coverage, security, is_kind, is_passed, is_failed, is_unknown,
  EvidenceItem, GitChange,
}
use deployguardai.Verify.Policy.{PathRule, Policy, LoadedPolicy, matching_path_rules}
use deployguardai.Verify.Findings.{
  by_kind, any_passed, any_failed, known_rates, least, coverage_too_low, security_blocks,
  finding_blocked,
}
use deployguardai.Verify.Engine.{item_leb, verify_change, ReceiptBody}
use deployguardai.Verify.Engine.Steps.{rule_met}
use deployguardai.Verify.Engine.Contract.{
  is_violated, is_complete, expected_decision, evaluate_decision-decision,
}

Bool-set : IsSet Bool
Bool-set = hlevel

rate-set : IsSet (Option ℕ)
rate-set = hlevel ℕ_discrete

-- A function that is a fold of steps which commute does not see the order.
module _ {ℓ κ} {A : Type ℓ} {B : Type κ} (h : List A → B) (step : A → B → B) where
  fold-eq :
      ((x : A) (xs : List A) → h (x ∷ xs) ≡ step x (h xs))
      → (xs : List A) → h xs ≡ foldr step (h []) xs
  fold-eq e [] = refl
  fold-eq e (x ∷ xs) = e x xs ∙ ap (step x) (fold-eq e xs)

  perm-eq :
      IsSet B
      → ((x : A) (xs : List A) → h (x ∷ xs) ≡ step x (h xs))
      → ((x y : A) (b : B) → step x (step y b) ≡ step y (step x b))
      → {xs ys : List A} → Perm xs ys
      → h xs ≡ h ys
  perm-eq s e comm {xs} {ys} p =
      fold-eq e xs ∙ (Perm.foldr-eq s step comm p (h []) ∙ sym (fold-eq e ys))

module _ (kind : EvidenceKind) (p : EvidenceItem → Bool) where
  any_step : EvidenceItem → Bool → Bool
  any_step item b = (is_kind item.kind kind && p item) || b

  any-by_kind-perm :
      {xs ys : List EvidenceItem} → Perm xs ys → any p (by_kind kind xs) ≡ any p (by_kind kind ys)
  unfolding any_step by_kind
  any-by_kind-perm =
      perm-eq (λ xs. any p (by_kind kind xs)) any_step Bool-set (λ x xs. ground arith)
        (λ x y b. ground arith)

lower_of : Option ℕ → Option ℕ → Option ℕ
lower_of none o = o
lower_of (some r) none = some r
lower_of (some r) (some s) = some (if ltb s r then s else r)

lower_of_comm : (a b c : Option ℕ) → lower_of a (lower_of b c) ≡ lower_of b (lower_of a c)
unfolding lower_of
lower_of_comm a b c = ground arith

rate_of : EvidenceItem → Option ℕ
rate_of item =
    if is_kind item.kind coverage && not (is_unknown item.state)
    then item.metrics.line_rate
    else none

least_rate-perm :
    {xs ys : List EvidenceItem}
    → Perm xs ys
    → least (known_rates (by_kind coverage xs)) ≡ least (known_rates (by_kind coverage ys))
unfolding least known_rates by_kind lower_of rate_of
least_rate-perm =
    perm-eq (λ xs. least (known_rates (by_kind coverage xs))) (λ item o. lower_of (rate_of item) o)
      rate-set (λ x xs. ground arith) (λ x y b. lower_of_comm (rate_of x) (rate_of y) b)

module _ {xs ys : List EvidenceItem} (p : Perm xs ys) where
  passed-perm : (kind : EvidenceKind) → any_passed (by_kind kind xs) ≡ any_passed (by_kind kind ys)
  passed-perm kind = any-by_kind-perm kind (λ item. is_passed item.state) p

  failed-perm : (kind : EvidenceKind) → any_failed (by_kind kind xs) ≡ any_failed (by_kind kind ys)
  failed-perm kind = any-by_kind-perm kind (λ item. is_failed item.state) p

  blocked-perm :
      (blocked : List String)
      → finding_blocked blocked (by_kind security xs)
        ≡ finding_blocked blocked (by_kind security ys)
  unfolding finding_blocked
  blocked-perm blocked =
      any-by_kind-perm security
        (λ item. not (is_unknown item.state) && security_blocks blocked item) p

  too_low-perm :
      (threshold : ℕ)
      → coverage_too_low threshold (by_kind coverage xs)
        ≡ coverage_too_low threshold (by_kind coverage ys)
  unfolding coverage_too_low
  too_low-perm threshold = rw (least_rate-perm p) refl

  kinds_met-perm :
      (kinds : List EvidenceKind)
      → all (λ kind. any_passed (by_kind kind xs)) kinds
        ≡ all (λ kind. any_passed (by_kind kind ys)) kinds
  kinds_met-perm [] = refl
  kinds_met-perm (kind ∷ kinds) = rw (passed-perm kind, kinds_met-perm kinds) refl

  rules_met-perm : (rules : List PathRule) → all (rule_met xs) rules ≡ all (rule_met ys) rules
  rules_met-perm [] = refl
  rules_met-perm (rule ∷ rules) =
      rw (kinds_met-perm rule.required_evidence, rules_met-perm rules) refl

  expected_decision-perm :
      (change : GitChange) (policy : Policy)
      → expected_decision change policy xs ≡ expected_decision change policy ys
  unfolding expected_decision is_violated is_complete
  expected_decision-perm change policy =
      rw
        (
          failed-perm tests,
          failed-perm build,
          failed-perm coverage,
          failed-perm security,
          passed-perm tests,
          passed-perm build,
          passed-perm coverage,
          passed-perm security,
          too_low-perm policy.requirements.minimum_line_rate,
          blocked-perm policy.requirements.block_severities,
          rules_met-perm (matching_path_rules policy change.paths),
        )
        refl

-- The receipt of `verify_change`, which sorts the evidence first, carries the decision that the
-- evidence calls for, in whatever order it comes.
pub verify_change-decision :
    (percent : ℕ → String) (digest : ReceiptBody → String) (change : GitChange)
    (policy : LoadedPolicy) (evidence supplied : List EvidenceItem)
    → Perm evidence supplied
    → let result = verify_change percent digest change policy supplied in
      (result.decision ≡ expected_decision change policy.content evidence)
      × (result.receipt.status ≡ result.decision)
unfolding verify_change
verify_change-decision percent digest change policy evidence supplied p =
    let sorted = Perm.trans (sort-perm item_leb supplied) (Perm.symm p) in
    (
      evaluate_decision-decision percent change policy.content (sort item_leb supplied)
          ∙ expected_decision-perm sorted change policy.content,
      refl,
    )
