-- ===== src/Verify/Engine/Steps.antt =====
-- What each round of `_evaluate_decision` adds to the lists of reasons, as far as it decides.
use Prim.Native.String.{String}
use deployguardai.Prelude.{
  ℕ, ◌≡◌, refl, ◌∙◌, Bool, true, false, not, ◌&&◌, ◌||◌, List, [], ◌∷◌, ◌++◌, arith, if◌then◌else◌,
  all, is_empty,
}
use deployguardai.Verify.Models.{pass, review, block, EvidenceKind, EvidenceItem}
use deployguardai.Verify.Policy.{PathRule}
use deployguardai.Verify.Findings.{
  Reason, Findings, by_kind, any_passed, any_failed, require, observe, coverage_too_low,
  check_coverage, finding_blocked, check_security, require_of_rule, require_by_rule, apply_rules,
}
use deployguardai.Verify.Engine.{no_change, conclude}

-- A required kind has evidence, none of it passed and some of it failed.
abbrev pub fails_requirement : Bool → List EvidenceItem → Bool
fails_requirement q items = q && (not (any_passed items) && any_failed items)

-- A required kind has no evidence that passed.
abbrev pub lacks : Bool → List EvidenceItem → Bool
lacks q items = q && not (any_passed items)

abbrev pub rule_met : List EvidenceItem → PathRule → Bool
rule_met evidence rule = all (λ kind. any_passed (by_kind kind evidence)) rule.required_evidence

is_empty-snoc {ℓ} : {A : Type ℓ} (xs : List A) (x : A) → is_empty (xs ++ x ∷ []) ≡ false
is_empty-snoc [] x = refl
is_empty-snoc (y ∷ xs) x = refl

abbrev pub no_blocks : Findings → Bool
no_blocks f = is_empty f.blocks

abbrev pub no_reviews : Findings → Bool
no_reviews f = is_empty f.reviews

pub no_change-reviews : (paths : List String) → no_reviews (no_change paths) ≡ not (is_empty paths)
no_change-reviews [] = refl
no_change-reviews (p ∷ paths) = refl

-- What each step adds to the lists, as far as it decides.
module _ (f : Findings) where
  pub require-blocks :
      (q : Bool) (kind : EvidenceKind) (items : List EvidenceItem)
      → no_blocks (require q kind items f) ≡ (no_blocks f && not (fails_requirement q items))
  unfolding require
  require-blocks q kind [] = ground arith
  require-blocks q kind (x ∷ items) = ground (arith, λ (r : Reason). is_empty-snoc f.blocks r)

  pub require-reviews :
      (q : Bool) (kind : EvidenceKind) (items : List EvidenceItem)
      → no_reviews (require q kind items f)
        ≡ (no_reviews f && not (lacks q items && not (any_failed items)))
  unfolding require
  require-reviews q kind [] = ground (arith, λ (r : Reason). is_empty-snoc f.reviews r)
  require-reviews q kind (x ∷ items) = ground (arith, λ (r : Reason). is_empty-snoc f.reviews r)

  pub observe-blocks :
      (kind : EvidenceKind) (items : List EvidenceItem)
      → no_blocks (observe kind items f) ≡ (no_blocks f && not (any_failed items))
  unfolding observe
  observe-blocks kind items = ground (arith, λ (r : Reason). is_empty-snoc f.blocks r)

  pub observe-reviews :
      (kind : EvidenceKind) (items : List EvidenceItem)
      → no_reviews (observe kind items f) ≡ no_reviews f
  unfolding observe
  observe-reviews kind items = ground arith

  pub check_coverage-blocks :
      (percent : ℕ → String) (threshold : ℕ) (items : List EvidenceItem)
      → no_blocks (check_coverage percent threshold items f)
        ≡ (no_blocks f && not (coverage_too_low threshold items))
  unfolding check_coverage
  check_coverage-blocks percent threshold items =
      ground (arith, λ (r : Reason). is_empty-snoc f.blocks r)

  pub check_coverage-reviews :
      (percent : ℕ → String) (threshold : ℕ) (items : List EvidenceItem)
      → no_reviews (check_coverage percent threshold items f) ≡ no_reviews f
  unfolding check_coverage
  check_coverage-reviews percent threshold items = ground arith

  pub check_security-blocks :
      (blocked : List String) (items : List EvidenceItem)
      → no_blocks (check_security blocked items f)
        ≡ (no_blocks f && not (finding_blocked blocked items))
  unfolding check_security
  check_security-blocks blocked items = ground (arith, λ (r : Reason). is_empty-snoc f.blocks r)

  pub check_security-reviews :
      (blocked : List String) (items : List EvidenceItem)
      → no_reviews (check_security blocked items f) ≡ no_reviews f
  unfolding check_security
  check_security-reviews blocked items = ground arith

  require_of_rule-blocks :
      (rule_id : String) (kind : EvidenceKind) (items : List EvidenceItem)
      → no_blocks (require_of_rule rule_id kind items f) ≡ no_blocks f
  unfolding require_of_rule
  require_of_rule-blocks rule_id kind items = ground arith

  require_of_rule-reviews :
      (rule_id : String) (kind : EvidenceKind) (items : List EvidenceItem)
      → no_reviews (require_of_rule rule_id kind items f) ≡ (no_reviews f && any_passed items)
  unfolding require_of_rule
  require_of_rule-reviews rule_id kind items =
      ground (arith, λ (r : Reason). is_empty-snoc f.reviews r)

and_assoc : (a b c : Bool) → ((a && b) && c) ≡ (a && (b && c))
and_assoc a b c = ground arith

require_by_rule-lem :
    (rule_id : String) (evidence : List EvidenceItem) (kinds : List EvidenceKind) (f : Findings)
    → (no_blocks (require_by_rule rule_id evidence kinds f) ≡ no_blocks f)
      × (no_reviews (require_by_rule rule_id evidence kinds f)
          ≡ (no_reviews f && all (λ kind. any_passed (by_kind kind evidence)) kinds))
unfolding require_by_rule
require_by_rule-lem rule_id evidence [] f = (refl, ground arith)
require_by_rule-lem rule_id evidence (kind ∷ kinds) f =
    let items = by_kind kind evidence in
    let h = require_by_rule-lem rule_id evidence kinds (require_of_rule rule_id kind items f) in
    let r = require_of_rule-reviews f rule_id kind items in
    (
      h.0 ∙ require_of_rule-blocks f rule_id kind items,
      h.1 ∙ rw r (and_assoc (no_reviews f) (any_passed items) _),
    )

pub apply_rules-lem :
    (evidence : List EvidenceItem) (rules : List PathRule) (f : Findings)
    → (no_blocks (apply_rules evidence rules f) ≡ no_blocks f)
      × (no_reviews (apply_rules evidence rules f)
          ≡ (no_reviews f && all (rule_met evidence) rules))
unfolding apply_rules
apply_rules-lem evidence [] f = (refl, ground arith)
apply_rules-lem evidence (rule ∷ rules) f =
    let f' = record f { matched_rules = f.matched_rules ++ rule.id ∷ [] } in
    let a = require_by_rule-lem rule.id evidence rule.required_evidence f' in
    let b =
      apply_rules-lem evidence rules (require_by_rule rule.id evidence rule.required_evidence f') in
    (b.0 ∙ a.0, b.1 ∙ rw (a.1) (and_assoc (no_reviews f) (rule_met evidence rule) _))

pub conclude-decision :
    (f : Findings)
    → (conclude f).decision
      ≡ (if not (no_blocks f) then block else if no_reviews f then pass else review)
unfolding conclude
conclude-decision f = ground arith

-- A failed requirement shows a failure.
pub fails_requirement-failed :
    (q : Bool) (items : List EvidenceItem)
    → (not (fails_requirement q items) && not (any_failed items)) ≡ not (any_failed items)
fails_requirement-failed q items = ground arith

pub blocks_algebra :
    (at ab xc xs ft fb cov sec : Bool)
    → (not at && not ft) ≡ not ft
    → (not ab && not fb) ≡ not fb
    → (((((((true && not at) && not ab) && not xc) && not xs) && not ft) && not fb) && not cov)
        && not sec
      ≡ not ((ft || fb) || (xc || xs) || (cov || sec))
blocks_algebra at ab xc xs ft fb cov sec ht hb = ground arith

pub reviews_algebra :
    (none lt lb lc ls ft fb fc fs rules : Bool)
    → ((ft || fb) || ((lc && fc) || (ls && fs))) ≡ false
    → (((((not none && not (lt && not ft)) && not (lb && not fb)) && not (lc && not fc))
          && not (ls && not fs))
        && rules)
      ≡ ((not none && not lt && not lb && not lc && not ls) && rules)
reviews_algebra none lt lb lc ls ft fb fc fs rules h = ground arith
