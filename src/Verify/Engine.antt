-- ===== src/Verify/Engine.antt =====
-- verify/deployguard_verify/engine.py: the decision on a change, and the receipt. How Python prints
-- a rate as a percentage, `f"{rate:.1%}"`, and the digest of a receipt are arguments.
pub mod Steps
pub mod Contract
pub mod Order
pub mod Stale
use Prim.Native.String
use Prim.Native.String.{String}
use deployguardai.Prelude.Texts.{contains, str_leb}
use deployguardai.Prelude.Sort.{sort}
use text.Mathlib.Text.{◌==◌ as str_eq}
use deployguardai.Prelude.{
  ℕ, ◌+◌, Bool, true, false, not, ◌&&◌, ◌||◌, Option, none, some, List, [], ◌∷◌, ◌++◌, map, ltb,
  leb, if◌then◌else◌, any, select, is_empty,
}
use deployguardai.Verify.Models.{
  Decision, pass, review, block, EvidenceState, EvidenceKind, tests, build, coverage, security,
  kind_name, is_kind, is_passed, is_failed, is_unknown, EvidenceItem, GitChange, docs_only,
}
use deployguardai.Verify.Policy.{
  Requirements, PathRule, Policy, LoadedPolicy, policy_schema_version, matching_path_rules,
}
use deployguardai.Verify.Findings.{
  Findings, Reason, apply_rules, by_kind, check_coverage, check_security, observe, require,
  required,
}

-- Tuples and texts compare as in Python: by code, then by message.
unfoldable pub reason_leb : Reason → Reason → Bool
reason_leb (code, message) (code', message') =
    if str_eq code code' then str_leb message message' else str_leb code code'

-- `_add_reason`
unfoldable pub add_reason : Reason → List Reason → List Reason
add_reason (code, message) reasons =
    if contains (map (λ r. r.0) reasons) code then reasons else reasons ++ (code, message) ∷ []

unfoldable pub add_reasons : List Reason → List Reason → List Reason
unfolding add_reason
add_reasons [] reasons = reasons
add_reasons (r ∷ rs) reasons = add_reasons rs (add_reason r reasons)

-- What `_evaluate_decision` returns; `reason_codes` and `reasons` grow together and are one list.
pub record Verdict : Type 0 where
  pub decision : Decision
  pub reasons : List Reason
  pub matched_rules : List String

unfoldable pub conclude : Findings → Verdict
conclude f =
    let rules = sort str_leb f.matched_rules in
    if not (is_empty f.blocks)
    then record {
      decision = block;
      reasons = add_reasons (sort reason_leb f.blocks) [];
      matched_rules = rules;
    }
    else if not (is_empty f.reviews)
    then record {
      decision = review;
      reasons = add_reasons (sort reason_leb f.reviews) [];
      matched_rules = rules;
    }
    else record {
      decision = pass;
      reasons =
          add_reasons
            ((
              "policy-satisfied",
              "All required evidence is present, SHA-matched, and policy-compliant.",
            )
              ∷ [])
            [];
      matched_rules = rules;
    }

abbrev pub no_change : List String → Findings
no_change paths = record {
  blocks = [];
  reviews =
      if is_empty paths
      then ("no-change", "The selected base and head contain no changed paths.") ∷ []
      else [];
  matched_rules = [];
}

-- The body of `_evaluate_decision` up to the last test.
unfoldable pub gather : (percent : ℕ → String) → GitChange → Policy → List EvidenceItem → Findings
gather percent change policy evidence =
    let r = policy.requirements in
    let docs = docs_only change in
    let of = λ (kind : EvidenceKind). by_kind kind evidence in
    let round =
      λ (kind : EvidenceKind) (f : Findings). require (required r kind docs) kind (of kind) f in
    let f1 = round security (round coverage (round build (round tests (no_change change.paths)))) in
    let f2 = observe build (of build) (observe tests (of tests) f1) in
    let f3 = check_coverage percent r.minimum_line_rate (of coverage) f2 in
    let f4 = check_security r.block_severities (of security) f3 in
    apply_rules evidence (matching_path_rules policy change.paths) f4

unfoldable pub evaluate_decision :
    (percent : ℕ → String) → GitChange → Policy → List EvidenceItem → Verdict
evaluate_decision percent change policy evidence = conclude (gather percent change policy evidence)

-- The order of `sorted(evidence, key=lambda item: (item.kind, item.source, item.id))`.
unfoldable pub item_leb : EvidenceItem → EvidenceItem → Bool
unfolding kind_name
item_leb a b =
    if not (is_kind a.kind b.kind)
    then str_leb (kind_name a.kind) (kind_name b.kind)
    else if not (str_eq a.source b.source)
    then str_leb a.source b.source
    else str_leb a.id b.id

abbrev pub receipt_schema_version : String
receipt_schema_version = "deployguard-evidence-receipt/v0.1"

abbrev pub verify_engine_version : String
verify_engine_version = "deployguard-verify/0.1.0"

-- The receipt's `body`; the parts of the change and of the policy stand as they are.
pub record ReceiptBody : Type 0 where
  pub schema_version : String
  pub engine_version : String
  pub change : GitChange
  pub docs_only_change : Bool
  pub policy_version : String
  pub policy_source : String
  pub policy_sha256 : String
  pub matched_path_rules : List String
  pub evidence : List EvidenceItem
  pub status : Decision
  pub reasons : List Reason

pub record VerificationResult : Type 0 where
  pub decision : Decision
  pub reasons : List Reason
  pub receipt : ReceiptBody
  pub receipt_sha256 : String

unfoldable pub verify_change :
    (percent : ℕ → String) (digest : ReceiptBody → String)
    → GitChange
    → LoadedPolicy
    → List EvidenceItem
    → VerificationResult
verify_change percent digest change policy evidence =
    let items = sort item_leb evidence in
    let v = evaluate_decision percent change policy.content items in
    let body : ReceiptBody = record {
      schema_version = receipt_schema_version;
      engine_version = verify_engine_version;
      change = change;
      docs_only_change = docs_only change;
      policy_version = policy_schema_version;
      policy_source = policy.source;
      policy_sha256 = policy.sha256;
      matched_path_rules = v.matched_rules;
      evidence = items;
      status = v.decision;
      reasons = v.reasons;
    } in
    record {
      decision = v.decision;
      reasons = v.reasons;
      receipt = body;
      receipt_sha256 = digest body;
    }
