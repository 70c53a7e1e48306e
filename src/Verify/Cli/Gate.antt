-- ===== src/Verify/Cli/Gate.antt =====
-- What an exit code of 0 stands for.
use Prim.Native.String.{String}
use mathlib.Core.List.Perm
use deployguardai.Prelude.{
  ◌≡◌, ◌≢◌, refl, sym, ◌∙◌, ap, subst, Bool, true, false, not, some, List, Outcome, returns, raises,
  arith, inl, inr, Outcome-cases, bind-returns, returns-injective, raise_if, raise_if-returns, All,
  if◌then◌else◌,
}
use deployguardai.Verify.Models.{Decision, pass, review, block, error, EvidenceItem, GitChange}
use deployguardai.Verify.Policy.{LoadedPolicy}
use deployguardai.Verify.Engine.{VerificationResult}
use deployguardai.Verify.Engine.Contract.{is_violated, is_complete, expected_decision}
use deployguardai.Verify.Engine.Order.{verify_change-decision}
use deployguardai.Verify.Engine.Stale.{IsStale, asks_nothing, stale_complete}
use deployguardai.Verify.Evidence.Junit.{sha_differs}
use deployguardai.Verify.Evidence.Coverage.{CoverageError}
use deployguardai.Verify.Evidence.Collect.{Artifacts, collect_artifacts}
use deployguardai.Verify.Evidence.Verdicts.{collect_artifacts-Stales, Stales}
use deployguardai.Verify.Cli.{
  Inputs, Library, CliError, value_error, exit_code, is_caught, load_policy, resolve_sha,
  as_value_error, verify, main,
}

-- The parts of a run that came to a result.
pub record Run (lib : Library) (args : Inputs) : Type 0 where
  pub change : GitChange
  pub policy : LoadedPolicy
  pub source_sha : String
  pub artifacts : Artifacts
  pub evidence : List EvidenceItem
  pub changed : args.change ≡ returns change
  pub loaded : load_policy lib args ≡ returns policy
  pub resolved : resolve_sha lib args change.head_sha ≡ returns source_sha
  pub read : args.artifacts ≡ returns artifacts
  pub collected :
      collect_artifacts lib.floats lib.describe
        (some source_sha)
        change.head_sha
        artifacts
        args.build_status
      ≡ returns evidence
  pub inside : args.output_inside ≡ true
  pub stored : args.written ≡ returns tt

abbrev expected : {lib : Library} {args : Inputs} → Run lib args → Decision
expected r = expected_decision r.change r.policy.content r.evidence

as_value_error-returns :
    {A : Type 0} (m : Outcome CoverageError A) {a : A}
    → as_value_error m ≡ returns a
    → m ≡ returns a
as_value_error-returns (returns x) h = ground arith
as_value_error-returns (raises x) h = ground arith

inside_lem : (b : Bool) → not b ≡ false → b ≡ true
inside_lem b h = ground arith

-- A run that comes to a result decides on the evidence that it collected.
verify-Run :
    (lib : Library) (args : Inputs) (result : VerificationResult)
    → verify lib args ≡ returns result
    → (r : Run lib args) × (result.decision ≡ expected r)
unfolding verify
verify-Run lib args result h =
    let (change, changed, h1) = bind-returns args.change _ h in
    let (policy, loaded, h2) = bind-returns (load_policy lib args) _ h1 in
    let (source_sha, resolved, h3) = bind-returns (resolve_sha lib args change.head_sha) _ h2 in
    let (artifacts, read, h4) = bind-returns args.artifacts _ h3 in
    let (evidence, collected, h5) =
      bind-returns
        (as_value_error (
          collect_artifacts lib.floats lib.describe (some source_sha) change.head_sha artifacts
            args.build_status))
        _ h4 in
    let (_, inside, h6) = bind-returns (raise_if (not args.output_inside) value_error) _ h5 in
    let (_, written, h7) = bind-returns args.written _ h6 in
    let (decided, _) =
      verify_change-decision lib.percent lib.digest_receipt change policy evidence evidence
        (Perm.refl evidence) in
    (
      record {
        change = change;
        policy = policy;
        source_sha = source_sha;
        artifacts = artifacts;
        evidence = evidence;
        changed = changed;
        loaded = loaded;
        resolved = resolved;
        read = read;
        collected = as_value_error-returns _ collected;
        inside = inside_lem _ (raise_if-returns _ _ inside);
        stored = written;
      },
      ap (λ (v : VerificationResult). v.decision) (sym (returns-injective h7)) ∙ decided,
    )

passed_code : (d : Decision) → exit_code d ≡ 0 → d ≡ pass
passed_code pass h = refl
passed_code review h = ground arith
passed_code block h = ground arith
passed_code error h = ground arith

raised_code : (e : CliError) → (if is_caught e then exit_code error else 1) ≢ 0
raised_code e h = ground arith

passed_parts :
    (violated complete : Bool)
    → (if violated then block else if complete then pass else review) ≡ pass
    → (violated ≡ false) × (complete ≡ true)
passed_parts violated complete h = ground arith

-- The command exits with 0 only where the change, the policy, the evidence SHA, the artifacts and the
-- evidence have been read without an error, the output lies inside the repository and has been written,
-- and the evidence breaks no objective rule and is all that the policy requires of the change.
pub main_zero :
    (lib : Library) (args : Inputs)
    → main lib args ≡ 0
    → (r : Run lib args) × (is_violated r.change r.policy.content r.evidence ≡ false)
      × (is_complete r.change r.policy.content r.evidence ≡ true)
unfolding main expected_decision
main_zero lib args h = elim (Outcome-cases (verify lib args)) [
  | inl (e, raised) ↦ absurd (raised_code e (rw (raised, main) at h))
  | inr (result, returned) ↦
      let (r, decided) = verify-Run lib args result returned in
      let d : expected r ≡ pass = sym decided ∙ passed_code _ (rw (returned, main) at h) in
      let (kept, full) = passed_parts _ _ d in (r, kept, full)
]

-- Where the evidence is for another commit than the head of the change, and something is asked of
-- the change, the command does not exit with 0, whatever the artifacts hold.
pub main_stale :
    (lib : Library) (args : Inputs) (change : GitChange) (policy : LoadedPolicy) (sha : String)
    → args.change ≡ returns change
    → load_policy lib args ≡ returns policy
    → resolve_sha lib args change.head_sha ≡ returns sha
    → sha_differs (some sha) change.head_sha ≡ true
    → asks_nothing change policy.content ≡ false
    → main lib args ≢ 0
main_stale lib args change policy sha changed loaded resolved other asked h =
    let (r, _, complete) = main_zero lib args h in
    let c : r.change ≡ change = returns-injective (sym r.changed ∙ changed) in
    let p : r.policy ≡ policy = returns-injective (sym r.loaded ∙ loaded) in
    let again : resolve_sha lib args change.head_sha ≡ returns r.source_sha =
      subst (λ (x : GitChange). resolve_sha lib args x.head_sha ≡ returns r.source_sha) c
        r.resolved in
    let s : r.source_sha ≡ sha = returns-injective (sym again ∙ resolved) in
    let d : sha_differs (some r.source_sha) r.change.head_sha ≡ true =
      subst (λ (x : GitChange). sha_differs (some r.source_sha) x.head_sha ≡ true) (sym c)
        (subst (λ x. sha_differs (some x) change.head_sha ≡ true) (sym s) other) in
    let stales =
      collect_artifacts-Stales lib.floats lib.describe (some r.source_sha) r.change.head_sha d
        r.artifacts args.build_status in
    let stale : All IsStale r.evidence = subst Stales r.collected stales in
    let asks : asks_nothing r.change r.policy.content ≡ true =
      sym (stale_complete r.change r.policy.content r.evidence stale) ∙ complete in
    let asks' : asks_nothing change policy.content ≡ true =
      subst (λ (x : LoadedPolicy). asks_nothing change x.content ≡ true) p
        (subst (λ (x : GitChange). asks_nothing x r.policy.content ≡ true) c asks) in
    cc
