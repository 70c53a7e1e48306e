-- ===== src/Verify/Cli.antt =====
-- verify/deployguard_verify/cli.py, `_verify` and `main`. Git, the file system and the parsing of the
-- arguments are what `Inputs` holds; texts for people are not modelled.
pub mod Gate
use Prim.Native.String
use Prim.Native.String.{String, count}
use deployguardai.Prelude.Codes.{codes}
use deployguardai.Prelude.Texts.{is_blank}
use deployguardai.Prelude.{
  ℕ, Bool, true, false, not, ◌&&◌, ◌||◌, Option, none, some, List, [], ◌∷◌, Outcome, Done, returns,
  raises, ◌>>=◌, ◌>>◌, raise_if, leb, ltb, ◌==◌, if◌then◌else◌, all,
}
use deployguardai.Verify.Models.{
  Decision, pass, review, block, error, EvidenceState, Metrics, EvidenceItem, GitChange,
}
use deployguardai.Verify.Policy.{Policy, LoadedPolicy, builtin_policy}
use deployguardai.Verify.Engine.{ReceiptBody, VerificationResult, verify_change}
use deployguardai.Verify.Evidence.Coverage.{Floats, CoverageError}
use deployguardai.Verify.Evidence.Collect.{Artifacts, BuildStatus, collect_artifacts}

-- `EXIT_CODES`
abbrev pub exit_code : Decision → ℕ
exit_code pass = 0
exit_code review = 2
exit_code block = 3
exit_code error = 4

-- The exceptions by `main`'s `except`; an `other_error` is not caught there, and Python exits with 1.
pub data CliError : Type 0 where
  git_error os_error value_error yaml_error other_error : CliError

abbrev pub is_caught : CliError → Bool
is_caught other_error = false
is_caught _ = true

pub data PolicySource : Type 0 where
  base working_tree builtin : PolicySource

pub record Inputs : Type 0 where
  -- `collect_git_change`
  pub change : Outcome CliError GitChange
  pub policy_source : PolicySource
  -- `load_policy_from_base`, `load_working_tree_policy`
  pub base_policy : Outcome CliError (Option LoadedPolicy)
  pub tree_policy : Outcome CliError LoadedPolicy
  -- `args.evidence_sha`, `DEPLOYGUARD_EVIDENCE_SHA`
  pub evidence_sha : Option String
  pub environment_sha : Option String
  -- the files behind the patterns, as the readers see them, or the error of one
  pub artifacts : Outcome CliError Artifacts
  pub build_status : BuildStatus
  -- `output_path.is_relative_to(repository_root)`
  pub output_inside : Bool
  -- the writing of the receipt and of the summaries
  pub written : Outcome CliError Done

-- The library functions that the run uses.
pub record Library : Type 0 where
  pub lower : String → String
  pub percent : ℕ → String
  pub floats : Floats
  pub describe : EvidenceState → Metrics → String
  pub digest_policy : Policy → String
  pub digest_receipt : ReceiptBody → String

unfoldable pub load_policy : Library → Inputs → Outcome CliError LoadedPolicy
unfolding builtin_policy
load_policy lib args = elim args.policy_source [
  | base ↦ args.base_policy >>= λ found.
      returns (elim found [ none ↦ builtin_policy lib.digest_policy | some policy ↦ policy ])
  | working_tree ↦ args.tree_policy
  | builtin ↦ returns (builtin_policy lib.digest_policy)
]

-- `a or b` on texts that may be missing: an empty text is as good as none.
abbrev pub or_text : Option String → Option String → Option String
or_text (some String.[]) other = other
or_text (some (String.◌∷◌ c s)) other = some (String.◌∷◌ c s)
or_text none other = other

abbrev pub is_hex : ℕ → Bool
is_hex c = (leb b'0' c && leb c b'9') || (leb b'a' c && leb c b'f')

-- `re.fullmatch(r"[0-9a-f]{40,64}", source_sha)`
unfoldable pub is_commit_id : String → Bool
is_commit_id sha = leb 40 (count sha) && leb (count sha) 64 && all is_hex (codes sha)

abbrev pub chosen_sha : Library → Option String → String → String
chosen_sha lib none head = head
chosen_sha lib (some String.[]) head = head
chosen_sha lib (some (String.◌∷◌ c s)) head = lib.lower (String.◌∷◌ c s)

unfoldable pub resolve_sha : Library → Inputs → (head : String) → Outcome CliError String
unfolding is_commit_id
resolve_sha lib args head =
    let sha = chosen_sha lib (or_text args.evidence_sha args.environment_sha) head in
    if is_commit_id sha then returns sha else raises value_error

-- A parser's `ValueError`.
abbrev pub as_value_error {ℓ} : {A : Type ℓ} → Outcome CoverageError A → Outcome CliError A
as_value_error (returns a) = returns a
as_value_error (raises _) = raises value_error

-- `_verify`, up to its exit code, which is that of the decision.
unfoldable pub verify : Library → Inputs → Outcome CliError VerificationResult
unfolding load_policy resolve_sha collect_artifacts verify_change
verify lib args = do
  change ← args.change
  policy ← load_policy lib args
  source_sha ← resolve_sha lib args change.head_sha
  artifacts ← args.artifacts
  evidence ← as_value_error (
      collect_artifacts lib.floats lib.describe (some source_sha) change.head_sha artifacts
        args.build_status)
  let result = verify_change lib.percent lib.digest_receipt change policy evidence
  raise_if (not args.output_inside) value_error
  args.written >> returns result

-- `main`
unfoldable pub main : Library → Inputs → ℕ
unfolding verify
main lib args = elim (verify lib args) [
  | returns result ↦ exit_code result.decision
  | raises e ↦ if is_caught e then exit_code error else 1
]
