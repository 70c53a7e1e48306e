-- ===== src/Verify/Policy.antt =====
-- verify/deployguard_verify/policy.py: a validated policy as the engine reads it, the built-in one,
-- and the path rules that a change matches.
pub mod Yaml
pub mod Check
pub mod Names
pub mod Rules
use Prim.Native.String.{String}
use deployguardai.Prelude.{ℕ, Bool, true, false, List, [], ◌∷◌, any, select}
use deployguardai.Verify.Models.{EvidenceKind, security}
use deployguardai.Verify.Glob.{fnmatchcase}

-- `requirements`, with the default of every field that may be left out.
pub record Requirements : Type 0 where
  pub tests_required : Bool
  pub skip_for_docs_only : Bool
  pub build_required : Bool
  pub coverage_required : Bool
  pub minimum_line_rate : ℕ
  pub security_required : Bool
  pub block_severities : List String

pub record PathRule : Type 0 where
  pub id : String
  pub patterns : List String
  pub required_evidence : List EvidenceKind

pub record Policy : Type 0 where
  pub requirements : Requirements
  pub path_rules : List PathRule

pub record LoadedPolicy : Type 0 where
  pub content : Policy
  pub source : String
  pub sha256 : String

abbrev pub policy_schema_version : String
policy_schema_version = "deployguard-policy/v0.1"

abbrev pub default_severities : List String
default_severities = "critical" ∷ "high" ∷ []

-- `DEFAULT_POLICY`
abbrev pub default_policy : Policy
default_policy = record {
  requirements = record {
    tests_required = true;
    skip_for_docs_only = true;
    build_required = false;
    coverage_required = false;
    minimum_line_rate = 0;
    security_required = false;
    block_severities = default_severities;
  };
  path_rules =
      record {
        id = "security-sensitive-change";
        patterns =
            ".github/workflows/**" ∷ "**/auth/**" ∷ "**/security/**" ∷ "**/migrations/**"
            ∷ "**/Dockerfile" ∷ "Dockerfile" ∷ [];
        required_evidence = security ∷ [];
      }
      ∷ [];
}

-- `builtin_policy`; the digest of the canonical JSON is an argument.
unfoldable pub builtin_policy : (digest : Policy → String) → LoadedPolicy
builtin_policy digest = record {
  content = default_policy;
  source = "builtin:deployguard-policy/v0.1";
  sha256 = digest default_policy;
}

unfoldable pub rule_matches : List String → PathRule → Bool
unfolding fnmatchcase
rule_matches paths rule =
    any (λ path. any (λ pattern. fnmatchcase path pattern) rule.patterns) paths

unfoldable pub matching_path_rules : Policy → List String → List PathRule
unfolding rule_matches
matching_path_rules policy paths = select (rule_matches paths) policy.path_rules
