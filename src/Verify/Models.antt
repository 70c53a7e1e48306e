-- ===== src/Verify/Models.antt =====
-- verify/deployguard_verify/models.py. A rate is a finite float that is not negative, as a number
-- of units of 2 ^ -1074, of which every such float is a multiple; so comparisons are exact.
use Prim.Native.String.{String}
use deployguardai.Prelude.Codes.{codes, lower, starts_with, ends_with}
use deployguardai.Prelude.{
  ℕ, Bool, true, false, not, ◌&&◌, ◌||◌, Option, List, [], ◌∷◌, any, all, is_empty,
}

pub data Decision : Type 0 where
  pass review block error : Decision

pub data EvidenceState : Type 0 where
  passed failed unknown : EvidenceState

-- The values of `EvidenceItem.kind`.
pub data EvidenceKind : Type 0 where
  tests build coverage security : EvidenceKind

unfoldable pub kind_name : EvidenceKind → String
kind_name tests = "tests"
kind_name build = "build"
kind_name coverage = "coverage"
kind_name security = "security"

abbrev pub is_kind : EvidenceKind → EvidenceKind → Bool
is_kind tests tests = true
is_kind build build = true
is_kind coverage coverage = true
is_kind security security = true
is_kind _ _ = false

abbrev pub is_passed : EvidenceState → Bool
is_passed passed = true
is_passed _ = false

abbrev pub is_failed : EvidenceState → Bool
is_failed failed = true
is_failed _ = false

abbrev pub is_unknown : EvidenceState → Bool
is_unknown unknown = true
is_unknown _ = false

-- `EvidenceItem.metrics`: the integers under their keys, the `line_rate`, and the `status` of a
-- build.
pub record Metrics : Type 0 where
  pub counts : List (String × ℕ)
  pub line_rate : Option ℕ
  pub build_status : Option String

pub record EvidenceItem : Type 0 where
  pub id : String
  pub kind : EvidenceKind
  pub state : EvidenceState
  pub source : String
  pub source_sha : Option String
  pub artifact_sha256 : Option String
  pub summary : String
  pub metrics : Metrics

pub record GitChange : Type 0 where
  pub repository : String
  pub base_sha : String
  pub head_sha : String
  pub merge_base_sha : String
  pub generated_at : String
  pub paths : List String
  pub files_changed : ℕ
  pub lines_added : ℕ
  pub lines_deleted : ℕ
  pub flags : List String

abbrev pub doc_suffixes : List String
doc_suffixes = ".md" ∷ ".mdx" ∷ ".rst" ∷ ".txt" ∷ []

unfoldable pub is_doc_path : String → Bool
unfolding lower starts_with ends_with
is_doc_path path =
    let p = lower (codes path) in
    any (λ suffix. ends_with p (codes suffix)) doc_suffixes || starts_with p (codes "docs/")

-- `GitChange.docs_only`
unfoldable pub docs_only : GitChange → Bool
unfolding is_doc_path
docs_only change = not (is_empty change.paths) && all is_doc_path change.paths
