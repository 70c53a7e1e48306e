-- ===== src/Verify/Policy/Check.antt =====
-- `_validate_policy` of verify/deployguard_verify/policy.py, check by check in its order.
use Prim.Native.String.{String}
use text.Mathlib.Text.{◌==◌ as str_eq}
use deployguardai.Prelude.{
  ℕ, ◌^◌, Bool, true, false, not, ◌&&◌, Option, none, some, List, [], ◌∷◌, Outcome, Done, returns,
  raises, raise_if, ◌>>=◌, ◌>>◌, ltb, ◌*◌, leb, if◌then◌else◌,
}
use deployguardai.Prelude.Texts.{contains, is_blank}
use deployguardai.Verify.Policy.{policy_schema_version}
use deployguardai.Verify.Policy.Yaml.{
  Yaml, boolean, number, str, sequence, object, Yamls, nil, cons, Fields, end, field, get,
  only_fields,
}

-- The `ValueError`s by what is wrong, and the `TypeError` of an unhashable value.
pub data PolicyError : Type 0 where
  not_an_object unsupported_field wrong_version bad_requirements : PolicyError
  unsupported_kind bad_requirement bad_skip bad_threshold bad_severity : PolicyError
  bad_rules rule_without_id duplicate_rule bad_patterns bad_evidence : PolicyError
  unhashable too_long : PolicyError

abbrev pub kinds : List String
kinds = "tests" ∷ "build" ∷ "coverage" ∷ "security" ∷ []

abbrev pub severities : List String
severities = "critical" ∷ "high" ∷ "medium" ∷ "low" ∷ "note" ∷ []

-- `allowed_requirement_fields`
abbrev pub requirement_fields : (kind : String) → List String
requirement_fields kind =
    if str_eq kind "tests"
    then "required" ∷ "skip_for_docs_only" ∷ []
    else if str_eq kind "coverage"
    then "required" ∷ "minimum_line_rate" ∷ []
    else if str_eq kind "security"
    then "required" ∷ "block_severities" ∷ []
    else "required" ∷ []

-- The value is absent or a Boolean.
abbrev pub is_flag : Option Yaml → Bool
is_flag none = true
is_flag (some (boolean _)) = true
is_flag _ = false

unfoldable pub check_requirement : (kind : String) → Yaml → Outcome PolicyError Done
check_requirement kind (object fs) =
    raise_if (not (is_flag (get "required" fs))) bad_requirement
    >> raise_if (not (only_fields (requirement_fields kind) fs)) unsupported_field
check_requirement kind _ = raises bad_requirement

unfoldable pub check_requirements : Fields → Outcome PolicyError Done
check_requirements end = returns tt
check_requirements (field kind config fs) = check_requirement kind config >> check_requirements fs

-- `requirements.get(kind, {})`, which the loop before has found to be an object.
unfoldable pub config_of : (kind : String) → Fields → Fields
config_of kind requirements = elim (get kind requirements) [ some (object fs) ↦ fs | _ ↦ end ]

-- 1.0, as a number of units of 2 ^ -1074.
unfoldable pub one_rate : ℕ
one_rate = 2 ^ 1074

unfoldable pub check_threshold : Option Yaml → Outcome PolicyError Done
check_threshold none = returns tt
check_threshold (some (number rate)) = raise_if (not (leb rate one_rate)) bad_threshold
check_threshold _ = raises bad_threshold

-- `all(item in allowed for item in items)`, where an unhashable item raises.
unfoldable pub all_in : (allowed : List String) → Yamls → Outcome PolicyError Bool
all_in allowed nil = returns true
all_in allowed (cons (str s) vs) =
    let rest = all_in allowed vs in if contains allowed s then rest else returns false
all_in allowed (cons (sequence _) vs) = raises unhashable
all_in allowed (cons (object _) vs) = raises unhashable
all_in allowed (cons _ vs) = returns false

-- A list of allowed names; `none` counts as one.
unfoldable pub check_names :
    (allowed : List String) → PolicyError → Option Yaml → Outcome PolicyError Done
check_names allowed e none = returns tt
check_names allowed e (some (sequence vs)) = all_in allowed vs >>= λ good. raise_if (not good) e
check_names allowed e (some _) = raises e

-- `all(isinstance(pattern, str) and pattern for pattern in patterns)`
unfoldable pub all_patterns : Yamls → Bool
all_patterns nil = true
all_patterns (cons (str s) vs) = not (is_blank s) && all_patterns vs
all_patterns (cons _ vs) = false

unfoldable pub has_patterns : Option Yaml → Bool
has_patterns (some (sequence (cons v vs))) = all_patterns (cons v vs)
has_patterns _ = false

abbrev pub is_present : Option Yaml → Bool
is_present none = false
is_present (some _) = true

abbrev pub rule_fields : List String
rule_fields = "id" ∷ "patterns" ∷ "required_evidence" ∷ []

-- One round of the loop over the rules, behind the test of the id.
unfoldable pub check_rule : (seen : List String) (id : String) → Fields → Outcome PolicyError Done
check_rule seen id fs =
    raise_if (not (only_fields rule_fields fs)) unsupported_field
    >> raise_if (contains seen id) duplicate_rule
    >> raise_if (not (has_patterns (get "patterns" fs))) bad_patterns
    >> raise_if (not (is_present (get "required_evidence" fs))) bad_evidence
    >> check_names kinds bad_evidence (get "required_evidence" fs)

abbrev pub id_of : Yaml → Option (String × Fields)
id_of (object fs) = elim (get "id" fs) [ some (str s) ↦ some (s, fs) | _ ↦ none ]
id_of _ = none

unfoldable pub check_rules : (seen : List String) → Yamls → Outcome PolicyError Done
check_rules seen nil = returns tt
check_rules seen (cons v vs) = elim (id_of v) [
  | none ↦ raises rule_without_id
  | some e ↦ check_rule seen e.0 e.1 >> check_rules (e.0 ∷ seen) vs
]

-- `path_rules`, which may be left out.
unfoldable pub check_path_rules : Option Yaml → Outcome PolicyError Done
check_path_rules none = returns tt
check_path_rules (some (sequence vs)) = check_rules [] vs
check_path_rules (some _) = raises bad_rules

abbrev pub is_version : Option Yaml → Bool
is_version (some (str s)) = str_eq s policy_schema_version
is_version _ = false

abbrev pub policy_fields : List String
policy_fields = "schema_version" ∷ "requirements" ∷ "path_rules" ∷ []

-- The checks of `requirements`.
unfoldable pub check_kinds : Option Yaml → Outcome PolicyError Done
check_kinds (some (object fs)) =
    raise_if (not (only_fields kinds fs)) unsupported_kind
    >> check_requirements fs
    >> raise_if (not (is_flag (get "skip_for_docs_only" (config_of "tests" fs)))) bad_skip
    >> check_threshold (get "minimum_line_rate" (config_of "coverage" fs))
    >> check_names severities bad_severity (get "block_severities" (config_of "security" fs))
check_kinds _ = raises bad_requirements

-- `_validate_policy`, which returns what it is given.
unfoldable pub validate_policy : Yaml → Outcome PolicyError Fields
validate_policy (object fs) =
    raise_if (not (only_fields policy_fields fs)) unsupported_field
    >> raise_if (not (is_version (get "schema_version" fs))) wrong_version
    >> check_kinds (get "requirements" fs)
    >> check_path_rules (get "path_rules" fs)
    >> returns fs
validate_policy _ = raises not_an_object

-- `parse_policy`, with the number of the bytes and what the YAML reader makes of them.
unfoldable pub parse_policy : (size : ℕ) → Yaml → Outcome PolicyError Fields
unfolding validate_policy
parse_policy size parsed = raise_if (ltb (256 * 1024) size) too_long >> validate_policy parsed
