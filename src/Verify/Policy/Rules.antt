-- ===== src/Verify/Policy/Rules.antt =====
-- What a policy that passes the validation looks like.
use Prim.Native.String.{String}
use text.Mathlib.Text.{◌==◌ as str_eq}
use text.Mathlib.TextEquality.{eq_iff}
use deployguardai.Prelude.{
  ◌≡◌, ◌≤◌, refl, ap, true, false, Option, none, some, List, [], ◌∷◌, returns, arith, seq-returns,
  raise_if-returns, inl, inr, leb→le, subst, Bool-cases, Option-cases,
}
use deployguardai.Verify.Policy.Yaml.{
  Yaml, null, other_number, opaque, boolean, number, str, sequence, object, Yamls, nil, cons,
  Fields, end, field, get,
}
use deployguardai.Verify.Policy.Names.{
  IsOneOf, HasOnly, IsPatternList, IsNameList, IsOptionalList, known_kinds, known_severities,
  demanded, only_fields-HasOnly, has_patterns-IsPatternList, IsOneOf-contains, listed-IsNameList,
  check_names-IsOptionalList,
}
use deployguardai.Verify.Policy.Check.{
  one_rate, check_rule, check_rules, id_of, check_path_rules, validate_policy, is_flag,
  check_requirement, check_requirements, config_of, check_threshold, check_kinds, is_version,
}

-- A rule with an id that no rule before it has, with patterns, and with known kinds of evidence.
pub record IsRule (seen : List String) (id : String) (fs : Fields) : Type 0 where
  pub known : HasOnly ("id" ∷ "patterns" ∷ "required_evidence" ∷ []) fs
  pub new : ¬ IsOneOf id seen
  pub patterns : IsPatternList (get "patterns" fs)
  pub evidence : IsNameList known_kinds (get "required_evidence" fs)

abbrev pub AreRules : (seen : List String) → Yamls → Type 0
AreRules seen nil = Unit
AreRules seen (cons v vs) =
    (id : String) × (fs : Fields) × (id_of v ≡ some (id, fs))
    × IsRule seen id fs
    × AreRules (id ∷ seen) vs

check_rule-IsRule :
    (seen : List String) (id : String) (fs : Fields)
    → check_rule seen id fs ≡ returns tt
    → IsRule seen id fs
unfolding check_rule
check_rule-IsRule seen id fs h =
    let (h4, evidence) = seq-returns _ _ h in
    let (h3, listed) = seq-returns _ _ h4 in
    let (h2, patterns) = seq-returns _ _ h3 in
    let (known, new) = seq-returns _ _ h2 in
    record {
      known = only_fields-HasOnly _ fs (demanded _ _ known);
      new = λ old. cc (raise_if-returns _ _ new, IsOneOf-contains seen id old);
      patterns = has_patterns-IsPatternList _ (demanded _ _ patterns);
      evidence = listed-IsNameList _ _ _ (demanded _ _ listed) evidence;
    }

check_rules-AreRules :
    (seen : List String) (vs : Yamls) → check_rules seen vs ≡ returns tt → AreRules seen vs
unfolding check_rules
check_rules-AreRules seen nil h = tt
check_rules-AreRules seen (cons v vs) h = elim (Option-cases (id_of v)) [
  | inl e ↦ (let h' = rw (e, check_rules) at h in ground arith)
  | inr ((id, fs), e) ↦
      let (first, others) =
        seq-returns (check_rule seen id fs) (check_rules (id ∷ seen) vs)
          (rw (e, check_rules) at h) in
      (id, fs, e, check_rule-IsRule seen id fs first, check_rules-AreRules (id ∷ seen) vs others)
]

abbrev pub IsRuleList : Option Yaml → Type 0
IsRuleList none = Unit
IsRuleList (some (sequence vs)) = AreRules [] vs
IsRuleList (some _) = ⊥

check_path_rules-IsRuleList : (o : Option Yaml) → check_path_rules o ≡ returns tt → IsRuleList o
unfolding check_path_rules
check_path_rules-IsRuleList none h = tt
check_path_rules-IsRuleList (some (sequence vs)) h = check_rules-AreRules [] vs h
check_path_rules-IsRuleList (some null) h = ground arith
check_path_rules-IsRuleList (some other_number) h = ground arith
check_path_rules-IsRuleList (some opaque) h = ground arith
check_path_rules-IsRuleList (some (boolean b)) h = ground arith
check_path_rules-IsRuleList (some (number r)) h = ground arith
check_path_rules-IsRuleList (some (str s)) h = ground arith
check_path_rules-IsRuleList (some (object fs)) h = ground arith

-- A rate is absent or a number up to 1.
abbrev pub IsRate : Option Yaml → Type 0
IsRate none = Unit
IsRate (some (number rate)) = rate ≤ one_rate
IsRate (some _) = ⊥

check_threshold-IsRate : (o : Option Yaml) → check_threshold o ≡ returns tt → IsRate o
unfolding check_threshold
check_threshold-IsRate none h = tt
check_threshold-IsRate (some (number rate)) h = leb→le rate one_rate (demanded _ _ h)
check_threshold-IsRate (some (sequence vs)) h = ground arith
check_threshold-IsRate (some null) h = ground arith
check_threshold-IsRate (some other_number) h = ground arith
check_threshold-IsRate (some opaque) h = ground arith
check_threshold-IsRate (some (boolean b)) h = ground arith
check_threshold-IsRate (some (str s)) h = ground arith
check_threshold-IsRate (some (object fs)) h = ground arith

config_of-here : (kind : String) (c fs : Fields) → config_of kind (field kind (object c) fs) ≡ c
unfolding config_of get
config_of-here kind c fs = rw ((eq_iff kind kind).1 refl, config_of) refl

config_of-there :
    (kind k : String) (config : Yaml) (fs : Fields)
    → str_eq k kind ≡ false
    → config_of kind (field k config fs) ≡ config_of kind fs
unfolding config_of get
config_of-there kind k config fs other = rw (other, config_of) refl

required_flag :
    (kind : String) (config : Yaml) (fs : Fields)
    → check_requirement kind config ≡ returns tt
    → is_flag (get "required" (config_of kind (field kind config fs))) ≡ true
unfolding check_requirement
required_flag kind (object c) fs h =
    rw (config_of-here kind c fs) (demanded _ _ (seq-returns _ _ h).0)
required_flag kind null fs h = ground arith
required_flag kind other_number fs h = ground arith
required_flag kind opaque fs h = ground arith
required_flag kind (boolean b) fs h = ground arith
required_flag kind (number r) fs h = ground arith
required_flag kind (str s) fs h = ground arith
required_flag kind (sequence vs) fs h = ground arith

-- Whatever kind is asked for, its `required` is absent or a Boolean.
check_requirements-is_flag :
    (kind : String) (fs : Fields)
    → check_requirements fs ≡ returns tt
    → is_flag (get "required" (config_of kind fs)) ≡ true
unfolding check_requirements
check_requirements-is_flag kind end h = unfold config_of get in refl
check_requirements-is_flag kind (field k config fs) h =
    let (first, others) = seq-returns (check_requirement k config) (check_requirements fs) h in
    elim (Bool-cases (str_eq k kind)) [
      | inl same ↦
          subst (λ x. is_flag (get "required" (config_of x (field k config fs))) ≡ true)
            ((eq_iff k kind).0 same) (required_flag k config fs first)
      | inr other ↦
          rw (config_of-there kind k config fs other) (check_requirements-is_flag kind fs others)
    ]

-- A value is absent or a Boolean.
abbrev pub IsFlag : Option Yaml → Type 0
IsFlag none = Unit
IsFlag (some (boolean _)) = Unit
IsFlag _ = ⊥

is_flag-IsFlag : (o : Option Yaml) → is_flag o ≡ true → IsFlag o
is_flag-IsFlag none h = tt
is_flag-IsFlag (some (boolean b)) h = tt
is_flag-IsFlag (some null) h = cc
is_flag-IsFlag (some other_number) h = cc
is_flag-IsFlag (some opaque) h = cc
is_flag-IsFlag (some (number r)) h = cc
is_flag-IsFlag (some (str s)) h = cc
is_flag-IsFlag (some (sequence vs)) h = cc
is_flag-IsFlag (some (object fs)) h = cc

-- The requirements: known kinds, Boolean flags, a minimum rate up to 1, known severities.
pub record AreRequirements (fs : Fields) : Type 0 where
  pub only_known : HasOnly known_kinds fs
  pub flags : (kind : String) → IsFlag (get "required" (config_of kind fs))
  pub skips : IsFlag (get "skip_for_docs_only" (config_of "tests" fs))
  pub rate : IsRate (get "minimum_line_rate" (config_of "coverage" fs))
  pub blocked : IsOptionalList known_severities (get "block_severities" (config_of "security" fs))

abbrev pub HasRequirements : Option Yaml → Type 0
HasRequirements (some (object fs)) = AreRequirements fs
HasRequirements _ = ⊥

check_kinds-HasRequirements : (o : Option Yaml) → check_kinds o ≡ returns tt → HasRequirements o
unfolding check_kinds
check_kinds-HasRequirements (some (object fs)) h =
    let (h4, blocked) = seq-returns _ _ h in
    let (h3, rate) = seq-returns _ _ h4 in
    let (h2, skips) = seq-returns _ _ h3 in
    let (known, flags) = seq-returns _ _ h2 in
    record {
      only_known = only_fields-HasOnly _ fs (demanded _ _ known);
      flags = λ kind. is_flag-IsFlag _ (check_requirements-is_flag kind fs flags);
      skips = is_flag-IsFlag _ (demanded _ _ skips);
      rate = check_threshold-IsRate _ rate;
      blocked = check_names-IsOptionalList _ _ _ blocked;
    }
check_kinds-HasRequirements none h = ground arith
check_kinds-HasRequirements (some null) h = ground arith
check_kinds-HasRequirements (some other_number) h = ground arith
check_kinds-HasRequirements (some opaque) h = ground arith
check_kinds-HasRequirements (some (boolean b)) h = ground arith
check_kinds-HasRequirements (some (number r)) h = ground arith
check_kinds-HasRequirements (some (str s)) h = ground arith
check_kinds-HasRequirements (some (sequence vs)) h = ground arith

pub record IsPolicy (fs : Fields) : Type 0 where
  pub known_fields : HasOnly ("schema_version" ∷ "requirements" ∷ "path_rules" ∷ []) fs
  pub version : get "schema_version" fs ≡ some (str "deployguard-policy/v0.1")
  pub requirements : HasRequirements (get "requirements" fs)
  pub rules : IsRuleList (get "path_rules" fs)

is_version-some : (o : Option Yaml) → is_version o ≡ true → o ≡ some (str "deployguard-policy/v0.1")
is_version-some (some (str s)) h = ap (λ x. some (str x)) ((eq_iff s _).0 h)
is_version-some none h = cc
is_version-some (some null) h = cc
is_version-some (some other_number) h = cc
is_version-some (some opaque) h = cc
is_version-some (some (boolean b)) h = cc
is_version-some (some (number r)) h = cc
is_version-some (some (sequence vs)) h = cc
is_version-some (some (object fs)) h = cc

-- An object that passes the validation has no fields but the three known ones and the right version. Its
-- requirements are of known kinds; the `required` of each kind and the `skip_for_docs_only` of the tests
-- are Booleans where they stand, the minimum line rate is a number up to 1, and the blocking severities
-- are known names. Each of its path rules has known fields, an id that no rule before it has, a list of
-- patterns that is not empty, of texts that are not empty, and a list of known kinds of evidence.
pub validate_policy-IsPolicy :
    (fs : Fields) → validate_policy (object fs) ≡ returns fs → IsPolicy fs
unfolding validate_policy
validate_policy-IsPolicy fs h =
    let (h5, _) = seq-returns _ _ h in
    let (h4, rules) = seq-returns _ _ h5 in
    let (h3, requirements) = seq-returns _ _ h4 in
    let (known, version) = seq-returns _ _ h3 in
    record {
      known_fields = only_fields-HasOnly _ fs (demanded _ _ known);
      version = is_version-some _ (demanded _ _ version);
      requirements = check_kinds-HasRequirements _ requirements;
      rules = check_path_rules-IsRuleList _ rules;
    }
