-- ===== src/Verify/Policy/Names.antt =====
-- Which values are lists of names, and which patterns, in a policy that passes the validation.
use Prim.Native.String.{String}
use text.Mathlib.Text.{◌==◌ as str_eq}
use text.Mathlib.TextEquality.{eq_iff}
use deployguardai.Prelude.{
  ◌≡◌, ◌≢◌, ◌⊎◌, refl, ap, ◌∙◌, Bool, true, false, not, Option, none, some, List, [], ◌∷◌, returns,
  raise_if, arith, bind-returns, returns-injective, inl, inr, Bool-cases,
}
use deployguardai.Prelude.Texts.{contains, is_blank}
use deployguardai.Verify.Policy.Yaml.{
  Yaml, null, other_number, opaque, boolean, number, str, sequence, object, Yamls, nil, cons,
  Fields, end, field, only_fields,
}
use deployguardai.Verify.Policy.Check.{
  PolicyError, has_patterns, all_patterns, all_in, check_names, is_present,
}

abbrev pub known_kinds : List String
known_kinds = "tests" ∷ "build" ∷ "coverage" ∷ "security" ∷ []

abbrev pub known_severities : List String
known_severities = "critical" ∷ "high" ∷ "medium" ∷ "low" ∷ "note" ∷ []

-- A text of the given ones.
abbrev pub IsOneOf : String → List String → Type 0
IsOneOf s [] = ⊥
IsOneOf s (x ∷ xs) = (s ≡ x) ⊎ IsOneOf s xs

-- Each value is a text of the given ones.
abbrev pub AreNames : List String → Yamls → Type 0
AreNames allowed nil = Unit
AreNames allowed (cons (str s) vs) = IsOneOf s allowed × AreNames allowed vs
AreNames allowed (cons _ vs) = ⊥

abbrev pub IsNameList : List String → Option Yaml → Type 0
IsNameList allowed (some (sequence vs)) = AreNames allowed vs
IsNameList allowed _ = ⊥

-- Each value is a text that is not empty.
abbrev pub AreTexts : Yamls → Type 0
AreTexts nil = Unit
AreTexts (cons (str s) vs) = (s ≢ "") × AreTexts vs
AreTexts (cons _ vs) = ⊥

abbrev pub IsPatternList : Option Yaml → Type 0
IsPatternList (some (sequence (cons v vs))) = AreTexts (cons v vs)
IsPatternList _ = ⊥

-- The keys are among the given ones.
abbrev pub HasOnly : List String → Fields → Type 0
HasOnly allowed end = Unit
HasOnly allowed (field k v fs) = IsOneOf k allowed × HasOnly allowed fs

pub contains-IsOneOf : (xs : List String) (s : String) → contains xs s ≡ true → IsOneOf s xs
contains-IsOneOf [] s h = cc
contains-IsOneOf (x ∷ xs) s h = elim (Bool-cases (str_eq s x)) [
  | inl same ↦ inl ((eq_iff s x).0 same)
  | inr other ↦ inr (contains-IsOneOf xs s (ground arith))
]

pub IsOneOf-contains : (xs : List String) (s : String) → IsOneOf s xs → contains xs s ≡ true
IsOneOf-contains [] s none_of = elim none_of [ ]
IsOneOf-contains (x ∷ xs) s (inl same) = ground (arith, eq_iff s x)
IsOneOf-contains (x ∷ xs) s (inr there) = ground (arith, IsOneOf-contains xs s there)

pub only_fields-HasOnly :
    (allowed : List String) (fs : Fields) → only_fields allowed fs ≡ true → HasOnly allowed fs
unfolding only_fields
only_fields-HasOnly allowed end h = tt
only_fields-HasOnly allowed (field k v fs) h =
    (contains-IsOneOf allowed k (ground arith), only_fields-HasOnly allowed fs (ground arith))

all_patterns-AreTexts : (vs : Yamls) → all_patterns vs ≡ true → AreTexts vs
unfolding all_patterns
all_patterns-AreTexts nil h = tt
all_patterns-AreTexts (cons (str s) vs) h =
    let filled : is_blank s ≡ false = ground arith in
    ((λ e. cc (rw e at filled)), all_patterns-AreTexts vs (ground arith))
all_patterns-AreTexts (cons null vs) h = cc
all_patterns-AreTexts (cons other_number vs) h = cc
all_patterns-AreTexts (cons opaque vs) h = cc
all_patterns-AreTexts (cons (boolean b) vs) h = cc
all_patterns-AreTexts (cons (number r) vs) h = cc
all_patterns-AreTexts (cons (sequence xs) vs) h = cc
all_patterns-AreTexts (cons (object fs) vs) h = cc

pub has_patterns-IsPatternList : (o : Option Yaml) → has_patterns o ≡ true → IsPatternList o
unfolding has_patterns
has_patterns-IsPatternList (some (sequence (cons v vs))) h = all_patterns-AreTexts (cons v vs) h
has_patterns-IsPatternList (some (sequence nil)) h = cc
has_patterns-IsPatternList none h = cc
has_patterns-IsPatternList (some null) h = cc
has_patterns-IsPatternList (some other_number) h = cc
has_patterns-IsPatternList (some opaque) h = cc
has_patterns-IsPatternList (some (boolean b)) h = cc
has_patterns-IsPatternList (some (number r)) h = cc
has_patterns-IsPatternList (some (str s)) h = cc
has_patterns-IsPatternList (some (object fs)) h = cc

all_in-AreNames :
    (allowed : List String) (vs : Yamls) → all_in allowed vs ≡ returns true → AreNames allowed vs
unfolding all_in
all_in-AreNames allowed nil h = tt
all_in-AreNames allowed (cons (str s) vs) h = elim (Bool-cases (contains allowed s)) [
  | inl known ↦ (contains-IsOneOf allowed s known, all_in-AreNames allowed vs (rw known at h))
  | inr other ↦ (let e : false ≡ true = returns-injective (rw other at h) in cc)
]
all_in-AreNames allowed (cons null vs) h = ground arith
all_in-AreNames allowed (cons other_number vs) h = ground arith
all_in-AreNames allowed (cons opaque vs) h = ground arith
all_in-AreNames allowed (cons (boolean b) vs) h = ground arith
all_in-AreNames allowed (cons (number r) vs) h = ground arith
all_in-AreNames allowed (cons (sequence xs) vs) h = ground arith
all_in-AreNames allowed (cons (object fs) vs) h = ground arith

-- `raise_if (not b)` returns only where the test holds.
pub demanded : (b : Bool) (e : PolicyError) → raise_if (not b) e ≡ returns tt → b ≡ true
demanded true e h = refl
demanded false e h = ground arith

check_names-AreNames :
    (allowed : List String) (e : PolicyError) (vs : Yamls)
    → check_names allowed e (some (sequence vs)) ≡ returns tt
    → AreNames allowed vs
unfolding check_names
check_names-AreNames allowed e vs h =
    let (good, listed, rest) = bind-returns (all_in allowed vs) _ h in
    all_in-AreNames allowed vs (listed ∙ ap returns (demanded good e rest))

-- A list of names that may be left out.
abbrev pub IsOptionalList : List String → Option Yaml → Type 0
IsOptionalList allowed none = Unit
IsOptionalList allowed o = IsNameList allowed o

pub check_names-IsOptionalList :
    (allowed : List String) (e : PolicyError) (o : Option Yaml)
    → check_names allowed e o ≡ returns tt
    → IsOptionalList allowed o
unfolding check_names
check_names-IsOptionalList allowed e none h = tt
check_names-IsOptionalList allowed e (some (sequence vs)) h = check_names-AreNames allowed e vs h
check_names-IsOptionalList allowed e (some null) h = ground arith
check_names-IsOptionalList allowed e (some other_number) h = ground arith
check_names-IsOptionalList allowed e (some opaque) h = ground arith
check_names-IsOptionalList allowed e (some (boolean b)) h = ground arith
check_names-IsOptionalList allowed e (some (number r)) h = ground arith
check_names-IsOptionalList allowed e (some (str s)) h = ground arith
check_names-IsOptionalList allowed e (some (object fs)) h = ground arith

pub listed-IsNameList :
    (allowed : List String) (e : PolicyError) (o : Option Yaml)
    → is_present o ≡ true
    → check_names allowed e o ≡ returns tt
    → IsNameList allowed o
listed-IsNameList allowed e none p h = cc
listed-IsNameList allowed e (some v) p h = check_names-IsOptionalList allowed e (some v) h
