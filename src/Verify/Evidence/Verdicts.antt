-- ===== src/Verify/Evidence/Verdicts.antt =====
-- Which artifacts count as passed, and what becomes of evidence for another commit.
use Prim.Native.String.{String}
use text.Mathlib.TextEquality.{eq_iff}
use deployguardai.Prelude.{
  ℕ, ◌≤◌, ◌≢◌, ◌⊎◌, ◌&&◌, inl, inr, Bool-cases, ◌≡◌, ◌↔◌, ◌<◌, refl, Bool, true, false, not, Option,
  List, [], ◌∷◌, arith, all, All, All-append, length, select, Outcome, returns, raises, ◌>>=◌,
}
use deployguardai.Prelude.Sort.{All-sort}
use deployguardai.Verify.Models.{EvidenceState, passed, Metrics, EvidenceItem}
use deployguardai.Verify.Engine.{item_leb}
use deployguardai.Verify.Engine.Stale.{IsStale}
use deployguardai.Verify.Evidence.Junit.{Artifact, TestCase, sha_differs, junit_state, parse_junit}
use deployguardai.Verify.Evidence.Coverage.{
  Floats, CoverageReport, CoverageError, coverage_state, coverage_rate, coverage_item, rated,
  parse_coverage,
}
use deployguardai.Verify.Evidence.Sarif.{
  Severity, critical, high, is_severity, Score, absent, unreadable, finite, SarifResult,
  score_severity, level_severity, raw_score, sarif_severity, tally, sarif_state, parse_sarif,
}
use deployguardai.Verify.Evidence.Collect.{
  BuildStatus, success, failure, unreported, Artifacts, build_state, build_item, build_items,
  junit_items, sarif_items, coverage_items, all_items, collect_artifacts,
}

count_zero :
    {A : Type 0} (p : A → Bool) (xs : List A)
    → (length (select p xs) ≡ 0) ↔ (all (λ x. not (p x)) xs ≡ true)
count_zero p [] = ((λ _. refl), (λ _. refl))
count_zero p (x ∷ xs) =
    let h = count_zero p xs in ((λ e. ground (arith, h.0)), (λ e. ground (arith, h.1)))

junit_state-passed :
    (differs : Bool) (total failures errors : ℕ)
    → (junit_state differs total failures errors ≡ passed)
      ↔ ((differs ≡ false) × (0 < total) × (failures ≡ 0) × (errors ≡ 0))
unfolding junit_state
junit_state-passed differs total failures errors = ((λ h. ground arith), (λ h. ground arith))

-- A JUnit report passes exactly where it is for the expected commit, has a test case, and no case
-- has failed or has an error; skipped cases do not matter.
pub parse_junit-passed :
    (describe : EvidenceState → Metrics → String) (source_sha : Option String)
    (expected_sha : String) (a : Artifact) (cases : List TestCase)
    → ((parse_junit describe source_sha expected_sha a cases).state ≡ passed) ↔ (
        (sha_differs source_sha expected_sha ≡ false)
        × (0 < length cases)
        × (all (λ c. not c.has_failure) cases ≡ true)
        × (all (λ c. not c.has_error) cases ≡ true))
unfolding parse_junit
parse_junit-passed describe source_sha expected_sha a cases =
    let s = junit_state-passed (sha_differs source_sha expected_sha) (length cases) _ _ in
    let f = count_zero (λ (c : TestCase). c.has_failure) cases in
    let e = count_zero (λ (c : TestCase). c.has_error) cases in
    (
      (λ h. let (d, n, x, y) = s.0 h in (d, n, f.0 x, e.0 y)),
      (λ (d, n, x, y). s.1 (d, n, f.1 x, e.1 y)),
    )

sarif_state-passed :
    (differs : Bool) (criticals highs : ℕ)
    → (sarif_state differs criticals highs ≡ passed)
      ↔ ((differs ≡ false) × (criticals ≡ 0) × (highs ≡ 0))
unfolding sarif_state
sarif_state-passed differs criticals highs = ((λ h. ground arith), (λ h. ground arith))

-- A score of 7.0 or more; without a finite score, the level "error".
abbrev pub IsSeriousScore : Score → (level : String) → Type 0
IsSeriousScore (finite n) level = 7 ≤ n
IsSeriousScore _ level = level ≡ "error"

-- A result is serious by its own score, or by its rule's where it has none of its own.
abbrev pub IsSerious : (own rule : Score) (level : String) → Type 0
IsSerious absent rule level = IsSeriousScore rule level
IsSerious own rule level = IsSeriousScore own level

-- The result counts, and it is serious.
abbrev pub IsSeriousResult : SarifResult → Type 0
IsSeriousResult r =
    (r.is_object ≡ true) × (r.is_suppressed ≡ false) × IsSerious r.own_score r.rule_score r.level

abbrev is_minor : Severity → Bool
is_minor s = not (is_severity s critical) && not (is_severity s high)

score-minor : (n : ℕ) → (is_minor (score_severity n) ≡ true) ↔ (¬ (7 ≤ n))
score-minor n = ((λ h. ground arith), (λ h. ground arith))

level-minor : (level : String) → (is_minor (level_severity level) ≡ true) ↔ (level ≢ "error")
level-minor level =
    ((λ h e. ground (arith, eq_iff level "error")), (λ h. ground (arith, eq_iff level "error")))

Score-cases : (s : Score) → (s ≡ absent) ⊎ ((s ≡ unreadable) ⊎ ((n : ℕ) × (s ≡ finite n)))
Score-cases absent = inl refl
Score-cases unreadable = inr (inl refl)
Score-cases (finite n) = inr (inr (n, refl))

severity-minor :
    (r : SarifResult)
    → (is_minor (sarif_severity r) ≡ true) ↔ (¬ IsSerious r.own_score r.rule_score r.level)
unfolding sarif_severity raw_score
severity-minor r = elim (Score-cases r.own_score) [
  | inr (inr (n, e)) ↦ rw (e, sarif_severity, raw_score) (score-minor n)
  | inr (inl e) ↦ rw (e, sarif_severity, raw_score) (level-minor r.level)
  | inl e ↦ elim (Score-cases r.rule_score) [
    | inr (inr (n, q)) ↦ rw (e, q, sarif_severity, raw_score) (score-minor n)
    | inr (inl q) ↦ rw (e, q, sarif_severity, raw_score) (level-minor r.level)
    | inl q ↦ rw (e, q, sarif_severity, raw_score) (level-minor r.level)
  ]
]

-- No critical and no high result counts exactly where no result is serious.
tally-serious :
    (results : List SarifResult)
    → ((tally critical results ≡ 0) × (tally high results ≡ 0))
      ↔ All (λ r. ¬ IsSeriousResult r) results
unfolding tally
tally-serious [] = ((λ _. tt), (λ _. (refl, refl)))
tally-serious (r ∷ rs) =
    let rest = tally-serious rs in
    let minor = severity-minor r in
    elim (Bool-cases (r.is_object && not r.is_suppressed)) [
      | inr out ↦ rw out ((λ h. ((λ (o, u, _). ground arith), rest.0 h)), (λ (_, a). rest.1 a))
      | inl in_ ↦ elim (Bool-cases (is_minor (sarif_severity r))) [
        | inl small ↦ rw in_ (
          (λ h. ((λ (o, u, bad). minor.0 small bad), rest.0 (ground arith))),
          (λ (_, a). let h = rest.1 a in ground arith),
        )
        | inr big ↦ rw in_ (
          (λ h. absurd (ground arith)),
          (λ (good, a). absurd (cc (big, minor.1 (λ bad. good (ground arith, ground arith, bad))))),
        )
      ]
    ]

-- A SARIF report passes exactly where it is for the expected commit and no result that is an object
-- without suppressions has a `security-severity` of 7.0 or more, its own or else its rule's, or,
-- without a finite one, the level "error".
pub parse_sarif-passed :
    (describe : EvidenceState → Metrics → String) (source_sha : Option String)
    (expected_sha : String) (a : Artifact) (results : List SarifResult)
    → ((parse_sarif describe source_sha expected_sha a results).state ≡ passed)
      ↔ ((sha_differs source_sha expected_sha ≡ false) × All (λ r. ¬ IsSeriousResult r) results)
unfolding parse_sarif
parse_sarif-passed describe source_sha expected_sha a results =
    let s =
      sarif_state-passed (sha_differs source_sha expected_sha) (tally critical results)
        (tally high results) in
    let t = tally-serious results in
    (
      (λ e. let (d, x, y) = s.0 e in (d, t.0 (x, y))),
      (λ (d, x). let (c, h) = t.1 x in s.1 (d, c, h)),
    )

-- No item of what was returned was verified.
abbrev pub Stales : Outcome CoverageError (List EvidenceItem) → Type 0
Stales (returns items) = All IsStale items
Stales (raises _) = Unit

abbrev StaleOne : Outcome CoverageError EvidenceItem → Type 0
StaleOne (returns item) = IsStale item
StaleOne (raises _) = Unit

Stales-bind :
    (m : Outcome CoverageError EvidenceItem) (rest : Outcome CoverageError (List EvidenceItem))
    → StaleOne m
    → Stales rest
    → Stales (m >>= λ item. rest >>= λ items. returns (item ∷ items))
Stales-bind (raises e) rest s h = tt
Stales-bind (returns item) (returns items) s h = (s, h)
Stales-bind (returns item) (raises e) s h = tt

module _ (fl : Floats) (describe : EvidenceState → Metrics → String) (source_sha : Option String)
    (expected_sha : String) (other : sha_differs source_sha expected_sha ≡ true) where
  junit_items-IsStale :
      (xs : List (Artifact × List TestCase))
      → All IsStale (junit_items fl describe source_sha expected_sha xs)
  unfolding parse_junit junit_state
  junit_items-IsStale [] = tt
  junit_items-IsStale ((a, cases) ∷ rest) = (rw other refl, junit_items-IsStale rest)

  sarif_items-IsStale :
      (xs : List (Artifact × List SarifResult))
      → All IsStale (sarif_items fl describe source_sha expected_sha xs)
  unfolding parse_sarif sarif_state
  sarif_items-IsStale [] = tt
  sarif_items-IsStale ((a, results) ∷ rest) = (rw other refl, sarif_items-IsStale rest)

  build_items-IsStale :
      (status : BuildStatus) → All IsStale (build_items fl describe source_sha expected_sha status)
  unfolding build_item build_state
  build_items-IsStale success = (rw other refl, tt)
  build_items-IsStale failure = (rw other refl, tt)
  build_items-IsStale unreported = tt

  coverage_item-IsStale :
      (a : Artifact) (r : ℕ × List (String × ℕ))
      → IsStale (coverage_item fl describe source_sha expected_sha a r)
  unfolding coverage_state
  coverage_item-IsStale a (rate, counts) = rw other refl

  rated-StaleOne :
      (a : Artifact) (m : Outcome CoverageError (ℕ × List (String × ℕ)))
      → StaleOne (rated fl describe source_sha expected_sha a m)
  unfolding rated
  rated-StaleOne a (raises e) = tt
  rated-StaleOne a (returns r) = coverage_item-IsStale a r

  coverage_items-Stales :
      (xs : List (Artifact × CoverageReport))
      → Stales (coverage_items fl describe source_sha expected_sha xs)
  unfolding coverage_items parse_coverage
  coverage_items-Stales [] = tt
  coverage_items-Stales ((a, report) ∷ rest) =
      Stales-bind (rated fl describe source_sha expected_sha a (coverage_rate fl report)) _
        (rated-StaleOne a (coverage_rate fl report)) (coverage_items-Stales rest)

  all_items-Stales :
      (artifacts : Artifacts) (status : BuildStatus) (m : Outcome CoverageError (List EvidenceItem))
      → Stales m
      → Stales (all_items fl describe source_sha expected_sha artifacts status m)
  unfolding all_items
  all_items-Stales artifacts status (raises e) h = tt
  all_items-Stales artifacts status (returns items) h = All-sort item_leb IsStale _ (
      All-append IsStale _ _ (junit_items-IsStale artifacts.junit) (
        All-append IsStale _ _ h (
          All-append IsStale _ _ (sarif_items-IsStale artifacts.sarif)
            (build_items-IsStale status))))

  -- Where the evidence SHA is not that of the head, every item that is collected is UNKNOWN.
  pub collect_artifacts-Stales :
      (artifacts : Artifacts) (status : BuildStatus)
      → Stales (collect_artifacts fl describe source_sha expected_sha artifacts status)
  unfolding collect_artifacts
  collect_artifacts-Stales artifacts status =
      all_items-Stales artifacts status
        (coverage_items fl describe source_sha expected_sha artifacts.coverage)
        (coverage_items-Stales artifacts.coverage)
