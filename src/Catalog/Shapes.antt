-- ===== src/Catalog/Shapes.antt =====
-- The graph of a workspace behind a new and behind a changed row.
use Prim.Native.String.{String}
use text.Mathlib.Text.{◌==◌ as str_eq}
use text.Mathlib.TextEquality.{eq_iff}
use mathlib.Core.Bool.{true≢false}
use deployguardai.Prelude.{
  ◌≡◌, refl, sym, ◌∙◌, ap, subst, Bool, true, false, Option, none, some, List, [], ◌∷◌, ◌++◌, arith,
  inl, inr, Bool-cases, Option-cases, first-update_where, first-passes, if◌then◌else◌, first,
  update_where, is_some,
}
use deployguardai.Prelude.Texts.{contains}
use deployguardai.Catalog.Graph.{
  ServiceRow, DependencyGraph, dependencies_of, set_dependencies, graph_of,
}
use deployguardai.Catalog.Services.{is_service}
use deployguardai.Catalog.Cycles.{Depends, directly, through}
use deployguardai.Catalog.Accepted.{IsAcyclic}

-- Cycles are seen in the dependencies alone.
pub same-IsAcyclic :
    (g g' : DependencyGraph)
    → ((v : String) → dependencies_of g' v ≡ dependencies_of g v)
    → IsAcyclic g
    → IsAcyclic g'
same-IsAcyclic g g' same a v c = a v (moved v v c)
  where
    moved : (v w : String) → Depends g' v w → Depends g v w
    moved _ _ (directly v w h) = directly v w (subst (λ ds. contains ds w ≡ true) (same v) h)
    moved _ _ (through v w x h rest) =
        through v w x (subst (λ ds. contains ds w ≡ true) (same v) h) (moved w x rest)

abbrev row_values : Option ServiceRow → List String
row_values none = []
row_values (some r) = r.dependencies

-- What the graph holds for a service is what its row holds.
graph-row :
    (w v : String) (rows : List ServiceRow)
    → dependencies_of (graph_of w rows) v ≡ row_values (first (is_service v w) rows)
unfolding dependencies_of graph_of first
graph-row w v [] = refl
graph-row w v (x ∷ xs) = elim (Bool-cases (str_eq x.workspace_id w)) [
  | inr away ↦ elim (Bool-cases (str_eq x.id v)) [
    | inl e ↦ rw (away, e) (graph-row w v xs)
    | inr e ↦ rw (away, e) (graph-row w v xs)
  ]
  | inl here ↦ elim (Bool-cases (str_eq x.id v)) [
    | inl e ↦ rw (here, e) refl
    | inr e ↦ rw (here, e) (graph-row w v xs)
  ]
]

-- The dependencies behind the change of a key.
pub dependencies_of-set :
    (i : String) (ds : List String) (g : DependencyGraph) (v : String)
    → dependencies_of (set_dependencies i ds g) v ≡ (if str_eq i v then ds else dependencies_of g v)
unfolding dependencies_of set_dependencies first
dependencies_of-set i ds [] v = elim (Bool-cases (str_eq i v)) [
  | inl e ↦ rw e refl
  | inr e ↦ rw e refl
]
dependencies_of-set i ds (e ∷ g) v = elim (Bool-cases (str_eq e.0 i)) [
  | inl own ↦
      let k : str_eq e.0 v ≡ str_eq i v = ap (λ z. str_eq z v) ((eq_iff e.0 i).0 own) in
      elim (Bool-cases (str_eq i v)) [
        | inl h ↦ rw (own, h) refl
        | inr h ↦ (let h' = k ∙ h in rw (own, h, h') refl)
      ]
  | inr other ↦ elim (Bool-cases (str_eq e.0 v)) [
    | inr h ↦ rw (other, h) (dependencies_of-set i ds g v)
    | inl h ↦ elim (Bool-cases (str_eq i v)) [
      | inr h' ↦ rw (other, h, h') refl
      | inl h' ↦ absurd (
          true≢false
            (sym ((eq_iff e.0 i).1 ((eq_iff e.0 v).0 h ∙ sym ((eq_iff i v).0 h'))) ∙ other))
    ]
  ]
]

first-none-update_where {ℓ} :
    {A : Type ℓ} (q p : A → Bool) (f : A → A) (xs : List A)
    → ((x : A) → q (f x) ≡ q x)
    → first q xs ≡ none
    → first q (update_where p f xs) ≡ none
unfolding first update_where
first-none-update_where q p f [] keep h = refl
first-none-update_where q p f (x ∷ xs) keep h =
    ground (arith, keep x, first-none-update_where q p f xs keep)

-- Behind a change of a row that leaves its dependencies, the graph is the same.
pub graph-untouched :
    (w v : String) (p : ServiceRow → Bool) (f : ServiceRow → ServiceRow) (rows : List ServiceRow)
    → ((x : ServiceRow) → is_service v w (f x) ≡ is_service v w x)
    → ((x : ServiceRow)
        → p x ≡ true
        → is_service v w x ≡ true
        → (f x).dependencies ≡ x.dependencies)
    → dependencies_of (graph_of w (update_where p f rows)) v ≡ dependencies_of (graph_of w rows) v
graph-untouched w v p f rows keep same =
    graph-row w v (update_where p f rows)
    ∙ (elim (Option-cases (first (is_service v w) rows)) [
      | inl e ↦ ap row_values (first-none-update_where (is_service v w) p f rows keep e ∙ sym e)
      | inr (x, e) ↦
          let found = first-update_where (is_service v w) p f rows keep e in
          elim (Bool-cases (p x)) [
            | inr away ↦ ap row_values (rw away at found ∙ sym e)
            | inl hit ↦
                ap row_values (rw hit at found)
                ∙ (same x hit (first-passes (is_service v w) rows e) ∙ sym (ap row_values e))
          ]
    ]
        ∙ sym (graph-row w v rows))

-- Behind a change of a row's dependencies.
pub graph-changed :
    (w v : String) (p : ServiceRow → Bool) (f : ServiceRow → ServiceRow) (rows : List ServiceRow)
    (ds : List String)
    → ((x : ServiceRow) → is_service v w (f x) ≡ is_service v w x)
    → ((x : ServiceRow) → is_service v w x ≡ true → p x ≡ true)
    → ((x : ServiceRow) → (f x).dependencies ≡ ds)
    → is_some (first (is_service v w) rows) ≡ true
    → dependencies_of (graph_of w (update_where p f rows)) v ≡ ds
graph-changed w v p f rows ds keep hits sets there =
    elim (Option-cases (first (is_service v w) rows)) [
      | inl e ↦ absurd (true≢false (sym there ∙ ap is_some e))
      | inr (x, e) ↦
          let hit = hits x (first-passes (is_service v w) rows e) in
          let found = first-update_where (is_service v w) p f rows keep e in
          graph-row w v (update_where p f rows) ∙ (ap row_values (rw hit at found) ∙ sets x)
    ]

first-snoc_cases {ℓ} :
    {A : Type ℓ} (q : A → Bool) (xs : List A) (y : A)
    → first q (xs ++ y ∷ [])
      ≡ (if is_some (first q xs) then first q xs else if q y then some y else none)
unfolding first
first-snoc_cases q [] y = refl
first-snoc_cases q (x ∷ xs) y = elim (Bool-cases (q x)) [
  | inl e ↦ rw e refl
  | inr e ↦ rw e (first-snoc_cases q xs y)
]

-- Behind a new row, where no row has its id.
pub graph-new :
    (w v : String) (rows : List ServiceRow) (r : ServiceRow)
    → ((w' : String) → is_some (first (is_service r.id w') rows) ≡ false)
    → dependencies_of (graph_of w (rows ++ r ∷ [])) v
      ≡ (if is_service v w r then r.dependencies else dependencies_of (graph_of w rows) v)
graph-new w v rows r free =
    graph-row w v (rows ++ r ∷ [])
    ∙ (ap row_values (first-snoc_cases (is_service v w) rows r)
        ∙ elim (Bool-cases (is_service v w r)) [
          | inl own ↦
              let e : r.id ≡ v = (eq_iff r.id v).0 (ground (arith, own)) in
              let none_there =
                subst (λ z. is_some (first (is_service z w) rows) ≡ false) e (free w) in
              rw (own, none_there) refl
          | inr other ↦ rw other (elim (Option-cases (first (is_service v w) rows)) [
            | inl e ↦ rw e (sym (graph-row w v rows ∙ ap row_values e))
            | inr (x, e) ↦ rw e (sym (graph-row w v rows ∙ ap row_values e))
          ])
        ])
