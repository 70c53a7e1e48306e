-- ===== src/Deploy/Ordered.antt =====
-- Sequences of deliveries (backend/app/deployment_services.py).
use Prim.Native.String.{String}
use text.Mathlib.Text.{◌==◌ as str_eq}
use text.Mathlib.TextEquality.{eq_iff}
use mathlib.Core.Option.{some-injective}
use deployguardai.Prelude.{
  ℕ, ◌≡◌, ◌≤◌, refl, sym, ◌∙◌, ap, subst, Bool, true, not, ◌||◌, Option, none, some, List, [], ◌∷◌,
  ◌++◌, arith, inl, inr, ltb, Bool-cases, Option-cases, if◌then◌else◌, first, update_where,
  first-update_where, first-passes,
}
use deployguardai.Deploy.Payload.{Payload, Reading, is_final, read_payload}
use deployguardai.Deploy.Rows.{ChangeRecord, DeploymentRecord, DeploymentTables}
use deployguardai.Deploy.Upsert.{
  Delivery, has_identity, new_deployment, refresh, apply_reading, attempt_reading, attempt_upsert,
  settle_attempt, upsert_github_deployment,
}

-- How a deployment follows an earlier state of it.
pub record IsLater (d d' : DeploymentRecord) : Type 0 where
  pub same_id : d'.id ≡ d.id
  pub same_repository : d'.repository_id ≡ d.repository_id
  pub same_creation : d'.provider_created_at ≡ d.provider_created_at
  pub not_older : d.provider_updated_at ≤ d'.provider_updated_at
  pub versions : d.version ≤ d'.version

IsLater-refl : (d : DeploymentRecord) → IsLater d d
IsLater-refl d = record {
  same_id = refl;
  same_repository = refl;
  same_creation = refl;
  not_older = omega arith;
  versions = omega arith;
}

IsLater-trans : {d e f : DeploymentRecord} → IsLater d e → IsLater e f → IsLater d f
IsLater-trans k l = record {
  same_id = l.same_id ∙ k.same_id;
  same_repository = l.same_repository ∙ k.same_repository;
  same_creation = l.same_creation ∙ k.same_creation;
  not_older = omega (arith, k.not_older, l.not_older);
  versions = omega (arith, k.versions, l.versions);
}

-- The record with the identity was `d` and is one that follows it.
abbrev pub Follows :
    (workspace_id provider_id : String) → DeploymentRecord → DeploymentTables → Type 0
Follows w p d t =
    (d' : DeploymentRecord) × (first (has_identity w p) t.deployments ≡ some d') × IsLater d d'

-- A record is final with the time of its last report, and its versions count from 1.
pub record IsSound (d : DeploymentRecord) : Type 0 where
  pub counted : 1 ≤ d.version
  pub finishes : d.finished_at ≡ (if is_final d.status then some d.provider_updated_at else none)

unfoldable pub deliver_all :
    (parse : String → Option ℕ) → List (Delivery × Payload) → DeploymentTables → DeploymentTables
deliver_all parse [] t = t
deliver_all parse (v ∷ vs) t =
    deliver_all parse vs (upsert_github_deployment parse none none v.0 v.1 t).1

first-append_some {ℓ} :
    {A : Type ℓ} (p : A → Bool) (xs ys : List A) {a : A}
    → first p xs ≡ some a
    → first p (xs ++ ys) ≡ some a
unfolding first
first-append_some p [] ys h = cc
first-append_some p (x ∷ xs) ys {a} h = ground (arith, first-append_some p xs ys {a = a})

-- What holds of the rows and of what is written holds behind an attempt.
apply_rule {κ} :
    (P : DeploymentTables → Type κ) (v : Delivery) (g : Reading) (c : Option ChangeRecord)
    (services : List String) (t : DeploymentTables) (found : Option DeploymentRecord)
    → P t
    → ((t' : DeploymentTables)
        → t'.deployments ≡ t.deployments ++ new_deployment v g c services ∷ []
        → P t')
    → ((d : DeploymentRecord) (t' : DeploymentTables)
        → found ≡ some d
        → d.provider_updated_at ≤ g.provider_updated_at
        → t'.deployments
          ≡ update_where
              (has_identity d.workspace_id d.provider_deployment_id)
              (refresh v g c services)
              t.deployments
        → P t')
    → P (settle_attempt t (apply_reading v g c services t found)).1
unfolding settle_attempt apply_reading
apply_rule P v g c services t none p created updated = created _ refl
apply_rule P v g c services t (some d) p created updated =
    elim (Bool-cases (str_eq d.last_delivery_id v.delivery_id)) [
      | inl again ↦ rw again p
      | inr fresh ↦ elim (Bool-cases (ltb g.provider_updated_at d.provider_updated_at)) [
        | inl late ↦ rw (fresh, late) p
        | inr timely ↦
            elim (Bool-cases (
              not (str_eq d.workspace_id v.workspace_id)
              || not (str_eq d.repository_id v.repository_id))) [
                | inl bad ↦ rw (fresh, timely, bad) p
                | inr good ↦ rw (fresh, timely, good) (updated d _ refl (ground arith) refl)
              ]
      ]
    ]

identity_eq :
    (d : DeploymentRecord) (w i : String)
    → has_identity w i d ≡ true
    → (d.workspace_id ≡ w) × (d.provider_deployment_id ≡ i)
identity_eq d w i h = (
  (eq_iff d.workspace_id w).0 (ground (arith, h)),
  (eq_iff d.provider_deployment_id i).0 (ground (arith, h)),
)

pair_eq {ℓ κ} :
    {A : Type ℓ} {B : Type κ} {a a' : A} {b b' : B}
    → a ≡ a'
    → b ≡ b'
    → ◌≡◌ {A = A × B} (a, b) (a', b')
pair_eq e f = cc

module _ (parse : String → Option ℕ) where
  pub attempt_rule {κ} :
      (P : DeploymentTables → Type κ) (v : Delivery) (p : Payload) (t : DeploymentTables)
      → P t
      → ((g : Reading) (c : Option ChangeRecord) (services : List String) (t' : DeploymentTables)
          → t'.deployments ≡ t.deployments ++ new_deployment v g c services ∷ []
          → P t')
      → ((g : Reading) (c : Option ChangeRecord) (services : List String) (d : DeploymentRecord)
            (t' : DeploymentTables)
          → first (has_identity v.workspace_id g.provider_deployment_id) t.deployments ≡ some d
          → d.provider_updated_at ≤ g.provider_updated_at
          → t'.deployments
            ≡ update_where
                (has_identity d.workspace_id d.provider_deployment_id)
                (refresh v g c services)
                t.deployments
          → P t')
      → P (upsert_github_deployment parse none none v p t).1
  unfolding upsert_github_deployment attempt_upsert attempt_reading settle_attempt
  attempt_rule P v p t q created updated = elim (Option-cases (read_payload parse v.event_time p)) [
    | inl e ↦ rw (attempt_upsert, e) q
    | inr (g, e) ↦
        rw (attempt_upsert, e)
          (apply_rule P v g _ _ t
            (first (has_identity v.workspace_id g.provider_deployment_id) t.deployments) q
            (created g _ _) (updated g _ _))
  ]

  refreshed-Follows :
      (w i : String) (v : Delivery) (g : Reading) (c : Option ChangeRecord) (services : List String)
      (d0 d : DeploymentRecord) (t t' : DeploymentTables)
      → first (has_identity w i) t.deployments ≡ some d
      → first (has_identity v.workspace_id g.provider_deployment_id) t.deployments ≡ some d0
      → d0.provider_updated_at ≤ g.provider_updated_at
      → t'.deployments
        ≡ update_where
            (has_identity d0.workspace_id d0.provider_deployment_id)
            (refresh v g c services)
            t.deployments
      → Follows w i d t'
  unfolding refresh
  refreshed-Follows w i v g c services d0 d t t' h h0 timely e =
      let own = has_identity d0.workspace_id d0.provider_deployment_id in
      let found =
        first-update_where (has_identity w i) own (refresh v g c services) t.deployments (λ x. refl)
          h in
      elim (Bool-cases (own d)) [
        | inr other ↦ (d, ap (first (has_identity w i)) e ∙ rw other at found, IsLater-refl d)
        | inl same ↦
            let (a, b) = identity_eq d d0.workspace_id d0.provider_deployment_id same in
            let (a0, b0) = identity_eq d0 _ _ (
              first-passes (has_identity v.workspace_id g.provider_deployment_id) t.deployments
                h0) in
            let (a1, b1) = identity_eq d w i (first-passes (has_identity w i) t.deployments h) in
            let h0' =
              subst (λ z. first (has_identity z.0 z.1) t.deployments ≡ some d0)
                (pair_eq (sym a0 ∙ (sym a ∙ a1)) (sym b0 ∙ (sym b ∙ b1))) h0 in
            let one : d0 ≡ d = some-injective _ _ (sym h0' ∙ h) in
            let k = ap (λ (x : DeploymentRecord). x.provider_updated_at) one in
            (
              refresh v g c services d,
              ap (first (has_identity w i)) e ∙ rw same at found,
              record {
                same_id = refl;
                same_repository = refl;
                same_creation = refl;
                not_older = omega (arith, timely, k);
                versions = omega arith;
              },
            )
      ]

  -- Whatever is delivered in whatever order: a deployment that is there stays, as the row, the
  -- repository and the creation that it had, its last report is never replaced by an older one, and
  -- its version does not fall.
  pub deliver_all-IsLater :
      (vs : List (Delivery × Payload)) (w i : String) (d : DeploymentRecord) (t : DeploymentTables)
      → first (has_identity w i) t.deployments ≡ some d
      → Follows w i d (deliver_all parse vs t)
  unfolding deliver_all
  deliver_all-IsLater [] w i d t h = (d, h, IsLater-refl d)
  deliver_all-IsLater (v ∷ vs) w i d t h =
      let (d1, h1, l1) =
        attempt_rule (Follows w i d) v.0 v.1 t (d, h, IsLater-refl d)
          (λ g c services t' e. (
            d,
            ap (first (has_identity w i)) e
                ∙ first-append_some (has_identity w i) t.deployments _ h,
            IsLater-refl d,
          ))
          (λ g c services d0 t' h0 timely e.
            refreshed-Follows w i v.0 g c services d0 d t t' h h0 timely e) in
      let (d2, h2, l2) =
        deliver_all-IsLater vs w i d1 (upsert_github_deployment parse none none v.0 v.1 t).1 h1 in
      (d2, h2, IsLater-trans l1 l2)
