-- ===== src/Deploy/Repeated.antt =====
-- A delivery that comes twice, and the records behind sequences of deliveries
-- (backend/app/deployment_services.py).
use Prim.Native.String.{String}
use text.Mathlib.Text.{◌==◌ as str_eq}
use text.Mathlib.TextEquality.{eq_iff}
use deployguardai.Prelude.{
  ℕ, ◌≡◌, ◌⊎◌, refl, sym, ◌∙◌, ap, subst, true, not, ◌||◌, Option, none, some, List, [], ◌∷◌, arith,
  inl, inr, ltb, Bool-cases, Option-cases, first, first-update_where, first-snoc, All, All-append,
  All-update_where,
}
use deployguardai.Deploy.Payload.{Payload, Reading, read_payload}
use deployguardai.Deploy.Rows.{
  ChangeRecord, DeploymentRecord, DeploymentTables, matched_change, service_ids,
}
use deployguardai.Deploy.Upsert.{
  Delivery, Attempt, no_deployment, has_identity, finished, new_deployment, refresh, apply_reading,
  attempt_reading, attempt_upsert, settle_attempt, upsert_github_deployment,
}
use deployguardai.Deploy.Ordered.{IsSound, deliver_all, attempt_rule}

-- The same delivery at another time.
abbrev pub redelivered : Delivery → (now : ℕ) (fresh_id : String) → Delivery
redelivered v n i = record v { now = n; fresh_id = i }

abbrev behind : DeploymentTables → Attempt → DeploymentTables
behind t a = (settle_attempt t a).1

module _ (v : Delivery) (g : Reading) (n : ℕ) (i : String) where
  abbrev found_in : DeploymentTables → Option DeploymentRecord
  found_in t = first (has_identity v.workspace_id g.provider_deployment_id) t.deployments

  -- A record that has seen the delivery stays as it is.
  seen_stays :
      (c : Option ChangeRecord) (services : List String) (t : DeploymentTables)
      (d : DeploymentRecord)
      → d.last_delivery_id ≡ v.delivery_id
      → behind t (apply_reading (redelivered v n i) g c services t (some d)) ≡ t
  unfolding apply_reading settle_attempt
  seen_stays c services t d h = rw ((eq_iff d.last_delivery_id v.delivery_id).1 h) refl

  found_stays :
      (t : DeploymentTables) (d : DeploymentRecord)
      → found_in t ≡ some d
      → d.last_delivery_id ≡ v.delivery_id
      → behind t (attempt_reading (redelivered v n i) g t) ≡ t
  unfolding attempt_reading
  found_stays t d e h = rw e (seen_stays _ _ t d h)

  -- Behind an attempt there is a record that has seen the delivery, or nothing was changed and
  -- nothing would be.
  applied :
      (c : Option ChangeRecord) (services : List String) (t : DeploymentTables)
      (found : Option DeploymentRecord)
      → found_in t ≡ found
      → ((d : DeploymentRecord) × (found_in (behind t (apply_reading v g c services t found))
            ≡ some d)
          × (d.last_delivery_id ≡ v.delivery_id))
        ⊎ ((behind t (apply_reading v g c services t found) ≡ t)
            × ((c' : Option ChangeRecord) (services' : List String)
                → behind t (apply_reading (redelivered v n i) g c' services' t found) ≡ t))
  unfolding apply_reading settle_attempt refresh new_deployment
  applied c services t none e =
      let own : has_identity v.workspace_id g.provider_deployment_id (new_deployment v g c services)
          ≡ true =
        rw
          (
            (eq_iff v.workspace_id v.workspace_id).1 refl,
            (eq_iff g.provider_deployment_id g.provider_deployment_id).1 refl,
          )
          refl in
      inl (
        new_deployment v g c services,
        first-snoc (has_identity v.workspace_id g.provider_deployment_id) t.deployments _ own
            (rw e refl),
        refl,
      )
  applied c services t (some d) e = elim (Bool-cases (str_eq d.last_delivery_id v.delivery_id)) [
    | inl again ↦ rw again (inr (refl, λ c' services'. refl))
    | inr fresh ↦ elim (Bool-cases (ltb g.provider_updated_at d.provider_updated_at)) [
      | inl late ↦ rw (fresh, late) (inr (refl, λ c' services'. refl))
      | inr timely ↦
          elim (Bool-cases (
            not (str_eq d.workspace_id v.workspace_id)
            || not (str_eq d.repository_id v.repository_id))) [
              | inl bad ↦ rw (fresh, timely, bad) (inr (refl, λ c' services'. refl))
              | inr good ↦
                  let moved =
                    first-update_where (has_identity v.workspace_id g.provider_deployment_id)
                      (has_identity d.workspace_id d.provider_deployment_id)
                      (refresh v g c services) t.deployments (λ x. refl) e in
                  let own =
                    rw
                      (
                        (eq_iff d.workspace_id d.workspace_id).1 refl,
                        (eq_iff d.provider_deployment_id d.provider_deployment_id).1 refl,
                      )
                      at moved in
                  rw (fresh, timely, good) (inl (refresh v g c services d, own, refl))
            ]
    ]
  ]

  reading_twice :
      (t : DeploymentTables)
      → behind
          (behind t (attempt_reading v g t))
          (attempt_reading (redelivered v n i) g (behind t (attempt_reading v g t)))
        ≡ behind t (attempt_reading v g t)
  unfolding attempt_reading
  reading_twice t =
      let change =
        matched_change v.workspace_id v.repository_id g.commit_sha g.provider_updated_at
          t.changes in
      elim (applied change (service_ids v.workspace_id v.repository_id change t.catalog) t
        (found_in t) refl) [
          | inl (d, e, h) ↦ found_stays (behind t (attempt_reading v g t)) d e h
          | inr (e, k) ↦
              subst (λ t'. behind t' (attempt_reading (redelivered v n i) g t') ≡ t') (sym e)
                (k _ _)
        ]

attempt_upsert-none :
    (parse : String → Option ℕ) (v : Delivery) (p : Payload) (t : DeploymentTables)
    → read_payload parse v.event_time p ≡ none
    → attempt_upsert parse v p t ≡ no_deployment
unfolding attempt_upsert
attempt_upsert-none parse v p t e = rw (attempt_upsert, e) refl

attempt_upsert-read :
    (parse : String → Option ℕ) (v : Delivery) (p : Payload) (t : DeploymentTables) (g : Reading)
    → read_payload parse v.event_time p ≡ some g
    → attempt_upsert parse v p t ≡ attempt_reading v g t
unfolding attempt_upsert
attempt_upsert-read parse v p t g e = rw (attempt_upsert, e) refl

-- A delivery that is repeated directly behind itself, at whatever time, has the effect of one: the
-- second time leaves all rows as they are.
pub redelivered_unchanged :
    (parse : String → Option ℕ) (v : Delivery) (p : Payload) (n : ℕ) (i : String)
    (t : DeploymentTables)
    → (upsert_github_deployment parse none none
        (redelivered v n i)
        p
        (upsert_github_deployment parse none none v p t).1).1
      ≡ (upsert_github_deployment parse none none v p t).1
unfolding upsert_github_deployment settle_attempt
redelivered_unchanged parse v p n i t = elim (Option-cases (read_payload parse v.event_time p)) [
  | inl e ↦
      subst
        (λ a.
          behind (behind t a) (attempt_upsert parse (redelivered v n i) p (behind t a))
          ≡ behind t a)
        (sym (attempt_upsert-none parse v p t e))
        (ap (behind t) (attempt_upsert-none parse (redelivered v n i) p t e))
  | inr (g, e) ↦
      subst
        (λ a.
          behind (behind t a) (attempt_upsert parse (redelivered v n i) p (behind t a))
          ≡ behind t a)
        (sym (attempt_upsert-read parse v p t g e))
        (ap (behind _) (attempt_upsert-read parse (redelivered v n i) p _ g e)
          ∙ reading_twice v g n i t)
]

new_deployment-IsSound :
    (v : Delivery) (g : Reading) (c : Option ChangeRecord) (services : List String)
    → IsSound (new_deployment v g c services)
unfolding new_deployment finished
new_deployment-IsSound v g c services = record { counted = omega arith; finishes = refl }

refresh-IsSound :
    (v : Delivery) (g : Reading) (c : Option ChangeRecord) (services : List String)
    (x : DeploymentRecord)
    → IsSound (refresh v g c services x)
unfolding refresh finished
refresh-IsSound v g c services x = record { counted = omega arith; finishes = refl }

-- Where every record counts its versions from 1 and is finished where its status is final, then at the
-- time of its last report, every record still does so behind deliveries in whatever order.
pub deliver_all-IsSound :
    (parse : String → Option ℕ) (vs : List (Delivery × Payload)) (t : DeploymentTables)
    → All IsSound t.deployments
    → All IsSound (deliver_all parse vs t).deployments
unfolding deliver_all
deliver_all-IsSound parse [] t a = a
deliver_all-IsSound parse (v ∷ vs) t a =
    deliver_all-IsSound parse vs (upsert_github_deployment parse none none v.0 v.1 t).1 (
      attempt_rule parse (λ s. All IsSound s.deployments) v.0 v.1 t a
        (λ g c services t' e. subst (All IsSound) (sym e) (
          All-append IsSound t.deployments (new_deployment v.0 g c services ∷ []) a
            (new_deployment-IsSound v.0 g c services, tt)))
        (λ g c services d t' _ _ e. subst (All IsSound) (sym e) (
          All-update_where IsSound _ (refresh v.0 g c services) t.deployments
            (λ x _. refresh-IsSound v.0 g c services x) a)))
