-- ===== src/Workspace/Found.antt =====
-- The rows behind the operations on invitations that return (backend/app/workspace_services.py).
use Prim.Native.String.{String}
use text.Mathlib.TextEquality.{eq_iff}
use deployguardai.Prelude.{
  ℕ, ◌≡◌, ◌≤◌, refl, sym, ◌∙◌, ap, subst, true, false, some, returns, raises, arith, inl, inr, List,
  ltb, Bool-cases, Option-cases, first, first-update_where, first-snoc, update_where, is_some,
  or_else, returns-injective, raises-ne-returns, bind-returns,
}
use deployguardai.Workspace.Store.{
  Role, admin, role_level, is_pending, User, Membership, Invitation, Store, invalid_invitation,
  Fresh, is_member,
}
use deployguardai.Workspace.Access.{membership_for}
use deployguardai.Workspace.Invitations.{
  has_id, has_hash, is_of, is_refused, mark_accepted, mark_revoked, joined, ensure_member,
  accept_found, accept_invitation, revoke_found, revoke_invitation, ShownStatus,
}

pub refused-accept :
    (d : Fresh) (u : User) (hash request : String) (s : Store) {i : Invitation}
    → first (has_hash hash) s.invitations ≡ some i
    → is_refused d.now u i ≡ true
    → accept_invitation d u hash request s ≡ raises invalid_invitation
unfolding accept_invitation accept_found
refused-accept d u hash request s h r = rw (h, accept_invitation) (rw r refl)

-- The row that an update by its own id changes.
pub marked-found :
    (hash : String) (f : Invitation → Invitation) (s : Store) (i : Invitation)
    → ((x : Invitation) → has_hash hash (f x) ≡ has_hash hash x)
    → first (has_hash hash) s.invitations ≡ some i
    → first (has_hash hash) (update_where (has_id i.id) f s.invitations) ≡ some (f i)
marked-found hash f s i keep h =
    let e = first-update_where (has_hash hash) (has_id i.id) f s.invitations keep h in
    let own : has_id i.id i ≡ true = (eq_iff i.id i.id).1 refl in rw own at e

pub accept_found-marks :
    (d : Fresh) (u : User) (request : String) (s : Store) (i : Invitation) {m : Membership}
    {s' : Store}
    → accept_found d u request s (some i) ≡ returns (m, s')
    → (is_refused d.now u i ≡ false)
      × (s'.invitations ≡ update_where (has_id i.id) (mark_accepted d.now) s.invitations)
      × (s'.memberships ≡ ensure_member d u i s.memberships)
      × (m ≡ or_else (first (is_member i.workspace_id u.id) s.memberships) (joined d u i))
      × (s'.workspaces ≡ s.workspaces)
unfolding accept_found
accept_found-marks d u request s i h = elim (Bool-cases (is_refused d.now u i)) [
  | inl refused ↦ (let h' = rw refused at h in ground arith)
  | inr free ↦
      let e = returns-injective (rw free at h) in
      (
        free,
        ap (λ p. p.1.invitations) (sym e),
        ap (λ p. p.1.memberships) (sym e),
        ap (λ p. p.0) (sym e),
        ap (λ p. p.1.workspaces) (sym e),
      )
]

pub accept-found :
    (d : Fresh) (u : User) (hash request : String) (s : Store) {m : Membership} {s' : Store}
    → accept_invitation d u hash request s ≡ returns (m, s')
    → (i : Invitation) × (first (has_hash hash) s.invitations ≡ some i)
      × (accept_found d u request s (some i) ≡ returns (m, s'))
unfolding accept_invitation accept_found
accept-found d u hash request s h = elim (Option-cases (first (has_hash hash) s.invitations)) [
  | inl e ↦ absurd (raises-ne-returns (rw (e, accept_invitation, accept_found) at h))
  | inr (i, e) ↦ (i, e, rw e at h)
]

pub revoke_found-marks :
    (now : ℕ) (u : User) (w request : String) (s : Store) (i : Invitation) {x : ShownStatus}
    {s' : Store}
    → revoke_found now u w request s (some i) ≡ returns (x, s')
    → (s'.invitations ≡ update_where (has_id i.id) (mark_revoked now) s.invitations)
      × (s'.memberships ≡ s.memberships)
      × (s'.workspaces ≡ s.workspaces)
unfolding revoke_found
revoke_found-marks now u w request s i h = elim (Bool-cases (is_pending i.status)) [
  | inl waiting ↦
      let e = sym (returns-injective (rw waiting at h)) in
      (ap (λ p. p.1.invitations) e, ap (λ p. p.1.memberships) e, ap (λ p. p.1.workspaces) e)
  | inr over ↦ absurd (raises-ne-returns (rw over at h))
]

pub revoke-found :
    (now : ℕ) (u : User) (w id request : String) (s : Store) {x : ShownStatus} {s' : Store}
    → revoke_invitation now u w id request s ≡ returns (x, s')
    → (i : Invitation) × (revoke_found now u w request s (some i) ≡ returns (x, s'))
unfolding revoke_invitation revoke_found
revoke-found now u w id request s h =
    let (caller, _, h') = bind-returns (membership_for u.id w admin s) _ h in
    elim (Option-cases (first (is_of id w) s.invitations)) [
      | inl e ↦ absurd (raises-ne-returns (rw (e, revoke_found) at h'))
      | inr (i, e) ↦ (i, rw e at h')
    ]

pub joined-member :
    (d : Fresh) (u : User) (i : Invitation) (ms : List Membership)
    → (first (is_member i.workspace_id u.id) (ensure_member d u i ms)
        ≡ some (or_else (first (is_member i.workspace_id u.id) ms) (joined d u i)))
      × (is_some (first (is_member i.workspace_id u.id) ms) ≡ false
          → (or_else (first (is_member i.workspace_id u.id) ms) (joined d u i)).role ≡ i.role)
unfolding ensure_member
joined-member d u i ms = elim (Option-cases (first (is_member i.workspace_id u.id) ms)) [
  | inr (m, e) ↦ rw (e, ensure_member) (e, λ n. (cc))
  | inl e ↦
      let own : is_member i.workspace_id u.id (joined d u i) ≡ true =
        rw ((eq_iff i.workspace_id i.workspace_id).1 refl, (eq_iff u.id u.id).1 refl) refl in
      let new = first-snoc (is_member i.workspace_id u.id) ms (joined d u i) own (rw e refl) in
      rw (e, ensure_member) (new, λ n. refl)
]

pub membership_for-found :
    (u w : String) (minimum : Role) (s : Store) {m : Membership}
    → membership_for u w minimum s ≡ returns m
    → (first (is_member w u) s.memberships ≡ some m) × (role_level minimum ≤ role_level m.role)
unfolding membership_for
membership_for-found u w minimum s {m} h =
    elim (Option-cases (first (is_member w u) s.memberships)) [
      | inl e ↦ absurd (raises-ne-returns (rw (e, membership_for) at h))
      | inr (x, e) ↦
          let h' = rw (e, membership_for) at h in
          elim (Bool-cases (ltb (role_level x.role) (role_level minimum))) [
            | inl low ↦ absurd (raises-ne-returns (rw low at h'))
            | inr enough ↦
                let same : x ≡ m = returns-injective (rw enough at h') in
                (
                  e ∙ ap some same,
                  subst (λ (y : Membership). role_level minimum ≤ role_level y.role) same
                      (ground arith),
                )
          ]
    ]
