-- ===== src/Workspace/Once.antt =====
-- What becomes of an invitation (backend/app/workspace_services.py).
use Prim.Native.String.{String}
use text.Mathlib.TextEquality.{eq_iff}
use deployguardai.Prelude.{
  ℕ, ◌≡◌, ◌<◌, ◌≤◌, ◌⊎◌, refl, sym, ◌∙◌, ap, true, false, not, ◌&&◌, some, returns, raises, arith,
  inl, inr, [], ◌∷◌, ◌++◌, Bool-cases, Option-cases, first, is_some, returns-injective,
  bind-returns, seq-returns, raise_if-returns, raise_if,
}
use deployguardai.Workspace.Store.{
  admin, is_owner, is_admin, role_level, is_pending, User, Membership, Invitation, Store, forbidden,
  member_already_exists, invitation_already_pending, invalid_invitation, Fresh, is_member,
}
use deployguardai.Workspace.Access.{membership_for}
use deployguardai.Workspace.Invitations.{
  has_hash, is_of, is_open, is_email_member, granted_role, InvitedRole, mark_accepted, mark_revoked,
  accept_invitation, revoke_invitation, create_invitation, new_invitation, ShownStatus,
}
use deployguardai.Workspace.Found.{
  refused-accept, marked-found, accept_found-marks, accept-found, revoke_found-marks, joined-member,
  membership_for-found,
}

-- A token is good for one acceptance: after it, the token is refused to everybody.
pub accept_invitation_once :
    (d d' : Fresh) (u u' : User) (hash request request' : String) (s s' : Store) (m : Membership)
    → accept_invitation d u hash request s ≡ returns (m, s')
    → accept_invitation d' u' hash request' s' ≡ raises invalid_invitation
accept_invitation_once d d' u u' hash request request' s s' m h =
    let (i, found, e) = accept-found d u hash request s h in
    let (_, marked, _, _, _) = accept_found-marks d u request s i e in
    let now = marked-found hash (mark_accepted d.now) s i (λ x. refl) found in
    refused-accept d' u' hash request' s' (ap (first (has_hash hash)) marked ∙ now) refl

-- A revoked invitation is refused to everybody: where the token leads to the invitation that
-- `revoke_invitation` has revoked, no acceptance returns.
pub revoke_invitation_final :
    (now : ℕ) (d : Fresh) (boss u : User) (w id hash request request' : String) (s s' : Store)
    (i : Invitation) (status : ShownStatus)
    → first (is_of id w) s.invitations ≡ some i
    → first (has_hash hash) s.invitations ≡ some i
    → revoke_invitation now boss w id request s ≡ returns (status, s')
    → accept_invitation d u hash request' s' ≡ raises invalid_invitation
unfolding revoke_invitation
revoke_invitation_final now d boss u w id hash request request' s s' i status found token h =
    let (caller, _, h') = bind-returns (membership_for boss.id w admin s) _ h in
    let (marked, _, _) = revoke_found-marks now boss w request s i (rw found at h') in
    let e = marked-found hash (mark_revoked now) s i (λ x. refl) token in
    refused-accept d u hash request' s' (ap (first (has_hash hash)) marked ∙ e) refl

-- What an accepted invitation gives: the invitation behind the token was pending, not over and for
-- the user's email, and behind the call the user is a member of its workspace, by a membership that
-- was there before or with the invitation's role.
pub accept_invitation-Joins :
    (d : Fresh) (u : User) (hash request : String) (s s' : Store) (m : Membership)
    → accept_invitation d u hash request s ≡ returns (m, s')
    → (i : Invitation) × (first (has_hash hash) s.invitations ≡ some i)
      × (is_pending i.status ≡ true)
      × (d.now < i.expires_at)
      × (i.email ≡ u.email)
      × (first (is_member i.workspace_id u.id) s'.memberships ≡ some m)
      × ((first (is_member i.workspace_id u.id) s.memberships ≡ some m) ⊎ (m.role ≡ i.role))
accept_invitation-Joins d u hash request s s' m h =
    let (i, found, e) = accept-found d u hash request s h in
    let (free, _, members, own, _) = accept_found-marks d u request s i e in
    let (mine, role) = joined-member d u i s.memberships in
    (
      i,
      found,
      ground arith,
      ground arith,
      (eq_iff i.email u.email).0 (ground arith),
      ap (first (is_member i.workspace_id u.id)) members ∙ (mine ∙ ap some (sym own)),
      elim (Option-cases (first (is_member i.workspace_id u.id) s.memberships)) [
        | inr (x, was) ↦ inl (was ∙ ap some (sym (rw was at own)))
        | inl free ↦ inr (ap (λ (x : Membership). x.role) own ∙ role (rw free refl))
      ],
    )

pub create_invitation-adds :
    (d : Fresh) (u : User) (w email : String) (role : InvitedRole) (hash request : String) (ttl : ℕ)
    (s : Store) {s' : Store} {i : Invitation}
    → create_invitation d u w email role hash request ttl s ≡ returns (i, s')
    → (s'.invitations
        ≡ s.invitations ++ new_invitation d u.id w email (granted_role role) hash ttl ∷ [])
      × (s'.memberships ≡ s.memberships)
      × (s'.workspaces ≡ s.workspaces)
unfolding create_invitation
create_invitation-adds d u w email role hash request ttl s h =
    let (caller, _, h1) = bind-returns (membership_for u.id w admin s) _ h in
    let (_, h2) =
      seq-returns (raise_if (is_admin (granted_role role) && not (is_owner caller.role)) forbidden)
        _ h1 in
    let (_, h3) = seq-returns (raise_if (is_email_member email w s) member_already_exists) _ h2 in
    let (_, h4) =
      seq-returns
        (raise_if (is_some (first (is_open w email d.now) s.invitations))
          invitation_already_pending)
        _ h3 in
    let e = sym (returns-injective h4) in
    (ap (λ p. p.1.invitations) e, ap (λ p. p.1.memberships) e, ap (λ p. p.1.workspaces) e)

-- The tests that a `create_invitation` which returns has passed.
pub create_invitation-passes :
    (d : Fresh) (u : User) (w email : String) (role : InvitedRole) (hash request : String) (ttl : ℕ)
    (s s' : Store) (i : Invitation)
    → create_invitation d u w email role hash request ttl s ≡ returns (i, s')
    → (caller : Membership) × (first (is_member w u.id) s.memberships ≡ some caller)
      × (30 ≤ role_level caller.role)
      × ((is_admin (granted_role role) ≡ false) ⊎ (is_owner caller.role ≡ true))
      × (is_email_member email w s ≡ false)
      × (is_some (first (is_open w email d.now) s.invitations) ≡ false)
unfolding create_invitation
create_invitation-passes d u w email role hash request ttl s s' i h =
    let (caller, e, h1) = bind-returns (membership_for u.id w admin s) _ h in
    let (owned, h2) =
      seq-returns (raise_if (is_admin (granted_role role) && not (is_owner caller.role)) forbidden)
        _ h1 in
    let (member, h3) =
      seq-returns (raise_if (is_email_member email w s) member_already_exists) _ h2 in
    let (open_one, _) =
      seq-returns
        (raise_if (is_some (first (is_open w email d.now) s.invitations))
          invitation_already_pending)
        _ h3 in
    let (found, level) = membership_for-found u.id w admin s e in
    let allowed = raise_if-returns _ _ owned in
    (
      caller,
      found,
      unfold role_level in level,
      elim (Bool-cases (is_admin (granted_role role))) [
        | inl privileged ↦ inr (ground arith)
        | inr plain ↦ inl plain
      ],
      raise_if-returns _ _ member,
      raise_if-returns _ _ open_one,
    )
