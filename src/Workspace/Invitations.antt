-- ===== src/Workspace/Invitations.antt =====
-- `create_invitation`, `revoke_invitation`, `accept_invitation` and `invitation_summary` of
-- backend/app/workspace_services.py.
use Prim.Native.String.{String}
use text.Mathlib.Text.{◌==◌ as str_eq}
use deployguardai.Prelude.{
  ℕ, ◌+◌, Bool, false, not, ◌&&◌, ◌||◌, Option, none, some, List, [], ◌∷◌, ◌++◌, returns, raises,
  raise_if, ◌>>=◌, ◌>>◌, leb, ltb, if◌then◌else◌, first, update_where, is_some, or_else,
}
use deployguardai.Workspace.Store.{
  Role, viewer, responder, admin, is_owner, is_admin, InvitationStatus, pending, accepted, revoked,
  is_pending, User, Membership, Invitation, Store, forbidden, member_already_exists,
  invitation_already_pending, invitation_not_found, invitation_not_pending, invalid_invitation,
  Result, Fresh, is_member,
}
use deployguardai.Workspace.Access.{membership_for, audit, ensure_context}

-- The roles that `InvitationCreate` admits.
pub data InvitedRole : Type 0 where
  as_viewer as_responder as_admin : InvitedRole

unfoldable pub granted_role : InvitedRole → Role
granted_role as_viewer = viewer
granted_role as_responder = responder
granted_role as_admin = admin

-- The user with the email is a member.
unfoldable pub is_email_member : (email workspace_id : String) → Store → Bool
is_email_member email w s = elim (first (λ (u : User). str_eq u.email email) s.users) [
  | none ↦ false
  | some u ↦ is_some (first (is_member w u.id) s.memberships)
]

-- An invitation of the email to the workspace is pending and not over.
abbrev pub is_open : (workspace_id email : String) (now : ℕ) → Invitation → Bool
is_open w email now i =
    str_eq i.workspace_id w && str_eq i.email email && is_pending i.status && ltb now i.expires_at

abbrev pub new_invitation :
    Fresh → (user_id workspace_id email : String) → Role → (hash : String) (ttl : ℕ) → Invitation
new_invitation d u w email role hash ttl = record {
  id = d.fresh_id;
  workspace_id = w;
  email = email;
  role = role;
  token_hash = hash;
  status = pending;
  invited_by = u;
  created_at = d.now;
  expires_at = d.now + ttl;
  accepted_at = none;
  revoked_at = none;
}

-- `hash` is the digest of the claim token, which is drawn or derived from the id.
unfoldable pub create_invitation :
    Fresh
    → User
    → (workspace_id email : String) → InvitedRole
    → (hash request_id : String) (ttl : ℕ) → Store
    → Result Invitation
create_invitation d user w email invited hash request ttl s = do
  caller ← membership_for user.id w admin s
  let role = granted_role invited
  let i = new_invitation d user.id w email role hash ttl
  raise_if (is_admin role && not (is_owner caller.role)) forbidden
  raise_if (is_email_member email w s) member_already_exists
  raise_if (is_some (first (is_open w email d.now) s.invitations)) invitation_already_pending
  returns (
    i,
    record s {
      invitations = s.invitations ++ i ∷ [];
      events = audit w (some user.id) "invitation.created" d.fresh_id request d.now s.events;
    },
  )

-- The status that a summary shows.
pub data ShownStatus : Type 0 where
  shown : InvitationStatus → ShownStatus
  expired : ShownStatus

unfoldable pub invitation_summary : (now : ℕ) → Invitation → ShownStatus
invitation_summary now i =
    if is_pending i.status && leb i.expires_at now then expired else shown i.status

abbrev pub has_id : (invitation_id : String) → Invitation → Bool
has_id i x = str_eq x.id i

abbrev pub is_of : (invitation_id workspace_id : String) → Invitation → Bool
is_of i w x = has_id i x && str_eq x.workspace_id w

abbrev pub mark_revoked : (now : ℕ) → Invitation → Invitation
mark_revoked now i = record i { status = revoked; revoked_at = some now }

-- Behind the query for the invitation.
unfoldable pub revoke_found :
    (now : ℕ)
    → User
    → (workspace_id request_id : String) → Store
    → Option Invitation
    → Result ShownStatus
revoke_found now user w request s none = raises invitation_not_found
revoke_found now user w request s (some i) =
    if not (is_pending i.status)
    then raises invitation_not_pending
    else returns (
      invitation_summary now (mark_revoked now i),
      record s {
        invitations = update_where (has_id i.id) (mark_revoked now) s.invitations;
        events = audit w (some user.id) "invitation.revoked" i.id request now s.events;
      },
    )

unfoldable pub revoke_invitation :
    (now : ℕ) → User → (workspace_id invitation_id request_id : String) → Store → Result ShownStatus
revoke_invitation now user w i request s = do
  caller ← membership_for user.id w admin s
  revoke_found now user w request s (first (is_of i w) s.invitations)

abbrev pub mark_accepted : (now : ℕ) → Invitation → Invitation
mark_accepted now i = record i { status = accepted; accepted_at = some now }

-- `invalid`, of an invitation that is there.
abbrev pub is_refused : (now : ℕ) → User → Invitation → Bool
is_refused now user i =
    not (is_pending i.status)
    || is_some i.revoked_at
    || leb i.expires_at now
    || not (str_eq i.email user.email)

abbrev pub joined : Fresh → User → Invitation → Membership
joined d user i = record {
  id = d.fresh_id;
  workspace_id = i.workspace_id;
  user_id = user.id;
  role = i.role;
  joined_at = d.now;
}

-- The memberships behind an acceptance: a membership that is there stays as it is.
unfoldable pub ensure_member : Fresh → User → Invitation → List Membership → List Membership
ensure_member d user i ms =
    if is_some (first (is_member i.workspace_id user.id) ms) then ms else ms ++ joined d user i ∷ []

-- Behind the query for the token.
unfoldable pub accept_found :
    Fresh → User → (request_id : String) → Store → Option Invitation → Result Membership
accept_found d user request s none = raises invalid_invitation
accept_found d user request s (some i) =
    let ms = ensure_member d user i s.memberships in
    if is_refused d.now user i
    then raises invalid_invitation
    else returns (
      or_else (first (is_member i.workspace_id user.id) s.memberships) (joined d user i),
      record s {
        memberships = ms;
        contexts = ensure_context user.id i.workspace_id d.now s.contexts;
        invitations = update_where (has_id i.id) (mark_accepted d.now) s.invitations;
        events =
            audit i.workspace_id (some user.id) "invitation.accepted" i.id request d.now s.events;
      },
    )

abbrev pub has_hash : (hash : String) → Invitation → Bool
has_hash h i = str_eq i.token_hash h

unfoldable pub accept_invitation :
    Fresh → User → (hash request_id : String) → Store → Result Membership
accept_invitation d user hash request s =
    accept_found d user request s (first (has_hash hash) s.invitations)
