-- ===== src/Workspace/Invited.antt =====
-- Who may invite whom (`create_invitation` of backend/app/workspace_services.py).
use Prim.Native.String.{String}
use text.Mathlib.Text.{◌==◌ as str_eq}
use text.Mathlib.TextEquality.{eq_iff}
use deployguardai.Prelude.{
  ℕ, ◌+◌, ◌≡◌, ◌≤◌, ◌<◌, ◌⊎◌, refl, Bool, true, false, some, List, [], ◌∷◌, ◌++◌, All, returns,
  arith, inl, inr, Bool-cases, first, first-passes, is_some,
}
use deployguardai.Workspace.Store.{
  Role, admin, owner, responder, viewer, is_owner, is_admin, role_level, pending, is_pending, User,
  Membership, Invitation, InvitationStatus, Store, Fresh, is_member,
}
use deployguardai.Workspace.Invitations.{
  is_open, is_email_member, granted_role, InvitedRole, as_admin, as_responder, as_viewer,
  create_invitation,
}
use deployguardai.Workspace.Once.{create_invitation-passes, create_invitation-adds}

-- A pending invitation of the email to the workspace, not over.
abbrev pub IsOpen : (workspace_id email : String) (now : ℕ) → Invitation → Type 0
IsOpen w email now i =
    (i.workspace_id ≡ w) × (i.email ≡ email) × (i.status ≡ pending) × (now < i.expires_at)

abbrev pub IsMember : (workspace_id user_id : String) → Membership → Type 0
IsMember w u m = (m.workspace_id ≡ w) × (m.user_id ≡ u)

-- The caller may invite to the role: an owner to every one, an admin to all but that of an admin.
abbrev pub MayInvite : InvitedRole → Role → Type 0
MayInvite as_admin caller = caller ≡ owner
MayInvite _ caller = (caller ≡ admin) ⊎ (caller ≡ owner)

-- The first user with the email, if there is one, has no membership of the workspace.
abbrev pub IsNewcomer : (workspace_id email : String) → Store → Type 0
IsNewcomer w email s =
    (x : User)
    → first (λ (u : User). str_eq u.email email) s.users ≡ some x
    → All (λ m. ¬ IsMember w x.id m) s.memberships

-- What is written: one pending invitation of the email to the workspace, until `ttl` from now on.
abbrev pub Invites :
    (now : ℕ) (workspace_id email : String) → Role → (ttl : ℕ) → (s s' : Store) → Type 0
Invites now w email role ttl s s' =
    (i : Invitation) × (s'.invitations ≡ s.invitations ++ i ∷ [])
    × (i.workspace_id ≡ w)
    × (i.email ≡ email)
    × (i.status ≡ pending)
    × (i.expires_at ≡ now + ttl)
    × (i.role ≡ role)
    × (s'.memberships ≡ s.memberships)

IsMember-is_member : (w u : String) (m : Membership) → IsMember w u m → is_member w u m ≡ true
IsMember-is_member w u m (a, b) = ground (arith, eq_iff m.workspace_id w, eq_iff m.user_id u)

is_member-IsMember : (w u : String) (m : Membership) → is_member w u m ≡ true → IsMember w u m
is_member-IsMember w u m e =
    ((eq_iff m.workspace_id w).0 (ground arith), (eq_iff m.user_id u).0 (ground arith))

status-is_pending : (x : InvitationStatus) → x ≡ pending → is_pending x ≡ true
status-is_pending x e = rw e refl

IsOpen-is_open :
    (w email : String) (now : ℕ) (i : Invitation)
    → IsOpen w email now i
    → is_open w email now i ≡ true
IsOpen-is_open w email now i (a, b, p, late) =
    ground (arith, eq_iff i.workspace_id w, eq_iff i.email email, status-is_pending i.status p)

-- A query that finds nothing.
none-All {ℓ} :
    {A : Type 0} (P : A → Type ℓ) (p : A → Bool)
    → ((x : A) → P x → p x ≡ true)
    → (xs : List A) → is_some (first p xs) ≡ false
    → All (λ x. ¬ P x) xs
unfolding first
none-All P p test [] h = tt
none-All P p test (x ∷ xs) h = elim (Bool-cases (p x)) [
  | inl e ↦ cc (rw e at h)
  | inr e ↦ ((λ q. cc (e, test x q)), none-All P p test xs (rw e at h))
]

is_email_member-IsNewcomer :
    (w email : String) (s : Store) → is_email_member email w s ≡ false → IsNewcomer w email s
unfolding is_email_member
is_email_member-IsNewcomer w email s h x e =
    none-All (IsMember w x.id) (is_member w x.id) (IsMember-is_member w x.id) s.memberships
      (rw (e, is_email_member) at h)

above_admin : (x : Role) → 30 ≤ role_level x → (x ≡ admin) ⊎ (x ≡ owner)
unfolding role_level
above_admin viewer h = absurd (omega (arith, h))
above_admin responder h = absurd (omega (arith, h))
above_admin admin h = inl refl
above_admin owner h = inr refl

is_owner-owner : (x : Role) → is_owner x ≡ true → x ≡ owner
is_owner-owner viewer h = cc
is_owner-owner responder h = cc
is_owner-owner admin h = cc
is_owner-owner owner h = refl

may_invite :
    (role : InvitedRole) (caller : Role)
    → 30 ≤ role_level caller
    → (is_admin (granted_role role) ≡ false) ⊎ (is_owner caller ≡ true)
    → MayInvite role caller
unfolding granted_role
may_invite as_admin caller h (inl plain) = cc
may_invite as_admin caller h (inr own) = is_owner-owner caller own
may_invite as_responder caller h _ = above_admin caller h
may_invite as_viewer caller h _ = above_admin caller h

-- Where `create_invitation` returns, the caller, whose membership of the workspace it reads, is the
-- owner or an admin, and the owner where it invites an admin; the first user with the email, if there
-- is one, has no membership of the workspace; and no invitation of the email to it was pending and not
-- over. Behind the call there is one invitation more, pending, with the email, the role and the given
-- time, and the memberships are as they were.
pub create_invitation-Allowed :
    (d : Fresh) (u : User) (w email : String) (role : InvitedRole) (hash request : String) (ttl : ℕ)
    (s s' : Store) (i : Invitation)
    → create_invitation d u w email role hash request ttl s ≡ returns (i, s')
    → ((caller : Membership) × (first (is_member w u.id) s.memberships ≡ some caller)
        × IsMember w u.id caller
        × MayInvite role caller.role)
      × IsNewcomer w email s
      × All (λ x. ¬ IsOpen w email d.now x) s.invitations
      × Invites d.now w email (granted_role role) ttl s s'
create_invitation-Allowed d u w email role hash request ttl s s' i h =
    let (caller, found, level, right, member, free) =
      create_invitation-passes d u w email role hash request ttl s s' i h in
    let (added, members, _) = create_invitation-adds d u w email role hash request ttl s h in
    let self = is_member-IsMember w u.id caller (first-passes _ s.memberships found) in
    (
      (caller, found, self, may_invite role caller.role level right),
      is_email_member-IsNewcomer w email s member,
      none-All (IsOpen w email d.now) (is_open w email d.now) (IsOpen-is_open w email d.now)
          s.invitations free,
      (_, added, refl, refl, refl, refl, refl, members),
    )
