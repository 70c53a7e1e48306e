-- ===== src/Workspace/Governed.antt =====
-- Who may be an owner or an admin, and who may have invited an admin.
use Prim.Native.String.{String}
use text.Mathlib.Text.{◌==◌ as str_eq}
use mathlib.Core.Bool.{true≢false}
use deployguardai.Prelude.{
  ◌≡◌, refl, sym, ◌∙◌, Bool, true, false, ◌&&◌, List, ◌++◌, inl, inr, Bool-cases, first,
  update_where, is_some, All, All-append, All-weaken, All-update_where, first-append,
  is_some-update_where,
}
use deployguardai.Workspace.Store.{
  is_owner, is_admin, User, Workspace, Membership, Invitation, Store, Fresh, is_member,
}
use deployguardai.Workspace.Invitations.{
  InvitedRole, as_viewer, as_responder, as_admin, granted_role, ensure_member,
}

abbrev pub is_creator : Membership → Workspace → Bool
is_creator m w = str_eq w.id m.workspace_id && str_eq w.created_by m.user_id

abbrev pub is_owner_of : (workspace_id user_id : String) → Membership → Bool
is_owner_of w u m = is_member w u m && is_owner m.role

abbrev pub is_admin_invitation : (workspace_id : String) → Invitation → Bool
is_admin_invitation w i = str_eq i.workspace_id w && is_admin i.role

-- An owner has created the workspace, and an admin has an admin invitation to it.
pub record IsGranted (ws : List Workspace) (is : List Invitation) (m : Membership) : Type 0 where
  pub by_creation : is_owner m.role ≡ true → is_some (first (is_creator m) ws) ≡ true
  pub by_invitation :
      is_admin m.role ≡ true → is_some (first (is_admin_invitation m.workspace_id) is) ≡ true

-- Nobody is invited as an owner, and whoever invites an admin is an owner of the workspace.
pub record IsEntitled (ms : List Membership) (i : Invitation) : Type 0 where
  pub no_owner : is_owner i.role ≡ false
  pub by_owner :
      is_admin i.role ≡ true → is_some (first (is_owner_of i.workspace_id i.invited_by) ms) ≡ true

pub record AreGoverned (ws : List Workspace) (is : List Invitation) (ms : List Membership)
    : Type 0 where
  pub granted : All (IsGranted ws is) ms
  pub entitled : All (IsEntitled ms) is

abbrev pub IsGoverned : Store → Type 0
IsGoverned s = AreGoverned s.workspaces s.invitations s.memberships

module _ (ms new : List Membership) where
  pub IsEntitled-append : (i : Invitation) → IsEntitled ms i → IsEntitled (ms ++ new) i
  IsEntitled-append i e = record {
    no_owner = e.no_owner;
    by_owner = λ a. first-append (is_owner_of i.workspace_id i.invited_by) ms new (e.by_owner a);
  }

module _ (ws : List Workspace) (is : List Invitation) (m : Membership) (g : IsGranted ws is m) where
  pub IsGranted-workspace : (new : List Workspace) → IsGranted (ws ++ new) is m
  IsGranted-workspace new = record {
    by_creation = λ o. first-append (is_creator m) ws new (g.by_creation o);
    by_invitation = g.by_invitation;
  }

  pub IsGranted-invitation : (new : List Invitation) → IsGranted ws (is ++ new) m
  IsGranted-invitation new = record {
    by_creation = g.by_creation;
    by_invitation =
        λ a. first-append (is_admin_invitation m.workspace_id) is new (g.by_invitation a);
  }

  IsGranted-update_where :
      (p : Invitation → Bool) (f : Invitation → Invitation)
      → ((x : Invitation)
          → is_admin_invitation m.workspace_id (f x) ≡ is_admin_invitation m.workspace_id x)
      → IsGranted ws (update_where p f is) m
  IsGranted-update_where p f keep = record {
    by_creation = g.by_creation;
    by_invitation = λ a.
        is_some-update_where (is_admin_invitation m.workspace_id) p f is keep (g.by_invitation a);
  }

pub AreGoverned-move :
    {ws ws' : List Workspace} {is is' : List Invitation} {ms ms' : List Membership}
    → is' ≡ is
    → ms' ≡ ms
    → ws' ≡ ws
    → AreGoverned ws is ms
    → AreGoverned ws' is' ms'
AreGoverned-move a b c g = rw (a, b, c) g

pub granted_role-no_owner : (role : InvitedRole) → is_owner (granted_role role) ≡ false
unfolding granted_role
granted_role-no_owner as_viewer = refl
granted_role-no_owner as_responder = refl
granted_role-no_owner as_admin = refl

-- A change of invitations that leaves their workspace and role alone.
pub marked-AreGoverned :
    (ws : List Workspace) (ms : List Membership) (p : Invitation → Bool)
    (f : Invitation → Invitation)
    → ((w : String) (x : Invitation) → is_admin_invitation w (f x) ≡ is_admin_invitation w x)
    → ((x : Invitation) → IsEntitled ms x → IsEntitled ms (f x))
    → (is : List Invitation) → AreGoverned ws is ms
    → AreGoverned ws (update_where p f is) ms
marked-AreGoverned ws ms p f keep still is g = record {
  granted =
      All-weaken _ _ ms (λ m h. IsGranted-update_where ws is m h p f (keep m.workspace_id))
        g.granted;
  entitled = All-update_where _ p f is still g.entitled;
}

-- The membership that an acceptance adds, where it adds one.
pub ensure_member-AreGoverned :
    (ws : List Workspace) (is : List Invitation) (ms : List Membership) (d : Fresh) (u : User)
    (i : Invitation)
    → AreGoverned ws is ms
    → IsEntitled ms i
    → (is_admin i.role ≡ true → is_some (first (is_admin_invitation i.workspace_id) is) ≡ true)
    → AreGoverned ws is (ensure_member d u i ms)
unfolding ensure_member
ensure_member-AreGoverned ws is ms d u i g e invited =
    elim (Bool-cases (is_some (first (is_member i.workspace_id u.id) ms))) [
      | inl there ↦ rw there g
      | inr new ↦ rw new record {
        granted = All-append _ ms _ g.granted (
          record {
            by_creation = λ o. absurd (true≢false (sym o ∙ e.no_owner));
            by_invitation = invited;
          },
          tt,
        );
        entitled = All-weaken _ _ is (λ x h. IsEntitled-append ms _ x h) g.entitled;
      }
    ]
