-- ===== src/Workspace/Roles.antt =====
-- Where owners and admins come from, whatever is called in whatever order.
use Prim.Native.String.{String}
use text.Mathlib.Text.{◌==◌ as str_eq}
use deployguardai.Prelude.{ℕ, Bool, List, [], ◌∷◌, Outcome, returns, raises}
use deployguardai.Workspace.Store.{User, Workspace, Store, Fresh}
use deployguardai.Workspace.Access.{create_workspace, create_development_session}
use deployguardai.Workspace.Invitations.{
  InvitedRole, create_invitation, revoke_invitation, accept_invitation,
}

-- A call, with the user that makes it.
pub data Call : Type 0 where
  sign_in : Fresh → (email hash : String) (ttl : ℕ) → Call
  create : (lower : String → String) → Fresh → User → (name slug request_id : String) → Call
  invite :
      Fresh
      → User
      → (workspace_id email : String) → InvitedRole
      → (hash request_id : String) (ttl : ℕ) → Call
  revoke : (now : ℕ) → User → (workspace_id invitation_id request_id : String) → Call
  accept : Fresh → User → (hash request_id : String) → Call

-- The rows behind a call: a call that raises commits nothing.
abbrev pub committed {ℓ κ} : {E : Type ℓ} {A : Type κ} → Store → Outcome E (A × Store) → Store
committed s (returns r) = r.1
committed s (raises _) = s

unfoldable pub perform : Call → Store → Store
perform (sign_in d email hash ttl) s = committed s (create_development_session d email hash ttl s)
perform (create lower d u name slug request) s =
    committed s (create_workspace lower d u name slug request s)
perform (invite d u w email role hash request ttl) s =
    committed s (create_invitation d u w email role hash request ttl s)
perform (revoke now u w i request) s = committed s (revoke_invitation now u w i request s)
perform (accept d u hash request) s = committed s (accept_invitation d u hash request s)

unfoldable pub perform_all : List Call → Store → Store
perform_all [] s = s
perform_all (c ∷ cs) s = perform_all cs (perform c s)
