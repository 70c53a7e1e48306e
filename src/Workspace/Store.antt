-- ===== src/Workspace/Store.antt =====
-- The rows that backend/app/workspace_services.py reads and writes (backend/app/models.py), and the
-- errors that it raises. The names of roles and states stand for the texts in the columns.
use Prim.Native.String.{String}
use text.Mathlib.Text.{◌==◌ as str_eq}
use deployguardai.Prelude.{ℕ, Bool, true, false, ◌&&◌, Option, List, Outcome}

pub data Role : Type 0 where
  viewer responder admin owner : Role

-- `ROLE_LEVEL`
unfoldable pub role_level : Role → ℕ
role_level viewer = 10
role_level responder = 20
role_level admin = 30
role_level owner = 40

abbrev pub is_owner : Role → Bool
is_owner owner = true
is_owner _ = false

abbrev pub is_admin : Role → Bool
is_admin admin = true
is_admin _ = false

pub data InvitationStatus : Type 0 where
  pending accepted revoked : InvitationStatus

abbrev pub is_pending : InvitationStatus → Bool
is_pending pending = true
is_pending _ = false

pub record User : Type 0 where
  pub id : String
  pub email : String
  pub is_active : Bool

pub record Workspace : Type 0 where
  pub id : String
  pub name : String
  pub slug : String
  pub created_by : String
  pub created_at : ℕ

pub record Membership : Type 0 where
  pub id : String
  pub workspace_id : String
  pub user_id : String
  pub role : Role
  pub joined_at : ℕ

pub record Invitation : Type 0 where
  pub id : String
  pub workspace_id : String
  pub email : String
  pub role : Role
  pub token_hash : String
  pub status : InvitationStatus
  pub invited_by : String
  pub created_at : ℕ
  pub expires_at : ℕ
  pub accepted_at : Option ℕ
  pub revoked_at : Option ℕ

pub record AccessToken : Type 0 where
  pub user_id : String
  pub token_hash : String
  pub created_at : ℕ
  pub expires_at : ℕ
  pub revoked_at : Option ℕ

pub record UserContext : Type 0 where
  pub user_id : String
  pub workspace_id : String
  pub repository_id : Option String
  pub updated_at : ℕ

pub record AuditEvent : Type 0 where
  pub workspace_id : String
  pub actor : Option String
  pub action : String
  pub resource_id : String
  pub request_id : String
  pub created_at : ℕ

pub record Store : Type 0 where
  pub users : List User
  pub workspaces : List Workspace
  pub memberships : List Membership
  pub invitations : List Invitation
  pub tokens : List AccessToken
  pub contexts : List UserContext
  pub events : List AuditEvent

-- `DomainError`, by its code.
pub data DomainError : Type 0 where
  invalid_access_token workspace_not_found forbidden workspace_slug_exists : DomainError
  member_already_exists invitation_already_pending invitation_not_found : DomainError
  invitation_not_pending invalid_invitation user_inactive : DomainError

-- What a call raises, or what it returns with the rows that it commits.
abbrev pub Result : Type 0 → Type 0
Result A = Outcome DomainError (A × Store)

-- What a call draws from outside: `now_utc()`, which is one time throughout, and `new_id()`.
pub record Fresh : Type 0 where
  pub now : ℕ
  pub fresh_id : String
  pub second_id : String

abbrev pub is_member : (workspace_id user_id : String) → Membership → Bool
is_member w u m = str_eq m.workspace_id w && str_eq m.user_id u

abbrev pub has_user_id : (user_id : String) → UserContext → Bool
has_user_id u c = str_eq c.user_id u
