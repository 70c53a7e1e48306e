-- ===== src/Workspace/Access.antt =====
-- `authenticate_token`, `membership_for`, `audit`, `create_development_session` and
-- `create_workspace` of backend/app/workspace_services.py. `token_digest` is an argument where a
-- token is turned into its digest.
use Prim.Native.String.{String}
use text.Mathlib.Text.{◌==◌ as str_eq}
use deployguardai.Prelude.{
  ℕ, ◌+◌, Bool, true, not, ◌&&◌, Option, none, some, List, [], ◌∷◌, ◌++◌, Outcome, returns, raises,
  ltb, if◌then◌else◌, first, is_some,
}
use deployguardai.Prelude.Texts.{strip}
use deployguardai.Workspace.Store.{
  Role, owner, role_level, User, Workspace, Membership, AccessToken, UserContext, AuditEvent, Store,
  DomainError, invalid_access_token, workspace_not_found, forbidden, workspace_slug_exists,
  user_inactive, Result, Fresh, is_member, has_user_id,
}

-- A token that is there, not revoked and not over.
abbrev pub is_live : (now : ℕ) → AccessToken → Bool
is_live now t = not (is_some t.revoked_at) && ltb now t.expires_at

-- The user behind a token, where there is one and it is active.
unfoldable pub active_user : (user_id : String) → List User → Outcome DomainError User
active_user i users = elim (first (λ (u : User). str_eq u.id i) users) [
  | none ↦ raises invalid_access_token
  | some u ↦ if u.is_active then returns u else raises invalid_access_token
]

unfoldable pub authenticate_token : (hash : String) (now : ℕ) → Store → Outcome DomainError User
authenticate_token hash now s =
    elim (first (λ (t : AccessToken). str_eq t.token_hash hash) s.tokens) [
      | none ↦ raises invalid_access_token
      | some t ↦
          if is_live now t then active_user t.user_id s.users else raises invalid_access_token
    ]

unfoldable pub membership_for :
    (user_id workspace_id : String) (minimum : Role) → Store → Outcome DomainError Membership
membership_for u w minimum s = elim (first (is_member w u) s.memberships) [
  | none ↦ raises workspace_not_found
  | some m ↦ if ltb (role_level m.role) (role_level minimum) then raises forbidden else returns m
]

unfoldable pub audit :
    (workspace_id : String) (actor : Option String) (action resource_id request_id : String)
    (now : ℕ)
    → List AuditEvent
    → List AuditEvent
audit w actor action resource request now events =
    events
    ++ record {
      workspace_id = w;
      actor = actor;
      action = action;
      resource_id = resource;
      request_id = request;
      created_at = now;
    }
      ∷ []

-- The context that is made where a user has none.
unfoldable pub ensure_context :
    (user_id workspace_id : String) (now : ℕ) → List UserContext → List UserContext
ensure_context u w now contexts =
    if is_some (first (has_user_id u) contexts)
    then contexts
    else contexts
      ++ record { user_id = u; workspace_id = w; repository_id = none; updated_at = now } ∷ []

-- The slug as it is stored; `lower` is `str.lower`.
unfoldable pub create_workspace :
    (lower : String → String)
    → Fresh
    → User
    → (name slug request_id : String) → Store
    → Result Membership
create_workspace lower d user name slug request s =
    let slug' = lower (strip slug) in
    let w : Workspace = record {
      id = d.fresh_id;
      name = strip name;
      slug = slug';
      created_by = user.id;
      created_at = d.now;
    } in
    let m : Membership = record {
      id = d.second_id;
      workspace_id = d.fresh_id;
      user_id = user.id;
      role = owner;
      joined_at = d.now;
    } in
    if is_some (first (λ (x : Workspace). str_eq x.slug slug') s.workspaces)
    then raises workspace_slug_exists
    else returns (
      m,
      record s {
        workspaces = s.workspaces ++ w ∷ [];
        memberships = s.memberships ++ m ∷ [];
        contexts = ensure_context user.id d.fresh_id d.now s.contexts;
        events =
            audit d.fresh_id (some user.id) "workspace.created" d.fresh_id request d.now s.events;
      },
    )

-- The token that `create_development_session` stores, in hours of `hour` units.
abbrev pub session_token : (user_id hash : String) (now ttl : ℕ) → AccessToken
session_token u hash now ttl = record {
  user_id = u;
  token_hash = hash;
  created_at = now;
  expires_at = now + ttl;
  revoked_at = none;
}

-- The email is normalized before; a user that is not there is made.
unfoldable pub create_development_session :
    Fresh → (email hash : String) (ttl : ℕ) → Store → Result User
create_development_session d email hash ttl s =
    elim (first (λ (u : User). str_eq u.email email) s.users) [
      | none ↦
          let u : User = record { id = d.fresh_id; email = email; is_active = true } in
          returns (
            u,
            record s {
              users = s.users ++ u ∷ [];
              tokens = s.tokens ++ session_token u.id hash d.now ttl ∷ [];
            },
          )
      | some u ↦
          if not u.is_active
          then raises user_inactive
          else returns (u, record s { tokens = s.tokens ++ session_token u.id hash d.now ttl ∷ [] })
    ]
