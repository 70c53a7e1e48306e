-- ===== src/Workspace/Samples.antt =====
-- A workspace with its owner and one open invitation.
use deployguardai.Prelude.{true, none, [], ◌∷◌}
use deployguardai.Workspace.Store.{
  responder, owner, pending, User, Workspace, Membership, Invitation, Store, Fresh,
}

abbrev pub ann : User
ann = record { id = "u1"; email = "ann@example.com"; is_active = true }

abbrev pub bob : User
bob = record { id = "u2"; email = "bob@example.com"; is_active = true }

abbrev pub payments : Workspace
payments = record {
  id = "w1";
  name = "Payments";
  slug = "payments";
  created_by = "u1";
  created_at = 1;
}

abbrev pub ann_member : Membership
ann_member = record { id = "m1"; workspace_id = "w1"; user_id = "u1"; role = owner; joined_at = 1 }

abbrev pub bob_invited : Invitation
bob_invited = record {
  id = "i1";
  workspace_id = "w1";
  email = "bob@example.com";
  role = responder;
  token_hash = "h1";
  status = pending;
  invited_by = "u1";
  created_at = 2;
  expires_at = 100;
  accepted_at = none;
  revoked_at = none;
}

abbrev pub sample_store : Store
sample_store = record {
  users = ann ∷ bob ∷ [];
  workspaces = payments ∷ [];
  memberships = ann_member ∷ [];
  invitations = bob_invited ∷ [];
  tokens = [];
  contexts = [];
  events = [];
}

abbrev pub sample_draw : Fresh
sample_draw = record { now = 10; fresh_id = "x1"; second_id = "x2" }
