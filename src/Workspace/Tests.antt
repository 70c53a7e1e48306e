-- ===== src/Workspace/Tests.antt =====
-- The theorems on workspaces at a sample store.
use deployguardai.Prelude.{
  All, ◌≡◌, ◌<◌, ◌⊎◌, refl, true, some, List, [], ◌∷◌, returns, raises, first,
}
use deployguardai.Workspace.Store.{
  responder, is_pending, role_level, revoked, Membership, Invitation, Store, invalid_invitation,
  is_member,
}
use deployguardai.Workspace.Access.{membership_for}
use deployguardai.Workspace.Invitations.{
  as_admin, granted_role, is_of, accept_found, revoke_found, invitation_summary, is_email_member,
  shown, has_hash, joined, new_invitation, create_invitation, revoke_invitation, accept_invitation,
}
use deployguardai.Workspace.Once.{
  accept_invitation_once, revoke_invitation_final, accept_invitation-Joins,
}
use deployguardai.Workspace.Invited.{
  IsOpen, IsMember, MayInvite, IsNewcomer, Invites, create_invitation-Allowed,
}
use deployguardai.Workspace.Roles.{Call, invite, accept, committed}
use deployguardai.Workspace.Samples.{ann, bob, bob_invited, sample_store, sample_draw}

-- The rows behind the acceptance by bob.
abbrev joined_store : Store
joined_store = committed sample_store (accept_invitation sample_draw bob "h1" "r1" sample_store)

abbrev revoked_store : Store
revoked_store = committed sample_store (revoke_invitation 10 ann "w1" "i1" "r1" sample_store)

-- bob is a member behind the acceptance, and the invitation is revoked behind the revocation.
accepted_runs :
    accept_invitation sample_draw bob "h1" "r1" sample_store
    ≡ returns (joined sample_draw bob bob_invited, joined_store)
unfolding accept_invitation first accept_found
accepted_runs = refl

revoked_runs :
    revoke_invitation 10 ann "w1" "i1" "r1" sample_store ≡ returns (shown revoked, revoked_store)
unfolding revoke_invitation first membership_for role_level revoke_found invitation_summary
revoked_runs = refl

accept_invitation_once_example :
    accept_invitation sample_draw ann "h1" "r2" joined_store ≡ raises invalid_invitation
accept_invitation_once_example =
    accept_invitation_once sample_draw sample_draw bob ann "h1" "r1" "r2" sample_store joined_store
      (joined sample_draw bob bob_invited) accepted_runs

found_invitation : first (is_of "i1" "w1") sample_store.invitations ≡ some bob_invited
unfolding first
found_invitation = refl

found_token : first (has_hash "h1") sample_store.invitations ≡ some bob_invited
unfolding first
found_token = refl

revoke_invitation_final_example :
    accept_invitation sample_draw bob "h1" "r2" revoked_store ≡ raises invalid_invitation
revoke_invitation_final_example =
    revoke_invitation_final 10 sample_draw ann bob "w1" "i1" "h1" "r1" "r2" sample_store
      revoked_store bob_invited (shown revoked) found_invitation found_token revoked_runs

accept_invitation-Joins_example :
    (i : Invitation) × (first (has_hash "h1") sample_store.invitations ≡ some i)
    × (is_pending i.status ≡ true)
    × (10 < i.expires_at)
    × (i.email ≡ bob.email)
    × (first (is_member i.workspace_id "u2") joined_store.memberships
        ≡ some (joined sample_draw bob bob_invited))
    × ((first (is_member i.workspace_id "u2") sample_store.memberships
          ≡ some (joined sample_draw bob bob_invited))
        ⊎ (responder ≡ i.role))
accept_invitation-Joins_example =
    accept_invitation-Joins sample_draw bob "h1" "r1" sample_store joined_store
      (joined sample_draw bob bob_invited) accepted_runs

abbrev cat_invited : Invitation
cat_invited = new_invitation sample_draw "u1" "w1" "cat@example.com" (granted_role as_admin) "h2" 50

invited_runs :
    create_invitation sample_draw ann "w1" "cat@example.com" as_admin "h2" "r3" 50 sample_store
    ≡ returns (
      cat_invited,
      committed sample_store (
          create_invitation sample_draw ann "w1" "cat@example.com" as_admin "h2" "r3" 50
            sample_store),
    )
unfolding create_invitation first membership_for role_level granted_role is_email_member
invited_runs = refl

create_invitation-Allowed_example :
    let s' = committed sample_store (
      create_invitation sample_draw ann "w1" "cat@example.com" as_admin "h2" "r3" 50
        sample_store) in
    ((caller : Membership) × (first (is_member "w1" "u1") sample_store.memberships ≡ some caller)
      × IsMember "w1" "u1" caller
      × MayInvite as_admin caller.role)
    × IsNewcomer "w1" "cat@example.com" sample_store
    × All (λ x. ¬ IsOpen "w1" "cat@example.com" 10 x) sample_store.invitations
    × Invites 10 "w1" "cat@example.com" (granted_role as_admin) 50 sample_store s'
create_invitation-Allowed_example =
    create_invitation-Allowed sample_draw ann "w1" "cat@example.com" as_admin "h2" "r3" 50
      sample_store _ cat_invited invited_runs

abbrev sample_calls : List Call
sample_calls =
    invite sample_draw ann "w1" "cat@example.com" as_admin "h2" "r3" 50
    ∷ accept sample_draw bob "h1" "r1"
    ∷ []
