-- ===== src/Access.antt =====
-- workspace-context.service.ts and permission.service.ts: which workspace an account acts in, and
-- with which permissions. The memberships and the workspaces that the database holds are arguments.
pub mod Laws
use looplink.Base.{
  Bool, true, false, not, ◌&&◌, Option, none, some, List, [], ◌∷◌, keep, if◌then◌else◌,
}
use looplink.Text.{Text, codes, trim, is_empty, ◌===◌}
use looplink.Workspaces.{
  WorkspaceRole, WorkspacePermission, developer, role_has_permission, api_key_permissions, read,
  update_settings, invite, manage_members, manage_api_keys, delete_workspace, create_tunnel,
  inspect, replay, has,
}

pub data AuthMethod : Type 0 where
  jwt api_key : AuthMethod

pub record AuthUser : Type 0 where
  pub id : Text
  pub email : Option Text
  pub auth_method : Option AuthMethod
  pub workspace_id : Option Text
  pub api_key_id : Option Text

pub data MembershipStatus : Type 0 where
  active invited suspended left : MembershipStatus

pub record Workspace : Type 0 where
  pub id : Text
  pub is_personal : Bool

pub record Membership : Type 0 where
  pub id : Text
  pub workspace : Workspace
  pub role : WorkspaceRole
  pub status : Option MembershipStatus

pub record RequestContext : Type 0 where
  pub account_id : Text
  pub account_email : Option Text
  pub auth_method : AuthMethod
  pub workspace_id : Text
  pub membership_id : Option Text
  pub role : WorkspaceRole
  pub permissions : List WorkspacePermission
  pub api_key_id : Option Text

-- An answer, or the error that is thrown, with its message.
pub data Outcome (A : Type 0) : Type 0 where
  answer : A → Outcome A
  failure : Text → Outcome A

abbrev all_permissions : List WorkspacePermission
all_permissions =
    read ∷ update_settings ∷ invite ∷ manage_members ∷ manage_api_keys ∷ delete_workspace
    ∷ create_tunnel ∷ inspect ∷ replay ∷ []

unfoldable pub permissions_for_role : WorkspaceRole → List WorkspacePermission
unfolding role_has_permission
permissions_for_role role = keep (role_has_permission role) all_permissions

unfoldable pub permissions_for_api_key : List WorkspacePermission
permissions_for_api_key = api_key_permissions

unfoldable pub can : RequestContext → WorkspacePermission → Bool
unfolding has
can context permission = has permission context.permissions

abbrev pub or_jwt : Option AuthMethod → AuthMethod
or_jwt none = jwt
or_jwt (some method) = method

unfoldable pub build_request_context :
    AuthUser
    → (workspace_id : Text) (membership_id : Option Text) → WorkspaceRole
    → (api_key_permissions : Bool) → RequestContext
unfolding permissions_for_role permissions_for_api_key
build_request_context account workspace_id membership_id role api_key_permissions = record {
  account_id = account.id;
  account_email = account.email;
  auth_method = or_jwt account.auth_method;
  workspace_id = workspace_id;
  membership_id = membership_id;
  role = role;
  permissions = if api_key_permissions then permissions_for_api_key else permissions_for_role role;
  api_key_id = account.api_key_id;
}

abbrev pub is_active : Option MembershipStatus → Bool
is_active none = true
is_active (some active) = true
is_active (some invited) = false
is_active (some suspended) = false
is_active (some left) = false

-- `find`
abbrev pub find : (Membership → Bool) → List Membership → Option Membership
find p [] = none
find p (m ∷ ms) = let rest = find p ms in if p m then some m else rest

abbrev pub first : List Membership → Option Membership
first [] = none
first (m ∷ ms) = some m

abbrev pub or_first : List Membership → Option Membership → Option Membership
or_first ms none = first ms
or_first ms (some m) = some m

abbrev pub requested : Option Text → Text
requested none = []
requested (some id) = trim id

abbrev pub chosen : Text → Option Membership → Outcome Membership
chosen message none = failure message
chosen message (some m) = answer m

-- The membership to act with: the one that was asked for, or the personal one, or the first.
unfoldable pub select : List Membership → Text → Outcome Membership
select [] wanted = failure (codes "No workspaces found for current account.")
select (m ∷ ms) wanted =
    if is_empty wanted
    then chosen (codes "No workspaces found for current account.")
        (or_first (m ∷ ms) (find (λ x. x.workspace.is_personal) (m ∷ ms)))
    else chosen (codes "Workspace not found for current account.")
        (find (λ x. x.workspace.id === wanted) (m ∷ ms))

unfoldable pub member_context : AuthUser → Outcome Membership → Outcome RequestContext
unfolding build_request_context
member_context account (failure message) = failure message
member_context account (answer m) =
    answer (build_request_context account m.workspace.id (some m.id) m.role false)

unfoldable pub key_context : AuthUser → Option Workspace → Outcome RequestContext
unfolding build_request_context
key_context account none = failure (codes "Workspace not found for API key.")
key_context account (some workspace) =
    answer (build_request_context account workspace.id none developer true)

abbrev pub differs : Option Text → Text → Bool
differs none id = false
differs (some wanted) id = not (is_empty wanted) && not (wanted === id)

module _ (memberships : Text → List Membership) (find_workspace : Text → Option Workspace) where
  unfoldable pub resolve_api_key_context : AuthUser → Text → Option Text → Outcome RequestContext
  unfolding key_context
  resolve_api_key_context account workspace_id wanted =
      if differs wanted workspace_id
      then failure (codes "Workspace not found for current credentials.")
      else key_context account (find_workspace workspace_id)

  unfoldable pub resolve_member : AuthUser → Option Text → Outcome RequestContext
  unfolding select member_context
  resolve_member account wanted =
      member_context account
        (select (keep (λ m. is_active m.status) (memberships account.id)) (requested wanted))

  unfoldable pub resolve_by :
      AuthUser → Option AuthMethod → Option Text → Option Text → Outcome RequestContext
  unfolding resolve_api_key_context resolve_member
  resolve_by account (some api_key) (some (c ∷ id)) wanted =
      resolve_api_key_context account (c ∷ id) wanted
  resolve_by account method id wanted = resolve_member account wanted

  -- `resolve`
  unfoldable pub resolve_workspace : AuthUser → Option Text → Outcome RequestContext
  unfolding resolve_by
  resolve_workspace account wanted =
      resolve_by account account.auth_method account.workspace_id wanted
