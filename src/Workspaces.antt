-- ===== src/Workspaces.antt =====
-- workspace.permissions.ts: what the roles of a workspace and its API keys may do.
pub mod Laws
use looplink.Base.{Bool, true, false, if◌then◌else◌, List, [], ◌∷◌}

pub data WorkspaceRole : Type 0 where
  owner admin developer viewer : WorkspaceRole

pub data WorkspacePermission : Type 0 where
  read update_settings invite manage_members manage_api_keys delete_workspace : WorkspacePermission
  create_tunnel inspect replay : WorkspacePermission

abbrev pub role_permissions : WorkspaceRole → List WorkspacePermission
role_permissions owner =
    read ∷ update_settings ∷ invite ∷ manage_members ∷ manage_api_keys ∷ delete_workspace
    ∷ create_tunnel ∷ inspect ∷ replay ∷ []
role_permissions admin =
    read ∷ update_settings ∷ invite ∷ manage_members ∷ manage_api_keys ∷ create_tunnel ∷ inspect
    ∷ replay ∷ []
role_permissions developer = read ∷ create_tunnel ∷ inspect ∷ replay ∷ []
role_permissions viewer = read ∷ inspect ∷ []

abbrev pub api_key_permissions : List WorkspacePermission
api_key_permissions = read ∷ create_tunnel ∷ inspect ∷ replay ∷ []

abbrev pub same : WorkspacePermission → WorkspacePermission → Bool
same read read = true
same update_settings update_settings = true
same invite invite = true
same manage_members manage_members = true
same manage_api_keys manage_api_keys = true
same delete_workspace delete_workspace = true
same create_tunnel create_tunnel = true
same inspect inspect = true
same replay replay = true
same _ _ = false

-- `Set.prototype.has`
unfoldable pub has : WorkspacePermission → List WorkspacePermission → Bool
has p [] = false
has p (q ∷ qs) = let rest = has p qs in if same p q then true else rest

unfoldable pub role_has_permission : WorkspaceRole → WorkspacePermission → Bool
unfolding has
role_has_permission role permission = has permission (role_permissions role)

unfoldable pub api_key_has_permission : WorkspacePermission → Bool
unfolding has
api_key_has_permission permission = has permission api_key_permissions
