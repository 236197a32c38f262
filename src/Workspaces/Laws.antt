-- ===== src/Workspaces/Laws.antt =====
-- How the roles and the API keys compare.
use looplink.Base.{◌≡◌, refl, true, arith}
use looplink.Workspaces.{
  WorkspaceRole, owner, admin, developer, viewer, WorkspacePermission, read, update_settings,
  invite, manage_members, manage_api_keys, delete_workspace, create_tunnel, inspect, replay, has,
  role_has_permission,
}

-- Whether the first role stands at or above the second one.
data AtLeast : WorkspaceRole → WorkspaceRole → Type 0 where
  equal : (r : WorkspaceRole) → AtLeast r r
  owner_admin : AtLeast owner admin
  admin_developer : AtLeast admin developer
  developer_viewer : AtLeast developer viewer
  through : (r s t : WorkspaceRole) → AtLeast r s → AtLeast s t → AtLeast r t

owner_may : (p : WorkspacePermission) → role_has_permission owner p ≡ true
unfolding role_has_permission has
owner_may read = refl
owner_may update_settings = refl
owner_may invite = refl
owner_may manage_members = refl
owner_may manage_api_keys = refl
owner_may delete_workspace = refl
owner_may create_tunnel = refl
owner_may inspect = refl
owner_may replay = refl

admin_may :
    (p : WorkspacePermission)
    → role_has_permission developer p ≡ true
    → role_has_permission admin p ≡ true
unfolding role_has_permission has
admin_may read h = ground arith
admin_may update_settings h = ground arith
admin_may invite h = ground arith
admin_may manage_members h = ground arith
admin_may manage_api_keys h = ground arith
admin_may delete_workspace h = ground arith
admin_may create_tunnel h = ground arith
admin_may inspect h = ground arith
admin_may replay h = ground arith

developer_may :
    (p : WorkspacePermission)
    → role_has_permission viewer p ≡ true
    → role_has_permission developer p ≡ true
unfolding role_has_permission has
developer_may read h = ground arith
developer_may update_settings h = ground arith
developer_may invite h = ground arith
developer_may manage_members h = ground arith
developer_may manage_api_keys h = ground arith
developer_may delete_workspace h = ground arith
developer_may create_tunnel h = ground arith
developer_may inspect h = ground arith
developer_may replay h = ground arith

-- A role has every permission of the roles below it: the owner those of the admin, the admin those
-- of the developer, the developer those of the viewer.
role_has_permission-AtLeast :
    (r s : WorkspaceRole)
    → AtLeast r s
    → (p : WorkspacePermission) → role_has_permission s p ≡ true
    → role_has_permission r p ≡ true
role_has_permission-AtLeast r s (equal t) p h = h
role_has_permission-AtLeast r s owner_admin p h = owner_may p
role_has_permission-AtLeast r s admin_developer p h = admin_may p h
role_has_permission-AtLeast r s developer_viewer p h = developer_may p h
role_has_permission-AtLeast r s (through a b c k l) p h =
    role_has_permission-AtLeast a b k p (role_has_permission-AtLeast b c l p h)
