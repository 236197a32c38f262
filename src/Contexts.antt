-- ===== src/Contexts.antt =====
-- context/: the execution contexts, the context that services see, and its binding to sockets.
-- A fresh id and the time are arguments. An object's metadata is a map of its keys.
pub mod Resolver
pub mod Laws
use looplink.Base.{
  ℕ, Bool, true, false, Option, none, some, List, [], ◌∷◌, is_some, length, if◌then◌else◌,
}
use looplink.JsMap
use looplink.JsMap.{JsMap, nat_key}
use looplink.Text.{Text, codes, trim, is_empty, text_key}
use looplink.Tunnels.Context.{
  TunnelOwnership, create_anonymous_tunnel_context, create_workspace_tunnel_context,
}
use looplink.Workspaces
use looplink.Workspaces.{WorkspaceRole, WorkspacePermission, owner, admin, developer, viewer}

pub data ContextType : Type 0 where
  anonymous workspace api_key service_account ci_pipeline guest : ContextType

pub data MetaValue : Type 0 where
  string : Text → MetaValue
  number : ℕ → MetaValue
  boolean : Bool → MetaValue
  null : MetaValue

abbrev pub Metadata : Type 0
Metadata = JsMap Text MetaValue

-- `{ ...a, ...b }`
unfoldable pub assign : Metadata → Metadata → Metadata
assign a [] = a
assign a ((key, value) ∷ b) = assign (JsMap.set key value a) b

pub record AnonymousContext : Type 0 where
  pub context_id : Text
  pub anonymous_session_id : Text
  pub created_at : ℕ
  pub expires_at : ℕ
  pub tunnel_id : Option Text
  pub metadata : Metadata

pub record WorkspaceContext : Type 0 where
  pub context_id : Text
  pub account_id : Text
  pub workspace_id : Text
  pub membership_id : Option Text
  pub role : WorkspaceRole
  pub permissions : List WorkspacePermission
  pub created_at : ℕ
  pub tunnel_id : Option Text
  pub metadata : Metadata

pub data ExecutionContext : Type 0 where
  of_anonymous : AnonymousContext → ExecutionContext
  of_workspace : WorkspaceContext → ExecutionContext

pub record TunnelContext : Type 0 where
  pub context_id : Text
  pub context_type : ContextType
  pub tunnel_id : Option Text
  pub workspace_id : Option Text
  pub anonymous_session_id : Option Text
  pub permissions : List WorkspacePermission
  pub metadata : Metadata

unfoldable pub context_has_permission : TunnelContext → WorkspacePermission → Bool
context_has_permission context permission = Workspaces.has permission context.permissions

abbrev role_name : WorkspaceRole → Text
role_name owner = codes "owner"
role_name admin = codes "admin"
role_name developer = codes "developer"
role_name viewer = codes "viewer"

unfoldable pub create_anonymous :
    (context_id : Text) (created_at expires_at : ℕ) (anonymous_session_id : Text)
    (tunnel_id : Option Text) (metadata : Metadata)
    → AnonymousContext
unfolding assign
create_anonymous context_id created_at expires_at anonymous_session_id tunnel_id metadata = record {
  context_id = context_id;
  anonymous_session_id = trim anonymous_session_id;
  created_at = created_at;
  expires_at = expires_at;
  tunnel_id = tunnel_id;
  metadata = assign ((codes "origin", string (codes "anonymous")) ∷ []) metadata;
}

-- What an authorised principal is admitted with.
pub record Authorized : Type 0 where
  pub account_id : Text
  pub workspace_id : Text
  pub membership_id : Option Text
  pub role : WorkspaceRole
  pub permissions : List WorkspacePermission
  pub auth_method : Text
  pub api_key_id : Option Text

unfoldable pub create_workspace :
    (context_id : Text) (created_at : ℕ) (a : Authorized) (tunnel_id : Option Text)
    (metadata : Metadata)
    → WorkspaceContext
unfolding assign
create_workspace context_id created_at a tunnel_id metadata = record {
  context_id = context_id;
  account_id = a.account_id;
  workspace_id = trim a.workspace_id;
  membership_id = a.membership_id;
  role = a.role;
  permissions = a.permissions;
  created_at = created_at;
  tunnel_id = tunnel_id;
  metadata =
      assign
        ((codes "origin", string (codes "workspace"))
          ∷ (codes "role", string (role_name a.role))
          ∷ (codes "accountId", string a.account_id)
          ∷ [])
        metadata;
}

unfoldable pub to_tunnel_context : ExecutionContext → TunnelContext
to_tunnel_context (of_anonymous c) = record {
  context_id = c.context_id;
  context_type = anonymous;
  tunnel_id = c.tunnel_id;
  workspace_id = none;
  anonymous_session_id = some c.anonymous_session_id;
  permissions = Workspaces.create_tunnel ∷ [];
  metadata = c.metadata;
}
to_tunnel_context (of_workspace c) = record {
  context_id = c.context_id;
  context_type = workspace;
  tunnel_id = c.tunnel_id;
  workspace_id = some c.workspace_id;
  anonymous_session_id = none;
  permissions = c.permissions;
  metadata = c.metadata;
}

unfoldable pub with_tunnel_id : TunnelContext → Option Text → TunnelContext
with_tunnel_id context tunnel_id = record context { tunnel_id = tunnel_id }

-- The owner that a context stands for; `none` is the error that the source throws.
abbrev pub owned_by : (Text → Option TunnelOwnership) → Option Text → Option TunnelOwnership
owned_by create none = none
owned_by create (some []) = none
owned_by create (some (c ∷ cs)) = create (c ∷ cs)

abbrev pub ownership_for : ContextType → TunnelContext → Option TunnelOwnership
ownership_for anonymous context =
    owned_by create_anonymous_tunnel_context context.anonymous_session_id
ownership_for workspace context = owned_by create_workspace_tunnel_context context.workspace_id
ownership_for api_key context = none
ownership_for service_account context = none
ownership_for ci_pipeline context = none
ownership_for guest context = none

unfoldable pub to_tunnel_ownership : TunnelContext → Option TunnelOwnership
to_tunnel_ownership context = ownership_for context.context_type context

abbrev pub account_of : Option MetaValue → Option Text
account_of (some (string (c ∷ cs))) = some (c ∷ cs)
account_of _ = none

unfoldable pub ownership_account_id : TunnelContext → Option Text
ownership_account_id context = account_of (JsMap.get (codes "accountId") context.metadata)

-- `ContextSessionStore`
abbrev pub SessionStore : Type 0
SessionStore = JsMap ℕ TunnelContext

unfoldable pub bind : SessionStore → ℕ → TunnelContext → SessionStore
bind s socket context = JsMap.set socket context s

-- `none` is the error on a socket that is not bound.
unfoldable pub replace : SessionStore → ℕ → TunnelContext → Option SessionStore
replace s socket context =
    if is_some (JsMap.get socket s) then some (JsMap.set socket context s) else none

unfoldable pub bound : SessionStore → ℕ → Option TunnelContext
bound s socket = JsMap.get socket s

unfoldable pub destroy : SessionStore → ℕ → SessionStore
destroy s socket = JsMap.delete socket s

unfoldable pub size : SessionStore → ℕ
size s = length s
