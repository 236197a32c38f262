-- ===== src/Tunnels/Context.antt =====
-- tunnel-context.ts and tunnel.types.ts: who owns a tunnel, and what is stored of it.
use looplink.Base.{ℕ, Bool, true, false, Option, none, some, ◌&&◌, ◌≡◌, arith, ◌↔◌, if◌then◌else◌}
use looplink.Text.{Text, trim, is_empty, ◌===◌}

pub data OwnershipKind : Type 0 where
  anonymous workspace : OwnershipKind

pub record TunnelOwnership : Type 0 where
  pub kind : OwnershipKind
  pub id : Text

abbrev pub same_kind : OwnershipKind → OwnershipKind → Bool
same_kind anonymous anonymous = true
same_kind workspace workspace = true
same_kind _ _ = false

-- `none` is the error on a blank id.
unfoldable pub create_anonymous_tunnel_context : Text → Option TunnelOwnership
create_anonymous_tunnel_context session_id =
    let id = trim session_id in
    if is_empty id then none else some (record { kind = anonymous; id = id })

unfoldable pub create_workspace_tunnel_context : Text → Option TunnelOwnership
create_workspace_tunnel_context workspace_id =
    let id = trim workspace_id in
    if is_empty id then none else some (record { kind = workspace; id = id })

abbrev pub id_if : Bool → Text → Option Text
id_if true id = some id
id_if false id = none

unfoldable pub context_workspace_id : TunnelOwnership → Option Text
context_workspace_id o = id_if (same_kind o.kind workspace) o.id

unfoldable pub context_anonymous_session_id : TunnelOwnership → Option Text
context_anonymous_session_id o = id_if (same_kind o.kind anonymous) o.id

unfoldable pub tunnel_contexts_equal : TunnelOwnership → TunnelOwnership → Bool
tunnel_contexts_equal a b = same_kind a.kind b.kind && a.id === b.id

-- A socket is a number.
pub record TunnelRecord : Type 0 where
  pub id : Text
  pub client : ℕ
  pub port : ℕ
  pub context : TunnelOwnership
  pub workspace_id : Option Text
  pub anonymous_session_id : Option Text
  pub owner_user_id : Option Text

pub record OrphanedTunnel : Type 0 where
  pub id : Text
  pub port : ℕ
  pub disconnected_at : ℕ
  pub context : TunnelOwnership
  pub workspace_id : Option Text
  pub anonymous_session_id : Option Text
  pub owner_user_id : Option Text

pub record CreatedTunnel : Type 0 where
  pub tunnel : TunnelRecord
  pub public_url : Text
  pub restored : Bool

-- The comparison decides equality of owners.
pub tunnel_contexts_equal_iff :
    (a b : TunnelOwnership) → (tunnel_contexts_equal a b ≡ true) ↔ (a ≡ b)
unfolding tunnel_contexts_equal
tunnel_contexts_equal_iff a b = (λ h. ground arith, λ h. ground arith)
