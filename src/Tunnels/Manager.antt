-- ===== src/Tunnels/Manager.antt =====
-- tunnel.manager.ts: creation, restoration and removal of tunnels, with what is published on the
-- event bus and written to the ownership store. A fresh id and the time are arguments; a public URL
-- is minted by the configured function of the id.
pub mod Laws
pub mod Reconnect
pub mod Others
use looplink.Base.{
  ℕ, ◌+◌, Bool, true, false, not, ◌&&◌, ◌||◌, Option, none, some, List, [], ◌∷◌, ◌++◌, map, ltb,
  leb, if◌then◌else◌,
}
use looplink.Text.{Text}
use looplink.Tunnels.Context.{
  TunnelRecord, OrphanedTunnel, TunnelOwnership, CreatedTunnel, context_workspace_id,
  context_anonymous_session_id,
}
use looplink.Tunnels.Repository
use looplink.Tunnels.Repository.{Repository}

pub data CloseReason : Type 0 where
  unregistered expired : CloseReason

pub data TunnelEvent : Type 0 where
  created : (tunnel_id public_url : Text) → ℕ → Bool → Option Text → TunnelEvent
  closed : (tunnel_id : Text) → CloseReason → Option Text → TunnelEvent

-- The calls of the ownership store, where there is one.
pub data OwnershipWrite : Type 0 where
  upsert : (tunnel_id : Text) → ℕ → TunnelOwnership → OwnershipWrite
  remove : (tunnel_id : Text) → OwnershipWrite

pub record Manager : Type 0 where
  pub repository : Repository
  pub has_ownership : Bool
  -- What was published and written, oldest first.
  pub events : List TunnelEvent
  pub writes : List OwnershipWrite

pub record CreateOptions : Type 0 where
  pub context : TunnelOwnership
  pub preferred_tunnel_id : Option Text
  pub now : ℕ
  pub reclaim_window_ms : ℕ
  pub owner_user_id : Option Text

pub data Created : Type 0 where
  invalid_port : Created
  done : CreatedTunnel → Created

abbrev pub publish : Manager → TunnelEvent → Manager
publish m e = record m { events = m.events ++ e ∷ [] }

-- `this.ownership?.`
abbrev pub write : Manager → OwnershipWrite → Manager
write m w = if m.has_ownership then record m { writes = m.writes ++ w ∷ [] } else m

unfoldable pub publish_created : Manager → TunnelRecord → Text → Bool → Manager
publish_created m tunnel public_url restored =
    publish m (created tunnel.id public_url tunnel.port restored tunnel.workspace_id)

unfoldable pub publish_closed : Manager → Text → Option Text → CloseReason → Manager
publish_closed m tunnel_id workspace_id reason = publish m (closed tunnel_id reason workspace_id)

abbrev pub min_port : ℕ
min_port = 1

abbrev pub max_port : ℕ
max_port = 65535

unfoldable pub is_valid_port : ℕ → Bool
is_valid_port port = not (ltb port min_port || ltb max_port port)

unfoldable pub close_purged : Manager → List OrphanedTunnel → Manager
unfolding publish_closed
close_purged m [] = m
close_purged m (orphan ∷ rest) =
    close_purged (publish_closed (write m (remove orphan.id)) orphan.id orphan.workspace_id expired)
      rest

unfoldable pub purge_expired : Manager → ℕ → ℕ → Manager
unfolding close_purged
purge_expired m now window =
    let (r, purged) = Repository.purge_expired_orphans m.repository now window in
    close_purged (record m { repository = r }) purged

unfoldable pub new_tunnel : Text → ℕ → ℕ → CreateOptions → TunnelRecord
new_tunnel fresh_id client port options = record {
  id = fresh_id;
  client = client;
  port = port;
  context = options.context;
  workspace_id = context_workspace_id options.context;
  anonymous_session_id = context_anonymous_session_id options.context;
  owner_user_id = options.owner_user_id;
}

unfoldable pub register : Manager → Text → ℕ → ℕ → CreateOptions → Manager × TunnelRecord
unfolding new_tunnel
register m fresh_id client port options =
    let tunnel = new_tunnel fresh_id client port options in
    (
      write (record m { repository = Repository.save m.repository tunnel })
          (upsert tunnel.id tunnel.port tunnel.context),
      tunnel,
    )

module _ (mint : Text → Text) where
  unfoldable pub create_new : Manager → Text → ℕ → ℕ → CreateOptions → Manager × Created
  unfolding register publish_created
  create_new m fresh_id client port options =
      let (m', tunnel) = register m fresh_id client port options in
      (
        publish_created m' tunnel (mint tunnel.id) false,
        done (record { tunnel = tunnel; public_url = mint tunnel.id; restored = false }),
      )

  -- What follows an attempt to reclaim the preferred tunnel.
  unfoldable pub create_after :
      Manager → Text → ℕ → ℕ → CreateOptions → Repository × Option TunnelRecord → Manager × Created
  unfolding create_new
  create_after m fresh_id client port options (r, none) =
      create_new (record m { repository = r }) fresh_id client port options
  create_after m fresh_id client port options (r, some restored) = (
    publish_created
        (write (record m { repository = r }) (upsert restored.id restored.port restored.context))
        restored (mint restored.id) true,
    done (record { tunnel = restored; public_url = mint restored.id; restored = true }),
  )

  unfoldable pub create_preferred :
      Manager → Text → ℕ → ℕ → CreateOptions → Option Text → Manager × Created
  unfolding create_after
  create_preferred m fresh_id client port options none = create_new m fresh_id client port options
  create_preferred m fresh_id client port options (some id) =
      create_after m fresh_id client port options (
        Repository.reclaim m.repository id client port options.now options.reclaim_window_ms
          options.context)

  unfoldable pub create : Manager → Text → ℕ → ℕ → CreateOptions → Manager × Created
  unfolding create_preferred purge_expired
  create m fresh_id client port options =
      if is_valid_port port
      then create_preferred (purge_expired m options.now options.reclaim_window_ms) fresh_id client
          port options options.preferred_tunnel_id
      else (m, invalid_port)

abbrev pub close_existing : Manager → Option TunnelRecord → CloseReason → Manager
close_existing m none reason = m
close_existing m (some existing) reason = publish_closed m existing.id existing.workspace_id reason

unfoldable pub unregister : Manager → Text → Manager × Bool
unfolding publish_closed
unregister m id =
    let existing = Repository.find_by_id m.repository id in
    let (r, removed) = Repository.remove m.repository id in
    let m' = record m { repository = r } in
    (if removed then close_existing (write m' (remove id)) existing unregistered else m', removed)

abbrev pub end_existing : Manager → Option TunnelRecord → Manager
end_existing m none = m
end_existing m (some existing) =
    publish_closed (write m (remove existing.id)) existing.id existing.workspace_id unregistered

unfoldable pub unregister_client : Manager → ℕ → Manager × Bool
unfolding publish_closed
unregister_client m client =
    let existing = Repository.find_by_client m.repository client in
    let (r, removed) = Repository.remove_by_client m.repository client in
    let m' = record m { repository = r } in
    (if removed then end_existing m' existing else m', removed)

unfoldable pub detached : Manager → Repository × Option OrphanedTunnel → Manager × Bool
unfolding publish_closed
detached m (r, none) = (record m { repository = r }, false)
detached m (r, some orphan) =
    (publish_closed (record m { repository = r }) orphan.id orphan.workspace_id unregistered, true)

unfoldable pub detach_client : Manager → ℕ → ℕ → Manager × Bool
unfolding detached
detach_client m now client = detached m (Repository.orphan_by_client m.repository client now)

unfoldable pub lookup : Manager → Text → Option TunnelRecord
lookup m id = Repository.find_by_id m.repository id

unfoldable pub lookup_by_slug : Manager → Text → Option TunnelRecord
lookup_by_slug m slug = Repository.find_by_slug m.repository slug
