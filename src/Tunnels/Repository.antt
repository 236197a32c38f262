-- ===== src/Tunnels/Repository.antt =====
-- memory-tunnel.repository.ts: tunnels by id, by socket and by slug, and those that lost their
-- socket. A repository is a value; each method returns the new one.
pub mod Views
pub mod Save
pub mod Removal
pub mod Orphans
pub mod Purge
pub mod Reclaim
pub mod Lookups
use looplink.Base.{
  ℕ, ◌+◌, Bool, true, false, not, Option, none, some, List, [], ◌∷◌, ltb, leb, ◌==◌, if◌then◌else◌,
}
use looplink.JsMap
use looplink.JsMap.{JsMap, nat_key}
use looplink.Text.{Text, text_key, to_lower, ◌===◌}
use looplink.Tunnels.Context.{TunnelRecord, OrphanedTunnel, TunnelOwnership, tunnel_contexts_equal}
use looplink.Tunnels.PublicUrl.{tunnel_slug}

pub record Repository : Type 0 where
  pub by_id : JsMap Text TunnelRecord
  pub by_client : JsMap ℕ Text
  pub by_slug : JsMap Text Text
  pub orphans : JsMap Text OrphanedTunnel

abbrev pub empty : Repository
empty = record { by_id = []; by_client = []; by_slug = []; orphans = [] }

-- `if (existingById !== undefined)`
unfoldable pub forget_existing : Repository → Option TunnelRecord → Repository
forget_existing r none = r
forget_existing r (some existing) = record r {
  by_client = JsMap.delete existing.client r.by_client;
  by_slug = JsMap.delete (tunnel_slug existing.id) r.by_slug;
}

unfoldable pub forget_slug : Repository → Option TunnelRecord → Repository
forget_slug r none = r
forget_slug r (some displaced) = record r {
  by_slug = JsMap.delete (tunnel_slug displaced.id) r.by_slug;
}

-- `if (existingIdForClient !== undefined && existingIdForClient !== tunnel.id)`
unfoldable pub displace : Repository → Text → Option Text → Repository
unfolding forget_slug
displace r id none = r
displace r id (some other) =
    if other === id
    then r
    else forget_slug (record r { by_id = JsMap.delete other r.by_id }) (JsMap.get other r.by_id)

unfoldable pub enter : Repository → TunnelRecord → Repository
enter r tunnel = record r {
  by_id = JsMap.set tunnel.id tunnel r.by_id;
  by_client = JsMap.set tunnel.client tunnel.id r.by_client;
  by_slug = JsMap.set (tunnel_slug tunnel.id) tunnel.id r.by_slug;
}

unfoldable pub save : Repository → TunnelRecord → Repository
unfolding forget_existing displace enter
save r tunnel =
    let r1 = record r { orphans = JsMap.delete tunnel.id r.orphans } in
    let r2 = forget_existing r1 (JsMap.get tunnel.id r1.by_id) in
    let r3 = displace r2 tunnel.id (JsMap.get tunnel.client r2.by_client) in enter r3 tunnel

unfoldable pub remove_from : Repository → Text → Bool → Option TunnelRecord → Repository × Bool
remove_from r id orphan_removed none = (
  if orphan_removed then record r { by_slug = JsMap.delete (tunnel_slug id) r.by_slug } else r,
  orphan_removed,
)
remove_from r id orphan_removed (some existing) = (
  record r {
    by_id = JsMap.delete id r.by_id;
    by_client = JsMap.delete existing.client r.by_client;
    by_slug = JsMap.delete (tunnel_slug existing.id) r.by_slug;
  },
  true,
)

unfoldable pub remove : Repository → Text → Repository × Bool
unfolding remove_from
remove r id =
    remove_from (record r { orphans = JsMap.delete id r.orphans }) id (JsMap.has id r.orphans)
      (JsMap.get id r.by_id)

unfoldable pub remove_id : Repository → Option Text → Repository × Bool
remove_id r none = (r, false)
remove_id r (some id) = remove r id

unfoldable pub remove_by_client : Repository → ℕ → Repository × Bool
unfolding remove_id remove
remove_by_client r client = remove_id r (JsMap.get client r.by_client)

abbrev pub orphan_of : TunnelRecord → ℕ → OrphanedTunnel
orphan_of existing disconnected_at = record {
  id = existing.id;
  port = existing.port;
  disconnected_at = disconnected_at;
  context = existing.context;
  workspace_id = existing.workspace_id;
  anonymous_session_id = existing.anonymous_session_id;
  owner_user_id = existing.owner_user_id;
}

unfoldable pub orphan_existing :
    Repository → ℕ → ℕ → Text → Option TunnelRecord → Repository × Option OrphanedTunnel
orphan_existing r client at id none =
    (record r { by_client = JsMap.delete client r.by_client }, none)
orphan_existing r client at id (some existing) = (
  record r {
    by_id = JsMap.delete id r.by_id;
    by_client = JsMap.delete client r.by_client;
    orphans = JsMap.set id (orphan_of existing at) r.orphans;
  },
  some (orphan_of existing at),
)

unfoldable pub orphan_id : Repository → ℕ → ℕ → Option Text → Repository × Option OrphanedTunnel
unfolding orphan_existing
orphan_id r client at none = (r, none)
orphan_id r client at (some id) = orphan_existing r client at id (JsMap.get id r.by_id)

unfoldable pub orphan_by_client : Repository → ℕ → ℕ → Repository × Option OrphanedTunnel
unfolding orphan_id
orphan_by_client r client disconnected_at =
    orphan_id r client disconnected_at (JsMap.get client r.by_client)

abbrev pub restored_of : OrphanedTunnel → ℕ → TunnelRecord
restored_of orphan client = record {
  id = orphan.id;
  client = client;
  port = orphan.port;
  context = orphan.context;
  workspace_id = orphan.workspace_id;
  anonymous_session_id = orphan.anonymous_session_id;
  owner_user_id = orphan.owner_user_id;
}

-- `now - orphan.disconnectedAt > reclaimWindowMs`, with the subtraction moved to the other side.
abbrev pub has_expired : OrphanedTunnel → ℕ → ℕ → Bool
has_expired orphan now reclaim_window_ms = ltb (orphan.disconnected_at + reclaim_window_ms) now

unfoldable pub reclaim_orphan :
    Repository
    → Text
    → ℕ
    → ℕ
    → ℕ
    → ℕ
    → TunnelOwnership
    → Option OrphanedTunnel
    → Repository × Option TunnelRecord
unfolding save
reclaim_orphan r id client port now window context none = (r, none)
reclaim_orphan r id client port now window context (some orphan) =
    if not (orphan.port == port)
    then (r, none)
    else if not (tunnel_contexts_equal orphan.context context)
    then (r, none)
    else if has_expired orphan now window
    then (
      record r {
        orphans = JsMap.delete id r.orphans;
        by_slug = JsMap.delete (tunnel_slug id) r.by_slug;
      },
      none,
    )
    else (
      save (record r { orphans = JsMap.delete id r.orphans }) (restored_of orphan client),
      some (restored_of orphan client),
    )

unfoldable pub reclaim :
    Repository → Text → ℕ → ℕ → ℕ → ℕ → TunnelOwnership → Repository × Option TunnelRecord
unfolding reclaim_orphan
reclaim r id client port now window context =
    reclaim_orphan r id client port now window context (JsMap.get id r.orphans)

-- The loop over the entries that the map had when it began: the body deletes only the entry that
-- it stands at, so each is visited once.
unfoldable pub purge_each :
    Repository → ℕ → ℕ → JsMap Text OrphanedTunnel → Repository × List OrphanedTunnel
purge_each r now window [] = (r, [])
purge_each r now window ((id, orphan) ∷ rest) =
    let gone =
      purge_each
        (record r {
          orphans = JsMap.delete id r.orphans;
          by_slug = JsMap.delete (tunnel_slug id) r.by_slug;
        })
        now window rest in
    let kept = purge_each r now window rest in
    if has_expired orphan now window then (gone.0, orphan ∷ gone.1) else kept

unfoldable pub purge_expired_orphans : Repository → ℕ → ℕ → Repository × List OrphanedTunnel
unfolding purge_each
purge_expired_orphans r now window = purge_each r now window r.orphans

abbrev pub record_of : Repository → Option Text → Option TunnelRecord
record_of r none = none
record_of r (some id) = JsMap.get id r.by_id

unfoldable pub find_by_id : Repository → Text → Option TunnelRecord
find_by_id r id = JsMap.get id r.by_id

unfoldable pub find_by_client : Repository → ℕ → Option TunnelRecord
find_by_client r client = record_of r (JsMap.get client r.by_client)

unfoldable pub find_by_slug : Repository → Text → Option TunnelRecord
find_by_slug r slug = record_of r (JsMap.get (to_lower slug) r.by_slug)
