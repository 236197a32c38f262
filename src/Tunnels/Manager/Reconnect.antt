-- ===== src/Tunnels/Manager/Reconnect.antt =====
-- A client that loses its connection and returns inside the window.
use looplink.Base.{ℕ, ◌+◌, ◌≤◌, ◌≡◌, refl, true, some, arith}
use looplink.JsMap
use looplink.JsMap.{nat_key}
use looplink.JsMap.Laws.{get-set_self}
use looplink.Text.{Text, text_key}
use looplink.Tunnels.Context.{TunnelRecord, tunnel_contexts_equal_iff}
use looplink.Tunnels.Repository
use looplink.Tunnels.Repository.{Repository, orphan_of, has_expired}
use looplink.Tunnels.Repository.Views.{IsValid}
use looplink.Tunnels.Repository.Orphans.{orphan_by_client-IsValid, orphan_by_client-parks}
use looplink.Tunnels.Repository.Purge.{purge_expired_orphans-IsValid, purge_expired_orphans_lem}
use looplink.Tunnels.Repository.Reclaim.{reclaim_restores, may_reclaim}
use looplink.Tunnels.Manager.{
  Manager, CreateOptions, done, is_valid_port, purge_expired, create_after, create_preferred,
  create, detach_client, lookup,
}
use looplink.Tunnels.Manager.Laws.{repository-purge_expired}

module _ (m : Manager) (t : TunnelRecord) (client at : ℕ) (options : CreateOptions)
    (v : IsValid m.repository) (served : lookup m t.id ≡ some t)
    (soon : options.now ≤ at + options.reclaim_window_ms)
    (wanted : options.preferred_tunnel_id ≡ some t.id) (owner : options.context ≡ t.context) where
  abbrev away : Manager
  away = (detach_client m at t.client).0

  abbrev back : TunnelRecord
  back = record t { client = client }

  stored : JsMap.get t.id m.repository.by_id ≡ some t
  stored = unfold lookup Repository.find_by_id in served

  parked : Repository.orphan_by_client m.repository t.client at ≡ (
    record (m.repository) {
      by_id = JsMap.delete t.id m.repository.by_id;
      by_client = JsMap.delete t.client m.repository.by_client;
      orphans = JsMap.set t.id (orphan_of t at) m.repository.orphans;
    },
    some (orphan_of t at),
  )
  parked = orphan_by_client-parks m.repository t.client at t.id t v (v.clients t.id t stored) stored

  repository-away : away.repository ≡ (Repository.orphan_by_client m.repository t.client at).0
  repository-away = unfold detach_client in ground (arith, parked)

  away-IsValid : IsValid away.repository
  away-IsValid = rw repository-away (orphan_by_client-IsValid m.repository t.client at v)

  orphan-away : JsMap.get t.id away.repository.orphans ≡ some (orphan_of t at)
  orphan-away =
      ground
        (arith, repository-away, parked, get-set_self t.id (orphan_of t at) m.repository.orphans)

  abbrev swept : Manager
  swept = purge_expired away options.now options.reclaim_window_ms

  swept-IsValid : IsValid swept.repository
  swept-IsValid = rw (repository-purge_expired away options.now options.reclaim_window_ms) (
      purge_expired_orphans-IsValid options.now options.reclaim_window_ms away.repository
        away-IsValid)

  -- The orphan is young enough to survive the sweep.
  orphan-swept : JsMap.get t.id swept.repository.orphans ≡ some (orphan_of t at)
  orphan-swept =
      let lem =
        purge_expired_orphans_lem options.now options.reclaim_window_ms away.repository
          away-IsValid in
      rw (repository-purge_expired away options.now options.reclaim_window_ms)
        (ground (arith, lem.0 t.id, orphan-away))

  reclaimable :
      may_reclaim (orphan_of t at) t.port options.now options.reclaim_window_ms options.context
      ≡ true
  reclaimable = ground (arith, tunnel_contexts_equal_iff t.context options.context)

  -- Where the repository is in order: a tunnel whose socket is detached, and asked for by its id, its
  -- port and its owner before the reclaim window has passed, is given back to the new socket: the
  -- same id, port, owner and URL, marked as restored.
  pub reconnect_restores :
      (mint : Text → Text) (fresh_id : Text)
      → is_valid_port t.port ≡ true
      → ((detach_client m at t.client).1 ≡ true)
        × ((create mint away fresh_id client t.port options).1
            ≡ done (record { tunnel = back; public_url = mint t.id; restored = true }))
  reconnect_restores mint fresh_id valid = (
    unfold detach_client in ground (arith, parked),
    unfold create in
        rw valid (
          unfold create_preferred in
          rw wanted (
            rw
              (reclaim_restores swept.repository t.id client t.port options.now
                options.reclaim_window_ms options.context swept-IsValid (orphan_of t at)
                orphan-swept reclaimable)
              (unfold create_after in refl))),
  )
