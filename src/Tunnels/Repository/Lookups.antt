-- ===== src/Tunnels/Repository/Lookups.antt =====
-- What the lookups find, and a tunnel through the loss of its socket and its return.
use looplink.Base.{ℕ, ◌+◌, ◌≤◌, ◌≡◌, refl, inl, inr, ◌↔◌, true, some, arith, Option-cases}
use looplink.JsMap
use looplink.JsMap.{JsMap, nat_key, Distinct}
use looplink.JsMap.Laws.{get-set_self}
use looplink.Text.{Text, text_key, to_lower, to_lower_idem}
use looplink.Tunnels.Context.{TunnelRecord, tunnel_contexts_equal_iff}
use looplink.Tunnels.PublicUrl.{tunnel_slug}
use looplink.Tunnels.Repository.{
  Repository, save, orphan_of, orphan_by_client, reclaim, find_by_id, find_by_client, find_by_slug,
}
use looplink.Tunnels.Repository.Views.{IsValid}
use looplink.Tunnels.Repository.Save.{by_id-save, by_client-save, by_slug-save}
use looplink.Tunnels.Repository.Orphans.{orphan_by_client-parks, orphan_by_client-IsValid}
use looplink.Tunnels.Repository.Reclaim.{reclaim_restores, may_reclaim}

-- Where the maps agree, a socket leads to the active tunnel that it serves, and to no other.
pub find_by_client_iff :
    (r : Repository) (c : ℕ) (t : TunnelRecord)
    → IsValid r
    → (find_by_client r c ≡ some t) ↔ ((find_by_id r t.id ≡ some t) × (t.client ≡ c))
unfolding find_by_client find_by_id
find_by_client_iff r c t v = (forward, λ (h, q). ground (arith, v.clients t.id t h))
  where
    forward : find_by_client r c ≡ some t → (find_by_id r t.id ≡ some t) × (t.client ≡ c)
    forward h = elim (Option-cases (JsMap.get c r.by_client)) [
      | inl e ↦ ground arith
      | inr (id, e) ↦ ground (arith, v.owners c id e, v.ids id t)
    ]

-- Where the maps agree, a slug, in any case, leads to the active tunnel that has it, and to nothing
-- else.
pub find_by_slug_iff :
    (r : Repository) (s : Text) (t : TunnelRecord)
    → IsValid r
    → (find_by_slug r s ≡ some t) ↔ ((find_by_id r t.id ≡ some t) × (tunnel_slug t.id ≡ to_lower s))
unfolding find_by_slug find_by_id
find_by_slug_iff r s t v = (forward, λ (h, q). ground (arith, v.slugs t.id t h))
  where
    forward :
        find_by_slug r s ≡ some t → (find_by_id r t.id ≡ some t) × (tunnel_slug t.id ≡ to_lower s)
    forward h = elim (Option-cases (JsMap.get (to_lower s) r.by_slug)) [
      | inl e ↦ ground arith
      | inr (id, e) ↦ ground (arith, v.slug_keys (to_lower s) id e, v.ids id t)
    ]

to_lower-tunnel_slug : (id : Text) → to_lower (tunnel_slug id) ≡ tunnel_slug id
unfolding tunnel_slug
to_lower-tunnel_slug id = to_lower_idem _

module _ (r : Repository) (t : TunnelRecord) (v : IsValid r) where
  found_by_id : find_by_id (save r t) t.id ≡ some t
  unfolding find_by_id
  found_by_id = ground (arith, by_id-save r t v t.id)

  found_by_client : find_by_client (save r t) t.client ≡ some t
  unfolding find_by_client
  found_by_client = ground (arith, by_client-save r t v t.client, by_id-save r t v t.id)

  found_by_slug : find_by_slug (save r t) (tunnel_slug t.id) ≡ some t
  unfolding find_by_slug
  found_by_slug = ground (
    arith,
    to_lower-tunnel_slug t.id,
    by_slug-save r t v (tunnel_slug t.id),
    by_id-save r t v t.id,
  )

  -- A saved tunnel is found by its id, its socket and its slug.
  pub find-save :
      (find_by_id (save r t) t.id ≡ some t)
      × (find_by_client (save r t) t.client ≡ some t)
      × (find_by_slug (save r t) (tunnel_slug t.id) ≡ some t)
  find-save = (found_by_id, found_by_client, found_by_slug)

module _ (r : Repository) (t : TunnelRecord) (client at now window : ℕ) (v : IsValid r)
    (h : find_by_id r t.id ≡ some t) (soon : now ≤ at + window) where
  abbrev detached : Repository
  detached = (orphan_by_client r t.client at).0

  abbrev back : TunnelRecord
  back = record t { client = client }

  detached-orphan : JsMap.get t.id detached.orphans ≡ some (orphan_of t at)
  unfolding find_by_id
  detached-orphan = ground (
    arith,
    orphan_by_client-parks r t.client at t.id t v (v.clients t.id t h) h,
    get-set_self t.id (orphan_of t at) r.orphans,
  )

  detached_may_reclaim : may_reclaim (orphan_of t at) t.port now window t.context ≡ true
  detached_may_reclaim = ground (arith, tunnel_contexts_equal_iff t.context t.context)

  -- A client that loses its socket and comes back in time, with the port and the owner of its
  -- tunnel, has the same tunnel again on the new socket, under the same id and slug.
  pub detach_reclaim :
      let r' = reclaim detached t.id client t.port now window t.context in
      (r'.1 ≡ some back)
      × (find_by_id r'.0 t.id ≡ some back)
      × (find_by_client r'.0 client ≡ some back)
      × (find_by_slug r'.0 (tunnel_slug t.id) ≡ some back)
  detach_reclaim =
      let v' = orphan_by_client-IsValid r t.client at v in
      let (a, b, c) = find-save detached back v' in
      rw
        (reclaim_restores detached t.id client t.port now window t.context v' (orphan_of t at)
          detached-orphan detached_may_reclaim)
        (refl, a, b, c)
