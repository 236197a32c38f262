-- ===== src/Tunnels/Repository/Orphans.antt =====
-- A tunnel without a socket: parked by `orphanByClient`, restored by `reclaim`, dropped in time.
use looplink.Base.{ℕ, ◌≡◌, inl, inr, some, arith, Option-cases}
use looplink.JsMap
use looplink.JsMap.{JsMap, nat_key, Distinct}
use looplink.JsMap.Laws.{get-set, get-delete, delete-Distinct, set-Distinct}
use looplink.Text.{Text, text_key}
use looplink.Tunnels.Context.{TunnelRecord, OrphanedTunnel}
use looplink.Tunnels.PublicUrl.{tunnel_slug}
use looplink.Tunnels.Repository.{Repository, orphan_of, orphan_by_client}
use looplink.Tunnels.Repository.Views.{IsValid}

module _ (r : Repository) (client at : ℕ) (id : Text) (x : TunnelRecord) (v : IsValid r)
    (e : JsMap.get client r.by_client ≡ some id) (f : JsMap.get id r.by_id ≡ some x) where
  abbrev parked : Repository
  parked = record r {
    by_id = JsMap.delete id r.by_id;
    by_client = JsMap.delete client r.by_client;
    orphans = JsMap.set id (orphan_of x at) r.orphans;
  }

  -- The socket's tunnel is parked: no longer routable, its data kept, its slug reserved.
  pub orphan_by_client-parks : orphan_by_client r client at ≡ (parked, some (orphan_of x at))
  orphan_by_client-parks = unfold orphan_by_client in rw e (rw f)

  parked-owners :
      (c : ℕ) (k : Text)
      → JsMap.get c parked.by_client ≡ some k
      → (y : TunnelRecord) × (JsMap.get k parked.by_id ≡ some y) × (y.client ≡ c)
  parked-owners c k h =
      let h' : JsMap.get c r.by_client ≡ some k = ground (arith, get-delete client c r.by_client) in
      let (y, g, q) = v.owners c k h' in
      let (z, g', q') = v.owners client id e in
      (y, ground (arith, get-delete client c r.by_client, get-delete id k r.by_id), q)

  parked-IsValid : IsValid parked
  parked-IsValid =
      let (z, g, q) = v.owners client id e in
      record {
        ids = λ k y h. ground (arith, get-delete id k r.by_id, v.ids k y);
        clients = λ k y h.
            ground (
              arith,
              get-delete id k r.by_id,
              get-delete client y.client r.by_client,
              v.clients k y,
            );
        owners = parked-owners;
        slugs = λ k y h. ground (arith, get-delete id k r.by_id, v.slugs k y);
        slug_keys = v.slug_keys;
        backed = λ s k h.
            ground (
              arith,
              get-delete id k r.by_id,
              get-set id k (orphan_of x at) r.orphans,
              v.backed s k,
            );
        reserved = λ k o h.
            ground (arith, get-set id k (orphan_of x at) r.orphans, v.reserved k o, v.slugs id x f);
        orphan_ids = λ k o h.
            ground (arith, get-set id k (orphan_of x at) r.orphans, v.orphan_ids k o, v.ids id x f);
        apart = λ k o h.
            ground (
              arith,
              get-set id k (orphan_of x at) r.orphans,
              get-delete id k r.by_id,
              v.apart k o,
            );
        distinct = set-Distinct id (orphan_of x at) r.orphans v.distinct;
      }

-- Whatever socket goes, the maps agree.
pub orphan_by_client-IsValid :
    (r : Repository) (client at : ℕ) → IsValid r → IsValid (orphan_by_client r client at).0
orphan_by_client-IsValid r client at v = elim (Option-cases (JsMap.get client r.by_client)) [
  | inl e ↦ unfold orphan_by_client in rw e v
  | inr (id, e) ↦
      let (x, f, q) = v.owners client id e in
      rw (orphan_by_client-parks r client at id x v e f) (parked-IsValid r client at id x v e f)
]

-- An orphan leaves with its slug.
abbrev pub drop_orphan : Repository → Text → Repository
drop_orphan r id = record r {
  orphans = JsMap.delete id r.orphans;
  by_slug = JsMap.delete (tunnel_slug id) r.by_slug;
}

pub drop_orphan-IsValid :
    (r : Repository) (id : Text) (o : OrphanedTunnel)
    → JsMap.get id r.orphans ≡ some o
    → IsValid r
    → IsValid (drop_orphan r id)
drop_orphan-IsValid r id o e v = record {
  ids = v.ids;
  clients = v.clients;
  owners = v.owners;
  slugs = λ k y h. ground (
    arith,
    get-delete (tunnel_slug id) (tunnel_slug k) r.by_slug,
    v.slugs k y h,
    v.reserved id o e,
    v.apart id o e,
  );
  slug_keys = λ s k h. ground (arith, get-delete (tunnel_slug id) s r.by_slug, v.slug_keys s k);
  backed = λ s k h. ground (
    arith,
    get-delete (tunnel_slug id) s r.by_slug,
    get-delete id k r.orphans,
    v.backed s k,
    v.slug_keys s k,
  );
  reserved = λ k p h. ground (
    arith,
    get-delete (tunnel_slug id) (tunnel_slug k) r.by_slug,
    get-delete id k r.orphans,
    v.reserved k p,
    v.reserved id o e,
  );
  orphan_ids = λ k p h. ground (arith, get-delete id k r.orphans, v.orphan_ids k p);
  apart = λ k p h. ground (arith, get-delete id k r.orphans, v.apart k p);
  distinct = delete-Distinct id r.orphans v.distinct;
}
