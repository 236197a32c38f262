-- ===== src/Tunnels/Repository/Purge.antt =====
-- `purgeExpiredOrphans`: the orphans whose window has passed leave, and only those.
use looplink.Base.{
  ℕ, ◌≡◌, ◌∙◌, sym, refl, inl, inr, Option, none, some, [], ◌∷◌, if◌then◌else◌, keep, arith,
  Option-cases, Bool-cases,
}
use looplink.JsMap
use looplink.JsMap.{JsMap, nat_key, Distinct, values}
use looplink.JsMap.Laws.{get-delete}
use looplink.Text.{Text, text_key}
use looplink.Tunnels.Context.{OrphanedTunnel}
use looplink.Tunnels.PublicUrl.{tunnel_slug}
use looplink.Tunnels.Repository.Lookups.{find_by_slug_iff}
use looplink.Tunnels.Repository.{
  Repository, find_by_id, find_by_slug, has_expired, purge_each, purge_expired_orphans,
}
use looplink.Tunnels.Repository.Views.{IsValid}
use looplink.Tunnels.Repository.Orphans.{drop_orphan-IsValid, drop_orphan}

-- The entries still to be visited are orphans.
abbrev Pending : JsMap Text OrphanedTunnel → Repository → Type 0
Pending entries r =
    (k : Text) (o : OrphanedTunnel) → JsMap.get k entries ≡ some o → JsMap.get k r.orphans ≡ some o

module _ (now window : ℕ) where
  -- An orphan after the sweep.
  abbrev pub unexpired : Option OrphanedTunnel → Option OrphanedTunnel
  unexpired none = none
  unexpired (some o) = if has_expired o now window then none else some o

  module _ (r : Repository) (id : Text) (o : OrphanedTunnel) (rest : JsMap Text OrphanedTunnel)
      (d : JsMap.get id rest ≡ none) (p : Pending ((id, o) ∷ rest) r) where
    first_entry : JsMap.get id r.orphans ≡ some o
    first_entry = p id o (unfold JsMap.get in ground arith)

    later_entries : Pending rest r
    later_entries k q h = p k q (unfold JsMap.get in ground arith)

    later_entries_dropped : Pending rest (drop_orphan r id)
    later_entries_dropped k q h = ground (arith, get-delete id k r.orphans, later_entries k q h)

  purge_each-IsValid :
      (r : Repository) (entries : JsMap Text OrphanedTunnel)
      → Distinct entries
      → Pending entries r
      → IsValid r
      → IsValid (purge_each r now window entries).0
  unfolding purge_each
  purge_each-IsValid r [] d p v = v
  purge_each-IsValid r ((id, o) ∷ rest) d p v = elim (Bool-cases (has_expired o now window)) [
    | inl e ↦ rw e (
        purge_each-IsValid (drop_orphan r id) rest d.1 (later_entries_dropped r id o rest d.0 p)
          (drop_orphan-IsValid r id o (first_entry r id o rest d.0 p) v))
    | inr e ↦ rw e (purge_each-IsValid r rest d.1 (later_entries r id o rest d.0 p) v)
  ]

  -- The maps agree after the sweep.
  pub purge_expired_orphans-IsValid :
      (r : Repository) → IsValid r → IsValid (purge_expired_orphans r now window).0
  purge_expired_orphans-IsValid r v =
      unfold purge_expired_orphans in purge_each-IsValid r r.orphans v.distinct (λ k o h. h) v

  orphans-purge_each :
      (r : Repository) (entries : JsMap Text OrphanedTunnel) (k : Text)
      → Distinct entries
      → Pending entries r
      → JsMap.get k (purge_each r now window entries).0.orphans
        ≡ elim (JsMap.get k entries) [ none ↦ JsMap.get k r.orphans | some o ↦ unexpired (some o) ]
  unfolding purge_each JsMap.get
  orphans-purge_each r [] k d p = refl
  orphans-purge_each r ((id, o) ∷ rest) k d p = elim (Bool-cases (has_expired o now window)) [
    | inl e ↦ rw e (
        ground (
          arith,
          orphans-purge_each (drop_orphan r id) rest k d.1
              (later_entries_dropped r id o rest d.0 p),
          get-delete id k r.orphans,
        ))
    | inr e ↦ rw e (
        ground (
          arith,
          orphans-purge_each r rest k d.1 (later_entries r id o rest d.0 p),
          first_entry r id o rest d.0 p,
        ))
  ]

  purge_each-keeps :
      (r : Repository) (entries : JsMap Text OrphanedTunnel)
      → ((purge_each r now window entries).0.by_id ≡ r.by_id)
        × ((purge_each r now window entries).0.by_client ≡ r.by_client)
  unfolding purge_each
  purge_each-keeps r [] = (refl, refl)
  purge_each-keeps r ((id, o) ∷ rest) =
      ground (arith, purge_each-keeps (drop_orphan r id) rest, purge_each-keeps r rest)

  purge_each-purged :
      (r : Repository) (entries : JsMap Text OrphanedTunnel)
      → (purge_each r now window entries).1 ≡ keep (λ o. has_expired o now window) (values entries)
  unfolding purge_each
  purge_each-purged r [] = refl
  purge_each-purged r ((id, o) ∷ rest) =
      ground (arith, purge_each-purged (drop_orphan r id) rest, purge_each-purged r rest)

  -- Two repositories in order that hold the same tunnels route every slug alike.
  find_by_slug-determined :
      (r r' : Repository) (s : Text)
      → IsValid r
      → IsValid r'
      → r'.by_id ≡ r.by_id
      → find_by_slug r' s ≡ find_by_slug r s
  unfolding find_by_id
  find_by_slug-determined r r' s v v' same = elim (Option-cases (find_by_slug r s)) [
    | inr (t, e) ↦
        let (found, slug) = (find_by_slug_iff r s t v).0 e in
        (find_by_slug_iff r' s t v').1 (rw same found, slug) ∙ sym e
    | inl e ↦ elim (Option-cases (find_by_slug r' s)) [
      | inl e' ↦ e' ∙ sym e
      | inr (t, e') ↦
          let (found, slug) = (find_by_slug_iff r' s t v').0 e' in
          let there : find_by_slug r s ≡ some t =
            (find_by_slug_iff r s t v).1 (rw (sym same) found, slug) in
          absurd (cc)
    ]
  ]

  -- Where the maps agree, the sweep drops exactly the orphans whose window has passed, reports them
  -- in the order of the map, and leaves the active tunnels alone: every id, every socket and every
  -- slug leads to the tunnel that it led to, or to none if it led to none.
  pub purge_expired_orphans_lem :
      (r : Repository)
      → IsValid r
      → let r' = purge_expired_orphans r now window in
        ((k : Text) → JsMap.get k r'.0.orphans ≡ unexpired (JsMap.get k r.orphans))
        × (r'.1 ≡ keep (λ o. has_expired o now window) (values r.orphans))
        × (r'.0.by_id ≡ r.by_id)
        × (r'.0.by_client ≡ r.by_client)
        × ((s : Text) → find_by_slug r'.0 s ≡ find_by_slug r s)
  unfolding purge_expired_orphans
  purge_expired_orphans_lem r v = (
    λ k. elim (Option-cases (JsMap.get k r.orphans)) [
      | inl e ↦ ground (arith, orphans-purge_each r r.orphans k v.distinct (λ k o h. h))
      | inr (o, e) ↦ ground (arith, orphans-purge_each r r.orphans k v.distinct (λ k o h. h))
    ],
    purge_each-purged r r.orphans,
    (purge_each-keeps r r.orphans).0,
    (purge_each-keeps r r.orphans).1,
    λ s.
        find_by_slug-determined r (purge_each r now window r.orphans).0 s v
          (purge_each-IsValid r r.orphans v.distinct (λ k o h. h) v)
          (purge_each-keeps r r.orphans).0,
  )

-- The sweep frees slugs and takes none.
by_slug-purge_each :
    (now window : ℕ) (r : Repository) (entries : JsMap Text OrphanedTunnel) (s : Text)
    → JsMap.get s r.by_slug ≡ none
    → JsMap.get s (purge_each r now window entries).0.by_slug ≡ none
unfolding purge_each
by_slug-purge_each now window r [] s h = h
by_slug-purge_each now window r ((id, o) ∷ rest) s h = ground (
  arith,
  by_slug-purge_each now window (drop_orphan r id) rest s,
  by_slug-purge_each now window r rest s h,
  get-delete (tunnel_slug id) s r.by_slug,
)

pub by_slug-purge :
    (now window : ℕ) (r : Repository) (s : Text)
    → JsMap.get s r.by_slug ≡ none
    → JsMap.get s (purge_expired_orphans r now window).0.by_slug ≡ none
unfolding purge_expired_orphans
by_slug-purge now window r s h = by_slug-purge_each now window r r.orphans s h
