-- ===== src/Tunnels/Repository/Removal.antt =====
-- `remove` and `removeByClient`.
use looplink.Base.{
  ℕ, ◌≡◌, inl, inr, ◌||◌, Option, none, some, if◌then◌else◌, ite, arith, Option-cases,
}
use looplink.JsMap
use looplink.JsMap.{JsMap, nat_key, Distinct}
use looplink.JsMap.Laws.{get-delete, delete-Distinct}
use looplink.Text.{Text, text_dec, text_key, ◌===◌}
use looplink.Tunnels.PublicUrl.{tunnel_slug}
use looplink.Tunnels.Repository.{Repository, remove, remove_by_client, remove_id}
use looplink.Tunnels.Repository.Views.{IsValid}

module _ (r : Repository) (id : Text) (v : IsValid r) where
  abbrev after : Repository
  after = (remove r id).0

  -- Every map forgets the id, and nothing else.
  by_id-remove :
      (k : Text) → JsMap.get k after.by_id ≡ ite (text_dec id k) none (JsMap.get k r.by_id)
  unfolding remove
  by_id-remove k = ground (arith, get-delete id k r.by_id)

  orphans-remove :
      (k : Text) → JsMap.get k after.orphans ≡ ite (text_dec id k) none (JsMap.get k r.orphans)
  unfolding remove
  orphans-remove k = ground (arith, get-delete id k r.orphans)

  orphans-remove_eq : after.orphans ≡ JsMap.delete id r.orphans
  unfolding remove
  orphans-remove_eq = ground arith

  abbrev dropped : Option Text → Option Text
  dropped none = none
  dropped (some k) = if k === id then none else some k

  by_client-remove : (c : ℕ) → JsMap.get c after.by_client ≡ dropped (JsMap.get c r.by_client)
  unfolding remove
  by_client-remove c = elim (Option-cases (JsMap.get id r.by_id)) [
    | inl e ↦ elim (Option-cases (JsMap.get c r.by_client)) [
      | inl f ↦ ground arith
      | inr (k, f) ↦ ground (arith, v.owners c k f)
    ]
    | inr (x, e) ↦ elim (Option-cases (JsMap.get c r.by_client)) [
      | inl f ↦ ground (arith, get-delete x.client c r.by_client)
      | inr (k, f) ↦
          ground (arith, get-delete x.client c r.by_client, v.owners c k f, v.clients id x e)
    ]
  ]

  by_slug-remove : (s : Text) → JsMap.get s after.by_slug ≡ dropped (JsMap.get s r.by_slug)
  unfolding remove
  by_slug-remove s = elim (Option-cases (JsMap.get id r.by_id)) [
    | inl e ↦ elim (Option-cases (JsMap.get id r.orphans)) [
      | inl f ↦ ground (arith, v.backed s id)
      | inr (o, f) ↦ ground (
        arith,
        v.backed s id,
        v.slug_keys s id,
        v.reserved id o f,
        get-delete (tunnel_slug id) s r.by_slug,
      )
    ]
    | inr (x, e) ↦ ground (
      arith,
      v.ids id x e,
      v.slugs id x e,
      v.slug_keys s id,
      get-delete (tunnel_slug x.id) s r.by_slug,
    )
  ]

  -- It reports whether a tunnel or an orphan was there.
  pub remove-reports : (remove r id).1 ≡ (JsMap.has id r.by_id || JsMap.has id r.orphans)
  unfolding remove
  remove-reports = ground arith

  -- Where the maps agree, they agree after the removal of any id.
  pub remove-IsValid : IsValid after
  remove-IsValid = record {
    ids = λ k x h. ground (arith, by_id-remove k, v.ids k x);
    clients = λ k x h. ground (arith, by_id-remove k, by_client-remove x.client, v.clients k x);
    owners = λ c k h.
        let h' : JsMap.get c r.by_client ≡ some k = ground (arith, by_client-remove c) in
        let (x, e, q) = v.owners c k h' in
        (x, ground (arith, by_client-remove c, by_id-remove k), q);
    slugs = λ k x h. ground (arith, by_id-remove k, by_slug-remove (tunnel_slug k), v.slugs k x);
    slug_keys = λ s k h. ground (arith, by_slug-remove s, v.slug_keys s k);
    backed =
        λ s k h. ground (arith, by_slug-remove s, by_id-remove k, orphans-remove k, v.backed s k);
    reserved =
        λ k o h. ground (arith, orphans-remove k, by_slug-remove (tunnel_slug k), v.reserved k o);
    orphan_ids = λ k o h. ground (arith, orphans-remove k, v.orphan_ids k o);
    apart = λ k o h. ground (arith, orphans-remove k, by_id-remove k, v.apart k o);
    distinct = rw orphans-remove_eq (delete-Distinct id r.orphans v.distinct);
  }

-- Removal by socket is removal of the socket's tunnel.
pub remove_by_client-IsValid :
    (r : Repository) (client : ℕ) → IsValid r → IsValid (remove_by_client r client).0
remove_by_client-IsValid r client v = elim (Option-cases (JsMap.get client r.by_client)) [
  | inl e ↦ unfold remove_by_client in rw e v
  | inr (id, e) ↦ unfold remove_by_client remove_id in rw e (remove-IsValid r id v)
]
