-- ===== src/Tunnels/Repository/Save.antt =====
-- `save`, read through the four maps, and its effect on their agreement.
use looplink.Base.{
  ℕ, ◌≡◌, ◌≢◌, refl, ◌∙◌, ◌⊎◌, inl, inr, Bool, true, false, Option, none, some, if◌then◌else◌, ite,
  arith, Option-cases, ℕ_discrete,
}
use looplink.JsMap
use looplink.JsMap.{JsMap, Distinct, nat_key}
use looplink.JsMap.Laws.{get-set, get-delete, delete-Distinct}
use looplink.Text.{Text, text_dec, text_key, ◌===◌}
use looplink.Tunnels.Context.{TunnelRecord}
use looplink.Tunnels.PublicUrl.{tunnel_slug}
use looplink.Tunnels.Repository.{Repository, forget_existing, displace, enter, save}
use looplink.Tunnels.Repository.Views.{IsValid}

-- The tunnel that held the socket until now.
abbrev pub holds : Option Text → Text → Bool
holds none id = false
holds (some other) id = other === id

abbrev pub unless {ℓ} : {A : Type ℓ} → Bool → Option A → Option A
unless true o = none
unless false o = o

-- The entry, unless it names `id`.
abbrev pub not_naming : Text → Option Text → Option Text
not_naming id none = none
not_naming id (some other) = if other === id then none else some other

-- The entry, unless it names the tunnel that held the socket.
abbrev pub not_held : Option Text → Option Text → Option Text
not_held holder none = none
not_held holder (some id) = unless (holds holder id) (some id)

displace-by_client :
    (r : Repository) (id : Text) (h : Option Text) → (displace r id h).by_client ≡ r.by_client
unfolding displace
displace-by_client r id none = refl
displace-by_client r id (some o) = ground arith

displace-orphans :
    (r : Repository) (id : Text) (h : Option Text) → (displace r id h).orphans ≡ r.orphans
unfolding displace
displace-orphans r id none = refl
displace-orphans r id (some o) = ground arith

displace-by_id :
    (r : Repository) (id k : Text) (h : Option Text)
    → id ≢ k
    → JsMap.get k (displace r id h).by_id ≡ unless (holds h k) (JsMap.get k r.by_id)
unfolding displace
displace-by_id r id k none ne = refl
displace-by_id r id k (some o) ne = ground (arith, get-delete o k r.by_id)

displace-by_slug :
    (r : Repository) (id s : Text) (h : Option Text)
    → JsMap.get s (displace r id h).by_slug ≡ elim h [
      | none ↦ JsMap.get s r.by_slug
      | some o ↦ if o === id then JsMap.get s r.by_slug else elim (JsMap.get o r.by_id) [
        | none ↦ JsMap.get s r.by_slug
        | some d ↦ ite (text_dec (tunnel_slug d.id) s) none (JsMap.get s r.by_slug)
      ]
    ]
unfolding displace
displace-by_slug r id s none = refl
displace-by_slug r id s (some o) = elim (Option-cases (JsMap.get o r.by_id)) [
  | inl e ↦ ground arith
  | inr (d, e) ↦ ground (arith, get-delete (tunnel_slug d.id) s r.by_slug)
]

module _ (r : Repository) (t : TunnelRecord) (v : IsValid r) where
  abbrev holder : Option Text
  holder = JsMap.get t.client r.by_client

  abbrev parked : Repository
  parked = record r { orphans = JsMap.delete t.id r.orphans }

  abbrev cleared : Repository
  cleared = forget_existing parked (JsMap.get t.id r.by_id)

  abbrev vacated : Repository
  vacated = displace cleared t.id (JsMap.get t.client cleared.by_client)

  by_id-cleared : (x : Option TunnelRecord) → (forget_existing parked x).by_id ≡ r.by_id
  unfolding forget_existing
  by_id-cleared none = refl
  by_id-cleared (some x) = refl

  orphans-cleared :
      (x : Option TunnelRecord) → (forget_existing parked x).orphans ≡ JsMap.delete t.id r.orphans
  unfolding forget_existing
  orphans-cleared none = refl
  orphans-cleared (some x) = refl

  by_client-cleared :
      (x : Option TunnelRecord) (c : ℕ)
      → JsMap.get t.id r.by_id ≡ x
      → JsMap.get c (forget_existing parked x).by_client ≡ not_naming t.id (JsMap.get c r.by_client)
  unfolding forget_existing
  by_client-cleared none c e = elim (Option-cases (JsMap.get c r.by_client)) [
    | inl h ↦ ground arith
    | inr (o, h) ↦ ground (arith, v.owners c o h)
  ]
  by_client-cleared (some x) c e = elim (Option-cases (JsMap.get c r.by_client)) [
    | inl h ↦ ground (arith, get-delete x.client c r.by_client)
    | inr (o, h) ↦
        ground (arith, get-delete x.client c r.by_client, v.owners c o h, v.clients t.id x e)
  ]

  -- The tunnel by id: the new record, no longer the one that held the socket, else as before.
  pub by_id-save :
      (id : Text)
      → JsMap.get id (save r t).by_id
        ≡ ite (text_dec t.id id) (some t) (unless (holds holder id) (JsMap.get id r.by_id))
  by_id-save id =
      unfold save enter in
      ground (
        arith,
        get-set t.id id t vacated.by_id,
        displace-by_id cleared t.id id (JsMap.get t.client cleared.by_client),
        by_client-cleared (JsMap.get t.id r.by_id) t.client refl,
        by_id-cleared (JsMap.get t.id r.by_id),
      )

  -- The orphan of the id, if there was one, is gone.
  pub orphans-save :
      (id : Text)
      → JsMap.get id (save r t).orphans ≡ ite (text_dec t.id id) none (JsMap.get id r.orphans)
  orphans-save id =
      unfold save enter in
      rw (displace-orphans cleared t.id (JsMap.get t.client cleared.by_client))
        (rw (orphans-cleared (JsMap.get t.id r.by_id)) (get-delete t.id id r.orphans))

  -- The id by socket: the new one, none for a socket that the id had before, else as before.
  pub by_client-save :
      (c : ℕ)
      → JsMap.get c (save r t).by_client
        ≡ ite (ℕ_discrete t.client c) (some t.id) (not_naming t.id (JsMap.get c r.by_client))
  by_client-save c =
      unfold save enter in
      rw (displace-by_client cleared t.id (JsMap.get t.client cleared.by_client)) (
        get-set t.client c t.id cleared.by_client
        ∙ (rw (by_client-cleared (JsMap.get t.id r.by_id) c refl)))

  by_slug-cleared :
      (x : Option TunnelRecord) (s : Text)
      → JsMap.get t.id r.by_id ≡ x
      → tunnel_slug t.id ≢ s
      → JsMap.get s (forget_existing parked x).by_slug ≡ JsMap.get s r.by_slug
  unfolding forget_existing
  by_slug-cleared none s e ne = refl
  by_slug-cleared (some x) s e ne =
      ground (arith, v.ids t.id x e, get-delete (tunnel_slug x.id) s r.by_slug)

  by_slug-vacated :
      (s : Text) (h : Option Text)
      → holder ≡ h
      → tunnel_slug t.id ≢ s
      → JsMap.get s (displace cleared t.id (not_naming t.id h)).by_slug
        ≡ not_held h (JsMap.get s r.by_slug)
  by_slug-vacated s none e ne =
      rw (displace-by_slug cleared t.id s none)
        (ground (arith, by_slug-cleared (JsMap.get t.id r.by_id) s refl ne))
  by_slug-vacated s (some o) e ne = elim (text_dec o t.id) [
    | yes same ↦ ground (
      arith,
      displace-by_slug cleared t.id s none,
      by_slug-cleared (JsMap.get t.id r.by_id) s refl ne,
      v.slug_keys s o,
    )
    | no other ↦
        let (d, ed, _) = v.owners t.client o e in
        ground (
          arith,
          displace-by_slug cleared t.id s (some o),
          by_slug-cleared (JsMap.get t.id r.by_id) s refl ne,
          by_id-cleared (JsMap.get t.id r.by_id),
          v.ids o d ed,
          v.slugs o d ed,
          v.slug_keys s o,
        )
  ]

  -- The id by slug: the new one, none for the slug of the tunnel that held the socket, else as before.
  pub by_slug-save :
      (s : Text)
      → JsMap.get s (save r t).by_slug
        ≡ ite (text_dec (tunnel_slug t.id) s) (some t.id) (not_held holder (JsMap.get s r.by_slug))
  by_slug-save s =
      unfold save enter in
      ground (
        arith,
        get-set (tunnel_slug t.id) s t.id vacated.by_slug,
        by_slug-vacated s holder refl,
        by_client-cleared (JsMap.get t.id r.by_id) t.client refl,
      )

  -- The slug of the id is free, or is the id's already.
  abbrev pub SlugFree : Type 0
  SlugFree =
      (JsMap.get (tunnel_slug t.id) r.by_slug ≡ none)
      ⊎ (JsMap.get (tunnel_slug t.id) r.by_slug ≡ some t.id)

module _ (r : Repository) (t : TunnelRecord) (v : IsValid r) (free : SlugFree r t v) where
  save-owners :
      (c : ℕ) (id : Text)
      → JsMap.get c (save r t).by_client ≡ some id
      → (x : TunnelRecord) × (JsMap.get id (save r t).by_id ≡ some x) × (x.client ≡ c)
  save-owners c id h = elim (ℕ_discrete t.client c) [
    | yes p ↦ (t, ground (arith, by_client-save r t v c, by_id-save r t v id), p)
    | no p ↦
        let h' : JsMap.get c r.by_client ≡ some id = ground (arith, by_client-save r t v c) in
        let (x, e, q) = v.owners c id h' in
        (x, ground (arith, by_client-save r t v c, by_id-save r t v id, v.owners t.client id), q)
  ]

  save-Distinct : Distinct (save r t).orphans
  save-Distinct =
      unfold save enter in
      rw (displace-orphans (cleared r t v) t.id (JsMap.get t.client (cleared r t v).by_client)) (
        rw (orphans-cleared r t v (JsMap.get t.id r.by_id))
          (delete-Distinct t.id r.orphans v.distinct))

  -- Where the maps agree, they agree after a record is saved whose slug is free or its own already:
  -- also when the id had another socket, or the socket another tunnel.
  pub save-IsValid : IsValid (save r t)
  save-IsValid = record {
    ids = λ id x h. ground (arith, by_id-save r t v id, v.ids id x);
    clients = λ id x h. ground (
      arith,
      by_id-save r t v id,
      by_client-save r t v x.client,
      by_client-save r t v t.client,
      v.clients id x,
    );
    owners = save-owners;
    slugs = λ id x h.
        ground (arith, by_id-save r t v id, by_slug-save r t v (tunnel_slug id), v.slugs id x);
    slug_keys = λ s id h. ground (arith, by_slug-save r t v s, v.slug_keys s id);
    backed = λ s id h.
        ground
          (arith, by_slug-save r t v s, by_id-save r t v id, orphans-save r t v id, v.backed s id);
    reserved = λ id o h. ground (
      arith,
      orphans-save r t v id,
      by_slug-save r t v (tunnel_slug id),
      v.reserved id o,
      v.owners t.client id,
      v.apart id o,
    );
    orphan_ids = λ id o h. ground (arith, orphans-save r t v id, v.orphan_ids id o);
    apart = λ id o h. ground (arith, orphans-save r t v id, by_id-save r t v id, v.apart id o);
    distinct = save-Distinct;
  }
