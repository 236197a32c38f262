-- ===== src/Tunnels/Repository/Reclaim.antt =====
-- `reclaim`: when an orphan is restored, and what the repository then holds.
use looplink.Base.{
  ℕ, ◌≡◌, refl, ◌⊎◌, inl, inr, Bool, true, false, not, ◌&&◌, Option, none, some, ◌==◌, arith,
  Option-cases, Bool-cases,
}
use looplink.JsMap
use looplink.JsMap.{JsMap, nat_key, Distinct}
use looplink.JsMap.Laws.{get-delete, delete-delete}
use looplink.Text.{Text, text_key}
use looplink.Tunnels.Context.{
  TunnelRecord, OrphanedTunnel, TunnelOwnership, tunnel_contexts_equal, tunnel_contexts_equal_iff,
}
use looplink.Tunnels.PublicUrl.{tunnel_slug}
use looplink.Tunnels.Repository.{
  Repository, save, restored_of, has_expired, reclaim_orphan, reclaim,
}
use looplink.Tunnels.Repository.Views.{IsValid}
use looplink.Tunnels.Repository.Save.{save-IsValid}
use looplink.Tunnels.Repository.Orphans.{drop_orphan-IsValid, drop_orphan}

-- `save` forgets the orphan itself, so that forgetting it before makes no difference.
save_forgotten :
    (r : Repository) (t : TunnelRecord)
    → save (record r { orphans = JsMap.delete t.id r.orphans }) t ≡ save r t
unfolding save
save_forgotten r t = rw (delete-delete t.id r.orphans)

-- What a reconnecting client may take back.
abbrev pub may_reclaim : OrphanedTunnel → ℕ → ℕ → ℕ → TunnelOwnership → Bool
may_reclaim orphan port now window context =
    (orphan.port == port)
    && (tunnel_contexts_equal orphan.context context && not (has_expired orphan now window))

module _ (r : Repository) (id : Text) (client port now window : ℕ) (context : TunnelOwnership)
    (v : IsValid r) where
  abbrev attempt : Repository × Option TunnelRecord
  attempt = reclaim r id client port now window context

  -- With no orphan under the id nothing happens.
  pub reclaim_unknown : JsMap.get id r.orphans ≡ none → attempt ≡ (r, none)
  reclaim_unknown e = unfold reclaim in rw e

  module _ (o : OrphanedTunnel) (e : JsMap.get id r.orphans ≡ some o) where
    abbrev restored : TunnelRecord
    restored = restored_of o client

    id-restored : restored.id ≡ id
    id-restored = v.orphan_ids id o e

    -- An orphan of the same port and owner, inside the window, is saved for the new socket.
    pub reclaim_restores :
        may_reclaim o port now window context ≡ true → attempt ≡ (save r restored, some restored)
    reclaim_restores h =
        let same : save (record r { orphans = JsMap.delete id r.orphans }) restored
            ≡ save r restored =
          rw (← id-restored) (save_forgotten r restored) in
        unfold reclaim in rw e (unfold reclaim_orphan in ground (arith, same))

    -- Any other attempt restores nothing.
    pub reclaim_refuses : may_reclaim o port now window context ≡ false → attempt.1 ≡ none
    reclaim_refuses h = unfold reclaim in rw e (unfold reclaim_orphan in ground arith)

    restored-SlugFree : JsMap.get (tunnel_slug restored.id) r.by_slug ≡ some restored.id
    restored-SlugFree = rw id-restored (v.reserved id o e)

    reclaim-IsValid_known :
        (b : Bool) → may_reclaim o port now window context ≡ b → IsValid attempt.0
    reclaim-IsValid_known true h =
        rw (reclaim_restores h) (save-IsValid r restored v (inr restored-SlugFree))
    reclaim-IsValid_known false h = elim (reclaim_loses h) [
      | inl p ↦ rw p v
      | inr p ↦ rw p (drop_orphan-IsValid r id o e v)
    ]
      where
        reclaim_loses :
            may_reclaim o port now window context ≡ false
            → (attempt.0 ≡ r) ⊎ (attempt.0 ≡ drop_orphan r id)
        reclaim_loses h = unfold reclaim in rw e (unfold reclaim_orphan in ground arith)

  -- Where the maps agree, they agree after any attempt to reclaim a tunnel, also after one that fails.
  pub reclaim-IsValid : IsValid attempt.0
  reclaim-IsValid = elim (Option-cases (JsMap.get id r.orphans)) [
    | inl e ↦ rw (reclaim_unknown e) v
    | inr (o, e) ↦ reclaim-IsValid_known o e (may_reclaim o port now window context) refl
  ]

-- An attempt that restores nothing takes no slug.
pub by_slug-reclaim :
    (r : Repository) (id : Text) (client port now window : ℕ) (context : TunnelOwnership) (s : Text)
    → (reclaim r id client port now window context).1 ≡ none
    → JsMap.get s r.by_slug ≡ none
    → JsMap.get s (reclaim r id client port now window context).0.by_slug ≡ none
by_slug-reclaim r id client port now window context s lost h =
    elim (Option-cases (JsMap.get id r.orphans)) [
      | inl e ↦ unfold reclaim in rw e h
      | inr (o, e) ↦
          let lost' : (reclaim_orphan r id client port now window context (some o)).1 ≡ none =
            unfold reclaim in rw e at lost in
          unfold reclaim in
          rw e (unfold reclaim_orphan in ground (arith, get-delete (tunnel_slug id) s r.by_slug))
    ]

-- A tunnel that is restored is known under its id, on the new socket, with its port and owner.
pub reclaim_result :
    (r : Repository) (id : Text) (client port now window : ℕ) (context : TunnelOwnership)
    (v : IsValid r) (t : TunnelRecord)
    → (reclaim r id client port now window context).1 ≡ some t
    → ((reclaim r id client port now window context).0 ≡ save r t)
      × (t.id ≡ id)
      × (t.client ≡ client)
      × (t.port ≡ port)
      × (t.context ≡ context)
reclaim_result r id client port now window context v t h =
    elim (Option-cases (JsMap.get id r.orphans)) [
      | inl e ↦ absurd (
          unfold reclaim in ground (arith, reclaim_unknown r id client port now window context v e))
      | inr (o, e) ↦ elim (Bool-cases (may_reclaim o port now window context)) [
        | inl ok ↦
            let p = reclaim_restores r id client port now window context v o e ok in
            ground (arith, p, h, v.orphan_ids id o e, tunnel_contexts_equal_iff o.context context)
        | inr ko ↦
            absurd (ground (arith, reclaim_refuses r id client port now window context v o e ko))
      ]
    ]
