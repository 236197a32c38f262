-- ===== src/Tunnels/Manager/Others.antt =====
-- What the methods of a client leave of the tunnels of the others.
use looplink.Base.{ℕ, ◌≡◌, ◌≢◌, refl, Option, none, some, arith, Bool-cases, Option-cases, inl, inr}
use looplink.JsMap
use looplink.JsMap.{JsMap, nat_key}
use looplink.JsMap.Laws.{get-delete}
use looplink.Text.{Text, text_key}
use looplink.Tunnels.Context.{TunnelRecord, OrphanedTunnel, TunnelOwnership}
use looplink.Tunnels.PublicUrl.{tunnel_slug}
use looplink.Tunnels.Repository
use looplink.Tunnels.Repository.{Repository, save, reclaim_orphan, orphan_existing, orphan_id}
use looplink.Tunnels.Repository.Views.{IsValid}
use looplink.Tunnels.Repository.Save.{by_id-save}
use looplink.Tunnels.Repository.Reclaim.{
  reclaim_result, reclaim_unknown, reclaim-IsValid, by_slug-reclaim,
}
use looplink.Tunnels.Repository.Purge.{
  purge_expired_orphans_lem, purge_expired_orphans-IsValid, by_slug-purge,
}
use looplink.Tunnels.Manager.{
  Manager, CreateOptions, create, create_new, create_after, create_preferred, register, new_tunnel,
  publish_created, is_valid_port, detach_client, detached, publish_closed, purge_expired,
}
use looplink.Tunnels.Manager.Laws.{IsFresh, repository-purge_expired}

-- Every tunnel of a socket other than `client` stays as it is.
abbrev pub Keeps : Repository → Repository → ℕ → Type 0
Keeps r r' client =
    (id : Text) (x : TunnelRecord)
    → JsMap.get id r.by_id ≡ some x
    → x.client ≢ client
    → JsMap.get id r'.by_id ≡ some x

save-Keeps :
    (r : Repository) (t : TunnelRecord)
    → IsValid r
    → JsMap.get t.id r.by_id ≡ none
    → Keeps r (save r t) t.client
save-Keeps r t v free =
    λ id x p ne. ground (arith, by_id-save r t v id, v.clients id x p, v.owners t.client id)

fresh-by_id : (r : Repository) (id : Text) → IsValid r → IsFresh r id → JsMap.get id r.by_id ≡ none
fresh-by_id r id v free = elim (Option-cases (JsMap.get id r.by_id)) [
  | inl e ↦ e
  | inr (x, e) ↦ ground (arith, v.slugs id x e)
]

reclaim_lost :
    (r : Repository) (id : Text) (client port now window : ℕ) (context : TunnelOwnership)
    → (Repository.reclaim r id client port now window context).1 ≡ none
    → (Repository.reclaim r id client port now window context).0.by_id ≡ r.by_id
reclaim_lost r id client port now window context lost =
    elim (Option-cases (JsMap.get id r.orphans)) [
      | inl e ↦ unfold Repository.reclaim reclaim_orphan in rw e refl
      | inr (o, e) ↦
          let lost' : (reclaim_orphan r id client port now window context (some o)).1 ≡ none =
            unfold Repository.reclaim in rw e at lost in
          unfold Repository.reclaim in rw e (unfold reclaim_orphan in ground arith)
    ]

reclaim_absent :
    (r : Repository) (id : Text) (client port now window : ℕ) (context : TunnelOwnership)
    (t : TunnelRecord)
    → IsValid r
    → (Repository.reclaim r id client port now window context).1 ≡ some t
    → JsMap.get id r.by_id ≡ none
reclaim_absent r id client port now window context t v p =
    elim (Option-cases (JsMap.get id r.orphans)) [
      | inl e ↦ absurd (ground (arith, p, reclaim_unknown r id client port now window context v e))
      | inr (o, e) ↦ v.apart id o e
    ]

module _ (mint : Text → Text) (fresh_id : Text) (client port : ℕ) (options : CreateOptions) where
  create_new-Keeps :
      (m : Manager)
      → IsValid m.repository
      → IsFresh m.repository fresh_id
      → Keeps m.repository (create_new mint m fresh_id client port options).0.repository client
  unfolding create_new publish_created register new_tunnel
  create_new-Keeps m v free id x p ne =
      let t = new_tunnel fresh_id client port options in
      let kept = save-Keeps m.repository t v (fresh-by_id m.repository fresh_id v free) id x p ne in
      ground (arith, kept)

  create_preferred-Keeps :
      (m : Manager) (preferred : Option Text)
      → IsValid m.repository
      → IsFresh m.repository fresh_id
      → Keeps m.repository
          (create_preferred mint m fresh_id client port options preferred).0.repository
          client
  unfolding create_preferred
  create_preferred-Keeps m none v free = create_new-Keeps m v free
  create_preferred-Keeps m (some id) v free = go a.1 refl
    where
      a : Repository × Option TunnelRecord
      a =
          Repository.reclaim m.repository id client port options.now options.reclaim_window_ms
            options.context

      valid : IsValid a.0
      valid =
          reclaim-IsValid m.repository id client port options.now options.reclaim_window_ms
            options.context v

      go :
          (found : Option TunnelRecord)
          → a.1 ≡ found
          → Keeps m.repository
              (create_after mint m fresh_id client port options (a.0, found)).0.repository
              client
      go none e =
          let same =
            reclaim_lost m.repository id client port options.now options.reclaim_window_ms
              options.context e in
          let free' =
            by_slug-reclaim m.repository id client port options.now options.reclaim_window_ms
              options.context (tunnel_slug fresh_id) e free in
          unfold create_after in
          λ k x p ne.
            create_new-Keeps (record m { repository = a.0 }) valid free' k x (rw same p) ne
      go (some t) e =
          let (p, q, sock, prt, own) =
            reclaim_result m.repository id client port options.now options.reclaim_window_ms
              options.context v t e in
          let absent =
            reclaim_absent m.repository id client port options.now options.reclaim_window_ms
              options.context t v e in
          let kept = save-Keeps m.repository t v (rw q absent) in
          unfold create_after publish_created in λ k x h ne. ground (arith, p, sock, kept k x h)

  -- Where the repository is in order and no stored slug is that of the fresh id, the creation of a
  -- tunnel for a client, restored or new, leaves every tunnel of the other clients as it is.
  pub create-Keeps :
      (m : Manager)
      → IsValid m.repository
      → IsFresh m.repository fresh_id
      → Keeps m.repository (create mint m fresh_id client port options).0.repository client
  unfolding create
  create-Keeps m v free = elim (Bool-cases (is_valid_port port)) [
    | inl e ↦
        let (now, window) = times in
        let (_, _, ids, _, _) = purge_expired_orphans_lem now window m.repository v in
        let purged = repository-purge_expired m now window in
        let w : IsValid (purge_expired m now window).repository =
          rw purged (purge_expired_orphans-IsValid now window m.repository v) in
        let free' : IsFresh (purge_expired m now window).repository fresh_id =
          rw purged (by_slug-purge now window m.repository (tunnel_slug fresh_id) free) in
        let kept =
          create_preferred-Keeps (purge_expired m now window) options.preferred_tunnel_id w free' in
        rw e (λ k x p ne. kept k x (rw purged (rw ids p)) ne)
    | inr e ↦ rw e (λ k x p ne. p)
  ]
    where
      times : ℕ × ℕ
      times = (options.now, options.reclaim_window_ms)

orphan_by_client-Keeps :
    (r : Repository) (client at : ℕ)
    → IsValid r
    → Keeps r (Repository.orphan_by_client r client at).0 client
unfolding Repository.orphan_by_client orphan_id orphan_existing
orphan_by_client-Keeps r client at v id x p ne =
    elim (Option-cases (JsMap.get client r.by_client)) [
      | inl e ↦ rw e p
      | inr (k, e) ↦ ground (arith, v.owners client k e, get-delete k id r.by_id)
    ]

-- Where the repository is in order, the tunnels of the other clients stay when one leaves.
pub detach_client-Keeps :
    (m : Manager) (now client : ℕ)
    → IsValid m.repository
    → Keeps m.repository (detach_client m now client).0.repository client
unfolding detach_client
detach_client-Keeps m now client v =
    go (Repository.orphan_by_client m.repository client now)
      (orphan_by_client-Keeps m.repository client now v)
  where
    go :
        (x : Repository × Option OrphanedTunnel)
        → Keeps m.repository x.0 client
        → Keeps m.repository (detached m x).0.repository client
    go (r, none) h = unfold detached in h
    go (r, some o) h = unfold detached publish_closed in h
