-- ===== src/Tunnels/Manager/Laws.antt =====
-- The manager keeps its repository in order, and tells the bus what it did.
use looplink.Base.{
  ℕ, ◌≡◌, refl, inl, inr, true, false, Option, none, some, List, [], ◌∷◌, arith, Bool-cases,
}
use looplink.JsMap
use looplink.Text.{Text, text_key}
use looplink.Tunnels.Context.{TunnelRecord, OrphanedTunnel, TunnelOwnership, CreatedTunnel}
use looplink.Tunnels.PublicUrl.{tunnel_slug}
use looplink.Tunnels.Repository
use looplink.Tunnels.Repository.{Repository}
use looplink.Tunnels.Repository.Views.{IsValid}
use looplink.Tunnels.Repository.Save.{save-IsValid}
use looplink.Tunnels.Repository.Removal.{remove-IsValid, remove_by_client-IsValid}
use looplink.Tunnels.Repository.Orphans.{orphan_by_client-IsValid}
use looplink.Tunnels.Repository.Purge.{purge_expired_orphans-IsValid, by_slug-purge}
use looplink.Tunnels.Repository.Reclaim.{reclaim-IsValid, by_slug-reclaim, reclaim_result}
use looplink.Tunnels.Repository.Lookups.{find-save}
use looplink.Tunnels.Manager.{
  Manager, CreateOptions, Created, publish_created, publish_closed, write, remove, expired,
  invalid_port, done, is_valid_port, close_purged, purge_expired, new_tunnel, create_new,
  create_after, create_preferred, create, unregister, unregister_client, detached, detach_client,
  lookup, lookup_by_slug,
}

close_purged-repository :
    (m : Manager) (os : List OrphanedTunnel) → (close_purged m os).repository ≡ m.repository
unfolding close_purged
close_purged-repository m [] = refl
close_purged-repository m (o ∷ os) = ground (
  arith,
  close_purged-repository (publish_closed (write m (remove o.id)) o.id o.workspace_id expired) os,
)

pub repository-purge_expired :
    (m : Manager) (now window : ℕ)
    → (purge_expired m now window).repository
      ≡ (Repository.purge_expired_orphans m.repository now window).0
unfolding purge_expired
repository-purge_expired m now window =
    let (r, purged) = Repository.purge_expired_orphans m.repository now window in
    close_purged-repository (record m { repository = r }) purged

-- No stored slug is that of the id: what a random id gives, but for a clash of sixteen digits.
abbrev pub IsFresh : Repository → Text → Type 0
IsFresh r id = JsMap.get (tunnel_slug id) r.by_slug ≡ none

module _ (mint : Text → Text) (fresh_id : Text) (client port : ℕ) (options : CreateOptions) where
  create_new-IsValid :
      (m : Manager)
      → IsValid m.repository
      → IsFresh m.repository fresh_id
      → IsValid (create_new mint m fresh_id client port options).0.repository
  create_new-IsValid m v free =
      let t = new_tunnel fresh_id client port options in
      let free' : IsFresh m.repository t.id = unfold new_tunnel in free in
      unfold create_new in ground (arith, save-IsValid m.repository t v (inl free'))

  create_after-IsValid :
      (m : Manager) (r : Repository) (found : Option TunnelRecord)
      → IsValid r
      → (found ≡ none → IsFresh r fresh_id)
      → IsValid (create_after mint m fresh_id client port options (r, found)).0.repository
  unfolding create_after
  create_after-IsValid m r none v free =
      create_new-IsValid (record m { repository = r }) v (free refl)
  create_after-IsValid m r (some t) v free = ground (arith, v)

  create_preferred-IsValid :
      (m : Manager) (preferred : Option Text)
      → IsValid m.repository
      → IsFresh m.repository fresh_id
      → IsValid (create_preferred mint m fresh_id client port options preferred).0.repository
  unfolding create_preferred
  create_preferred-IsValid m none v free = create_new-IsValid m v free
  create_preferred-IsValid m (some id) v free =
      let (now, window, owner) = args in
      let a = Repository.reclaim m.repository id client port now window owner in
      create_after-IsValid m a.0 a.1
        (reclaim-IsValid m.repository id client port now window owner v)
        (λ lost.
          by_slug-reclaim m.repository id client port now window owner (tunnel_slug fresh_id) lost
            free)
    where
      args : ℕ × ℕ × TunnelOwnership
      args = (options.now, options.reclaim_window_ms, options.context)

  -- Where the repository is in order and no stored slug is that of the fresh id, creation leaves the
  -- repository in order, whether it restores a tunnel, makes one or refuses the port.
  pub create-IsValid :
      (m : Manager)
      → IsValid m.repository
      → IsFresh m.repository fresh_id
      → IsValid (create mint m fresh_id client port options).0.repository
  unfolding create
  create-IsValid m v free = elim (Bool-cases (is_valid_port port)) [
    | inl e ↦ rw e (
        create_preferred-IsValid (purge_expired m options.now options.reclaim_window_ms)
          options.preferred_tunnel_id
          (rw (repository-purge_expired m options.now options.reclaim_window_ms)
            (purge_expired_orphans-IsValid options.now options.reclaim_window_ms m.repository v))
          (rw (repository-purge_expired m options.now options.reclaim_window_ms) (
            by_slug-purge options.now options.reclaim_window_ms m.repository (tunnel_slug fresh_id)
              free)))
    | inr e ↦ rw e v
  ]

  -- What a created tunnel is to its client: routable at once, by its id, its socket and its slug, on
  -- the port and for the owner that were asked for, under a URL minted from its id.
  pub record IsServed (m : Manager) (c : CreatedTunnel) : Type 0 where
    pub known : lookup m c.tunnel.id ≡ some c.tunnel
    pub by_client : Repository.find_by_client m.repository client ≡ some c.tunnel
    pub by_slug : lookup_by_slug m (tunnel_slug c.tunnel.id) ≡ some c.tunnel
    pub socket : c.tunnel.client ≡ client
    pub exposed : c.tunnel.port ≡ port
    pub owner : c.tunnel.context ≡ options.context
    pub url : c.public_url ≡ mint c.tunnel.id

  Outcome : Manager × Created → Type 0
  Outcome (m, invalid_port) = ⊥
  Outcome (m, done c) = IsServed m c

  create_new-Outcome :
      (m : Manager)
      → IsValid m.repository
      → Outcome (create_new mint m fresh_id client port options)
  create_new-Outcome m v =
      let t = new_tunnel fresh_id client port options in
      let (a, b, c) = find-save m.repository t v in
      unfold Outcome create_new lookup lookup_by_slug in
      record {
        known = ground (arith, a);
        by_client = ground (arith, b);
        by_slug = ground (arith, c);
        socket = refl;
        exposed = refl;
        owner = refl;
        url = refl;
      }

  create_preferred-Outcome :
      (m : Manager) (preferred : Option Text)
      → IsValid m.repository
      → Outcome (create_preferred mint m fresh_id client port options preferred)
  unfolding create_preferred
  create_preferred-Outcome m none v = create_new-Outcome m v
  create_preferred-Outcome m (some id) v = go a.1 refl
    where
      a : Repository × Option TunnelRecord
      a =
          Repository.reclaim m.repository id client port options.now options.reclaim_window_ms
            options.context

      valid : IsValid a.0
      valid =
          reclaim-IsValid m.repository id client port options.now options.reclaim_window_ms
            options.context v

      go :
          (found : Option TunnelRecord)
          → a.1 ≡ found
          → Outcome (create_after mint m fresh_id client port options (a.0, found))
      go none e = unfold create_after in create_new-Outcome (record m { repository = a.0 }) valid
      go (some t) e =
          let (p, q, sock, prt, own) =
            reclaim_result m.repository id client port options.now options.reclaim_window_ms
              options.context v t e in
          let (x, y, z) = find-save m.repository t v in
          unfold Outcome create_after publish_created lookup lookup_by_slug in
          record {
            known = ground (arith, p, x);
            by_client = ground (arith, p, y, sock);
            by_slug = ground (arith, p, z);
            socket = sock;
            exposed = prt;
            owner = own;
            url = refl;
          }

  -- Where the repository is in order, a valid port always gets a tunnel, restored or new, and the
  -- client is served by it: the tunnel is found by its id, by the socket and by its slug, has the
  -- port and the owner that were asked for, and its URL is minted from its id.
  pub create-serves :
      (m : Manager)
      → IsValid m.repository
      → is_valid_port port ≡ true
      → (c : CreatedTunnel) × ((create mint m fresh_id client port options).1 ≡ done c)
        × IsServed (create mint m fresh_id client port options).0 c
  create-serves m v e = split (create mint m fresh_id client port options) refl outcome
    where
      outcome : Outcome (create mint m fresh_id client port options)
      outcome =
          unfold create in
          rw e (
            create_preferred-Outcome (purge_expired m options.now options.reclaim_window_ms)
              options.preferred_tunnel_id
              (rw (repository-purge_expired m options.now options.reclaim_window_ms) (
                purge_expired_orphans-IsValid options.now options.reclaim_window_ms m.repository
                  v)))

      split :
          (x : Manager × Created)
          → create mint m fresh_id client port options ≡ x
          → Outcome x
          → (c : CreatedTunnel) × (x.1 ≡ done c) × IsServed x.0 c
      split (m', invalid_port) p o = absurd (unfold Outcome in o)
      split (m', done c) p o = (c, refl, unfold Outcome in o)

  -- A port out of range changes nothing.
  pub create_invalid :
      (m : Manager)
      → is_valid_port port ≡ false
      → create mint m fresh_id client port options ≡ (m, invalid_port)
  unfolding create
  create_invalid m e = rw e

-- The other methods keep the repository in order too.
pub unregister-IsValid :
    (m : Manager) (id : Text) → IsValid m.repository → IsValid (unregister m id).0.repository
unfolding unregister
unregister-IsValid m id v = ground (arith, remove-IsValid m.repository id v)

pub unregister_client-IsValid :
    (m : Manager) (client : ℕ)
    → IsValid m.repository
    → IsValid (unregister_client m client).0.repository
unfolding unregister_client
unregister_client-IsValid m client v =
    ground (arith, remove_by_client-IsValid m.repository client v)

pub detach_client-IsValid :
    (m : Manager) (now client : ℕ)
    → IsValid m.repository
    → IsValid (detach_client m now client).0.repository
unfolding detach_client
detach_client-IsValid m now client v =
    go (Repository.orphan_by_client m.repository client now)
      (orphan_by_client-IsValid m.repository client now v)
  where
    go :
        (x : Repository × Option OrphanedTunnel) → IsValid x.0 → IsValid (detached m x).0.repository
    go (r, none) h = h
    go (r, some o) h = h
