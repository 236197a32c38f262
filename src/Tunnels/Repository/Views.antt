-- ===== src/Tunnels/Repository/Views.antt =====
-- The four maps agree, and every method keeps them so.
use looplink.Base.{ℕ, ◌≡◌, true, ◌||◌, none, some}
use looplink.JsMap
use looplink.JsMap.{JsMap, Distinct, nat_key}
use looplink.Text.{Text, text_key}
use looplink.Tunnels.Context.{TunnelRecord, OrphanedTunnel}
use looplink.Tunnels.PublicUrl.{tunnel_slug}
use looplink.Tunnels.Repository.{Repository, empty}

pub record IsValid (r : Repository) : Type 0 where
  pub ids : (id : Text) (t : TunnelRecord) → JsMap.get id r.by_id ≡ some t → t.id ≡ id
  pub clients :
      (id : Text) (t : TunnelRecord)
      → JsMap.get id r.by_id ≡ some t
      → JsMap.get t.client r.by_client ≡ some id
  pub owners :
      (c : ℕ) (id : Text)
      → JsMap.get c r.by_client ≡ some id
      → (t : TunnelRecord) × (JsMap.get id r.by_id ≡ some t) × (t.client ≡ c)
  pub slugs :
      (id : Text) (t : TunnelRecord)
      → JsMap.get id r.by_id ≡ some t
      → JsMap.get (tunnel_slug id) r.by_slug ≡ some id
  pub slug_keys : (s id : Text) → JsMap.get s r.by_slug ≡ some id → s ≡ tunnel_slug id
  pub backed :
      (s id : Text)
      → JsMap.get s r.by_slug ≡ some id
      → (JsMap.has id r.by_id || JsMap.has id r.orphans) ≡ true
  pub reserved :
      (id : Text) (o : OrphanedTunnel)
      → JsMap.get id r.orphans ≡ some o
      → JsMap.get (tunnel_slug id) r.by_slug ≡ some id
  pub orphan_ids : (id : Text) (o : OrphanedTunnel) → JsMap.get id r.orphans ≡ some o → o.id ≡ id
  pub apart :
      (id : Text) (o : OrphanedTunnel)
      → JsMap.get id r.orphans ≡ some o
      → JsMap.get id r.by_id ≡ none
  pub distinct : Distinct r.orphans

pub empty-IsValid : IsValid empty
unfolding JsMap.get
empty-IsValid = record {
  ids = λ id t h. cc;
  clients = λ id t h. cc;
  owners = λ c id h. absurd (cc);
  slugs = λ id t h. cc;
  slug_keys = λ s id h. cc;
  backed = λ s id h. cc;
  reserved = λ id o h. cc;
  orphan_ids = λ id o h. cc;
  apart = λ id o h. cc;
  distinct = tt;
}
