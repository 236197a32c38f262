-- ===== src/Gateway/Cleanup.antt =====
-- What is left of a socket that has gone.
use looplink.Base.{ℕ, ◌≡◌, ◌≢◌, refl, ap, ◌∙◌, Option, none, some, arith}
use looplink.JsMap
use looplink.JsMap.{Key, JsMap, nat_key}
use looplink.JsMap.Laws.{get-delete_self, get-delete_ne}
use looplink.Text.{Text}
use looplink.Security.Policy
use looplink.Security.Policy.{Policy}
use looplink.Tunnels.Context.{TunnelRecord, OrphanedTunnel}
use looplink.Tunnels.Repository
use looplink.Tunnels.Repository.{Repository, orphan_by_client, orphan_id, orphan_existing}
use looplink.Tunnels.Repository.Views.{IsValid}
use looplink.Tunnels.Manager.{Manager, detach_client, detached, publish_closed, lookup}
use looplink.Tunnels.Manager.Laws.{detach_client-IsValid}
use looplink.Heartbeat
use looplink.Heartbeat.{HeartbeatMonitor}
use looplink.Contexts
use looplink.Gateway.{Gateway, handle_disconnect}

orphan_by_client-gone :
    (r : Repository) (client at : ℕ)
    → JsMap.get client (orphan_by_client r client at).0.by_client ≡ none
unfolding orphan_by_client orphan_id orphan_existing
orphan_by_client-gone r client at = ground (arith, get-delete_self client r.by_client)

detach-repository :
    (m : Manager) (now client : ℕ)
    → (detach_client m now client).0.repository ≡ (orphan_by_client m.repository client now).0
unfolding detach_client detached publish_closed
detach-repository m now client = go (orphan_by_client m.repository client now)
  where
    go : (x : Repository × Option OrphanedTunnel) → (detached m x).0.repository ≡ x.0
    go (r, none) = refl
    go (r, some o) = refl

release-gone :
    (p : Policy) (client : ℕ) → JsMap.get client (Policy.release p client).ip_by_client ≡ none
unfolding Policy.release Policy.release_ip
release-gone p client = ground (arith, get-delete_self client p.ip_by_client)

pub release-stays :
    (p : Policy) (client other : ℕ)
    → client ≢ other
    → JsMap.get other (Policy.release p client).ip_by_client ≡ JsMap.get other p.ip_by_client
unfolding Policy.release Policy.release_ip
release-stays p client other h = ground (arith, get-delete_ne client other p.ip_by_client h)

pub unregister-get :
    (m : HeartbeatMonitor) (client other : ℕ)
    → JsMap.get other (Heartbeat.unregister m client).last_beat_at
      ≡ JsMap.get other (JsMap.delete client m.last_beat_at)
unfolding Heartbeat.unregister
unregister-get m client other = ground arith

-- Nothing of a socket is left: no context, heartbeat, address or tunnel.
pub record Absent (g : Gateway) (client : ℕ) : Type 0 where
  pub unbound : Contexts.bound g.context_sessions client ≡ none
  pub untracked : JsMap.get client g.heartbeats.last_beat_at ≡ none
  pub unseated : JsMap.get client g.security.ip_by_client ≡ none
  pub without_tunnel :
      (id : Text) (t : TunnelRecord) → lookup g.tunnel_manager id ≡ some t → t.client ≢ client

-- Where the repository of the gateway is in order, nothing of a socket is left once its
-- disconnection was handled: no context is bound to it, no heartbeat and no address is kept for it,
-- and no tunnel that can be looked up has it as its client.
pub handle_disconnect-Absent :
    (g : Gateway) (now client : ℕ)
    → IsValid g.tunnel_manager.repository
    → Absent (handle_disconnect g now client) client
unfolding handle_disconnect Contexts.bound Contexts.destroy lookup Repository.find_by_id
handle_disconnect-Absent g now client v = record {
  unbound = get-delete_self client g.context_sessions;
  untracked =
      unregister-get g.heartbeats client client ∙ get-delete_self client g.heartbeats.last_beat_at;
  unseated = release-gone g.security client;
  without_tunnel = λ id t p q.
      let w = detach_client-IsValid g.tunnel_manager now client v in
      let held = w.clients id t p in
      let gone =
        ap (λ r. JsMap.get client r.by_client) (detach-repository g.tunnel_manager now client)
        ∙ orphan_by_client-gone g.tunnel_manager.repository client now in
      cc;
}
