-- ===== src/Gateway/Undisturbed.antt =====
-- What each handler, run for one socket, leaves of the others.
use looplink.Base.{
  ℕ, ◌≡◌, ◌≢◌, refl, sym, ◌∙◌, Bool, Option, none, some, arith, Bool-cases, inl, inr,
}
use looplink.JsMap
use looplink.JsMap.{nat_key}
use looplink.JsMap.Laws.{get-set_ne}
use looplink.Text.{Text}
use looplink.Frames
use looplink.Frames.{Parsed, err, ok}
use looplink.Forwarding.{
  HttpMessage, Meta, request_start, request_chunk, request_end, response_start, response_chunk,
  response_end, cancel,
}
use looplink.Protocol.{
  ProtocolMessage, connected_message, create_tunnel_message, tunnel_created_message, error_message,
  ping_message, pong_message, http_message,
}
use looplink.Tunnels.Context.{TunnelRecord, TunnelOwnership}
use looplink.Tunnels.Repository
use looplink.Tunnels.Repository.Views.{IsValid}
use looplink.Tunnels.Manager
use looplink.Tunnels.Manager.{Manager, Created, invalid_port, done, lookup}
use looplink.Tunnels.Manager.Laws.{IsFresh}
use looplink.Tunnels.Manager.Others.{create-Keeps}
use looplink.Heartbeat
use looplink.Heartbeat.{HeartbeatMonitor}
use looplink.Contexts
use looplink.Contexts.{TunnelContext, SessionStore}
use looplink.Workspaces.{create_tunnel}
use looplink.Gateway.{
  Gateway, Env, Reply, created, pong, refused, unauthorized_tunnel, unauthorized, forbidden,
  unsupported_message, tunnel_create_failed, bad_port, no_owner, options_for, send_message,
  announce, create_owned, create_in, handle_create_tunnel, handle_ping, deliver_owned_http_frame,
  dispatch, is_owner, or_kept,
}
use looplink.Gateway.Events.{World}

-- A socket has the context, the heartbeat, the address and the tunnels that it had.
abbrev pub Undisturbed : Gateway → Gateway → ℕ → Type 0
Undisturbed g g' other =
    (Contexts.bound g'.context_sessions other ≡ Contexts.bound g.context_sessions other)
    × (JsMap.get other g'.heartbeats.last_beat_at ≡ JsMap.get other g.heartbeats.last_beat_at)
    × (JsMap.get other g'.security.ip_by_client ≡ JsMap.get other g.security.ip_by_client)
    × ((id : Text) (t : TunnelRecord)
        → lookup g.tunnel_manager id ≡ some t
        → t.client ≡ other
        → lookup g'.tunnel_manager id ≡ some t)

module _ (other : ℕ) where
  untouched : (g : Gateway) → Undisturbed g g other
  untouched g = (refl, refl, refl, λ id t p q. p)

  and_then :
      (g g' h : Gateway) → Undisturbed g g' other → Undisturbed g' h other → Undisturbed g h other
  and_then g g' h (a, b, c, d) (x, y, z, w) =
      (x ∙ a, y ∙ b, z ∙ c, λ id t p q. w id t (d id t p q) q)

  pub send-Undisturbed :
      (is_open : ℕ → Bool) (g g' : Gateway) (client : ℕ) (reply : Reply)
      → Undisturbed g g' other
      → Undisturbed g (send_message is_open g' client reply) other
  unfolding send_message
  send-Undisturbed is_open g g' client reply h = elim (Bool-cases (is_open client)) [
    | inl e ↦ rw e h
    | inr e ↦ rw e h
  ]

  module _ (client : ℕ) (ne : client ≢ other) where
    beat_stays :
        (m : HeartbeatMonitor) (now : ℕ)
        → JsMap.get other (Heartbeat.beat m now client).last_beat_at
          ≡ JsMap.get other m.last_beat_at
    unfolding Heartbeat.beat
    beat_stays m now = ground (arith, get-set_ne client other now m.last_beat_at ne)

    create-lookup :
        (mint : Text → Text) (fresh_id : Text) (port : ℕ) (options : Manager.CreateOptions)
        (m : Manager) (id : Text) (t : TunnelRecord)
        → IsValid m.repository
        → IsFresh m.repository fresh_id
        → lookup m id ≡ some t
        → t.client ≡ other
        → lookup (Manager.create mint m fresh_id client port options).0 id ≡ some t
    unfolding lookup Repository.find_by_id
    create-lookup mint fresh_id port options m id t v free p q =
        create-Keeps mint fresh_id client port options m v free id t p (λ e. ne (sym e ∙ q))

    replace_stays :
        (s : SessionStore) (context : TunnelContext)
        → Contexts.bound (or_kept s (Contexts.replace s client context)) other
          ≡ Contexts.bound s other
    unfolding Contexts.bound Contexts.replace
    replace_stays s context = ground (arith, get-set_ne client other context s ne)

    announce-Undisturbed :
        (is_open : ℕ → Bool) (g : Gateway) (request_id : Text) (context : TunnelContext)
        (made : Manager × Created)
        → ((id : Text) (t : TunnelRecord)
            → lookup g.tunnel_manager id ≡ some t
            → t.client ≡ other
            → lookup made.0 id ≡ some t)
        → Undisturbed g (announce is_open g client request_id context made) other
    unfolding announce
    announce-Undisturbed is_open g request_id context (manager, invalid_port) h =
        send-Undisturbed is_open g (record g { tunnel_manager = manager }) client
          (refused (some request_id) (tunnel_create_failed bad_port)) (refl, refl, refl, h)
    announce-Undisturbed is_open g request_id context (manager, done c) h =
        send-Undisturbed is_open g
          (record g {
            tunnel_manager = manager;
            context_sessions = or_kept g.context_sessions (
                Contexts.replace g.context_sessions client
                  (Contexts.with_tunnel_id context (some c.tunnel.id)));
          })
          client (created request_id c.tunnel.id c.public_url)
          (
            replace_stays g.context_sessions (Contexts.with_tunnel_id context (some c.tunnel.id)),
            refl,
            refl,
            h,
          )

    module _ (w : World) (env : Env) where
      ping-Undisturbed :
          (g : Gateway) (id : Text) → Undisturbed g (handle_ping w.is_open g env client id) other
      unfolding handle_ping
      ping-Undisturbed g id =
          send-Undisturbed w.is_open g
            (record g { heartbeats = Heartbeat.beat g.heartbeats env.now client }) client (pong id)
            (refl, beat_stays g.heartbeats env.now, refl, λ id t p q. p)

      pub refuse-Undisturbed :
          (g : Gateway) (reply : Reply)
          → Undisturbed g (send_message w.is_open g client reply) other
      refuse-Undisturbed g reply = send-Undisturbed w.is_open g g client reply (untouched g)

      deliver-Undisturbed :
          (g : Gateway) (m : Meta) (message : HttpMessage)
          → Undisturbed g (deliver_owned_http_frame w.is_open w.decode g client m message) other
      unfolding deliver_owned_http_frame
      deliver-Undisturbed g m message =
          elim (Bool-cases (is_owner (lookup g.tunnel_manager m.tunnel_id) client)) [
            | inl e ↦ rw e (refl, refl, refl, λ id t p q. p)
            | inr e ↦ rw e (refuse-Undisturbed g (refused (some m.request_id) unauthorized_tunnel))
          ]

      module _ (g : Gateway) (v : IsValid g.tunnel_manager.repository)
          (fresh : IsFresh g.tunnel_manager.repository env.fresh_id) (request_id : Text) (port : ℕ)
          (preferred : Option Text) where
        create_owned-Undisturbed :
            (context : TunnelContext) (owner : Option TunnelOwnership)
            → Undisturbed g
                (create_owned w.is_open w.mint g env client request_id port preferred context owner)
                other
        unfolding create_owned
        create_owned-Undisturbed context none =
            refuse-Undisturbed g (refused (some request_id) (tunnel_create_failed no_owner))
        create_owned-Undisturbed context (some owner) =
            announce-Undisturbed w.is_open g request_id context
              (Manager.create w.mint g.tunnel_manager env.fresh_id client port
                (options_for env context owner preferred))
              (λ id t.
                create-lookup w.mint env.fresh_id port (options_for env context owner preferred)
                  g.tunnel_manager id t v fresh)

        create_in-Undisturbed :
            (context : Option TunnelContext)
            → Undisturbed g
                (create_in w.is_open w.mint g env client request_id port preferred context)
                other
        unfolding create_in
        create_in-Undisturbed none = refuse-Undisturbed g (refused (some request_id) unauthorized)
        create_in-Undisturbed (some context) =
            elim (Bool-cases (Contexts.context_has_permission context create_tunnel)) [
              | inl e ↦
                  rw e (create_owned-Undisturbed context (Contexts.to_tunnel_ownership context))
              | inr e ↦ rw e (refuse-Undisturbed g (refused (some request_id) forbidden))
            ]

      pub dispatch-Undisturbed :
          (g : Gateway)
          → IsValid g.tunnel_manager.repository
          → IsFresh g.tunnel_manager.repository env.fresh_id
          → (message : ProtocolMessage)
          → Undisturbed g (dispatch w.is_open w.decode w.mint g env client message) other
      unfolding dispatch handle_create_tunnel
      dispatch-Undisturbed g v f (create_tunnel_message id port preferred) =
          create_in-Undisturbed g v f id port preferred (Contexts.bound g.context_sessions client)
      dispatch-Undisturbed g v f (ping_message id) = ping-Undisturbed g id
      dispatch-Undisturbed g v f (error_message code message id) = untouched g
      dispatch-Undisturbed g v f (connected_message id) =
          refuse-Undisturbed g (refused none (unsupported_message Frames.connected))
      dispatch-Undisturbed g v f (tunnel_created_message id tunnel url) =
          refuse-Undisturbed g (refused none (unsupported_message Frames.tunnel_created))
      dispatch-Undisturbed g v f (pong_message id) =
          refuse-Undisturbed g (refused none (unsupported_message Frames.pong))
      dispatch-Undisturbed g v f (http_message (request_start m head)) =
          refuse-Undisturbed g (refused none (unsupported_message Frames.http_request_start))
      dispatch-Undisturbed g v f (http_message (request_chunk m chunk)) =
          refuse-Undisturbed g (refused none (unsupported_message Frames.http_request_chunk))
      dispatch-Undisturbed g v f (http_message (request_end m)) =
          refuse-Undisturbed g (refused none (unsupported_message Frames.http_request_end))
      dispatch-Undisturbed g v f (http_message (response_start m head)) =
          deliver-Undisturbed g m (response_start m head)
      dispatch-Undisturbed g v f (http_message (response_chunk m chunk)) =
          deliver-Undisturbed g m (response_chunk m chunk)
      dispatch-Undisturbed g v f (http_message (response_end m)) =
          deliver-Undisturbed g m (response_end m)
      dispatch-Undisturbed g v f (http_message (cancel m reason)) =
          deliver-Undisturbed g m (cancel m reason)
