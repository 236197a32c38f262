-- ===== src/Gateway/InOrder.antt =====
-- The parts of the gateway that are kept in order by each handler.
use looplink.Base.{ℕ, Option, none, some, Bool-cases, inl, inr}
use looplink.Text.{Text}
use looplink.Frames
use looplink.Frames.{Parsed, err, ok}
use looplink.Forwarding.{
  HttpMessage, Meta, request_start, request_chunk, request_end, response_start, response_chunk,
  response_end, cancel,
}
use looplink.Protocol.{
  ProtocolMessage, connected_message, create_tunnel_message, tunnel_created_message, error_message,
  ping_message, pong_message, http_message,
}
use looplink.Security.Policy
use looplink.Security.Policy.{Policy, RejectReason, Limits}
use looplink.Tunnels.Context.{TunnelOwnership}
use looplink.Tunnels.Repository
use looplink.Tunnels.Manager
use looplink.Tunnels.Manager.{Manager, Created, invalid_port, done, lookup}
use looplink.Tunnels.Manager.Laws.{IsFresh, create-IsValid}
use looplink.Exchanges
use looplink.Exchanges.{frame, error}
use looplink.Exchanges.Frames.{deliver-IsValid}
use looplink.Heartbeat
use looplink.Contexts
use looplink.Contexts.{TunnelContext}
use looplink.Workspaces.{create_tunnel}
use looplink.Gateway.{
  Gateway, Env, Reply, created, pong, refused, unauthorized_tunnel, unauthorized, forbidden,
  unsupported_message, tunnel_create_failed, bad_port, no_owner, options_for, or_kept, send_message,
  announce, create_owned, create_in, handle_create_tunnel, handle_ping, deliver_owned_http_frame,
  dispatch, is_owner,
}
use looplink.Gateway.Events.{World}

-- The parts of the gateway are in order: the seats and rates of the policy, the maps of the tunnel
-- repository, the table of exchanges, and the timer of the heartbeats.
abbrev pub IsValid : Gateway → Type 0
IsValid g =
    Policy.Laws.IsValid g.security
    × Repository.Views.IsValid g.tunnel_manager.repository
    × Exchanges.Table.IsValid g.http_exchanges
    × Heartbeat.Laws.IsValid g.heartbeats

module _ (w : World) (env : Env) (client : ℕ) where
  pub send-IsValid :
      (g : Gateway) (reply : Reply) → IsValid g → IsValid (send_message w.is_open g client reply)
  unfolding send_message
  send-IsValid g reply v = elim (Bool-cases (w.is_open client)) [ inl e ↦ rw e v | inr e ↦ rw e v ]

  announce-IsValid :
      (g : Gateway) (request_id : Text) (context : TunnelContext) (made : Manager × Created)
      → IsValid g
      → Repository.Views.IsValid made.0.repository
      → IsValid (announce w.is_open g client request_id context made)
  unfolding announce
  announce-IsValid g request_id context (manager, invalid_port) (a, b, c, d) h =
      send-IsValid (record g { tunnel_manager = manager })
        (refused (some request_id) (tunnel_create_failed bad_port)) (a, h, c, d)
  announce-IsValid g request_id context (manager, done made) (a, b, c, d) h =
      send-IsValid
        (record g {
          tunnel_manager = manager;
          context_sessions = or_kept g.context_sessions (
              Contexts.replace g.context_sessions client
                (Contexts.with_tunnel_id context (some made.tunnel.id)));
        })
        (created request_id made.tunnel.id made.public_url) (a, h, c, d)

  deliver_owned-IsValid :
      (g : Gateway) (m : Meta) (message : HttpMessage)
      → IsValid g
      → IsValid (deliver_owned_http_frame w.is_open w.decode g client m message)
  unfolding deliver_owned_http_frame
  deliver_owned-IsValid g m message (a, b, c, d) =
      elim (Bool-cases (is_owner (lookup g.tunnel_manager m.tunnel_id) client)) [
        | inl e ↦ rw e (a, b, deliver-IsValid w.decode g.http_exchanges c (frame message), d)
        | inr e ↦
            rw e (send-IsValid g (refused (some m.request_id) unauthorized_tunnel) (a, b, c, d))
      ]

  module _ (g : Gateway) (v : IsValid g) (fresh : IsFresh g.tunnel_manager.repository env.fresh_id)
      (request_id : Text) (port : ℕ) (preferred : Option Text) where
    create_owned-IsValid :
        (context : TunnelContext) (owner : Option TunnelOwnership)
        → IsValid
            (create_owned w.is_open w.mint g env client request_id port preferred context owner)
    unfolding create_owned
    create_owned-IsValid context none =
        send-IsValid g (refused (some request_id) (tunnel_create_failed no_owner)) v
    create_owned-IsValid context (some owner) =
        let options = options_for env context owner preferred in
        announce-IsValid g request_id context
          (Manager.create w.mint g.tunnel_manager env.fresh_id client port options) v
          (create-IsValid w.mint env.fresh_id client port options g.tunnel_manager v.1 fresh)

    create_in-IsValid :
        (context : Option TunnelContext)
        → IsValid (create_in w.is_open w.mint g env client request_id port preferred context)
    unfolding create_in
    create_in-IsValid none = send-IsValid g (refused (some request_id) unauthorized) v
    create_in-IsValid (some context) =
        elim (Bool-cases (Contexts.context_has_permission context create_tunnel)) [
          | inl e ↦ rw e (create_owned-IsValid context (Contexts.to_tunnel_ownership context))
          | inr e ↦ rw e (send-IsValid g (refused (some request_id) forbidden) v)
        ]

  pub dispatch-IsValid :
      (g : Gateway)
      → IsValid g
      → IsFresh g.tunnel_manager.repository env.fresh_id
      → (message : ProtocolMessage)
      → IsValid (dispatch w.is_open w.decode w.mint g env client message)
  unfolding dispatch handle_create_tunnel
  dispatch-IsValid g v f (create_tunnel_message id port preferred) =
      create_in-IsValid g v f id port preferred (Contexts.bound g.context_sessions client)
  dispatch-IsValid g (a, b, c, d) f (ping_message id) =
      unfold handle_ping in
      send-IsValid (record g { heartbeats = Heartbeat.beat g.heartbeats env.now client }) (pong id)
        (a, b, c, Heartbeat.Laws.beat-IsValid g.heartbeats env.now client d)
  dispatch-IsValid g (a, b, c, d) f (error_message code message id) =
      (a, b, deliver-IsValid w.decode g.http_exchanges c (error id message), d)
  dispatch-IsValid g v f (connected_message id) =
      send-IsValid g (refused none (unsupported_message Frames.connected)) v
  dispatch-IsValid g v f (tunnel_created_message id tunnel url) =
      send-IsValid g (refused none (unsupported_message Frames.tunnel_created)) v
  dispatch-IsValid g v f (pong_message id) =
      send-IsValid g (refused none (unsupported_message Frames.pong)) v
  dispatch-IsValid g v f (http_message (request_start m head)) =
      send-IsValid g (refused none (unsupported_message Frames.http_request_start)) v
  dispatch-IsValid g v f (http_message (request_chunk m chunk)) =
      send-IsValid g (refused none (unsupported_message Frames.http_request_chunk)) v
  dispatch-IsValid g v f (http_message (request_end m)) =
      send-IsValid g (refused none (unsupported_message Frames.http_request_end)) v
  dispatch-IsValid g v f (http_message (response_start m head)) =
      deliver_owned-IsValid g m (response_start m head) v
  dispatch-IsValid g v f (http_message (response_chunk m chunk)) =
      deliver_owned-IsValid g m (response_chunk m chunk) v
  dispatch-IsValid g v f (http_message (response_end m)) =
      deliver_owned-IsValid g m (response_end m) v
  dispatch-IsValid g v f (http_message (cancel m reason)) =
      deliver_owned-IsValid g m (cancel m reason) v
