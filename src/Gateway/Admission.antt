-- ===== src/Gateway/Admission.antt =====
-- Who may change what by a message.
use looplink.Base.{
  ℕ, ◌≡◌, ◌⊎◌, inl, inr, refl, Bool, true, false, Option, none, some, arith, Bool-cases,
}
use looplink.JsMap.{nat_key}
use looplink.Text.{Text}
use looplink.Frames
use looplink.Heartbeat
use looplink.Frames.{Parsed, Value, err, ok}
use looplink.Forwarding.{
  HttpMessage, Meta, request_start, request_chunk, request_end, response_start, response_chunk,
  response_end, cancel,
}
use looplink.Protocol.{
  ProtocolMessage, connected_message, create_tunnel_message, tunnel_created_message, error_message,
  ping_message, pong_message, http_message, parse_protocol_message,
}
use looplink.Security.Policy
use looplink.Security.Policy.{Policy}
use looplink.Tunnels.Context.{TunnelOwnership}
use looplink.Tunnels.Manager
use looplink.Tunnels.Manager.{Manager, Created, invalid_port, done, lookup}
use looplink.Contexts
use looplink.Contexts.{TunnelContext}
use looplink.Workspaces.{create_tunnel}
use looplink.Gateway.{
  Gateway, Env, Reply, refused, pong, announce, unauthorized, forbidden, unauthorized_tunnel,
  unsupported_message, tunnel_create_failed, no_owner, options_for, rate_limited, invalid_message,
  send_message, dispatch, limited, handle_parsed, handle_client_message, is_owner, create_owned,
  create_in, handle_create_tunnel, handle_ping, deliver_owned_http_frame,
  is_http_data_plane_from_client,
}
use looplink.Gateway.Events.{World}

-- What is the same: the tunnels, and the exchanges.
send-parts :
    (w : World) (g : Gateway) (client : ℕ) (reply : Reply)
    → ((send_message w.is_open g client reply).tunnel_manager ≡ g.tunnel_manager)
      × ((send_message w.is_open g client reply).http_exchanges ≡ g.http_exchanges)
      × ((send_message w.is_open g client reply).context_sessions ≡ g.context_sessions)
unfolding send_message
send-parts w g client reply = ground arith

-- A response frame of a tunnel that the socket is the client of, or an error.
abbrev pub MayDeliver : Gateway → ℕ → ProtocolMessage → Type 0
MayDeliver g client (http_message (response_start m head)) =
    is_owner (lookup g.tunnel_manager m.tunnel_id) client ≡ true
MayDeliver g client (http_message (response_chunk m chunk)) =
    is_owner (lookup g.tunnel_manager m.tunnel_id) client ≡ true
MayDeliver g client (http_message (response_end m)) =
    is_owner (lookup g.tunnel_manager m.tunnel_id) client ≡ true
MayDeliver g client (http_message (cancel m reason)) =
    is_owner (lookup g.tunnel_manager m.tunnel_id) client ≡ true
MayDeliver g client (error_message code message id) = Unit
MayDeliver g client m = ⊥

-- A request for a tunnel by a socket whose context may create one.
abbrev pub MayCreate : Gateway → ℕ → ProtocolMessage → Type 0
MayCreate g client (create_tunnel_message id port preferred) =
    (context : TunnelContext) × (Contexts.bound g.context_sessions client ≡ some context)
    × (Contexts.context_has_permission context create_tunnel ≡ true)
MayCreate g client m = ⊥

-- The exchanges and the tunnels change by a message that may change them only.
abbrev pub Warranted : Gateway → Gateway → ℕ → ProtocolMessage → Type 0
Warranted g g' client m =
    ((g'.http_exchanges ≡ g.http_exchanges) ⊎ MayDeliver g client m)
    × ((g'.tunnel_manager ≡ g.tunnel_manager) ⊎ MayCreate g client m)

abbrev pub WarrantedBy : Gateway → Gateway → ℕ → Parsed ProtocolMessage → Type 0
WarrantedBy g g' client (err e) =
    (g'.http_exchanges ≡ g.http_exchanges) × (g'.tunnel_manager ≡ g.tunnel_manager)
WarrantedBy g g' client (ok m) = Warranted g g' client m

module _ (w : World) (env : Env) (client : ℕ) where
  refuse-Warranted :
      (g : Gateway) (reply : Reply) (m : ProtocolMessage)
      → Warranted g (send_message w.is_open g client reply) client m
  refuse-Warranted g reply m = let (a, b, c) = send-parts w g client reply in (inl b, inl a)

  announce-exchanges :
      (g : Gateway) (request_id : Text) (context : TunnelContext) (made : Manager × Created)
      → (announce w.is_open g client request_id context made).http_exchanges ≡ g.http_exchanges
  unfolding announce send_message
  announce-exchanges g request_id context (manager, invalid_port) = ground arith
  announce-exchanges g request_id context (manager, done c) = ground arith

  create_owned-exchanges :
      (g : Gateway) (id : Text) (port : ℕ) (preferred : Option Text) (context : TunnelContext)
      (owner : Option TunnelOwnership)
      → (create_owned w.is_open w.mint g env client id port preferred context owner).http_exchanges
        ≡ g.http_exchanges
  unfolding create_owned
  create_owned-exchanges g id port preferred context none =
      (send-parts w g client (refused (some id) (tunnel_create_failed no_owner))).1
  create_owned-exchanges g id port preferred context (some owner) =
      announce-exchanges g id context (
        Manager.create w.mint g.tunnel_manager env.fresh_id client port
          (options_for env context owner preferred))

  create_in-Warranted :
      (g : Gateway) (id : Text) (port : ℕ) (preferred : Option Text) (found : Option TunnelContext)
      → Contexts.bound g.context_sessions client ≡ found
      → Warranted g
          (create_in w.is_open w.mint g env client id port preferred found)
          client
          (create_tunnel_message id port preferred)
  unfolding create_in
  create_in-Warranted g id port preferred none e =
      refuse-Warranted g (refused (some id) unauthorized) (create_tunnel_message id port preferred)
  create_in-Warranted g id port preferred (some context) e =
      elim (Bool-cases (Contexts.context_has_permission context create_tunnel)) [
        | inl p ↦ rw p (
          inl (
              create_owned-exchanges g id port preferred context
                (Contexts.to_tunnel_ownership context)),
          inr (context, e, p),
        )
        | inr p ↦ rw p (
            refuse-Warranted g (refused (some id) forbidden)
              (create_tunnel_message id port preferred))
      ]

  deliver-Warranted :
      (g : Gateway) (m : Meta) (message : HttpMessage) (said : ProtocolMessage)
      → (is_owner (lookup g.tunnel_manager m.tunnel_id) client ≡ true → MayDeliver g client said)
      → Warranted g (deliver_owned_http_frame w.is_open w.decode g client m message) client said
  unfolding deliver_owned_http_frame
  deliver-Warranted g m message said h =
      elim (Bool-cases (is_owner (lookup g.tunnel_manager m.tunnel_id) client)) [
        | inl e ↦ rw e (inr (h e), inl refl)
        | inr e ↦ rw e (refuse-Warranted g (refused (some m.request_id) unauthorized_tunnel) said)
      ]

  dispatch-Warranted :
      (g : Gateway) (m : ProtocolMessage)
      → Warranted g (dispatch w.is_open w.decode w.mint g env client m) client m
  unfolding dispatch handle_create_tunnel
  dispatch-Warranted g (create_tunnel_message id port preferred) =
      create_in-Warranted g id port preferred (Contexts.bound g.context_sessions client) refl
  dispatch-Warranted g (ping_message id) =
      unfold handle_ping in
      let (a, b, c) =
        send-parts w (record g { heartbeats = Heartbeat.beat g.heartbeats env.now client }) client
          (pong id) in
      (inl b, inl a)
  dispatch-Warranted g (error_message code message id) = (inr tt, inl refl)
  dispatch-Warranted g (connected_message id) =
      refuse-Warranted g (refused none (unsupported_message Frames.connected))
        (connected_message id)
  dispatch-Warranted g (tunnel_created_message id tunnel url) =
      refuse-Warranted g (refused none (unsupported_message Frames.tunnel_created))
        (tunnel_created_message id tunnel url)
  dispatch-Warranted g (pong_message id) =
      refuse-Warranted g (refused none (unsupported_message Frames.pong)) (pong_message id)
  dispatch-Warranted g (http_message (request_start m head)) =
      refuse-Warranted g (refused none (unsupported_message Frames.http_request_start))
        (http_message (request_start m head))
  dispatch-Warranted g (http_message (request_chunk m chunk)) =
      refuse-Warranted g (refused none (unsupported_message Frames.http_request_chunk))
        (http_message (request_chunk m chunk))
  dispatch-Warranted g (http_message (request_end m)) =
      refuse-Warranted g (refused none (unsupported_message Frames.http_request_end))
        (http_message (request_end m))
  dispatch-Warranted g (http_message (response_start m head)) =
      deliver-Warranted g m (response_start m head) (http_message (response_start m head)) (λ e. e)
  dispatch-Warranted g (http_message (response_chunk m chunk)) =
      deliver-Warranted g m (response_chunk m chunk) (http_message (response_chunk m chunk))
        (λ e. e)
  dispatch-Warranted g (http_message (response_end m)) =
      deliver-Warranted g m (response_end m) (http_message (response_end m)) (λ e. e)
  dispatch-Warranted g (http_message (cancel m reason)) =
      deliver-Warranted g m (cancel m reason) (http_message (cancel m reason)) (λ e. e)

  handle_parsed-WarrantedBy :
      (g : Gateway) (m : Parsed ProtocolMessage)
      → WarrantedBy g (handle_parsed w.is_open w.decode w.mint g env client m) client m
  unfolding handle_parsed
  handle_parsed-WarrantedBy g (err e) = go (Policy.allow_message g.security env.now client)
    where
      go :
          (x : Policy × Bool)
          → WarrantedBy g
              (limited w.is_open g client x
                (λ g'. send_message w.is_open g' client (refused none (invalid_message e))))
              client
              (err e)
      go (security, true) =
          let (a, b, c) =
            send-parts w (record g { security = security }) client
              (refused none (invalid_message e)) in
          unfold limited in (b, a)
      go (security, false) =
          let (a, b, c) =
            send-parts w (record g { security = security }) client (refused none rate_limited) in
          unfold limited in (b, a)
  handle_parsed-WarrantedBy g (ok m) = elim (Bool-cases (is_http_data_plane_from_client m)) [
    | inl e ↦ rw e (dispatch-Warranted g m)
    | inr e ↦ rw e (go (Policy.allow_message g.security env.now client))
  ]
    where
      go :
          (x : Policy × Bool)
          → Warranted g
              (limited w.is_open g client x
                (λ g'. dispatch w.is_open w.decode w.mint g' env client m))
              client
              m
      go (security, true) =
          unfold limited in dispatch-Warranted (record g { security = security }) m
      go (security, false) =
          unfold limited in
          refuse-Warranted (record g { security = security }) (refused none rate_limited) m

  -- Whatever a socket sends, the exchanges change only by a response frame of a tunnel of which it
  -- is the client or by an error, and the tunnels only by a request of a socket whose bound context
  -- has the permission to create one; what does not parse changes neither.
  pub handle_client_message-WarrantedBy :
      (g : Gateway) (value : Value)
      → WarrantedBy g
          (handle_client_message w.is_open w.decode w.mint g env client value)
          client
          (parse_protocol_message value)
  unfolding handle_client_message
  handle_client_message-WarrantedBy g value =
      handle_parsed-WarrantedBy g (parse_protocol_message value)
