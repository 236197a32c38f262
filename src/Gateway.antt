-- ===== src/Gateway.antt =====
-- tunnel.gateway.ts: what the gateway does with a socket that opens, sends and closes. The admission
-- of a socket waits for its context to be resolved, so it is two steps. `is_open` says which sockets
-- can be sent to; what is sent and closed is recorded in order.
pub mod Events
pub mod Cleanup
pub mod Undisturbed
pub mod Isolation
pub mod InOrder
pub mod Reachable
pub mod Admission
pub mod Errors
pub mod Races
use looplink.Base.{
  ℕ, Bool, true, false, not, ◌&&◌, Option, none, some, List, [], ◌∷◌, ◌++◌, if◌then◌else◌,
  ℕ_discrete, ite,
}
use looplink.JsMap
use looplink.JsMap.{nat_key}
use looplink.Text.{Text, codes, includes}
use looplink.Frames.{MessageType, ParseError, Value, Parsed, err, ok}
use looplink.Frames
use looplink.Forwarding.{
  BodyEncoding, HttpMessage, Meta, request_start, request_chunk, request_end, response_start,
  response_chunk, response_end, cancel,
}
use looplink.Protocol.{
  ProtocolMessage, connected_message, create_tunnel_message, tunnel_created_message, error_message,
  ping_message, pong_message, http_message, parse_protocol_message,
}
use looplink.Security.Origins.{Url}
use looplink.Security.Policy
use looplink.Security.Policy.{Policy, UpgradeRequest, RejectReason}
use looplink.Tunnels.Context.{TunnelRecord, CreatedTunnel, TunnelOwnership}
use looplink.Tunnels.Manager
use looplink.Tunnels.Manager.{Manager, CreateOptions, Created, invalid_port, done}
use looplink.Exchanges
use looplink.Exchanges.{Coordinator, frame, error}
use looplink.Exchanges.Entry.{Bytes}
use looplink.Heartbeat
use looplink.Heartbeat.{HeartbeatMonitor}
use looplink.Workspaces.{create_tunnel}
use looplink.Contexts
use looplink.Contexts.{TunnelContext, SessionStore}

pub data CreateFailure : Type 0 where
  bad_port no_owner : CreateFailure

pub data Refusal : Type 0 where
  rate_limited unauthorized_tunnel unauthorized forbidden : Refusal
  invalid_message : ParseError → Refusal
  unsupported_message : MessageType → Refusal
  tunnel_create_failed : CreateFailure → Refusal

-- What the gateway sends: the messages of the protocol, an error with its request's id if it has one.
pub data Reply : Type 0 where
  connected : Text → Reply
  created : (request_id tunnel_id public_url : Text) → Reply
  pong : Text → Reply
  refused : Option Text → Refusal → Reply

pub data Closing : Type 0 where
  rejected : RejectReason → Closing
  unresolved : Text → Closing

pub data Effect : Type 0 where
  sent : ℕ → Reply → Effect
  closed : ℕ → Closing → Effect

pub record Gateway : Type 0 where
  pub context_sessions : SessionStore
  pub tunnel_manager : Manager
  pub http_exchanges : Coordinator
  pub heartbeats : HeartbeatMonitor
  pub security : Policy
  -- What was sent and closed, oldest first.
  pub effects : List Effect

-- What the surroundings give a handler: the time, a fresh id, the reclaim window.
pub record Env : Type 0 where
  pub now : ℕ
  pub fresh_id : Text
  pub reclaim_window_ms : ℕ

-- What becomes of the resolution of a socket's context: a context, or an error with its message.
pub data Resolution : Type 0 where
  resolved : TunnelContext → Resolution
  failed : Text → Resolution

abbrev pub emit : Gateway → Effect → Gateway
emit g effect = record g { effects = g.effects ++ effect ∷ [] }

module _ (is_open : ℕ → Bool) where
  unfoldable pub send_message : Gateway → ℕ → Reply → Gateway
  send_message g client reply = if is_open client then emit g (sent client reply) else g

abbrev closing_message : Text → Text
closing_message detail =
    if includes detail (codes "anonymous")
    then codes "Invalid or expired anonymous session."
    else if includes detail (codes "Anonymous")
    then codes "Invalid or expired anonymous session."
    else if includes detail (codes "Malformed")
    then codes "Malformed Authorization header."
    else if includes detail (codes "Authentication required")
    then codes "Authentication required."
    else codes "Unauthorized. Run `badger login` and try again."

-- The admission up to the wait for the context; whether it goes on.
unfoldable pub admitted : Gateway → ℕ → Policy × Option RejectReason → Gateway × Bool
admitted g client (security, none) = (record g { security = security }, true)
admitted g client (security, some reason) =
    (emit (record g { security = security }) (closed client (rejected reason)), false)

unfoldable pub handle_connection :
    (Text → Option Url) → Gateway → ℕ → UpgradeRequest → Gateway × Bool
unfolding admitted
handle_connection parse_url g client request =
    admitted g client (Policy.admit parse_url g.security client request)

module _ (is_open : ℕ → Bool) where
  -- What follows the wait.
  unfoldable pub connect : Gateway → Env → ℕ → Resolution → Gateway
  unfolding send_message
  connect g env client (failed detail) =
      emit g (closed client (unresolved (closing_message detail)))
  connect g env client (resolved context) =
      send_message is_open
        (record g {
          context_sessions = Contexts.bind g.context_sessions client context;
          heartbeats = Heartbeat.register g.heartbeats env.now client;
        })
        client (connected env.fresh_id)

unfoldable pub handle_disconnect : Gateway → ℕ → ℕ → Gateway
handle_disconnect g now client = record g {
  heartbeats = Heartbeat.unregister g.heartbeats client;
  security = Policy.release g.security client;
  context_sessions = Contexts.destroy g.context_sessions client;
  tunnel_manager = (Manager.detach_client g.tunnel_manager now client).0;
}

unfoldable pub is_http_data_plane_from_client : ProtocolMessage → Bool
is_http_data_plane_from_client (http_message (response_start m head)) = true
is_http_data_plane_from_client (http_message (response_chunk m chunk)) = true
is_http_data_plane_from_client (http_message (response_end m)) = true
is_http_data_plane_from_client (http_message (cancel m reason)) = true
is_http_data_plane_from_client m = false

-- `tunnel?.client !== client`
abbrev pub is_owner : Option TunnelRecord → ℕ → Bool
is_owner none client = false
is_owner (some tunnel) client = ite (ℕ_discrete tunnel.client client) true false

abbrev options_for : Env → TunnelContext → TunnelOwnership → Option Text → CreateOptions
options_for env context owner preferred = record {
  context = owner;
  preferred_tunnel_id = preferred;
  now = env.now;
  reclaim_window_ms = env.reclaim_window_ms;
  owner_user_id = Contexts.ownership_account_id context;
}

abbrev pub or_kept : SessionStore → Option SessionStore → SessionStore
or_kept s none = s
or_kept s (some s') = s'

module _ (is_open : ℕ → Bool) where
  unfoldable pub handle_ping : Gateway → Env → ℕ → Text → Gateway
  unfolding send_message
  handle_ping g env client request_id =
      send_message is_open (record g { heartbeats = Heartbeat.beat g.heartbeats env.now client })
        client (pong request_id)

  unfoldable pub announce : Gateway → ℕ → Text → TunnelContext → Manager × Created → Gateway
  unfolding send_message
  announce g client request_id context (manager, invalid_port) =
      send_message is_open (record g { tunnel_manager = manager }) client
        (refused (some request_id) (tunnel_create_failed bad_port))
  announce g client request_id context (manager, done c) =
      send_message is_open
        (record g {
          tunnel_manager = manager;
          context_sessions = or_kept g.context_sessions (
              Contexts.replace g.context_sessions client
                (Contexts.with_tunnel_id context (some c.tunnel.id)));
        })
        client (created request_id c.tunnel.id c.public_url)

  module _ (mint : Text → Text) where
    unfoldable pub create_owned :
        Gateway
        → Env
        → ℕ
        → Text
        → ℕ
        → Option Text
        → TunnelContext
        → Option TunnelOwnership
        → Gateway
    unfolding announce
    create_owned g env client request_id port preferred context none =
        send_message is_open g client (refused (some request_id) (tunnel_create_failed no_owner))
    create_owned g env client request_id port preferred context (some owner) =
        announce g client request_id context (
          Manager.create mint g.tunnel_manager env.fresh_id client port
            (options_for env context owner preferred))

    unfoldable pub create_in :
        Gateway → Env → ℕ → Text → ℕ → Option Text → Option TunnelContext → Gateway
    unfolding create_owned
    create_in g env client request_id port preferred none =
        send_message is_open g client (refused (some request_id) unauthorized)
    create_in g env client request_id port preferred (some context) =
        if Contexts.context_has_permission context create_tunnel
        then create_owned g env client request_id port preferred context
            (Contexts.to_tunnel_ownership context)
        else send_message is_open g client (refused (some request_id) forbidden)

    unfoldable pub handle_create_tunnel : Gateway → Env → ℕ → Text → ℕ → Option Text → Gateway
    unfolding create_in
    handle_create_tunnel g env client request_id port preferred =
        create_in g env client request_id port preferred (Contexts.bound g.context_sessions client)

  -- `this.security.allowMessage(client)`, with what is refused and what goes on.
  unfoldable pub limited : Gateway → ℕ → Policy × Bool → (Gateway → Gateway) → Gateway
  unfolding send_message
  limited g client (security, true) go_on = go_on (record g { security = security })
  limited g client (security, false) go_on =
      send_message is_open (record g { security = security }) client (refused none rate_limited)

module _ (is_open : ℕ → Bool) (decode : BodyEncoding → Text → Bytes) where
  unfoldable pub deliver_owned_http_frame : Gateway → ℕ → Meta → HttpMessage → Gateway
  unfolding send_message
  deliver_owned_http_frame g client m message =
      if is_owner (Manager.lookup g.tunnel_manager m.tunnel_id) client
      then record g {
        http_exchanges = (Exchanges.deliver decode g.http_exchanges (frame message)).0;
      }
      else send_message is_open g client (refused (some m.request_id) unauthorized_tunnel)

  module _ (mint : Text → Text) where
    abbrev unsupported : Gateway → ℕ → MessageType → Gateway
    unsupported g client t = send_message is_open g client (refused none (unsupported_message t))

    -- The switch on the type of a message that may pass.
    unfoldable pub dispatch : Gateway → Env → ℕ → ProtocolMessage → Gateway
    unfolding handle_create_tunnel handle_ping deliver_owned_http_frame
    dispatch g env client (create_tunnel_message request_id port tunnel_id) =
        handle_create_tunnel is_open mint g env client request_id port tunnel_id
    dispatch g env client (ping_message request_id) = handle_ping is_open g env client request_id
    dispatch g env client (http_message (response_start m head)) =
        deliver_owned_http_frame g client m (response_start m head)
    dispatch g env client (http_message (response_chunk m chunk)) =
        deliver_owned_http_frame g client m (response_chunk m chunk)
    dispatch g env client (http_message (response_end m)) =
        deliver_owned_http_frame g client m (response_end m)
    dispatch g env client (http_message (cancel m reason)) =
        deliver_owned_http_frame g client m (cancel m reason)
    dispatch g env client (error_message code message request_id) = record g {
      http_exchanges = (Exchanges.deliver decode g.http_exchanges (error request_id message)).0;
    }
    dispatch g env client (connected_message id) = unsupported g client Frames.connected
    dispatch g env client (tunnel_created_message id tunnel url) =
        unsupported g client Frames.tunnel_created
    dispatch g env client (pong_message id) = unsupported g client Frames.pong
    dispatch g env client (http_message (request_start m head)) =
        unsupported g client Frames.http_request_start
    dispatch g env client (http_message (request_chunk m chunk)) =
        unsupported g client Frames.http_request_chunk
    dispatch g env client (http_message (request_end m)) =
        unsupported g client Frames.http_request_end

    unfoldable pub handle_parsed : Gateway → Env → ℕ → Parsed ProtocolMessage → Gateway
    unfolding limited dispatch
    handle_parsed g env client (err e) =
        limited is_open g client (Policy.allow_message g.security env.now client)
          (λ g'. send_message is_open g' client (refused none (invalid_message e)))
    handle_parsed g env client (ok message) =
        if is_http_data_plane_from_client message
        then dispatch g env client message
        else limited is_open g client (Policy.allow_message g.security env.now client)
            (λ g'. dispatch g' env client message)

    unfoldable pub handle_client_message : Gateway → Env → ℕ → Value → Gateway
    unfolding handle_parsed
    handle_client_message g env client value =
        handle_parsed g env client (parse_protocol_message value)
