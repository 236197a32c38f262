-- ===== src/Gateway/Events.antt =====
-- The events that reach the gateway, in any order, and what each of them does: the calls of
-- `handleConnection`, `handleDisconnect` and `handleClientMessage`, and the end of the wait for a
-- socket's context. Beside them, what the server does by itself.
use looplink.Base.{ℕ, Bool, ◌≡◌, none, Option}
use looplink.JsMap
use looplink.JsMap.{nat_key}
use looplink.Text.{Text}
use looplink.Frames.{Value}
use looplink.Forwarding.{BodyEncoding}
use looplink.Security.Origins.{Url}
use looplink.Security.Policy.{UpgradeRequest}
use looplink.Tunnels.Manager.Laws.{IsFresh}
use looplink.Exchanges.Entry.{Bytes}
use looplink.Exchanges.Runs as Exchanges
use looplink.Heartbeat
use looplink.Gateway.{
  Gateway, Env, Resolution, handle_connection, connect, handle_client_message, handle_disconnect,
}

pub data Event : Type 0 where
  opening : ℕ → UpgradeRequest → Event
  resolving : ℕ → Resolution → Event
  sending : ℕ → Value → Event
  closing : ℕ → Event

abbrev pub actor : Event → ℕ
actor (opening client request) = client
actor (resolving client resolution) = client
actor (sending client value) = client
actor (closing client) = client

-- The surroundings: which sockets can be sent to, how a chunk's text is read, how a public URL is
-- minted, and how a URL is parsed.
pub record World : Type 0 where
  pub is_open : ℕ → Bool
  pub decode : BodyEncoding → Text → Bytes
  pub mint : Text → Text
  pub parse_url : Text → Option Url

unfoldable pub step : World → Gateway → Env → Event → Gateway
step w g env (opening client request) = (handle_connection w.parse_url g client request).0
step w g env (resolving client resolution) = connect w.is_open g env client resolution
step w g env (sending client value) =
    handle_client_message w.is_open w.decode w.mint g env client value
step w g env (closing client) = handle_disconnect g env.now client

-- A socket opens once, and a fresh id has no stored slug.
abbrev pub Ready : Gateway → Env → Event → Type 0
Ready g env (opening client request) = JsMap.get client g.security.ip_by_client ≡ none
Ready g env (resolving client resolution) = Unit
Ready g env (sending client value) = IsFresh g.tunnel_manager.repository env.fresh_id
Ready g env (closing client) = Unit

-- What the server does beside the handlers: the forwarding of a public request begins, completes,
-- fails and reads its exchange, and the heartbeat monitor sweeps, whose terminated sockets close by
-- events of their own.
pub data Work : Type 0 where
  exchanging : Exchanges.Call → Work
  sweeping : Work

unfoldable pub work : World → Gateway → Env → Work → Gateway
work w g env (exchanging x) = record g {
  http_exchanges = Exchanges.call w.decode g.http_exchanges x;
}
work w g env sweeping = record g { heartbeats = (Heartbeat.sweep g.heartbeats env.now).0 }
