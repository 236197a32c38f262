-- ===== src/Gateway/Reachable.antt =====
-- The states that the gateway reaches from its start by events in any order, and by its own work.
use looplink.Base.{ℕ, ◌≢◌, Bool, true, false, Option, none, some, [], Bool-cases, inl, inr}
use looplink.Frames.{Parsed, err, ok}
use looplink.Protocol.{ProtocolMessage, parse_protocol_message}
use looplink.Security.Policy
use looplink.Security.Policy.{Policy, RejectReason, Limits}
use looplink.Security.Origins.{OriginValidator}
use looplink.Tunnels.Repository
use looplink.Tunnels.Manager.Laws.{IsFresh, detach_client-IsValid}
use looplink.Exchanges
use looplink.Heartbeat
use looplink.Heartbeat.Laws.{registering, unregistering}
use looplink.Contexts
use looplink.Gateway.{
  Gateway, Env, refused, rate_limited, invalid_message, connected, Resolution, resolved, failed,
  send_message, connect, handle_connection, admitted, handle_disconnect, dispatch, limited,
  handle_parsed, handle_client_message, is_http_data_plane_from_client,
}
use looplink.Exchanges.Runs.{call-IsValid}
use looplink.Gateway.Events.{
  work, Work, exchanging, sweeping, Event, World, Ready, actor, step, opening, resolving, sending,
  closing,
}
use looplink.Gateway.InOrder.{IsValid, send-IsValid, dispatch-IsValid}
use looplink.Gateway.Undisturbed.{Undisturbed}
use looplink.Gateway.Isolation.{step-Undisturbed}

module _ (w : World) (env : Env) (client : ℕ) (g : Gateway) where
  limited-IsValid :
      (x : Policy × Bool) (go_on : Gateway → Gateway)
      → IsValid (record g { security = x.0 })
      → IsValid (go_on (record g { security = x.0 }))
      → IsValid (limited w.is_open g client x go_on)
  unfolding limited
  limited-IsValid (security, true) go_on h k = k
  limited-IsValid (security, false) go_on h k =
      send-IsValid w env client (record g { security = security }) (refused none rate_limited) h

  abbrev charged : Gateway
  charged = record g { security = (Policy.allow_message g.security env.now client).0 }

  charged-IsValid : IsValid g → IsValid charged
  charged-IsValid (a, b, c, d) =
      (Policy.Laws.allow_message-IsValid g.security env.now client a, b, c, d)

  handle_parsed-IsValid :
      IsValid g
      → IsFresh g.tunnel_manager.repository env.fresh_id
      → (message : Parsed ProtocolMessage)
      → IsValid (handle_parsed w.is_open w.decode w.mint g env client message)
  unfolding handle_parsed
  handle_parsed-IsValid v fresh (err e) =
      limited-IsValid (Policy.allow_message g.security env.now client)
        (λ g'. send_message w.is_open g' client (refused none (invalid_message e)))
        (charged-IsValid v)
        (send-IsValid w env client charged (refused none (invalid_message e)) (charged-IsValid v))
  handle_parsed-IsValid v fresh (ok message) =
      elim (Bool-cases (is_http_data_plane_from_client message)) [
        | inl e ↦ rw e (dispatch-IsValid w env client g v fresh message)
        | inr e ↦ rw e (
            limited-IsValid (Policy.allow_message g.security env.now client)
              (λ g'. dispatch w.is_open w.decode w.mint g' env client message) (charged-IsValid v)
              (dispatch-IsValid w env client charged (charged-IsValid v) fresh message))
      ]

  admitted-IsValid :
      (x : Policy × Option RejectReason)
      → IsValid (record g { security = x.0 })
      → IsValid (admitted g client x).0
  unfolding admitted
  admitted-IsValid (security, none) h = h
  admitted-IsValid (security, some reason) h = h

  connect-IsValid :
      (resolution : Resolution) → IsValid g → IsValid (connect w.is_open g env client resolution)
  unfolding connect
  connect-IsValid (failed detail) v = v
  connect-IsValid (resolved context) (a, b, c, d) =
      send-IsValid w env client
        (record g {
          context_sessions = Contexts.bind g.context_sessions client context;
          heartbeats = Heartbeat.register g.heartbeats env.now client;
        })
        (connected env.fresh_id)
        (
          a,
          b,
          c,
          (unfold Heartbeat.Laws.step in
              Heartbeat.Laws.step-IsValid g.heartbeats (registering env.now client) d),
        )

-- Each event, that of a socket which sends anything at all included, leaves the parts of the gateway
-- in order.
step-IsValid :
    (w : World) (g : Gateway) (env : Env) (e : Event)
    → IsValid g
    → Ready g env e
    → IsValid (step w g env e)
unfolding step handle_connection handle_client_message handle_disconnect
step-IsValid w g env (opening client request) (a, b, c, d) r =
    admitted-IsValid w env client g (Policy.admit w.parse_url g.security client request)
      (Policy.Laws.admit-IsValid w.parse_url g.security client request a r, b, c, d)
step-IsValid w g env (resolving client resolution) v r = connect-IsValid w env client g resolution v
step-IsValid w g env (sending client value) v r =
    handle_parsed-IsValid w env client g v r (parse_protocol_message value)
step-IsValid w g env (closing client) (a, b, c, d) r = (
  Policy.Laws.release-IsValid g.security client a,
  detach_client-IsValid g.tunnel_manager env.now client b,
  c,
  (unfold Heartbeat.Laws.step in Heartbeat.Laws.step-IsValid g.heartbeats (unregistering client) d),
)

-- So does what the server does by itself.
work-IsValid :
    (w : World) (g : Gateway) (env : Env) (x : Work) → IsValid g → IsValid (work w g env x)
unfolding work
work-IsValid w g env (exchanging x) (a, b, c, d) =
    (a, b, call-IsValid w.decode g.http_exchanges x c, d)
work-IsValid w g env sweeping (a, b, c, d) = (
  a,
  b,
  c,
  (unfold Heartbeat.Laws.step in
      Heartbeat.Laws.step-IsValid g.heartbeats (Heartbeat.Laws.sweeping env.now) d),
)

-- The gateway at its start, and the states that events lead to.
abbrev pub start :
    Limits
    → OriginValidator
    → (max_pending max_bytes timeout_ms : ℕ) (has_ownership : Bool) → Gateway
start limits origins max_pending max_bytes timeout_ms has_ownership = record {
  context_sessions = [];
  tunnel_manager = record {
    repository = Repository.empty;
    has_ownership = has_ownership;
    events = [];
    writes = [];
  };
  http_exchanges = Exchanges.coordinator max_pending max_bytes;
  heartbeats = Heartbeat.monitor timeout_ms none;
  security = Policy.policy limits origins;
  effects = [];
}

pub data Reach (w : World) (g : Gateway) : Gateway → Type 0 where
  here : Reach w g g
  next :
      {h : Gateway} (env : Env) (e : Event)
      → Reach w g h
      → Ready h env e
      → Reach w g (step w h env e)
  working : {h : Gateway} (env : Env) (x : Work) → Reach w g h → Reach w g (work w h env x)

Reach-IsValid : (w : World) (g h : Gateway) → Reach w g h → IsValid g → IsValid h
Reach-IsValid w g h here v = v
Reach-IsValid w g h (next {h = h'} env e path ready) v =
    step-IsValid w h' env e (Reach-IsValid w g h' path v) ready
Reach-IsValid w g h (working {h = h'} env x path) v =
    work-IsValid w h' env x (Reach-IsValid w g h' path v)

module _ (limits : Limits) (origins : OriginValidator) (max_pending max_bytes timeout_ms : ℕ)
    (has_ownership : Bool) (w : World) (g : Gateway)
    (path : Reach w (start limits origins max_pending max_bytes timeout_ms has_ownership) g) where
  -- Whatever the sockets send, in whichever order they open, are resolved, send and close, and
  -- whatever exchanges the server begins, completes, fails and reads and whenever the heartbeats are
  -- swept in between, in every state that the gateway reaches its parts are in order: no more sockets
  -- are seated than the limits allow, the maps of the tunnel repository agree, the table of the
  -- exchanges and their buffers are within their bounds, and the timer of the heartbeats runs while a
  -- socket is tracked.
  pub reachable-IsValid : IsValid g
  unfolding Heartbeat.monitor looplink.Heartbeat.Laws.run
  reachable-IsValid =
      Reach-IsValid w (start limits origins max_pending max_bytes timeout_ms has_ownership) g path (
        Policy.Laws.policy-IsValid limits origins,
        Repository.Views.empty-IsValid,
        Exchanges.Table.coordinator-IsValid max_pending max_bytes,
        Heartbeat.Laws.timer_runs timeout_ms none [],
      )

  -- In every state that the gateway reaches, with exchanges under way or not, an event of one socket leaves every other socket its
  -- context, its heartbeat, its address and its tunnels.
  pub reachable-Undisturbed :
      (env : Env) (e : Event) (other : ℕ)
      → Ready g env e
      → actor e ≢ other
      → Undisturbed g (step w g env e) other
  reachable-Undisturbed env e other ready ne =
      step-Undisturbed w g env e other reachable-IsValid.1 ready ne
