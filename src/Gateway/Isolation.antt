-- ===== src/Gateway/Isolation.antt =====
-- What an event of one socket leaves of the others.
use looplink.Base.{
  ℕ, ◌≡◌, ◌≢◌, refl, sym, ◌∙◌, Bool, true, false, Option, none, some, arith, Bool-cases, inl, inr,
}
use looplink.JsMap
use looplink.JsMap.{nat_key}
use looplink.JsMap.Laws.{get-set_ne, get-delete_ne}
use looplink.Frames.{Parsed, err, ok}
use looplink.Protocol.{ProtocolMessage, parse_protocol_message}
use looplink.Security.Policy
use looplink.Security.Connections
use looplink.Security.Policy.{Policy, RejectReason, UpgradeRequest}
use looplink.Tunnels.Repository
use looplink.Tunnels.Repository.Views.{IsValid}
use looplink.Tunnels.Manager.{lookup}
use looplink.Tunnels.Manager.Laws.{IsFresh}
use looplink.Tunnels.Manager.Others.{detach_client-Keeps}
use looplink.Heartbeat
use looplink.Contexts
use looplink.Gateway.{
  Gateway, Env, Resolution, resolved, failed, connected, refused, rate_limited, invalid_message,
  connect, handle_connection, admitted, handle_disconnect, dispatch, limited, handle_parsed,
  handle_client_message, is_http_data_plane_from_client, send_message,
}
use looplink.Gateway.Events.{Event, World, Ready, actor, step, opening, resolving, sending, closing}
use looplink.Gateway.Cleanup.{release-stays, unregister-get}
use looplink.Gateway.Undisturbed.{Undisturbed, send-Undisturbed, dispatch-Undisturbed}

module _ (other client : ℕ) (ne : client ≢ other) (w : World) (env : Env) (g : Gateway)
    (v : IsValid g.tunnel_manager.repository) where
  limited-Undisturbed :
      (x : Policy × Bool) (go_on : Gateway → Gateway)
      → x.0.ip_by_client ≡ g.security.ip_by_client
      → Undisturbed g (go_on (record g { security = x.0 })) other
      → Undisturbed g (limited w.is_open g client x go_on) other
  unfolding limited
  limited-Undisturbed (security, true) go_on h k = k
  limited-Undisturbed (security, false) go_on h k =
      send-Undisturbed other w.is_open g (record g { security = security }) client
        (refused none rate_limited) (refl, refl, rw h refl, λ id t p q. p)

  abbrev allowed : Policy × Bool
  allowed = Policy.allow_message g.security env.now client

  allowed-addresses : allowed.0.ip_by_client ≡ g.security.ip_by_client
  unfolding Policy.allow_message
  allowed-addresses = refl

  handle_parsed-Undisturbed :
      IsFresh g.tunnel_manager.repository env.fresh_id
      → (message : Parsed ProtocolMessage)
      → Undisturbed g (handle_parsed w.is_open w.decode w.mint g env client message) other
  unfolding handle_parsed
  handle_parsed-Undisturbed fresh (err e) =
      limited-Undisturbed allowed
        (λ g'. send_message w.is_open g' client (refused none (invalid_message e)))
        allowed-addresses
        (send-Undisturbed other w.is_open g (record g { security = allowed.0 }) client
          (refused none (invalid_message e)) (refl, refl, rw allowed-addresses refl, λ id t p q. p))
  handle_parsed-Undisturbed fresh (ok message) =
      elim (Bool-cases (is_http_data_plane_from_client message)) [
        | inl e ↦ rw e (dispatch-Undisturbed other client ne w env g v fresh message)
        | inr e ↦ rw e (
            limited-Undisturbed allowed
              (λ g'. dispatch w.is_open w.decode w.mint g' env client message) allowed-addresses
              (let (a, b, c, d) =
                  dispatch-Undisturbed other client ne w env (record g { security = allowed.0 }) v
                    fresh message in
                (a, b, c ∙ (rw allowed-addresses refl), d)))
      ]

  admitted-Undisturbed :
      (x : Policy × Option RejectReason)
      → JsMap.get other x.0.ip_by_client ≡ JsMap.get other g.security.ip_by_client
      → Undisturbed g (admitted g client x).0 other
  unfolding admitted
  admitted-Undisturbed (security, none) h = (refl, refl, h, λ id t p q. p)
  admitted-Undisturbed (security, some reason) h = (refl, refl, h, λ id t p q. p)

  admit_stays :
      (request : UpgradeRequest)
      → JsMap.get other (Policy.admit w.parse_url g.security client request).0.ip_by_client
        ≡ JsMap.get other g.security.ip_by_client
  unfolding Policy.admit Connections.try_admit
  admit_stays request =
      ground (arith, get-set_ne client other (Policy.client_ip request) g.security.ip_by_client ne)

  connect-Undisturbed :
      (resolution : Resolution) → Undisturbed g (connect w.is_open g env client resolution) other
  unfolding connect
  connect-Undisturbed (failed detail) = (refl, refl, refl, λ id t p q. p)
  connect-Undisturbed (resolved context) =
      send-Undisturbed other w.is_open g
        (record g {
          context_sessions = Contexts.bind g.context_sessions client context;
          heartbeats = Heartbeat.register g.heartbeats env.now client;
        })
        client (connected env.fresh_id)
        (
          (unfold Contexts.bound Contexts.bind in
              get-set_ne client other context g.context_sessions ne),
          (unfold Heartbeat.register in
              get-set_ne client other env.now g.heartbeats.last_beat_at ne),
          refl,
          λ id t p q. p,
        )

  handle_disconnect-Undisturbed : Undisturbed g (handle_disconnect g env.now client) other
  unfolding handle_disconnect lookup Repository.find_by_id
  handle_disconnect-Undisturbed = (
    (unfold Contexts.bound Contexts.destroy in get-delete_ne client other g.context_sessions ne),
    unregister-get g.heartbeats client other
        ∙ get-delete_ne client other g.heartbeats.last_beat_at ne,
    release-stays g.security client other ne,
    λ id t p q. detach_client-Keeps g.tunnel_manager env.now client v id t p (λ e. ne (sym e ∙ q)),
  )

-- Where the repository is in order and the fresh id is new, an event of one socket, whether it
-- opens, is resolved, sends anything at all or closes, leaves every other socket its context, its
-- heartbeat, its address and its tunnels, which stay routable to it as they were.
pub step-Undisturbed :
    (w : World) (g : Gateway) (env : Env) (e : Event) (other : ℕ)
    → IsValid g.tunnel_manager.repository
    → Ready g env e
    → actor e ≢ other
    → Undisturbed g (step w g env e) other
unfolding step handle_connection handle_client_message
step-Undisturbed w g env (opening client request) other v r ne =
    admitted-Undisturbed other client ne w env g v
      (Policy.admit w.parse_url g.security client request)
      (admit_stays other client ne w env g v request)
step-Undisturbed w g env (resolving client resolution) other v r ne =
    connect-Undisturbed other client ne w env g v resolution
step-Undisturbed w g env (sending client value) other v r ne =
    handle_parsed-Undisturbed other client ne w env g v r (parse_protocol_message value)
step-Undisturbed w g env (closing client) other v r ne =
    handle_disconnect-Undisturbed other client ne w env g v
