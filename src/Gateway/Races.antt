-- ===== src/Gateway/Races.antt =====
-- A socket that closes while its context is being resolved.
use looplink.Base.{ℕ, ◌≡◌, some, arith}
use looplink.JsMap
use looplink.JsMap.{nat_key}
use looplink.JsMap.Laws.{get-set_self}
use looplink.Heartbeat
use looplink.Contexts
use looplink.Contexts.{TunnelContext}
use looplink.Gateway.{
  Gateway, Env, Reply, connected, connect, resolved, handle_disconnect, send_message,
}
use looplink.Gateway.Events.{World, step, resolving, closing}

send-keeps :
    (w : World) (g : Gateway) (client : ℕ) (reply : Reply)
    → ((send_message w.is_open g client reply).context_sessions ≡ g.context_sessions)
      × ((send_message w.is_open g client reply).heartbeats ≡ g.heartbeats)
unfolding send_message
send-keeps w g client reply = ground arith

-- Where the resolution of a socket's context ends after the socket has closed, the context is bound
-- to the closed socket all the same, and its heartbeat is tracked.
pub late_resolution-bound :
    (w : World) (g : Gateway) (before after : Env) (client : ℕ) (context : TunnelContext)
    → let g' =
        step w (step w g before (closing client)) after (resolving client (resolved context)) in
      (Contexts.bound g'.context_sessions client ≡ some context)
      × (JsMap.get client g'.heartbeats.last_beat_at ≡ some after.now)
unfolding step connect
late_resolution-bound w g before after client context =
    let left = handle_disconnect g before.now client in
    let bound = record left {
      context_sessions = Contexts.bind left.context_sessions client context;
      heartbeats = Heartbeat.register left.heartbeats after.now client;
    } in
    let (a, b) = send-keeps w bound client (connected after.fresh_id) in
    (
      rw a (
          unfold Contexts.bound Contexts.bind in get-set_self client context left.context_sessions),
      rw b
          (unfold Heartbeat.register in get-set_self client after.now left.heartbeats.last_beat_at),
    )
