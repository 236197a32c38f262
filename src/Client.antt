-- ===== src/Client.antt =====
-- websocket-client.ts and heartbeat.ts of the command line: the connection to the server, its
-- reconnection, and the messages that wait. A function that waits is cut at its waits, and each
-- piece is an operation; a socket is a number, and an event of a socket is heard while the client's
-- listeners are attached to it. What is done outside is recorded in order.
pub mod Messages
pub mod Delivery
pub mod Flags
pub mod Runs
pub mod Reconnect
pub mod Leaving
pub mod Closed
use looplink.Base.{
  ℕ, Bool, true, false, not, ◌&&◌, ◌||◌, Option, none, some, List, [], ◌∷◌, ◌++◌, if◌then◌else◌,
  is_some,
}
use looplink.JsMap
use looplink.JsMap.{JsMap, nat_key}
use looplink.Text.{Text, text_key, ◌===◌}
use looplink.Frames.{Parsed, Value, err, ok}
use looplink.Forwarding.{
  HttpMessage, request_start, request_chunk, request_end, response_start, response_chunk,
  response_end, cancel,
}
use looplink.Protocol.{
  ProtocolMessage, connected_message, create_tunnel_message, tunnel_created_message, error_message,
  ping_message, pong_message, http_message, parse_protocol_message,
}

pub data ConnectionState : Type 0 where
  disconnected connecting connected disconnecting reconnecting : ConnectionState

pub record ActiveTunnelSession : Type 0 where
  pub port : ℕ
  pub tunnel_id : Text
  pub public_url : Text

pub data Failure : Type 0 where
  in_progress not_connected not_open wait_in_progress wait_timed_out lost : Failure
  unexpected_response : Failure
  socket_error : Text → Failure
  socket_closed : (code : ℕ) (reason : Text) → Failure
  refused : Text → Failure

pub data Effect : Type 0 where
  sent : ℕ → ProtocolMessage → Effect
  forwarded : ProtocolMessage → Effect
  wait_resolved : ProtocolMessage → Effect
  wait_rejected : Failure → Effect
  connect_resolved : Effect
  connect_rejected : Failure → Effect
  closing : ℕ → Effect
  disconnect_resolved : Effect
  connection_lost : Failure → Effect
  reconnected : (tunnel_id : Text) (restored : Bool) → Effect
  reconnect_failed : Failure → Effect

-- The listeners on a socket: those of the attempt to connect, those of the running connection, or
-- only that of messages; and whether `disconnect` waits for its close.
pub data Listeners : Type 0 where
  opening running messages_only : (leaving : Bool) → Listeners

pub record Client : Type 0 where
  pub reconnect : Bool
  pub state : ConnectionState
  pub socket : Option ℕ
  pub inbox : List ProtocolMessage
  pub waiter : Option (ProtocolMessage → Bool)
  pub heartbeat : Bool
  pub intentional_close : Bool
  pub reconnect_timer : Bool
  pub reconnect_in_flight : Bool
  pub active_tunnel : Option ActiveTunnelSession
  pub has_forwarding_handler : Bool
  pub listeners : JsMap ℕ Listeners
  pub effects : List Effect

unfoldable pub client : Bool → Client
client reconnect = record {
  reconnect = reconnect;
  state = disconnected;
  socket = none;
  inbox = [];
  waiter = none;
  heartbeat = false;
  intentional_close = false;
  reconnect_timer = false;
  reconnect_in_flight = false;
  active_tunnel = none;
  has_forwarding_handler = false;
  listeners = [];
  effects = [];
}

abbrev pub emit : Client → Effect → Client
emit c effect = record c { effects = c.effects ++ effect ∷ [] }

abbrev pub unheard : Option ℕ → JsMap ℕ Listeners → JsMap ℕ Listeners
unheard none listeners = listeners
unheard (some socket) listeners = JsMap.delete socket listeners

unfoldable pub dispose_socket : Client → Client
dispose_socket c = record c {
  heartbeat = false;
  listeners = unheard c.socket c.listeners;
  socket = none;
  inbox = [];
}

abbrev pub is_connected : ConnectionState → Bool
is_connected connected = true
is_connected s = false

abbrev pub is_connecting : ConnectionState → Bool
is_connecting connecting = true
is_connecting s = false

abbrev pub is_disconnected : ConnectionState → Bool
is_disconnected disconnected = true
is_disconnected s = false

abbrev pub is_reconnecting : ConnectionState → Bool
is_reconnecting reconnecting = true
is_reconnecting s = false

-- `connect` up to its wait for the tokens; whether it goes on.
unfoldable pub connect : Client → Client × Bool
connect c =
    if is_connected c.state
    then (emit c connect_resolved, false)
    else if is_connecting c.state
    then (emit c (connect_rejected in_progress), false)
    else (record c { intentional_close = false; state = connecting }, true)

-- What follows the wait: a new socket, whose events are heard.
unfoldable pub open_socket : Client → ℕ → Client
open_socket c socket = record c {
  socket = some socket;
  listeners = JsMap.set socket (opening false) c.listeners;
}

unfoldable pub open_heard : Client → ℕ → Option Listeners → Client
open_heard c socket (some (opening leaving)) =
    emit
      (record c {
        state = connected;
        heartbeat = true;
        listeners = JsMap.set socket (running leaving) c.listeners;
      })
      connect_resolved
open_heard c socket l = c

unfoldable pub on_open : Client → ℕ → Client
unfolding open_heard
on_open c socket = open_heard c socket (JsMap.get socket c.listeners)

abbrev cleanup : Client → ℕ → Bool → Client
cleanup c socket leaving = record c {
  listeners = JsMap.set socket (messages_only leaving) c.listeners;
}

-- A failed attempt to connect: its listeners go, and its promise is rejected.
unfoldable pub give_up : Client → ℕ → Bool → Failure → Client
unfolding dispose_socket
give_up c socket leaving failure =
    emit (record (dispose_socket (cleanup c socket leaving)) { state = disconnected })
      (connect_rejected failure)

unfoldable pub error_heard : Client → ℕ → Text → Option Listeners → Client
unfolding give_up
error_heard c socket message (some (opening leaving)) =
    give_up c socket leaving (socket_error message)
error_heard c socket message l = c

unfoldable pub on_error : Client → ℕ → Text → Client
unfolding error_heard
on_error c socket message = error_heard c socket message (JsMap.get socket c.listeners)

unfoldable pub fail_waiter : Client → Failure → Client
fail_waiter c failure =
    if is_some c.waiter then emit (record c { waiter = none }) (wait_rejected failure) else c

unfoldable pub schedule_reconnect : Client → Failure → Client
schedule_reconnect c failure =
    if not c.reconnect || c.intentional_close
    then c
    else if c.reconnect_timer || c.reconnect_in_flight
    then c
    else record c {
      state = reconnecting;
      effects = c.effects ++ connection_lost failure ∷ [];
      reconnect_timer = true;
    }

-- Whether the close was intentional decides on a reconnection.
unfoldable pub after_close : Bool → Client → Client
unfolding schedule_reconnect
after_close true c = c
after_close false c = schedule_reconnect c lost

-- `disconnect` hears the close that it waits for.
unfoldable pub left : Client → Bool → Client
unfolding dispose_socket
left c false = c
left c true = emit (record (dispose_socket c) { state = disconnected }) disconnect_resolved

unfoldable pub close_heard : Client → ℕ → ℕ → Text → Option Listeners → Client
unfolding give_up fail_waiter after_close left
close_heard c socket code reason none = c
close_heard c socket code reason (some (opening leaving)) =
    left (give_up c socket leaving (socket_closed code reason)) leaving
close_heard c socket code reason (some (messages_only leaving)) = left c leaving
close_heard c socket code reason (some (running leaving)) =
    let failed = fail_waiter c (socket_closed code reason) in
    let gone = record (dispose_socket failed) { state = disconnected } in
    left (after_close c.intentional_close gone) leaving

unfoldable pub on_close : Client → ℕ → ℕ → Text → Client
unfolding close_heard
on_close c socket code reason = close_heard c socket code reason (JsMap.get socket c.listeners)

abbrev leave : Option Listeners → Listeners
leave none = messages_only true
leave (some (opening leaving)) = opening true
leave (some (running leaving)) = running true
leave (some (messages_only leaving)) = messages_only true

unfoldable pub disconnect_from : Client → Option ℕ → Client
disconnect_from c none = emit (record c { state = disconnected }) disconnect_resolved
disconnect_from c (some socket) =
    if is_disconnected c.state || is_reconnecting c.state
    then emit (record c { state = disconnected }) disconnect_resolved
    else emit
        (record c {
          state = disconnecting;
          listeners = JsMap.set socket (leave (JsMap.get socket c.listeners)) c.listeners;
        })
        (closing socket)

unfoldable pub disconnect : Client → Client
unfolding disconnect_from
disconnect c =
    disconnect_from
      (record c { intentional_close = true; reconnect_timer = false; reconnect_in_flight = false })
      c.socket

-- The timer of a reconnection fires: whether an attempt begins, which then connects.
unfoldable pub on_reconnect_timer : Client → Client × Bool
unfolding connect
on_reconnect_timer c =
    if c.intentional_close || not c.reconnect
    then (record c { reconnect_timer = false; state = disconnected }, false)
    else connect
        (record c { reconnect_timer = false; reconnect_in_flight = true; state = reconnecting })

-- The attempt has been greeted by the server, has no tunnel to restore, or has restored one.
unfoldable pub on_nothing_to_restore : Client → Client
on_nothing_to_restore c = record c { reconnect_in_flight = false }

unfoldable pub on_restored : Client → (previous tunnel_id : Text) → Client
on_restored c previous tunnel_id =
    emit (record c { reconnect_in_flight = false }) (reconnected tunnel_id (tunnel_id === previous))

-- Any failure of the attempt.
unfoldable pub on_attempt_failed : Client → Failure → Client
unfolding dispose_socket schedule_reconnect
on_attempt_failed c failure =
    schedule_reconnect
      (emit
        (record (dispose_socket (record c { reconnect_in_flight = false })) {
          state = disconnected;
        })
        (reconnect_failed failure))
      failure
