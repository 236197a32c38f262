-- ===== src/Client/Messages.antt =====
-- websocket-client.ts: what is sent, received and waited for, and the request for a tunnel.
use looplink.Base.{
  ℕ, Bool, true, false, not, Option, none, some, List, [], ◌∷◌, ◌++◌, if◌then◌else◌, is_some,
}
use looplink.JsMap
use looplink.JsMap.{JsMap, nat_key}
use looplink.Text.{Text, text_key, ◌===◌}
use looplink.Frames.{Parsed, Value, err, ok}
use looplink.Forwarding.{request_start, request_chunk, request_end, cancel}
use looplink.Protocol.{
  ProtocolMessage, create_tunnel_message, tunnel_created_message, error_message, ping_message,
  pong_message, http_message, parse_protocol_message,
}
use looplink.Client.{
  Client, Failure, emit, fail_waiter, is_connected, forwarded, sent, wait_resolved,
  wait_in_progress, wait_timed_out, not_connected, not_open, refused, unexpected_response,
}

-- What becomes of a wait for a message.
pub data Wait : Type 0 where
  resolved : ProtocolMessage → Wait
  pending : Wait
  rejected : Failure → Wait

-- The first message that matches, and the rest.
unfoldable pub take_first :
    (ProtocolMessage → Bool)
    → List ProtocolMessage
    → Option (ProtocolMessage × List ProtocolMessage)
take_first match [] = none
take_first match (m ∷ ms) = if match m then some (m, ms) else after (take_first match ms)
  where
    after :
        Option (ProtocolMessage × List ProtocolMessage)
        → Option (ProtocolMessage × List ProtocolMessage)
    after none = none
    after (some (found, rest)) = some (found, m ∷ rest)

unfoldable pub wait_in :
    Client
    → (ProtocolMessage → Bool)
    → Option (ProtocolMessage × List ProtocolMessage)
    → Client × Wait
wait_in c match (some (message, rest)) = (record c { inbox = rest }, resolved message)
wait_in c match none =
    if is_some c.waiter
    then (c, rejected wait_in_progress)
    else (record c { waiter = some match }, pending)

unfoldable pub wait_for_message : Client → (ProtocolMessage → Bool) → Client × Wait
unfolding wait_in take_first
wait_for_message c match = wait_in c match (take_first match c.inbox)

-- The timer of a wait.
unfoldable pub on_wait_timeout : Client → Client
unfolding fail_waiter
on_wait_timeout c = fail_waiter c wait_timed_out

unfoldable pub is_inbound_forwarding_message : ProtocolMessage → Bool
is_inbound_forwarding_message (http_message (request_start m head)) = true
is_inbound_forwarding_message (http_message (request_chunk m chunk)) = true
is_inbound_forwarding_message (http_message (request_end m)) = true
is_inbound_forwarding_message (http_message (cancel m reason)) = true
is_inbound_forwarding_message m = false

abbrev pub is_pong : ProtocolMessage → Bool
is_pong (pong_message id) = true
is_pong m = false

unfoldable pub wanted : Option (ProtocolMessage → Bool) → ProtocolMessage → Bool
wanted none message = false
wanted (some match) message = match message

unfoldable pub deliver : Client → ProtocolMessage → Client
unfolding is_inbound_forwarding_message wanted
deliver c message =
    if is_inbound_forwarding_message message
    then if c.has_forwarding_handler then emit c (forwarded message) else c
    else if wanted c.waiter message
    then emit (record c { waiter = none }) (wait_resolved message)
    else if is_pong message
    then c
    else record c { inbox = c.inbox ++ message ∷ [] }

abbrev pub deliver_parsed : Client → Parsed ProtocolMessage → Client
deliver_parsed c (err e) = c
deliver_parsed c (ok message) = deliver c message

unfoldable pub handle_incoming_data : Client → ℕ → Value → Client
unfolding deliver
handle_incoming_data c socket value =
    if is_some (JsMap.get socket c.listeners)
    then deliver_parsed c (parse_protocol_message value)
    else c

unfoldable pub set_forwarding_handler : Client → Client
set_forwarding_handler c = record c { has_forwarding_handler = true }

module _ (is_open : ℕ → Bool) where
  unfoldable pub send_on : Client → Option ℕ → ProtocolMessage → Client × Option Failure
  send_on c none message = (c, some not_connected)
  send_on c (some socket) message =
      if not (is_connected c.state)
      then (c, some not_connected)
      else if not (is_open socket)
      then (c, some not_open)
      else (emit c (sent socket message), none)

  unfoldable pub send : Client → ProtocolMessage → Client × Option Failure
  unfolding send_on
  send c message = send_on c c.socket message

  unfoldable pub send_heartbeat_ping : Client → Text → Client
  unfolding send
  send_heartbeat_ping c request_id =
      if is_connected c.state then (send c (ping_message request_id)).0 else c

  unfoldable pub answers : Text → ProtocolMessage → Bool
  answers request_id (tunnel_created_message id tunnel_id public_url) = id === request_id
  answers request_id (error_message code message (some id)) = id === request_id
  answers request_id m = false

  -- `createTunnel` up to its wait: the wait begins, and then the request is sent.
  unfoldable pub create_tunnel : Client → Text → ℕ → Option Text → Client × Wait × Option Failure
  unfolding wait_for_message send answers
  create_tunnel c request_id port preferred =
      let (waiting, wait) = wait_for_message c (answers request_id) in
      let (after, failure) = send waiting (create_tunnel_message request_id port preferred) in
      (after, wait, failure)

-- What follows the wait; `none` where there is no failure.
unfoldable pub tunnel_answered : Client → ℕ → ProtocolMessage → Client × Option Failure
tunnel_answered c port (tunnel_created_message id tunnel_id public_url) = (
  record c {
    active_tunnel = some (record { port = port; tunnel_id = tunnel_id; public_url = public_url });
  },
  none,
)
tunnel_answered c port (error_message code message id) = (c, some (refused message))
tunnel_answered c port m = (c, some unexpected_response)
