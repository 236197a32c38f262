-- ===== src/Protocol.antt =====
-- parse-protocol-message.ts: the messages of the control plane, and the parser of a frame.
pub mod Laws
pub mod Sound
use looplink.Base.{ℕ, Option, none, some, leb, ◌&&◌, if◌then◌else◌}
use looplink.JsMap
use looplink.JsMap.{JsMap}
use looplink.Text.{Text, codes, text_key}
use looplink.Frames.{
  MessageType, connected, create_tunnel, tunnel_created, error, ping, pong, http_request_start,
  http_request_chunk, http_request_end, http_response_start, http_response_chunk, http_response_end,
  http_cancel, message_types, find_type, Field, natural, Value, invalid, not_object, object,
  not_json, not_an_object, no_type, bad_port, unknown_type, Parsed, err, ok, and_then, text_field,
  required_text, optional_text,
}
use looplink.Forwarding.{HttpMessage, parse_http_forwarding_message}

abbrev natural_field : Option Field → Option ℕ
natural_field (some (natural n)) = some n
natural_field _ = none

abbrev port_in_range : Option ℕ → Parsed ℕ
port_in_range none = err bad_port
port_in_range (some n) = if leb 1 n && leb n 65535 then ok n else err bad_port

unfoldable pub port_of : Option Field → Parsed ℕ
port_of field = port_in_range (natural_field field)

pub data ProtocolMessage : Type 0 where
  connected_message : Text → ProtocolMessage
  create_tunnel_message : Text → ℕ → Option Text → ProtocolMessage
  tunnel_created_message : Text → Text → Text → ProtocolMessage
  error_message : Text → Text → Option Text → ProtocolMessage
  ping_message pong_message : Text → ProtocolMessage
  http_message : HttpMessage → ProtocolMessage

module _ (fields : JsMap Text Field) where
  abbrev parse_connected : Parsed (ProtocolMessage)
  parse_connected =
      and_then (required_text (codes "connectionId") (JsMap.get (codes "connectionId") fields))
        (λ id. ok (connected_message id))

  abbrev parse_create_tunnel : Parsed (ProtocolMessage)
  parse_create_tunnel =
      and_then (required_text (codes "requestId") (JsMap.get (codes "requestId") fields)) (λ id.
        and_then (port_of (JsMap.get (codes "port") fields)) (λ port.
          and_then (optional_text (codes "tunnelId") (JsMap.get (codes "tunnelId") fields))
            (λ tunnel. ok (create_tunnel_message id port tunnel))))

  abbrev parse_tunnel_created : Parsed (ProtocolMessage)
  parse_tunnel_created =
      and_then (required_text (codes "requestId") (JsMap.get (codes "requestId") fields)) (λ id.
        and_then (required_text (codes "tunnelId") (JsMap.get (codes "tunnelId") fields)) (λ tunnel.
          and_then (required_text (codes "publicUrl") (JsMap.get (codes "publicUrl") fields))
            (λ url. ok (tunnel_created_message id tunnel url))))

  abbrev parse_error : Parsed (ProtocolMessage)
  parse_error = and_then (required_text (codes "code") (JsMap.get (codes "code") fields)) (λ code.
      and_then (required_text (codes "message") (JsMap.get (codes "message") fields)) (λ message.
        and_then (optional_text (codes "requestId") (JsMap.get (codes "requestId") fields))
          (λ id. ok (error_message code message id))))

  abbrev parse_ping : Parsed (ProtocolMessage)
  parse_ping =
      and_then (required_text (codes "requestId") (JsMap.get (codes "requestId") fields))
        (λ id. ok (ping_message id))

  abbrev parse_pong : Parsed (ProtocolMessage)
  parse_pong =
      and_then (required_text (codes "requestId") (JsMap.get (codes "requestId") fields))
        (λ id. ok (pong_message id))

abbrev forwarded : MessageType → JsMap Text Field → Parsed (ProtocolMessage)
forwarded t r = and_then (parse_http_forwarding_message t r) (λ m. ok (http_message m))

abbrev pub parse_as : JsMap Text Field → MessageType → Parsed (ProtocolMessage)
parse_as r connected = parse_connected r
parse_as r create_tunnel = parse_create_tunnel r
parse_as r tunnel_created = parse_tunnel_created r
parse_as r error = parse_error r
parse_as r ping = parse_ping r
parse_as r pong = parse_pong r
parse_as r http_request_start = forwarded http_request_start r
parse_as r http_request_chunk = forwarded http_request_chunk r
parse_as r http_request_end = forwarded http_request_end r
parse_as r http_response_start = forwarded http_response_start r
parse_as r http_response_chunk = forwarded http_response_chunk r
parse_as r http_response_end = forwarded http_response_end r
parse_as r http_cancel = forwarded http_cancel r

abbrev pub parse_found : JsMap Text Field → Text → Option MessageType → Parsed (ProtocolMessage)
parse_found r value none = err (unknown_type value)
parse_found r value (some t) = parse_as r t

abbrev pub parse_typed : JsMap Text Field → Option Text → Parsed ProtocolMessage
parse_typed r none = err no_type
parse_typed r (some value) = parse_found r value (find_type value message_types)

unfoldable pub parse_protocol_message : Value → Parsed (ProtocolMessage)
parse_protocol_message invalid = err not_json
parse_protocol_message not_object = err not_an_object
parse_protocol_message (object r) = parse_typed r (text_field (JsMap.get (codes "type") r))
