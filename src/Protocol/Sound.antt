-- ===== src/Protocol/Sound.antt =====
-- What the parser accepts.
use looplink.Base.{ℕ, ◌≤◌, ◌≡◌, ◌≢◌, [], Option, none, some, arith}
use looplink.JsMap
use looplink.JsMap.{JsMap}
use looplink.Text.{Text, codes, text_key}
use looplink.Frames.{
  MessageType, connected, create_tunnel, tunnel_created, error, ping, pong, http_request_start,
  http_request_chunk, http_request_end, http_response_start, http_response_chunk, http_response_end,
  http_cancel, message_types, find_type, Field, text, natural, truth, array, dictionary, other,
  Value, invalid, not_object, object, Parsed, ok, and_then, text_field, required_text,
  optional_text, unknown_type, no_type, not_json, not_an_object,
}
use looplink.Frames.Laws.{
  Given, ok-sound, err-sound, and_then-sound, required_text_sound, optional_text_sound,
}
use looplink.Forwarding.{parse_http_forwarding_message}
use looplink.Forwarding.Laws as Http
use looplink.Forwarding.Sound.{parse_http_forwarding_message-Sent}
use looplink.Protocol.{
  ProtocolMessage, port_of, connected_message, create_tunnel_message, tunnel_created_message,
  error_message, ping_message, pong_message, http_message, parse_protocol_message, parse_as,
  parse_found, parse_typed,
}
use looplink.Protocol.Laws.{IsValid}

port_of_sound : (o : Option Field) (n : ℕ) → port_of o ≡ ok n → (1 ≤ n) × (n ≤ 65535)
unfolding port_of
port_of_sound none n p = ground arith
port_of_sound (some (text value)) n p = ground arith
port_of_sound (some (natural k)) n p = ground arith
port_of_sound (some (truth b)) n p = ground arith
port_of_sound (some (array b)) n p = ground arith
port_of_sound (some (dictionary b)) n p = ground arith
port_of_sound (some other) n p = ground arith

required_then :
    (name : Text) (o : Option Field) (f : Text → Parsed (ProtocolMessage))
    → ((t : Text) → t ≢ [] → (m : ProtocolMessage) → f t ≡ ok m → IsValid m)
    → (m : ProtocolMessage) → and_then (required_text name o) f ≡ ok m
    → IsValid m
required_then name o f k =
    and_then-sound (λ t. t ≢ []) IsValid (required_text name o) f (required_text_sound name o) k

optional_then :
    (name : Text) (o : Option Field) (f : Option Text → Parsed (ProtocolMessage))
    → ((t : Option Text) → Given t → (m : ProtocolMessage) → f t ≡ ok m → IsValid m)
    → (m : ProtocolMessage) → and_then (optional_text name o) f ≡ ok m
    → IsValid m
optional_then name o f k =
    and_then-sound Given IsValid (optional_text name o) f (optional_text_sound name o) k

http_then :
    (t : MessageType) (r : JsMap Text Field) (m : ProtocolMessage)
    → and_then (parse_http_forwarding_message t r) (λ x. ok (http_message x)) ≡ ok m
    → IsValid m
http_then t r =
    and_then-sound (λ x. Http.IsValid x) IsValid (parse_http_forwarding_message t r)
      (λ x. ok (http_message x)) (λ x q. (parse_http_forwarding_message-Sent t r x q).0)
      (λ x v m q. ok-sound IsValid (http_message x) m v q)

parse_as-IsValid :
    (r : JsMap Text Field) (t : MessageType) (m : ProtocolMessage) → parse_as r t ≡ ok m → IsValid m
parse_as-IsValid r connected =
    required_then (codes "connectionId") (JsMap.get (codes "connectionId") r)
      (λ x. ok (connected_message x)) (λ x h m q. ok-sound IsValid (connected_message x) m h q)
parse_as-IsValid r create_tunnel =
    required_then (codes "requestId") (JsMap.get (codes "requestId") r)
      (λ x. and_then (port_of (JsMap.get (codes "port") r)) (λ y.
        and_then (optional_text (codes "tunnelId") (JsMap.get (codes "tunnelId") r))
          (λ z. ok (create_tunnel_message x y z))))
      (λ x h.
        and_then-sound (λ n. (1 ≤ n) × (n ≤ 65535)) IsValid (port_of (JsMap.get (codes "port") r))
          (λ y.
            and_then (optional_text (codes "tunnelId") (JsMap.get (codes "tunnelId") r))
              (λ z. ok (create_tunnel_message x y z)))
          (port_of_sound (JsMap.get (codes "port") r))
          (λ y k.
            optional_then (codes "tunnelId") (JsMap.get (codes "tunnelId") r)
              (λ z. ok (create_tunnel_message x y z))
              (λ z g m q. ok-sound IsValid (create_tunnel_message x y z) m (h, k.0, k.1, g) q)))
parse_as-IsValid r tunnel_created =
    required_then (codes "requestId") (JsMap.get (codes "requestId") r)
      (λ x. and_then (required_text (codes "tunnelId") (JsMap.get (codes "tunnelId") r)) (λ y.
        and_then (required_text (codes "publicUrl") (JsMap.get (codes "publicUrl") r))
          (λ z. ok (tunnel_created_message x y z))))
      (λ x h.
        required_then (codes "tunnelId") (JsMap.get (codes "tunnelId") r)
          (λ y.
            and_then (required_text (codes "publicUrl") (JsMap.get (codes "publicUrl") r))
              (λ z. ok (tunnel_created_message x y z)))
          (λ y k.
            required_then (codes "publicUrl") (JsMap.get (codes "publicUrl") r)
              (λ z. ok (tunnel_created_message x y z))
              (λ z g m q. ok-sound IsValid (tunnel_created_message x y z) m (h, k, g) q)))
parse_as-IsValid r error =
    required_then (codes "code") (JsMap.get (codes "code") r)
      (λ x. and_then (required_text (codes "message") (JsMap.get (codes "message") r)) (λ y.
        and_then (optional_text (codes "requestId") (JsMap.get (codes "requestId") r))
          (λ z. ok (error_message x y z))))
      (λ x h.
        required_then (codes "message") (JsMap.get (codes "message") r)
          (λ y.
            and_then (optional_text (codes "requestId") (JsMap.get (codes "requestId") r))
              (λ z. ok (error_message x y z)))
          (λ y k.
            optional_then (codes "requestId") (JsMap.get (codes "requestId") r)
              (λ z. ok (error_message x y z))
              (λ z g m q. ok-sound IsValid (error_message x y z) m (h, k, g) q)))
parse_as-IsValid r ping =
    required_then (codes "requestId") (JsMap.get (codes "requestId") r) (λ x. ok (ping_message x))
      (λ x h m q. ok-sound IsValid (ping_message x) m h q)
parse_as-IsValid r pong =
    required_then (codes "requestId") (JsMap.get (codes "requestId") r) (λ x. ok (pong_message x))
      (λ x h m q. ok-sound IsValid (pong_message x) m h q)
parse_as-IsValid r http_request_start = http_then http_request_start r
parse_as-IsValid r http_request_chunk = http_then http_request_chunk r
parse_as-IsValid r http_request_end = http_then http_request_end r
parse_as-IsValid r http_response_start = http_then http_response_start r
parse_as-IsValid r http_response_chunk = http_then http_response_chunk r
parse_as-IsValid r http_response_end = http_then http_response_end r
parse_as-IsValid r http_cancel = http_then http_cancel r

parse_found-IsValid :
    (r : JsMap Text Field) (value : Text) (o : Option MessageType) (m : ProtocolMessage)
    → parse_found r value o ≡ ok m
    → IsValid m
parse_found-IsValid r value none m p = err-sound IsValid (unknown_type value) m p
parse_found-IsValid r value (some t) m p = parse_as-IsValid r t m p

parse_typed-IsValid :
    (r : JsMap Text Field) (o : Option Text) (m : ProtocolMessage)
    → parse_typed r o ≡ ok m
    → IsValid m
parse_typed-IsValid r none m p = err-sound IsValid no_type m p
parse_typed-IsValid r (some value) m p =
    parse_found-IsValid r value (find_type value message_types) m p

-- Whatever a frame holds, a message that the parser accepts has no empty text where an id, a code,
-- a reason or a URL is asked for, a port that it names is one from 1 to 65535, and a status is at
-- least 100.
pub parse-IsValid : (v : Value) (m : ProtocolMessage) → parse_protocol_message v ≡ ok m → IsValid m
unfolding parse_protocol_message
parse-IsValid invalid m p = err-sound IsValid not_json m p
parse-IsValid not_object m p = err-sound IsValid not_an_object m p
parse-IsValid (object r) m p = parse_typed-IsValid r (text_field (JsMap.get (codes "type") r)) m p
