-- ===== src/Protocol/Laws.antt =====
-- What a parsed message is, and messages sent and parsed again.
use looplink.Base.{ℕ, ◌≤◌, ◌≡◌, ◌≢◌, refl, ap, ◌∙◌, none, some, [], ◌∷◌, arith, ℕ_discrete}
use looplink.JsMap
use looplink.JsMap.{JsMap}
use looplink.Text.{Text, codes, text_key, text_dec}
use looplink.Frames.{
  connected, create_tunnel, tunnel_created, error, ping, pong, wire, find_type, Field, text,
  natural, object, ok, and_then, optional_text,
}
use looplink.Frames.Laws.{Given, required_text-ok}
use looplink.Forwarding.{
  HttpMessage, request_start, request_chunk, request_end, response_start, response_chunk,
  response_end, cancel, parse_http_forwarding_message,
}
use looplink.Forwarding.Laws as Http
use looplink.Forwarding.Laws.{optional, http_fields, type_of}
use looplink.Protocol.{
  ProtocolMessage, port_of, connected_message, create_tunnel_message, tunnel_created_message,
  error_message, ping_message, pong_message, http_message, parse_protocol_message,
}

-- The fields of a message of the control plane, as JSON.stringify writes them.
unfoldable pub fields_of : ProtocolMessage → JsMap Text Field
fields_of (connected_message id) =
    (codes "type", text (wire connected)) ∷ (codes "connectionId", text id) ∷ []
fields_of (create_tunnel_message id port tunnel) =
    (codes "type", text (wire create_tunnel))
    ∷ (codes "requestId", text id)
    ∷ (codes "port", natural port)
    ∷ optional (codes "tunnelId") tunnel
fields_of (tunnel_created_message id tunnel url) =
    (codes "type", text (wire tunnel_created))
    ∷ (codes "requestId", text id)
    ∷ (codes "tunnelId", text tunnel)
    ∷ (codes "publicUrl", text url)
    ∷ []
fields_of (error_message code message id) =
    (codes "type", text (wire error))
    ∷ (codes "code", text code)
    ∷ (codes "message", text message)
    ∷ optional (codes "requestId") id
fields_of (ping_message id) = (codes "type", text (wire ping)) ∷ (codes "requestId", text id) ∷ []
fields_of (pong_message id) = (codes "type", text (wire pong)) ∷ (codes "requestId", text id) ∷ []
fields_of (http_message m) = http_fields m

-- What is asked for is not empty, the port is one, and a message of the data plane is in order.
abbrev pub IsValid : ProtocolMessage → Type 0
IsValid (connected_message id) = id ≢ []
IsValid (create_tunnel_message id port tunnel) =
    (id ≢ []) × (1 ≤ port) × (port ≤ 65535) × Given tunnel
IsValid (tunnel_created_message id tunnel url) = (id ≢ []) × (tunnel ≢ []) × (url ≢ [])
IsValid (error_message code message id) = (code ≢ []) × (message ≢ []) × Given id
IsValid (ping_message id) = id ≢ []
IsValid (pong_message id) = id ≢ []
IsValid (http_message m) = Http.IsValid m

port_of-ok : (n : ℕ) → 1 ≤ n → n ≤ 65535 → port_of (some (natural n)) ≡ ok n
unfolding port_of
port_of-ok n a b = ground arith

found-http :
    (m : HttpMessage)
    → Http.IsValid m
    → parse_protocol_message (object (http_fields m))
      ≡ and_then
          (parse_http_forwarding_message (type_of m) (http_fields m))
          (λ x. ok (http_message x))
unfolding parse_protocol_message http_fields type_of find_type wire text_dec ℕ_discrete JsMap.get
found-http (request_start m h) v = refl
found-http (request_chunk m c) v = refl
found-http (request_end m) v = refl
found-http (response_start m h) v = refl
found-http (response_chunk m c) v = refl
found-http (response_end m) v = refl
found-http (cancel m reason) v = refl

-- Every message whose texts and numbers are in order is parsed as it was sent: what is asked for is
-- not empty, the port is one, a status is at least 100.
pub parse-fields_of :
    (m : ProtocolMessage) → IsValid m → parse_protocol_message (object (fields_of m)) ≡ ok m
unfolding parse_protocol_message fields_of find_type wire text_dec ℕ_discrete JsMap.get
    optional_text
parse-fields_of (connected_message id) h =
    ap (λ x. and_then x (λ y. ok (connected_message y)))
      (required_text-ok (codes "connectionId") id h)
parse-fields_of (create_tunnel_message id port none) (h, low, high, g) =
    ground (arith, required_text-ok (codes "requestId") id h, port_of-ok port low high)
parse-fields_of (create_tunnel_message id port (some [])) (h, low, high, g) = ground (arith, g refl)
parse-fields_of (create_tunnel_message id port (some (c ∷ cs))) (h, low, high, g) =
    ground (arith, required_text-ok (codes "requestId") id h, port_of-ok port low high)
parse-fields_of (tunnel_created_message id tunnel url) (h, k, l) = ground (
  arith,
  required_text-ok (codes "requestId") id h,
  required_text-ok (codes "tunnelId") tunnel k,
  required_text-ok (codes "publicUrl") url l,
)
parse-fields_of (error_message code message none) (h, k, g) =
    ground
      (arith, required_text-ok (codes "code") code h, required_text-ok (codes "message") message k)
parse-fields_of (error_message code message (some [])) (h, k, g) = ground (arith, g refl)
parse-fields_of (error_message code message (some (c ∷ cs))) (h, k, g) =
    ground
      (arith, required_text-ok (codes "code") code h, required_text-ok (codes "message") message k)
parse-fields_of (ping_message id) h =
    ap (λ x. and_then x (λ y. ok (ping_message y))) (required_text-ok (codes "requestId") id h)
parse-fields_of (pong_message id) h =
    ap (λ x. and_then x (λ y. ok (pong_message y))) (required_text-ok (codes "requestId") id h)
parse-fields_of (http_message m) h =
    found-http m h ∙ ap (λ p. and_then p (λ x. ok (http_message x))) (Http.parse-http_fields m h)
