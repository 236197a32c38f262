-- ===== src/Forwarding/Sound.antt =====
-- What the parser of the data plane accepts.
use looplink.Base.{ℕ, ◌≤◌, ◌≡◌, ◌≢◌, refl, Option, none, some, [], arith}
use looplink.JsMap.{JsMap}
use looplink.Text.{Text, codes, text_key}
use looplink.Frames.{
  MessageType, http_request_start, http_request_chunk, http_request_end, http_response_start,
  http_response_chunk, http_response_end, http_cancel, Field, text, natural, truth, array,
  dictionary, other, ok, text_field,
}
use looplink.Frames.Laws.{
  ok-sound, and_then-sound, skip-sound, required_text_sound, optional_text_sound,
}
use looplink.Forwarding.{
  RequestHead, method_of, field, any_text, parse_headers, parse_cookies, boolean, Meta, HttpMessage,
  request_start, status_of, require_request_meta, parse_request_start, parse_request_chunk,
  parse_request_end, parse_response_start, parse_response_chunk, parse_response_end, parse_cancel,
  parse_http_forwarding_message,
}
use looplink.Forwarding.Laws.{IsMeta, IsValid, type_of}

abbrev pub Sent : MessageType → HttpMessage → Type 0
Sent t m = IsValid m × (type_of m ≡ t)

meta_sound : (r : JsMap Text Field) (m : Meta) → require_request_meta r ≡ ok m → IsMeta m
unfolding require_request_meta
meta_sound r =
    and_then-sound (λ a. a ≢ []) IsMeta _ _ (required_text_sound _ _)
      (λ a ha.
        and_then-sound (λ b. b ≢ []) IsMeta _ _ (required_text_sound _ _)
          (λ b hb m p. ok-sound IsMeta (record { request_id = a; tunnel_id = b }) m (ha, hb) p))

status_of_sound : (o : Option Field) (n : ℕ) → status_of o ≡ ok n → 100 ≤ n
status_of_sound none n p = ground arith
status_of_sound (some (natural k)) n p = ground arith
status_of_sound (some (text v)) n p = ground arith
status_of_sound (some (truth v)) n p = ground arith
status_of_sound (some (array v)) n p = ground arith
status_of_sound (some (dictionary v)) n p = ground arith
status_of_sound (some other) n p = ground arith

request_start_sound :
    (m : Meta)
    → IsMeta m
    → (h : RequestHead) (x : HttpMessage) → ok (request_start m h) ≡ ok x
    → Sent http_request_start x
unfolding type_of
request_start_sound m v h x p = ok-sound (Sent http_request_start) (request_start m h) x (v, refl) p

parse_request_start_sound :
    (r : JsMap Text Field) (x : HttpMessage)
    → parse_request_start r ≡ ok x
    → Sent http_request_start x
unfolding parse_request_start
parse_request_start_sound r =
    and_then-sound IsMeta (Sent http_request_start) (require_request_meta r) _ (meta_sound r)
      (λ m v.
        skip-sound (Sent http_request_start) (method_of (text_field (field (codes "method") r))) _
          (λ method.
            skip-sound (Sent http_request_start)
              (any_text (codes "path") (text_field (field (codes "path") r))) _
              (λ path.
                skip-sound (Sent http_request_start)
                  (parse_headers (codes "query") (field (codes "query") r)) _
                  (λ query.
                    skip-sound (Sent http_request_start)
                      (parse_headers (codes "headers") (field (codes "headers") r)) _
                      (λ headers.
                        skip-sound (Sent http_request_start)
                          (parse_cookies (field (codes "cookies") r)) _
                          (λ cookies.
                            skip-sound (Sent http_request_start)
                              (boolean (codes "hasBody") (field (codes "hasBody") r)) _
                              (λ has_body x p.
                                request_start_sound m v
                                  (record {
                                    method = method;
                                    path = path;
                                    query = query;
                                    headers = headers;
                                    cookies = cookies;
                                    has_body = has_body;
                                  })
                                  x p)))))))

parse_response_start_sound :
    (r : JsMap Text Field) (x : HttpMessage)
    → parse_response_start r ≡ ok x
    → Sent http_response_start x
unfolding parse_response_start type_of
parse_response_start_sound r x p = grind (arith, meta_sound, status_of_sound)

parse_cancel_sound :
    (r : JsMap Text Field) (x : HttpMessage) → parse_cancel r ≡ ok x → Sent http_cancel x
unfolding parse_cancel type_of
parse_cancel_sound r x p = grind (arith, meta_sound, optional_text_sound)

-- Whatever a frame holds, a message of the data plane that the parser accepts is of the type that was
-- asked for, has both ids, a status of at least 100 and no empty reason.
pub parse_http_forwarding_message-Sent :
    (t : MessageType) (r : JsMap Text Field) (x : HttpMessage)
    → parse_http_forwarding_message t r ≡ ok x
    → Sent t x
unfolding parse_http_forwarding_message parse_request_chunk parse_request_end parse_response_chunk
    parse_response_end type_of
parse_http_forwarding_message-Sent http_request_start r x p = parse_request_start_sound r x p
parse_http_forwarding_message-Sent http_request_chunk r x p = grind (arith, meta_sound)
parse_http_forwarding_message-Sent http_request_end r x p = grind (arith, meta_sound)
parse_http_forwarding_message-Sent http_response_start r x p = parse_response_start_sound r x p
parse_http_forwarding_message-Sent http_response_chunk r x p = grind (arith, meta_sound)
parse_http_forwarding_message-Sent http_response_end r x p = grind (arith, meta_sound)
parse_http_forwarding_message-Sent http_cancel r x p = parse_cancel_sound r x p
parse_http_forwarding_message-Sent t r x p = ground arith
