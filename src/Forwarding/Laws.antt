-- ===== src/Forwarding/Laws.antt =====
-- A message of the data plane, sent and parsed again, and what the parser accepts.
use looplink.Base.{
  ◌≤◌, ◌≡◌, ◌≢◌, refl, ap, Option, none, some, List, [], ◌∷◌, map, arith, ℕ_discrete,
}
use looplink.JsMap
use looplink.JsMap.{JsMap}
use looplink.Text.{Text, codes, text_key, text_dec}
use looplink.Frames.{
  MessageType, http_request_start, http_request_chunk, http_request_end, http_response_start,
  http_response_chunk, http_response_end, http_cancel, wire, word, Entry, single, several, Field,
  text, natural, truth, array, dictionary, ParseError, bad_entry, no_texts, ok, and_then,
  optional_text,
}
use looplink.Frames.Laws.{Given, required_text-ok}
use looplink.Forwarding.{
  HttpMethod, get, post, put, patch, delete, BodyEncoding, utf8, base64, HeaderValue, one, many,
  HttpHeaders, HttpCookies, Meta, RequestHead, ResponseHead, Chunk, HttpMessage, request_start,
  request_chunk, response_chunk, request_end, response_end, response_start, cancel,
  require_request_meta, method_name, find_method, methods, words, header_value, header_entries,
  cookie_entries, encoding_named, parse_chunk_fields, parse_request_start, parse_request_chunk,
  parse_request_end, parse_response_start, parse_response_chunk, parse_response_end, parse_cancel,
  parse_http_forwarding_message,
}

abbrev pub optional : Text → Option Text → JsMap Text Field
optional name none = []
optional name (some value) = (name, text value) ∷ []

-- What JSON.stringify writes of a message.
abbrev entry_of : HeaderValue → Entry
entry_of (one v) = single v
entry_of (many vs) = several (map word vs)

unfoldable pub dictionary_of : HttpHeaders → JsMap Text Entry
dictionary_of [] = []
dictionary_of ((key, value) ∷ rest) = (key, entry_of value) ∷ dictionary_of rest

unfoldable pub cookie_dictionary_of : HttpCookies → JsMap Text Entry
cookie_dictionary_of [] = []
cookie_dictionary_of ((key, value) ∷ rest) = (key, single value) ∷ cookie_dictionary_of rest

abbrev encoding_name : BodyEncoding → Text
encoding_name utf8 = codes "utf8"
encoding_name base64 = codes "base64"

abbrev meta_fields : MessageType → Meta → JsMap Text Field → JsMap Text Field
meta_fields t m rest =
    (codes "type", text (wire t))
    ∷ (codes "requestId", text m.request_id)
    ∷ (codes "tunnelId", text m.tunnel_id)
    ∷ rest

abbrev chunk_fields : Chunk → JsMap Text Field
chunk_fields c =
    (codes "sequence", natural c.sequence)
    ∷ (codes "encoding", text (encoding_name c.encoding))
    ∷ (codes "data", text c.content)
    ∷ []

abbrev request_fields : RequestHead → JsMap Text Field
request_fields h =
    (codes "method", text (method_name h.method))
    ∷ (codes "path", text h.path)
    ∷ (codes "query", dictionary (dictionary_of h.query))
    ∷ (codes "headers", dictionary (dictionary_of h.headers))
    ∷ (codes "cookies", dictionary (cookie_dictionary_of h.cookies))
    ∷ (codes "hasBody", truth h.has_body)
    ∷ []

abbrev response_fields : ResponseHead → JsMap Text Field
response_fields h =
    (codes "statusCode", natural h.status_code)
    ∷ (codes "headers", dictionary (dictionary_of h.headers))
    ∷ (codes "setCookies", array (map word h.set_cookies))
    ∷ (codes "hasBody", truth h.has_body)
    ∷ []

unfoldable pub type_of : HttpMessage → MessageType
type_of (request_start m h) = http_request_start
type_of (request_chunk m c) = http_request_chunk
type_of (request_end m) = http_request_end
type_of (response_start m h) = http_response_start
type_of (response_chunk m c) = http_response_chunk
type_of (response_end m) = http_response_end
type_of (cancel m reason) = http_cancel

unfoldable pub http_fields : HttpMessage → JsMap Text Field
http_fields (request_start m h) = meta_fields http_request_start m (request_fields h)
http_fields (request_chunk m c) = meta_fields http_request_chunk m (chunk_fields c)
http_fields (request_end m) = meta_fields http_request_end m []
http_fields (response_start m h) = meta_fields http_response_start m (response_fields h)
http_fields (response_chunk m c) = meta_fields http_response_chunk m (chunk_fields c)
http_fields (response_end m) = meta_fields http_response_end m []
http_fields (cancel m reason) = meta_fields http_cancel m (optional (codes "reason") reason)

-- Both ids are given, a status is at least 100, and a reason is not empty.
abbrev pub IsMeta : Meta → Type 0
IsMeta m = (m.request_id ≢ []) × (m.tunnel_id ≢ [])

abbrev pub IsValid : HttpMessage → Type 0
IsValid (request_start m h) = IsMeta m
IsValid (request_chunk m c) = IsMeta m
IsValid (request_end m) = IsMeta m
IsValid (response_start m h) = IsMeta m × (100 ≤ h.status_code)
IsValid (response_chunk m c) = IsMeta m
IsValid (response_end m) = IsMeta m
IsValid (cancel m reason) = IsMeta m × Given reason

words-map : (e : ParseError) (ws : List Text) → words e (map word ws) ≡ ok ws
unfolding words
words-map e [] = refl
words-map e (w ∷ ws) = ap (λ p. and_then p (λ r. ok (w ∷ r))) (words-map e ws)

header_entries-dictionary_of : (h : HttpHeaders) → header_entries (dictionary_of h) ≡ ok h
unfolding header_entries header_value dictionary_of
header_entries-dictionary_of [] = refl
header_entries-dictionary_of ((key, one v) ∷ rest) =
    ground (arith, header_entries-dictionary_of rest)
header_entries-dictionary_of ((key, many vs) ∷ rest) =
    ground (arith, header_entries-dictionary_of rest, words-map (bad_entry key) vs)

cookie_entries-dictionary_of : (h : HttpCookies) → cookie_entries (cookie_dictionary_of h) ≡ ok h
unfolding cookie_entries cookie_dictionary_of
cookie_entries-dictionary_of [] = refl
cookie_entries-dictionary_of ((key, v) ∷ rest) = ground (arith, cookie_entries-dictionary_of rest)

find_method-method_name : (m : HttpMethod) → find_method (method_name m) methods ≡ ok m
unfolding find_method text_dec ℕ_discrete
find_method-method_name get = refl
find_method-method_name post = refl
find_method-method_name put = refl
find_method-method_name patch = refl
find_method-method_name delete = refl

meta-ok :
    (t : MessageType) (m : Meta) (rest : JsMap Text Field)
    → IsMeta m
    → require_request_meta (meta_fields t m rest) ≡ ok m
unfolding require_request_meta JsMap.get text_dec ℕ_discrete
meta-ok t m rest (a, b) = ground (
  arith,
  required_text-ok (codes "requestId") m.request_id a,
  required_text-ok (codes "tunnelId") m.tunnel_id b,
)

encoding_named-encoding_name : (e : BodyEncoding) → encoding_named (encoding_name e) ≡ ok e
unfolding encoding_named text_dec ℕ_discrete
encoding_named-encoding_name utf8 = refl
encoding_named-encoding_name base64 = refl

chunk-ok :
    (t : MessageType) (m : Meta) (c : Chunk)
    → parse_chunk_fields (meta_fields t m (chunk_fields c)) ≡ ok c
unfolding parse_chunk_fields JsMap.get text_dec ℕ_discrete
chunk-ok t m c = ground (arith, encoding_named-encoding_name c.encoding)

-- A message of the data plane is parsed as it was sent, if its ids are given, its status is at
-- least 100 and its reason is not empty.
pub parse-http_fields :
    (m : HttpMessage) → IsValid m → parse_http_forwarding_message (type_of m) (http_fields m) ≡ ok m
unfolding parse_http_forwarding_message type_of http_fields parse_request_start parse_request_chunk
    parse_request_end parse_response_start parse_response_chunk parse_response_end parse_cancel
    JsMap.get text_dec ℕ_discrete optional_text
parse-http_fields (request_start m h) v = ground (
  arith,
  meta-ok http_request_start m (request_fields h) v,
  find_method-method_name h.method,
  header_entries-dictionary_of h.query,
  header_entries-dictionary_of h.headers,
  cookie_entries-dictionary_of h.cookies,
)
parse-http_fields (request_chunk m c) v =
    ground (arith, meta-ok http_request_chunk m (chunk_fields c) v, chunk-ok http_request_chunk m c)
parse-http_fields (request_end m) v = ground (arith, meta-ok http_request_end m [] v)
parse-http_fields (response_start m h) (v, low) = ground (
  arith,
  meta-ok http_response_start m (response_fields h) v,
  header_entries-dictionary_of h.headers,
  words-map (no_texts (codes "setCookies")) h.set_cookies,
)
parse-http_fields (response_chunk m c) v =
    ground
      (arith, meta-ok http_response_chunk m (chunk_fields c) v, chunk-ok http_response_chunk m c)
parse-http_fields (response_end m) v = ground (arith, meta-ok http_response_end m [] v)
parse-http_fields (cancel m none) (v, g) = ground (arith, meta-ok http_cancel m [] v)
parse-http_fields (cancel m (some [])) (v, g) = ground (arith, g refl)
parse-http_fields (cancel m (some (c ∷ cs))) (v, g) =
    ground (arith, meta-ok http_cancel m (optional (codes "reason") (some (c ∷ cs))) v)
