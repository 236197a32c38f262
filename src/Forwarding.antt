-- ===== src/Forwarding.antt =====
-- http-forwarding.ts and parse-http-forwarding.ts: the messages of the data plane and their parser.
pub mod Laws
pub mod Sound
use looplink.Base.{ℕ, Bool, true, false, Option, none, some, List, [], ◌∷◌, leb, if◌then◌else◌}
use looplink.JsMap
use looplink.JsMap.{JsMap}
use looplink.Text.{Text, codes, text_key, ◌===◌}
use looplink.Frames.{
  MessageType, connected, create_tunnel, tunnel_created, error, ping, pong, http_request_start,
  http_request_chunk, http_request_end, http_response_start, http_response_chunk, http_response_end,
  http_cancel, Item, word, no_word, Entry, single, several, no_entry, Field, text, natural, truth,
  array, dictionary, bad_method, bad_status, bad_sequence, bad_encoding, no_text, no_boolean,
  no_object, no_texts, bad_entry, Parsed, err, ok, and_then, ◌>>=◌, text_field, required_text,
  optional_text, wire, unknown_type, ParseError,
}

pub data HttpMethod : Type 0 where
  get post put patch delete : HttpMethod

pub data BodyEncoding : Type 0 where
  utf8 base64 : BodyEncoding

pub data HeaderValue : Type 0 where
  one : Text → HeaderValue
  many : List Text → HeaderValue

abbrev pub HttpHeaders : Type 0
HttpHeaders = JsMap Text HeaderValue

abbrev pub HttpCookies : Type 0
HttpCookies = JsMap Text Text

pub record Meta : Type 0 where
  pub request_id : Text
  pub tunnel_id : Text

pub record RequestHead : Type 0 where
  pub method : HttpMethod
  pub path : Text
  pub query : HttpHeaders
  pub headers : HttpHeaders
  pub cookies : HttpCookies
  pub has_body : Bool

pub record ResponseHead : Type 0 where
  pub status_code : ℕ
  pub headers : HttpHeaders
  pub set_cookies : List Text
  pub has_body : Bool

pub record Chunk : Type 0 where
  pub sequence : ℕ
  pub encoding : BodyEncoding
  pub content : Text

pub data HttpMessage : Type 0 where
  request_start : Meta → RequestHead → HttpMessage
  request_chunk response_chunk : Meta → Chunk → HttpMessage
  request_end response_end : Meta → HttpMessage
  response_start : Meta → ResponseHead → HttpMessage
  cancel : Meta → Option Text → HttpMessage

abbrev pub field : Text → JsMap Text Field → Option Field
field name r = JsMap.get name r

unfoldable pub require_request_meta : JsMap Text Field → Parsed Meta
require_request_meta r = do
  request_id ← required_text (codes "requestId") (field (codes "requestId") r)
  tunnel_id ← required_text (codes "tunnelId") (field (codes "tunnelId") r)
  ok (record { request_id = request_id; tunnel_id = tunnel_id })

abbrev pub method_name : HttpMethod → Text
method_name get = codes "GET"
method_name post = codes "POST"
method_name put = codes "PUT"
method_name patch = codes "PATCH"
method_name delete = codes "DELETE"

abbrev pub methods : List HttpMethod
methods = get ∷ post ∷ put ∷ patch ∷ delete ∷ []

unfoldable pub find_method : Text → List HttpMethod → Parsed HttpMethod
find_method value [] = err bad_method
find_method value (m ∷ ms) =
    let rest = find_method value ms in if value === method_name m then ok m else rest

abbrev pub method_of : Option Text → Parsed HttpMethod
method_of none = err bad_method
method_of (some value) = find_method value methods

abbrev pub any_text : Text → Option Text → Parsed Text
any_text name none = err (no_text name)
any_text name (some value) = ok value

abbrev pub boolean : Text → Option Field → Parsed Bool
boolean name (some (truth b)) = ok b
boolean name _ = err (no_boolean name)

-- `parseStringArray` on the elements: all of them are texts, or none is taken.
unfoldable pub words : ParseError → List Item → Parsed (List Text)
words e [] = ok []
words e (no_word ∷ items) = err e
words e (word w ∷ items) = and_then (words e items) (λ ws. ok (w ∷ ws))

abbrev pub string_array : Text → Option Field → Parsed (List Text)
string_array name (some (array items)) = words (no_texts name) items
string_array name _ = err (no_texts name)

unfoldable pub header_value : Text → Entry → Parsed HeaderValue
unfolding words
header_value key (single value) = ok (one value)
header_value key (several items) = and_then (words (bad_entry key) items) (λ ws. ok (many ws))
header_value key no_entry = err (bad_entry key)

unfoldable pub header_entries : JsMap Text Entry → Parsed HttpHeaders
unfolding header_value
header_entries [] = ok []
header_entries ((key, entry) ∷ entries) =
    and_then (header_value key entry)
      (λ value. and_then (header_entries entries) (λ rest. ok ((key, value) ∷ rest)))

abbrev pub parse_headers : Text → Option Field → Parsed HttpHeaders
parse_headers name (some (dictionary entries)) = header_entries entries
parse_headers name _ = err (no_object name)

unfoldable pub cookie_entries : JsMap Text Entry → Parsed HttpCookies
cookie_entries [] = ok []
cookie_entries ((key, single value) ∷ entries) =
    and_then (cookie_entries entries) (λ rest. ok ((key, value) ∷ rest))
cookie_entries ((key, several items) ∷ entries) = err (bad_entry key)
cookie_entries ((key, no_entry) ∷ entries) = err (bad_entry key)

abbrev pub parse_cookies : Option Field → Parsed HttpCookies
parse_cookies (some (dictionary entries)) = cookie_entries entries
parse_cookies _ = err (no_object (codes "cookies"))

abbrev pub status_of : Option Field → Parsed ℕ
status_of (some (natural n)) = if leb 100 n then ok n else err bad_status
status_of _ = err bad_status

abbrev pub sequence_of : Option Field → Parsed ℕ
sequence_of (some (natural n)) = ok n
sequence_of _ = err bad_sequence

unfoldable pub encoding_named : Text → Parsed BodyEncoding
encoding_named value =
    if value === codes "utf8"
    then ok utf8
    else if value === codes "base64"
    then ok base64
    else err bad_encoding

abbrev pub encoding_of : Option Text → Parsed BodyEncoding
encoding_of none = err bad_encoding
encoding_of (some value) = encoding_named value

unfoldable pub parse_chunk_fields : JsMap Text Field → Parsed Chunk
parse_chunk_fields r = do
  sequence ← sequence_of (field (codes "sequence") r)
  encoding ← encoding_of (text_field (field (codes "encoding") r))
  content ← any_text (codes "data") (text_field (field (codes "data") r))
  ok (record { sequence = sequence; encoding = encoding; content = content })

unfoldable pub parse_request_start : JsMap Text Field → Parsed HttpMessage
parse_request_start r = do
  m ← require_request_meta r
  method ← method_of (text_field (field (codes "method") r))
  path ← any_text (codes "path") (text_field (field (codes "path") r))
  query ← parse_headers (codes "query") (field (codes "query") r)
  headers ← parse_headers (codes "headers") (field (codes "headers") r)
  cookies ← parse_cookies (field (codes "cookies") r)
  has_body ← boolean (codes "hasBody") (field (codes "hasBody") r)
  ok (
      request_start m (record {
        method = method;
        path = path;
        query = query;
        headers = headers;
        cookies = cookies;
        has_body = has_body;
      }))

unfoldable pub parse_request_chunk : JsMap Text Field → Parsed HttpMessage
parse_request_chunk r = do
  m ← require_request_meta r
  chunk ← parse_chunk_fields r
  ok (request_chunk m chunk)

unfoldable pub parse_request_end : JsMap Text Field → Parsed HttpMessage
parse_request_end r = do m ← require_request_meta r; ok (request_end m)

unfoldable pub parse_response_start : JsMap Text Field → Parsed HttpMessage
parse_response_start r = do
  m ← require_request_meta r
  status_code ← status_of (field (codes "statusCode") r)
  headers ← parse_headers (codes "headers") (field (codes "headers") r)
  set_cookies ← string_array (codes "setCookies") (field (codes "setCookies") r)
  has_body ← boolean (codes "hasBody") (field (codes "hasBody") r)
  ok (
      response_start m (record {
        status_code = status_code;
        headers = headers;
        set_cookies = set_cookies;
        has_body = has_body;
      }))

unfoldable pub parse_response_chunk : JsMap Text Field → Parsed HttpMessage
parse_response_chunk r = do
  m ← require_request_meta r
  chunk ← parse_chunk_fields r
  ok (response_chunk m chunk)

unfoldable pub parse_response_end : JsMap Text Field → Parsed HttpMessage
parse_response_end r = do m ← require_request_meta r; ok (response_end m)

unfoldable pub parse_cancel : JsMap Text Field → Parsed HttpMessage
parse_cancel r = do
  m ← require_request_meta r
  reason ← optional_text (codes "reason") (field (codes "reason") r)
  ok (cancel m reason)

unfoldable pub parse_http_forwarding_message : MessageType → JsMap Text Field → Parsed HttpMessage
parse_http_forwarding_message http_request_start r = parse_request_start r
parse_http_forwarding_message http_request_chunk r = parse_request_chunk r
parse_http_forwarding_message http_request_end r = parse_request_end r
parse_http_forwarding_message http_response_start r = parse_response_start r
parse_http_forwarding_message http_response_chunk r = parse_response_chunk r
parse_http_forwarding_message http_response_end r = parse_response_end r
parse_http_forwarding_message http_cancel r = parse_cancel r
parse_http_forwarding_message t r = err (unknown_type (wire t))
