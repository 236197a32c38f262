-- ===== src/RequestMapper.antt =====
-- apps/server/src/http-forward/request-mapper.ts: a public request as the fields that are forwarded.
-- An upper case letter is one of ASCII; `decodeURIComponent` and the bytes of a text are arguments.
pub mod Laws
use looplink.Base.{
  ℕ, Bool, true, false, Option, none, some, List, [], ◌∷◌, leb, if◌then◌else◌, ◌&&◌, ◌-◌, ◌+◌, ◌*◌,
  ◌==◌, zero, suc, map, take, drop, length,
}
use looplink.JsMap
use looplink.JsMap.{JsMap}
use looplink.Text.{Text, codes, text_key, ◌===◌, is_empty, trim, to_lower, split, first_part}
use looplink.Frames.{Item, word, no_word, Entry, single, several, no_entry}
use looplink.Forwarding.{
  HttpMethod, get, post, put, patch, delete, HeaderValue, one, many, HttpHeaders, HttpCookies,
}

pub data Label : Type 0 where
  path query_key query_value header_name header_value cookie_name cookie_value : Label

pub data MapError : Type 0 where
  unsupported_method : Text → MapError
  too_long : Label → MapError
  malformed_cookie : MapError

pub data Result {ℓ} (A : Type ℓ) : Type ℓ where
  done : A → Result A
  thrown : MapError → Result A

infixl 20 ◌>>=◌
abbrev pub ◌>>=◌ {ℓ} : {A B : Type ℓ} → Result A → (A → Result B) → Result B
done a >>= f = f a
thrown e >>= f = thrown e

abbrev pub max_protocol_string_length : ℕ
max_protocol_string_length = 8 * 1024

pub data Nothing : Type 0 where
  nothing : Nothing

abbrev pub within_bound : Text → Bool
within_bound value = leb (length value) max_protocol_string_length

unfoldable pub assert_bounded_string : Label → Text → Result Nothing
assert_bounded_string label value =
    if within_bound value then done nothing else thrown (too_long label)

unfoldable pub assert_all_bounded : Label → List Text → Result Nothing
unfolding assert_bounded_string
assert_all_bounded label [] = done nothing
assert_all_bounded label (value ∷ values) =
    assert_bounded_string label value >>= λ _. assert_all_bounded label values

abbrev pub strip_request_headers : List Text
strip_request_headers =
    codes "connection"
    ∷ codes "keep-alive"
    ∷ codes "proxy-authenticate"
    ∷ codes "proxy-authorization"
    ∷ codes "proxy-connection"
    ∷ codes "te"
    ∷ codes "trailer"
    ∷ codes "transfer-encoding"
    ∷ codes "upgrade"
    ∷ codes "host"
    ∷ codes "content-length"
    ∷ codes "cookie"
    ∷ codes "x-forwarded-for"
    ∷ codes "x-forwarded-host"
    ∷ codes "x-forwarded-proto"
    ∷ codes "x-forwarded-port"
    ∷ codes "x-real-ip"
    ∷ codes "forwarded"
    ∷ []

unfoldable pub stands_in : Text → List Text → Bool
stands_in name [] = false
stands_in name (n ∷ ns) = let rest = stands_in name ns in if name === n then true else rest

unfoldable pub is_stripped : Text → Bool
unfolding stands_in
is_stripped name = stands_in (to_lower name) strip_request_headers

abbrev upper : ℕ → ℕ
upper c = if leb b'a' c && leb c b'z' then c - 32 else c

abbrev method_named : Text → Text → Result HttpMethod
method_named method normalized =
    if normalized === codes "GET"
    then done get
    else if normalized === codes "POST"
    then done post
    else if normalized === codes "PUT"
    then done put
    else if normalized === codes "PATCH"
    then done patch
    else if normalized === codes "DELETE"
    then done delete
    else thrown (unsupported_method method)

unfoldable pub parse_method : Text → Result HttpMethod
parse_method method = method_named method (map upper method)

-- The parts of an array, if every one is a text.
unfoldable pub all_words : List Item → Option (List Text)
all_words [] = some []
all_words (no_word ∷ items) = none
all_words (word w ∷ items) = elim (all_words items) [ none ↦ none | some ws ↦ some (w ∷ ws) ]

abbrev pub HttpQuery : Type 0
HttpQuery = JsMap Text HeaderValue

unfoldable pub add_several : Text → HttpQuery → Option (List Text) → Result HttpQuery
unfolding assert_all_bounded
add_several key result none = done result
add_several key result (some values) =
    assert_all_bounded query_value values >>= λ _. done (JsMap.set key (many values) result)

unfoldable pub add_query : Text → HttpQuery → Entry → Result HttpQuery
unfolding add_several assert_bounded_string all_words
add_query key result (single value) =
    assert_bounded_string query_value value >>= λ _. done (JsMap.set key (one value) result)
add_query key result (several items) = add_several key result (all_words items)
add_query key result no_entry = done result

unfoldable pub query_entries : HttpQuery → JsMap Text Entry → Result HttpQuery
unfolding add_query assert_bounded_string
query_entries result [] = done result
query_entries result ((key, value) ∷ entries) =
    assert_bounded_string query_key key >>= (λ _. add_query key result value) >>= λ r.
    query_entries r entries

unfoldable pub map_query : Option (JsMap Text Entry) → Result HttpQuery
unfolding query_entries
map_query none = done []
map_query (some query) = query_entries [] query

-- The headers of the request: a name may have no value.
abbrev pub RawHeaders : Type 0
RawHeaders = JsMap Text (Option HeaderValue)

unfoldable pub assert_header_value : HeaderValue → Result Nothing
unfolding assert_bounded_string assert_all_bounded
assert_header_value (one value) = assert_bounded_string header_value value
assert_header_value (many values) = assert_all_bounded header_value values

unfoldable pub add_header : Text → HeaderValue → HttpHeaders → Result HttpHeaders
unfolding assert_bounded_string assert_header_value
add_header name value result =
    assert_bounded_string header_name name >>= (λ _. assert_header_value value) >>= λ _.
    done (JsMap.set name value result)

abbrev pub header_entry : Text → Option HeaderValue → HttpHeaders → Result HttpHeaders
header_entry name none result = done result
header_entry name (some value) result =
    if is_stripped name then done result else add_header name value result

unfoldable pub map_headers_from : HttpHeaders → RawHeaders → Result HttpHeaders
unfolding is_stripped add_header
map_headers_from result [] = done result
map_headers_from result ((name, value) ∷ headers) =
    header_entry name value result >>= λ r. map_headers_from r headers

unfoldable pub map_headers : RawHeaders → Result HttpHeaders
unfolding map_headers_from
map_headers headers = map_headers_from [] headers

-- `indexOf` of one code unit.
abbrev one_on : Option ℕ → Option ℕ
one_on none = none
one_on (some i) = some (suc i)

unfoldable pub index_of : ℕ → Text → Option ℕ
index_of c [] = none
index_of c (d ∷ s) = let rest = one_on (index_of c s) in if d == c then some 0 else rest

unfoldable pub header_value_of : Option HeaderValue → Option Text
header_value_of none = none
header_value_of (some (one value)) = some value
header_value_of (some (many [])) = none
header_value_of (some (many (value ∷ values))) = some value

pub data RawBody : Type 0 where
  no_body : RawBody
  bytes : List ℕ → RawBody
  content : Text → RawBody
  other : RawBody

abbrev unless_empty : List ℕ → Option (List ℕ)
unless_empty [] = none
unless_empty (b ∷ body) = some (b ∷ body)

unfoldable pub map_body : (Text → List ℕ) → RawBody → Option (List ℕ)
map_body buffer_from no_body = none
map_body buffer_from (bytes body) = unless_empty body
map_body buffer_from (content []) = none
map_body buffer_from (content (c ∷ body)) = some (buffer_from (c ∷ body))
map_body buffer_from other = none

pub record MappedHttpRequest : Type 0 where
  pub method : HttpMethod
  pub path : Text
  pub query : HttpQuery
  pub headers : HttpHeaders
  pub cookies : HttpCookies
  pub body : Option (List ℕ)

-- What of the web framework's request is read; `query` is there if it is an object.
pub record FastifyRequest : Type 0 where
  pub method : Text
  pub url : Text
  pub query : Option (JsMap Text Entry)
  pub headers : RawHeaders
  pub body : RawBody

module _ (decode_uri_component : Text → Option Text) where
  unfoldable pub decoded : Text → Result Text
  decoded part = elim (decode_uri_component part) [
    | none ↦ thrown malformed_cookie
    | some value ↦ done value
  ]

  unfoldable pub set_cookie : Text → Text → HttpCookies → Result HttpCookies
  unfolding assert_bounded_string
  set_cookie name value result =
      assert_bounded_string cookie_name name
      >>= (λ _. assert_bounded_string cookie_value value)
      >>= λ _. done (JsMap.set name value result)

  unfoldable pub add_cookie_at : Text → HttpCookies → Option ℕ → Result HttpCookies
  unfolding decoded set_cookie
  add_cookie_at trimmed result none = done result
  add_cookie_at trimmed result (some zero) = done result
  add_cookie_at trimmed result (some (suc n)) = decoded (trim (take (suc n) trimmed)) >>= λ name.
      decoded (trim (drop (suc n + 1) trimmed)) >>= λ value. set_cookie name value result

  unfoldable pub add_cookie : Text → HttpCookies → Result HttpCookies
  unfolding add_cookie_at index_of
  add_cookie trimmed result =
      if is_empty trimmed then done result else add_cookie_at trimmed result (index_of b'=' trimmed)

  unfoldable pub cookies_from : HttpCookies → List Text → Result HttpCookies
  unfolding add_cookie
  cookies_from result [] = done result
  cookies_from result (part ∷ parts) = add_cookie (trim part) result >>= λ r. cookies_from r parts

  unfoldable pub parse_cookie_header : Option Text → Result HttpCookies
  unfolding cookies_from
  parse_cookie_header none = done []
  parse_cookie_header (some header) =
      if is_empty (trim header) then done [] else cookies_from [] (split b';' header)

  abbrev joined_value : Option (Option HeaderValue) → Option HeaderValue
  joined_value none = none
  joined_value (some value) = value

  unfoldable pub map_fastify_request :
      (buffer_from : Text → List ℕ) → FastifyRequest → Result MappedHttpRequest
  unfolding parse_method assert_bounded_string map_query parse_cookie_header map_headers
  map_fastify_request buffer_from request = parse_method request.method >>= λ method.
      assert_bounded_string path (first_part (split b'?' request.url)) >>= λ _.
      map_query request.query >>= λ query.
      parse_cookie_header
        (header_value_of (joined_value (JsMap.get (codes "cookie") request.headers)))
      >>= λ cookies. map_headers request.headers >>= λ headers. done (record {
        method = method;
        path = first_part (split b'?' request.url);
        query = query;
        headers = headers;
        cookies = cookies;
        body = map_body buffer_from request.body;
      })
