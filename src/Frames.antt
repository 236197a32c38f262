-- ===== src/Frames.antt =====
-- protocol.ts and the parsers' common part: the types of messages, and what JSON.parse makes of a
-- frame. Of a field's value only what the parsers ask for is kept. An object's entries stand in their
-- order; what the language does with a key `__proto__` or with keys that are numbers is left out.
pub mod Laws
use looplink.Base.{ℕ, Bool, false, true, Option, none, some, List, [], ◌∷◌, ite}
use looplink.JsMap.{JsMap}
use looplink.Text.{Text, codes, text_dec}

pub data MessageType : Type 0 where
  connected create_tunnel tunnel_created error ping pong http_request_start http_request_chunk
        http_request_end http_response_start http_response_chunk http_response_end http_cancel :
      MessageType

unfoldable pub wire : MessageType → Text
wire connected = codes "connected"
wire create_tunnel = codes "create_tunnel"
wire tunnel_created = codes "tunnel_created"
wire error = codes "error"
wire ping = codes "ping"
wire pong = codes "pong"
wire http_request_start = codes "http_request_start"
wire http_request_chunk = codes "http_request_chunk"
wire http_request_end = codes "http_request_end"
wire http_response_start = codes "http_response_start"
wire http_response_chunk = codes "http_response_chunk"
wire http_response_end = codes "http_response_end"
wire http_cancel = codes "http_cancel"

abbrev pub message_types : List MessageType
message_types =
    connected ∷ create_tunnel ∷ tunnel_created ∷ error ∷ ping ∷ pong ∷ http_request_start
    ∷ http_request_chunk ∷ http_request_end ∷ http_response_start ∷ http_response_chunk
    ∷ http_response_end ∷ http_cancel ∷ []

-- `isMessageType`, with the type that it finds.
unfoldable pub find_type : Text → List MessageType → Option MessageType
unfolding wire
find_type value [] = none
find_type value (t ∷ ts) = ite (text_dec (wire t) value) (some t) (find_type value ts)

abbrev pub is_http_forwarding_message_type : MessageType → Bool
is_http_forwarding_message_type connected = false
is_http_forwarding_message_type create_tunnel = false
is_http_forwarding_message_type tunnel_created = false
is_http_forwarding_message_type error = false
is_http_forwarding_message_type ping = false
is_http_forwarding_message_type pong = false
is_http_forwarding_message_type http_request_start = true
is_http_forwarding_message_type http_request_chunk = true
is_http_forwarding_message_type http_request_end = true
is_http_forwarding_message_type http_response_start = true
is_http_forwarding_message_type http_response_chunk = true
is_http_forwarding_message_type http_response_end = true
is_http_forwarding_message_type http_cancel = true

-- An element of an array, and a value inside an object: a text, an array, or anything else.
pub data Item : Type 0 where
  word : Text → Item
  no_word : Item

pub data Entry : Type 0 where
  single : Text → Entry
  several : List Item → Entry
  no_entry : Entry

-- A field's value. A number that is not a natural one is `other`, as is null.
pub data Field : Type 0 where
  text : Text → Field
  natural : ℕ → Field
  truth : Bool → Field
  array : List Item → Field
  dictionary : JsMap Text Entry → Field
  other : Field

pub data Value : Type 0 where
  invalid not_object : Value
  object : JsMap Text Field → Value

pub data ParseError : Type 0 where
  not_json not_an_object no_type bad_port bad_method bad_status bad_sequence bad_encoding :
      ParseError
  unknown_type : Text → ParseError
  -- The field that has to be a non-empty text, always or when it is present; a text; a boolean; an
  -- object; an array of texts.
  required malformed no_text no_boolean no_object no_texts : Text → ParseError
  -- The entry of an object that has to be a text, or a text or an array of texts.
  bad_entry : Text → ParseError

pub data Parsed {ℓ} (A : Type ℓ) : Type ℓ where
  err : ParseError → Parsed A
  ok : A → Parsed A

abbrev pub and_then {ℓ κ} : {A : Type ℓ} {B : Type κ} → Parsed A → (A → Parsed B) → Parsed B
and_then (err e) f = err e
and_then (ok a) f = f a

infixl 5 ◌>>=◌
abbrev pub ◌>>=◌ {ℓ κ} : {A : Type ℓ} {B : Type κ} → Parsed A → (A → Parsed B) → Parsed B
p >>= f = and_then p f

-- `typeof value === "string"`
abbrev pub text_field : Option Field → Option Text
text_field (some (text value)) = some value
text_field _ = none

abbrev pub non_empty : Text → Option Text → Parsed Text
non_empty name (some (c ∷ cs)) = ok (c ∷ cs)
non_empty name _ = err (required name)

unfoldable pub required_text : Text → Option Field → Parsed Text
required_text name field = non_empty name (text_field field)

abbrev pub non_empty_if : Text → Option Text → Parsed (Option Text)
non_empty_if name (some (c ∷ cs)) = ok (some (c ∷ cs))
non_empty_if name _ = err (malformed name)

unfoldable pub optional_text : Text → Option Field → Parsed (Option Text)
optional_text name none = ok none
optional_text name (some field) = non_empty_if name (text_field (some field))
