-- ===== src/Security/Policy.antt =====
-- gateway-security.policy.ts: admission, message rates and the release of a socket. A socket is a
-- number; the upgrade request is what the policy reads of it.
pub mod Laws
pub mod Effects
use looplink.Base.{ℕ, Bool, true, false, Option, none, some, List, [], ◌∷◌, if◌then◌else◌, not}
use looplink.JsMap
use looplink.JsMap.{JsMap, nat_key}
use looplink.Text.{Text, codes, trim, is_empty, split, first_part}
use looplink.Security.Connections
use looplink.Security.Connections.{ConnectionLimiter, AdmitResult}
use looplink.Security.Rates
use looplink.Security.Rates.{RateLimiter}
use looplink.Security.Origins.{Url, OriginValidator, is_origin_allowed}

pub data Header : Type 0 where
  absent : Header
  one : Text → Header
  many : List Text → Header

pub record UpgradeRequest : Type 0 where
  pub origin : Header
  pub x_forwarded_for : Header
  pub remote_address : Option Text

pub record Limits : Type 0 where
  pub max_ws_message_bytes : ℕ
  pub max_ws_connections : ℕ
  pub max_ws_connections_per_ip : ℕ
  pub ws_message_rate_limit : ℕ
  pub ws_message_rate_window_ms : ℕ

pub data RejectReason : Type 0 where
  origin : RejectReason
  global_limit ip_limit rate_limit : RejectReason

pub record Policy : Type 0 where
  pub config : Limits
  pub origins : OriginValidator
  pub connections : ConnectionLimiter
  pub message_rates : RateLimiter
  pub ip_by_client : JsMap ℕ Text

unfoldable pub policy : Limits → OriginValidator → Policy
policy config origins = record {
  config = config;
  origins = origins;
  connections = Connections.init config.max_ws_connections config.max_ws_connections_per_ip;
  message_rates = Rates.init config.ws_message_rate_limit config.ws_message_rate_window_ms;
  ip_by_client = [];
}

abbrev pub head? : List Text → Option Text
head? [] = none
head? (x ∷ xs) = some x

unfoldable pub header_value : Header → Option Text
header_value absent = none
header_value (one s) = some s
header_value (many xs) = head? xs

abbrev pub or_unknown : Option Text → Text
or_unknown none = codes "unknown"
or_unknown (some ip) = ip

-- The first hop of `X-Forwarded-For`, if it is not blank.
unfoldable pub forwarded_ip : Option Text → Option Text
forwarded_ip none = none
forwarded_ip (some forwarded) =
    let first = trim (first_part (split b',' forwarded)) in
    if is_empty first then none else some first

abbrev pub first_known : Option Text → Option Text → Text
first_known none remote = or_unknown remote
first_known (some ip) remote = ip

unfoldable pub client_ip : UpgradeRequest → Text
unfolding forwarded_ip header_value
client_ip request =
    first_known (forwarded_ip (header_value request.x_forwarded_for)) request.remote_address

-- The outcome of the limiter decides whether the socket is remembered.
unfoldable pub seat :
    Policy → ℕ → Text → ConnectionLimiter × AdmitResult → Policy × Option RejectReason
seat p client ip (l, AdmitResult.ok) =
    (record p { connections = l; ip_by_client = JsMap.set client ip p.ip_by_client }, none)
seat p client ip (l, AdmitResult.global_limit) =
    (record p { connections = l }, some RejectReason.global_limit)
seat p client ip (l, AdmitResult.ip_limit) =
    (record p { connections = l }, some RejectReason.ip_limit)

module _ (parse_url : Text → Option Url) where
  unfoldable pub admit : Policy → ℕ → UpgradeRequest → Policy × Option RejectReason
  unfolding seat
  admit p client request =
      if not (is_origin_allowed parse_url p.origins (header_value request.origin))
      then (p, some RejectReason.origin)
      else seat p client (client_ip request)
          (Connections.try_admit p.connections (client_ip request))

unfoldable pub release_ip : Policy → ℕ → Option Text → Policy
release_ip p client none = p
release_ip p client (some ip) = record p {
  connections = Connections.release p.connections ip;
  message_rates = Rates.reset p.message_rates ip;
  ip_by_client = JsMap.delete client p.ip_by_client;
}

unfoldable pub release : Policy → ℕ → Policy
unfolding release_ip
release p client = release_ip p client (JsMap.get client p.ip_by_client)

unfoldable pub allow_message : Policy → ℕ → ℕ → Policy × Bool
allow_message p now client =
    let (rates, d) =
      Rates.attempt p.message_rates now (or_unknown (JsMap.get client p.ip_by_client)) in
    (record p { message_rates = rates }, d.allowed)

unfoldable pub active_connections : Policy → ℕ
active_connections p = p.connections.total

unfoldable pub max_payload_bytes : Policy → ℕ
max_payload_bytes p = p.config.max_ws_message_bytes
