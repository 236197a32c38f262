-- ===== src/Security/Policy/Effects.antt =====
-- What a refusal, a goodbye and a message do to the rest of the policy.
use looplink.Base.{ℕ, ◌<◌, ◌≡◌, ◌≢◌, true, Option, none, some, arith}
use looplink.JsMap
use looplink.JsMap.{JsMap, values, Distinct, nat_key}
use looplink.JsMap.Laws.{get-set_self, get-delete_ne}
use looplink.Text.{Text, text_key}
use looplink.Security.Connections
use looplink.Security.Connections.{ConnectionLimiter, AdmitResult, count_for}
use looplink.Security.Rates.{attempt, reset}
use looplink.Security.Rates.Window.{stored-reset}
use looplink.Security.Origins.{Url}
use looplink.Security.Policy.{
  Policy, UpgradeRequest, RejectReason, admit, release, release_ip, allow_message, client_ip,
}

module _ (parse_url : Text → Option Url) (p : Policy) (client : ℕ) (request : UpgradeRequest) where
  -- A refused socket leaves the policy as it was.
  pub admit_refused :
      (reason : RejectReason)
      → (admit parse_url p client request).1 ≡ some reason
      → (admit parse_url p client request).0 ≡ p
  unfolding admit Connections.try_admit
  admit_refused reason h = ground arith

  -- A socket that was let in is remembered with the address that it came from.
  pub admit_seated :
      (admit parse_url p client request).1 ≡ none
      → JsMap.get client (admit parse_url p client request).0.ip_by_client
        ≡ some (client_ip request)
  unfolding admit Connections.try_admit
  admit_seated h = ground (arith, get-set_self client (client_ip request) p.ip_by_client)

-- When one of two sockets of an address leaves, and the message limit is not 0, the next message of
-- the other is let through, however many messages the address has sent: its window is forgotten.
pub release_forgets_rate :
    (p : Policy) (leaving staying now : ℕ) (ip : Text)
    → leaving ≢ staying
    → JsMap.get leaving p.ip_by_client ≡ some ip
    → JsMap.get staying p.ip_by_client ≡ some ip
    → 0 < p.message_rates.limit
    → (allow_message (release p leaving) now staying).1 ≡ true
unfolding release release_ip allow_message attempt reset
release_forgets_rate p leaving staying now ip other gone kept pos =
    ground (arith, get-delete_ne leaving staying p.ip_by_client, stored-reset p.message_rates ip ip)
