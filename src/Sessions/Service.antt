-- ===== src/Sessions/Service.antt =====
-- anonymous-session.service.ts: anonymous sessions by their token. The hash of a token and a fresh
-- token are arguments, as are a fresh id and the time.
pub mod RoundTrip
use looplink.Base.{ℕ, ◌+◌, Bool, true, false, not, ◌||◌, Option, none, some, leb, if◌then◌else◌}
use looplink.Text.{Text, codes, trim, is_empty, starts_with}
use looplink.Sessions.{
  Sessions, AnonymousSession, create, find_by_token_hash, delete_by_id, delete_by_token_hash,
  delete_expired, touch,
}

abbrev pub anonymous_session_ttl_ms : ℕ
anonymous_session_ttl_ms = 86400000

abbrev pub anonymous_token_prefix : Text
anonymous_token_prefix = codes "bga_"

-- A session, or the error with its message.
pub data Validated : Type 0 where
  valid : AnonymousSession → Validated
  unauthorized : Text → Validated

abbrev pub or_session : AnonymousSession → Option AnonymousSession → AnonymousSession
or_session session none = session
or_session session (some touched) = touched

unfoldable pub validate_found : Sessions → ℕ → Option AnonymousSession → Sessions × Validated
unfolding delete_by_id touch
validate_found s now none = (s, unauthorized (codes "Anonymous session not found."))
validate_found s now (some session) =
    if leb session.expires_at now
    then ((delete_by_id s session.id).0, unauthorized (codes "Anonymous session expired."))
    else let (s', touched) = touch s session.id now in (s', valid (or_session session touched))

module _ (hash_token : Text → Text) where
  unfoldable pub create_session :
      Sessions → (token id : Text) (now ttl_ms : ℕ) → Sessions × AnonymousSession
  unfolding delete_expired create
  create_session s token id now ttl_ms =
      create (delete_expired s now).0 id now (hash_token token) (now + ttl_ms)

  unfoldable pub validate : Sessions → ℕ → Text → Sessions × Validated
  unfolding validate_found find_by_token_hash
  validate s now token =
      if is_empty (trim token) || not (starts_with (trim token) anonymous_token_prefix)
      then (s, unauthorized (codes "Invalid anonymous session."))
      else validate_found s now (find_by_token_hash s (hash_token (trim token)))

  unfoldable pub destroy_by_token : Sessions → Text → Sessions
  unfolding delete_by_token_hash
  destroy_by_token s token =
      if is_empty (trim token) then s else (delete_by_token_hash s (hash_token (trim token))).0

unfoldable pub is_anonymous_token : Text → Bool
is_anonymous_token token = starts_with (trim token) anonymous_token_prefix
