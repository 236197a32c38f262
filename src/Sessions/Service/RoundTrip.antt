-- ===== src/Sessions/Service/RoundTrip.antt =====
-- A session is validated by the token that it was created with, until it expires.
use looplink.Base.{ℕ, ◌+◌, ◌<◌, ◌≡◌, refl, true, false, some, leb, arith}
use looplink.JsMap.Laws.{get-set_self}
use looplink.Text.{Text, trim, is_empty, starts_with, text_key}
use looplink.Sessions.{Sessions, create, delete_expired, touch}
use looplink.Sessions.Laws.{create-find_by_token_hash}
use looplink.Sessions.Service.{
  valid, create_session, validate, validate_found, anonymous_token_prefix,
}

create-touch :
    (s : Sessions) (id hash : Text) (now expires_at later : ℕ)
    → (touch (create s id now hash expires_at).0 id later).1
      ≡ some (record (create s id now hash expires_at).1 { last_seen_at = later })
unfolding create touch
create-touch s id hash now expires_at later = ground (
  arith,
  get-set_self id
      (record {
        id = id;
        session_token_hash = hash;
        created_at = now;
        expires_at = expires_at;
        last_seen_at = now;
      })
      s.by_id,
)

validate-found :
    (s : Sessions) (id hash : Text) (now expires_at later : ℕ)
    → later < expires_at
    → (validate_found
        (create s id now hash expires_at).0
        later
        (some (create s id now hash expires_at).1)).1
      ≡ valid (record (create s id now hash expires_at).1 { last_seen_at = later })
unfolding validate_found
validate-found s id hash now expires_at later h =
    let live : leb (create s id now hash expires_at).1.expires_at later ≡ false =
      unfold create in ground arith in
    let same : (create s id now hash expires_at).1.id ≡ id = unfold create in refl in
    rw live (rw same (rw (create-touch s id hash now expires_at later) (unfold create in refl)))

-- Whatever sessions there are, one that is created for a token of the right form is validated by
-- that token at any time before it expires, and is then the session that was created, seen at that
-- time.
pub create_session-validate :
    (hash_token : Text → Text) (s : Sessions) (token id : Text) (now ttl_ms later : ℕ)
    → trim token ≡ token
    → is_empty token ≡ false
    → starts_with token anonymous_token_prefix ≡ true
    → later < now + ttl_ms
    → let made = create_session hash_token s token id now ttl_ms in
      (validate hash_token made.0 later token).1 ≡ valid (record made.1 { last_seen_at = later })
unfolding validate create_session
create_session-validate hash_token s token id now ttl_ms later t e p h = rw t (
    rw e (
      rw p (
        rw
          (create-find_by_token_hash (delete_expired s now).0 id (hash_token token) now
            (now + ttl_ms))
          (validate-found (delete_expired s now).0 id (hash_token token) now (now + ttl_ms) later
            h))))
