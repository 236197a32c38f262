-- ===== src/Sessions.antt =====
-- memory-anonymous-session.repository.ts: anonymous sessions by id and by the hash of their token.
-- A time is the text that the source compares, as the number that it stands for. A fresh id and the
-- time are arguments.
pub mod Service
pub mod Laws
use looplink.Base.{ℕ, suc, Bool, true, false, Option, none, some, List, [], ◌∷◌, leb, if◌then◌else◌}
use looplink.JsMap
use looplink.JsMap.{JsMap}
use looplink.Text.{Text, text_key}

pub record SessionRecord : Type 0 where
  pub id : Text
  pub session_token_hash : Text
  pub created_at : ℕ
  pub expires_at : ℕ
  pub last_seen_at : ℕ

pub record AnonymousSession : Type 0 where
  pub id : Text
  pub created_at : ℕ
  pub expires_at : ℕ
  pub last_seen_at : ℕ

pub record Sessions : Type 0 where
  pub by_id : JsMap Text SessionRecord
  pub by_token_hash : JsMap Text Text

unfoldable pub empty : Sessions
empty = record { by_id = []; by_token_hash = [] }

abbrev pub to_public : SessionRecord → AnonymousSession
to_public r = record {
  id = r.id;
  created_at = r.created_at;
  expires_at = r.expires_at;
  last_seen_at = r.last_seen_at;
}

unfoldable pub create : Sessions → Text → ℕ → Text → ℕ → Sessions × AnonymousSession
create s id now session_token_hash expires_at =
    let r : SessionRecord = record {
      id = id;
      session_token_hash = session_token_hash;
      created_at = now;
      expires_at = expires_at;
      last_seen_at = now;
    } in
    (
      record {
        by_id = JsMap.set id r s.by_id;
        by_token_hash = JsMap.set session_token_hash id s.by_token_hash;
      },
      to_public r,
    )

abbrev pub public_of : Option SessionRecord → Option AnonymousSession
public_of none = none
public_of (some r) = some (to_public r)

abbrev pub find_id : Sessions → Option Text → Option AnonymousSession
find_id s none = none
find_id s (some id) = public_of (JsMap.get id s.by_id)

unfoldable pub find_by_token_hash : Sessions → Text → Option AnonymousSession
find_by_token_hash s session_token_hash = find_id s (JsMap.get session_token_hash s.by_token_hash)

abbrev pub touch_found :
    Sessions → Text → ℕ → Option SessionRecord → Sessions × Option AnonymousSession
touch_found s id last_seen_at none = (s, none)
touch_found s id last_seen_at (some existing) = (
  record s { by_id = JsMap.set id (record existing { last_seen_at = last_seen_at }) s.by_id },
  some (to_public (record existing { last_seen_at = last_seen_at })),
)

unfoldable pub touch : Sessions → Text → ℕ → Sessions × Option AnonymousSession
touch s id last_seen_at = touch_found s id last_seen_at (JsMap.get id s.by_id)

-- Both maps forget a session.
abbrev pub forget : Sessions → Text → Text → Sessions
forget s id session_token_hash = record {
  by_id = JsMap.delete id s.by_id;
  by_token_hash = JsMap.delete session_token_hash s.by_token_hash;
}

abbrev pub delete_found : Sessions → Text → Option SessionRecord → Sessions × Bool
delete_found s id none = (s, false)
delete_found s id (some existing) = (forget s id existing.session_token_hash, true)

unfoldable pub delete_by_id : Sessions → Text → Sessions × Bool
delete_by_id s id = delete_found s id (JsMap.get id s.by_id)

abbrev pub delete_hash : Sessions → Option Text → Sessions × Bool
delete_hash s none = (s, false)
delete_hash s (some id) = delete_found s id (JsMap.get id s.by_id)

unfoldable pub delete_by_token_hash : Sessions → Text → Sessions × Bool
delete_by_token_hash s session_token_hash =
    delete_hash s (JsMap.get session_token_hash s.by_token_hash)

-- The loop over the entries, with the number of those removed.
unfoldable pub delete_each : ℕ → JsMap Text SessionRecord → Sessions → Sessions × ℕ
delete_each now [] s = (s, 0)
delete_each now ((id, r) ∷ entries) s =
    let expired = leb r.expires_at now in
    let rest = delete_each now entries (if expired then forget s id r.session_token_hash else s) in
    (rest.0, if expired then suc rest.1 else rest.1)

unfoldable pub delete_expired : Sessions → ℕ → Sessions × ℕ
unfolding delete_each
delete_expired s now = delete_each now s.by_id s
