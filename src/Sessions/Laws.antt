-- ===== src/Sessions/Laws.antt =====
-- The two maps agree, and what is found after each operation.
use looplink.Base.{
  ℕ, ◌≡◌, refl, inl, inr, Bool, true, false, Option, none, some, [], ◌∷◌, leb, if◌then◌else◌, arith,
}
use looplink.JsMap
use looplink.JsMap.{JsMap, Distinct}
use looplink.JsMap.Laws
use looplink.Text.{Text, text_key}
use looplink.Sessions.{
  Sessions, SessionRecord, create, find_by_token_hash, forget, delete_each, delete_expired,
}

-- Every session stands under its id, and its token's hash leads to it.
pub record IsValid (s : Sessions) : Type 0 where
  pub indexed :
      (id : Text) (r : SessionRecord)
      → JsMap.get id s.by_id ≡ some r
      → (r.id ≡ id) × (JsMap.get r.session_token_hash s.by_token_hash ≡ some id)
  pub stored :
      (hash id : Text)
      → JsMap.get hash s.by_token_hash ≡ some id
      → (r : SessionRecord) × (JsMap.get id s.by_id ≡ some r) × (r.session_token_hash ≡ hash)

abbrev created : Text → Text → ℕ → ℕ → SessionRecord
created id hash now expires_at = record {
  id = id;
  session_token_hash = hash;
  created_at = now;
  expires_at = expires_at;
  last_seen_at = now;
}

first_entry :
    (id : Text) (r : SessionRecord) (entries : JsMap Text SessionRecord)
    → JsMap.get id ((id, r) ∷ entries) ≡ some r
unfolding JsMap.get
first_entry id r entries = ground arith

-- A session that is created is found by the hash of its token.
pub create-find_by_token_hash :
    (s : Sessions) (id hash : Text) (now expires_at : ℕ)
    → find_by_token_hash (create s id now hash expires_at).0 hash
      ≡ some (create s id now hash expires_at).1
unfolding create find_by_token_hash
create-find_by_token_hash s id hash now expires_at = ground (
  arith,
  Laws.get-set_self hash id s.by_token_hash,
  Laws.get-set_self id (created id hash now expires_at) s.by_id,
)

-- Where the maps agree, and neither the id nor the hash is taken, they agree after a creation.
pub create_session-IsValid :
    (s : Sessions) (id hash : Text) (now expires_at : ℕ)
    → IsValid s
    → JsMap.get id s.by_id ≡ none
    → JsMap.get hash s.by_token_hash ≡ none
    → IsValid (create s id now hash expires_at).0
unfolding create
create_session-IsValid s id hash now expires_at v a b = record {
  indexed = λ j x q. elim (Laws.set-entry id j (created id hash now expires_at) x s.by_id q) [
    | inl (at, same) ↦ ground (arith, Laws.get-set hash x.session_token_hash id s.by_token_hash)
    | inr (away, old) ↦
        ground (arith, v.indexed j x old, Laws.get-set hash x.session_token_hash id s.by_token_hash)
  ];
  stored = λ h j q. elim (Laws.set-entry hash h id j s.by_token_hash q) [
    | inl (at, same) ↦ (
      created id hash now expires_at,
      ground (arith, Laws.get-set id j (created id hash now expires_at) s.by_id),
      at,
    )
    | inr (away, old) ↦
        let (x, p, k) = v.stored h j old in
        (x, ground (arith, Laws.get-set id j (created id hash now expires_at) s.by_id), k)
  ];
}

forget-IsValid :
    (s : Sessions) (id : Text) (r : SessionRecord)
    → IsValid s
    → JsMap.get id s.by_id ≡ some r
    → IsValid (forget s id r.session_token_hash)
forget-IsValid s id r v p = record {
  indexed = λ j x q.
      let (away, old) = Laws.delete-entry id j x s.by_id q in
      ground (
        arith,
        v.indexed j x old,
        v.indexed id r p,
        Laws.get-delete r.session_token_hash x.session_token_hash s.by_token_hash,
      );
  stored = λ hash j q.
      let (away, old) = Laws.delete-entry r.session_token_hash hash j s.by_token_hash q in
      let (x, k, h) = v.stored hash j old in (x, ground (arith, Laws.get-delete id j s.by_id), h);
}

kept-IsValid :
    (s : Sessions) (id : Text) (r : SessionRecord) (expired : Bool)
    → IsValid s
    → JsMap.get id s.by_id ≡ some r
    → IsValid (if expired then forget s id r.session_token_hash else s)
kept-IsValid s id r true v p = forget-IsValid s id r v p
kept-IsValid s id r false v p = v

-- The entries that the loop has still to see stand in the map.
abbrev Within : JsMap Text SessionRecord → Sessions → Type 0
Within entries s =
    (j : Text) (x : SessionRecord) → JsMap.get j entries ≡ some x → JsMap.get j s.by_id ≡ some x

rest-Within :
    (id : Text) (r : SessionRecord) (entries : JsMap Text SessionRecord) (s : Sessions)
    (expired : Bool)
    → Distinct ((id, r) ∷ entries)
    → Within ((id, r) ∷ entries) s
    → Within entries (if expired then forget s id r.session_token_hash else s)
unfolding JsMap.get
rest-Within id r entries s true d w j x q = ground (arith, w j x, d.0, Laws.get-delete id j s.by_id)
rest-Within id r entries s false d w j x q = ground (arith, w j x, d.0)

delete_each-IsValid :
    (now : ℕ) (entries : JsMap Text SessionRecord) (s : Sessions)
    → IsValid s
    → Distinct entries
    → Within entries s
    → IsValid (delete_each now entries s).0
unfolding delete_each JsMap.get
delete_each-IsValid now [] s v d w = v
delete_each-IsValid now ((id, r) ∷ entries) s v d w =
    delete_each-IsValid now entries
      (if leb r.expires_at now then forget s id r.session_token_hash else s)
      (kept-IsValid s id r (leb r.expires_at now) v (w id r (first_entry id r entries))) d.1
      (rest-Within id r entries s (leb r.expires_at now) d w)

abbrev pub is_expired : ℕ → Option SessionRecord → Bool
is_expired now none = false
is_expired now (some r) = leb r.expires_at now

delete_each-get :
    (now : ℕ) (j : Text) (entries : JsMap Text SessionRecord) (s : Sessions)
    → Distinct entries
    → JsMap.get j (delete_each now entries s).0.by_id
      ≡ (if is_expired now (JsMap.get j entries) then none else JsMap.get j s.by_id)
unfolding delete_each JsMap.get
delete_each-get now j [] s d = refl
delete_each-get now j ((id, r) ∷ entries) s d = ground (
  arith,
  delete_each-get now j entries
      (if leb r.expires_at now then forget s id r.session_token_hash else s) d.1,
  d.0,
  Laws.get-delete id j s.by_id,
)

-- Where the maps agree and no id stands twice: a cleaning removes exactly the sessions whose time is
-- over, leaves the others as they were, and the maps agree after it.
pub delete_expired-IsValid :
    (s : Sessions) (now : ℕ)
    → IsValid s
    → Distinct s.by_id
    → IsValid (delete_expired s now).0
      × ((j : Text)
          → JsMap.get j (delete_expired s now).0.by_id
            ≡ (if is_expired now (JsMap.get j s.by_id) then none else JsMap.get j s.by_id))
unfolding delete_expired
delete_expired-IsValid s now v d =
    (delete_each-IsValid now s.by_id s v d (λ j x q. q), λ j. delete_each-get now j s.by_id s d)
