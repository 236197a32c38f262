-- ===== src/Security/Policy/Laws.antt =====
-- The policy's books: one slot for each seated socket, given back when the socket goes.
use looplink.Base.{
  ℕ, suc, ◌<◌, ◌≡◌, refl, sym, ◌∙◌, Option, none, some, List, [], ◌∷◌, arith, length, Option-cases,
  Bool-cases, inl, inr,
}
use looplink.JsMap
use looplink.JsMap.{JsMap, values, Distinct, nat_key}
use looplink.JsMap.Laws.{set-Distinct, delete-Distinct, delete_absent}
use looplink.Text.{Text, text_key}
use looplink.Security.Connections
use looplink.Security.Connections.{ConnectionLimiter, AdmitResult, count_for}
use looplink.Security.Connections.Laws
use looplink.Security.Connections.Laws.{count, remove_one, Tracks, Within, SameCaps, admitted}
use looplink.Security.Origins.{Url, OriginValidator, is_origin_allowed}
use looplink.Security.Policy.{
  Policy, Limits, UpgradeRequest, policy, seat, admit, release, release_ip, allow_message,
  client_ip, header_value,
}

count-values-set :
    (client : ℕ) (ip j : Text) (m : JsMap ℕ Text)
    → JsMap.get client m ≡ none
    → count j (values (JsMap.set client ip m)) ≡ count j (ip ∷ values m)
unfolding JsMap.get JsMap.set
count-values-set client ip j [] h = refl
count-values-set client ip j ((c, x) ∷ m) h = ground (arith, count-values-set client ip j m)

length-values-set :
    (client : ℕ) (ip : Text) (m : JsMap ℕ Text)
    → JsMap.get client m ≡ none
    → length (values (JsMap.set client ip m)) ≡ suc (length (values m))
unfolding JsMap.get JsMap.set
length-values-set client ip [] h = refl
length-values-set client ip ((c, x) ∷ m) h = ground (arith, length-values-set client ip m)

count_seated :
    (client : ℕ) (ip : Text) (m : JsMap ℕ Text)
    → JsMap.get client m ≡ some ip
    → 0 < count ip (values m)
unfolding JsMap.get
count_seated client ip [] h = cc
count_seated client ip ((c, x) ∷ m) h = ground (arith, count_seated client ip m)

count-values-delete :
    (client : ℕ) (ip j : Text) (m : JsMap ℕ Text)
    → Distinct m
    → JsMap.get client m ≡ some ip
    → count j (values (JsMap.delete client m)) ≡ count j (remove_one ip (values m))
unfolding JsMap.get JsMap.delete
count-values-delete client ip j [] d h = cc
count-values-delete client ip j ((c, x) ∷ m) d h = ground (
  arith,
  count-values-delete client ip j m d.1,
  delete_absent client m,
  Laws.count-remove_one ip j (values m),
  count_seated client ip m,
)

length-values-delete :
    (client : ℕ) (ip : Text) (m : JsMap ℕ Text)
    → Distinct m
    → JsMap.get client m ≡ some ip
    → length (values (JsMap.delete client m)) ≡ length (remove_one ip (values m))
unfolding JsMap.get JsMap.delete
length-values-delete client ip [] d h = cc
length-values-delete client ip ((c, x) ∷ m) d h = ground (
  arith,
  length-values-delete client ip m d.1,
  delete_absent client m,
  Laws.length-remove_one ip (values m),
  Laws.count-le-length ip (values m),
  count_seated client ip m,
)

Tracks-transfer :
    (l : ConnectionLimiter) (xs ys : List Text)
    → ((j : Text) → count j xs ≡ count j ys)
    → length xs ≡ length ys
    → Tracks l xs
    → Tracks l ys
Tracks-transfer l xs ys c e t = record {
  counted = λ j. t.counted j ∙ c j;
  totalled = t.totalled ∙ e;
}

pub record IsValid (p : Policy) : Type 0 where
  pub seats : Tracks p.connections (values p.ip_by_client)
  pub distinct : Distinct p.ip_by_client
  pub within : Within p.connections
  pub global_cap : p.connections.max_global ≡ p.config.max_ws_connections
  pub ip_cap : p.connections.max_per_ip ≡ p.config.max_ws_connections_per_ip

pub policy-IsValid : (c : Limits) (v : OriginValidator) → IsValid (policy c v)
unfolding policy
policy-IsValid c v = record {
  seats = Laws.init-Tracks c.max_ws_connections c.max_ws_connections_per_ip;
  distinct = tt;
  within = Laws.init-Within c.max_ws_connections c.max_ws_connections_per_ip;
  global_cap = (Laws.init-caps c.max_ws_connections c.max_ws_connections_per_ip).0;
  ip_cap = (Laws.init-caps c.max_ws_connections c.max_ws_connections_per_ip).1;
}

seat-IsValid :
    (p : Policy) (client : ℕ) (ip : Text) (l : ConnectionLimiter) (r : AdmitResult)
    → IsValid p
    → JsMap.get client p.ip_by_client ≡ none
    → Tracks l (admitted r ip (values p.ip_by_client))
    → Within l
    → SameCaps p.connections l
    → IsValid (seat p client ip (l, r)).0
unfolding seat
seat-IsValid p client ip l AdmitResult.ok v fresh t w c = record {
  seats =
      Tracks-transfer l (ip ∷ values p.ip_by_client) _
        (λ j. sym (count-values-set client ip j p.ip_by_client fresh))
        (sym (length-values-set client ip p.ip_by_client fresh)) t;
  distinct = set-Distinct client ip p.ip_by_client v.distinct;
  within = w;
  global_cap = c.0 ∙ v.global_cap;
  ip_cap = c.1 ∙ v.ip_cap;
}
seat-IsValid p client ip l AdmitResult.global_limit v fresh t w c = record {
  seats = t;
  distinct = v.distinct;
  within = w;
  global_cap = c.0 ∙ v.global_cap;
  ip_cap = c.1 ∙ v.ip_cap;
}
seat-IsValid p client ip l AdmitResult.ip_limit v fresh t w c = record {
  seats = t;
  distinct = v.distinct;
  within = w;
  global_cap = c.0 ∙ v.global_cap;
  ip_cap = c.1 ∙ v.ip_cap;
}

-- Admission of a new socket keeps the books.
pub admit-IsValid :
    (parse_url : Text → Option Url) (p : Policy) (client : ℕ) (request : UpgradeRequest)
    → IsValid p
    → JsMap.get client p.ip_by_client ≡ none
    → IsValid (admit parse_url p client request).0
unfolding admit
admit-IsValid parse_url p client request v fresh =
    let ip = client_ip request in
    let t = Laws.try_admit-Tracks p.connections (values p.ip_by_client) ip v.seats in
    elim (Bool-cases (is_origin_allowed parse_url p.origins (header_value request.origin))) [
      | inl e ↦ rw e (
          seat-IsValid p client ip (Connections.try_admit p.connections ip).0
            (Connections.try_admit p.connections ip).1 v fresh t.1
            (Laws.try_admit-Within p.connections ip v.within)
            (Laws.try_admit-SameCaps p.connections ip))
      | inr e ↦ rw e v
    ]

release_ip-IsValid :
    (p : Policy) (client : ℕ) (ip : Text)
    → JsMap.get client p.ip_by_client ≡ some ip
    → IsValid p
    → IsValid (release_ip p client (some ip))
unfolding release_ip
release_ip-IsValid p client ip e v = record {
  seats =
      Tracks-transfer (Connections.release p.connections ip) (remove_one ip (values p.ip_by_client))
        _ (λ j. sym (count-values-delete client ip j p.ip_by_client v.distinct e))
        (sym (length-values-delete client ip p.ip_by_client v.distinct e))
        (Laws.release-Tracks p.connections (values p.ip_by_client) ip v.seats);
  distinct = delete-Distinct client p.ip_by_client v.distinct;
  within = Laws.release-Within p.connections ip v.within;
  global_cap = (Laws.release-SameCaps p.connections ip).0 ∙ v.global_cap;
  ip_cap = (Laws.release-SameCaps p.connections ip).1 ∙ v.ip_cap;
}

-- The release of any socket, seated or not, keeps the books.
pub release-IsValid : (p : Policy) (client : ℕ) → IsValid p → IsValid (release p client)
release-IsValid p client v = elim (Option-cases (JsMap.get client p.ip_by_client)) [
  | inl e ↦ unfold release in rw e v
  | inr (ip, e) ↦ unfold release in rw e (release_ip-IsValid p client ip e v)
]

pub allow_message-IsValid :
    (p : Policy) (now client : ℕ) → IsValid p → IsValid (allow_message p now client).0
unfolding allow_message
allow_message-IsValid p now client v = record {
  seats = v.seats;
  distinct = v.distinct;
  within = v.within;
  global_cap = v.global_cap;
  ip_cap = v.ip_cap;
}

-- What the gateway does to the policy; a socket that comes in is a new one.
pub data Step (parse_url : Text → Option Url) : Policy → Policy → Type 0 where
  comes :
      {p : Policy} (client : ℕ) (request : UpgradeRequest)
      → JsMap.get client p.ip_by_client ≡ none
      → Step parse_url p (admit parse_url p client request).0
  goes : {p : Policy} (client : ℕ) → Step parse_url p (release p client)
  sends : {p : Policy} (now client : ℕ) → Step parse_url p (allow_message p now client).0

pub data Reach (parse_url : Text → Option Url) (p : Policy) : Policy → Type 0 where
  here : Reach parse_url p p
  next : {q r : Policy} → Reach parse_url p q → Step parse_url q r → Reach parse_url p r

Step-IsValid :
    (parse_url : Text → Option Url) {p q : Policy} → Step parse_url p q → IsValid p → IsValid q
Step-IsValid parse_url (comes {p} client request fresh) v =
    admit-IsValid parse_url p client request v fresh
Step-IsValid parse_url (goes {p} client) v = release-IsValid p client v
Step-IsValid parse_url (sends {p} now client) v = allow_message-IsValid p now client v

-- Whatever sockets come, send and go, from a new policy on: each seated socket has one slot of its
-- address and of the total, no other slot is taken, and both ceilings hold.
pub Reach-IsValid :
    (parse_url : Text → Option Url) (c : Limits) (v : OriginValidator) (q : Policy)
    → Reach parse_url (policy c v) q
    → IsValid q
Reach-IsValid parse_url c v q here = policy-IsValid c v
Reach-IsValid parse_url c v q (next {q = s} r st) =
    Step-IsValid parse_url st (Reach-IsValid parse_url c v s r)
