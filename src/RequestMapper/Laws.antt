-- ===== src/RequestMapper/Laws.antt =====
-- request-mapper.ts: which headers of a public request are forwarded.
use looplink.Base.{
  Bool-cases, inl, inr, Bool, true, false, Option, none, some, List, [], ◌∷◌, ◌≡◌, refl, ◌∙◌, arith,
  All, if◌then◌else◌,
}
use mathlib.Core.List.{Memᴰ}
use mathlib.Core.List.Memᴰ.{head, tail}
use looplink.JsMap
use looplink.JsMap.{JsMap, Distinct}
use looplink.JsMap.Laws.{get-set}
use looplink.Text.{Text, text_key}
use looplink.Text.{to_lower, ◌===◌, ===→eq, ===_refl}
use looplink.Forwarding.{HeaderValue, one, many, HttpHeaders}
use looplink.RequestMapper.{
  stands_in, strip_request_headers, Label, header_name, header_value, Result, done, thrown, ◌>>=◌,
  within_bound, assert_bounded_string, assert_all_bounded, assert_header_value, add_header,
  header_entry, is_stripped, RawHeaders, map_headers_from, map_headers, Nothing, MapError, too_long,
  nothing,
}

-- The texts of a value are within the bound.
abbrev pub IsBounded : HeaderValue → Type 0
IsBounded (one value) = within_bound value ≡ true
IsBounded (many values) = All (λ value. within_bound value ≡ true) values

-- A name is stripped if it is one of the list once its letters are lower case.
abbrev pub IsStripped : Text → Type 0
IsStripped name = Memᴰ (to_lower name) strip_request_headers

unlisted :
    (name n : Text) (names : List Text)
    → (name === n) ≡ false
    → ¬ Memᴰ name names
    → ¬ Memᴰ name (n ∷ names)
unlisted name n names e away (head same) =
    let there : (name === n) ≡ true = rw same (===_refl n) in absurd (cc)
unlisted name n names e away (tail m) = away m

stands_in-Mem :
    (name : Text) (names : List Text)
    → (stands_in name names ≡ true → Memᴰ name names)
      × (stands_in name names ≡ false → ¬ Memᴰ name names)
unfolding stands_in
stands_in-Mem name [] = (λ h. absurd (cc), λ h m. elim m [ ])
stands_in-Mem name (n ∷ names) =
    first (name === n) refl (stands_in name names) (stands_in-Mem name names).0
      (stands_in-Mem name names).1
  where
    first :
        (b : Bool)
        → (name === n) ≡ b
        → (later : Bool) → (later ≡ true → Memᴰ name names)
        → (later ≡ false → ¬ Memᴰ name names)
        → ((if b then true else later) ≡ true → Memᴰ name (n ∷ names))
          × ((if b then true else later) ≡ false → ¬ Memᴰ name (n ∷ names))
    first true e later t f = (λ h. head (===→eq name n e), λ h. absurd (cc))
    first false e later t f = (λ h. tail (t h), λ h m. unlisted name n names e (f h) m)

-- Every header that is not stripped is within the bound.
abbrev pub IsFit : Text → Option HeaderValue → Type 0
IsFit name none = Unit
IsFit name (some value) = ¬ IsStripped name → (within_bound name ≡ true) × IsBounded value

abbrev pub AllFit : RawHeaders → Type 0
AllFit [] = Unit
AllFit ((name, value) ∷ headers) = IsFit name value × AllFit headers

-- What the forwarded headers hold under a name: the header of the request, unless it is stripped.
abbrev passed : Text → Option (Option HeaderValue) → Option HeaderValue → Option HeaderValue
passed name none before = before
passed name (some none) before = before
passed name (some (some value)) before = if is_stripped name then before else some value

abbrev Gathered : HttpHeaders → RawHeaders → Result HttpHeaders → Type 0
Gathered before headers (done result) =
    AllFit headers
    × ((name : Text)
        → JsMap.get name result ≡ passed name (JsMap.get name headers) (JsMap.get name before))
Gathered before headers (thrown e) = ¬ AllFit headers

-- A check that holds gives the value, and one that fails throws.
abbrev Yields : {A : Type 0} → Type 0 → A → Result A → Type 0
Yields P x (done y) = P × (y ≡ x)
Yields P x (thrown e) = ¬ P

Yields-bind :
    {A B : Type 0} (P Q : Type 0) (x : A) (y : B) (r : Result A) (f : A → Result B)
    → Yields P x r
    → Yields Q y (f x)
    → Yields (P × Q) y (r >>= f)
Yields-bind P Q x y (thrown e) f h k = λ p. h p.0
Yields-bind P Q x y (done z) f (p, e) k = after P Q y (f z) p (rw e k)
  where
    after :
        {B : Type 0} (P Q : Type 0) (y : B) (r : Result B) → P → Yields Q y r → Yields (P × Q) y r
    after P Q y (done z) p k = ((p, k.0), k.1)
    after P Q y (thrown e) p k = λ q. k q.1

Yields-done :
    {B : Type 0} (P : Type 0) (y : B) (r : Result Nothing)
    → Yields P nothing r
    → Yields P y (r >>= λ _. done y)
Yields-done P y (done x) h = (h.0, refl)
Yields-done P y (thrown e) h = h

test-Yields :
    (e : MapError) (b : Bool) → Yields (b ≡ true) nothing (if b then done nothing else thrown e)
test-Yields e true = (refl, refl)
test-Yields e false = λ h. absurd (cc)

assert_bounded_string-Yields :
    (label : Label) (value : Text)
    → Yields (within_bound value ≡ true) nothing (assert_bounded_string label value)
unfolding assert_bounded_string
assert_bounded_string-Yields label value = test-Yields (too_long label) (within_bound value)

assert_all_bounded-Yields :
    (label : Label) (values : List Text)
    → Yields
        (All (λ value. within_bound value ≡ true) values)
        nothing
        (assert_all_bounded label values)
unfolding assert_all_bounded
assert_all_bounded-Yields label [] = (tt, refl)
assert_all_bounded-Yields label (value ∷ values) =
    Yields-bind _ _ _ _ (assert_bounded_string label value) (λ _. assert_all_bounded label values)
      (assert_bounded_string-Yields label value) (assert_all_bounded-Yields label values)

assert_header_value-Yields :
    (value : HeaderValue) → Yields (IsBounded value) nothing (assert_header_value value)
unfolding assert_header_value
assert_header_value-Yields (one value) = assert_bounded_string-Yields header_value value
assert_header_value-Yields (many values) = assert_all_bounded-Yields header_value values

add_header-Yields :
    (name : Text) (value : HeaderValue) (before : HttpHeaders)
    → Yields
        ((within_bound name ≡ true) × IsBounded value)
        (JsMap.set name value before)
        (add_header name value before)
unfolding add_header
add_header-Yields name value before =
    Yields-done _ (JsMap.set name value before)
      (assert_bounded_string header_name name >>= λ _. assert_header_value value)
      (Yields-bind _ _ nothing nothing (assert_bounded_string header_name name)
        (λ _. assert_header_value value) (assert_bounded_string-Yields header_name name)
        (assert_header_value-Yields value))

abbrev updated : Text → Option HeaderValue → HttpHeaders → HttpHeaders
updated name none before = before
updated name (some value) before = if is_stripped name then before else JsMap.set name value before

is_stripped-Mem :
    (name : Text)
    → (is_stripped name ≡ true → IsStripped name) × (is_stripped name ≡ false → ¬ IsStripped name)
unfolding is_stripped
is_stripped-Mem name = stands_in-Mem (to_lower name) strip_request_headers

header_entry-Yields :
    (name : Text) (value : Option HeaderValue) (before : HttpHeaders)
    → Yields (IsFit name value) (updated name value before) (header_entry name value before)
header_entry-Yields name none before = (tt, refl)
header_entry-Yields name (some value) before =
    unless _ _ (JsMap.set name value before) before (is_stripped name) (is_stripped-Mem name).0
      (is_stripped-Mem name).1 (add_header name value before) (add_header-Yields name value before)
  where
    unless :
        (N P : Type 0) (x y : HttpHeaders) (b : Bool)
        → (b ≡ true → N)
        → (b ≡ false → ¬ N)
        → (r : Result HttpHeaders) → Yields P x r
        → Yields (¬ N → P) (if b then y else x) (if b then done y else r)
    unless N P x y true t f r h = (λ n. absurd (n (t refl)), refl)
    unless N P x y false t f (done z) h = (λ e. h.0, h.1)
    unless N P x y false t f (thrown e) h = λ k. h (k (f refl))

-- One header after the other.
passed-updated :
    (name key : Text) (value : Option HeaderValue) (before : HttpHeaders) (rest : RawHeaders)
    → JsMap.get key rest ≡ none
    → passed name (JsMap.get name rest) (JsMap.get name (updated key value before))
      ≡ passed name (JsMap.get name ((key, value) ∷ rest)) (JsMap.get name before)
unfolding JsMap.get
passed-updated name key none before rest h = ground arith
passed-updated name key (some value) before rest h = ground (arith, get-set key name value before)

first-Gathered :
    (before : HttpHeaders) (key : Text) (value : Option HeaderValue) (headers : RawHeaders)
    (r : Result HttpHeaders)
    → JsMap.get key headers ≡ none
    → IsFit key value
    → Gathered (updated key value before) headers r
    → Gathered before ((key, value) ∷ headers) r
first-Gathered before key value headers (thrown e) absent fit h = λ all. h all.1
first-Gathered before key value headers (done result) absent fit h =
    ((fit, h.0), λ name. h.1 name ∙ passed-updated name key value before headers absent)

map_headers_from-Gathered :
    (before : HttpHeaders) (headers : RawHeaders)
    → Distinct headers
    → Gathered before headers (map_headers_from before headers)
unfolding map_headers_from JsMap.get
map_headers_from-Gathered before [] d = (tt, λ name. refl)
map_headers_from-Gathered before ((key, value) ∷ headers) d =
    after (header_entry key value before) (header_entry-Yields key value before)
      (map_headers_from-Gathered (updated key value before) headers d.1)
  where
    after :
        (r : Result HttpHeaders)
        → Yields (IsFit key value) (updated key value before) r
        → Gathered
            (updated key value before)
            headers
            (map_headers_from (updated key value before) headers)
        → Gathered before ((key, value) ∷ headers) (r >>= λ b. map_headers_from b headers)
    after (thrown e) h rest = λ fit. h fit.0
    after (done z) h rest = rw h.1 (first-Gathered before key value headers _ d.0 h.0 rest)

-- What the request has under a name: no header, one without a value, or one with a value.
abbrev pub value_of : Option (Option HeaderValue) → Option HeaderValue
value_of none = none
value_of (some value) = value

abbrev pub Outcome : RawHeaders → Result HttpHeaders → Type 0
Outcome headers (done result) =
    AllFit headers
    × ((name : Text) → IsStripped name → JsMap.get name result ≡ none)
    × ((name : Text)
        → ¬ IsStripped name
        → JsMap.get name result ≡ value_of (JsMap.get name headers))
Outcome headers (thrown e) = ¬ AllFit headers

passed-IsStripped :
    (name : Text) (o : Option (Option HeaderValue))
    → (IsStripped name → passed name o none ≡ none)
      × (¬ IsStripped name → passed name o none ≡ value_of o)
passed-IsStripped name none = (λ m. refl, λ n. refl)
passed-IsStripped name (some none) = (λ m. refl, λ n. refl)
passed-IsStripped name (some (some value)) = elim (Bool-cases (is_stripped name)) [
  | inl e ↦ rw e (λ m. refl, λ n. absurd (n ((is_stripped-Mem name).0 e)))
  | inr e ↦ rw e (λ m. absurd ((is_stripped-Mem name).1 e m), λ n. refl)
]

Gathered-Outcome :
    (headers : RawHeaders) (r : Result HttpHeaders) → Gathered [] headers r → Outcome headers r
unfolding JsMap.get
Gathered-Outcome headers (thrown e) h = h
Gathered-Outcome headers (done result) h = (
  h.0,
  λ name m. h.1 name ∙ (passed-IsStripped name (JsMap.get name headers)).0 m,
  λ name n. h.1 name ∙ (passed-IsStripped name (JsMap.get name headers)).1 n,
)

-- The headers of a public request, with no name twice, where a name is stripped if the list has it
-- once its letters are lower case: if a name or a value of a header that is not stripped is over the
-- bound, the mapping throws; otherwise it gives headers that hold nothing under a name that is
-- stripped, and under every other name just what the request has there.
pub map_headers-Outcome :
    (headers : RawHeaders) → Distinct headers → Outcome headers (map_headers headers)
unfolding map_headers
map_headers-Outcome headers d =
    Gathered-Outcome headers (map_headers_from [] headers) (map_headers_from-Gathered [] headers d)
