-- ===== src/Security/Rates/Window.antt =====
-- The limiter against the whole history of the accepted events of each key.
use looplink.Base.{
  ℕ, ◌+◌, ◌-◌, ◌≤◌, ◌<◌, ◌≡◌, refl, Bool, true, false, List, [], ◌∷◌, ◌++◌, ltb, leb, if◌then◌else◌,
  ite, arith, length, keep, length-append, length-keep-le,
}
use looplink.JsMap
use looplink.JsMap.Laws.{get-set, get-delete}
use looplink.Text.{Text, text_dec, text_key}
use looplink.Security.Rates.{
  RateLimiter, RateLimitDecision, init, stored, in_window, oldest_or, attempt, reset,
}

-- What has left the window stays outside: the older filter changes nothing for a later one.
keep-keep :
    (w s t : ℕ) (xs : List ℕ)
    → s ≤ t
    → keep (in_window w t) (keep (in_window w s) xs) ≡ keep (in_window w t) xs
keep-keep w s t [] h = refl
keep-keep w s t (x ∷ xs) h = ground (arith, keep-keep w s t xs)

keep-append : (p : ℕ → Bool) (xs ys : List ℕ) → keep p (xs ++ ys) ≡ keep p xs ++ keep p ys
keep-append p [] ys = refl
keep-append p (x ∷ xs) ys = ground (arith, keep-append p xs ys)

keep_self :
    (w t : ℕ) (xs : List ℕ)
    → keep (in_window w t) (keep (in_window w t) xs) ≡ keep (in_window w t) xs
keep_self w t xs = keep-keep w t t xs (omega arith)

-- The histories of accepted events: one list for each key.
abbrev pub Histories : Type 0
Histories = Text → List ℕ

abbrev pub recent_of : RateLimiter → Histories → ℕ → Text → List ℕ
recent_of l h t key = keep (in_window l.window_ms t) (h key)

-- From time `clock` on, what is stored shows the same windows as the whole history does, and no
-- list is longer than the limit.
pub record Tracks (l : RateLimiter) (h : Histories) (clock : ℕ) : Type 0 where
  pub windows :
      (key : Text) (t : ℕ)
      → clock ≤ t
      → keep (in_window l.window_ms t) (stored l key) ≡ recent_of l h t key
  pub bounded : (key : Text) → length (stored l key) ≤ l.limit

abbrev pub accept : Bool → Histories → Text → ℕ → Histories
accept false h key now = h
accept true h key now = λ j. ite (text_dec key j) (h j ++ now ∷ []) (h j)

pub init-Tracks : (limit w clock : ℕ) → Tracks (init limit w) (λ key. []) clock
unfolding init stored JsMap.get
init-Tracks limit w clock = record { windows = λ key t h. refl; bounded = λ key. omega arith }

-- The next state of one key's list.
stored-attempt :
    (l : RateLimiter) (now : ℕ) (key j : Text)
    → let recent = keep (in_window l.window_ms now) (stored l key) in
      stored (attempt l now key).0 j
      ≡ ite
          (text_dec key j)
          (if leb l.limit (length recent) then recent else recent ++ now ∷ [])
          (stored l j)
unfolding attempt stored
stored-attempt l now key j = ground (
  arith,
  get-set key j (keep (in_window l.window_ms now) (stored l key)) l.hits,
  get-set key j (keep (in_window l.window_ms now) (stored l key) ++ now ∷ []) l.hits,
)

module _ (l : RateLimiter) (h : Histories) (clock now : ℕ) (key : Text) (t : Tracks l h clock)
    (later : clock ≤ now) where
  abbrev after : RateLimiter × RateLimitDecision
  after = attempt l now key

  -- Where the limiter tracks the accepted events and the clock does not go back, an event is let in
  -- exactly while its window holds fewer accepted events than the limit, and the room that is then
  -- left is told.
  pub attempt-decides :
      let before = length (recent_of l h now key) in
      (after.1.allowed ≡ ltb before l.limit) × (after.1.remaining ≡ l.limit - before - 1)
  unfolding attempt
  attempt-decides =
      ground (arith, t.windows key now, length-append (recent_of l h now key) (now ∷ []))

  attempt-windows :
      (j : Text) (u : ℕ)
      → now ≤ u
      → keep (in_window l.window_ms u) (stored after.0 j)
        ≡ keep (in_window l.window_ms u) (accept after.1.allowed h key now j)
  attempt-windows j u le = rw (stored-attempt l now key j) (
      unfold attempt in
      ground (
        arith,
        t.windows j u,
        t.windows key u,
        keep-keep l.window_ms now u (stored l key),
        keep-append (in_window l.window_ms u) (keep (in_window l.window_ms now) (stored l key))
            (now ∷ []),
        keep-append (in_window l.window_ms u) (h key) (now ∷ []),
      ))

  attempt-bounded : (j : Text) → length (stored after.0 j) ≤ l.limit
  attempt-bounded j = rw (stored-attempt l now key j) (
      ground (
        arith,
        t.bounded j,
        t.bounded key,
        length-keep-le (in_window l.window_ms now) (stored l key),
        length-append (keep (in_window l.window_ms now) (stored l key)) (now ∷ []),
      ))

  limit-attempt : (after.0.limit ≡ l.limit) × (after.0.window_ms ≡ l.window_ms)
  unfolding attempt
  limit-attempt = ground arith

  -- The books stay right, whatever the decision was.
  pub attempt-Tracks : Tracks after.0 (accept after.1.allowed h key now) now
  attempt-Tracks = record {
    windows = rw limit-attempt.1 attempt-windows;
    bounded = rw limit-attempt.0 attempt-bounded;
  }

-- After any attempt and at any later time, no window holds more accepted events than the limit.
pub window_bound :
    (l : RateLimiter) (h : Histories) (clock : ℕ) (key : Text) (u : ℕ)
    → Tracks l h clock
    → clock ≤ u
    → length (recent_of l h u key) ≤ l.limit
window_bound l h clock key u t le =
    rw (← t.windows key u le)
      (omega (arith, length-keep-le (in_window l.window_ms u) (stored l key), t.bounded key))

abbrev pub Event : Type 0
Event = ℕ × Text

-- The clock does not go back.
abbrev pub IsOrdered : ℕ → List Event → Type 0
IsOrdered clock [] = Unit {0}
IsOrdered clock ((now, key) ∷ es) = (clock ≤ now) × IsOrdered now es

abbrev pub last_time : ℕ → List Event → ℕ
last_time clock [] = clock
last_time clock ((now, key) ∷ es) = last_time now es

-- A run of attempts, with the history of what was accepted beside the limiter.
pub run : RateLimiter → Histories → List Event → RateLimiter × Histories
run l h [] = (l, h)
run l h ((now, key) ∷ es) =
    let (l', d) = attempt l now key in run l' (accept d.allowed h key now) es

run-Tracks :
    (l : RateLimiter) (h : Histories) (clock : ℕ) (es : List Event)
    → Tracks l h clock
    → IsOrdered clock es
    → Tracks (run l h es).0 (run l h es).1 (last_time clock es)
unfolding run
run-Tracks l h clock [] t o = t
run-Tracks l h clock ((now, key) ∷ es) t o =
    run-Tracks (attempt l now key).0 (accept (attempt l now key).1.allowed h key now) now es
      (attempt-Tracks l h clock now key t o.0) o.1

limit-run :
    (l : RateLimiter) (h : Histories) (es : List Event)
    → ((run l h es).0.limit ≡ l.limit) × ((run l h es).0.window_ms ≡ l.window_ms)
unfolding run attempt
limit-run l h [] = (refl, refl)
limit-run l h ((now, key) ∷ es) =
    ground
      (arith, limit-run (attempt l now key).0 (accept (attempt l now key).1.allowed h key now) es)

-- From a new limiter, after any attempts whose times do not go back, and at any time from the last
-- one on, at most `limit` of a key's accepted events lie inside the window.
pub run-window_bound :
    (limit w clock : ℕ) (es : List Event) (key : Text) (u : ℕ)
    → IsOrdered clock es
    → last_time clock es ≤ u
    → length (keep (in_window w u) ((run (init limit w) (λ k. []) es).1 key)) ≤ limit
run-window_bound limit w clock es key u o le =
    let b =
      window_bound (run (init limit w) (λ k. []) es).0 (run (init limit w) (λ k. []) es).1
        (last_time clock es) key u
        (run-Tracks (init limit w) (λ k. []) clock es (init-Tracks limit w clock) o) le in
    let e = limit-run (init limit w) (λ k. []) es in unfold init in rw (e.0, e.1) at b

oldest_leaves :
    (w u now : ℕ) (recent : List ℕ)
    → 0 < length recent
    → oldest_or recent now + w ≤ u
    → length (keep (in_window w u) recent) < length recent
oldest_leaves w u now [] pos out = absurd (omega arith)
oldest_leaves w u now (x ∷ xs) pos out = ground (arith, length-keep-le (in_window w u) xs)

-- Where the limiter tracks the accepted events, the clock does not go back and the limit is not 0, a
-- client that was refused and makes its next attempt after the time that it was told is let in.
pub attempt_after_wait :
    (l : RateLimiter) (h : Histories) (clock now u : ℕ) (key : Text)
    → Tracks l h clock
    → clock ≤ now
    → 0 < l.limit
    → (attempt l now key).1.allowed ≡ false
    → now + (attempt l now key).1.retry_after_ms ≤ u
    → (attempt (attempt l now key).0 u key).1.allowed ≡ true
attempt_after_wait l h clock now u key t le pos refused waited =
    let recent = keep (in_window l.window_ms now) (stored l key) in
    let full : (length recent ≡ l.limit) =
      unfold attempt in
      ground (arith, t.bounded key, length-keep-le (in_window l.window_ms now) (stored l key)) in
    unfold attempt in
    ground (arith, full, stored-attempt l now key key, oldest_leaves l.window_ms u now recent)

-- Forgetting a key empties its list and leaves the others.
pub stored-reset :
    (l : RateLimiter) (key j : Text) → stored (reset l key) j ≡ ite (text_dec key j) [] (stored l j)
unfolding stored reset
stored-reset l key j = ground (arith, get-delete key j l.hits)
