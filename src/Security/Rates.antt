-- ===== src/Security/Rates.antt =====
-- sliding-window-rate-limiter.ts. The clock is an argument of each attempt, in milliseconds.
pub mod Window
use looplink.Base.{
  ℕ, ◌+◌, ◌-◌, Bool, true, false, Option, none, some, List, [], ◌∷◌, ◌++◌, ltb, leb, if◌then◌else◌,
  length, keep,
}
use looplink.JsMap
use looplink.JsMap.{JsMap}
use looplink.Text.{Text, text_key}

pub record RateLimitDecision : Type 0 where
  pub allowed : Bool
  pub remaining : ℕ
  pub retry_after_ms : ℕ

pub record RateLimiter : Type 0 where
  pub limit : ℕ
  pub window_ms : ℕ
  pub hits : JsMap Text (List ℕ)

unfoldable pub init : ℕ → ℕ → RateLimiter
init limit window_ms = record { limit = limit; window_ms = window_ms; hits = [] }

abbrev pub or_empty : Option (List ℕ) → List ℕ
or_empty none = []
or_empty (some times) = times

-- `this.hits.get(key) ?? []`
unfoldable pub stored : RateLimiter → Text → List ℕ
stored l key = or_empty (JsMap.get key l.hits)

-- `timestamp > now - windowMs`, with the subtraction moved to the other side.
abbrev pub in_window : ℕ → ℕ → ℕ → Bool
in_window window_ms now timestamp = ltb now (timestamp + window_ms)

-- `recent[0] ?? now`
abbrev pub oldest_or : List ℕ → ℕ → ℕ
oldest_or [] now = now
oldest_or (oldest ∷ rest) now = oldest

-- `Math.max(0, oldest + windowMs - now)` is the subtraction that stops at 0.
decide : RateLimiter → ℕ → Text → List ℕ → RateLimiter × RateLimitDecision
decide l now key recent =
    if leb l.limit (length recent)
    then (
      record l { hits = JsMap.set key recent l.hits },
      record {
        allowed = false;
        remaining = 0;
        retry_after_ms = oldest_or recent now + l.window_ms - now;
      },
    )
    else (
      record l { hits = JsMap.set key (recent ++ now ∷ []) l.hits },
      record {
        allowed = true;
        remaining = l.limit - length (recent ++ now ∷ []);
        retry_after_ms = 0;
      },
    )

unfoldable pub attempt : RateLimiter → ℕ → Text → RateLimiter × RateLimitDecision
unfolding decide
attempt l now key = decide l now key (keep (in_window l.window_ms now) (stored l key))

unfoldable pub reset : RateLimiter → Text → RateLimiter
reset l key = record l { hits = JsMap.delete key l.hits }

unfoldable pub clear : RateLimiter → RateLimiter
clear l = record l { hits = [] }
