-- ===== src/Heartbeat/Laws.antt =====
-- What a sweep drops, and when the sweep timer runs.
use looplink.Base.{
  ◌⊎◌, subst, ℕ, ◌+◌, ◌≡◌, refl, sym, Bool, true, false, Option, none, some, List, [], ◌∷◌, ltb,
  if◌then◌else◌, is_some, is_empty, arith, ℕ_discrete, ite, Bool-cases, inl, inr, not,
}
use looplink.JsMap
use looplink.JsMap.{JsMap, nat_key, Distinct}
use looplink.JsMap.Laws
use looplink.Heartbeat.{
  HeartbeatMonitor, monitor, register, beat, unregister, sweep_each, sweep, stop_when_empty,
}

-- The sockets that were silent for longer than the timeout are out, all else is as it was.
abbrev pub after_sweep : ℕ → ℕ → Option ℕ → Option ℕ
after_sweep timeout_ms now none = none
after_sweep timeout_ms now (some last) = if ltb (last + timeout_ms) now then none else some last

abbrev pub silent : ℕ → ℕ → Option ℕ → Bool
silent timeout_ms now none = false
silent timeout_ms now (some last) = ltb (last + timeout_ms) now

unfoldable pub listed : ℕ → List ℕ → Bool
listed c [] = false
listed c (x ∷ xs) = ite (ℕ_discrete x c) true (listed c xs)

-- What the loop leaves of a socket: it is dropped if its entry is one of the silent ones.
sweep_each-get :
    (timeout_ms now c : ℕ) (entries tracked : JsMap ℕ ℕ)
    → Distinct entries
    → JsMap.get c (sweep_each timeout_ms now entries tracked).0
      ≡ (if silent timeout_ms now (JsMap.get c entries) then none else JsMap.get c tracked)
unfolding sweep_each JsMap.get
sweep_each-get timeout_ms now c [] tracked d = refl
sweep_each-get timeout_ms now c ((x, last) ∷ entries) tracked d = ground (
  arith,
  sweep_each-get timeout_ms now c entries
      (if ltb (last + timeout_ms) now then JsMap.delete x tracked else tracked) d.1,
  Laws.get-delete x c tracked,
  d.0,
)

sweep_each-listed :
    (timeout_ms now c : ℕ) (entries tracked : JsMap ℕ ℕ)
    → Distinct entries
    → listed c (sweep_each timeout_ms now entries tracked).1
      ≡ silent timeout_ms now (JsMap.get c entries)
unfolding sweep_each JsMap.get listed
sweep_each-listed timeout_ms now c [] tracked d = refl
sweep_each-listed timeout_ms now c ((x, last) ∷ entries) tracked d = ground (
  arith,
  sweep_each-listed timeout_ms now c entries
      (if ltb (last + timeout_ms) now then JsMap.delete x tracked else tracked) d.1,
  d.0,
)

-- A sweep terminates exactly the sockets that were silent for longer than the timeout, and forgets
-- them; it leaves the last heartbeat of every other socket as it was.
pub sweep-silent :
    (m : HeartbeatMonitor) (now c : ℕ)
    → Distinct m.last_beat_at
    → (listed c (sweep m now).1 ≡ silent m.timeout_ms now (JsMap.get c m.last_beat_at))
      × (JsMap.get c (sweep m now).0.last_beat_at ≡ (
          if silent m.timeout_ms now (JsMap.get c m.last_beat_at)
          then none
          else JsMap.get c m.last_beat_at))
unfolding sweep
sweep-silent m now c d = (
  sweep_each-listed m.timeout_ms now c m.last_beat_at m.last_beat_at d,
  ground (arith, sweep_each-get m.timeout_ms now c m.last_beat_at m.last_beat_at d),
)

-- No socket is tracked twice, and the timer runs exactly while a socket is tracked.
pub record IsValid (m : HeartbeatMonitor) : Type 0 where
  pub distinct : Distinct m.last_beat_at
  pub running : m.sweep_timer ≡ not (is_empty m.last_beat_at)

set-not_empty : (c now : ℕ) (m : JsMap ℕ ℕ) → is_empty (JsMap.set c now m) ≡ false
unfolding JsMap.set
set-not_empty c now [] = refl
set-not_empty c now ((x, last) ∷ m) = ground arith

get_some-not_empty : (c : ℕ) (m : JsMap ℕ ℕ) → is_some (JsMap.get c m) ≡ true → is_empty m ≡ false
unfolding JsMap.get
get_some-not_empty c [] h = ground arith
get_some-not_empty c ((x, last) ∷ m) h = refl

kept-Distinct :
    (x : ℕ) (b : Bool) (m : JsMap ℕ ℕ) → Distinct m → Distinct (if b then JsMap.delete x m else m)
kept-Distinct x true m d = Laws.delete-Distinct x m d
kept-Distinct x false m d = d

sweep_each-Distinct :
    (timeout_ms now : ℕ) (entries tracked : JsMap ℕ ℕ)
    → Distinct tracked
    → Distinct (sweep_each timeout_ms now entries tracked).0
unfolding sweep_each
sweep_each-Distinct timeout_ms now [] tracked d = d
sweep_each-Distinct timeout_ms now ((x, last) ∷ entries) tracked d =
    sweep_each-Distinct timeout_ms now entries
      (if ltb (last + timeout_ms) now then JsMap.delete x tracked else tracked)
      (kept-Distinct x (ltb (last + timeout_ms) now) tracked d)

sweep_each-empty :
    (timeout_ms now : ℕ) (entries : JsMap ℕ ℕ)
    → is_empty (sweep_each timeout_ms now entries []).0 ≡ true
unfolding sweep_each JsMap.delete
sweep_each-empty timeout_ms now [] = refl
sweep_each-empty timeout_ms now ((x, last) ∷ entries) =
    ground (arith, sweep_each-empty timeout_ms now entries)

pub data Op : Type 0 where
  registering beating : ℕ → ℕ → Op
  unregistering sweeping : ℕ → Op

unfoldable pub step : HeartbeatMonitor → Op → HeartbeatMonitor
step m (registering now c) = register m now c
step m (beating now c) = beat m now c
step m (unregistering c) = unregister m c
step m (sweeping now) = (sweep m now).0

unfoldable pub run : HeartbeatMonitor → List Op → HeartbeatMonitor
unfolding step
run m [] = m
run m (x ∷ xs) = run (step m x) xs

stopped-IsValid :
    (m : HeartbeatMonitor) (tracked : JsMap ℕ ℕ)
    → Distinct tracked
    → (is_empty m.last_beat_at ≡ true → is_empty tracked ≡ true)
    → m.sweep_timer ≡ not (is_empty m.last_beat_at)
    → IsValid (stop_when_empty (record m { last_beat_at = tracked }))
stopped-IsValid m [] d k r = record { distinct = d; running = refl }
stopped-IsValid m ((x, last) ∷ tracked) d k r = record {
  distinct = d;
  running = ground (arith, Bool-cases (is_empty m.last_beat_at));
}

beat-cases :
    (m : HeartbeatMonitor) (now c : ℕ)
    → (beat m now c ≡ m)
      ⊎ ((is_some (JsMap.get c m.last_beat_at) ≡ true)
          × (beat m now c ≡ record m { last_beat_at = JsMap.set c now m.last_beat_at }))
unfolding beat
beat-cases m now c = ground arith

pub beat-IsValid : (m : HeartbeatMonitor) (now c : ℕ) → IsValid m → IsValid (beat m now c)
beat-IsValid m now c v = elim (beat-cases m now c) [
  | inl p ↦ subst IsValid (sym p) v
  | inr (h, p) ↦ subst IsValid (sym p) (record {
    distinct = Laws.set-Distinct c now m.last_beat_at v.distinct;
    running = ground (
      arith,
      v.running,
      get_some-not_empty c m.last_beat_at h,
      set-not_empty c now m.last_beat_at,
    );
  })
]

delete-empty : (c : ℕ) (m : JsMap ℕ ℕ) → is_empty m ≡ true → is_empty (JsMap.delete c m) ≡ true
unfolding JsMap.delete
delete-empty c [] h = refl
delete-empty c ((x, last) ∷ m) h = ground arith

swept-empty :
    (timeout_ms now : ℕ) (m : JsMap ℕ ℕ)
    → is_empty m ≡ true
    → is_empty (sweep_each timeout_ms now m m).0 ≡ true
swept-empty timeout_ms now [] h = sweep_each-empty timeout_ms now []
swept-empty timeout_ms now ((x, last) ∷ m) h = ground arith

pub step-IsValid : (m : HeartbeatMonitor) (x : Op) → IsValid m → IsValid (step m x)
unfolding step register unregister sweep
step-IsValid m (registering now c) v = record {
  distinct = Laws.set-Distinct c now m.last_beat_at v.distinct;
  running = ground (arith, set-not_empty c now m.last_beat_at);
}
step-IsValid m (beating now c) v = beat-IsValid m now c v
step-IsValid m (unregistering c) v =
    stopped-IsValid m (JsMap.delete c m.last_beat_at)
      (Laws.delete-Distinct c m.last_beat_at v.distinct) (delete-empty c m.last_beat_at) v.running
step-IsValid m (sweeping now) v =
    stopped-IsValid m (sweep_each m.timeout_ms now m.last_beat_at m.last_beat_at).0
      (sweep_each-Distinct m.timeout_ms now m.last_beat_at m.last_beat_at v.distinct)
      (swept-empty m.timeout_ms now m.last_beat_at) v.running

run-IsValid : (m : HeartbeatMonitor) (xs : List Op) → IsValid m → IsValid (run m xs)
unfolding run
run-IsValid m [] v = v
run-IsValid m (x ∷ xs) v = run-IsValid (step m x) xs (step-IsValid m x v)

-- Whatever is registered, beats, leaves and is swept from a new monitor on, no socket is tracked
-- twice, and the sweep timer runs exactly while a socket is tracked.
pub timer_runs :
    (timeout_ms : ℕ) (sweep_interval_ms : Option ℕ) (xs : List Op)
    → IsValid (run (monitor timeout_ms sweep_interval_ms) xs)
unfolding monitor
timer_runs timeout_ms sweep_interval_ms xs =
    run-IsValid (monitor timeout_ms sweep_interval_ms) xs (record { distinct = tt; running = refl })
