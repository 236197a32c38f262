-- ===== src/Client/Closed.antt =====
-- websocket-client.ts: the client from the program's own close on, until it connects again.
use looplink.Base.{ℕ, ◌≡◌, refl, Bool, true, false, List, [], ◌∷◌, All, arith}
use looplink.JsMap.{nat_key}
use looplink.Client.{
  Client, disconnect, disconnect_from, on_reconnect_timer, on_nothing_to_restore, on_restored,
}
use looplink.Client.Flags.{Flags, flags, after_loss}
use looplink.Client.Runs.{
  heard-kept, failed-kept, Event, step, run, connecting, disconnecting, timer_firing,
  nothing_to_restore, restored, attempt_failed,
}

-- The program connects again.
abbrev pub connects : Event → Bool
connects connecting = true
connects e = false

-- The close was intentional, and no reconnection is scheduled or marked as under way.
abbrev pub Left : Flags → Type 0
Left (reconnect, intentional, timer, in_flight) =
    (intentional ≡ true) × (timer ≡ false) × (in_flight ≡ false)

after_loss-Left : (f : Flags) → Left f → Left (after_loss f)
after_loss-Left (reconnect, intentional, timer, in_flight) v = ground arith

landed : (f : Flags) → Left f → Left (f.0, f.1, f.2, false)
landed (reconnect, intentional, timer, in_flight) v = ground arith

disconnect-Left : (c : Client) → Left (flags (disconnect c))
unfolding disconnect disconnect_from
disconnect-Left c = ground arith

step-Left :
    (is_open : ℕ → Bool) (c : Client) (e : Event)
    → connects e ≡ false
    → Left (flags c)
    → Left (flags (step is_open c e))
unfolding step on_reconnect_timer on_nothing_to_restore on_restored
step-Left is_open c connecting n v = absurd (cc)
step-Left is_open c disconnecting n v = disconnect-Left c
step-Left is_open c timer_firing n v = ground arith
step-Left is_open c nothing_to_restore n v = ground arith
step-Left is_open c (restored previous tunnel_id) n v = ground arith
step-Left is_open c (attempt_failed failure) n v =
    failed-kept Left after_loss-Left is_open c failure (landed (flags c) v)
step-Left is_open c e n v = heard-kept Left after_loss-Left is_open c e refl v

run-Left :
    (is_open : ℕ → Bool) (c : Client) (es : List Event)
    → All (λ e. connects e ≡ false) es
    → Left (flags c)
    → Left (flags (run is_open c es))
unfolding run
run-Left is_open c [] n v = v
run-Left is_open c (e ∷ es) n v =
    run-Left is_open (step is_open c e) es n.1 (step-Left is_open c e n.0 v)

-- From a call of `disconnect` on, in any state, and until the program calls `connect` again, whatever
-- is heard, received and timed, a lost connection and an attempt that fails late included: the client
-- holds the close intentional, schedules no reconnection and marks none as under way, and a timer
-- that fires all the same begins none.
pub disconnect-no_reconnection :
    (is_open : ℕ → Bool) (c : Client) (es : List Event)
    → All (λ e. connects e ≡ false) es
    → let c' = run is_open (disconnect c) es in
      (c'.intentional_close ≡ true)
      × (c'.reconnect_timer ≡ false)
      × (c'.reconnect_in_flight ≡ false)
      × ((on_reconnect_timer c').1 ≡ false)
unfolding on_reconnect_timer
disconnect-no_reconnection is_open c es n =
    let (a, b, d) = run-Left is_open (disconnect c) es n (disconnect-Left c) in (a, b, d, rw a refl)
