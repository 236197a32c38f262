-- ===== src/Client/Reconnect.antt =====
-- The client goes on trying to reconnect.
use looplink.Base.{ℕ, ◌≡◌, refl, ap, ◌∙◌, Bool, true, false, ◌||◌, some, List, [], ◌∷◌, All, arith}
use looplink.JsMap
use looplink.JsMap.{nat_key}
use looplink.Text.{Text}
use looplink.Client.{
  Client, running, connect, on_close, close_heard, after_close, left, dispose_socket,
  on_reconnect_timer, schedule_reconnect, socket_closed, disconnected, lost, fail_waiter,
}
use looplink.Client.Flags.{
  Flags, flags, Calm, after_loss, flags-schedule, flags-left, flags-fail_waiter,
}
use looplink.Client.Runs.{
  flags-on_attempt_failed, heard-kept, Event, step, run, step-Calm, connecting, disconnecting,
  timer_firing, nothing_to_restore, restored, attempt_failed,
}

-- A reconnection is pending or under way.
abbrev pub trying : Flags → Bool
trying (reconnect, intentional, timer, in_flight) = timer || in_flight

-- What ends the reconnection: the program's own close, or a success.
abbrev pub ends_it : Event → Bool
ends_it disconnecting = true
ends_it nothing_to_restore = true
ends_it (restored previous tunnel_id) = true
ends_it e = false

still : {f g : Flags} → f ≡ g → trying g ≡ true → trying f ≡ true
still p h = ap trying p ∙ h

after_loss-trying : (f : Flags) → trying f ≡ true → trying (after_loss f) ≡ true
after_loss-trying (reconnect, intentional, timer, in_flight) h = ground arith

retried : (f : Flags) → Calm f → trying f ≡ true → trying (after_loss (f.0, f.1, f.2, false)) ≡ true
retried (reconnect, intentional, timer, in_flight) v h = ground arith

step-trying :
    (is_open : ℕ → Bool) (c : Client) (e : Event)
    → Calm (flags c)
    → ends_it e ≡ false
    → trying (flags c) ≡ true
    → trying (flags (step is_open c e)) ≡ true
unfolding step connect on_reconnect_timer
step-trying is_open c connecting v n h = ground arith
step-trying is_open c disconnecting v n h = absurd (cc)
step-trying is_open c timer_firing v n h = ground arith
step-trying is_open c nothing_to_restore v n h = absurd (cc)
step-trying is_open c (restored previous tunnel_id) v n h = absurd (cc)
step-trying is_open c (attempt_failed failure) v n h =
    still (flags-on_attempt_failed c failure) (retried (flags c) v h)
step-trying is_open c e v n h =
    heard-kept (λ f. trying f ≡ true) after_loss-trying is_open c e refl h

-- Once a reconnection is pending or under way, it stays so through whatever happens, losses of the
-- connection, errors, timeouts and failed attempts included, until an attempt succeeds or the
-- program closes the connection itself. (The flags of the client are those of a reachable one.)
pub run-trying :
    (is_open : ℕ → Bool) (c : Client) (es : List Event)
    → Calm (flags c)
    → All (λ e. ends_it e ≡ false) es
    → trying (flags c) ≡ true
    → trying (flags (run is_open c es)) ≡ true
unfolding run
run-trying is_open c [] v n h = h
run-trying is_open c (e ∷ es) v (n, ns) h =
    run-trying is_open (step is_open c e) es (step-Calm is_open c e v) ns
      (step-trying is_open c e v n h)

-- Where the option is on and the close was not intentional, the loss of the running connection
-- leaves a reconnection pending, or one is under way already.
pub on_close-trying :
    (c : Client) (socket code : ℕ) (reason : Text) (leaving : Bool)
    → c.reconnect ≡ true
    → c.intentional_close ≡ false
    → JsMap.get socket c.listeners ≡ some (running leaving)
    → trying (flags (on_close c socket code reason)) ≡ true
unfolding on_close
on_close-trying c socket code reason leaving r i p =
    let gone = record (dispose_socket (fail_waiter c (socket_closed code reason))) {
      state = disconnected;
    } in
    let same : flags gone ≡ flags c =
      unfold dispose_socket in flags-fail_waiter c (socket_closed code reason) in
    let down : flags (left (schedule_reconnect gone lost) leaving) ≡ after_loss (flags c) =
      flags-left (schedule_reconnect gone lost) leaving
      ∙ flags-schedule gone lost
      ∙ ap after_loss same in
    let begun : trying (after_loss (flags c)) ≡ true = ground arith in
    rw p (unfold close_heard in go c.intentional_close i (still down begun))
  where
    closed_gone : Client
    closed_gone = record (dispose_socket (fail_waiter c (socket_closed code reason))) {
      state = disconnected;
    }

    go :
        (intentional : Bool)
        → intentional ≡ false
        → trying (flags (left (schedule_reconnect closed_gone lost) leaving)) ≡ true
        → trying (flags (left (after_close intentional closed_gone) leaving)) ≡ true
    go true e h = absurd (cc)
    go false e h = unfold after_close in h
