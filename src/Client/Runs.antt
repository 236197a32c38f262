-- ===== src/Client/Runs.antt =====
-- The client under any sequence of calls, socket events, messages and timers.
use looplink.Base.{ℕ, ◌≡◌, ◌⊎◌, refl, sym, subst, Bool, true, false, List, [], ◌∷◌, inl, inr, arith}
use looplink.JsMap.{nat_key}
use looplink.Text.{Text}
use looplink.Frames.{Value}
use looplink.Protocol.{ProtocolMessage}
use looplink.Client.{
  Client, Failure, client, connect, open_socket, on_open, on_error, on_close, disconnect,
  disconnect_from, dispose_socket, on_reconnect_timer, on_nothing_to_restore, on_restored, emit,
  disconnected, reconnect_failed, on_attempt_failed,
}
use looplink.Client.Flags.{
  Flags, flags, Calm, after_loss, flags-on_open, flags-on_error, flags-on_close, flags-handle,
  flags-wait_for_message, flags-on_wait_timeout, flags-send, flags-tunnel_answered, flags-schedule,
}
use looplink.Client.Messages.{
  wait_for_message, on_wait_timeout, handle_incoming_data, send, tunnel_answered,
  set_forwarding_handler,
}

pub data Event : Type 0 where
  connecting : Event
  socket_opening opened : ℕ → Event
  errored : ℕ → Text → Event
  closed : ℕ → ℕ → Text → Event
  disconnecting : Event
  receiving : ℕ → Value → Event
  waiting : (ProtocolMessage → Bool) → Event
  wait_expiring : Event
  sending : ProtocolMessage → Event
  answered : ℕ → ProtocolMessage → Event
  handler_set : Event
  timer_firing nothing_to_restore : Event
  restored : Text → Text → Event
  attempt_failed : Failure → Event

unfoldable pub step : (ℕ → Bool) → Client → Event → Client
step is_open c connecting = (connect c).0
step is_open c (socket_opening socket) = open_socket c socket
step is_open c (opened socket) = on_open c socket
step is_open c (errored socket message) = on_error c socket message
step is_open c (closed socket code reason) = on_close c socket code reason
step is_open c disconnecting = disconnect c
step is_open c (receiving socket value) = handle_incoming_data c socket value
step is_open c (waiting match) = (wait_for_message c match).0
step is_open c wait_expiring = on_wait_timeout c
step is_open c (sending message) = (send is_open c message).0
step is_open c (answered port message) = (tunnel_answered c port message).0
step is_open c handler_set = set_forwarding_handler c
step is_open c timer_firing = (on_reconnect_timer c).0
step is_open c nothing_to_restore = on_nothing_to_restore c
step is_open c (restored previous tunnel_id) = on_restored c previous tunnel_id
step is_open c (attempt_failed failure) = on_attempt_failed c failure

unfoldable pub run : (ℕ → Bool) → Client → List Event → Client
unfolding step
run is_open c [] = c
run is_open c (e ∷ es) = run is_open (step is_open c e) es

-- An event of the socket, of the waits and of the messages, or a failed attempt.
abbrev pub is_heard : Event → Bool
is_heard connecting = false
is_heard disconnecting = false
is_heard timer_firing = false
is_heard nothing_to_restore = false
is_heard (restored previous tunnel_id) = false
is_heard (attempt_failed failure) = false
is_heard e = true

-- Where an event is heard, the flags stay as they are or are those after a loss.
pub flags-heard :
    (is_open : ℕ → Bool) (c : Client) (e : Event)
    → is_heard e ≡ true
    → (flags (step is_open c e) ≡ flags c) ⊎ (flags (step is_open c e) ≡ after_loss (flags c))
unfolding step open_socket set_forwarding_handler
flags-heard is_open c (socket_opening socket) h = inl refl
flags-heard is_open c (opened socket) h = inl (flags-on_open c socket)
flags-heard is_open c (errored socket message) h = inl (flags-on_error c socket message)
flags-heard is_open c (closed socket code reason) h = flags-on_close c socket code reason
flags-heard is_open c (receiving socket value) h = inl (flags-handle c socket value)
flags-heard is_open c (waiting match) h = inl (flags-wait_for_message c match)
flags-heard is_open c wait_expiring h = inl (flags-on_wait_timeout c)
flags-heard is_open c (sending message) h = inl (flags-send is_open c message)
flags-heard is_open c (answered port message) h = inl (flags-tunnel_answered c port message)
flags-heard is_open c handler_set h = inl refl
flags-heard is_open c connecting h = absurd (cc)
flags-heard is_open c disconnecting h = absurd (cc)
flags-heard is_open c timer_firing h = absurd (cc)
flags-heard is_open c nothing_to_restore h = absurd (cc)
flags-heard is_open c (restored previous tunnel_id) h = absurd (cc)
flags-heard is_open c (attempt_failed failure) h = absurd (cc)

-- A failed attempt is over, and is then followed as a loss is.
pub flags-on_attempt_failed :
    (c : Client) (failure : Failure)
    → flags (on_attempt_failed c failure)
      ≡ after_loss (c.reconnect, c.intentional_close, c.reconnect_timer, false)
unfolding on_attempt_failed dispose_socket
flags-on_attempt_failed c failure =
    flags-schedule
      (emit
        (record (dispose_socket (record c { reconnect_in_flight = false })) {
          state = disconnected;
        })
        (reconnect_failed failure))
      failure

-- What holds of the flags and is kept by a loss is kept by every event that is heard, and by a failed
-- attempt if it is also kept by the end of one.
module _ (P : Flags → Type 0) (lost : (f : Flags) → P f → P (after_loss f)) where
  pub heard-kept :
      (is_open : ℕ → Bool) (c : Client) (e : Event)
      → is_heard e ≡ true
      → P (flags c)
      → P (flags (step is_open c e))
  heard-kept is_open c e h v = elim (flags-heard is_open c e h) [
    | inl p ↦ subst P (sym p) v
    | inr p ↦ subst P (sym p) (lost (flags c) v)
  ]

  pub failed-kept :
      (is_open : ℕ → Bool) (c : Client) (failure : Failure)
      → P (c.reconnect, c.intentional_close, c.reconnect_timer, false)
      → P (flags (step is_open c (attempt_failed failure)))
  unfolding step
  failed-kept is_open c failure v =
      subst P (sym (flags-on_attempt_failed c failure))
        (lost (c.reconnect, c.intentional_close, c.reconnect_timer, false) v)

after_loss-Calm : (f : Flags) → Calm f → Calm (after_loss f)
after_loss-Calm (reconnect, intentional, timer, in_flight) v = ground arith

landed : (f : Flags) → Calm f → Calm (f.0, f.1, f.2, false)
landed (reconnect, intentional, timer, in_flight) v = ground arith

pub step-Calm :
    (is_open : ℕ → Bool) (c : Client) (e : Event) → Calm (flags c) → Calm (flags (step is_open c e))
unfolding step connect disconnect disconnect_from on_reconnect_timer on_nothing_to_restore
    on_restored
step-Calm is_open c connecting v = ground arith
step-Calm is_open c disconnecting v = ground arith
step-Calm is_open c timer_firing v = ground arith
step-Calm is_open c nothing_to_restore v = ground arith
step-Calm is_open c (restored previous tunnel_id) v = ground arith
step-Calm is_open c (attempt_failed failure) v =
    failed-kept Calm after_loss-Calm is_open c failure (landed (flags c) v)
step-Calm is_open c e v = heard-kept Calm after_loss-Calm is_open c e refl v

run-Calm :
    (is_open : ℕ → Bool) (c : Client) (es : List Event)
    → Calm (flags c)
    → Calm (flags (run is_open c es))
unfolding run
run-Calm is_open c [] v = v
run-Calm is_open c (e ∷ es) v = run-Calm is_open (step is_open c e) es (step-Calm is_open c e v)

-- Whatever is called, heard, received and timed, from a new client on, the timer of a reconnection is
-- never set while the flag of one in flight is, neither is set while the flag of an intentional close
-- is, and neither is ever set where the option is off.
one_reconnection :
    (is_open : ℕ → Bool) (reconnect : Bool) (es : List Event)
    → Calm (flags (run is_open (client reconnect) es))
unfolding client
one_reconnection is_open reconnect es =
    run-Calm is_open (client reconnect) es (refl, λ h. refl, λ h. refl)
