-- ===== src/Examples/Client.antt =====
-- A client that connects, loses its connection and tries again; and one that is closed too early.
use looplink.Base.{ℕ, ◌≡◌, refl, Bool, true, false, ◌++◌, some, List, [], ◌∷◌, ℕ_discrete}
use looplink.JsMap
use looplink.JsMap.{nat_key}
use looplink.Text.{Text, codes}
use looplink.Protocol.{ProtocolMessage, connected_message, tunnel_created_message}
use looplink.Client.{
  Client, client, connect, open_socket, on_open, on_error, on_close, disconnect, connected, closing,
  connect_rejected, socket_error, on_reconnect_timer, lost,
}
use looplink.Client.Messages.{
  wait_for_message, resolved, deliver, wanted, is_inbound_forwarding_message,
}
use looplink.Client.Flags.{flags}
use looplink.Client.Runs.{
  Event, run, connecting, socket_opening, opened, closed, timer_firing, attempt_failed,
}
use looplink.Client.Reconnect
use looplink.Client.Delivery
use looplink.Client.Leaving
use looplink.Client.Closed

abbrev all_open : ℕ → Bool
all_open socket = true

abbrev a_loss : List Event
a_loss =
    connecting
    ∷ socket_opening 1
    ∷ opened 1
    ∷ closed 1 1006 []
    ∷ timer_firing
    ∷ attempt_failed lost
    ∷ []

-- What comes after a close that the program asks for while its attempt is still made.
abbrev afterwards : List Event
afterwards =
    attempt_failed lost ∷ timer_firing ∷ socket_opening 2 ∷ opened 2 ∷ closed 2 1006 [] ∷ []

abbrev closing_early : Client
closing_early = run all_open (client true) a_loss

disconnect-no_reconnection_example :
    ((run all_open (disconnect closing_early) afterwards).intentional_close ≡ true)
    × ((run all_open (disconnect closing_early) afterwards).reconnect_timer ≡ false)
    × ((run all_open (disconnect closing_early) afterwards).reconnect_in_flight ≡ false)
    × ((on_reconnect_timer (run all_open (disconnect closing_early) afterwards)).1 ≡ false)
disconnect-no_reconnection_example =
    Closed.disconnect-no_reconnection all_open closing_early afterwards
      (refl, (refl, (refl, (refl, (refl, tt)))))

-- A client that has just lost its connection.
abbrev alone : Client
alone = record (client true) { reconnect_timer = true }

run-trying_example :
    Reconnect.trying
      (flags (run all_open alone (timer_firing ∷ socket_opening 2 ∷ attempt_failed lost ∷ [])))
    ≡ true
unfolding client
run-trying_example =
    Reconnect.run-trying all_open alone (timer_firing ∷ socket_opening 2 ∷ attempt_failed lost ∷ [])
      (refl, (λ h. cc), (λ h. cc)) (refl, (refl, (refl, tt))) refl

abbrev greeting : ProtocolMessage
greeting = connected_message (codes "c1")

abbrev is_greeting : ProtocolMessage → Bool
is_greeting (connected_message id) = true
is_greeting m = false

abbrev with_answer : Client
with_answer = record (client true) {
  inbox = tunnel_created_message (codes "r") (codes "t") (codes "u") ∷ [];
}

deliver-wait_for_message_example :
    wait_for_message (deliver with_answer greeting) is_greeting ≡ (with_answer, resolved greeting)
unfolding client is_inbound_forwarding_message wanted
deliver-wait_for_message_example =
    Delivery.deliver-wait_for_message with_answer greeting is_greeting refl refl refl (refl, tt)
      refl

abbrev begun : Client
begun = (connect (client true)).0

abbrev late : Client
late = on_open (open_socket (disconnect begun) 1) 1

late_open-connected_example :
    (late.state ≡ connected) × (late.socket ≡ some 1) × (late.intentional_close ≡ true)
late_open-connected_example = Leaving.late_open-connected begun 1

abbrev unopened : Client
unopened = open_socket begun 1

abbrev refused : Client
refused = on_error (disconnect unopened) 1 (codes "closed before it was established")

disconnect_unsettled_example :
    (refused.effects
      ≡ (unopened.effects ++ closing 1 ∷ [])
        ++ connect_rejected (socket_error (codes "closed before it was established")) ∷ [])
    × ((code : ℕ) (reason : Text) → on_close refused 1 code reason ≡ refused)
disconnect_unsettled_example =
    Leaving.disconnect_unsettled unopened 1 (codes "closed before it was established")
      (unfold open_socket in refl) (unfold open_socket connect client in refl)
      (unfold open_socket connect client JsMap.set JsMap.get ℕ_discrete in refl)
