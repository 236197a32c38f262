-- ===== src/Client/Flags.antt =====
-- The flags that decide on a reconnection, and the operations that leave them.
use looplink.Base.{
  ℕ, ◌≡◌, refl, ◌∙◌, ◌⊎◌, inl, inr, ap, Bool, true, false, not, ◌&&◌, ◌||◌, Option, none, some,
  List, arith,
}
use looplink.Text.{Text}
use looplink.JsMap
use looplink.JsMap.{nat_key}
use looplink.Frames.{Value, Parsed, err, ok}
use looplink.Protocol.{
  ProtocolMessage, connected_message, create_tunnel_message, tunnel_created_message, error_message,
  ping_message, pong_message, http_message, parse_protocol_message,
}
use looplink.Client.{
  Client, Failure, Listeners, opening, running, messages_only, on_open, open_heard, on_error,
  error_heard, give_up, on_close, close_heard, left, dispose_socket, fail_waiter,
  schedule_reconnect, after_close, lost, socket_closed, disconnected,
}
use looplink.Client.Messages.{
  wait_for_message, wait_in, take_first, on_wait_timeout, deliver, deliver_parsed,
  handle_incoming_data, send, send_on, tunnel_answered,
}

-- The flags of the reconnection: what it takes to decide on one.
abbrev pub Flags : Type 0
Flags = Bool × Bool × Bool × Bool

abbrev pub flags : Client → Flags
flags c = (c.reconnect, c.intentional_close, c.reconnect_timer, c.reconnect_in_flight)

-- One reconnection at a time, none after an intentional close, and none where it is not asked for.
abbrev pub Calm : Flags → Type 0
Calm (reconnect, intentional, timer, in_flight) =
    ((timer && in_flight) ≡ false)
    × (intentional ≡ true → (timer || in_flight) ≡ false)
    × (reconnect ≡ false → (timer || in_flight) ≡ false)

flags-open :
    (c : Client) (socket : ℕ) (l : Option Listeners) → flags (open_heard c socket l) ≡ flags c
unfolding open_heard
flags-open c socket none = refl
flags-open c socket (some (opening leaving)) = refl
flags-open c socket (some (running leaving)) = refl
flags-open c socket (some (messages_only leaving)) = refl

pub flags-on_open : (c : Client) (socket : ℕ) → flags (on_open c socket) ≡ flags c
unfolding on_open
flags-on_open c socket = flags-open c socket (JsMap.get socket c.listeners)

flags-give_up :
    (c : Client) (socket : ℕ) (leaving : Bool) (failure : Failure)
    → flags (give_up c socket leaving failure) ≡ flags c
unfolding give_up dispose_socket
flags-give_up c socket leaving failure = refl

flags-error :
    (c : Client) (socket : ℕ) (message : Text) (l : Option Listeners)
    → flags (error_heard c socket message l) ≡ flags c
unfolding error_heard give_up dispose_socket
flags-error c socket message none = refl
flags-error c socket message (some (opening leaving)) = refl
flags-error c socket message (some (running leaving)) = refl
flags-error c socket message (some (messages_only leaving)) = refl

pub flags-on_error :
    (c : Client) (socket : ℕ) (message : Text) → flags (on_error c socket message) ≡ flags c
unfolding on_error
flags-on_error c socket message = flags-error c socket message (JsMap.get socket c.listeners)

pub flags-left : (c : Client) (leaving : Bool) → flags (left c leaving) ≡ flags c
unfolding left dispose_socket
flags-left c true = refl
flags-left c false = refl

pub flags-fail_waiter : (c : Client) (failure : Failure) → flags (fail_waiter c failure) ≡ flags c
unfolding fail_waiter
flags-fail_waiter c failure = ground arith

pub flags-on_wait_timeout : (c : Client) → flags (on_wait_timeout c) ≡ flags c
unfolding on_wait_timeout
flags-on_wait_timeout c = flags-fail_waiter c _

flags-deliver : (c : Client) (m : ProtocolMessage) → flags (deliver c m) ≡ flags c
unfolding deliver
flags-deliver c m = ground arith

flags-deliver_parsed :
    (c : Client) (p : Parsed ProtocolMessage) → flags (deliver_parsed c p) ≡ flags c
flags-deliver_parsed c (err e) = refl
flags-deliver_parsed c (ok m) = flags-deliver c m

pub flags-handle :
    (c : Client) (socket : ℕ) (value : Value)
    → flags (handle_incoming_data c socket value) ≡ flags c
unfolding handle_incoming_data
flags-handle c socket value = ground (arith, flags-deliver_parsed c (parse_protocol_message value))

flags-wait_in :
    (c : Client) (match : ProtocolMessage → Bool)
    (x : Option (ProtocolMessage × List ProtocolMessage))
    → flags (wait_in c match x).0 ≡ flags c
unfolding wait_in
flags-wait_in c match none = ground arith
flags-wait_in c match (some (m, rest)) = refl

pub flags-wait_for_message :
    (c : Client) (match : ProtocolMessage → Bool) → flags (wait_for_message c match).0 ≡ flags c
unfolding wait_for_message
flags-wait_for_message c match = flags-wait_in c match (take_first match c.inbox)

pub flags-send :
    (is_open : ℕ → Bool) (c : Client) (m : ProtocolMessage) → flags (send is_open c m).0 ≡ flags c
unfolding send
flags-send is_open c m = go c.socket
  where
    go : (s : Option ℕ) → flags (send_on is_open c s m).0 ≡ flags c
    go none = unfold send_on in refl
    go (some s) = unfold send_on in ground arith

pub flags-tunnel_answered :
    (c : Client) (port : ℕ) (m : ProtocolMessage) → flags (tunnel_answered c port m).0 ≡ flags c
unfolding tunnel_answered
flags-tunnel_answered c port (tunnel_created_message id tunnel_id public_url) = refl
flags-tunnel_answered c port (error_message code message id) = refl
flags-tunnel_answered c port (connected_message id) = refl
flags-tunnel_answered c port (create_tunnel_message id p t) = refl
flags-tunnel_answered c port (ping_message id) = refl
flags-tunnel_answered c port (pong_message id) = refl
flags-tunnel_answered c port (http_message m) = refl

-- A loss of the running connection that was not meant is followed by a reconnection.
abbrev pub after_loss : Flags → Flags
after_loss (reconnect, intentional, timer, in_flight) =
    (reconnect, intentional, timer || (reconnect && (not intentional && not in_flight)), in_flight)

pub flags-schedule :
    (c : Client) (failure : Failure) → flags (schedule_reconnect c failure) ≡ after_loss (flags c)
unfolding schedule_reconnect
flags-schedule c failure = ground arith

flags-after_close :
    (c : Client) (intentional : Bool)
    → (flags (after_close intentional c) ≡ flags c)
      ⊎ (flags (after_close intentional c) ≡ after_loss (flags c))
unfolding after_close
flags-after_close c true = inl refl
flags-after_close c false = inr (flags-schedule c lost)

pub flags-on_close :
    (c : Client) (socket code : ℕ) (reason : Text)
    → (flags (on_close c socket code reason) ≡ flags c)
      ⊎ (flags (on_close c socket code reason) ≡ after_loss (flags c))
unfolding on_close
flags-on_close c socket code reason = go (JsMap.get socket c.listeners)
  where
    after :
        (gone : Client)
        → flags gone ≡ flags c
        → (intentional leaving : Bool)
        → (flags (left (after_close intentional gone) leaving) ≡ flags c)
          ⊎ (flags (left (after_close intentional gone) leaving) ≡ after_loss (flags c))
    after gone same intentional leaving = elim (flags-after_close gone intentional) [
      | inl p ↦ inl (flags-left (after_close intentional gone) leaving ∙ p ∙ same)
      | inr p ↦ inr (flags-left (after_close intentional gone) leaving ∙ p ∙ ap after_loss same)
    ]

    go :
        (l : Option Listeners)
        → (flags (close_heard c socket code reason l) ≡ flags c)
          ⊎ (flags (close_heard c socket code reason l) ≡ after_loss (flags c))
    go none = unfold close_heard in inl refl
    go (some (opening leaving)) =
        unfold close_heard in
        inl (
          flags-left (give_up c socket leaving (socket_closed code reason)) leaving
          ∙ flags-give_up c socket leaving (socket_closed code reason))
    go (some (messages_only leaving)) = unfold close_heard in inl (flags-left c leaving)
    go (some (running leaving)) =
        let gone = record (dispose_socket (fail_waiter c (socket_closed code reason))) {
          state = disconnected;
        } in
        let same : flags gone ≡ flags c =
          unfold dispose_socket in flags-fail_waiter c (socket_closed code reason) in
        unfold close_heard in after gone same c.intentional_close leaving
