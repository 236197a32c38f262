-- ===== src/Client/Leaving.antt =====
-- A close that the program asks for while a connection is being made.
use looplink.Base.{ℕ, ◌≡◌, refl, true, false, Option, none, some, [], ◌∷◌, ◌++◌, arith}
use looplink.JsMap
use looplink.JsMap.{nat_key}
use looplink.JsMap.Laws.{get-set_self, get-delete_self}
use looplink.Text.{Text}
use looplink.Client.{
  Client, opening, messages_only, disconnecting, connecting, connected, open_socket, on_open,
  open_heard, on_error, error_heard, give_up, on_close, close_heard, disconnect, disconnect_from,
  dispose_socket, closing, connect_rejected, socket_error,
}

disconnect-intentional : (c : Client) → (disconnect c).intentional_close ≡ true
unfolding disconnect
disconnect-intentional c = go c.socket
  where
    asked : Client
    asked = record c {
      intentional_close = true;
      reconnect_timer = false;
      reconnect_in_flight = false;
    }

    go : (s : Option ℕ) → (disconnect_from asked s).intentional_close ≡ true
    go none = unfold disconnect_from in refl
    go (some s) = unfold disconnect_from in ground arith

-- Where the program closes a connection while its tokens are awaited, the connection is made all the
-- same: once the socket has opened, the client is connected, though it holds the close intentional.
pub late_open-connected :
    (c : Client) (socket : ℕ)
    → let c' = on_open (open_socket (disconnect c) socket) socket in
      (c'.state ≡ connected) × (c'.socket ≡ some socket) × (c'.intentional_close ≡ true)
unfolding on_open open_socket
late_open-connected c socket =
    rw (get-set_self socket (opening false) (disconnect c).listeners)
      (unfold open_heard in (refl, refl, disconnect-intentional c))

module _ (c : Client) (socket : ℕ) (message : Text) (at : c.socket ≡ some socket)
    (s : c.state ≡ connecting) (p : JsMap.get socket c.listeners ≡ some (opening false)) where
  abbrev asked : Client
  asked = record c {
    intentional_close = true;
    reconnect_timer = false;
    reconnect_in_flight = false;
    state = disconnecting;
    listeners = JsMap.set socket (opening true) c.listeners;
    effects = c.effects ++ closing socket ∷ [];
  }

  disconnect-asked : disconnect c ≡ asked
  disconnect-asked = unfold disconnect in rw at (unfold disconnect_from in rw s (rw p refl))

  abbrev given_up : Client
  given_up = give_up asked socket true (socket_error message)

  on_error-given_up : on_error (disconnect c) socket message ≡ given_up
  on_error-given_up = rw disconnect-asked (
      unfold on_error in
      rw (get-set_self socket (opening true) c.listeners) (unfold error_heard in refl))

  -- Where the program closes a connection whose socket has not opened yet and the socket reports an
  -- error next, the promise of `disconnect` is not settled by the error, which rejects the attempt to
  -- connect and takes every listener of the socket away, nor by the close that follows, with whatever
  -- code and reason: it is not heard.
  pub disconnect_unsettled :
      let c' = on_error (disconnect c) socket message in
      (c'.effects
        ≡ (c.effects ++ closing socket ∷ []) ++ connect_rejected (socket_error message) ∷ [])
      × ((code : ℕ) (reason : Text) → on_close c' socket code reason ≡ c')
  disconnect_unsettled = rw on_error-given_up (
    unfold give_up in refl,
    λ code reason. unfold on_close in rw unheard_socket (unfold close_heard in refl),
  )
    where
      unheard_socket : JsMap.get socket given_up.listeners ≡ none
      unheard_socket =
          unfold give_up dispose_socket in
          rw at (
            get-delete_self socket
              (JsMap.set socket (messages_only true) (JsMap.set socket (opening true) c.listeners)))
