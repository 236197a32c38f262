-- ===== src/Gateway/Errors.antt =====
-- What an error that a socket sends does to the exchange that it names.
use looplink.Base.{ℕ, ◌≡◌, refl, Bool, true, false, none, some, arith}
use looplink.JsMap
use looplink.JsMap.{nat_key}
use looplink.JsMap.Laws.{get-delete_self, get-set_self}
use looplink.Text.{Text, text_key}
use looplink.Frames.{Value, ok}
use looplink.Protocol.{error_message, parse_protocol_message}
use looplink.Security.Policy
use looplink.Exchanges.{
  Coordinator, deliver, handle_pending, handle_found, handle_at, put_back, error,
}
use looplink.Exchanges.Entry.{InternalPending, Failure, fail_exchange, reported}
use looplink.Exchanges.Table.{IsValid}
use looplink.Gateway.{
  Gateway, Env, limited, handle_parsed, handle_client_message, dispatch,
  is_http_data_plane_from_client,
}
use looplink.Gateway.Events.{World}

-- The request is no longer pending, and its exchange has failed with the text.
abbrev pub Failed : Coordinator → Text → ℕ → Failure → Type 0
Failed c id handle message =
    (JsMap.get id c.pending ≡ none)
    × (e : InternalPending) × (JsMap.get handle c.entries ≡ some e)
    × (e.failed ≡ some message)

fail_exchange_running :
    (e : InternalPending) (message : Failure)
    → e.failed ≡ none
    → ((fail_exchange e message).0.failed ≡ some message)
      × ((fail_exchange e message).1 ≡ true)
      × ((fail_exchange e message).0.request_id ≡ e.request_id)
unfolding fail_exchange
fail_exchange_running e message h = rw h (refl, refl, refl)

deliver-Failed :
    (w : World) (c : Coordinator) (id message : Text) (handle : ℕ)
    → IsValid c
    → JsMap.get id c.pending ≡ some handle
    → Failed (deliver w.decode c (error (some id) message)).0 id handle (reported message)
unfolding deliver handle_pending handle_found handle_at put_back
deliver-Failed w c id message handle v p =
    let (e, q, r, live) = v.live id handle p in
    let valid = v.entry_valid handle e q in
    let running : e.failed ≡ none = ground (arith, valid.failing) in
    let (a, b, d) = fail_exchange_running e (reported message) running in
    rw p (
      rw q (
        (rw b (rw d (rw r (get-delete_self id c.pending)))),
        (fail_exchange e (reported message)).0,
        get-set_self handle (fail_exchange e (reported message)).0 c.entries,
        a,
      ))

-- Where the table of exchanges is in order, an error that any socket sends within its message rate
-- and that names a pending request ends the request's exchange with the text of the error, whoever
-- the socket is: it need not be the client of the tunnel, nor have a tunnel.
pub error_message-Failed :
    (w : World) (g : Gateway) (env : Env) (client : ℕ) (value : Value) (code message id : Text)
    (handle : ℕ)
    → IsValid g.http_exchanges
    → parse_protocol_message value ≡ ok (error_message code message (some id))
    → (Policy.allow_message g.security env.now client).1 ≡ true
    → JsMap.get id g.http_exchanges.pending ≡ some handle
    → Failed
        (handle_client_message w.is_open w.decode w.mint g env client value).http_exchanges
        id
        handle
        (reported message)
unfolding handle_client_message
error_message-Failed w g env client value code message id handle v said allowed p = rw said (
    unfold handle_parsed is_http_data_plane_from_client in
    go (Policy.allow_message g.security env.now client) allowed)
  where
    dispatched : Gateway → Gateway
    dispatched g' =
        dispatch w.is_open w.decode w.mint g' env client (error_message code message (some id))

    go :
        (x : Policy.Policy × Bool)
        → x.1 ≡ true
        → Failed
            (limited w.is_open g client x dispatched).http_exchanges
            id
            handle
            (reported message)
    go (security, true) e =
        unfold limited dispatch in deliver-Failed w g.http_exchanges id message handle v p
    go (security, false) e = absurd (cc)
