-- ===== src/Client/Delivery.antt =====
-- What arrives is forwarded, handed to who waits for it, kept for who will, or dropped.
use looplink.Base.{◌≡◌, refl, ap, Bool, true, false, some, List, [], ◌∷◌, ◌++◌, All}
use mathlib.Core.List.{append-nil}
use looplink.Protocol.{ProtocolMessage}
use looplink.Client.{Client}
use looplink.Client.Messages.{
  resolved, wait_for_message, wait_in, take_first, deliver, wanted, is_inbound_forwarding_message,
  is_pong,
}

-- The first match is found, and what stood before and after it stays in its order.
pub take_first-append :
    (match : ProtocolMessage → Bool) (before after : List ProtocolMessage) (m : ProtocolMessage)
    → All (λ x. match x ≡ false) before
    → match m ≡ true
    → take_first match (before ++ m ∷ after) ≡ some (m, before ++ after)
unfolding take_first
take_first-append match [] after m n h = rw h refl
take_first-append match (x ∷ before) after m (e, n) h =
    rw e (rw (take_first-append match before after m n h) refl)

-- A message of the control plane that is neither a pong nor wanted now is kept for the one who waits
-- for it later: where no kept message matches, the next wait that it matches resolves with it at
-- once, and the client is as it was before the message came.
pub deliver-wait_for_message :
    (c : Client) (m : ProtocolMessage) (match : ProtocolMessage → Bool)
    → is_inbound_forwarding_message m ≡ false
    → is_pong m ≡ false
    → wanted c.waiter m ≡ false
    → All (λ x. match x ≡ false) c.inbox
    → match m ≡ true
    → wait_for_message (deliver c m) match ≡ (c, resolved m)
unfolding deliver wait_for_message
deliver-wait_for_message c m match f p w n h = rw f (
    rw w (
      rw p (
        rw (take_first-append match c.inbox [] m n h) (
          unfold wait_in in
          ap (λ xs. (record c { inbox = xs }, resolved m)) (append-nil c.inbox)))))
