-- ===== src/Exchanges/Frames.antt =====
-- A frame that arrives leaves the coordinator in order, whatever it is.
use looplink.Base.{none, some}
use looplink.JsMap.{nat_key}
use looplink.Forwarding.{
  BodyEncoding, request_start, request_chunk, request_end, response_start, response_chunk,
  response_end, cancel,
}
use looplink.Text.{Text, text_key}
use looplink.Exchanges.{Coordinator, Message, error, frame, cancel_reason, deliver}
use looplink.Exchanges.Entry.{
  Bytes, reported, fail_exchange, on_response_start, on_response_chunk, on_response_end, on_cancel,
}
use looplink.Exchanges.Entry.Bounds.{
  fail_exchange-Handled, on_response_start-Handled, on_response_chunk-Handled,
  on_response_end-Handled,
}
use looplink.Exchanges.Table.{IsValid, handle_pending-IsValid}

module _ (decode : BodyEncoding → Text → Bytes) (c : Coordinator) (v : IsValid c) where
  pub deliver-IsValid : (m : Message) → IsValid (deliver decode c m).0
  unfolding deliver on_cancel
  deliver-IsValid (error none message) = v
  deliver-IsValid (error (some id) message) =
      handle_pending-IsValid c v id (λ e. fail_exchange e (reported message))
        (λ e w. fail_exchange-Handled c.max_buffer_bytes e w (reported message))
  deliver-IsValid (frame (response_start m head)) =
      handle_pending-IsValid c v m.request_id (λ e. on_response_start e head)
        (λ e w. on_response_start-Handled c.max_buffer_bytes e w head)
  deliver-IsValid (frame (response_chunk m chunk)) =
      handle_pending-IsValid c v m.request_id
        (λ e. on_response_chunk c.max_buffer_bytes e (decode chunk.encoding chunk.content))
        (λ e w.
          on_response_chunk-Handled c.max_buffer_bytes e w (decode chunk.encoding chunk.content))
  deliver-IsValid (frame (response_end m)) =
      handle_pending-IsValid c v m.request_id on_response_end
        (λ e w. on_response_end-Handled c.max_buffer_bytes e w)
  deliver-IsValid (frame (cancel m reason)) =
      handle_pending-IsValid c v m.request_id (λ e. on_cancel e (cancel_reason reason))
        (λ e w. fail_exchange-Handled c.max_buffer_bytes e w (cancel_reason reason))
  deliver-IsValid (frame (request_start m head)) = v
  deliver-IsValid (frame (request_chunk m chunk)) = v
  deliver-IsValid (frame (request_end m)) = v
