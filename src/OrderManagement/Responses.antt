-- ===== src/OrderManagement/Responses.antt =====
-- The exchange's responses: `handleResponses`, `processResponseBuffer` and
-- `processExchangeResponse` (src/adapters/OrderManagementAdapter.cpp).
use challenge_8a2ffd.Common.{ℕ, Bool, ◌||◌, Option, none, some, [], if◌then◌else◌, inc64}
use challenge_8a2ffd.Common.Json.{◌>>=◌}
use challenge_8a2ffd.Sharding.Hash.{Bytes}
use challenge_8a2ffd.Texts.{bytes, same_bytes}
use challenge_8a2ffd.Texts.Keyed.{find, assign, erase}
use challenge_8a2ffd.Adapters.Document.{Document, Parser, string_value}
use challenge_8a2ffd.Adapters.Framing.{receive}
use challenge_8a2ffd.Adapters.Ring.{RingBuffer}
use challenge_8a2ffd.OrderManagement.{
  Order, OrderEvent, filled, rejected, order_accepted, order_rejected, BreakerManager, Adapter,
  publish_order_event,
}

-- The members of a response that are read first.
pub record Response : Type 0 where
  pub order_id : Bytes
  pub status : Bytes
  pub instrument_id : Bytes

unfoldable pub read_response : {D : Type 0} → Document D → Option Response
read_response json = do
  order_id ← string_value json "order_id" []
  status ← string_value json "status" []
  instrument_id ← string_value json "instrument_id" []
  some (record { order_id = order_id; status = status; instrument_id = instrument_id })

abbrev pub is_acceptance : Bytes → Bool
is_acceptance status = same_bytes status (bytes "accepted") || same_bytes status (bytes "filled")

abbrev pub is_rejection : Bytes → Bool
is_rejection status = same_bytes status (bytes "rejected")

-- What one turn of the loop gets from `select` and `recv`.
pub data Activity : Type 0 where
  idle closed_by_exchange : Activity
  arrived : Bytes → Activity

abbrev pub with_rejection : {M : Type 0} ⦃b : BreakerManager M⦄ → Bytes → Option M → Option M
with_rejection ⦃b⦄ instrument none = none
with_rejection ⦃b⦄ instrument (some manager) = some (b.record_rejection manager instrument)

module _ {R M D : Type 0} ⦃ring : RingBuffer R (OrderEvent D)⦄ ⦃b : BreakerManager M⦄ where
  abbrev pub erased : Bytes → Adapter R M D → Adapter R M D
  erased key a = record a { pending_orders = erase a.pending_orders key }

  -- A rejection is written to the order before its reason is read, which can throw.
  unfoldable pub reject : Option Bytes → Response → ℕ → Order D → Adapter R M D → Adapter R M D
  reject reason response time order a =
      let order' = record order { status = rejected } in
      let a' = record a {
        orders_rejected = inc64 a.orders_rejected;
        pending_orders = assign a.pending_orders response.order_id order';
      } in
      elim reason [
        | none ↦ a'
        | some reason ↦
            let a'' = publish_order_event order' order_rejected time a' in
            erased response.order_id (record a'' {
              circuit_breaker_manager =
                  with_rejection response.instrument_id a''.circuit_breaker_manager;
            })
      ]

  unfoldable pub settle : Document D → Response → ℕ → Order D → Adapter R M D → Adapter R M D
  settle json response time order a =
      if is_acceptance response.status
      then erased response.order_id (
          publish_order_event (record order { status = filled }) order_accepted time
            (record a { orders_accepted = inc64 a.orders_accepted }))
      else if is_rejection response.status
      then reject (string_value json "reason" (bytes "unknown")) response time order a
      else erased response.order_id a

  -- A response to an order that is not pending is ignored.
  abbrev pub settle_known :
      Document D → Response → ℕ → Option (Order D) → Adapter R M D → Adapter R M D
  settle_known json response time none a = a
  settle_known json response time (some order) a = settle json response time order a

  abbrev pub settle_read : Document D → Option Response → ℕ → Adapter R M D → Adapter R M D
  settle_read json none time a = a
  settle_read json (some response) time a =
      settle_known json response time (find a.pending_orders response.order_id) a

  abbrev pub settle_parsed : Option (Document D) → ℕ → Adapter R M D → Adapter R M D
  settle_parsed none time a = a
  settle_parsed (some json) time a = settle_read json (read_response json) time a

  unfoldable pub process_exchange_response : Parser D → ℕ → Bytes → Adapter R M D → Adapter R M D
  process_exchange_response parse time text a = settle_parsed (parse text) time a

  -- The responses of one turn share a reading of the clock; the source reads it for each event.
  abbrev pub handle_activity : Parser D → ℕ → Activity → Adapter R M D → Adapter R M D
  handle_activity parse time idle a = a
  handle_activity parse time closed_by_exchange a = a
  handle_activity parse time (arrived chunk) a =
      let (rest, a') =
        receive (process_exchange_response parse time) chunk (a.response_buffer, a) in
      record a' { response_buffer = rest }

  -- One turn of `handleResponses`.
  unfoldable pub handle_response_round : Parser D → ℕ → Activity → Adapter R M D → Adapter R M D
  handle_response_round parse time activity a =
      if a.running then handle_activity parse time activity a else a
