-- ===== src/OrderManagement/Answers.antt =====
-- What one response of the exchange does to the order it names
-- (src/adapters/OrderManagementAdapter.cpp).
use challenge_8a2ffd.Common.{
  ℕ, suc, ◌≡◌, refl, true, false, Option, none, some, length, if◌then◌else◌, if-cases, if-intro,
  ◌⊎◌, inc64, inl, inr,
}
use challenge_8a2ffd.Sharding.Hash.{Bytes}
use challenge_8a2ffd.Texts.{bytes, same_bytes}
use challenge_8a2ffd.Texts.Keyed.{
  find, assign, erase, IsDistinct, find-assign_self, find-assign_other, find-erase_self,
  find-erase_other, erase-assign, length-assign_old, length-erase,
}
use challenge_8a2ffd.Adapters.Document.{Document, Parser, string_value}
use challenge_8a2ffd.Adapters.Ring.{RingBuffer, publish_event}
use challenge_8a2ffd.OrderManagement.{
  Order, OrderEvent, BreakerManager, Adapter, filled, rejected, order_accepted, order_rejected,
  event_of, publish_order_event,
}
use challenge_8a2ffd.OrderManagement.Responses.{
  Response, is_acceptance, is_rejection, read_response, with_rejection, erased, reject, settle,
  process_exchange_response,
}

module _ {R M D : Type 0} ⦃ring : RingBuffer R (OrderEvent D)⦄ ⦃b : BreakerManager M⦄ where
  -- What a response that is answered leaves: its order is not pending any more and all others are,
  -- the count of its status has grown, its event is published, and a rejection is told to the
  -- breaker.
  pub record IsSettled (response : Response) (time : ℕ) (order : Order D) (a a' : Adapter R M D)
      : Type 0 where
    pub gone : find a'.pending_orders response.order_id ≡ none
    pub others :
        (key : Bytes)
        → same_bytes response.order_id key ≡ false
        → find a'.pending_orders key ≡ find a.pending_orders key
    pub removed : suc (length a'.pending_orders) ≡ length a.pending_orders
    pub accepted :
        a'.orders_accepted
        ≡ (if is_acceptance response.status then inc64 a.orders_accepted else a.orders_accepted)
    pub rejections : a'.orders_rejected ≡ (
        if is_acceptance response.status
        then a.orders_rejected
        else if is_rejection response.status
        then inc64 a.orders_rejected
        else a.orders_rejected)
    pub published : a'.order_ring_buffer ≡ (
        if is_acceptance response.status
        then publish_event a.order_ring_buffer (event_of order order_accepted time)
        else if is_rejection response.status
        then publish_event a.order_ring_buffer (event_of order order_rejected time)
        else a.order_ring_buffer)
    pub told : a'.circuit_breaker_manager ≡ (
        if is_acceptance response.status
        then a.circuit_breaker_manager
        else if is_rejection response.status
        then with_rejection response.instrument_id a.circuit_breaker_manager
        else a.circuit_breaker_manager)

  -- A rejection is counted, its order stays pending as a rejected one, and nothing is published or
  -- told.
  pub record IsStuck (response : Response) (order : Order D) (a a' : Adapter R M D) : Type 0 where
    pub stays : find a'.pending_orders response.order_id ≡ some (record order { status = rejected })
    pub others :
        (key : Bytes)
        → same_bytes response.order_id key ≡ false
        → find a'.pending_orders key ≡ find a.pending_orders key
    pub kept : length a'.pending_orders ≡ length a.pending_orders
    pub accepted : a'.orders_accepted ≡ a.orders_accepted
    pub rejections : a'.orders_rejected ≡ inc64 a.orders_rejected
    pub published : a'.order_ring_buffer ≡ a.order_ring_buffer
    pub told : a'.circuit_breaker_manager ≡ a.circuit_breaker_manager

  -- The outcome by the reason that is read, if it can be.
  abbrev pub Answered :
      Response → Option Bytes → ℕ → Order D → Adapter R M D → Adapter R M D → Type 0
  Answered response (some reason) time order a a' = IsSettled response time order a a'
  Answered response none time order a a' =
      if is_acceptance response.status
      then IsSettled response time order a a'
      else if is_rejection response.status
      then IsStuck response order a a'
      else IsSettled response time order a a'

  module _ (response : Response) (time : ℕ) (order : Order D) (a : Adapter R M D)
      (distinct : IsDistinct a.pending_orders)
      (e : find a.pending_orders response.order_id ≡ some order) where
    accept-IsSettled :
        is_acceptance response.status ≡ true
        → IsSettled response time order a (
            erased response.order_id (
              publish_order_event
                (record order { status = filled })
                order_accepted
                time
                (record a { orders_accepted = inc64 a.orders_accepted })))
    unfolding publish_order_event
    accept-IsSettled t = record {
      gone = find-erase_self a.pending_orders response.order_id distinct;
      others = find-erase_other a.pending_orders response.order_id;
      removed = length-erase a.pending_orders response.order_id e;
      accepted = rw t refl;
      rejections = rw t refl;
      published = rw t refl;
      told = rw t refl;
    }

    ignore-IsSettled :
        is_acceptance response.status ≡ false
        → is_rejection response.status ≡ false
        → IsSettled response time order a (erased response.order_id a)
    ignore-IsSettled other t = record {
      gone = find-erase_self a.pending_orders response.order_id distinct;
      others = find-erase_other a.pending_orders response.order_id;
      removed = length-erase a.pending_orders response.order_id e;
      accepted = rw other refl;
      rejections = rw (other, t) refl;
      published = rw (other, t) refl;
      told = rw (other, t) refl;
    }

    -- The order with its new status, and without it again.
    reject-erased :
        erase
          (assign a.pending_orders response.order_id (record order { status = rejected }))
          response.order_id
        ≡ erase a.pending_orders response.order_id
    reject-erased =
        erase-assign a.pending_orders response.order_id (record order { status = rejected }) e

    reject-Answered :
        (reason : Option Bytes)
        → is_acceptance response.status ≡ false
        → is_rejection response.status ≡ true
        → Answered response reason time order a (reject reason response time order a)
    unfolding reject publish_order_event
    reject-Answered none other t =
        let order' : Order D = record order { status = rejected } in
        simp (other, t)
          (record {
            stays = find-assign_self a.pending_orders response.order_id order';
            others = λ key. find-assign_other a.pending_orders response.order_id key order';
            kept = length-assign_old a.pending_orders response.order_id order' e;
            accepted = refl;
            rejections = refl;
            published = refl;
            told = refl;
          })
    reject-Answered (some reason) other t = record {
      gone = rw reject-erased (find-erase_self a.pending_orders response.order_id distinct);
      others = rw reject-erased (find-erase_other a.pending_orders response.order_id);
      removed = rw reject-erased (length-erase a.pending_orders response.order_id e);
      accepted = rw other refl;
      rejections = rw (other, t) refl;
      published = rw (other, t) refl;
      told = rw (other, t) refl;
    }

    Answered-intro :
        (reason : Option Bytes) (a' : Adapter R M D)
        → (is_acceptance response.status ≡ true) ⊎ (is_rejection response.status ≡ false)
        → IsSettled response time order a a'
        → Answered response reason time order a a'
    Answered-intro (some reason) a' c h = h
    Answered-intro none a' (inl t) h = simp t h
    Answered-intro none a' (inr t) h =
        if-intro (λ P. P) (is_acceptance response.status) h (simp t h)

    settle-Answered :
        (json : Document D)
        → Answered response
            (string_value json "reason" (bytes "unknown"))
            time
            order
            a
            (settle json response time order a)
    unfolding settle
    settle-Answered json =
        let reason : Option Bytes = string_value json "reason" (bytes "unknown") in
        if-cases (Answered response reason time order a) (is_acceptance response.status)
          (λ t. Answered-intro reason _ (inl t) (accept-IsSettled t))
          λ other.
            if-cases (Answered response reason time order a) (is_rejection response.status)
              (reject-Answered reason other)
              λ t. Answered-intro reason _ (inr t) (ignore-IsSettled other t)

  -- A response that can be read and that names a pending order takes exactly this order off the
  -- pending ones, counts it by its status, publishes its event, and tells the breaker of a rejection;
  -- an unknown status only takes the order off. Only if the status is "rejected" and the member
  -- "reason" is there and no text, the rejection is counted while the order stays pending, with the
  -- status of a rejected one, and nothing is published or told. No key is pending twice.
  pub process_exchange_response-Answered :
      (a : Adapter R M D) (parse : Parser D) (time : ℕ) (text : Bytes) {json : Document D}
      {response : Response} {order : Order D}
      → IsDistinct a.pending_orders
      → parse text ≡ some json
      → read_response json ≡ some response
      → find a.pending_orders response.order_id ≡ some order
      → Answered response
          (string_value json "reason" (bytes "unknown"))
          time
          order
          a
          (process_exchange_response parse time text a)
  unfolding process_exchange_response
  process_exchange_response-Answered a parse time text {json} {response} {order} distinct p q e =
      simp (p, q, e) (settle-Answered response time order a distinct e json)
