-- ===== src/OrderManagement/Settlement.antt =====
-- Pending orders and the counts of orders over whole runs of the adapter
-- (src/adapters/OrderManagementAdapter.cpp).
use mathlib.Core.Path.{subst}
use challenge_8a2ffd.Common.{
  ℕ, ◌+◌, ◌^◌, ◌≤◌, ◌<◌, ◌≡◌, refl, sym, Option, none, some, ◌++◌, arith, length, if-cases,
  if-intro, All,
}
use challenge_8a2ffd.Sharding.Hash.{Bytes}
use challenge_8a2ffd.Texts.{bytes}
use challenge_8a2ffd.Texts.Keyed.{
  find, assign, find-assign_self, length-assign_old, length-erase, All-assign, All-erase, All-find,
}
use challenge_8a2ffd.Adapters.Framing.{receive, process_buffer-preserves}
use challenge_8a2ffd.Adapters.Document.{Document, Parser, string_value}
use challenge_8a2ffd.Adapters.Ring.{RingBuffer}
use challenge_8a2ffd.OrderManagement.{
  Order, OrderEvent, BreakerManager, Adapter, rejected, max_pending_orders, publish_order_event,
}
use challenge_8a2ffd.OrderManagement.Responses.{
  Activity, idle, closed_by_exchange, arrived, Response, is_acceptance, is_rejection, read_response,
  reject, settle, settle_known, settle_read, settle_parsed, process_exchange_response,
  handle_activity, handle_response_round,
}
use challenge_8a2ffd.OrderManagement.Identifiers.{number_of}

module _ {R M D : Type 0} ⦃ring : RingBuffer R (OrderEvent D)⦄ ⦃b : BreakerManager M⦄ where
  -- The orders that are settled or pending are among those sent, and ids are not used twice.
  pub record IsAccounted (n : ℕ) (a : Adapter R M D) : Type 0 where
    pub room : length a.pending_orders ≤ max_pending_orders
    pub covered : a.orders_accepted + length a.pending_orders ≤ a.orders_sent
    pub bounded : a.orders_sent ≤ n
    pub numbered : a.last_order_id ≤ n
    pub used : All (λ e. number_of e.0 < a.last_order_id) a.pending_orders

  IsAccounted-publish :
      {n : ℕ} {a : Adapter R M D} (order : Order D) (t : _) (time : ℕ)
      → IsAccounted n a
      → IsAccounted n (publish_order_event order t time a)
  unfolding publish_order_event
  IsAccounted-publish order t time h = record {
    room = h.room;
    covered = h.covered;
    bounded = h.bounded;
    numbered = h.numbered;
    used = h.used;
  }

  -- A new value at a key that is there.
  assign-used :
      (n : ℕ) (a : Adapter R M D) (key : Bytes) (order order' : Order D)
      → find a.pending_orders key ≡ some order
      → IsAccounted n a
      → All (λ e. number_of e.0 < a.last_order_id) (assign a.pending_orders key order')
  assign-used n a key order order' e h =
      let found = All-find (λ k. number_of k < a.last_order_id) a.pending_orders key h.used e in
      All-assign (λ e. number_of e.0 < a.last_order_id) a.pending_orders key order'
        (λ k same. subst (λ k. number_of k < a.last_order_id) (sym same) found) h.used

  reject-IsAccounted :
      (n : ℕ) (a : Adapter R M D) (reason : Option Bytes) (response : Response) (time : ℕ)
      (order : Order D)
      → find a.pending_orders response.order_id ≡ some order
      → IsAccounted n a
      → IsAccounted n (reject reason response time order a)
  unfolding reject publish_order_event
  reject-IsAccounted n a none response time order e h =
      let size =
        length-assign_old a.pending_orders response.order_id (record order { status = rejected })
          e in
      record {
        room = ground (arith, h);
        covered = ground (arith, h);
        bounded = h.bounded;
        numbered = h.numbered;
        used = assign-used n a response.order_id order (record order { status = rejected }) e h;
      }
  reject-IsAccounted n a (some reason) response time order e h =
      let order' : Order D = record order { status = rejected } in
      let size = length-assign_old a.pending_orders response.order_id order' e in
      let all = assign-used n a response.order_id order order' e h in
      let left =
        length-erase (assign a.pending_orders response.order_id order') response.order_id
          (find-assign_self a.pending_orders response.order_id order') in
      record {
        room = omega (arith, h.room);
        covered = omega (arith, h.covered);
        bounded = h.bounded;
        numbered = h.numbered;
        used =
            All-erase (λ e. number_of e.0 < a.last_order_id)
              (assign a.pending_orders response.order_id order') response.order_id all;
      }

  settle-IsAccounted :
      (n : ℕ) (a : Adapter R M D) (json : Document D) (response : Response) (time : ℕ)
      (order : Order D)
      → n < 2 ^ 64
      → find a.pending_orders response.order_id ≡ some order
      → IsAccounted n a
      → IsAccounted n (settle json response time order a)
  unfolding settle publish_order_event
  settle-IsAccounted n a json response time order small e h =
      let size = length-erase a.pending_orders response.order_id e in
      let left =
        All-erase (λ e. number_of e.0 < a.last_order_id) a.pending_orders response.order_id
          h.used in
      if-cases (IsAccounted n) (is_acceptance response.status)
        (λ accepted. record {
          room = omega (arith, h.room);
          covered = omega (arith, h.covered, h.bounded);
          bounded = h.bounded;
          numbered = h.numbered;
          used = left;
        })
        λ _.
          if-cases (IsAccounted n) (is_rejection response.status)
            (λ _.
              reject-IsAccounted n a (string_value json "reason" (bytes "unknown")) response time
                order e h)
            λ _. record {
              room = omega (arith, h.room);
              covered = omega (arith, h.covered);
              bounded = h.bounded;
              numbered = h.numbered;
              used = left;
            }

  settle_known-IsAccounted :
      (n : ℕ) (a : Adapter R M D) (json : Document D) (response : Response) (time : ℕ)
      (found : Option (Order D))
      → n < 2 ^ 64
      → find a.pending_orders response.order_id ≡ found
      → IsAccounted n a
      → IsAccounted n (settle_known json response time found a)
  settle_known-IsAccounted n a json response time none small e h = h
  settle_known-IsAccounted n a json response time (some order) small e h =
      settle-IsAccounted n a json response time order small e h

  process_exchange_response-IsAccounted :
      (n : ℕ) (parse : Parser D) (time : ℕ) (text : Bytes) (a : Adapter R M D)
      → n < 2 ^ 64
      → IsAccounted n a
      → IsAccounted n (process_exchange_response parse time text a)
  unfolding process_exchange_response
  process_exchange_response-IsAccounted n parse time text a small h = parsed (parse text)
    where
      is_read :
          (json : Document D) (read : Option Response)
          → IsAccounted n (settle_read json read time a)
      is_read json none = h
      is_read json (some response) =
          settle_known-IsAccounted n a json response time (find a.pending_orders response.order_id)
            small refl h

      parsed : (json : Option (Document D)) → IsAccounted n (settle_parsed json time a)
      parsed none = h
      parsed (some json) = is_read json (read_response json)

  pub handle_response_round-IsAccounted :
      (n : ℕ) (parse : Parser D) (time : ℕ) (activity : Activity) (a : Adapter R M D)
      → n < 2 ^ 64
      → IsAccounted n a
      → IsAccounted n (handle_response_round parse time activity a)
  unfolding handle_response_round receive
  handle_response_round-IsAccounted n parse time activity a small h =
      if-intro (IsAccounted n) a.running (heard activity) h
    where
      heard : (activity : Activity) → IsAccounted n (handle_activity parse time activity a)
      heard idle = h
      heard closed_by_exchange = h
      heard (arrived chunk) =
          let kept =
            process_buffer-preserves (process_exchange_response parse time) (IsAccounted n)
              (λ m a. process_exchange_response-IsAccounted n parse time m a small)
              (a.response_buffer ++ chunk) a h in
          record {
            room = kept.room;
            covered = kept.covered;
            bounded = kept.bounded;
            numbered = kept.numbered;
            used = kept.used;
          }
