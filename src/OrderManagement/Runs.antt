-- ===== src/OrderManagement/Runs.antt =====
-- Whole runs of the adapter: the bound on pending orders and the accounts of those sent
-- (src/adapters/OrderManagementAdapter.cpp).
use mathlib.Core.Path.{subst}
use challenge_8a2ffd.Common.{
  ℕ, suc, ◌+◌, ◌^◌, ◌≤◌, ◌<◌, ◌≡◌, sym, ◌⊎◌, inl, inr, Bool, true, false, String, Option, none,
  some, List, [], arith, length, if-intro, inc64, All,
}
use challenge_8a2ffd.Common.Int.{ℤ}
use challenge_8a2ffd.Sharding.Hash.{Bytes}
use challenge_8a2ffd.Texts.Keyed.{length-assign_new, All-assign}
use challenge_8a2ffd.Adapters.Address.{parse_exchange_url}
use challenge_8a2ffd.Adapters.Connection.{Network, is_open, closed, dial}
use challenge_8a2ffd.Adapters.Document.{Parser, Value}
use challenge_8a2ffd.Adapters.Ring.{RingBuffer}
use challenge_8a2ffd.OrderManagement.{
  Order, OrderEvent, BreakerManager, Adapter, OrderResult, Times, ExchangeConfig, order_key,
  publish_order_event, submit_order, start, stop, constructed, connect, disconnect, finish_start,
  initialize_circuit_breakers,
}
use challenge_8a2ffd.OrderManagement.Responses.{Activity, handle_response_round}
use challenge_8a2ffd.OrderManagement.Settlement.{IsAccounted, handle_response_round-IsAccounted}
use challenge_8a2ffd.OrderManagement.Identifiers.{
  number_of, number_of-order_key, used_later, find-fresh,
}
use challenge_8a2ffd.OrderManagement.Submission.{
  Submitted, turned_away, went_out, submit_order-Submitted, with_id,
}

module _ {R M D : Type 0} ⦃ring : RingBuffer R (OrderEvent D)⦄ ⦃b : BreakerManager M⦄ where
  -- One call, or one turn of the thread that reads responses.
  pub data Step : Adapter R M D → Adapter R M D → Type 0 where
    submits :
        {a : Adapter R M D} (dump : List (String × Value D) → Bytes) (send : Bytes → ℤ)
        (times : Times) (order : Order D)
        → Step a (submit_order dump send times order a).0
    hears :
        {a : Adapter R M D} (parse : Parser D) (time : ℕ) (activity : Activity)
        → Step a (handle_response_round parse time activity a)
    starts : {a : Adapter R M D} (network : Network) → Step a (start network a)
    stops : {a : Adapter R M D} → Step a (stop a)

  -- The adapters that `n` steps lead to.
  pub data Reaches : ℕ → Adapter R M D → Type 0 where
    created :
        (ring_buffer : Option R) (manager : Option M) (config : ExchangeConfig) (socket : ℤ)
        → Reaches 0 (constructed ring_buffer manager config socket)
    steps : {n : ℕ} {a a' : Adapter R M D} → Reaches n a → Step a a' → Reaches (suc n) a'

  submit_order-IsAccounted :
      (n : ℕ) (a : Adapter R M D) (dump : List (String × Value D) → Bytes) (send : Bytes → ℤ)
      (times : Times) (order : Order D)
      → suc n < 2 ^ 64
      → IsAccounted n a
      → IsAccounted (suc n) (submit_order dump send times order a).0
  unfolding publish_order_event
  submit_order-IsAccounted n a dump send times order small h =
      submitted (submit_order-Submitted dump send times order a)
    where
      later : All (λ e. number_of e.0 < inc64 a.last_order_id) a.pending_orders
      later = used_later a.last_order_id a.pending_orders (omega (arith, h.numbered)) h.used

      below :
          (counter : ℕ)
          → (counter ≡ a.last_order_id) ⊎ (counter ≡ inc64 a.last_order_id)
          → All (λ e. number_of e.0 < counter) a.pending_orders
      below counter (inl e) =
          subst (λ c. All (λ e. number_of e.0 < c) a.pending_orders) (sym e) h.used
      below counter (inr e) =
          subst (λ c. All (λ e. number_of e.0 < c) a.pending_orders) (sym e) later

      submitted :
          {result : Adapter R M D × Option OrderResult}
          → Submitted dump send times order a result
          → IsAccounted (suc n) result.0
      submitted (turned_away counter error refused same) = record {
        room = h.room;
        covered = h.covered;
        bounded = omega (arith, h.bounded);
        numbered = ground (arith, h.numbered);
        used = below counter same;
      }
      submitted (went_out admitted) =
          let id : a.last_order_id < 2 ^ 64 = omega (arith, h.numbered) in
          let key : Bytes = order_key times.generated_at a.last_order_id in
          let order' : Order D = with_id times a.last_order_id order in
          let size =
            length-assign_new a.pending_orders key order'
              (find-fresh times.generated_at a.last_order_id a.pending_orders id h.used) in
          let number = number_of-order_key times.generated_at a.last_order_id id in
          record {
            room = omega (arith, admitted.has_room);
            covered = omega (arith, h.covered, h.bounded);
            bounded = omega (arith, h.bounded);
            numbered = omega (arith, h.numbered);
            used =
                All-assign (λ e. number_of e.0 < inc64 a.last_order_id) a.pending_orders key order'
                  (λ k same.
                    subst (λ k. number_of k < inc64 a.last_order_id) (sym same)
                      (omega (arith, h.numbered)))
                  later;
          }

  -- What the connection changes is not counted.
  pub IsAccounted-same :
      {n : ℕ} (a : Adapter R M D) (running : Bool) (socket : ℤ) (buffer : Bytes)
      → IsAccounted n a
      → IsAccounted n
          (record a { running = running; exchange_socket = socket; response_buffer = buffer })
  IsAccounted-same a running socket buffer h = record {
    room = h.room;
    covered = h.covered;
    bounded = h.bounded;
    numbered = h.numbered;
    used = h.used;
  }

  disconnect-IsAccounted :
      {n : ℕ} (a : Adapter R M D) → IsAccounted n a → IsAccounted n (disconnect a)
  unfolding disconnect
  disconnect-IsAccounted {n} a h =
      if-intro (IsAccounted n) (is_open a.exchange_socket)
        (IsAccounted-same a a.running closed a.response_buffer h) h

  stop-IsAccounted : {n : ℕ} (a : Adapter R M D) → IsAccounted n a → IsAccounted n (stop a)
  unfolding stop
  stop-IsAccounted {n} a h =
      if-intro (IsAccounted n) a.running
        (disconnect-IsAccounted (record a { running = false })
          (IsAccounted-same a false a.exchange_socket a.response_buffer h))
        h

  connect-IsAccounted :
      {n : ℕ} (network : Network) (a : Adapter R M D)
      → IsAccounted n a
      → IsAccounted n (connect network a).0
  unfolding connect
  connect-IsAccounted {n} network a h =
      if-intro {A = Adapter R M D × Bool} (λ outcome. IsAccounted n outcome.0)
        (is_open a.exchange_socket) h
        (IsAccounted-same a a.running (dial network (parse_exchange_url a.config.exchange_url))
          a.response_buffer h)

  start-IsAccounted :
      {n : ℕ} (network : Network) (a : Adapter R M D)
      → IsAccounted n a
      → IsAccounted n (start network a)
  unfolding start
  start-IsAccounted {n} network a h =
      if-intro (IsAccounted n) a.running h
        (finished (connect network (record a { running = true })) connected)
    where
      connected : IsAccounted n (connect network (record a { running = true })).0
      connected =
          connect-IsAccounted network (record a { running = true })
            (IsAccounted-same a true a.exchange_socket a.response_buffer h)

      finished :
          (outcome : Adapter R M D × Bool)
          → IsAccounted n outcome.0
          → IsAccounted n (finish_start outcome)
      finished (a', true) h' = IsAccounted-same a' a'.running a'.exchange_socket [] h'
      finished (a', false) h' = IsAccounted-same a' false a'.exchange_socket a'.response_buffer h'

  weaken : {n : ℕ} {a : Adapter R M D} → IsAccounted n a → IsAccounted (suc n) a
  weaken h = record {
    room = h.room;
    covered = h.covered;
    bounded = omega (arith, h.bounded);
    numbered = omega (arith, h.numbered);
    used = h.used;
  }

  Step-IsAccounted :
      {n : ℕ} {a a' : Adapter R M D}
      → suc n < 2 ^ 64
      → IsAccounted n a
      → Step a a'
      → IsAccounted (suc n) a'
  Step-IsAccounted {n} small h (submits {a} dump send times order) =
      submit_order-IsAccounted n a dump send times order small h
  Step-IsAccounted {n} small h (hears {a} parse time activity) =
      weaken (handle_response_round-IsAccounted n parse time activity a (omega arith) h)
  Step-IsAccounted small h (starts {a} network) = weaken (start-IsAccounted network a h)
  Step-IsAccounted small h (stops {a}) = weaken (stop-IsAccounted a h)

  Reaches-IsAccounted : {n : ℕ} {a : Adapter R M D} → Reaches n a → n < 2 ^ 64 → IsAccounted n a
  unfolding constructed initialize_circuit_breakers
  Reaches-IsAccounted (created ring_buffer none config socket) small = record {
    room = omega arith;
    covered = omega arith;
    bounded = omega arith;
    numbered = omega arith;
    used = tt;
  }
  Reaches-IsAccounted (created ring_buffer (some manager) config socket) small = record {
    room = omega arith;
    covered = omega arith;
    bounded = omega arith;
    numbered = omega arith;
    used = tt;
  }
  Reaches-IsAccounted (steps r s) small =
      Step-IsAccounted small (Reaches-IsAccounted r (omega arith)) s

  -- In every run of fewer than 2 ^ 64 steps no more than 10000 orders are ever pending, and the
  -- accepted orders together with the pending ones are never more than the orders sent, whatever the
  -- exchange answers.
  pub Reaches-accounts :
      {n : ℕ} {a : Adapter R M D}
      → Reaches n a
      → n < 2 ^ 64
      → (length a.pending_orders ≤ 10000)
        × (a.orders_accepted + length a.pending_orders ≤ a.orders_sent)
  Reaches-accounts r small = let h = Reaches-IsAccounted r small in (h.room, h.covered)
