-- ===== src/OrderManagement/Submission.antt =====
-- What `submitOrder` does on each of its branches (src/adapters/OrderManagementAdapter.cpp).
use challenge_8a2ffd.Common.{
  ℕ, ◌<◌, ◌≡◌, refl, ◌⊎◌, inl, inr, Bool, true, false, not, String, Option, some, List, [], ◌∷◌,
  ◌++◌, arith, length, leb, if-cases, inc64,
}
use challenge_8a2ffd.Common.Int.{ℤ}
use challenge_8a2ffd.Common.Json.{◌>>=◌}
use challenge_8a2ffd.Sharding.Hash.{Bytes}
use challenge_8a2ffd.Texts.Keyed.{find, assign}
use challenge_8a2ffd.Texts.Numbers.{stoull}
use challenge_8a2ffd.Adapters.Connection.{is_open}
use challenge_8a2ffd.Adapters.Document.{Value}
use challenge_8a2ffd.Adapters.Ring.{RingBuffer}
use challenge_8a2ffd.OrderManagement.{
  Order, OrderEvent, BreakerManager, Adapter, OrderResult, Times, max_pending_orders,
  order_submitted, order_key, serialize_order, publish_order_event, is_blocked, refused,
  submit_order,
}

not-false : {b : Bool} → not b ≡ false → b ≡ true
not-false {b = true} h = refl
not-false {b = false} h = absurd cc

contradiction : {b : Bool} → not b ≡ true → b ≡ true → ⊥
contradiction {b = true} h e = absurd cc
contradiction {b = false} h e = absurd cc

differ : {b : Bool} → b ≡ true → b ≡ false → ⊥
differ {b = true} h e = absurd cc
differ {b = false} h e = absurd cc

too_many : {n : ℕ} → leb max_pending_orders n ≡ true → n < max_pending_orders → ⊥
too_many h e = ground arith

-- The order that goes out.
abbrev pub with_id : {D : Type 0} → Times → ℕ → Order D → Order D
with_id times id order = record order {
  order_id = order_key times.generated_at id;
  submitted_at = times.submitted_at;
}

module _ {R M D : Type 0} ⦃ring : RingBuffer R (OrderEvent D)⦄ ⦃b : BreakerManager M⦄
    (dump : List (String × Value D) → Bytes) (send : Bytes → ℤ) (times : Times)
    (order : Order D) where
  abbrev pub sends : Adapter R M D → Bool
  sends a =
      is_open
        (send (dump (serialize_order (with_id times a.last_order_id order)) ++ (10 ∷ 10 ∷ [])))

  -- All of the adapter's conditions.
  pub record IsAdmitted (a : Adapter R M D) : Type 0 where
    pub is_running : a.running ≡ true
    pub not_blocked : is_blocked a order.instrument_id ≡ false
    pub has_room : length a.pending_orders < max_pending_orders
    pub is_connected : is_open a.exchange_socket ≡ true
    pub is_sent : sends a ≡ true

  -- The adapter after an order went out.
  abbrev pub after_sending : Adapter R M D → Adapter R M D
  after_sending a =
      publish_order_event (with_id times a.last_order_id order) order_submitted times.published_at
        (record a {
          last_order_id = inc64 a.last_order_id;
          pending_orders =
              assign a.pending_orders (order_key times.generated_at a.last_order_id)
                (with_id times a.last_order_id order);
          orders_sent = inc64 a.orders_sent;
        })

  pub data Submitted (a : Adapter R M D) : Adapter R M D × Option OrderResult → Type 0 where
    turned_away :
        (counter : ℕ) (error : String)
        → ¬ IsAdmitted a
        → (counter ≡ a.last_order_id) ⊎ (counter ≡ inc64 a.last_order_id)
        → Submitted a (record a { last_order_id = counter }, refused error)
    went_out :
        IsAdmitted a
        → Submitted a (
          after_sending a,
          stoull (order_key times.generated_at a.last_order_id) >>= λ n.
              some (record { success = true; error = ""; order_number = n }),
        )

  pub submit_order-Submitted :
      (a : Adapter R M D) → Submitted a (submit_order dump send times order a)
  unfolding submit_order
  submit_order-Submitted a =
      if-cases (Submitted a) (not a.running)
        (λ t.
          turned_away a.last_order_id "Adapter not running" (λ ok. contradiction t ok.is_running)
            (inl refl))
        λ running.
          if-cases (Submitted a) (is_blocked a order.instrument_id)
            (λ t.
              turned_away a.last_order_id "Circuit breaker open" (λ ok. differ t ok.not_blocked)
                (inl refl))
            λ free.
              if-cases (Submitted a) (leb max_pending_orders (length a.pending_orders))
                (λ t.
                  turned_away a.last_order_id "Too many pending orders"
                    (λ ok. too_many t ok.has_room) (inl refl))
                λ room.
                  if-cases (Submitted a) (not (is_open a.exchange_socket))
                    (λ t.
                      turned_away (inc64 a.last_order_id) "Not connected to exchange"
                        (λ ok. contradiction t ok.is_connected) (inr refl))
                    λ connected.
                      if-cases (Submitted a) (not (sends a))
                        (λ t.
                          turned_away (inc64 a.last_order_id) "Failed to send order"
                            (λ ok. contradiction t ok.is_sent) (inr refl))
                        λ sent. went_out (record {
                          is_running = not-false running;
                          not_blocked = free;
                          has_room = ground arith;
                          is_connected = not-false connected;
                          is_sent = not-false sent;
                        })

  -- The answer is a success, and the order is pending under its id.
  pub record IsAccepted (a : Adapter R M D) (outcome : Adapter R M D × Option OrderResult)
      : Type 0 where
    pub admitted : IsAdmitted a
    pub answer :
        outcome.1 ≡ some (record { success = true; error = ""; order_number = times.generated_at })
    pub is_pending :
        find outcome.0.pending_orders (order_key times.generated_at a.last_order_id)
        ≡ some (with_id times a.last_order_id order)
    pub is_counted : outcome.0.orders_sent ≡ inc64 a.orders_sent

  -- The answer is an error, and at most the number of the next id has changed.
  pub record IsRefused (a : Adapter R M D) (outcome : Adapter R M D × Option OrderResult)
      : Type 0 where
    pub not_admitted : ¬ IsAdmitted a
    pub answer : (error : String) × (outcome.1 ≡ refused error)
    pub unchanged : outcome.0 ≡ record a { last_order_id = outcome.0.last_order_id }
