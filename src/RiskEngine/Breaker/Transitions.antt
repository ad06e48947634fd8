-- ===== src/RiskEngine/Breaker/Transitions.antt =====
-- The moves of one circuit breaker.
use challenge_8a2ffd.Common.{
  ℕ, ◌≤◌, ◌<◌, ◌≡◌, refl, ◌∙◌, ◌≢◌, ◌⊎◌, inl, inr, Bool-cases, ltb_iff, arith, ltb, leb,
  if◌then◌else◌, sub64, inc64,
}
use challenge_8a2ffd.RiskEngine.Types.{CircuitBreakerState, closed, opened, half_open}
use challenge_8a2ffd.RiskEngine.State.{CircuitBreakerData, circuit_breaker_reset_timeout_ms}
use challenge_8a2ffd.RiskEngine.Breaker.{breached_breaker}

-- The moves that the machine allows, with what each needs and does.
pub data Move (cb cb' : CircuitBreakerData) : Type 0 where
  -- A breach of an open breaker.
  count_opened :
      cb.state ≡ opened
      → cb'.state ≡ opened
      → cb'.breach_count ≡ inc64 cb.breach_count
      → cb'.last_reset_timestamp ≡ cb.last_reset_timestamp
      → Move cb cb'
  -- The first or second breach of a closed breaker.
  count_closed :
      cb.state ≡ closed
      → cb'.state ≡ closed
      → cb'.breach_count ≤ 2
      → cb'.breach_count ≡ inc64 cb.breach_count
      → cb'.last_reset_timestamp ≡ cb.last_reset_timestamp
      → Move cb cb'
  -- The third breach, or a later one, of a closed breaker.
  trip :
      cb.state ≡ closed
      → 3 ≤ cb'.breach_count
      → cb'.state ≡ opened
      → cb'.breach_count ≡ inc64 cb.breach_count
      → cb'.last_reset_timestamp ≡ cb.last_reset_timestamp
      → Move cb cb'
  -- A breach of a breaker that was being tried.
  reopen :
      cb.state ≡ half_open
      → cb'.state ≡ opened
      → cb'.breach_count ≡ inc64 cb.breach_count
      → cb'.last_reset_timestamp ≡ cb.last_reset_timestamp
      → Move cb cb'
  -- The timeout since the last reset is over.
  try :
      (now_ms : ℕ)
      → cb.state ≡ opened
      → circuit_breaker_reset_timeout_ms < sub64 now_ms cb.last_reset_timestamp
      → cb'.state ≡ half_open
      → cb'.breach_count ≡ cb.breach_count
      → cb'.last_reset_timestamp ≡ cb.last_reset_timestamp
      → Move cb cb'

pub data Moves (cb : CircuitBreakerData) : CircuitBreakerData → Type 0 where
  here : Moves cb cb
  next : {a b : CircuitBreakerData} → Moves cb a → Move a b → Moves cb b

-- The breaker after `checkCircuitBreaker` lets an order through.
abbrev pub probed_breaker : CircuitBreakerData → ℕ → CircuitBreakerData
probed_breaker cb now_ms = elim cb.state [
  | opened ↦
      if ltb circuit_breaker_reset_timeout_ms (sub64 now_ms cb.last_reset_timestamp)
      then (record cb { state = half_open })
      else cb
  | closed ↦ cb
  | half_open ↦ cb
]

State-cases : (st : CircuitBreakerState) → (st ≡ closed) ⊎ ((st ≡ half_open) ⊎ (st ≡ opened))
State-cases closed = inl refl
State-cases half_open = inr (inl refl)
State-cases opened = inr (inr refl)

pub probed_breaker-Moves : (cb : CircuitBreakerData) (ms : ℕ) → Moves cb (probed_breaker cb ms)
probed_breaker-Moves cb ms = elim (State-cases cb.state) [
  | inl e ↦ rw e here
  | inr (inl e) ↦ rw e here
  | inr (inr e) ↦
      elim (Bool-cases (ltb circuit_breaker_reset_timeout_ms (sub64 ms cb.last_reset_timestamp))) [
        | inl t ↦
            next here (try ms e ((ltb_iff _ _).0 t) (ground arith) (ground arith) (ground arith))
        | inr t ↦ rw (e, t) here
      ]
]

pub breached_breaker-Move : (cb : CircuitBreakerData) (ms : ℕ) → Move cb (breached_breaker cb ms)
unfolding breached_breaker
breached_breaker-Move cb ms = elim (State-cases cb.state) [
  | inl e ↦ elim (Bool-cases (leb 3 (inc64 cb.breach_count))) [
    | inl t ↦ trip e (ground arith) (ground arith) (ground arith) (ground arith)
    | inr t ↦ count_closed e (ground arith) (ground arith) (ground arith) (ground arith)
  ]
  | inr (inl e) ↦ reopen e (ground arith) (ground arith) (ground arith)
  | inr (inr e) ↦ count_opened e (ground arith) (ground arith) (ground arith)
]

-- No move leads to a closed breaker.
pub Move-ne-closed :
    {cb cb' : CircuitBreakerData} → Move cb cb' → cb.state ≢ closed → cb'.state ≢ closed
Move-ne-closed (count_opened a b c e) h = ground arith
Move-ne-closed (count_closed a b c e f) h = ground arith
Move-ne-closed (trip a b c e f) h = ground arith
Move-ne-closed (reopen a b c e) h = ground arith
Move-ne-closed (try n a b c e f) h = ground arith

pub Moves-ne-closed :
    {cb cb' : CircuitBreakerData} → Moves cb cb' → cb.state ≢ closed → cb'.state ≢ closed
Moves-ne-closed here h = h
Moves-ne-closed (next ms m) h = Move-ne-closed m (Moves-ne-closed ms h)

-- A closed breaker has seen two breaches at most since it was reset.
abbrev pub IsCalm : CircuitBreakerData → Type 0
IsCalm cb = (cb.state ≢ closed) ⊎ (cb.breach_count ≤ 2)

pub Move-IsCalm : {cb cb' : CircuitBreakerData} → Move cb cb' → IsCalm cb → IsCalm cb'
Move-IsCalm (count_opened a b c e) h = ground arith
Move-IsCalm (count_closed a b c e f) h = ground arith
Move-IsCalm (trip a b c e f) h = ground arith
Move-IsCalm (reopen a b c e) h = ground arith
Move-IsCalm (try n a b c e f) h = ground arith

pub Moves-IsCalm : {cb cb' : CircuitBreakerData} → Moves cb cb' → IsCalm cb → IsCalm cb'
Moves-IsCalm here h = h
Moves-IsCalm (next ms m) h = Move-IsCalm m (Moves-IsCalm ms h)

pub Moves-last_reset :
    {cb cb' : CircuitBreakerData}
    → Moves cb cb'
    → cb'.last_reset_timestamp ≡ cb.last_reset_timestamp
Moves-last_reset here = refl
Moves-last_reset (next ms (count_opened a b c e)) = e ∙ Moves-last_reset ms
Moves-last_reset (next ms (count_closed a b c e f)) = f ∙ Moves-last_reset ms
Moves-last_reset (next ms (trip a b c e f)) = f ∙ Moves-last_reset ms
Moves-last_reset (next ms (reopen a b c e)) = e ∙ Moves-last_reset ms
Moves-last_reset (next ms (try n a b c e f)) = f ∙ Moves-last_reset ms

pub Moves-trans : {cb a b : CircuitBreakerData} → Moves cb a → Moves a b → Moves cb b
Moves-trans m here = m
Moves-trans m (next ms s) = next (Moves-trans m ms) s
