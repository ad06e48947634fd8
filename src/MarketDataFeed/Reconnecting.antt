-- ===== src/MarketDataFeed/Reconnecting.antt =====
-- How the adapter reconnects, and when it does not
-- (src/adapters/MarketDataFeedAdapter.cpp).
use mathlib.Core.Path.{subst}
use challenge_8a2ffd.Common.{
  ℕ, zero, suc, ◌+◌, ◌≤◌, ◌<◌, ◌≡◌, refl, sym, ap, ◌∙◌, true, false, List, [], ◌∷◌, arith, length,
  leb, if-intro, if-cases, Bool-cases, inl, inr, replicate, map,
}
use challenge_8a2ffd.Common.Double.{Double}
use challenge_8a2ffd.Adapters.Address.{parse_url}
use challenge_8a2ffd.Adapters.Connection.{Network, is_open, dial}
use challenge_8a2ffd.Adapters.Document.{Parser}
use challenge_8a2ffd.Adapters.Ring.{RingBuffer}
use challenge_8a2ffd.MarketDataFeed.{
  FeedAdapter, FeedConfig, FeedEvent, max_reconnect_attempts, Activity, select_failed, timed_out,
  hung_up, connect, disconnect, retry, handle_reconnect, handle_activity, run_round, run_rounds,
}

-- The address of the feed is not reached.
abbrev pub IsUnreachable : {R : Type 0} → Network → FeedAdapter R → Type 0
IsUnreachable network a =
    is_open (dial network (parse_url a.config.default_port a.config.feed_url)) ≡ false

module _ {R : Type 0} where
  -- The adapter runs, its socket is closed, and so many attempts were made.
  pub record IsLost (attempts : ℕ) (a : FeedAdapter R) : Type 0 where
    pub runs : a.running ≡ true
    pub no_socket : is_open a.socket_fd ≡ false
    pub attempted : a.reconnect_attempts ≡ attempts

  -- What `disconnect` leaves.
  record IsDisconnected (a a' : FeedAdapter R) : Type 0 where
    no_socket : is_open a'.socket_fd ≡ false
    same_running : a'.running ≡ a.running
    same_attempts : a'.reconnect_attempts ≡ a.reconnect_attempts
    same_config : a'.config ≡ a.config

  disconnect-IsDisconnected : (a : FeedAdapter R) → IsDisconnected a (disconnect a)
  unfolding disconnect
  disconnect-IsDisconnected a =
      if-cases (IsDisconnected a) (is_open a.socket_fd)
        (λ t. record {
          no_socket = refl;
          same_running = refl;
          same_attempts = refl;
          same_config = refl;
        })
        λ t. record { no_socket = t; same_running = refl; same_attempts = refl; same_config = refl }

  -- An attempt that does not reach the feed,
  record HasFailed (a a' : FeedAdapter R) : Type 0 where
    lost : a.running ≡ true → IsLost (suc a.reconnect_attempts) a'
    same_config : a'.config ≡ a.config

  retry-HasFailed :
      (network : Network) (a : FeedAdapter R)
      → is_open a.socket_fd ≡ false
      → a.reconnect_attempts < max_reconnect_attempts
      → IsUnreachable network a
      → HasFailed a (retry network a)
  unfolding retry connect
  retry-HasFailed network a c h u =
      let more : leb max_reconnect_attempts a.reconnect_attempts ≡ false = ground arith in
      simp (more, c, u)
        (record {
          lost = λ runs. record { runs = runs; no_socket = u; attempted = omega arith };
          same_config = refl;
        })

  handle_reconnect-HasFailed :
      (network : Network) (a : FeedAdapter R)
      → a.reconnect_attempts < max_reconnect_attempts
      → IsUnreachable network a
      → HasFailed a (handle_reconnect network a)
  unfolding handle_reconnect
  handle_reconnect-HasFailed network a h u =
      let gone = disconnect-IsDisconnected a in
      let u' : IsUnreachable network (disconnect a) = rw gone.same_config u in
      let fewer : (disconnect a).reconnect_attempts < max_reconnect_attempts =
        omega (arith, gone.same_attempts) in
      let failed = retry-HasFailed network (disconnect a) gone.no_socket fewer u' in
      record {
        lost = λ runs.
            let lost = failed.lost (gone.same_running ∙ runs) in
            record {
              runs = lost.runs;
              no_socket = lost.no_socket;
              attempted = lost.attempted ∙ ap suc gone.same_attempts;
            };
        same_config = failed.same_config ∙ gone.same_config;
      }

  -- and the one that is not made any more.
  handle_reconnect-stops :
      (network : Network) (a : FeedAdapter R)
      → max_reconnect_attempts ≤ a.reconnect_attempts
      → (handle_reconnect network a).running ≡ false
  unfolding handle_reconnect retry
  handle_reconnect-stops network a h =
      let gone = disconnect-IsDisconnected a in
      let enough : leb max_reconnect_attempts (disconnect a).reconnect_attempts ≡ true =
        ground (arith, gone.same_attempts) in
      simp enough refl

-- Turns in which `select` fails and the feed is not reached.
abbrev pub AllFail : FeedConfig → List Network → Type 0
AllFail config [] = Unit
AllFail config (network ∷ networks) =
    (is_open (dial network (parse_url config.default_port config.feed_url)) ≡ false)
    × AllFail config networks

module _ {R D : Type 0} ⦃d : Double D⦄ ⦃ring : RingBuffer R (FeedEvent D)⦄ (parse : Parser D)
    (blank : FeedEvent D) where
  pub run_round-running :
      (clock : ℕ → ℕ) (activity : Activity) (a : FeedAdapter R)
      → a.running ≡ true
      → run_round parse blank clock activity a ≡ handle_activity parse blank clock activity a
  unfolding run_round
  run_round-running clock activity a r = simp r refl

  run_round-stopped :
      (clock : ℕ → ℕ) (activity : Activity) (a : FeedAdapter R)
      → a.running ≡ false
      → run_round parse blank clock activity a ≡ a
  unfolding run_round
  run_round-stopped clock activity a r = simp r refl

  run_rounds-quiet :
      (clock : ℕ → ℕ) (n : ℕ) (a : FeedAdapter R)
      → run_rounds parse blank clock (replicate n timed_out) a ≡ a
  unfolding replicate run_round
  run_rounds-quiet clock zero a = refl
  run_rounds-quiet clock (suc n) a =
      ap (run_rounds parse blank clock (replicate n timed_out))
        (if-intro (λ x. x ≡ a) a.running refl refl)
      ∙ run_rounds-quiet clock n a

  -- When the connection breaks and the feed is not reached at once, one attempt to reconnect is made
  -- and no other as long as `select` times out, which it does on a closed socket: the adapter runs
  -- on without a connection. Fewer than ten attempts were made before.
  pub run_rounds-IsLost :
      (clock : ℕ → ℕ) (n : ℕ) (network : Network) (a : FeedAdapter R)
      → a.running ≡ true
      → a.reconnect_attempts < 10
      → IsUnreachable network a
      → IsLost
          (suc a.reconnect_attempts)
          (run_rounds parse blank clock (hung_up network ∷ replicate n timed_out) a)
  run_rounds-IsLost clock n network a runs h u =
      subst (IsLost (suc a.reconnect_attempts))
        (sym (
          ap (run_rounds parse blank clock (replicate n timed_out))
            (run_round-running clock (hung_up network) a runs)
          ∙ run_rounds-quiet clock n (handle_reconnect network a)))
        ((handle_reconnect-HasFailed network a h u).lost runs)

  stays_stopped :
      (clock : ℕ → ℕ) (networks : List Network) (a : FeedAdapter R)
      → a.running ≡ false
      → (run_rounds parse blank clock (map select_failed networks) a).running ≡ false
  stays_stopped clock [] a e = e
  stays_stopped clock (network ∷ networks) a e =
      subst (λ x. (run_rounds parse blank clock (map select_failed networks) x).running ≡ false)
        (sym (run_round-stopped clock (select_failed network) a e))
        (stays_stopped clock networks a e)

  -- If `select` fails in every turn and the feed is not reached in any, the adapter does not run
  -- any more after eleven turns, less the attempts made before, of which there are ten at most. Turns
  -- in which `select` times out are not among them.
  pub run_rounds-stops :
      (clock : ℕ → ℕ) (networks : List Network) (a : FeedAdapter R)
      → AllFail a.config networks
      → a.reconnect_attempts ≤ 10
      → 10 < a.reconnect_attempts + length networks
      → (run_rounds parse blank clock (map select_failed networks) a).running ≡ false
  run_rounds-stops clock [] a f h k = absurd (omega arith)
  run_rounds-stops clock (network ∷ networks) a (u, us) h k = elim (Bool-cases a.running) [
    | inr e ↦ stays_stopped clock (network ∷ networks) a e
    | inl runs ↦
        subst (λ x. (run_rounds parse blank clock (map select_failed networks) x).running ≡ false)
          (sym (run_round-running clock (select_failed network) a runs))
          (elim (Bool-cases (leb max_reconnect_attempts a.reconnect_attempts)) [
            | inl t ↦
                stays_stopped clock networks (handle_reconnect network a)
                  (handle_reconnect-stops network a (ground arith))
            | inr t ↦
                let failed = handle_reconnect-HasFailed network a (ground arith) u in
                let attempted = (failed.lost runs).attempted in
                let us' : AllFail (handle_reconnect network a).config networks =
                  subst (λ c. AllFail c networks) (sym failed.same_config) us in
                run_rounds-stops clock networks (handle_reconnect network a) us' (ground arith)
                  (ground arith)
          ])
  ]
