-- ===== src/MarketDataFeed/Stream.antt =====
-- Messages that arrive over many reads (src/adapters/MarketDataFeedAdapter.cpp).
use mathlib.Core.Path.{subst}
use challenge_8a2ffd.Common.{
  ℕ, ◌+◌, ◌^◌, ◌<◌, ◌≡◌, refl, sym, ap, ◌∙◌, true, Option, none, some, List, [], ◌∷◌, ◌++◌, length,
  map, inc64, All,
}
use challenge_8a2ffd.Common.Double.{Double}
use challenge_8a2ffd.Sharding.Hash.{Bytes}
use challenge_8a2ffd.Adapters.Document.{Document, Parser}
use challenge_8a2ffd.Adapters.Framing.{
  newline_pos, process_buffer, receive, process_buffer-commutes, process_buffer-preserves,
}
use challenge_8a2ffd.Adapters.Framing.Chunks.{concat, receive_all, receive_all_lem}
use challenge_8a2ffd.Adapters.Framing.Messages.{
  IsMessage, write_all, handle_all, process_buffer-write_all,
}
use challenge_8a2ffd.Adapters.Ring.{RingBuffer}
use challenge_8a2ffd.MarketDataFeed.{
  FeedAdapter, FeedEvent, arrived, publish_read, publish_parsed, handle_message, read_event,
  run_round, run_rounds,
}
use challenge_8a2ffd.MarketDataFeed.Counting.{counted, IsCounted, handle_all-IsCounted}
use challenge_8a2ffd.MarketDataFeed.Reconnecting.{run_round-running}

module _ {R : Type 0} where
  abbrev with_buffer : Bytes → FeedAdapter R → FeedAdapter R
  with_buffer buffer a = record a { message_buffer = buffer }

module _ {R D : Type 0} ⦃d : Double D⦄ ⦃ring : RingBuffer R (FeedEvent D)⦄ (parse : Parser D)
    (blank : FeedEvent D) where
  handle_message-with_buffer :
      (clock : ℕ → ℕ) (buffer m : Bytes) (a : FeedAdapter R)
      → handle_message parse blank clock m (with_buffer buffer a)
        ≡ with_buffer buffer (handle_message parse blank clock m a)
  unfolding handle_message
  handle_message-with_buffer clock buffer m a = parsed (parse m)
    where
      is_read :
          (event : Option (FeedEvent D)) (a : FeedAdapter R)
          → publish_read parse blank event (with_buffer buffer a)
            ≡ with_buffer buffer (publish_read parse blank event a)
      is_read none a = refl
      is_read (some event) a = refl

      parsed :
          (json : Option (Document D))
          → publish_parsed parse blank json clock (with_buffer buffer a)
            ≡ with_buffer buffer (publish_parsed parse blank json clock a)
      parsed none = refl
      parsed (some json) =
          is_read
            (read_event json
              (record blank { timestamp = clock a.last_sequence; sequence = a.last_sequence }))
            (record a { last_sequence = inc64 a.last_sequence })

  handle_message-running :
      (clock : ℕ → ℕ) (m : Bytes) (a : FeedAdapter R)
      → a.running ≡ true
      → (handle_message parse blank clock m a).running ≡ true
  unfolding handle_message
  handle_message-running clock m a runs = parsed (parse m)
    where
      is_read :
          (event : Option (FeedEvent D)) (a : FeedAdapter R)
          → a.running ≡ true
          → (publish_read parse blank event a).running ≡ true
      is_read none a runs = runs
      is_read (some event) a runs = runs

      parsed :
          (json : Option (Document D)) → (publish_parsed parse blank json clock a).running ≡ true
      parsed none = runs
      parsed (some json) =
          is_read
            (read_event json
              (record blank { timestamp = clock a.last_sequence; sequence = a.last_sequence }))
            (record a { last_sequence = inc64 a.last_sequence }) runs

  -- A turn, in terms of the buffer and the adapter without it.
  run_round-arrived :
      (clock : ℕ → ℕ) (buffer chunk : Bytes) (a : FeedAdapter R)
      → a.running ≡ true
      → run_round parse blank clock (arrived chunk) (with_buffer buffer a)
        ≡ with_buffer
            (receive (handle_message parse blank clock) chunk (buffer, a)).0
            (receive (handle_message parse blank clock) chunk (buffer, a)).1
  unfolding receive
  run_round-arrived clock buffer chunk a runs =
      run_round-running parse blank clock (arrived chunk) (with_buffer buffer a) runs
      ∙ ap (λ p. with_buffer p.0 p.1)
          (process_buffer-commutes (handle_message parse blank clock) (with_buffer buffer)
            (handle_message-with_buffer clock buffer) (buffer ++ chunk) a)

  run_rounds-arrived :
      (clock : ℕ → ℕ) (chunks : List Bytes) (buffer : Bytes) (a : FeedAdapter R)
      → a.running ≡ true
      → run_rounds parse blank clock (map arrived chunks) (with_buffer buffer a)
        ≡ with_buffer
            (receive_all (handle_message parse blank clock) chunks (buffer, a)).0
            (receive_all (handle_message parse blank clock) chunks (buffer, a)).1
  unfolding receive
  run_rounds-arrived clock [] buffer a runs = refl
  run_rounds-arrived clock (chunk ∷ chunks) buffer a runs =
      let (rest, a') = receive (handle_message parse blank clock) chunk (buffer, a) in
      ap (run_rounds parse blank clock (map arrived chunks))
        (run_round-arrived clock buffer chunk a runs)
      ∙ run_rounds-arrived clock chunks rest a' (
          process_buffer-preserves (handle_message parse blank clock) (λ a. a.running ≡ true)
            (handle_message-running clock) (buffer ++ chunk) a runs)

  -- Messages that arrive, however the stream is cut into reads, are each counted once, as received or
  -- as dropped, and no more are received than sequence numbers were taken; an unfinished rest stays
  -- in the buffer. The messages are not empty and have no empty line in them and no line break at
  -- their end; the adapter runs, its buffer is empty, and the counts stay below 2 ^ 64.
  pub run_rounds-IsCounted :
      (clock : ℕ → ℕ) (chunks ms : List Bytes) (rest : Bytes) (a : FeedAdapter R)
      → a.running ≡ true
      → a.message_buffer ≡ []
      → concat chunks ≡ write_all ms ++ rest
      → All IsMessage ms
      → newline_pos rest ≡ 0
      → counted parse blank a + length ms < 2 ^ 64
      → a.last_sequence + length ms < 2 ^ 64
      → let a' = run_rounds parse blank clock (map arrived chunks) a in
        IsCounted parse blank (length ms) a a' × (a'.message_buffer ≡ rest)
  run_rounds-IsCounted clock chunks ms rest a runs empty stream good unfinished h k =
      let done =
        receive_all_lem (handle_message parse blank clock) chunks a
        ∙ ap (λ b. process_buffer (handle_message parse blank clock) b a) stream
        ∙ process_buffer-write_all (handle_message parse blank clock) ms rest a good unfinished in
      let last : FeedAdapter R = handle_all (handle_message parse blank clock) ms a in
      let count = handle_all-IsCounted parse blank clock ms a h k in
      let result =
        ap (run_rounds parse blank clock (map arrived chunks)) (ap (λ b. with_buffer b a) empty)
        ∙ run_rounds-arrived clock chunks [] a runs
        ∙ ap (λ p. with_buffer p.0 p.1) done in
      subst (λ a'. IsCounted parse blank (length ms) a a' × (a'.message_buffer ≡ rest)) (sym result)
        (
          record {
            total = count.total;
            sequences = count.sequences;
            numbered = count.numbered;
            still_running = count.still_running;
            same_socket = count.same_socket;
          },
          refl,
        )
