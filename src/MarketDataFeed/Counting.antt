-- ===== src/MarketDataFeed/Counting.antt =====
-- Every message is counted once (src/adapters/MarketDataFeedAdapter.cpp).
use challenge_8a2ffd.Common.{
  ℕ, suc, ◌+◌, ◌^◌, ◌≤◌, ◌<◌, ◌≡◌, refl, ◌∙◌, Option, none, some, List, [], ◌∷◌, arith, length,
  inc64,
}
use challenge_8a2ffd.Common.Double.{Double}
use challenge_8a2ffd.Sharding.Hash.{Bytes}
use challenge_8a2ffd.Adapters.Document.{Document, Parser}
use challenge_8a2ffd.Adapters.Framing.Messages.{handle_all}
use challenge_8a2ffd.Adapters.Ring.{RingBuffer}
use challenge_8a2ffd.MarketDataFeed.{
  FeedAdapter, FeedEvent, publish_read, publish_parsed, handle_message, read_event,
}

module _ {R D : Type 0} ⦃d : Double D⦄ ⦃ring : RingBuffer R (FeedEvent D)⦄ (parse : Parser D)
    (blank : FeedEvent D) where
  abbrev pub counted : FeedAdapter R → ℕ
  counted a = a.messages_received + a.messages_dropped

  -- What a message may change, as long as the counts fit 64 bits.
  pub record IsCounted (n : ℕ) (a a' : FeedAdapter R) : Type 0 where
    pub total : counted a' ≡ counted a + n
    pub sequences : a.last_sequence + a'.messages_received ≤ a'.last_sequence + a.messages_received
    pub numbered : a'.last_sequence ≤ a.last_sequence + n
    pub still_running : a'.running ≡ a.running
    pub same_socket : a'.socket_fd ≡ a.socket_fd

  handle_message-IsCounted :
      (clock : ℕ → ℕ) (m : Bytes) (a : FeedAdapter R)
      → suc (counted a) < 2 ^ 64
      → suc a.last_sequence < 2 ^ 64
      → IsCounted 1 a (handle_message parse blank clock m a)
  unfolding handle_message
  handle_message-IsCounted clock m a h k = parsed (parse m)
    where
      is_read :
          (event : Option (FeedEvent D))
          → IsCounted 1 a
              (publish_read parse blank event (record a { last_sequence = inc64 a.last_sequence }))
      is_read none = record {
        total = omega arith;
        sequences = omega arith;
        numbered = omega arith;
        still_running = refl;
        same_socket = refl;
      }
      is_read (some event) = record {
        total = omega arith;
        sequences = omega arith;
        numbered = omega arith;
        still_running = refl;
        same_socket = refl;
      }

      parsed :
          (json : Option (Document D)) → IsCounted 1 a (publish_parsed parse blank json clock a)
      parsed none = record {
        total = omega arith;
        sequences = omega arith;
        numbered = omega arith;
        still_running = refl;
        same_socket = refl;
      }
      parsed (some json) = is_read (
          read_event json
            (record blank { timestamp = clock a.last_sequence; sequence = a.last_sequence }))

  pub handle_all-IsCounted :
      (clock : ℕ → ℕ) (ms : List Bytes) (a : FeedAdapter R)
      → counted a + length ms < 2 ^ 64
      → a.last_sequence + length ms < 2 ^ 64
      → IsCounted (length ms) a (handle_all (handle_message parse blank clock) ms a)
  handle_all-IsCounted clock [] a h k = record {
    total = omega arith;
    sequences = omega arith;
    numbered = omega arith;
    still_running = refl;
    same_socket = refl;
  }
  handle_all-IsCounted clock (m ∷ ms) a h k =
      let first = handle_message-IsCounted clock m a (omega arith) (omega arith) in
      let a' : FeedAdapter R = handle_message parse blank clock m a in
      let rest =
        handle_all-IsCounted clock ms a' (omega (arith, first.total))
          (omega (arith, first.numbered)) in
      record {
        total = omega (arith, first.total, rest.total);
        sequences = omega (arith, first.sequences, rest.sequences);
        numbered = omega (arith, first.numbered, rest.numbered);
        still_running = rest.still_running ∙ first.still_running;
        same_socket = rest.same_socket ∙ first.same_socket;
      }
