-- ===== src/Adapters/Tests.antt =====
-- Messages and addresses on concrete values.
use challenge_8a2ffd.Common.{◌≡◌, refl, List, [], ◌∷◌, ◌++◌, arith}
use challenge_8a2ffd.Common.Int.{pos}
use challenge_8a2ffd.Sharding.Hash.{Bytes, to_string}
use challenge_8a2ffd.Texts.{bytes}
use challenge_8a2ffd.Adapters.Address.{
  parse_url, parse_exchange_url, stripped_url, after_protocol, split_last_colon, parse_url-written,
}
use challenge_8a2ffd.Adapters.Framing.{process_buffer, process_rounds, newline_pos, scan, receive}
use challenge_8a2ffd.Adapters.Framing.Chunks.{receive_all, receive_all_lem}
use challenge_8a2ffd.Adapters.Framing.Messages.{
  write_all, process_buffer-write_all, receive_all-stalled,
}

-- Keeps the messages.
abbrev collect : Bytes → List Bytes → List Bytes
collect m ms = ms ++ (m ∷ [])

abbrev chunks : List Bytes
chunks = bytes "{1" ∷ (bytes "}" ++ (10 ∷ [])) ∷ (10 ∷ bytes "{2}") ∷ []

receive_all_lem_example :
    receive_all collect chunks ([], [])
    ≡ process_buffer collect (bytes "{1}" ++ (10 ∷ 10 ∷ bytes "{2}")) []
receive_all_lem_example = receive_all_lem collect chunks []

chunks_hold_one : receive_all collect chunks ([], []) ≡ (bytes "{2}", bytes "{1}" ∷ [])
unfolding receive process_buffer process_rounds newline_pos scan
chunks_hold_one = refl

process_buffer-write_all_example :
    process_buffer collect (write_all (bytes "{1}" ∷ bytes "{2}" ∷ []) ++ bytes "{3") []
    ≡ (bytes "{3", bytes "{1}" ∷ bytes "{2}" ∷ [])
unfolding newline_pos scan
process_buffer-write_all_example =
    process_buffer-write_all collect (bytes "{1}" ∷ bytes "{2}" ∷ []) (bytes "{3") []
      (
        (
          omega arith,
          ((λ e _. absurd (omega arith)), ((λ e _. absurd (omega arith)), omega arith)),
        ),
        (
          (
            omega arith,
            ((λ e _. absurd (omega arith)), ((λ e _. absurd (omega arith)), omega arith)),
          ),
          tt,
        ),
      )
      refl

-- An empty message, and a good one after it.
receive_all-stalled_example :
    receive_all collect ((bytes "{1}" ++ (10 ∷ 10 ∷ [])) ∷ []) (10 ∷ 10 ∷ [], [])
    ≡ (10 ∷ 10 ∷ (bytes "{1}" ++ (10 ∷ 10 ∷ [])), [])
receive_all-stalled_example =
    receive_all-stalled collect ((bytes "{1}" ++ (10 ∷ 10 ∷ [])) ∷ []) [] []

parse_url-written_example :
    parse_url (pos 8080) (bytes "tcp" ++ (58 ∷ 47 ∷ 47 ∷ (bytes "::1" ++ (58 ∷ to_string 9001))))
    ≡ (bytes "::1", pos 9001)
parse_url-written_example =
    parse_url-written (pos 8080) (bytes "tcp") (bytes "::1") 9001
      (omega arith, (omega arith, (omega arith, tt))) (omega arith)

no_port_is_default : parse_exchange_url (bytes "tcp://exchange") ≡ (bytes "exchange", pos 8080)
unfolding parse_url stripped_url after_protocol split_last_colon
no_port_is_default = refl
