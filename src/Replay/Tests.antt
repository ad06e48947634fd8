-- ===== src/Replay/Tests.antt =====
-- Loads and replays on concrete files, with fixed-point numbers. The risk engine is the number of
-- calls it got.
use challenge_8a2ffd.Common.{ℕ, suc, ◌≡◌, refl, true, false, some, List, [], ◌∷◌, ◌++◌, arith}
use challenge_8a2ffd.Common.Fixed.{Fixed, fixed_double}
use challenge_8a2ffd.Common.Int.{pos}
use challenge_8a2ffd.Sharding.Hash.{Bytes}
use challenge_8a2ffd.Texts.{bytes}
use challenge_8a2ffd.Texts.Numbers.{stoll, read_signed, skip_spaces, magnitude, read_digits}
use challenge_8a2ffd.Replay.{
  ReplayConfig, ReplayEngine, constructed, lines_of, parse_event, load_events_from_file, split_at,
  get_field,
}
use challenge_8a2ffd.Replay.Loading.{parsed_lines, load_events_from_file-stops}
use challenge_8a2ffd.Replay.RoundTrip.{
  Recorded, write_file, numbered, load_events_from_file-write_file,
}
use challenge_8a2ffd.Replay.Playing.{RiskEngineCalls}

instance counting_calls : RiskEngineCalls ℕ Fixed
counting_calls = record {
  evaluate_order_risk = λ k order instrument quantity price trader strategy. (suc k, true);
  update_market_data = λ k instrument bid ask bid_size ask_size. (suc k, true);
  check_trader_limit = λ k trader exposure limit. (suc k, true);
}

abbrev settings : ReplayConfig
settings = record {
  replay_file_path = bytes "events";
  deterministic_mode = true;
  skip_malformed_events = false;
  record_every_event = true;
  report_path = [];
}

abbrev new_engine : ReplayEngine ℕ Fixed
new_engine = constructed settings (some 0) (pos 0)

-- A comment, an event, and a line whose timestamp is no number.
abbrev good_lines : List Bytes
good_lines = bytes "# log" ∷ bytes "5|MARKET_DATA|{}" ∷ []

abbrev bad_line : Bytes
bad_line = bytes "x|MARKET_DATA|{}"

abbrev bad_file : Bytes
bad_file = bytes "# log" ++ (10 ∷ (bytes "5|MARKET_DATA|{}" ++ (10 ∷ bytes "x|MARKET_DATA|{}")))

load_events_from_file-stops_example :
    load_events_from_file (some bad_file) new_engine
    ≡ (record new_engine { events = parsed_lines 1 good_lines }, false)
unfolding constructed lines_of parse_event get_field split_at stoll read_signed skip_spaces
    magnitude read_digits
load_events_from_file-stops_example =
    load_events_from_file-stops new_engine bad_file good_lines bad_line [] refl refl
      (refl, (refl, tt)) refl

abbrev skipping_engine : ReplayEngine ℕ Fixed
skipping_engine = constructed (record settings { skip_malformed_events = true }) (some 0) (pos 0)

abbrev one_recorded : Recorded
one_recorded = record { timestamp = 7; event_type = bytes "RISK"; payload = bytes "{}" }

load_events_from_file-write_file_example :
    load_events_from_file (some (write_file (one_recorded ∷ []))) new_engine
    ≡ (record new_engine { events = numbered 1 (one_recorded ∷ []) }, true)
load_events_from_file-write_file_example =
    load_events_from_file-write_file new_engine (one_recorded ∷ []) (
      record {
        timed = omega arith;
        type_fields = (omega arith, (omega arith, (omega arith, (omega arith, tt))));
        type_lines = (omega arith, (omega arith, (omega arith, (omega arith, tt))));
        payload_lines = (omega arith, (omega arith, tt));
        has_payload = omega arith;
      },
      tt,
    )
