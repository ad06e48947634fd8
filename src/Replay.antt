-- ===== src/Replay.antt =====
-- `ReplayEngine` (src/application/ReplayEngine.cpp): its state and how recorded events are loaded.
-- The file is its bytes, and `none` if it cannot be opened.
pub mod Loading
pub mod RoundTrip
pub mod Playing
pub mod Progress
pub mod Completion
pub mod Order
pub mod Sorting
pub mod Speed
pub mod Tests
use challenge_8a2ffd.Common.{
  ℕ, suc, ◌+◌, Bool, true, false, not, ◌&&◌, Option, none, some, List, [], ◌∷◌, ◌++◌, if◌then◌else◌,
  ◌==◌,
}
use challenge_8a2ffd.Common.Double.{Double}
use challenge_8a2ffd.Common.Int.{ℤ, pos}
use challenge_8a2ffd.Sharding.Hash.{Bytes}
use challenge_8a2ffd.Texts.{bytes}
use challenge_8a2ffd.Texts.Numbers.{stoll}

pub record ReplayConfig : Type 0 where
  pub replay_file_path : Bytes
  pub deterministic_mode : Bool
  pub skip_malformed_events : Bool
  pub record_every_event : Bool
  pub report_path : Bytes

pub record ReplayEvent : Type 0 where
  pub line_number : ℕ
  pub timestamp : ℤ
  pub event_type : Bytes
  pub payload : Bytes
  pub replayed : Bool
  pub replay_result : Bytes

-- What `emitAuditEvent` writes to the log.
pub data AuditEvent : Type 0 where
  replay_started : AuditEvent
  replay_event : Bytes → ℕ → Bytes → AuditEvent
  replay_completed : ℕ → ℕ → ℕ → AuditEvent

-- The members of the report, and those of each event in it.
pub record ReportedEvent : Type 0 where
  pub line_number : ℕ
  pub timestamp : ℤ
  pub event_type : Bytes
  pub replayed : Bool
  pub result : Bytes

pub record ReplayReport (D : Type 0) : Type 0 where
  pub total_events : ℕ
  pub replayed_events : ℕ
  pub deterministic_mode : Bool
  pub playback_speed : D
  pub events : List ReportedEvent

-- `K` is the risk engine that the events are sent to, and `reports` the files written.
pub record ReplayEngine (K D : Type 0) : Type 0 where
  pub config : ReplayConfig
  pub risk_engine : Option K
  pub is_replaying : Bool
  pub current_event_index : ℕ
  pub playback_speed : D
  pub start_replay_timestamp : ℤ
  pub events : List ReplayEvent
  pub audit : List AuditEvent
  pub reports : List (Bytes × ReplayReport D)

-- `start` is what the member holds before a replay sets it.
unfoldable pub constructed :
    {K D : Type 0} ⦃d : Double D⦄ → ReplayConfig → Option K → ℤ → ReplayEngine K D
constructed ⦃d⦄ config risk_engine start = record {
  config = config;
  risk_engine = risk_engine;
  is_replaying = false;
  current_event_index = 0;
  playback_speed = d.lit 1 1;
  start_replay_timestamp = start;
  events = [];
  audit = [];
  reports = [];
}

-- A byte before the first of the parts.
abbrev prepend : ℕ → Bytes × Bytes → Bytes × Bytes
prepend b parts = (b ∷ parts.0, parts.1)

-- The text up to the delimiter, and what follows it.
unfoldable pub split_at : ℕ → Bytes → Bytes × Bytes
split_at delimiter [] = ([], [])
split_at delimiter (b ∷ text) =
    if b == delimiter then ([], text) else prepend b (split_at delimiter text)

-- `std::getline(stream, field, delimiter)`, which fails if the stream has nothing left.
unfoldable pub get_field : ℕ → Bytes → Option (Bytes × Bytes)
get_field delimiter [] = none
get_field delimiter (b ∷ text) = some (split_at delimiter (b ∷ text))

-- A byte before the first line.
abbrev pub on_first_line : ℕ → List Bytes → List Bytes
on_first_line b [] = (b ∷ []) ∷ []
on_first_line b (line ∷ lines) = (b ∷ line) ∷ lines

-- The lines that `std::getline(file, line)` reads one after the other.
unfoldable pub lines_of : Bytes → List Bytes
lines_of [] = []
lines_of (b ∷ text) =
    let rest = lines_of text in if b == 10 then [] ∷ rest else on_first_line b rest

-- `std::nullopt`, an event, or the exception of `std::stoll`.
pub data Parsed : Type 0 where
  no_event malformed : Parsed
  event : ReplayEvent → Parsed

abbrev pub parsed_event : ℕ → Option ℤ → Bytes → Bytes → Parsed
parsed_event number none type payload = malformed
parsed_event number (some timestamp) type payload = event (record {
  line_number = number;
  timestamp = timestamp;
  event_type = type;
  payload = payload;
  replayed = false;
  replay_result = [];
})

abbrev pub parse_payload : ℕ → Bytes → Bytes → Option (Bytes × Bytes) → Parsed
parse_payload number timestamp type none = no_event
parse_payload number timestamp type (some (payload, rest)) =
    parsed_event number (stoll timestamp) type payload

abbrev pub parse_type : ℕ → Bytes → Option (Bytes × Bytes) → Parsed
parse_type number timestamp none = no_event
parse_type number timestamp (some (type, rest)) =
    parse_payload number timestamp type (get_field 10 rest)

abbrev pub parse_timestamp : ℕ → Option (Bytes × Bytes) → Parsed
parse_timestamp number none = no_event
parse_timestamp number (some (timestamp, rest)) = parse_type number timestamp (get_field 124 rest)

-- The fields of a line are parted by '|'.
unfoldable pub parse_event : Bytes → ℕ → Parsed
parse_event line number = parse_timestamp number (get_field 124 line)

-- An empty line, or one that starts with '#'.
abbrev pub is_comment : Bytes → Bool
is_comment [] = true
is_comment (b ∷ line) = b == 35

-- What a line gives: a comment is passed over.
abbrev pub parse_line : Bytes → ℕ → Parsed
parse_line line number = if is_comment line then no_event else parse_event line number

abbrev pub is_malformed : Parsed → Bool
is_malformed malformed = true
is_malformed no_event = false
is_malformed (event e) = false

abbrev pub add_parsed : List ReplayEvent → Parsed → List ReplayEvent
add_parsed events (event e) = events ++ (e ∷ [])
add_parsed events no_event = events
add_parsed events malformed = events

-- The loop over the lines, with the events so far; `false` is the early return.
unfoldable pub load_lines : Bool → ℕ → List Bytes → List ReplayEvent → List ReplayEvent × Bool
load_lines skip number [] events = (events, true)
load_lines skip number (line ∷ lines) events =
    let later = load_lines skip (suc number) lines (add_parsed events (parse_line line number)) in
    if is_malformed (parse_line line number) && not skip then (events, false) else later

module _ {K D : Type 0} where
  unfoldable pub load_events_from_file : Option Bytes → ReplayEngine K D → ReplayEngine K D × Bool
  load_events_from_file none engine = (engine, false)
  load_events_from_file (some file) engine =
      let (events, loaded) = load_lines engine.config.skip_malformed_events 1 (lines_of file) [] in
      (record engine { events = events }, loaded)
