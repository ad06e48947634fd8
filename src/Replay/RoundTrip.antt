-- ===== src/Replay/RoundTrip.antt =====
-- A file written from events loads as those events (src/application/ReplayEngine.cpp).
use challenge_8a2ffd.Common.{
  ℕ, suc, ◌^◌, ◌<◌, ◌≡◌, ◌≢◌, refl, ap, ◌∙◌, true, false, some, List, [], ◌∷◌, ◌++◌, arith, length,
  ◌==◌, ==_self, All, All-map, All-append, ◌⊎◌, inl, inr, map,
}
use challenge_8a2ffd.Common.Int.{pos}
use challenge_8a2ffd.Sharding.Hash.{Bytes, to_string}
use challenge_8a2ffd.Texts.Numbers.{IsDigit, to_string-IsDigit, length-to_string, stoll-to_string}
use challenge_8a2ffd.Replay.{
  ReplayEvent, ReplayEngine, event, split_at, get_field, lines_of, parsed_event, parse_payload,
  parse_type, parse_timestamp, parse_event, parse_line, is_comment, is_malformed, add_parsed,
  load_events_from_file,
}
use challenge_8a2ffd.Replay.Loading.{parsed_lines, IsWellFormed, load_lines-well_formed}

-- What a recorder writes of an event.
pub record Recorded : Type 0 where
  pub timestamp : ℕ
  pub event_type : Bytes
  pub payload : Bytes

-- No byte of the text is this one.
abbrev pub IsWithout : ℕ → Bytes → Type 0
IsWithout delimiter text = All (λ b. b ≢ delimiter) text

pub record IsWritable (e : Recorded) : Type 0 where
  pub timed : e.timestamp < 2 ^ 63
  pub type_fields : IsWithout 124 e.event_type
  pub type_lines : IsWithout 10 e.event_type
  pub payload_lines : IsWithout 10 e.payload
  pub has_payload : 0 < length e.payload

-- `timestamp|type|payload`
abbrev pub write_line : Recorded → Bytes
write_line e = to_string e.timestamp ++ (124 ∷ (e.event_type ++ (124 ∷ e.payload)))

abbrev pub write_file : List Recorded → Bytes
write_file [] = []
write_file (e ∷ es) = write_line e ++ (10 ∷ write_file es)

-- The event of a line.
abbrev pub as_event : ℕ → Recorded → ReplayEvent
as_event number e = record {
  line_number = number;
  timestamp = pos e.timestamp;
  event_type = e.event_type;
  payload = e.payload;
  replayed = false;
  replay_result = [];
}

-- The events with the numbers of their lines.
abbrev pub numbered : ℕ → List Recorded → List ReplayEvent
numbered number [] = []
numbered number (e ∷ es) = as_event number e ∷ numbered (suc number) es

split_at-append :
    (delimiter : ℕ) (k rest : Bytes)
    → IsWithout delimiter k
    → split_at delimiter (k ++ (delimiter ∷ rest)) ≡ (k, rest)
unfolding split_at
split_at-append delimiter [] rest w = rw (==_self delimiter) refl
split_at-append delimiter (b ∷ k) rest (w, ws) =
    let other : (b == delimiter) ≡ false = ground arith in
    rw other (rw (split_at-append delimiter k rest ws) refl)

split_at-whole :
    (delimiter : ℕ) (k : Bytes) → IsWithout delimiter k → split_at delimiter k ≡ (k, [])
unfolding split_at
split_at-whole delimiter [] w = refl
split_at-whole delimiter (b ∷ k) (w, ws) =
    let other : (b == delimiter) ≡ false = ground arith in
    rw other (rw (split_at-whole delimiter k ws) refl)

get_field-append :
    (delimiter : ℕ) (k rest : Bytes)
    → IsWithout delimiter k
    → get_field delimiter (k ++ (delimiter ∷ rest)) ≡ some (k, rest)
unfolding get_field
get_field-append delimiter [] rest w = ap some (split_at-append delimiter [] rest w)
get_field-append delimiter (b ∷ k) rest w = ap some (split_at-append delimiter (b ∷ k) rest w)

get_field-whole :
    (delimiter : ℕ) (k : Bytes)
    → 0 < length k
    → IsWithout delimiter k
    → get_field delimiter k ≡ some (k, [])
unfolding get_field
get_field-whole delimiter [] p w = absurd (omega arith)
get_field-whole delimiter (b ∷ k) p w = ap some (split_at-whole delimiter (b ∷ k) w)

lines_of-append :
    (k rest : Bytes) → IsWithout 10 k → lines_of (k ++ (10 ∷ rest)) ≡ k ∷ lines_of rest
unfolding lines_of
lines_of-append [] rest w = refl
lines_of-append (b ∷ k) rest (w, ws) =
    let other : (b == 10) ≡ false = ground arith in rw other (rw (lines_of-append k rest ws) refl)

to_string-IsWithout :
    (delimiter n : ℕ) → (delimiter < 48) ⊎ (57 < delimiter) → IsWithout delimiter (to_string n)
to_string-IsWithout delimiter n h =
    All-map IsDigit (λ b. b ≢ delimiter) (differs delimiter h) (to_string n) (to_string-IsDigit n)
  where
    differs :
        (delimiter : ℕ) → (delimiter < 48) ⊎ (57 < delimiter) → (b : ℕ) → IsDigit b → b ≢ delimiter
    differs delimiter (inl low) b (d, d') = omega arith
    differs delimiter (inr high) b (d, d') = omega arith

is_comment-digits : (k rest : Bytes) → 0 < length k → All IsDigit k → is_comment (k ++ rest) ≡ false
is_comment-digits [] rest p d = absurd (omega arith)
is_comment-digits (b ∷ k) rest p ((low, high), d) = ground arith

parse_event-write_line :
    (e : Recorded) (number : ℕ)
    → IsWritable e
    → parse_event (write_line e) number
      ≡ event (record {
        line_number = number;
        timestamp = pos e.timestamp;
        event_type = e.event_type;
        payload = e.payload;
        replayed = false;
        replay_result = [];
      })
unfolding parse_event
parse_event-write_line e number w =
    ap (parse_timestamp number) (
      get_field-append 124 (to_string e.timestamp) (e.event_type ++ (124 ∷ e.payload))
        (to_string-IsWithout 124 e.timestamp (inr (omega arith))))
    ∙ ap (parse_type number (to_string e.timestamp))
        (get_field-append 124 e.event_type e.payload w.type_fields)
    ∙ ap (parse_payload number (to_string e.timestamp) e.event_type)
        (get_field-whole 10 e.payload w.has_payload w.payload_lines)
    ∙ ap (λ t. parsed_event number t e.event_type e.payload) (stoll-to_string e.timestamp w.timed)

parse_line-write_line :
    (e : Recorded) (number : ℕ)
    → IsWritable e
    → parse_line (write_line e) number
      ≡ event (record {
        line_number = number;
        timestamp = pos e.timestamp;
        event_type = e.event_type;
        payload = e.payload;
        replayed = false;
        replay_result = [];
      })
parse_line-write_line e number w =
    rw
      (is_comment-digits (to_string e.timestamp) (124 ∷ (e.event_type ++ (124 ∷ e.payload)))
        (length-to_string e.timestamp) (to_string-IsDigit e.timestamp))
      (parse_event-write_line e number w)

write_line-IsWithout : (e : Recorded) → IsWritable e → IsWithout 10 (write_line e)
write_line-IsWithout e w =
    All-append (λ b. b ≢ 10) (to_string e.timestamp) (124 ∷ (e.event_type ++ (124 ∷ e.payload)))
      (to_string-IsWithout 10 e.timestamp (inl (omega arith)))
      (
        omega arith,
        All-append (λ b. b ≢ 10) e.event_type (124 ∷ e.payload) w.type_lines
            (omega arith, w.payload_lines),
      )

lines_of-write_file :
    (es : List Recorded) → All IsWritable es → lines_of (write_file es) ≡ map write_line es
unfolding lines_of
lines_of-write_file [] w = refl
lines_of-write_file (e ∷ es) (w, ws) =
    lines_of-append (write_line e) (write_file es) (write_line-IsWithout e w)
    ∙ ap (◌∷◌ (write_line e)) (lines_of-write_file es ws)

written_lines :
    (number : ℕ) (es : List Recorded)
    → All IsWritable es
    → IsWellFormed number (map write_line es)
      × (parsed_lines number (map write_line es) ≡ numbered number es)
written_lines number [] w = (tt, refl)
written_lines number (e ∷ es) (w, ws) =
    let line = parse_line-write_line e number w in
    let (good, same) = written_lines (suc number) es ws in
    (
      (ap is_malformed line, good),
      ap (λ p. add_parsed [] p ++ parsed_lines (suc number) (map write_line es)) line
          ∙ ap (◌∷◌ (as_event number e)) same,
    )

module _ {K D : Type 0} where
  -- A file with one line `timestamp|type|payload` for each event loads as these events in their
  -- order, with the numbers of their lines, whether or not malformed events are skipped. Timestamps
  -- are below 2 ^ 63, types hold no '|' and no line break, payloads hold no line break and are not
  -- empty.
  pub load_events_from_file-write_file :
      (engine : ReplayEngine K D) (es : List Recorded)
      → All IsWritable es
      → load_events_from_file (some (write_file es)) engine
        ≡ (record engine { events = numbered 1 es }, true)
  unfolding load_events_from_file
  load_events_from_file-write_file engine es w =
      let (good, same) = written_lines 1 es w in
      simp
        (
          lines_of-write_file es w,
          load_lines-well_formed engine.config.skip_malformed_events 1 (map write_line es) [] good,
          same,
        )
        refl
