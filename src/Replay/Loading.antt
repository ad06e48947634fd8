-- ===== src/Replay/Loading.antt =====
-- Which events a file gives (src/application/ReplayEngine.cpp).
use mathlib.Core.List.{append-nil, append_assoc}
use challenge_8a2ffd.Common.{
  ℕ, suc, ◌≡◌, refl, ap, ◌∙◌, Bool, true, false, not, ◌&&◌, some, List, [], ◌∷◌, ◌++◌,
}
use challenge_8a2ffd.Sharding.Hash.{Bytes}
use challenge_8a2ffd.Replay.{
  ReplayEvent, ReplayEngine, Parsed, event, no_event, malformed, lines_of, parse_line, is_malformed,
  add_parsed, load_lines, load_events_from_file,
}

-- The events of the lines, each read by itself.
abbrev pub parsed_lines : ℕ → List Bytes → List ReplayEvent
parsed_lines number [] = []
parsed_lines number (line ∷ lines) =
    add_parsed [] (parse_line line number) ++ parsed_lines (suc number) lines

abbrev pub IsWellFormed : ℕ → List Bytes → Type 0
IsWellFormed number [] = Unit
IsWellFormed number (line ∷ lines) =
    (is_malformed (parse_line line number) ≡ false) × IsWellFormed (suc number) lines

add_parsed-append :
    (events : List ReplayEvent) (p : Parsed) (l : List ReplayEvent)
    → add_parsed events p ++ l ≡ events ++ (add_parsed [] p ++ l)
add_parsed-append events no_event l = refl
add_parsed-append events malformed l = refl
add_parsed-append events (event e) l = append_assoc events (e ∷ []) l

load_lines-later :
    (skip : Bool) (number : ℕ) (line : Bytes) (lines : List Bytes) (events : List ReplayEvent)
    → (is_malformed (parse_line line number) && not skip) ≡ false
    → load_lines skip number (line ∷ lines) events
      ≡ load_lines skip (suc number) lines (add_parsed events (parse_line line number))
unfolding load_lines
load_lines-later skip number line lines events e = rw e refl

load_lines-step :
    (skip : Bool) (number : ℕ) (line : Bytes) (lines : List Bytes) (events : List ReplayEvent)
    → (is_malformed (parse_line line number) && not skip) ≡ false
    → load_lines skip (suc number) lines (add_parsed events (parse_line line number))
      ≡ (add_parsed events (parse_line line number) ++ parsed_lines (suc number) lines, true)
    → load_lines skip number (line ∷ lines) events
      ≡ (events ++ parsed_lines number (line ∷ lines), true)
load_lines-step skip number line lines events e h =
    load_lines-later skip number line lines events e
    ∙ h
    ∙ ap (λ l. (l, true))
        (add_parsed-append events (parse_line line number) (parsed_lines (suc number) lines))

and-false : (b : Bool) → (b && false) ≡ false
and-false true = refl
and-false false = refl

-- Malformed lines are passed over where the configuration says so.
pub load_lines-skipping :
    (number : ℕ) (lines : List Bytes) (events : List ReplayEvent)
    → load_lines true number lines events ≡ (events ++ parsed_lines number lines, true)
unfolding load_lines
load_lines-skipping number [] events = rw append-nil refl
load_lines-skipping number (line ∷ lines) events =
    load_lines-step true number line lines events
      (and-false (is_malformed (parse_line line number)))
      (load_lines-skipping (suc number) lines (add_parsed events (parse_line line number)))

pub load_lines-well_formed :
    (skip : Bool) (number : ℕ) (lines : List Bytes) (events : List ReplayEvent)
    → IsWellFormed number lines
    → load_lines skip number lines events ≡ (events ++ parsed_lines number lines, true)
unfolding load_lines
load_lines-well_formed skip number [] events w = rw append-nil refl
load_lines-well_formed skip number (line ∷ lines) events (w, ws) =
    load_lines-step skip number line lines events (rw w refl) (
      load_lines-well_formed skip (suc number) lines (add_parsed events (parse_line line number))
        ws)

abbrev pub number_after : ℕ → List Bytes → ℕ
number_after number [] = number
number_after number (line ∷ lines) = number_after (suc number) lines

load_lines-stops :
    (number : ℕ) (good : List Bytes) (bad : Bytes) (rest : List Bytes) (events : List ReplayEvent)
    → IsWellFormed number good
    → is_malformed (parse_line bad (number_after number good)) ≡ true
    → load_lines false number (good ++ (bad ∷ rest)) events
      ≡ (events ++ parsed_lines number good, false)
unfolding load_lines
load_lines-stops number [] bad rest events w e = rw append-nil (rw e refl)
load_lines-stops number (line ∷ good) bad rest events (w, ws) e =
    load_lines-later false number line (good ++ (bad ∷ rest)) events (rw w refl)
    ∙ load_lines-stops (suc number) good bad rest (add_parsed events (parse_line line number)) ws e
    ∙ ap (λ l. (l, false))
        (add_parsed-append events (parse_line line number) (parsed_lines (suc number) good))

module _ {K D : Type 0} where
  -- A line with a timestamp that is no number stops the load if malformed events are not skipped:
  -- the answer is an error, and the events of the lines before it stay in the engine.
  pub load_events_from_file-stops :
      (engine : ReplayEngine K D) (file : Bytes) (good : List Bytes) (bad : Bytes)
      (rest : List Bytes)
      → engine.config.skip_malformed_events ≡ false
      → lines_of file ≡ good ++ (bad ∷ rest)
      → IsWellFormed 1 good
      → is_malformed (parse_line bad (number_after 1 good)) ≡ true
      → load_events_from_file (some file) engine
        ≡ (record engine { events = parsed_lines 1 good }, false)
  unfolding load_events_from_file
  load_events_from_file-stops engine file good bad rest k e w b =
      simp (k, e, load_lines-stops 1 good bad rest [] w b) refl

  -- With malformed events skipped every file that can be opened is loaded: its events are those
  -- that each line gives by itself, in the order of the lines and with their numbers.
  pub load_events_from_file-skips :
      (engine : ReplayEngine K D) (file : Bytes)
      → engine.config.skip_malformed_events ≡ true
      → load_events_from_file (some file) engine
        ≡ (record engine { events = parsed_lines 1 (lines_of file) }, true)
  unfolding load_events_from_file
  load_events_from_file-skips engine file k =
      simp (k, load_lines-skipping 1 (lines_of file) []) refl
