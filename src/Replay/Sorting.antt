-- ===== src/Replay/Sorting.antt =====
-- A sort of events by their timestamps that has the properties of `std::sort`.
use mathlib.Core.List.{Perm}
use mathlib.Core.List.Perm
use challenge_8a2ffd.Common.{List, [], ◌∷◌, arith, if◌then◌else◌, if-cases, All, All-map}
use challenge_8a2ffd.Common.Int.{ℤ, ◌≤ℤ◌, ltb_ℤ}
use challenge_8a2ffd.Replay.{ReplayEvent}
use challenge_8a2ffd.Replay.Order.{IsAscending, IsSort}

insert_event : ReplayEvent → List ReplayEvent → List ReplayEvent
insert_event e [] = e ∷ []
insert_event e (f ∷ events) =
    let rest = insert_event e events in
    if ltb_ℤ f.timestamp e.timestamp then f ∷ rest else e ∷ f ∷ events

unfoldable pub sort_events : List ReplayEvent → List ReplayEvent
unfolding insert_event
sort_events [] = []
sort_events (e ∷ events) = insert_event e (sort_events events)

insert_event-perm :
    (e : ReplayEvent) (events : List ReplayEvent) → Perm (insert_event e events) (e ∷ events)
unfolding insert_event
insert_event-perm e [] = Perm.rfl
insert_event-perm e (f ∷ events) =
    if-cases (λ l. Perm l (e ∷ f ∷ events)) (ltb_ℤ f.timestamp e.timestamp)
      (λ _. Perm.trans (Perm.cons f (insert_event-perm e events)) (Perm.swap e f events))
      λ _. Perm.rfl

insert_event-above :
    (bound : ℤ) (e : ReplayEvent) (events : List ReplayEvent)
    → bound ≤ℤ e.timestamp
    → All (λ f. bound ≤ℤ f.timestamp) events
    → All (λ f. bound ≤ℤ f.timestamp) (insert_event e events)
unfolding insert_event
insert_event-above bound e [] h hs = (h, tt)
insert_event-above bound e (f ∷ events) h (k, hs) =
    if-cases (All (λ f. bound ≤ℤ f.timestamp)) (ltb_ℤ f.timestamp e.timestamp)
      (λ _. (k, insert_event-above bound e events h hs)) λ _. (h, (k, hs))

insert_event-IsAscending :
    (e : ReplayEvent) (events : List ReplayEvent)
    → IsAscending events
    → IsAscending (insert_event e events)
unfolding insert_event
insert_event-IsAscending e [] h = (tt, tt)
insert_event-IsAscending e (f ∷ events) (h, hs) =
    if-cases IsAscending (ltb_ℤ f.timestamp e.timestamp)
      (λ t. (
        insert_event-above f.timestamp e events (ground arith) h,
        insert_event-IsAscending e events hs,
      ))
      λ t.
        let first : e.timestamp ≤ℤ f.timestamp = ground arith in
        (
          (
            first,
            All-map (λ g. f.timestamp ≤ℤ g.timestamp) (λ g. e.timestamp ≤ℤ g.timestamp)
                (λ g k. omega arith) events h,
          ),
          (h, hs),
        )

sort_events-perm : (events : List ReplayEvent) → Perm (sort_events events) events
unfolding sort_events
sort_events-perm [] = Perm.rfl
sort_events-perm (e ∷ events) =
    Perm.trans (insert_event-perm e (sort_events events)) (Perm.cons e (sort_events-perm events))

sort_events-IsAscending : (events : List ReplayEvent) → IsAscending (sort_events events)
unfolding sort_events
sort_events-IsAscending [] = tt
sort_events-IsAscending (e ∷ events) =
    insert_event-IsAscending e (sort_events events) (sort_events-IsAscending events)

pub sort_events-IsSort : IsSort sort_events
sort_events-IsSort = record { perm = sort_events-perm; ascending = sort_events-IsAscending }
