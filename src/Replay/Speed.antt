-- ===== src/Replay/Speed.antt =====
-- `setPlaybackSpeed` (src/application/ReplayEngine.cpp).
use challenge_8a2ffd.Common.{◌≡◌, true, if◌then◌else◌, if-cases}
use challenge_8a2ffd.Common.Double.{Double, IsOrdered}
use challenge_8a2ffd.Replay.{ReplayEngine}

module _ {D : Type 0} ⦃d : Double D⦄ where
  -- `std::min` and `std::max`, which give the first argument where nothing is smaller or larger.
  abbrev pub std_min : D → D → D
  std_min a b = if d.lt b a then b else a

  abbrev pub std_max : D → D → D
  std_max a b = if d.lt a b then b else a

  abbrev pub clamped : D → D
  clamped speed = std_max (d.lit 1 10) (std_min (d.lit 10 1) speed)

  unfoldable pub set_playback_speed : {K : Type 0} → D → ReplayEngine K D → ReplayEngine K D
  set_playback_speed speed engine = record engine { playback_speed = clamped speed }

  -- Between the two limits.
  abbrev pub IsClamped : D → Type 0
  IsClamped x = (d.le (d.lit 1 10) x ≡ true) × (d.le x (d.lit 10 1) ≡ true)

  -- The playback speed is between 0.1 and 10 after every change, also for a speed that is no number.
  pub set_playback_speed-IsClamped :
      {K : Type 0} (speed : D) (engine : ReplayEngine K D)
      → IsOrdered D
      → d.lt (d.lit 1 10) (d.lit 10 1) ≡ true
      → d.le (d.lit 1 10) (d.lit 1 10) ≡ true
      → d.le (d.lit 10 1) (d.lit 10 1) ≡ true
      → IsClamped (set_playback_speed speed engine).playback_speed
  unfolding set_playback_speed
  set_playback_speed-IsClamped speed engine o between low high =
      if-cases (λ x. IsClamped (std_max (d.lit 1 10) x)) (d.lt speed (d.lit 10 1))
        (λ below.
          if-cases IsClamped (d.lt (d.lit 1 10) speed)
            (λ above. (o.le_of_lt (d.lit 1 10) speed above, o.le_of_lt speed (d.lit 10 1) below))
            λ _. (low, o.le_of_lt (d.lit 1 10) (d.lit 10 1) between))
        λ _.
          if-cases IsClamped (d.lt (d.lit 1 10) (d.lit 10 1))
            (λ _. (o.le_of_lt (d.lit 1 10) (d.lit 10 1) between, high))
            λ _. (low, o.le_of_lt (d.lit 1 10) (d.lit 10 1) between)
