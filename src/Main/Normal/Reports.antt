-- ===== src/Main/Normal/Reports.antt =====
-- The reports of the normal mode (src/main.cpp).
use mathlib.Core.Path.{subst}
use challenge_8a2ffd.Common.{
  ℕ, suc, ◌+◌, ◌≤◌, ◌<◌, ◌≡◌, refl, ap, true, false, Bool, Option, none, some, List, [], ◌∷◌, arith,
  length, if-cases,
}
use challenge_8a2ffd.Common.Json.{◌>>=◌}
use challenge_8a2ffd.Main.{RiskEngineConfig}
use challenge_8a2ffd.Main.Normal.{
  NormalCalls, NormalLoop, Report, finished, finished_or_thrown, kill_switch_settings,
  circuit_breaker_settings, count_event, add_report, is_due, report_if_due, normal_turn,
  normal_loop, run_normal_mode,
}

-- The latest report's reading and count.
abbrev latest_time : {S : Type 0} → ℕ → List (Report S) → ℕ
latest_time start [] = start
latest_time start (r ∷ rs) = r.time

abbrev latest_count : {S : Type 0} → List (Report S) → ℕ
latest_count [] = 0
latest_count (r ∷ rs) = r.event_count

-- Each report is ten seconds or more after the one before, and does not count fewer events.
abbrev pub IsSpaced : {S : Type 0} → ℕ → List (Report S) → Type 0
IsSpaced start [] = Unit
IsSpaced start (r ∷ rs) =
    (latest_time start rs + 10000000000 ≤ r.time)
    × (latest_count rs ≤ r.event_count)
    × IsSpaced start rs

-- The last reading of the clock.
abbrev pub last_reading : ℕ → List ℕ → ℕ
last_reading start [] = start
last_reading start (now ∷ readings) = last_reading now readings

pub record IsReported {K S : Type 0} (start turns now : ℕ) (l : NormalLoop K S) : Type 0 where
  pub spaced : IsSpaced start l.reports
  pub latest : l.last_report ≡ latest_time start l.reports
  pub counted : latest_count l.reports ≤ l.event_count
  pub at_most : l.event_count ≤ turns
  pub punctual : now < l.last_report + 10000000000

module _ {K S D : Type 0} (calls : NormalCalls K S D) where
  -- A result that is there, whose value is as a predicate says.
  abbrev pub Gives : {A : Type 0} → (A → Type 0) → Option A → Type 0
  Gives P none = ⊥
  Gives P (some x) = P x

  -- The engine's functions that the loop calls throw nothing.
  pub record IsCalm : Type 0 where
    pub processes : (k : K) → Gives (λ _. Unit) (calls.process_events k)
    pub reports : (k : K) → Gives (λ _. Unit) (calls.get_statistics k)

  -- What `IsReported` says, but for the time of the last reading.
  report_if_due-IsReported :
      (start turns before now : ℕ) (l : NormalLoop K S)
      → IsCalm
      → IsReported start turns before l
      → Gives (IsReported start turns now) (report_if_due calls now l)
  report_if_due-IsReported start turns before now l calm h =
      if-cases (Gives (IsReported start turns now)) (is_due now l)
        (λ due. reported due (calls.get_statistics l.engine) (calm.reports l.engine))
        λ early. record {
          spaced = h.spaced;
          latest = h.latest;
          counted = h.counted;
          at_most = h.at_most;
          punctual = ground arith;
        }
    where
      reported :
          is_due now l ≡ true
          → (o : Option (K × S)) → Gives (λ _. Unit) o
          → Gives (IsReported start turns now) (o >>= λ result. some (add_report now l result))
      reported due none impossible = absurd impossible
      reported due (some result) _ = record {
        spaced = (ground (arith, h.latest), h.counted, h.spaced);
        latest = refl;
        counted = omega arith;
        at_most = h.at_most;
        punctual = omega arith;
      }

  normal_turn-IsReported :
      (start turns before now : ℕ) (l : NormalLoop K S)
      → IsCalm
      → IsReported start turns before l
      → Gives (IsReported start (suc turns) now) (normal_turn calls now l)
  unfolding normal_turn
  normal_turn-IsReported start turns before now l calm h =
      processed (calls.process_events l.engine) (calm.processes l.engine)
    where
      processed :
          (o : Option (K × Bool))
          → Gives (λ _. Unit) o
          → Gives
              (IsReported start (suc turns) now)
              (o >>= λ result. report_if_due calls now (count_event l result))
      processed none impossible = absurd impossible
      processed (some (k, true)) _ =
          report_if_due-IsReported start (suc turns) before now (count_event l (k, true)) calm
            (record {
              spaced = h.spaced;
              latest = h.latest;
              counted = omega (arith, h.counted);
              at_most = omega (arith, h.at_most);
              punctual = h.punctual;
            })
      processed (some (k, false)) _ =
          report_if_due-IsReported start (suc turns) before now (count_event l (k, false)) calm
            (record {
              spaced = h.spaced;
              latest = h.latest;
              counted = h.counted;
              at_most = omega (arith, h.at_most);
              punctual = h.punctual;
            })

  normal_loop-IsReported :
      (start turns before : ℕ) (readings : List ℕ) (l : NormalLoop K S)
      → IsCalm
      → IsReported start turns before l
      → Gives
          (IsReported start (turns + length readings) (last_reading before readings))
          (normal_loop calls readings l)
  unfolding normal_loop
  normal_loop-IsReported start turns before [] l calm h = record {
    spaced = h.spaced;
    latest = h.latest;
    counted = h.counted;
    at_most = omega (arith, h.at_most);
    punctual = h.punctual;
  }
  normal_loop-IsReported start turns before (now ∷ readings) l calm h =
      turned (λ l' h'. normal_loop-IsReported start (suc turns) now readings l' calm h')
        (normal_turn calls now l) (normal_turn-IsReported start turns before now l calm h)
    where
      turned :
          ((l' : NormalLoop K S)
            → IsReported start (suc turns) now l'
            → Gives
                (IsReported start (suc turns + length readings) (last_reading now readings))
                (normal_loop calls readings l'))
          → (o : Option (NormalLoop K S)) → Gives (IsReported start (suc turns) now) o
          → Gives
              (IsReported start (turns + length (now ∷ readings)) (last_reading now readings))
              (o >>= normal_loop calls readings)
      turned later none impossible = absurd impossible
      turned later (some l') h' =
          let more : suc turns + length readings ≡ turns + length (now ∷ readings) = omega arith in
          subst
            (λ n.
              Gives (IsReported start n (last_reading now readings))
                (normal_loop calls readings l'))
            more (later l' h')

  -- The normal mode, with a risk engine that is created and initialized and throws nothing, ends at the
  -- signal with reports of which each is ten seconds or more after the one before and counts no
  -- fewer events; less than ten seconds passed from the last one, or from the start, to the last
  -- turn, and no more events are counted than there were turns.
  pub run_normal_mode-IsReported :
      (config : RiskEngineConfig D) (start : ℕ) (readings : List ℕ) (k k' : K)
      → calls.create config ≡ some k
      → calls.initialize k ≡ some (k', true)
      → IsCalm
      → (l : NormalLoop K S) × (run_normal_mode calls config start readings ≡ finished l)
        × IsReported start (length readings) (last_reading start readings) l
  unfolding run_normal_mode
  run_normal_mode-IsReported config start readings k k' created initialized calm =
      let (l, e, h) = given (normal_loop calls readings (first k')) (
        normal_loop-IsReported start 0 start readings (first k') calm (record {
          spaced = tt;
          latest = refl;
          counted = omega arith;
          at_most = omega arith;
          punctual = omega arith;
        })) in
      (
        l,
        simp (created, initialized) (ap finished_or_thrown e),
        record {
          spaced = h.spaced;
          latest = h.latest;
          counted = h.counted;
          at_most = omega (arith, h.at_most);
          punctual = h.punctual;
        },
      )
    where
      first : K → NormalLoop K S
      first k = record {
        engine =
            calls.set_circuit_breaker (circuit_breaker_settings config)
              (calls.set_kill_switch (kill_switch_settings config) k);
        event_count = 0;
        last_report = start;
        reports = [];
      }

      given :
          {P : NormalLoop K S → Type 0}
          → (o : Option (NormalLoop K S)) → Gives P o
          → (l : NormalLoop K S) × (o ≡ some l) × P l
      given none impossible = absurd impossible
      given (some l) p = (l, refl, p)
