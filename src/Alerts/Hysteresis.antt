-- ===== src/Alerts/Hysteresis.antt =====
-- The hysteresis counter against the history of its condition: an alert is due at every third
-- observation in a row, and one good observation starts the count again.
use embedded_network_monitor.Prelude.{
  ℕ, suc, ◌%◌, ◌<◌, ◌≡◌, refl, ◌↔◌, Bool, true, false, List, [], ◌∷◌, arith, if◌then◌else◌,
}
use embedded_network_monitor.Alerts.State.{hysteresis, hyst_step}

-- the counter and the alarm after a history of observations, latest first
unfoldable pub hyst_run : List Bool → ℕ × Bool
hyst_run [] = (0, false)
hyst_run (bad ∷ earlier) = hyst_step bad (hyst_run earlier).0

-- how many of the latest observations were bad, in a row
unfoldable pub streak : List Bool → ℕ
streak [] = 0
streak (bad ∷ earlier) = let longer = suc (streak earlier) in if bad then longer else 0

hyst_run-lt : (history : List Bool) → (hyst_run history).0 < hysteresis
unfolding hyst_run hyst_step
hyst_run-lt [] = omega arith
hyst_run-lt (bad ∷ earlier) = ground (arith, hyst_run-lt earlier)

pub hyst_run-counter : (history : List Bool) → (hyst_run history).0 ≡ streak history % hysteresis
unfolding hyst_run hyst_step streak
hyst_run-counter [] = refl
hyst_run-counter (bad ∷ earlier) = ground (arith, hyst_run-counter earlier, hyst_run-lt earlier)

-- The alarm goes off at an observation exactly when it ends a streak of 3, 6, 9, … bad ones.
pub hyst_run_alarm :
    (history : List Bool)
    → ((hyst_run history).1 ≡ true) ↔ ((0 < streak history) × (streak history % hysteresis ≡ 0))
unfolding hyst_run hyst_step streak
hyst_run_alarm [] = ground arith
hyst_run_alarm (bad ∷ earlier) = ground (arith, hyst_run-counter earlier, hyst_run-lt earlier)
