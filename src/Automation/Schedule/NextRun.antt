-- ===== src/Automation/Schedule/NextRun.antt =====
-- automation/scheduler/schedule.py: where the next run of a schedule lies.
use browser_cli.Prelude.{
  ℕ, ◌+◌, ◌-◌, ◌*◌, ◌/◌, ◌%◌, ◌≤◌, ◌<◌, ◌≡◌, inl, inr, leb, leb→le, leb_false→lt, Bool-cases, arith,
}
use browser_cli.Automation.Schedule.{a_day, at_time, next_daily, next_weekly, weekday_of}

-- After `local`, by a period at most, and at the hour and the minute.
abbrev pub IsNext : ℕ → ℕ → ℕ → ℕ → ℕ → Type 0
IsNext period local hour minute next =
    (local < next) × (next ≤ local + period) × (next % a_day ≡ (hour * 60 + minute) * 60000000)

-- The daily run is after the local time by a day at most, at the hour and the minute.
pub next_daily-IsNext :
    (local hour minute : ℕ)
    → hour ≤ 23
    → minute ≤ 59
    → IsNext a_day local hour minute (next_daily local hour minute)
unfolding next_daily at_time
next_daily-IsNext local hour minute h m =
    elim (Bool-cases (leb (local / a_day * a_day + (hour * 60 + minute) * 60000000) local)) [
      | inl e ↦
          let past = leb→le _ _ e in
          rw e (omega (arith, h, m, past), omega (arith, h, m, past), omega (arith, h, m, past))
      | inr e ↦
          let ahead = leb_false→lt _ _ e in
          rw e (omega (arith, h, m, ahead), omega (arith, h, m, ahead), omega (arith, h, m, ahead))
    ]

-- The weekly run is after the local time by a week at most, on the weekday, at the hour and the minute.
pub next_weekly-IsNext :
    (local weekday hour minute : ℕ)
    → weekday ≤ 6
    → hour ≤ 23
    → minute ≤ 59
    → IsNext (7 * a_day) local hour minute (next_weekly local weekday hour minute)
      × (weekday_of (next_weekly local weekday hour minute) ≡ weekday)
unfolding next_weekly at_time weekday_of
next_weekly-IsNext local weekday hour minute d h m =
    elim (Bool-cases (
      leb
        (local / a_day * a_day
          + (hour * 60 + minute) * 60000000
          + (weekday + 7 - (local / a_day + 6) % 7) % 7 * a_day)
        local)) [
          | inl e ↦
              let past = leb→le _ _ e in
              rw e (
                (
                  omega (arith, d, h, m, past),
                  omega (arith, d, h, m, past),
                  omega (arith, d, h, m, past),
                ),
                omega (arith, d, h, m, past),
              )
          | inr e ↦
              let ahead = leb_false→lt _ _ e in
              rw e (
                (
                  omega (arith, d, h, m, ahead),
                  omega (arith, d, h, m, ahead),
                  omega (arith, d, h, m, ahead),
                ),
                omega (arith, d, h, m, ahead),
              )
        ]
