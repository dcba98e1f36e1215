-- ===== src/Scheduler/Clock.antt =====
-- The twelve-hour clock of the instructions for Windows.
use dockvault.Common.{ℕ, ◌%◌, ◌≡◌, ◌≤◌, ◌<◌, ◌↔◌, codes, pos, pos_part, arith}
use dockvault.Scheduler.Windows.{hour_of_clock}

-- An hour of the day is shown as one from 1 to 12 that agrees with it on a clock, with PM exactly from
-- noon on.
hour_of_clock_lem :
    (h : ℕ)
    → h < 24
    → (1 ≤ pos_part (hour_of_clock (pos h)).0)
      × (pos_part (hour_of_clock (pos h)).0 ≤ 12)
      × (pos_part (hour_of_clock (pos h)).0 % 12 ≡ h % 12)
      × (((hour_of_clock (pos h)).1 ≡ codes "PM") ↔ (12 ≤ h))
unfolding hour_of_clock
hour_of_clock_lem h day = (ground arith, ground arith, ground arith, ground arith)
