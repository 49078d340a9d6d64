-- ===== src/Tests/Failures.antt =====
-- A refused publish, at a concrete input.
use split_flap_display_web.Prelude.{Bool, true, Text, refl}
use split_flap_display_web.Scheduler.Ticks.{scheduler_tick}
use split_flap_display_web.Scheduler.Ticks.Failure.{Failed, unattended, scheduler_tick-Failed}
use split_flap_display_web.Tests.{utc, busy}
use split_flap_display_web.Tests.Schedules.{busy-IsValid, busy_selects}

abbrev refuses_all : Text → Text → Bool
refuses_all topic payload = true

scheduler_tick-Failed_example :
    Failed utc 1 busy (scheduler_tick utc (unattended refuses_all 500) busy)
scheduler_tick-Failed_example =
    scheduler_tick-Failed utc refuses_all 500 1 busy busy-IsValid busy_selects refl
