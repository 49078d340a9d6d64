-- ===== src/Tests/Stocks.antt =====
-- What the scheduler holds and sends, at concrete inputs.
use split_flap_display_web.Prelude.{◌≤◌, refl, [], ◌∷◌, codes, All, length, arith}
use split_flap_display_web.Scheduler.Ticks.{
  adds, quiet, scheduler_tick, run_loop, run_calls, run_call,
}
use split_flap_display_web.Scheduler.Stock.{IsStocked}
use split_flap_display_web.Scheduler.Stock.Kept.{run_calls-IsStocked, run_loop-IsStocked}
use split_flap_display_web.Scheduler.Stock.Sent.{IsSendable, scheduler_tick-sends}
use split_flap_display_web.Tests.{utc, fresh, hello, urgent, greeted, busy, eventful}
use split_flap_display_web.Tests.Schedules.{busy-IsValid}

fresh-IsStocked : IsStocked fresh
fresh-IsStocked = record { sound = λ r lt. absurd (omega arith); target = refl; duration = refl }

busy-IsStocked : IsStocked busy
unfolding busy greeted run_calls run_call
busy-IsStocked =
    run_calls-IsStocked utc (adds (codes "a") 100 hello ∷ adds (codes "b") 200 urgent ∷ []) fresh
      fresh-IsStocked

run_loop-IsStocked_example : IsStocked (run_loop utc (eventful ∷ quiet 500 ∷ []) busy)
run_loop-IsStocked_example = run_loop-IsStocked utc (eventful ∷ quiet 500 ∷ []) busy busy-IsStocked

scheduler_tick-sends_example :
    (length (scheduler_tick utc eventful busy).sent ≤ 1)
    × All (IsSendable busy) (scheduler_tick utc eventful busy).sent
scheduler_tick-sends_example = scheduler_tick-sends utc eventful busy busy-IsValid busy-IsStocked
