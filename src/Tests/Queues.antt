-- ===== src/Tests/Queues.antt =====
-- The queue's theorems at concrete inputs.
use mathlib.Core.List.{Sublist}
use split_flap_display_web.Prelude.{
  ℕ, zero, suc, ◌+◌, ◌≡◌, ◌≢◌, refl, true, false, some, none, List, [], ◌∷◌, ◌++◌, arith,
}
use split_flap_display_web.Queue.{
  Queue, insert, signal, Op, pushes, pops, drains, waiting, pop, push_all, run, pushed,
}
use split_flap_display_web.Queue.Laws.{IsValid, keep_last, buf-push_all}
use split_flap_display_web.Queue.Delivery.{
  Reach, here, next, inserts, signals, wake, take_one, settle, IsTold, Reach-IsTold, run-sublist,
  run_fits,
}

-- Room for two.
abbrev two : Queue ℕ
two = record { cap = 2; buf = []; notify = false }

two-IsValid : IsValid two
two-IsValid = record { room = omega arith; fits = omega arith }

buf-push_all_example : (push_all two (1 ∷ 2 ∷ 3 ∷ [])).buf ≡ keep_last 2 (two.buf ++ 1 ∷ 2 ∷ 3 ∷ [])
buf-push_all_example = buf-push_all two (1 ∷ 2 ∷ 3 ∷ []) two-IsValid

-- Once the consumer has taken out the first element.
emptied : Queue ℕ
emptied = (pop (record (signal (insert two 1)) { notify = false })).1

-- One element is pushed and relayed; then the consumer waits, and a second element is inserted whose
-- producer has not signalled yet.
interleaved : Reach (waiting, 0, two) (waiting, 1, insert (pop emptied).1 2)
unfolding emptied insert signal pop
interleaved =
    next
      (next
        (next
          (next (next (next here (inserts waiting 0 two 1)) (signals waiting 0 (insert two 1)))
            (wake 0 (signal (insert two 1)) refl))
          (take_one 0 (record (signal (insert two 1)) { notify = false }) 1 refl))
        (settle 0 emptied refl))
      (inserts waiting 0 (pop emptied).1 2)

Reach-IsTold_example : IsTold (waiting, 1, insert (pop emptied).1 2)
Reach-IsTold_example = Reach-IsTold (λ ne. absurd (ne refl)) interleaved

schedule : List (Op ℕ)
schedule = pushes 1 ∷ pushes 2 ∷ pushes 3 ∷ pops ∷ pushes 4 ∷ drains ∷ []

run-sublist_example :
    Sublist ((run schedule two).0 ++ (run schedule two).1.buf) (two.buf ++ pushed schedule)
run-sublist_example = run-sublist schedule two two-IsValid

light : List (Op ℕ)
light = pushes 1 ∷ pops ∷ pushes 2 ∷ []

light_fits : 0 + split_flap_display_web.Prelude.length (pushed light) ≡ 2
unfolding light pushed
light_fits = refl

run_fits_example : (run light two).0 ++ (run light two).1.buf ≡ two.buf ++ pushed light
run_fits_example = run_fits light two two-IsValid (omega (arith, light_fits))
