-- ===== src/Scheduler/Loop.antt =====
-- The invariant over the ticks and the loop that Start runs.
use split_flap_display_web.Prelude.{
  ℕ, ◌<◌, ◌≡◌, refl, inl, inr, Bool, true, false, Option, none, some, List, [], ◌∷◌, if◌then◌else◌,
  All-In, All-keep_if, values, Bool-cases,
}
use split_flap_display_web.Models.{Zone}
use split_flap_display_web.Store.{list_active, active_at}
use split_flap_display_web.Scheduler.{Scheduler, wait_wakeup, active_messages, select_next_message}
use split_flap_display_web.Scheduler.Ticks.{
  Env, Ticked, show, clear_current, record_display, complete, after_dwell, clear_if_set,
  handle_idle, display, tick_of, scheduler_tick, run_loop, reached_target,
}
use split_flap_display_web.Scheduler.Rendering.{publish_payload}
use split_flap_display_web.Scheduler.Invariant.{
  IsValid, notify-IsValid, current_live, run_calls-IsValid,
}
use split_flap_display_web.Scheduler.Selection.{select_next_message-first}
use split_flap_display_web.Scheduler.Holdings.{
  values_allocated, update-Holds, mark_completed_by_id-Holds,
}

pub select-live :
    (s : Scheduler) (r : ℕ) → IsValid s → select_next_message s ≡ some r → r < s.heap.next
unfolding list_active
select-live s r v e =
    All-In (λ a. a < s.heap.next) (active_messages s)
      (All-keep_if (λ a. a < s.heap.next) (active_at s.heap) (values s.store.by_id)
        (values_allocated s.heap.next s.store.by_id v.holds.stored.allocated))
      (select_next_message-first s r e).0

some_injective : (a b : ℕ) → ◌≡◌ {A = Option ℕ} (some a) (some b) → b ≡ a
some_injective a b e = cc

pub show-IsValid :
    (z : Zone) (r : ℕ) (s : Scheduler) → r < s.heap.next → IsValid s → IsValid (show z r s)
unfolding show
show-IsValid z r s lt v =
    notify-IsValid _ (record s { current = some r })
      (current_live (some r) s (λ a e. rw (some_injective r a e) lt) v)

clear_current-IsValid : (s : Scheduler) → IsValid s → IsValid (clear_current s)
unfolding clear_current
clear_current-IsValid s v =
    notify-IsValid _ (record s { current = none }) (current_live none s (λ a e. cc) v)

record_display-IsValid :
    (z : Zone) (now r : ℕ) (s : Scheduler) → IsValid s → IsValid (record_display z now r s)
unfolding record_display
record_display-IsValid z now r s v = notify-IsValid _ _ (
    notify-IsValid _ _ (record {
      holds = update-Holds now (s.heap.cell r).id s.heap s.store s.current s.hist v.holds;
      hub = v.hub;
    }))

complete-IsValid : (z : Zone) (r : ℕ) (s : Scheduler) → IsValid s → IsValid (complete z r s)
unfolding complete
complete-IsValid z r s v = notify-IsValid _ _ (record {
  holds =
      mark_completed_by_id-Holds (s.heap.cell r).id s.heap s.store none s.hist
        (current_live none s (λ a e. cc) v).holds;
  hub = v.hub;
})

after_dwell-IsValid : (z : Zone) (r : ℕ) (s : Scheduler) → IsValid s → IsValid (after_dwell z r s)
unfolding after_dwell
after_dwell-IsValid z r s v = elim (Bool-cases (reached_target (s.heap.cell r))) [
  | inl e ↦ rw (e, after_dwell) (notify-IsValid _ _ (complete-IsValid z r s v))
  | inr e ↦ rw (e, after_dwell) (notify-IsValid _ _ v)
]

take_signal-IsValid :
    (b : Bool) (s : Scheduler)
    → IsValid s
    → IsValid
        (if◌then◌else◌ {A = Bool × Scheduler} b (true, record s { wakeup = false }) (false, s)).1
take_signal-IsValid true s v = record { holds = v.holds; hub = v.hub }
take_signal-IsValid false s v = v

wait_wakeup-IsValid :
    (expired : Bool) (s : Scheduler) → IsValid s → IsValid (wait_wakeup expired s).1
unfolding wait_wakeup
wait_wakeup-IsValid true s v = v
wait_wakeup-IsValid false s v = take_signal-IsValid s.wakeup s v

clear_if_set-IsValid : (o : Option ℕ) (s : Scheduler) → IsValid s → IsValid (clear_if_set o s)
unfolding clear_if_set
clear_if_set-IsValid none s v = v
clear_if_set-IsValid (some r) s v = clear_current-IsValid s v

handle_idle-IsValid :
    (z : Zone) (env : Env) (s : Scheduler) → IsValid s → IsValid (handle_idle z env s).after
unfolding handle_idle
handle_idle-IsValid z env s v =
    wait_wakeup-IsValid _ _
      (run_calls-IsValid z env.during_wait _ (clear_if_set-IsValid s.current s v))

either-IsValid : (b : Bool) (s t : Scheduler) → IsValid s → IsValid t → IsValid (if b then s else t)
either-IsValid true s t v w = v
either-IsValid false s t v w = w

either-ticked :
    (b : Bool) (t u : Ticked)
    → IsValid t.after
    → IsValid u.after
    → IsValid (if b then t else u).after
either-ticked true t u v w = v
either-ticked false t u v w = w

display-IsValid :
    (z : Zone) (env : Env) (r : ℕ) (s : Scheduler)
    → r < s.heap.next
    → IsValid s
    → IsValid (display z env r s).after
unfolding display
display-IsValid z env r s lt v =
    let published = run_calls-IsValid z env.during_publish (show z r s) (show-IsValid z r s lt v) in
    let dwelt =
      run_calls-IsValid z env.during_wait _ (record_display-IsValid z env.now r _ published) in
    either-ticked
      (env.publish_fails s.publish_topic (publish_payload (show z r s) ((show z r s).heap.cell r)))
      _ _ (run_calls-IsValid z env.during_wait _ (clear_current-IsValid _ published))
      (either-IsValid env.cancelled _ _ dwelt (after_dwell-IsValid z r _ dwelt))

tick_of-IsValid :
    (z : Zone) (env : Env) (s : Scheduler) (o : Option ℕ)
    → select_next_message s ≡ o
    → IsValid s
    → IsValid (tick_of z env s o).after
unfolding tick_of
tick_of-IsValid z env s none e v = handle_idle-IsValid z env s v
tick_of-IsValid z env s (some r) e v = display-IsValid z env r s (select-live s r v e) v

-- A tick keeps the invariant, whatever the handlers do while it waits and however it ends.
pub scheduler_tick-IsValid :
    (z : Zone) (env : Env) (s : Scheduler) → IsValid s → IsValid (scheduler_tick z env s).after
unfolding scheduler_tick
scheduler_tick-IsValid z env s v = tick_of-IsValid z env s (select_next_message s) refl v

-- The loop of the scheduler keeps the invariant, whatever requests come in while its ticks wait (one
-- after another, each in a single step), whether publishes succeed, and whenever it is cancelled: the
-- store's identifiers are distinct and name the messages they lead to, at most 100 messages are active
-- and 300 are stored, the history has at most 50 entries, the message on display is one that was made,
-- each subscriber is registered once, and each queue is within its capacity.
pub run_loop-IsValid :
    (z : Zone) (envs : List Env) (s : Scheduler) → IsValid s → IsValid (run_loop z envs s)
unfolding run_loop
run_loop-IsValid z [] s v = v
run_loop-IsValid z (env ∷ envs) s v =
    let once = scheduler_tick-IsValid z env s v in
    either-IsValid env.cancelled _ _ once (run_loop-IsValid z envs _ once)
