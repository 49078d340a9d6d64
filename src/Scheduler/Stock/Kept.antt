-- ===== src/Scheduler/Stock/Kept.antt =====
-- The handlers and the loop of Start keep every message sound.
use split_flap_display_web.Prelude.{
  ℕ, ◌≡◌, refl, inl, inr, Bool, true, false, Option, none, some, List, [], ◌∷◌, Text, lookup,
  if◌then◌else◌, Bool-cases,
}
use split_flap_display_web.Models.{Message, Zone, mark_displayed, mark_completed}
use split_flap_display_web.Store.{Heap, update, mark_completed_by_id}
use split_flap_display_web.Scheduler.{
  Scheduler, notify, record_history, signal_wakeup, wait_wakeup, select_next_message,
}
use split_flap_display_web.Scheduler.Requests.{
  Input, Draft, Result, ok, err, validate, store_message, accept, add_message, finish_add,
  draft_message, remove_message, finish_remove, seed_queue, register_queue, subscribe_queue,
  unsubscribe_queue,
}
use split_flap_display_web.Scheduler.Rendering.{publish_payload}
use split_flap_display_web.Scheduler.Ticks.{
  Call, adds, removes, subscribes, unsubscribes, reorders, run_call, run_calls, Env, Ticked, show,
  clear_current, record_display, complete, after_dwell, clear_if_set, handle_idle, display, tick_of,
  scheduler_tick, run_loop, reached_target,
}
use split_flap_display_web.Scheduler.Stock.{
  IsSound, Stocks, IsStocked, update_found-Stocks, alloc-Stocks, draft_message-IsSound,
  mark_displayed-IsSound, mark_completed-IsSound,
}

accept-IsStocked :
    (z : Zone) (m : Message) (s : Scheduler) → IsSound m → IsStocked s → IsStocked (accept z m s)
unfolding accept store_message record_history signal_wakeup
accept-IsStocked z m s new v = alloc-Stocks m s.heap s.settings new v

finish_add-IsStocked :
    (z : Zone) (id : Text) (now : ℕ) (i : Input) (s : Scheduler) (r : Result Draft)
    → validate i s ≡ r
    → IsStocked s
    → IsStocked (finish_add z id now i s r).1
unfolding finish_add
finish_add-IsStocked z id now i s (err e) h v = v
finish_add-IsStocked z id now i s (ok d) h v =
    accept-IsStocked z (draft_message id now i d) s (draft_message-IsSound id now i s d v h) v

finish_remove-IsStocked :
    (z : Zone) (s : Scheduler) (r : Heap × Bool)
    → Stocks r.0 s.settings
    → IsStocked (finish_remove z s r).1
unfolding finish_remove notify
finish_remove-IsStocked z s (h, false) v = v
finish_remove-IsStocked z s (h, true) v = v

mark_completed_by_id-Stocks :
    (id : Text) (s : Scheduler)
    → IsStocked s
    → Stocks (mark_completed_by_id id s.store s.heap).0 s.settings
unfolding mark_completed_by_id
mark_completed_by_id-Stocks id s v =
    update_found-Stocks mark_completed mark_completed-IsSound (lookup id s.store.by_id) s.heap
      s.settings v

run_call-IsStocked :
    (z : Zone) (c : Call) (s : Scheduler) → IsStocked s → IsStocked (run_call z c s)
unfolding run_call add_message remove_message subscribe_queue seed_queue register_queue
    unsubscribe_queue
run_call-IsStocked z (adds id now i) s v = finish_add-IsStocked z id now i s (validate i s) refl v
run_call-IsStocked z (removes id) s v =
    finish_remove-IsStocked z s (mark_completed_by_id id s.store s.heap)
      (mark_completed_by_id-Stocks id s v)
run_call-IsStocked z subscribes s v = v
run_call-IsStocked z (unsubscribes q) s v = v
run_call-IsStocked z (reorders n) s v = v

pub run_calls-IsStocked :
    (z : Zone) (cs : List Call) (s : Scheduler) → IsStocked s → IsStocked (run_calls z cs s)
unfolding run_calls
run_calls-IsStocked z [] s v = v
run_calls-IsStocked z (c ∷ cs) s v =
    run_calls-IsStocked z cs (run_call z c s) (run_call-IsStocked z c s v)

record_display-IsStocked :
    (z : Zone) (now r : ℕ) (s : Scheduler) → IsStocked s → IsStocked (record_display z now r s)
unfolding record_display notify update
record_display-IsStocked z now r s v =
    update_found-Stocks (mark_displayed now) (mark_displayed-IsSound now)
      (lookup (s.heap.cell r).id s.store.by_id) s.heap s.settings v

after_dwell-IsStocked :
    (z : Zone) (r : ℕ) (s : Scheduler) → IsStocked s → IsStocked (after_dwell z r s)
unfolding after_dwell complete notify
after_dwell-IsStocked z r s v = elim (Bool-cases (reached_target (s.heap.cell r))) [
  | inl e ↦ rw e (mark_completed_by_id-Stocks (s.heap.cell r).id s v)
  | inr e ↦ rw e v
]

wait_wakeup-IsStocked :
    (expired : Bool) (s : Scheduler) → IsStocked s → IsStocked (wait_wakeup expired s).1
unfolding wait_wakeup
wait_wakeup-IsStocked true s v = v
wait_wakeup-IsStocked false s v = elim (Bool-cases s.wakeup) [ inl e ↦ rw e v | inr e ↦ rw e v ]

clear_if_set-IsStocked : (o : Option ℕ) (s : Scheduler) → IsStocked s → IsStocked (clear_if_set o s)
unfolding clear_if_set clear_current notify
clear_if_set-IsStocked none s v = v
clear_if_set-IsStocked (some r) s v = v

either-Stocks :
    (b : Bool) (s t : Scheduler) → IsStocked s → IsStocked t → IsStocked (if b then s else t)
either-Stocks true s t v w = v
either-Stocks false s t v w = w

either-ticked :
    (b : Bool) (t u : Ticked)
    → IsStocked t.after
    → IsStocked u.after
    → IsStocked (if b then t else u).after
either-ticked true t u v w = v
either-ticked false t u v w = w

display-IsStocked :
    (z : Zone) (env : Env) (r : ℕ) (s : Scheduler)
    → IsStocked s
    → IsStocked (display z env r s).after
unfolding display show clear_current notify
display-IsStocked z env r s v =
    let published = run_calls-IsStocked z env.during_publish (show z r s) v in
    let dwelt =
      run_calls-IsStocked z env.during_wait _ (record_display-IsStocked z env.now r _ published) in
    either-ticked
      (env.publish_fails s.publish_topic (publish_payload (show z r s) ((show z r s).heap.cell r)))
      _ _ (run_calls-IsStocked z env.during_wait _ published)
      (either-Stocks env.cancelled _ _ dwelt (after_dwell-IsStocked z r _ dwelt))

tick_of-IsStocked :
    (z : Zone) (env : Env) (s : Scheduler) (o : Option ℕ)
    → IsStocked s
    → IsStocked (tick_of z env s o).after
unfolding tick_of handle_idle
tick_of-IsStocked z env s none v =
    wait_wakeup-IsStocked _ _
      (run_calls-IsStocked z env.during_wait _ (clear_if_set-IsStocked s.current s v))
tick_of-IsStocked z env s (some r) v = display-IsStocked z env r s v

-- However the loop of the scheduler runs, and whatever requests come in while it does: every message
-- that was ever stored has a text of at most 256 characters, one of the three alignments, one of the two
-- priorities, a positive target and a positive duration, if the defaults for the last two are positive.
pub run_loop-IsStocked :
    (z : Zone) (envs : List Env) (s : Scheduler) → IsStocked s → IsStocked (run_loop z envs s)
unfolding run_loop scheduler_tick
run_loop-IsStocked z [] s v = v
run_loop-IsStocked z (env ∷ envs) s v =
    let once = tick_of-IsStocked z env s (select_next_message s) v in
    either-Stocks env.cancelled _ _ once (run_loop-IsStocked z envs _ once)
