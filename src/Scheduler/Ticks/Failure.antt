-- ===== src/Scheduler/Ticks/Failure.antt =====
-- A tick whose publish fails.
use split_flap_display_web.Prelude.{
  ℕ, ◌≡◌, refl, ap, ◌∙◌, Bool, true, none, some, [], ◌∷◌, Text, In,
}
use split_flap_display_web.Models.{Zone, to_dto}
use split_flap_display_web.Queue.{push}
use split_flap_display_web.Subscribers.Hub.{push_each-delivers}
use split_flap_display_web.Subscribers.{push_each}
use split_flap_display_web.Scheduler.{
  Scheduler, active_messages, select_next_message, current_event, notify,
}
use split_flap_display_web.Scheduler.Selection.{Precedes, select_next_message-first}
use split_flap_display_web.Scheduler.Rendering.{publish_payload}
use split_flap_display_web.Scheduler.Invariant.{IsValid}
use split_flap_display_web.Scheduler.Ticks.{
  Env, quiet, Ticked, done, outcome_of, run_calls, show, clear_current, display, tick_of,
  scheduler_tick,
}

-- Nothing comes in between, and the broker decides.
abbrev pub unattended : (Text → Text → Bool) → ℕ → Env
unattended refuses now = record (quiet now) { publish_fails = refuses }

pub record Failed (z : Zone) (r : ℕ) (s : Scheduler) (t : Ticked) : Type 0 where
  pub heap_kept : t.after.heap ≡ s.heap
  pub store_kept : t.after.store ≡ s.store
  pub cleared : t.after.current ≡ none
  pub tried : t.sent ≡ (s.publish_topic, publish_payload s (s.heap.cell r)) ∷ []
  pub outcome : t.outcome ≡ done
  -- Subscribers saw the message come and go.
  pub told :
      (q : ℕ)
      → In q s.subs
      → t.after.queues q
        ≡ push
            (push (s.queues q) (current_event (some (to_dto z (s.heap.cell r)))))
            (current_event none)
  -- The message is as due as it was, in whatever order Go visits the map.
  pub still_first :
      In r (active_messages t.after)
      × ((a : ℕ)
          → In a (active_messages t.after)
          → Precedes (t.after.heap.cell r) (t.after.heap.cell a))

failed_after : Zone → ℕ → Scheduler → Scheduler
failed_after z r s = clear_current (show z r s)

display_failed :
    (z : Zone) (refuses : Text → Text → Bool) (now r : ℕ) (s : Scheduler)
    → refuses s.publish_topic (publish_payload s (s.heap.cell r)) ≡ true
    → display z (unattended refuses now) r s ≡ record {
      after = failed_after z r s;
      sent = (s.publish_topic, publish_payload s (s.heap.cell r)) ∷ [];
      outcome = done;
    }
unfolding display run_calls show notify publish_payload failed_after outcome_of
display_failed z refuses now r s e = rw e refl

failed_told :
    (z : Zone) (r q : ℕ) (s : Scheduler)
    → IsValid s
    → In q s.subs
    → (failed_after z r s).queues q
      ≡ push
          (push (s.queues q) (current_event (some (to_dto z (s.heap.cell r)))))
          (current_event none)
unfolding failed_after show notify clear_current
failed_told z r q s v i =
    let first = current_event (some (to_dto z (s.heap.cell r))) in
    (push_each-delivers s.subs (current_event none) (push_each s.subs first s.queues) q
        v.hub.distinct).0
      i
    ∙ ap (λ k. push k (current_event none))
        ((push_each-delivers s.subs first s.queues q v.hub.distinct).0 i)

failed_selects :
    (z : Zone) (r : ℕ) (s : Scheduler)
    → select_next_message (failed_after z r s) ≡ select_next_message s
unfolding failed_after show notify clear_current select_next_message
failed_selects z r s = refl

failed_after-Failed :
    (z : Zone) (r : ℕ) (s : Scheduler)
    → IsValid s
    → select_next_message s ≡ some r
    → Failed z r s (record {
      after = failed_after z r s;
      sent = (s.publish_topic, publish_payload s (s.heap.cell r)) ∷ [];
      outcome = done;
    })
unfolding failed_after show notify clear_current
failed_after-Failed z r s v e = record {
  heap_kept = refl;
  store_kept = refl;
  cleared = refl;
  tried = refl;
  outcome = refl;
  told = λ q i. failed_told z r q s v i;
  still_first = select_next_message-first (failed_after z r s) r (failed_selects z r s ∙ e);
}

-- A tick whose publish is refused, while nothing else happens, loses nothing: no message and no display
-- count changes, nothing is left on display, every subscriber has been told of both, and the message is
-- still active and precedes every active message in the order of display.
pub scheduler_tick-Failed :
    (z : Zone) (refuses : Text → Text → Bool) (now r : ℕ) (s : Scheduler)
    → IsValid s
    → select_next_message s ≡ some r
    → refuses s.publish_topic (publish_payload s (s.heap.cell r)) ≡ true
    → Failed z r s (scheduler_tick z (unattended refuses now) s)
unfolding scheduler_tick
scheduler_tick-Failed z refuses now r s v e refused =
    rw (e, tick_of, display_failed z refuses now r s refused) (failed_after-Failed z r s v e)
