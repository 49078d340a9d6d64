-- ===== src/Scheduler/Ticks.antt =====
-- schedulerTick and handleIdle.
--
-- A tick waits at the publish, in the dwell and in the idle wait, and there the HTTP handlers go on:
-- `Env` says what they do in each wait, how the publish ends, and whether the context is cancelled.
-- Between two waits a tick is one step.
pub mod Display
pub mod Progress
pub mod Failure
use split_flap_display_web.Prelude.{
  ℕ, zero, suc, ◌+◌, Bool, true, false, ◌||◌, Option, none, some, List, [], ◌∷◌, ◌++◌, map, Text,
  codes, text_eq, if◌then◌else◌, ℤ, pos, le_nat,
}
use split_flap_display_web.Models.{Message, Zone, mark_displayed, to_dto}
use split_flap_display_web.Store.{update, mark_completed_by_id}
use split_flap_display_web.Store.Order.{reordered}
use split_flap_display_web.Scheduler.{
  Scheduler, select_next_message, notify, current_event, current_snapshot, queue_event, wait_wakeup,
}
use split_flap_display_web.Scheduler.Requests.{
  Input, add_message, remove_message, subscribe_queue, unsubscribe_queue,
}
use split_flap_display_web.Scheduler.Rendering.{publish_payload}

-- A call of a handler.
pub data Call : Type 0 where
  adds : Text → ℕ → Input → Call
  removes : Text → Call
  subscribes : Call
  unsubscribes : ℕ → Call
  -- No call: the next visit of the store's map is in another order.
  reorders : ℕ → Call

unfoldable pub run_call : Zone → Call → Scheduler → Scheduler
run_call z (adds id now i) s = (add_message z id now i s).1
run_call z (removes id) s = (remove_message z id s).1
run_call z subscribes s = (subscribe_queue z s).1
run_call z (unsubscribes q) s = unsubscribe_queue q s
run_call z (reorders n) s = record s { store = reordered n s.store }

unfoldable pub run_calls : Zone → List Call → Scheduler → Scheduler
run_calls z [] s = s
run_calls z (c ∷ cs) s = run_calls z cs (run_call z c s)

pub record Env : Type 0 where
  -- Whether `Publish` of a topic and a payload returns an error.
  pub publish_fails : Text → Text → Bool
  pub during_publish : List Call
  -- The time at which a successful publish is recorded.
  pub now : ℕ
  -- In the dwell, the backoff or the idle wait.
  pub during_wait : List Call
  pub cancelled : Bool
  -- Whether the timer of the idle wait wins over a signal.
  pub timer_first : Bool

-- Nothing comes in between, the publish succeeds, and the scheduler is not stopped.
abbrev pub quiet : ℕ → Env
quiet now = record {
  publish_fails = λ topic payload. false;
  during_publish = [];
  now = now;
  during_wait = [];
  cancelled = false;
  timer_first = false;
}

-- The same, but that the next visit of the store's map may be in another order.
abbrev pub undisturbed : ℕ → List ℕ → Env
undisturbed now ns = record (quiet now) { during_wait = map reorders ns }

pub data Outcome : Type 0 where
  -- The tick returned nil, or the context's error.
  done stopped : Outcome

pub record Ticked : Type 0 where
  pub after : Scheduler
  -- What was handed to the MQTT client: topic and payload.
  pub sent : List (Text × Text)
  pub outcome : Outcome

-- `s.current = m`, and the event.
unfoldable pub show : Zone → ℕ → Scheduler → Scheduler
show z r s =
    notify (current_event (some (to_dto z (s.heap.cell r)))) (record s { current = some r })

unfoldable pub clear_current : Scheduler → Scheduler
clear_current s = notify (current_event none) (record s { current = none })

-- After a successful publish, before the dwell.
unfoldable pub record_display : Zone → ℕ → ℕ → Scheduler → Scheduler
record_display z now r s =
    let marked = record s {
      heap = (update (s.heap.cell r).id (mark_displayed now) s.store s.heap).0;
    } in
    let told = notify (current_event (some (to_dto z (marked.heap.cell r)))) marked in
    notify (queue_event z told) told

-- `m.DisplayCountSafe() >= m.TargetDisplayCount`
abbrev pub reached_target : Message → Bool
reached_target m = le_nat m.target_display_count m.display_count

unfoldable pub complete : Zone → ℕ → Scheduler → Scheduler
complete z r s =
    let ended = record s {
      heap = (mark_completed_by_id (s.heap.cell r).id s.store s.heap).0;
      current = none;
    } in
    notify (queue_event z ended) ended

-- After the dwell.
unfoldable pub after_dwell : Zone → ℕ → Scheduler → Scheduler
unfolding complete
after_dwell z r s =
    let checked = if reached_target (s.heap.cell r) then complete z r s else s in
    notify (current_event (current_snapshot z checked)) checked

unfoldable pub outcome_of : Bool → Outcome
outcome_of true = stopped
outcome_of false = done

unfoldable pub publishes_when_idle : Text → Bool
publishes_when_idle mode = text_eq mode (codes "publish") || text_eq mode []

unfoldable pub clear_if_set : Option ℕ → Scheduler → Scheduler
clear_if_set none s = s
clear_if_set (some r) s = clear_current s

-- An error of the idle publish is ignored, and so is a cancelled context.
unfoldable pub handle_idle : Zone → Env → Scheduler → Ticked
unfolding clear_if_set publishes_when_idle
handle_idle z env s = record {
  after =
      (wait_wakeup (env.timer_first || env.cancelled)
        (run_calls z env.during_wait (clear_if_set s.current s))).1;
  sent = if publishes_when_idle s.idle_mode then (s.publish_topic, s.idle_message) ∷ [] else [];
  outcome = done;
}

-- A tick that has chosen a message.
unfoldable pub display : Zone → Env → ℕ → Scheduler → Ticked
unfolding outcome_of
display z env r s =
    let shown = show z r s in
    let payload = publish_payload shown (shown.heap.cell r) in
    let published = run_calls z env.during_publish shown in
    if env.publish_fails s.publish_topic payload
    then record {
      after = run_calls z env.during_wait (clear_current published);
      sent = (s.publish_topic, payload) ∷ [];
      outcome = outcome_of env.cancelled;
    }
    else (let dwelt = run_calls z env.during_wait (record_display z env.now r published) in
        record {
          after = if env.cancelled then dwelt else after_dwell z r dwelt;
          sent = (s.publish_topic, payload) ∷ [];
          outcome = outcome_of env.cancelled;
        })

unfoldable pub tick_of : Zone → Env → Scheduler → Option ℕ → Ticked
tick_of z env s none = handle_idle z env s
tick_of z env s (some r) = display z env r s

unfoldable pub scheduler_tick : Zone → Env → Scheduler → Ticked
unfolding tick_of
scheduler_tick z env s = tick_of z env s (select_next_message s)

-- The loop of Start, over the environments of its ticks; it ends when a tick reports the cancelled
-- context, or at the check between two ticks.
unfoldable pub run_loop : Zone → List Env → Scheduler → Scheduler
run_loop z [] s = s
run_loop z (env ∷ envs) s =
    let rest = run_loop z envs (scheduler_tick z env s).after in
    if env.cancelled then (scheduler_tick z env s).after else rest
