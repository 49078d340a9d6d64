-- ===== src/Scheduler/Stock.antt =====
-- What every message of the scheduler is like, and what is sent of it: the fields that AddMessage has
-- checked stay as they were, through the ticks and the handlers.
pub mod Kept
pub mod Sent
use split_flap_display_web.Prelude.{
  ℕ, ◌<◌, ◌≤◌, ◌≡◌, refl, sym, ◌∙◌, ap, subst, inl, inr, Bool, true, false, Option, none, some,
  List, [], ◌∷◌, Text, ℤ, length, is_positive, arith, lookup, if◌then◌else◌, Bool-cases, ◌==◌,
}
use split_flap_display_web.Models.{Message, Zone, mark_displayed, mark_completed, priority_normal}
use split_flap_display_web.Models.Parsing.{IsAlign, IsPriority, parse_align-IsAlign}
use split_flap_display_web.Store.{Heap, write, alloc, update, update_found, mark_completed_by_id}
use split_flap_display_web.Scheduler.{
  Scheduler, Settings, notify, record_history, signal_wakeup, wait_wakeup, select_next_message,
}
use split_flap_display_web.Scheduler.Requests.{
  Input, Draft, Result, ok, err, validate, store_message, accept, add_message, finish_add,
  draft_message, remove_message, finish_remove, seed_queue, register_queue, subscribe_queue,
  unsubscribe_queue,
}
use split_flap_display_web.Scheduler.Requests.Validation.{
  Chosen, ChosenPriority, Checked, validate_iff,
}
use split_flap_display_web.Scheduler.Rendering.{publish_payload}
use split_flap_display_web.Scheduler.Ticks.{
  Call, adds, removes, subscribes, unsubscribes, run_call, run_calls, Env, Ticked, show,
  clear_current, record_display, complete, after_dwell, clear_if_set, handle_idle, display, tick_of,
  scheduler_tick, run_loop, reached_target,
}

-- The fields hold what the rest of the program, and the display, can do with.
pub record IsSound (m : Message) : Type 0 where
  pub short : length m.message ≤ 256
  pub aligned : IsAlign m.align
  pub prioritised : IsPriority m.priority
  pub target : is_positive m.target_display_count ≡ true
  pub duration : is_positive m.display_duration ≡ true

-- Every message that was made is sound, and so are the defaults for the next one.
pub record Stocks (h : Heap) (t : Settings) : Type 0 where
  pub sound : (r : ℕ) → r < h.next → IsSound (h.cell r)
  pub target : is_positive t.default_target_count ≡ true
  pub duration : is_positive t.default_display_dur ≡ true

pub mark_displayed-IsSound : (now : ℕ) (m : Message) → IsSound m → IsSound (mark_displayed now m)
unfolding mark_displayed
mark_displayed-IsSound now m v = record {
  short = v.short;
  aligned = v.aligned;
  prioritised = v.prioritised;
  target = v.target;
  duration = v.duration;
}

pub mark_completed-IsSound : (m : Message) → IsSound m → IsSound (mark_completed m)
unfolding mark_completed
mark_completed-IsSound m v = record {
  short = v.short;
  aligned = v.aligned;
  prioritised = v.prioritised;
  target = v.target;
  duration = v.duration;
}

Chosen-positive :
    (default : ℤ) (given : Option ℤ) (v : ℤ)
    → is_positive default ≡ true
    → Chosen default given v
    → is_positive v ≡ true
Chosen-positive default given v p (inl (e, k)) = rw k p
Chosen-positive default given v p (inr (e, k)) = k

ChosenPriority-IsPriority : (given : Option Text) (p : Text) → ChosenPriority given p → IsPriority p
ChosenPriority-IsPriority given p (inl (e, k)) = inl k
ChosenPriority-IsPriority given p (inr (e, k)) = k

pub draft_message-IsSound :
    (id : Text) (now : ℕ) (i : Input) (s : Scheduler) (d : Draft)
    → Stocks s.heap s.settings
    → validate i s ≡ ok d
    → IsSound (draft_message id now i d)
unfolding draft_message
draft_message-IsSound id now i s d v e =
    let c = (validate_iff i s d).0 e in
    record {
      short = c.short;
      aligned = parse_align-IsAlign i.align d.align c.aligned;
      prioritised = ChosenPriority-IsPriority i.priority d.priority c.prioritised;
      target = Chosen-positive _ _ _ v.target c.target;
      duration = Chosen-positive _ _ _ v.duration c.duration;
    }

module _ (f : Message → Message) (keeps : (m : Message) → IsSound m → IsSound (f m)) where
  choose_at :
      (h : Heap) (r a : ℕ)
      → IsSound (h.cell a)
      → IsSound (if a == r then f (h.cell r) else h.cell a)
  choose_at h r a v = elim (Bool-cases (a == r)) [
    | inl e ↦
        let same : a ≡ r = ground arith in
        rw e (keeps (h.cell r) (subst (λ k. IsSound (h.cell k)) same v))
    | inr e ↦ rw e v
  ]

  pub update_found-Stocks :
      (o : Option ℕ) (h : Heap) (t : Settings) → Stocks h t → Stocks (update_found f o h).0 t
  unfolding update_found write
  update_found-Stocks none h t v = v
  update_found-Stocks (some r) h t v = record {
    sound = λ a lt. choose_at h r a (v.sound a lt);
    target = v.target;
    duration = v.duration;
  }

pub alloc-Stocks :
    (m : Message) (h : Heap) (t : Settings) → IsSound m → Stocks h t → Stocks (alloc m h).1 t
unfolding alloc
alloc-Stocks m h t new v = record {
  sound = λ a lt. elim (Bool-cases (a == h.next)) [
    | inl e ↦ rw e new
    | inr e ↦ rw e (v.sound a (ground arith))
  ];
  target = v.target;
  duration = v.duration;
}

-- Over the heap and the settings, which is all that it looks at.
abbrev pub IsStocked : Scheduler → Type 0
IsStocked s = Stocks s.heap s.settings
