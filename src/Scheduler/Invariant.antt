-- ===== src/Scheduler/Invariant.antt =====
-- The invariant of the scheduler, kept by every handler, in every interleaving with the ticks.
use split_flap_display_web.Prelude.{
  ℕ, ◌<◌, ◌≡◌, refl, inl, inr, Bool, true, false, Option, some, List, [], ◌∷◌, Text, leb, pos,
  arith, Bool-cases,
}
use split_flap_display_web.Queue.{Queue}
use split_flap_display_web.Queue.Laws.{new-IsValid as new_queue-IsValid, push-IsValid}
use split_flap_display_web.Models.{Message, Zone}
use split_flap_display_web.Store.Order.{
  reordered, reordered-IsStored, count_active-reordered, length-swap_at,
}
use split_flap_display_web.Store.{Heap, alloc, count_active, mark_completed_by_id}
use split_flap_display_web.Events.{Event}
use split_flap_display_web.Scheduler.{
  Scheduler, Settings, new, notify, record_history, signal_wakeup, current_snapshot, current_event,
  queue_event, history_event,
}
use split_flap_display_web.Scheduler.Requests.{
  Input, Draft, Result, ok, err, validate, store_message, accept, add_message, finish_add,
  draft_message, remove_message, finish_remove, seed_queue, register_queue, subscribe_queue,
  unsubscribe_queue,
}
use split_flap_display_web.Scheduler.Ticks.{
  Call, adds, removes, subscribes, unsubscribes, reorders, run_call, run_calls,
}
use split_flap_display_web.Subscribers.Hub.{
  IsHub, push_each-IsHub, push_both-IsHub, subscribe-IsHub, unsubscribe-IsHub,
}
use split_flap_display_web.Scheduler.Holdings.{
  Holds, store_message-Holds, record_history-bound, mark_completed_by_id-Holds,
}

pub record IsValid (s : Scheduler) : Type 0 where
  pub holds : Holds s.heap s.store s.current s.hist
  pub hub : IsHub s.subs s.next_queue s.queues

-- A scheduler that has just been made.
pub new-IsValid : (t : Settings) (h : Heap) (qs : ℕ → Queue Event) → IsValid (new t h qs)
unfolding new count_active
new-IsValid t h qs = record {
  holds = record {
    stored = record { keyed = tt; distinct = tt; allocated = tt };
    live = λ r e. cc;
    active_bound = omega arith;
    size_bound = omega arith;
    hist_bound = omega arith;
  };
  hub = record { known = tt; distinct = tt; bounded = λ q lt. absurd (omega arith) };
}

pub notify-IsValid : (e : Event) (s : Scheduler) → IsValid s → IsValid (notify e s)
unfolding notify
notify-IsValid e s v = record {
  holds = v.holds;
  hub = push_each-IsHub s.subs s.next_queue s.queues v.hub e;
}

pub current_live :
    (o : Option ℕ) (s : Scheduler)
    → ((r : ℕ) → o ≡ some r → r < s.heap.next)
    → IsValid s
    → IsValid (record s { current = o })
current_live o s live v = record {
  holds = record {
    stored = v.holds.stored;
    live = live;
    active_bound = v.holds.active_bound;
    size_bound = v.holds.size_bound;
    hist_bound = v.holds.hist_bound;
  };
  hub = v.hub;
}

-- Validation refuses while 100 messages are active.
pub validate-room :
    (i : Input) (s : Scheduler) (d : Draft)
    → validate i s ≡ ok d
    → count_active s.heap s.store < 100
unfolding validate
validate-room i s d e = elim (Bool-cases (leb 100 (count_active s.heap s.store))) [
  | inl full ↦ ground arith
  | inr room ↦ ground arith
]

pub accept-IsValid :
    (z : Zone) (m : Message) (s : Scheduler)
    → count_active s.heap s.store < 100
    → IsValid s
    → IsValid (accept z m s)
unfolding accept record_history signal_wakeup alloc
accept-IsValid z m s room v =
    let kept = store_message-Holds m s.heap s.store s.current s.hist room v.holds in
    record {
      holds = record {
        stored = kept.stored;
        live = kept.live;
        active_bound = kept.active_bound;
        size_bound = kept.size_bound;
        hist_bound = record_history-bound z s.heap.next (store_message m s);
      };
      hub = push_both-IsHub s.subs s.next_queue s.queues v.hub _ _;
    }

finish_add-IsValid :
    (z : Zone) (id : Text) (now : ℕ) (i : Input) (s : Scheduler) (r : Result Draft)
    → validate i s ≡ r
    → IsValid s
    → IsValid (finish_add z id now i s r).1
unfolding finish_add
finish_add-IsValid z id now i s (err e) h v = v
finish_add-IsValid z id now i s (ok d) h v =
    accept-IsValid z (draft_message id now i d) s (validate-room i s d h) v

pub add_message-IsValid :
    (z : Zone) (id : Text) (now : ℕ) (i : Input) (s : Scheduler)
    → IsValid s
    → IsValid (add_message z id now i s).1
unfolding add_message
add_message-IsValid z id now i s v = finish_add-IsValid z id now i s (validate i s) refl v

finish_remove-IsValid :
    (z : Zone) (s : Scheduler) (r : Heap × Bool)
    → Holds r.0 s.store s.current s.hist
    → IsHub s.subs s.next_queue s.queues
    → IsValid (finish_remove z s r).1
unfolding finish_remove
finish_remove-IsValid z s (h, false) v hub = record { holds = v; hub = hub }
finish_remove-IsValid z s (h, true) v hub =
    notify-IsValid _ (record s { heap = h }) (record { holds = v; hub = hub })

pub remove_message-IsValid :
    (z : Zone) (id : Text) (s : Scheduler) → IsValid s → IsValid (remove_message z id s).1
unfolding remove_message
remove_message-IsValid z id s v =
    finish_remove-IsValid z s (mark_completed_by_id id s.store s.heap)
      (mark_completed_by_id-Holds id s.heap s.store s.current s.hist v.holds) v.hub

pub subscribe_queue-IsValid :
    (z : Zone) (s : Scheduler) → IsValid s → IsValid (subscribe_queue z s).1
unfolding subscribe_queue seed_queue register_queue
subscribe_queue-IsValid z s v = record {
  holds = v.holds;
  hub = subscribe-IsHub s.subs s.next_queue s.queues v.hub _ (
      push-IsValid _ (history_event s) (
        push-IsValid _ (queue_event z s)
          (push-IsValid _ (current_event (current_snapshot z s)) (new_queue-IsValid (pos 500)))));
}

pub unsubscribe_queue-IsValid :
    (q : ℕ) (s : Scheduler) → IsValid s → IsValid (unsubscribe_queue q s)
unfolding unsubscribe_queue
unsubscribe_queue-IsValid q s v = record {
  holds = v.holds;
  hub = unsubscribe-IsHub s.subs s.next_queue s.queues v.hub q;
}

reorder-IsValid :
    (n : ℕ) (s : Scheduler) → IsValid s → IsValid (record s { store = reordered n s.store })
reorder-IsValid n s v = record {
  holds = record {
    stored = reordered-IsStored n s.heap s.store v.holds.stored;
    live = v.holds.live;
    active_bound = omega (arith, v.holds.active_bound, count_active-reordered n s.heap s.store);
    size_bound = omega (arith, v.holds.size_bound, length-swap_at n s.store.by_id);
    hist_bound = v.holds.hist_bound;
  };
  hub = v.hub;
}

run_call-IsValid : (z : Zone) (c : Call) (s : Scheduler) → IsValid s → IsValid (run_call z c s)
unfolding run_call
run_call-IsValid z (adds id now i) s v = add_message-IsValid z id now i s v
run_call-IsValid z (removes id) s v = remove_message-IsValid z id s v
run_call-IsValid z subscribes s v = subscribe_queue-IsValid z s v
run_call-IsValid z (unsubscribes q) s v = unsubscribe_queue-IsValid q s v
run_call-IsValid z (reorders n) s v = reorder-IsValid n s v

pub run_calls-IsValid :
    (z : Zone) (cs : List Call) (s : Scheduler) → IsValid s → IsValid (run_calls z cs s)
unfolding run_calls
run_calls-IsValid z [] s v = v
run_calls-IsValid z (c ∷ cs) s v =
    run_calls-IsValid z cs (run_call z c s) (run_call-IsValid z c s v)
