-- ===== src/Scheduler/Requests/Removing.antt =====
-- The effect of RemoveMessage, and of a subscription that an addition overtakes.
use split_flap_display_web.Prelude.{
  ℕ, ◌≡◌, ◌≢◌, refl, ap, ◌∙◌, true, false, not, none, some, List, [], ◌∷◌, Text, codes, ◌==◌,
  lookup, values, keep_if, In, arith,
}
use split_flap_display_web.Queue.{push}
use split_flap_display_web.Models.{Message, Zone, mark_completed, is_completed}
use split_flap_display_web.Store.{
  Heap, Store, write, active_at, list_active, mark_completed_by_id, update_found,
}
use split_flap_display_web.Scheduler.{
  Scheduler, state, is_set, active_messages, queue_event, notify, queue_snapshot,
}
use split_flap_display_web.Scheduler.Requests.{remove_message, finish_remove}
use split_flap_display_web.Subscribers.Hub.{push_each-delivers}
use split_flap_display_web.Scheduler.Invariant.{IsValid}

pub record Removed (z : Zone) (r : ℕ) (s s' : Scheduler) : Type 0 where
  pub ended : s'.heap.cell r ≡ mark_completed (s.heap.cell r)
  pub others_kept : (a : ℕ) → a ≢ r → s'.heap.cell a ≡ s.heap.cell a
  pub store_kept : s'.store ≡ s.store
  pub active : active_messages s' ≡ keep_if (λ a. not (a == r)) (active_messages s)
  pub current_kept : s'.current ≡ s.current
  pub history_kept : s'.hist ≡ s.hist
  pub told : (q : ℕ) → In q s.subs → s'.queues q ≡ push (s.queues q) (queue_event z s')
  pub others_untold : (q : ℕ) → ¬ In q s.subs → s'.queues q ≡ s.queues q

module _ (r : ℕ) (h : Heap) where
  completed_self : (write r (mark_completed (h.cell r)) h).cell r ≡ mark_completed (h.cell r)
  unfolding write
  completed_self = ground arith

  write_other : (m : Message) (a : ℕ) → a ≢ r → (write r m h).cell a ≡ h.cell a
  unfolding write
  write_other m a n = ground arith

  still_active :
      (l : List ℕ)
      → keep_if (active_at (write r (mark_completed (h.cell r)) h)) l
        ≡ keep_if (λ a. not (a == r)) (keep_if (active_at h) l)
  unfolding write mark_completed
  still_active [] = refl
  still_active (x ∷ l) = ground (arith, still_active l)

  pub list_active-ended :
      (st : Store)
      → list_active (write r (mark_completed (h.cell r)) h) st
        ≡ keep_if (λ a. not (a == r)) (list_active h st)
  unfolding list_active
  list_active-ended st = still_active (values st.by_id)

Removed-of_found :
    (z : Zone) (r : ℕ) (s : Scheduler)
    → IsValid s
    → Removed z r s (finish_remove z s (write r (mark_completed (s.heap.cell r)) s.heap, true)).1
unfolding finish_remove notify queue_snapshot
Removed-of_found z r s v = record {
  ended = completed_self r s.heap;
  others_kept = write_other r s.heap _;
  store_kept = refl;
  active = list_active-ended r s.heap s.store;
  current_kept = refl;
  history_kept = refl;
  told = λ q i. (push_each-delivers s.subs _ s.queues q v.hub.distinct).0 i;
  others_untold = λ q n. (push_each-delivers s.subs _ s.queues q v.hub.distinct).1 n;
}

mark_missing :
    (id : Text) (s : Scheduler)
    → lookup id s.store.by_id ≡ none
    → mark_completed_by_id id s.store s.heap ≡ (s.heap, false)
unfolding mark_completed_by_id
mark_missing id s e = rw (e, update_found)

mark_found :
    (id : Text) (r : ℕ) (s : Scheduler)
    → lookup id s.store.by_id ≡ some r
    → mark_completed_by_id id s.store s.heap
      ≡ (write r (mark_completed (s.heap.cell r)) s.heap, true)
unfolding mark_completed_by_id
mark_found id r s e = rw (e, update_found)

active_while_current : (t : Scheduler) (q : ℕ) → t.current ≡ some q → state t ≡ codes "Active"
unfolding state
active_while_current t q e = rw (e, is_set)

ended_completed : (m : Message) → is_completed (mark_completed m) ≡ true
unfolding mark_completed
ended_completed m = refl

-- An identifier that the store does not hold is refused, and nothing changes. One that it holds is
-- accepted: its message is completed and is active no longer, every subscriber is told once, and all
-- other messages, the history and the message on display stay.
pub remove_message-Removed :
    (z : Zone) (id : Text) (s : Scheduler)
    → IsValid s
    → (lookup id s.store.by_id ≡ none → remove_message z id s ≡ (false, s))
      × ((r : ℕ)
          → lookup id s.store.by_id ≡ some r
          → ((remove_message z id s).0 ≡ true) × Removed z r s (remove_message z id s).1)
unfolding remove_message
remove_message-Removed z id s v = (
  λ missing. ap (finish_remove z s) (mark_missing id s missing) ∙ (unfold finish_remove in refl),
  λ r found. rw (mark_found id r s found) (unfold finish_remove in refl, Removed-of_found z r s v),
)

-- Deleting the message on display leaves it on display: it is completed, and still current, so that
-- the state stays "Active" even if no message is active.
pub remove_message-still_current :
    (z : Zone) (id : Text) (s : Scheduler) (r : ℕ)
    → IsValid s
    → s.current ≡ some r
    → lookup id s.store.by_id ≡ some r
    → let s' = (remove_message z id s).1 in
      (s'.current ≡ some r) × (is_completed (s'.heap.cell r) ≡ true) × (state s' ≡ codes "Active")
remove_message-still_current z id s r v on_display found =
    let gone = ((remove_message-Removed z id s v).1 r found).1 in
    let same = gone.current_kept ∙ on_display in
    (
      same,
      ap is_completed gone.ended ∙ ended_completed (s.heap.cell r),
      active_while_current _ r same,
    )
