-- ===== src/Scheduler/Requests/Adding.antt =====
-- The effect of AddMessage.
use split_flap_display_web.Prelude.{
  ℕ, ◌<◌, ◌≡◌, ◌≢◌, refl, sym, ap, subst, ◌∙◌, true, not, none, some, List, [], ◌∷◌, ◌++◌, Text,
  length, take, take_of_fits, ltb, if◌then◌else◌, lookup, values, All-map, In, In-of_keep_if, inl,
  inr, arith, Bool-cases, Perm, ◌+◌, length-append,
}
use mathlib.Core.List.Perm
use split_flap_display_web.Queue.{push}
use split_flap_display_web.Models.{
  Message, HistoryEntry, is_completed, Zone, pending, new_history_entry,
}
use split_flap_display_web.Store.{
  Heap, Store, alloc, add, get, active_at, list_active, evict_completed,
}
use split_flap_display_web.Store.Invariant.{IsStored, Extends-IsStored, alloc-Extends, add-IsStored}
use split_flap_display_web.Store.Lookup.{lookup-of_In, list_active-add, list_active_agree}
use split_flap_display_web.Store.Eviction.{Evicts, evict_completed-Evicts}
use split_flap_display_web.Scheduler.{
  Scheduler, active_messages, queue_snapshot, queue_event, history_event, record_history,
  signal_wakeup,
}
use split_flap_display_web.Scheduler.Requests.{
  Input, Draft, ok, validate, store_message, accept, add_message, finish_add, draft_message,
}
use split_flap_display_web.Subscribers.Hub.{push_both-delivers}
use split_flap_display_web.Scheduler.Holdings.{values_allocated}
use split_flap_display_web.Scheduler.Invariant.{IsValid}

-- What an accepted message does to the scheduler.
pub record Added (z : Zone) (m : Message) (s s' : Scheduler) : Type 0 where
  -- The new object, and no other, is new in the heap.
  pub placed : s'.heap.cell s.heap.next ≡ m
  pub others_kept : (a : ℕ) → a ≢ s.heap.next → s'.heap.cell a ≡ s.heap.cell a
  pub found : get m.id s'.store ≡ some s.heap.next
  -- In no order, since Go visits a map in none.
  pub active : Perm (active_messages s') (s.heap.next ∷ active_messages s)
  pub history : s'.hist ≡ take 50 (new_history_entry z m ∷ s.hist)
  pub current_kept : s'.current ≡ s.current
  pub woken : s'.wakeup ≡ true
  pub told :
      (q : ℕ)
      → In q s.subs
      → s'.queues q ≡ push (push (s.queues q) (queue_event z s')) (history_event s')
  pub others_untold : (q : ℕ) → ¬ In q s.subs → s'.queues q ≡ s.queues q

module _ (m : Message) (h : Heap) (st : Store) (v : IsStored h st) where
  alloc_self : (alloc m h).1.cell h.next ≡ m
  unfolding alloc
  alloc_self = ground arith

  alloc_other : (a : ℕ) → a ≢ h.next → (alloc m h).1.cell a ≡ h.cell a
  unfolding alloc
  alloc_other a n = ground arith

  alloc_lt : h.next < (alloc m h).1.next
  unfolding alloc
  alloc_lt = omega arith

  added-IsStored : IsStored (alloc m h).1 (add (alloc m h).1 h.next st)
  added-IsStored =
      add-IsStored (alloc m h).1 h.next st alloc_lt (Extends-IsStored st (alloc-Extends m h) v)

  kept_store : Store
  kept_store = (evict_completed (alloc m h).1 200 (add (alloc m h).1 h.next st)).0

  evicts :
      Evicts
        (alloc m h).1
        200
        (add (alloc m h).1 h.next st)
        kept_store
        (evict_completed (alloc m h).1 200 (add (alloc m h).1 h.next st)).1
  unfolding kept_store
  evicts = evict_completed-Evicts (alloc m h).1 200 (add (alloc m h).1 h.next st) added-IsStored

  same_active : list_active (alloc m h).1 st ≡ list_active h st
  same_active = list_active_agree h (alloc m h).1 st (
      All-map _ (values st.by_id)
        (λ a lt.
          ap (λ (x : Message). not (is_completed x)) (alloc_other a (λ e. absurd (omega arith))))
        (values_allocated h.next st.by_id v.allocated))

  module _ (new : m.status ≡ pending) (fresh : lookup m.id st.by_id ≡ none) where
    new_active : active_at (alloc m h).1 h.next ≡ true
    new_active = rw alloc_self (rw new)

    active_then : list_active (alloc m h).1 kept_store ≡ list_active h st ++ h.next ∷ []
    active_then =
        evicts.active_kept
        ∙ list_active-add (alloc m h).1 h.next st (rw (ap (λ (x : Message). x.id) alloc_self) fresh)
            new_active
        ∙ ap (λ (l : List ℕ). l ++ h.next ∷ []) same_active

    last_In : (l : List ℕ) (r : ℕ) → In r (l ++ r ∷ [])
    last_In [] r = inl refl
    last_In (x ∷ l) r = inr (last_In l r)

    found_then : lookup m.id kept_store.by_id ≡ some h.next
    unfolding list_active
    found_then =
        subst (λ (k : Text). lookup k kept_store.by_id ≡ some h.next)
          (ap (λ (x : Message). x.id) alloc_self)
          (lookup-of_In (alloc m h).1 h.next kept_store.by_id evicts.valid.keyed
            evicts.valid.distinct
            (In-of_keep_if (active_at (alloc m h).1) h.next (values kept_store.by_id)
              (subst (In h.next) (sym active_then) (last_In (list_active h st) h.next))).0)

kept_50 : (l : List HistoryEntry) → (if ltb 50 (length l) then take 50 l else l) ≡ take 50 l
kept_50 l = elim (Bool-cases (ltb 50 (length l))) [
  | inl more ↦ rw more
  | inr few ↦ rw few (sym (take_of_fits 50 l (ground arith)))
]

record_history-hist :
    (z : Zone) (r : ℕ) (s : Scheduler)
    → (record_history z r s).hist ≡ take 50 (new_history_entry z (s.heap.cell r) ∷ s.hist)
unfolding record_history
record_history-hist z r s = kept_50 (new_history_entry z (s.heap.cell r) ∷ s.hist)

draft_pending :
    (id : Text) (now : ℕ) (i : Input) (d : Draft) → (draft_message id now i d).status ≡ pending
unfolding draft_message
draft_pending id now i d = refl

Perm-last : (r : ℕ) (l : List ℕ) → Perm (l ++ r ∷ []) (r ∷ l)
Perm-last r [] = Perm.rfl
Perm-last r (x ∷ l) = Perm.trans (Perm.cons x (Perm-last r l)) (Perm.swap r x l)

pub accept_active :
    (z : Zone) (m : Message) (s : Scheduler)
    → IsValid s
    → m.status ≡ pending
    → lookup m.id s.store.by_id ≡ none
    → length (active_messages (accept z m s)) ≡ length (active_messages s) + 1
unfolding accept alloc kept_store list_active signal_wakeup record_history
accept_active z m s v new fresh = omega (
  arith,
  ap length (active_then m s.heap s.store v.holds.stored new fresh),
  length-append (active_messages s) (s.heap.next ∷ []),
)

pub accept-Added :
    (z : Zone) (m : Message) (s : Scheduler)
    → IsValid s
    → m.status ≡ pending
    → lookup m.id s.store.by_id ≡ none
    → Added z m s (accept z m s)
unfolding accept alloc kept_store get queue_snapshot signal_wakeup record_history
accept-Added z m s v new fresh = record {
  placed = alloc_self m s.heap s.store v.holds.stored;
  others_kept = alloc_other m s.heap s.store v.holds.stored;
  found = found_then m s.heap s.store v.holds.stored new fresh;
  active =
      subst (λ (l : List ℕ). Perm l (s.heap.next ∷ active_messages s))
        (sym (active_then m s.heap s.store v.holds.stored new fresh))
        (Perm-last s.heap.next (active_messages s));
  history =
      record_history-hist z s.heap.next (store_message m s)
      ∙ ap (λ (x : Message). take 50 (new_history_entry z x ∷ s.hist))
          (alloc_self m s.heap s.store v.holds.stored);
  current_kept = refl;
  woken = refl;
  told = λ q i. (push_both-delivers s.subs _ _ s.queues q v.hub.distinct).0 i;
  others_untold = λ q n. (push_both-delivers s.subs _ _ s.queues q v.hub.distinct).1 n;
}

-- An accepted message is stored under its identifier, is active beside the messages that were active
-- before and no others, comes first in the history (of which 50 entries stay), wakes the scheduler and is
-- announced once, as a queue and then a history event, to every subscriber and nobody else; the message
-- on display and all other messages stay as they are. The result is the identifier, which must not have
-- been in use.
pub add_message-Added :
    (z : Zone) (id : Text) (now : ℕ) (i : Input) (s : Scheduler) (d : Draft)
    → IsValid s
    → validate i s ≡ ok d
    → lookup id s.store.by_id ≡ none
    → ((add_message z id now i s).0 ≡ ok id)
      × Added z (draft_message id now i d) s (add_message z id now i s).1
unfolding add_message draft_message
add_message-Added z id now i s d v accepted fresh =
    rw (accepted, finish_add) (refl, accept-Added z (draft_message id now i d) s v refl fresh)
