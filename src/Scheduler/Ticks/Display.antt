-- ===== src/Scheduler/Ticks/Display.antt =====
-- What one tick does to the messages.
use split_flap_display_web.Prelude.{
  List, map, DistinctBy, key_of, ℕ, ◌≡◌, ◌≢◌, refl, ap, ◌∙◌, inl, inr, some, [], ◌∷◌, if◌then◌else◌,
  lookup, values, In, In-of_keep_if, arith, Bool-cases, ◌+◌, ◌≤◌, ◌<◌, false, ℤ, pos, negsuc, to_ℕ,
}
use split_flap_display_web.Models.{
  Message, MessageStatus, pending, active, completed, Zone, is_completed, mark_displayed,
  mark_completed,
}
use split_flap_display_web.Store.{
  Heap, Store, write, active_at, list_active, update, update_found, mark_completed_by_id,
}
use split_flap_display_web.Store.Order.{reordered, swaps, lookup-swaps}
use split_flap_display_web.Store.Invariant.{id_at}
use split_flap_display_web.Store.Lookup.{lookup-of_In}
use split_flap_display_web.Scheduler.{Scheduler, notify, select_next_message}
use split_flap_display_web.Scheduler.Ticks.{
  Ticked, undisturbed, reorders, run_call, show, record_display, after_dwell, reached_target,
  display, tick_of, scheduler_tick, run_calls, done,
}
use split_flap_display_web.Scheduler.Selection.{select_next_message-first}
use split_flap_display_web.Scheduler.Rendering.{publish_payload}
use split_flap_display_web.Scheduler.Invariant.{IsValid}

-- A message after one display: shown once more, and completed if that reaches its target.
abbrev displayed : ℕ → Message → Message
displayed now m =
    let shown = mark_displayed now m in if reached_target shown then mark_completed shown else shown

displayed_heap : ℕ → ℕ → Heap → Heap
displayed_heap now r h =
    let h₁ = write r (mark_displayed now (h.cell r)) h in
    if reached_target (h₁.cell r) then write r (mark_completed (h₁.cell r)) h₁ else h₁

write_self : (r : ℕ) (m : Message) (h : Heap) → (write r m h).cell r ≡ m
unfolding write
write_self r m h = ground arith

write_other : (r : ℕ) (m : Message) (h : Heap) (a : ℕ) → a ≢ r → (write r m h).cell a ≡ h.cell a
unfolding write
write_other r m h a n = ground arith

displayed_heap_self :
    (now r : ℕ) (h : Heap) → (displayed_heap now r h).cell r ≡ displayed now (h.cell r)
unfolding displayed_heap
displayed_heap_self now r h =
    rw (write_self r (mark_displayed now (h.cell r)) h)
      (elim (Bool-cases (reached_target (mark_displayed now (h.cell r)))) [
        | inl e ↦ rw e (write_self r _ _)
        | inr e ↦ rw e (write_self r _ _)
      ])

displayed_heap_other :
    (now r : ℕ) (h : Heap) (a : ℕ) → a ≢ r → (displayed_heap now r h).cell a ≡ h.cell a
unfolding displayed_heap
displayed_heap_other now r h a n =
    elim (Bool-cases (reached_target ((write r (mark_displayed now (h.cell r)) h).cell r))) [
      | inl e ↦ rw e (write_other r _ _ a n ∙ write_other r _ h a n)
      | inr e ↦ rw e (write_other r _ h a n)
    ]

pub selected_In :
    (s : Scheduler) (r : ℕ) → select_next_message s ≡ some r → In r (values s.store.by_id)
unfolding list_active
selected_In s r e =
    (In-of_keep_if (active_at s.heap) r (values s.store.by_id)
      (select_next_message-first s r e).0).0

record_display_heap :
    (z : Zone) (now r : ℕ) (s : Scheduler)
    → lookup (id_at s.heap r) s.store.by_id ≡ some r
    → (record_display z now r s).heap ≡ write r (mark_displayed now (s.heap.cell r)) s.heap
unfolding record_display notify update
record_display_heap z now r s e = rw (e, update_found)

after_dwell_heap :
    (z : Zone) (r : ℕ) (s : Scheduler)
    → lookup (id_at s.heap r) s.store.by_id ≡ some r
    → (after_dwell z r s).heap ≡ (
        if reached_target (s.heap.cell r)
        then write r (mark_completed (s.heap.cell r)) s.heap
        else s.heap)
unfolding after_dwell notify mark_completed_by_id
after_dwell_heap z r s e = elim (Bool-cases (reached_target (s.heap.cell r))) [
  | inl reached ↦ rw (reached, after_dwell) (rw (e, mark_completed_by_id, update_found))
  | inr more ↦ rw (more, after_dwell)
]

after_dwell_store : (z : Zone) (r : ℕ) (s : Scheduler) → (after_dwell z r s).store ≡ s.store
unfolding after_dwell notify
after_dwell_store z r s = elim (Bool-cases (reached_target (s.heap.cell r))) [
  | inl reached ↦ rw (reached, after_dwell)
  | inr more ↦ rw (more, after_dwell)
]

id-mark_displayed : (now : ℕ) (m : Message) → (mark_displayed now m).id ≡ m.id
unfolding mark_displayed
id-mark_displayed now m = refl

-- Visits in other orders change the order of the entries and nothing else.
reorders-heap :
    (z : Zone) (ns : List ℕ) (s : Scheduler) → (run_calls z (map reorders ns) s).heap ≡ s.heap
unfolding run_calls run_call
reorders-heap z [] s = refl
reorders-heap z (n ∷ ns) s = reorders-heap z ns (record s { store = reordered n s.store })

reorders-store :
    (z : Zone) (ns : List ℕ) (s : Scheduler)
    → (run_calls z (map reorders ns) s).store.by_id ≡ swaps ns s.store.by_id
unfolding run_calls run_call swaps
reorders-store z [] s = refl
reorders-store z (n ∷ ns) s = reorders-store z ns (record s { store = reordered n s.store })

module _ (z : Zone) (now r : ℕ) (ns : List ℕ) (s : Scheduler)
    (distinct : DistinctBy key_of s.store.by_id)
    (found : lookup (id_at s.heap r) s.store.by_id ≡ some r) where
  dwelt : Scheduler
  dwelt = run_calls z (map reorders ns) (record_display z now r (show z r s))

  dwelt_heap : dwelt.heap ≡ write r (mark_displayed now (s.heap.cell r)) s.heap
  unfolding dwelt show notify
  dwelt_heap =
      reorders-heap z ns (record_display z now r (show z r s))
      ∙ record_display_heap z now r (show z r s) found

  dwelt_store : dwelt.store.by_id ≡ swaps ns s.store.by_id
  unfolding dwelt show notify record_display
  dwelt_store = reorders-store z ns (record_display z now r (show z r s))

  dwelt_id : id_at dwelt.heap r ≡ id_at s.heap r
  dwelt_id =
      ap (λ (h : Heap). id_at h r) dwelt_heap
      ∙ ap (λ (m : Message). m.id) (write_self r (mark_displayed now (s.heap.cell r)) s.heap)
      ∙ id-mark_displayed now (s.heap.cell r)

  dwelt_found : lookup (id_at dwelt.heap r) dwelt.store.by_id ≡ some r
  dwelt_found =
      (λ i. lookup (dwelt_id i) (dwelt_store i))
      ∙ lookup-swaps (id_at s.heap r) ns s.store.by_id distinct
      ∙ found

  shown_heap : (after_dwell z r dwelt).heap ≡ displayed_heap now r s.heap
  unfolding displayed_heap
  shown_heap =
      after_dwell_heap z r dwelt dwelt_found
      ∙ ap
          (λ (h : Heap).
            if reached_target (h.cell r) then write r (mark_completed (h.cell r)) h else h)
          dwelt_heap

  shown_store : (after_dwell z r dwelt).store.by_id ≡ swaps ns s.store.by_id
  shown_store = ap (λ (st : Store). st.by_id) (after_dwell_store z r dwelt) ∙ dwelt_store

-- A message with one more display, at the time `now`, and the given status.
abbrev pub shown_once : ℕ → MessageStatus → Message → Message
shown_once now st m = record m {
  status = st;
  display_count = m.display_count + 1;
  last_displayed_at = some now;
}

-- What becomes of a message that is displayed once.
pub record ShownOnce (now : ℕ) (m m' : Message) : Type 0 where
  pub status : MessageStatus
  pub counted : m' ≡ shown_once now status m
  -- A target that is not positive is reached at once.
  pub reached : to_ℕ m.target_display_count ≤ m.display_count + 1 → status ≡ completed
  pub more : m.display_count + 1 < to_ℕ m.target_display_count → status ≡ active

-- What a tick does when it is left alone and its publish succeeds.
pub record Shown (now r : ℕ) (ns : List ℕ) (s : Scheduler) (t : Ticked) : Type 0 where
  pub shown : ShownOnce now (s.heap.cell r) (t.after.heap.cell r)
  pub others_kept : (a : ℕ) → a ≢ r → t.after.heap.cell a ≡ s.heap.cell a
  -- In another order.
  pub store_kept : t.after.store.by_id ≡ swaps ns s.store.by_id
  pub sent : t.sent ≡ (s.publish_topic, publish_payload s (s.heap.cell r)) ∷ []
  pub outcome : t.outcome ≡ done

displayed_counted :
    (now : ℕ) (m : Message) → displayed now m ≡ shown_once now (displayed now m).status m
unfolding mark_displayed mark_completed
displayed_counted now m = elim (Bool-cases (reached_target (mark_displayed now m))) [
  | inl e ↦ rw e refl
  | inr e ↦ rw e refl
]

displayed_status :
    (st : MessageStatus) (target : ℤ) (now : ℕ) (m : Message)
    → m.status ≡ st
    → m.target_display_count ≡ target
    → is_completed m ≡ false
    → (to_ℕ target ≤ m.display_count + 1 → (displayed now m).status ≡ completed)
      × (m.display_count + 1 < to_ℕ target → (displayed now m).status ≡ active)
unfolding mark_displayed mark_completed
displayed_status pending (pos t) now m e f h = (λ k. ground arith, λ k. ground arith)
displayed_status pending (negsuc t) now m e f h = (λ k. ground arith, λ k. ground arith)
displayed_status active (pos t) now m e f h = (λ k. ground arith, λ k. ground arith)
displayed_status active (negsuc t) now m e f h = (λ k. ground arith, λ k. ground arith)
displayed_status completed t now m e f h = cc

displayed-ShownOnce :
    (now : ℕ) (m m' : Message) → m' ≡ displayed now m → is_completed m ≡ false → ShownOnce now m m'
displayed-ShownOnce now m m' e h =
    let st = displayed_status m.status m.target_display_count now m refl refl h in
    record {
      status = (displayed now m).status;
      counted = e ∙ displayed_counted now m;
      reached = st.0;
      more = st.1;
    }

display-Shown :
    (z : Zone) (now r : ℕ) (ns : List ℕ) (s : Scheduler)
    → DistinctBy key_of s.store.by_id
    → lookup (id_at s.heap r) s.store.by_id ≡ some r
    → is_completed (s.heap.cell r) ≡ false
    → Shown now r ns s (display z (undisturbed now ns) r s)
unfolding display run_calls dwelt show notify publish_payload
display-Shown z now r ns s distinct found live =
    let after = shown_heap z now r ns s distinct found in
    record {
      shown =
          displayed-ShownOnce now (s.heap.cell r) _
            (ap (λ (h : Heap). h.cell r) after ∙ displayed_heap_self now r s.heap) live;
      others_kept =
          λ a n. ap (λ (h : Heap). h.cell a) after ∙ displayed_heap_other now r s.heap a n;
      store_kept = shown_store z now r ns s distinct found;
      sent = refl;
      outcome = refl;
    }

selected_found :
    (s : Scheduler) (r : ℕ)
    → IsValid s
    → select_next_message s ≡ some r
    → lookup (id_at s.heap r) s.store.by_id ≡ some r
selected_found s r v e =
    lookup-of_In s.heap r s.store.by_id v.holds.stored.keyed v.holds.stored.distinct
      (selected_In s r e)

pub selected_live :
    (s : Scheduler) (r : ℕ) → select_next_message s ≡ some r → is_completed (s.heap.cell r) ≡ false
unfolding list_active
selected_live s r e =
    let live =
      (In-of_keep_if (active_at s.heap) r (values s.store.by_id)
        (select_next_message-first s r e).0).1 in
    ground (arith, live)

-- A tick that nothing interrupts publishes the selected message once, counts one more display of it at
-- that time, makes it completed if it has then been displayed as often as its target says and active if
-- not, changes nothing else of it, and leaves every other message as it is; the store keeps its entries,
-- in whatever order Go visits them next.
pub scheduler_tick-Shown :
    (z : Zone) (now r : ℕ) (ns : List ℕ) (s : Scheduler)
    → IsValid s
    → select_next_message s ≡ some r
    → Shown now r ns s (scheduler_tick z (undisturbed now ns) s)
unfolding scheduler_tick
scheduler_tick-Shown z now r ns s v e =
    rw (e, tick_of)
      (display-Shown z now r ns s v.holds.stored.distinct (selected_found s r v e)
        (selected_live s r e))
