-- ===== src/Scheduler/Holdings.antt =====
-- The bounds on what the scheduler holds: 100 active messages, 300 messages in all, 50 history
-- entries, and no dangling pointer.
use split_flap_display_web.Prelude.{
  ℕ, ◌+◌, ◌≤◌, ◌<◌, ◌≡◌, refl, ap, ◌∙◌, true, Option, none, some, List, [], ◌∷◌, Text, length,
  length-take, length-map, count_if-not, All, All-map, values, lookup, arith,
}
use split_flap_display_web.Models.{
  Message, HistoryEntry, Zone, is_completed, mark_displayed, mark_completed, new_history_entry,
}
use split_flap_display_web.Store.{
  Heap, Store, write, alloc, add, active_at, completed_at, count_active, evict_completed, update,
  update_found, mark_completed_by_id,
}
use split_flap_display_web.Store.Invariant.{
  IsStored, Extends-IsStored, write-Extends, alloc-Extends, add-IsStored, count_active_mono,
  count_active-add, count_active-length,
}
use split_flap_display_web.Store.Eviction.{evict_completed-Evicts, count_completed}
use split_flap_display_web.Scheduler.{Scheduler, record_history}

pub record Holds (h : Heap) (st : Store) (current : Option ℕ) (hist : List HistoryEntry)
    : Type 0 where
  pub stored : IsStored h st
  pub live : (r : ℕ) → current ≡ some r → r < h.next
  pub active_bound : count_active h st ≤ 100
  pub size_bound : length st.by_id ≤ 300
  pub hist_bound : length hist ≤ 50

-- What MarkDisplayed and MarkCompleted have in common.
pub record IsMark (f : Message → Message) : Type 0 where
  pub same_id : (m : Message) → (f m).id ≡ m.id
  pub stays_completed : (m : Message) → is_completed m ≡ true → is_completed (f m) ≡ true

pub mark_displayed-IsMark : (now : ℕ) → IsMark (mark_displayed now)
unfolding mark_displayed
mark_displayed-IsMark now = record { same_id = λ m. refl; stays_completed = λ m e. ground arith }

pub mark_completed-IsMark : IsMark mark_completed
unfolding mark_completed
mark_completed-IsMark = record { same_id = λ m. refl; stays_completed = λ m e. refl }

All-everywhere : {P : ℕ → Type 0} (l : List ℕ) → ((a : ℕ) → P a) → All P l
All-everywhere [] f = tt
All-everywhere (x ∷ l) f = (f x, All-everywhere l f)

module _ (f : Message → Message) (mark : IsMark f) where
  write_active :
      (r : ℕ) (h : Heap) (a : ℕ)
      → active_at (write r (f (h.cell r)) h) a ≡ true
      → active_at h a ≡ true
  unfolding write
  write_active r h a e = ground (arith, mark.stays_completed (h.cell r))

  write-Holds :
      (r : ℕ) (h : Heap) (st : Store) (c : Option ℕ) (hist : List HistoryEntry)
      → Holds h st c hist
      → Holds (write r (f (h.cell r)) h) st c hist
  unfolding write
  write-Holds r h st c hist v = record {
    stored =
        Extends-IsStored st (write-Extends r (f (h.cell r)) h (mark.same_id (h.cell r))) v.stored;
    live = v.live;
    active_bound = omega (
      arith,
      v.active_bound,
      count_active_mono h (write r (f (h.cell r)) h) st
          (All-everywhere (values st.by_id) (write_active r h)),
    );
    size_bound = v.size_bound;
    hist_bound = v.hist_bound;
  }

  update_found-Holds :
      (o : Option ℕ) (h : Heap) (st : Store) (c : Option ℕ) (hist : List HistoryEntry)
      → Holds h st c hist
      → Holds (update_found f o h).0 st c hist
  unfolding update_found
  update_found-Holds none h st c hist v = v
  update_found-Holds (some r) h st c hist v = write-Holds r h st c hist v

-- Showing a message and completing one keep the bounds.
pub update-Holds :
    (now : ℕ) (id : Text) (h : Heap) (st : Store) (c : Option ℕ) (hist : List HistoryEntry)
    → Holds h st c hist
    → Holds (update id (mark_displayed now) st h).0 st c hist
unfolding update
update-Holds now id h st c hist v =
    update_found-Holds (mark_displayed now) (mark_displayed-IsMark now) (lookup id st.by_id) h st c
      hist v

pub mark_completed_by_id-Holds :
    (id : Text) (h : Heap) (st : Store) (c : Option ℕ) (hist : List HistoryEntry)
    → Holds h st c hist
    → Holds (mark_completed_by_id id st h).0 st c hist
unfolding mark_completed_by_id
mark_completed_by_id-Holds id h st c hist v =
    update_found-Holds mark_completed mark_completed-IsMark (lookup id st.by_id) h st c hist v

-- Nothing new is active in a larger heap with the same messages.
alloc_active :
    (m : Message) (h : Heap) (l : List ℕ)
    → All (λ a. a < h.next) l
    → All (λ a. active_at (alloc m h).1 a ≡ true → active_at h a ≡ true) l
unfolding alloc
alloc_active m h l k = All-map _ l (λ a lt e. ground arith) k

pub values_allocated :
    (n : ℕ) (m : List (Text × ℕ)) → All (λ e. e.1 < n) m → All (λ a. a < n) (values m)
values_allocated n [] k = tt
values_allocated n (e ∷ m) k = (k.0, values_allocated n m k.1)

alloc-grows : (m : Message) (h : Heap) → (alloc m h).1.next ≡ h.next + 1
unfolding alloc
alloc-grows m h = refl

count_parts : (h : Heap) (st : Store) → count_completed h st + count_active h st ≡ length st.by_id
unfolding count_active
count_parts h st = count_if-not (completed_at h) (values st.by_id) ∙ length-map (λ e. e.1) st.by_id

-- Adding a message to fewer than 100 active ones, and evicting, keeps the bounds.
pub store_message-Holds :
    (m : Message) (h : Heap) (st : Store) (c : Option ℕ) (hist : List HistoryEntry)
    → count_active h st < 100
    → Holds h st c hist
    → Holds (alloc m h).1 (evict_completed (alloc m h).1 200 (add (alloc m h).1 h.next st)).0 c hist
store_message-Holds m h st c hist room v =
    let larger = Extends-IsStored st (alloc-Extends m h) v.stored in
    let added = add-IsStored (alloc m h).1 h.next st (alloc_next m h) larger in
    let ev = evict_completed-Evicts (alloc m h).1 200 (add (alloc m h).1 h.next st) added in
    let active : count_active (alloc m h).1
          (evict_completed (alloc m h).1 200 (add (alloc m h).1 h.next st)).0
        ≤ 100 =
      omega (
        arith,
        room,
        count_active-length (alloc m h).1
            (evict_completed (alloc m h).1 200 (add (alloc m h).1 h.next st)).0,
        ap length ev.active_kept,
        count_active-length (alloc m h).1 (add (alloc m h).1 h.next st),
        count_active-add (alloc m h).1 h.next st,
        count_active_mono h (alloc m h).1 st (
            alloc_active m h (values st.by_id)
              (values_allocated h.next st.by_id v.stored.allocated)),
      ) in
    record {
      stored = ev.valid;
      live = λ r e. lt_later m h r (v.live r e);
      active_bound = active;
      size_bound = omega (
        arith,
        active,
        ev.bounded,
        count_parts (alloc m h).1
            (evict_completed (alloc m h).1 200 (add (alloc m h).1 h.next st)).0,
      );
      hist_bound = v.hist_bound;
    }
  where
    alloc_next : (m' : Message) (h' : Heap) → h'.next < (alloc m' h').1.next
    alloc_next m' h' = omega (arith, (alloc-grows m' h'))

    lt_later : (m' : Message) (h' : Heap) (r : ℕ) → r < h'.next → r < (alloc m' h').1.next
    lt_later m' h' r lt = omega (arith, (alloc-grows m' h'))

-- A history entry more, of which 50 are kept.
pub record_history-bound :
    (z : Zone) (r : ℕ) (s : Scheduler) → length (record_history z r s).hist ≤ 50
unfolding record_history
record_history-bound z r s =
    ground (arith, length-take 50 (new_history_entry z (s.heap.cell r) ∷ s.hist))
