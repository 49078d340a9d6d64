-- ===== src/Scheduler.antt =====
-- backend-go/internal/scheduler/scheduler.go: the state of the scheduler, its accessors, snapshots and
-- notifications, and the choice of the next message.
--
-- A subscriber's queue is shared by pointer: queues live in `queues`, and a pointer is a number. Each
-- function is one step under the locks that the method takes.
pub mod Requests
pub mod Rendering
pub mod Ticks
pub mod Selection
pub mod Holdings
pub mod Invariant
pub mod Loop
pub mod Stock
pub mod Lifecycle
use split_flap_display_web.Prelude.{
  ℕ, zero, suc, ◌+◌, Bool, true, false, not, Option, none, some, List, [], ◌∷◌, map, Text, codes,
  text_eq, text_lt, length, take, ltb, ◌==◌, if◌then◌else◌, ℤ, pos, count_if, keep_if,
}
use split_flap_display_web.Prelude.Sort.{sort_stable}
use split_flap_display_web.Queue.{Queue, push}
use split_flap_display_web.Queue
use split_flap_display_web.Models.{
  Message, MessageDto, HistoryEntry, Zone, Priority, priority_high, priority_rank, to_dto,
  new_history_entry,
}
use split_flap_display_web.Store.{Heap, Store, list_active, list_all}
use split_flap_display_web.Store
use split_flap_display_web.Subscribers.{push_each}
use split_flap_display_web.Events.{Event, current_body, queue_body, history_body}

-- What `New` is given and nothing changes.
pub record Settings : Type 0 where
  pub publish_topic : Text
  pub default_display_dur : ℤ
  pub default_target_count : ℤ
  pub display_width : ℤ
  pub idle_message : Text
  pub idle_mode : Text
  pub idle_interval : ℤ

pub record Scheduler : Type 0 where
  pub settings : Settings
  pub open settings use *
  pub heap : Heap
  pub store : Store
  pub current : Option ℕ
  -- Whether the one-slot channel holds a signal.
  pub wakeup : Bool
  pub subs : List ℕ
  pub queues : ℕ → Queue Event
  -- The first queue address that is not in use.
  pub next_queue : ℕ
  pub hist : List HistoryEntry

-- `New`, over a heap that holds whatever it holds.
unfoldable pub new : Settings → Heap → (ℕ → Queue Event) → Scheduler
new settings heap queues = record {
  settings = settings;
  heap = heap;
  store = Store.empty;
  current = none;
  wakeup = false;
  subs = [];
  queues = queues;
  next_queue = 0;
  hist = [];
}

abbrev pub active_messages : Scheduler → List ℕ
active_messages s = list_active s.heap s.store

abbrev pub all_messages : Scheduler → List ℕ
all_messages s = list_all s.store

abbrev pub get_history : Scheduler → List HistoryEntry
get_history s = s.hist

abbrev pub get_current_message : Scheduler → Option ℕ
get_current_message s = s.current

unfoldable pub has_any {ℓ} : {A : Type ℓ} → List A → Bool
has_any [] = false
has_any (x ∷ xs) = true

unfoldable pub is_set : Option ℕ → Bool
is_set none = false
is_set (some r) = true

-- `State`
unfoldable pub state : Scheduler → Text
unfolding has_any is_set
state s =
    if is_set s.current
    then codes "Active"
    else if has_any (active_messages s)
    then codes "Active"
    else codes "Idle"

unfoldable pub high_priority_count : Scheduler → ℕ
high_priority_count s =
    count_if (λ r. text_eq (s.heap.cell r).priority priority_high) (active_messages s)

-- 0 for high, 1 for normal.
unfoldable pub priority_sort_rank : Priority → ℕ
priority_sort_rank p = if text_eq p priority_high then 0 else 1

-- The comparison of `QueueSnapshot`.
unfoldable pub dto_less : MessageDto → MessageDto → Bool
dto_less a b =
    if priority_sort_rank a.priority == priority_sort_rank b.priority
    then (if a.display_count == b.display_count
        then text_lt a.created_at b.created_at
        else ltb a.display_count b.display_count)
    else ltb (priority_sort_rank a.priority) (priority_sort_rank b.priority)

unfoldable pub queue_snapshot : Zone → Scheduler → List MessageDto
queue_snapshot z s = sort_stable dto_less (map (λ r. to_dto z (s.heap.cell r)) (active_messages s))

-- The comparison of `SelectNextMessage`, which negates the ranks.
unfoldable pub select_less : Heap → ℕ → ℕ → Bool
select_less h a b =
    if priority_rank (h.cell a).priority == priority_rank (h.cell b).priority
    then (if (h.cell a).display_count == (h.cell b).display_count
        then ltb (h.cell a).created_at (h.cell b).created_at
        else ltb (h.cell a).display_count (h.cell b).display_count)
    else ltb (priority_rank (h.cell b).priority) (priority_rank (h.cell a).priority)

abbrev pub first {ℓ} : {A : Type ℓ} → List A → Option A
first [] = none
first (x ∷ xs) = some x

unfoldable pub select_next_message : Scheduler → Option ℕ
select_next_message s = first (sort_stable (select_less s.heap) (active_messages s))

current_snapshot_of : Zone → Heap → Option ℕ → Option MessageDto
current_snapshot_of z h none = none
current_snapshot_of z h (some r) = some (to_dto z (h.cell r))

unfoldable pub current_snapshot : Zone → Scheduler → Option MessageDto
unfolding current_snapshot_of
current_snapshot z s = current_snapshot_of z s.heap s.current

abbrev pub current_event : Option MessageDto → Event
current_event m = record { name = codes "current"; body = current_body m }

abbrev pub queue_event : Zone → Scheduler → Event
queue_event z s = record { name = codes "queue"; body = queue_body (queue_snapshot z s) }

abbrev pub history_event : Scheduler → Event
history_event s = record { name = codes "history"; body = history_body s.hist }

unfoldable pub notify : Event → Scheduler → Scheduler
notify e s = record s { queues = push_each s.subs e s.queues }

unfoldable pub record_history : Zone → ℕ → Scheduler → Scheduler
record_history z r s =
    let entries = new_history_entry z (s.heap.cell r) ∷ s.hist in
    record s { hist = if ltb 50 (length entries) then take 50 entries else entries }

unfoldable pub signal_wakeup : Scheduler → Scheduler
signal_wakeup s = record s { wakeup = true }

-- `waitWakeup`: the timer or the context may win over a pending signal.
unfoldable pub wait_wakeup : Bool → Scheduler → Bool × Scheduler
wait_wakeup expired s =
    if expired
    then (false, s)
    else if s.wakeup
    then (true, record s { wakeup = false })
    else (false, s)
