-- ===== src/Scheduler/Requests.antt =====
-- AddMessage, RemoveMessage, SubscribeQueue and UnsubscribeQueue: what HTTP handlers do to the
-- scheduler.
pub mod Validation
pub mod Adding
pub mod Removing
pub mod Subscribing
pub mod Racing
use split_flap_display_web.Prelude.{
  ℕ, zero, suc, ◌+◌, Bool, true, false, not, ◌||◌, Option, none, some, List, [], ◌∷◌, Text, codes,
  text_eq, length, ltb, leb, ◌==◌, if◌then◌else◌, ℤ, pos, is_positive, keep_if,
}
use split_flap_display_web.Queue.{Queue, push}
use split_flap_display_web.Queue
use split_flap_display_web.Models.{
  Message, Zone, Priority, priority_normal, priority_high, parse_align, new_message,
}
use split_flap_display_web.Store.{
  Heap, Store, alloc, add, count_active, evict_completed, mark_completed_by_id,
}
use split_flap_display_web.Subscribers.{push_both}
use split_flap_display_web.Events.{Event}
use split_flap_display_web.Scheduler.{
  Scheduler, notify, record_history, signal_wakeup, current_snapshot, current_event, queue_event,
  history_event,
}

abbrev pub max_text_len : ℕ
max_text_len = 256

abbrev pub max_active_messages : ℕ
max_active_messages = 100

abbrev pub max_completed_keep : ℕ
max_completed_keep = 200

pub data AddError : Type 0 where
  validation_error : Text → AddError
  queue_full_error : ℕ → AddError

-- A validated value, or the reason for the refusal.
pub data Result {κ} (V : Type κ) : Type κ where
  err : AddError → Result V
  ok : V → Result V

infixl 5 ◌>>=◌ ◌>>◌
abbrev pub ◌>>=◌ {κ μ} : {V : Type κ} {W : Type μ} → Result V → (V → Result W) → Result W
err why >>= checks = err why
ok v >>= checks = checks v

abbrev pub refuse_if : Bool → AddError → Result (Unit {0})
refuse_if false why = ok tt
refuse_if true why = err why

abbrev pub ◌>>◌ {μ} : {W : Type μ} → Result (Unit {0}) → Result W → Result W
checked >> later = checked >>= λ u. later

-- The arguments of AddMessage.
pub record Input : Type 0 where
  pub text : Text
  pub target_display_count : Option ℤ
  pub display_duration : Option ℤ
  pub priority : Option Priority
  pub user : Text
  pub align : Text

-- What validation makes of them.
pub record Draft : Type 0 where
  pub align : Text
  pub target_display_count : ℤ
  pub display_duration : ℤ
  pub priority : Priority

unfoldable pub or_invalid {ℓ} : {A : Type ℓ} → Option A → Text → Result A
or_invalid none msg = err (validation_error msg)
or_invalid (some a) msg = ok a

unfoldable pub positive_or : ℤ → Option ℤ → Text → Result ℤ
positive_or default none msg = ok default
positive_or default (some n) msg = if is_positive n then ok n else err (validation_error msg)

unfoldable pub known_priority : Option Priority → Result Priority
known_priority none = ok priority_normal
known_priority (some p) =
    if text_eq p priority_normal || text_eq p priority_high
    then ok p
    else err (validation_error (codes "priority must be 'normal' or 'high'"))

unfoldable pub validate : Input → Scheduler → Result Draft
unfolding or_invalid positive_or known_priority
validate i s = do
  refuse_if (ltb max_text_len (length i.text))
      (validation_error (codes "text must be at most 256 characters"))
  refuse_if (leb max_active_messages (count_active s.heap s.store))
      (queue_full_error max_active_messages)
  align ← or_invalid (parse_align i.align) (codes "align must be 'left', 'center' or 'right'")
  tdc ←
      positive_or s.default_target_count i.target_display_count
        (codes "target_display_count must be > 0")
  dd ← positive_or s.default_display_dur i.display_duration (codes "display_duration must be > 0")
  pr ← known_priority i.priority
  ok (record { align = align; target_display_count = tdc; display_duration = dd; priority = pr })

-- `s.store.Add(m)` and the eviction.
unfoldable pub store_message : Message → Scheduler → Scheduler
store_message m s =
    let (r, h) = alloc m s.heap in
    record s { heap = h; store = (evict_completed h max_completed_keep (add h r s.store)).0 }

-- AddMessage past its validation. The new message stands at the heap's next address.
unfoldable pub accept : Zone → Message → Scheduler → Scheduler
unfolding store_message
accept z m s =
    let stored = signal_wakeup (record_history z s.heap.next (store_message m s)) in
    record stored {
      queues = push_both stored.subs (queue_event z stored) (history_event stored) stored.queues;
    }

unfoldable pub draft_message : Text → ℕ → Input → Draft → Message
unfolding new_message
draft_message id now i d =
    new_message id now i.text d.target_display_count d.display_duration d.priority i.user d.align

unfoldable pub finish_add :
    Zone → Text → ℕ → Input → Scheduler → Result Draft → Result Text × Scheduler
finish_add z id now i s (err e) = (err e, s)
finish_add z id now i s (ok d) = (ok id, accept z (draft_message id now i d) s)

-- The identifier (uuid.NewString) and the time come from outside.
unfoldable pub add_message : Zone → Text → ℕ → Input → Scheduler → Result Text × Scheduler
unfolding finish_add draft_message
add_message z id now i s = finish_add z id now i s (validate i s)

unfoldable pub finish_remove : Zone → Scheduler → Heap × Bool → Bool × Scheduler
finish_remove z s (h, false) = (false, record s { heap = h })
finish_remove z s (h, true) =
    let marked = record s { heap = h } in (true, notify (queue_event z marked) marked)

unfoldable pub remove_message : Zone → Text → Scheduler → Bool × Scheduler
unfolding finish_remove
remove_message z id s = finish_remove z s (mark_completed_by_id id s.store s.heap)

-- The first half of SubscribeQueue: a new queue, seeded with the snapshots, not yet registered.
unfoldable pub seed_queue : Zone → Scheduler → ℕ × Scheduler
seed_queue z s =
    let q =
      push
        (push (push (Queue.new (pos 500)) (current_event (current_snapshot z s))) (queue_event z s))
        (history_event s) in
    (
      s.next_queue,
      record s {
        queues = λ a. if a == s.next_queue then q else s.queues a;
        next_queue = s.next_queue + 1;
      },
    )

-- The second half, under the lock of the subscribers.
unfoldable pub register_queue : ℕ → Scheduler → Scheduler
register_queue q s = record s { subs = q ∷ s.subs }

unfoldable pub subscribe_queue : Zone → Scheduler → ℕ × Scheduler
subscribe_queue z s = let (q, seeded) = seed_queue z s in (q, register_queue q seeded)

unfoldable pub unsubscribe_queue : ℕ → Scheduler → Scheduler
unsubscribe_queue q s = record s { subs = keep_if (λ a. not (a == q)) s.subs }
