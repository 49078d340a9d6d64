-- ===== src/Tests/Schedules.antt =====
-- The scheduler's theorems at concrete inputs.
use split_flap_display_web.Prelude.{
  ℕ, ◌+◌, ◌≡◌, ◌↔◌, refl, inl, inr, some, [], ◌∷◌, ◌++◌, map, codes, text_eq, length, pos, to_ℕ, In,
  arith,
}
use split_flap_display_web.Prelude.Sort.{sort_stable}
use split_flap_display_web.Models.{priority_rank}
use split_flap_display_web.Scheduler.{
  Scheduler, new, active_messages, select_next_message, select_less,
}
use split_flap_display_web.Scheduler.Requests.{draft_message}
use split_flap_display_web.Scheduler.Ticks.{quiet, undisturbed, scheduler_tick, run_loop}
use split_flap_display_web.Scheduler.Ticks.Display.{Shown, scheduler_tick-Shown}
use split_flap_display_web.Scheduler.Ticks.Progress.{remaining, sum_by, run_loop-drains}
use split_flap_display_web.Scheduler.Invariant.{IsValid, new-IsValid, add_message-IsValid}
use split_flap_display_web.Scheduler.Loop.{run_loop-IsValid}
use split_flap_display_web.Scheduler.Selection.{Precedes, select_next_message-first}
use Prim.Native.Nat.{max}
use split_flap_display_web.Prelude.{List, DistinctBy, Perm, Pairwise, ◌≤◌}
use split_flap_display_web.Strings.{spaces}
use split_flap_display_web.Models.{to_dto}
use split_flap_display_web.Scheduler.{queue_snapshot}
use split_flap_display_web.Scheduler.Rendering.{publish_payload, pad_to_width}
use split_flap_display_web.Scheduler.Rendering.Width.{publish_payload-length, pad_to_width_fills}
use split_flap_display_web.Scheduler.Selection.{
  DtoPrecedes, select_next_message_order, queue_snapshot-sorted,
}
use split_flap_display_web.Tests.{
  utc, sample_settings, empty_heap, no_queue, fresh, hello, urgent, hello_draft, greeted, busy,
  eventful,
}

pub fresh-IsValid : IsValid fresh
unfolding new
fresh-IsValid = new-IsValid sample_settings empty_heap (λ a. no_queue)

pub greeted-IsValid : IsValid greeted
unfolding greeted
greeted-IsValid = add_message-IsValid utc (codes "a") 100 hello fresh fresh-IsValid

pub busy-IsValid : IsValid busy
unfolding busy
busy-IsValid = add_message-IsValid utc (codes "b") 200 urgent greeted greeted-IsValid

run_loop-IsValid_example : IsValid (run_loop utc (eventful ∷ quiet 500 ∷ []) busy)
run_loop-IsValid_example = run_loop-IsValid utc (eventful ∷ quiet 500 ∷ []) busy busy-IsValid

-- The map is visited in another order after the first tick.
abbrev orders : List (List ℕ)
orders = (0 ∷ []) ∷ [] ∷ (0 ∷ []) ∷ []

busy-remaining : remaining busy ≡ length orders
unfolding remaining sum_by busy
busy-remaining = refl

run_loop-drains_example :
    (active_messages (run_loop utc (map (undisturbed 500) orders) busy) ≡ [])
    × ((a : ℕ)
        → In a (active_messages busy)
        → ((run_loop utc (map (undisturbed 500) orders) busy).heap.cell a).display_count
          ≡ max
              ((busy.heap.cell a).display_count + 1)
              (to_ℕ (busy.heap.cell a).target_display_count))
run_loop-drains_example = run_loop-drains utc 500 orders busy busy-IsValid busy-remaining

-- The high-priority message goes first, although it came second.
pub busy_selects : select_next_message busy ≡ some 1
unfolding busy select_next_message select_less sort_stable priority_rank
busy_selects = refl

select_next_message-first_example :
    In 1 (active_messages busy)
    × ((a : ℕ) → In a (active_messages busy) → Precedes (busy.heap.cell 1) (busy.heap.cell a))
select_next_message-first_example = select_next_message-first busy 1 busy_selects

-- The same messages, visited in the other order.
reordered : Scheduler
unfolding busy
reordered = record busy { store = record { by_id = (codes "b", 1) ∷ (codes "a", 0) ∷ [] } }

reordered_selects : select_next_message reordered ≡ some 1
unfolding reordered select_next_message select_less sort_stable priority_rank
reordered_selects = refl

same_active : (a : ℕ) → In a (active_messages busy) ↔ In a (active_messages reordered)
unfolding reordered
same_active a = (there, back)
  where
    there : In a (0 ∷ 1 ∷ []) → In a (1 ∷ 0 ∷ [])
    there (inl e) = inr (inl e)
    there (inr (inl e)) = inl e
    there (inr (inr x)) = elim x [ ]

    back : In a (1 ∷ 0 ∷ []) → In a (0 ∷ 1 ∷ [])
    back (inl e) = inr (inl e)
    back (inr (inl e)) = inl e
    back (inr (inr x)) = elim x [ ]

created_apart : DistinctBy (λ a. (busy.heap.cell a).created_at) (active_messages busy)
unfolding busy
created_apart = omega arith

same_heap : busy.heap ≡ reordered.heap
unfolding reordered
same_heap = refl

select_next_message_order_example : ◌≡◌ {A = ℕ} 1 1
select_next_message_order_example =
    select_next_message_order busy reordered 1 1 same_heap same_active created_apart busy_selects
      reordered_selects

queue_snapshot-sorted_example :
    Perm (queue_snapshot utc busy) (map (λ r. to_dto utc (busy.heap.cell r)) (active_messages busy))
    × Pairwise DtoPrecedes (queue_snapshot utc busy)
queue_snapshot-sorted_example = queue_snapshot-sorted utc busy

scheduler_tick-Shown_example :
    Shown 500 1 (0 ∷ []) busy (scheduler_tick utc (undisturbed 500 (0 ∷ [])) busy)
scheduler_tick-Shown_example =
    scheduler_tick-Shown utc 500 1 (0 ∷ []) busy busy-IsValid busy_selects

publish_payload-length_example :
    length (publish_payload fresh (draft_message (codes "a") 100 hello hello_draft))
    ≡ max (length (draft_message (codes "a") 100 hello hello_draft).message) 12
publish_payload-length_example =
    publish_payload-length fresh (draft_message (codes "a") 100 hello hello_draft)
      (inr (inl (unfold draft_message in refl)))

-- "    31C     "
centred : pad_to_width (codes "31C") (codes "center") (pos 12) ≡ codes "    31C     "
unfolding pad_to_width text_eq
centred = refl

pad_to_width_fills_example :
    ((left : ℕ) × (right : ℕ) × (pad_to_width (codes "31C") (codes "center") (pos 12)
        ≡ spaces left ++ codes "31C" ++ spaces right)
      × (left + 3 + right ≡ 12)
      × (left ≤ right)
      × (right ≤ left + 1))
    × ((left : ℕ) × (pad_to_width (codes "31C") (codes "right") (pos 12)
          ≡ spaces left ++ codes "31C")
        × (left + 3 ≡ 12))
pad_to_width_fills_example = pad_to_width_fills (codes "31C") 12 (omega arith)
