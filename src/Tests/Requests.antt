-- ===== src/Tests/Requests.antt =====
-- What the callers ask of the scheduler, at concrete inputs.
use split_flap_display_web.Prelude.{
  ℕ, ◌≡◌, ◌↔◌, refl, true, false, none, some, [], ◌∷◌, codes, text_eq, lookup, In, arith,
}
use split_flap_display_web.Models.{parse_align}
use split_flap_display_web.Strings.{to_lower, trim_space}
use split_flap_display_web.Store.{count_active}
use split_flap_display_web.Scheduler.{Scheduler, notify}
use split_flap_display_web.Scheduler.Requests.{
  ok, validate, add_message, remove_message, seed_queue, draft_message,
}
use split_flap_display_web.Scheduler.Requests.Validation.{validate_iff, Checked}
use split_flap_display_web.Scheduler.Requests.Adding.{Added, add_message-Added}
use split_flap_display_web.Scheduler.Invariant.{IsValid}
use split_flap_display_web.Prelude.{take}
use split_flap_display_web.Models.{is_completed, new_history_entry}
use split_flap_display_web.Scheduler.{state}
use split_flap_display_web.Scheduler.Requests.{register_queue}
use split_flap_display_web.Scheduler.Requests.Removing.{
  Removed, remove_message-Removed, remove_message-still_current,
}
use split_flap_display_web.Scheduler.Requests.Subscribing.{seed_queue-missed}
use split_flap_display_web.Scheduler.Ticks.{show}
use split_flap_display_web.Scheduler.Loop.{show-IsValid}
use split_flap_display_web.Tests.{utc, fresh, hello, hello_draft, greeted, busy}
use split_flap_display_web.Tests.Schedules.{fresh-IsValid, busy-IsValid}

hello_accepted : validate hello fresh ≡ ok hello_draft
unfolding validate count_active parse_align text_eq to_lower trim_space
hello_accepted = refl

add_message-Added_example :
    ((add_message utc (codes "a") 100 hello fresh).0 ≡ ok (codes "a"))
    × Added utc (draft_message (codes "a") 100 hello hello_draft) fresh greeted
unfolding greeted
add_message-Added_example =
    add_message-Added utc (codes "a") 100 hello fresh hello_draft fresh-IsValid hello_accepted
      (unfold lookup in refl)

b_is_stored : lookup (codes "b") busy.store.by_id ≡ some 1
unfolding busy lookup
b_is_stored = refl

remove_message-Removed_example :
    (lookup (codes "b") busy.store.by_id ≡ none
      → remove_message utc (codes "b") busy ≡ (false, busy))
    × ((r : ℕ)
        → lookup (codes "b") busy.store.by_id ≡ some r
        → ((remove_message utc (codes "b") busy).0 ≡ true)
          × Removed utc r busy (remove_message utc (codes "b") busy).1)
remove_message-Removed_example = remove_message-Removed utc (codes "b") busy busy-IsValid

b_on_display : Scheduler
b_on_display = show utc 1 busy

b_on_display-IsValid : IsValid b_on_display
unfolding b_on_display
b_on_display-IsValid = show-IsValid utc 1 busy (unfold busy in omega arith) busy-IsValid

remove_message-still_current_example :
    let s' = (remove_message utc (codes "b") b_on_display).1 in
    (s'.current ≡ some 1) × (is_completed (s'.heap.cell 1) ≡ true) × (state s' ≡ codes "Active")
remove_message-still_current_example =
    remove_message-still_current utc (codes "b") b_on_display 1 b_on_display-IsValid
      (unfold b_on_display show notify in refl)
      (unfold b_on_display show notify busy lookup in refl)

hello_accepted_seeded : validate hello (seed_queue utc fresh).1 ≡ ok hello_draft
unfolding seed_queue validate count_active parse_align text_eq to_lower trim_space
hello_accepted_seeded = refl

seed_queue-missed_example :
    let (q, seeded) = seed_queue utc fresh in
    let after = register_queue q (add_message utc (codes "a") 100 hello seeded).1 in
    (after.queues q ≡ seeded.queues q)
    × (after.hist
        ≡ take 50 (new_history_entry utc (draft_message (codes "a") 100 hello hello_draft) ∷ []))
    × In q after.subs
seed_queue-missed_example =
    seed_queue-missed utc fresh (codes "a") 100 hello hello_draft fresh-IsValid
      hello_accepted_seeded (unfold lookup in refl)

validate_iff_example : (validate hello fresh ≡ ok hello_draft) ↔ Checked hello fresh hello_draft
validate_iff_example = validate_iff hello fresh hello_draft
