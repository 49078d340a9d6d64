-- ===== src/Tests/Races.antt =====
-- Two overlapping calls of AddMessage, at concrete inputs.
use split_flap_display_web.Prelude.{
  ◌+◌, ◌≡◌, refl, none, [], codes, length, lookup, insert, text_eq, pos,
}
use split_flap_display_web.Models.{priority_high, parse_align}
use split_flap_display_web.Strings.{to_lower, trim_space}
use split_flap_display_web.Store.{count_active, alloc, add, evict_completed, list_active}
use split_flap_display_web.Subscribers.{push_both}
use split_flap_display_web.Scheduler.{active_messages, record_history, signal_wakeup}
use split_flap_display_web.Scheduler.Requests.{
  Draft, ok, validate, accept, draft_message, store_message,
}
use split_flap_display_web.Scheduler.Requests.Racing.{accept_race}
use split_flap_display_web.Tests.{utc, fresh, hello, urgent, hello_draft}
use split_flap_display_web.Tests.Schedules.{fresh-IsValid}

abbrev urgent_draft : Draft
urgent_draft = record {
  align = [];
  target_display_count = pos 1;
  display_duration = pos 10;
  priority = priority_high;
}

hello_valid : validate hello fresh ≡ ok hello_draft
unfolding validate count_active parse_align text_eq to_lower trim_space
hello_valid = refl

urgent_valid : validate urgent fresh ≡ ok urgent_draft
unfolding validate count_active parse_align text_eq to_lower trim_space
urgent_valid = refl

b_is_new :
    lookup
      (codes "b")
      (accept utc (draft_message (codes "a") 100 hello hello_draft) fresh).store.by_id
    ≡ none
unfolding accept store_message draft_message record_history signal_wakeup alloc add insert
    evict_completed list_active push_both text_eq lookup
b_is_new = refl

accept_race_example :
    length (
      active_messages (
        accept utc
          (draft_message (codes "b") 100 urgent urgent_draft)
          (accept utc (draft_message (codes "a") 100 hello hello_draft) fresh)))
    ≡ length (active_messages fresh) + 2
accept_race_example =
    accept_race utc (codes "a") (codes "b") 100 100 hello urgent fresh hello_draft urgent_draft
      fresh-IsValid hello_valid urgent_valid (unfold lookup in refl) b_is_new
