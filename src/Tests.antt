-- ===== src/Tests.antt =====
-- Concrete inputs, on which the theorems are applied and the definitions run.
pub mod Browsers
pub mod Queues
pub mod Messages
pub mod Stores
pub mod Programs
pub mod Lifecycles
pub mod Stocks
pub mod Streams
pub mod Schedules
pub mod Requests
pub mod Clients
pub mod Handlers
pub mod Failures
pub mod Races
pub mod Configs
use split_flap_display_web.Subscribers.{push_both}
use split_flap_display_web.Prelude.{
  ℕ, zero, suc, ◌+◌, Bool, true, false, Option, none, some, List, [], ◌∷◌, Text, codes, ℤ, pos,
}
use split_flap_display_web.Queue.{Queue}
use split_flap_display_web.Queue
use split_flap_display_web.Models.{
  Message, Zone, priority_normal, priority_high, new_message, mark_completed,
}
use split_flap_display_web.Store.{Heap, Store}
use split_flap_display_web.Prelude.{text_eq, insert}
use split_flap_display_web.Models.{parse_align}
use split_flap_display_web.Strings.{to_lower, trim_space}
use split_flap_display_web.Store.{count_active, alloc, add, evict_completed, list_active}
use split_flap_display_web.Scheduler.{record_history, signal_wakeup}
use split_flap_display_web.Scheduler.Requests.{validate, accept}
use split_flap_display_web.Events.{Event}
use split_flap_display_web.Scheduler.{Scheduler, Settings, new}
use split_flap_display_web.Scheduler.Requests.{Input, Draft, add_message}
use split_flap_display_web.Scheduler.Ticks.{Env, Call, adds, removes, subscribes}

abbrev pub utc : Zone
utc = record { iso = λ t. t ∷ []; hm = λ t. t ∷ [] }

abbrev pub sample_settings : Settings
sample_settings = record {
  publish_topic = codes "splitflap/splitflap/set";
  default_display_dur = pos 10;
  default_target_count = pos 2;
  display_width = pos 12;
  idle_message = codes "WELCOME";
  idle_mode = codes "publish";
  idle_interval = pos 10;
}

abbrev pub no_message : Message
no_message = record {
  id = [];
  message = [];
  created_at = 0;
  status = split_flap_display_web.Models.MessageStatus.completed;
  display_duration = pos 0;
  target_display_count = pos 0;
  display_count = 0;
  last_displayed_at = none;
  priority = [];
  user = [];
  align = [];
}

abbrev pub empty_heap : Heap
empty_heap = record { cell = λ a. no_message; next = 0 }

abbrev pub no_queue : Queue Event
no_queue = record { cap = 1; buf = []; notify = false }

abbrev pub fresh : Scheduler
fresh = record {
  settings = sample_settings;
  heap = empty_heap;
  store = record { by_id = [] };
  current = none;
  wakeup = false;
  subs = [];
  queues = λ a. no_queue;
  next_queue = 0;
  hist = [];
}

abbrev pub hello : Input
hello = record {
  text = codes "HELLO";
  target_display_count = none;
  display_duration = none;
  priority = none;
  user = codes "alice";
  align = codes " Center";
}

abbrev pub urgent : Input
urgent = record {
  text = codes "NOW";
  target_display_count = some (pos 1);
  display_duration = none;
  priority = some priority_high;
  user = codes "bob";
  align = [];
}

abbrev pub hello_draft : Draft
hello_draft = record {
  align = codes "center";
  target_display_count = pos 2;
  display_duration = pos 10;
  priority = priority_normal;
}

-- One message; then two. To unfold these is to unfold what AddMessage runs.
unfoldable pub greeted : Scheduler
unfolding add_message validate count_active parse_align text_eq to_lower trim_space accept
    record_history signal_wakeup alloc add insert evict_completed list_active push_both
greeted = (add_message utc (codes "a") 100 hello fresh).1

unfoldable pub busy : Scheduler
unfolding greeted
busy = (add_message utc (codes "b") 200 urgent greeted).1

-- A tick in whose publish a message comes in and in whose dwell one is deleted.
abbrev pub eventful : Env
eventful = record {
  publish_fails = λ topic payload. false;
  during_publish = adds (codes "c") 300 hello ∷ subscribes ∷ [];
  now = 400;
  during_wait = removes (codes "b") ∷ [];
  cancelled = false;
  timer_first = false;
}
