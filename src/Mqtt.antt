-- ===== src/Mqtt.antt =====
-- backend-go/internal/mqttclient/client.go: what the display reports, and who is told.
--
-- The paho client, which connects, subscribes and delivers, is outside the repository: its answer to a
-- publish is an argument, and its callbacks (`on_connect`, `on_connection_lost`, `handle_message`) are
-- operations. `handleMessage` runs on one goroutine, so that two calls of it do not overlap; a subscription
-- may come between its steps.
pub mod Reception
pub mod Subscriptions
pub mod Races
pub mod Publishing
pub mod Lifecycle
use split_flap_display_web.Prelude.{
  ℕ, zero, suc, ◌+◌, Bool, true, false, not, ◌||◌, ◌&&◌, ltb, Option, none, some, List, [], ◌∷◌,
  ◌++◌, map, Text, codes, length, leb, drop, keep_if, ◌==◌, if◌then◌else◌, ℤ, pos,
}
use split_flap_display_web.Queue.{Queue, push, push_all}
use split_flap_display_web.Queue
use split_flap_display_web.Models.{MqttHistoryEntry}
use split_flap_display_web.Events.{Event, display_state_body, raw_body}
use split_flap_display_web.Subscribers.{push_each}

pub record Client : Type 0 where
  -- Whether `client` is not nil, which it is from the first Start on.
  pub has_client : Bool
  pub connected : Bool
  pub latest : Option Text
  pub history : List MqttHistoryEntry
  pub display_subs : List ℕ
  pub history_subs : List ℕ
  pub queues : ℕ → Queue Event
  -- The first queue address that is not in use.
  pub next_queue : ℕ

unfoldable pub new : (ℕ → Queue Event) → Client
new queues = record {
  has_client = false;
  connected = false;
  latest = none;
  history = [];
  display_subs = [];
  history_subs = [];
  queues = queues;
  next_queue = 0;
}

unfoldable pub on_connect : Client → Client
on_connect c = record c { connected = true }

unfoldable pub on_connection_lost : Client → Client
on_connection_lost c = record c { connected = false }

abbrev pub display_state_event : Text → Event
display_state_event payload = record {
  name = codes "display-state";
  body = display_state_body payload;
}

abbrev pub raw_event : MqttHistoryEntry → Event
raw_event entry = record { name = codes "history"; body = raw_body entry }

-- The ring of the newest 500 messages.
unfoldable pub record_entry : MqttHistoryEntry → List MqttHistoryEntry → List MqttHistoryEntry
record_entry entry history =
    let kept = if leb 500 (length history) then drop 1 history else history in kept ++ entry ∷ []

-- What handleMessage does under `mu`.
unfoldable pub record_message : MqttHistoryEntry → Client → Client
record_message entry c = record c {
  latest = some entry.payload;
  history = record_entry entry c.history;
}

-- Each set of subscribers is copied under its own lock and then told; `subs` is the copy.
unfoldable pub tell_display_subs : List ℕ → MqttHistoryEntry → Client → Client
tell_display_subs subs entry c = record c {
  queues = push_each subs (display_state_event entry.payload) c.queues;
}

unfoldable pub tell_history_subs : List ℕ → MqttHistoryEntry → Client → Client
tell_history_subs subs entry c = record c { queues = push_each subs (raw_event entry) c.queues }

-- The steps above in their order, with nothing in between.
unfoldable pub handle_message : MqttHistoryEntry → Client → Client
unfolding record_message tell_display_subs tell_history_subs
handle_message entry c =
    let recorded = record_message entry c in
    let shown = tell_display_subs recorded.display_subs entry recorded in
    tell_history_subs shown.history_subs entry shown

-- `GetLatestMessage` and `GetHistory`
abbrev pub get_latest_message : Client → Option Text
get_latest_message c = c.latest

abbrev pub get_history : Client → List MqttHistoryEntry
get_history c = c.history

unfoldable pub new_queue : Queue Event → Client → ℕ × Client
new_queue q c = (
  c.next_queue,
  record c {
    queues = λ a. if a == c.next_queue then q else c.queues a;
    next_queue = c.next_queue + 1;
  },
)

unfoldable pub seed_display_state : Option Text → Queue Event
seed_display_state none = Queue.new (pos 100)
seed_display_state (some payload) = push (Queue.new (pos 100)) (display_state_event payload)

-- The first half of SubscribeDisplayState: a new queue, seeded with what `latest` was under `mu`.
unfoldable pub seed_display_queue : Client → ℕ × Client
unfolding new_queue seed_display_state
seed_display_queue c = new_queue (seed_display_state c.latest) c

-- The second half, under `displaySubsMu`.
unfoldable pub register_display_queue : ℕ → Client → Client
register_display_queue q c = record c { display_subs = q ∷ c.display_subs }

unfoldable pub subscribe_display_state : Client → ℕ × Client
subscribe_display_state c =
    let (q, seeded) = seed_display_queue c in (q, register_display_queue q seeded)

unfoldable pub unsubscribe_display_state : ℕ → Client → Client
unsubscribe_display_state q c = record c {
  display_subs = keep_if (λ a. not (a == q)) c.display_subs;
}

-- The first half of SubscribeQueue: a new queue, seeded with what `history` was under `mu`.
unfoldable pub seed_history_queue : Client → ℕ × Client
unfolding new_queue
seed_history_queue c = new_queue (push_all (Queue.new (pos 500)) (map raw_event c.history)) c

-- The second half, under `historySubsMu`.
unfoldable pub register_history_queue : ℕ → Client → Client
register_history_queue q c = record c { history_subs = q ∷ c.history_subs }

unfoldable pub subscribe_queue : Client → ℕ × Client
subscribe_queue c = let (q, seeded) = seed_history_queue c in (q, register_history_queue q seeded)

unfoldable pub unsubscribe_queue : ℕ → Client → Client
unsubscribe_queue q c = record c { history_subs = keep_if (λ a. not (a == q)) c.history_subs }

-- What paho's token says after the wait of five seconds.
pub data Answer : Type 0 where
  -- The token is complete, without an error or with one.
  sent : Answer
  failed : Text → Answer
  timed_out : Answer

answered : Answer → Option Text
answered sent = none
answered (failed e) = some e
answered timed_out = some (codes "mqtt publish timeout")

-- The error that Publish returns, if any; `broker` answers for a topic and a payload.
unfoldable pub publish : (Text → Text → Answer) → Text → Text → Client → Option Text
unfolding answered
publish broker topic payload c =
    if not c.has_client || not c.connected
    then some (codes "mqtt client not connected")
    else answered (broker topic payload)

abbrev pub is_listed : ℕ → List ℕ → Bool
is_listed q [] = false
is_listed q (r ∷ rs) = q == r || is_listed q rs

-- Whether the queue exists and no subscriber has it, as one does between the two halves of a subscription.
abbrev pub is_free : ℕ → Client → Bool
is_free q c =
    ltb q c.next_queue && not (is_listed q c.display_subs) && not (is_listed q c.history_subs)

-- What happens to a client, in any order: the steps that a lock makes whole, so that those of several
-- messages and subscriptions interleave. The halves of a subscription name their queue, and those of
-- handleMessage the copy of the subscribers that they tell, which may be out of date.
pub data Call : Type 0 where
  connects loses_connection seeds_display_queue seeds_history_queue : Call
  registers_display_queue registers_history_queue : ℕ → Call
  unsubscribes_display_state unsubscribes_history : ℕ → Call
  records : MqttHistoryEntry → Call
  tells_display_subs tells_history_subs : List ℕ → MqttHistoryEntry → Call

-- A queue that is not free is not registered: no subscription does that.
unfoldable pub run_call : Call → Client → Client
run_call connects c = on_connect c
run_call loses_connection c = on_connection_lost c
run_call seeds_display_queue c = (seed_display_queue c).1
run_call seeds_history_queue c = (seed_history_queue c).1
run_call (registers_display_queue q) c = if is_free q c then register_display_queue q c else c
run_call (registers_history_queue q) c = if is_free q c then register_history_queue q c else c
run_call (unsubscribes_display_state q) c = unsubscribe_display_state q c
run_call (unsubscribes_history q) c = unsubscribe_queue q c
run_call (records entry) c = record_message entry c
run_call (tells_display_subs subs entry) c = tell_display_subs subs entry c
run_call (tells_history_subs subs entry) c = tell_history_subs subs entry c

unfoldable pub run_calls : List Call → Client → Client
run_calls [] c = c
run_calls (call ∷ calls) c = run_calls calls (run_call call c)
