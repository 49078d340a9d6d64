-- ===== src/Mqtt/Subscriptions.antt =====
-- The subscribers of the MQTT client, over any run of calls and callbacks.
use split_flap_display_web.Prelude.{
  ℕ, ◌<◌, ◌≡◌, refl, subst, inl, inr, Option, none, some, List, [], ◌∷◌, map, In, In-of_keep_if,
  pos, arith, true, false, if_intro,
}
use split_flap_display_web.Queue.{Queue, push, push_all}
use split_flap_display_web.Queue
use split_flap_display_web.Queue.Laws.{keep_last, push_all-IsValid, new-IsValid, push-IsValid}
use split_flap_display_web.Queue.Laws
use split_flap_display_web.Events.{Event}
use split_flap_display_web.Models.{MqttHistoryEntry}
use split_flap_display_web.Subscribers.{push_each}
use split_flap_display_web.Subscribers.Hub.{
  IsHub, new_queue-IsHub, unsubscribe-IsHub, not_In-All, push_each_to-IsHub,
}
use split_flap_display_web.Mqtt.{
  Client, display_state_event, raw_event, Call, connects, loses_connection, seeds_display_queue,
  seeds_history_queue, registers_display_queue, registers_history_queue, records,
  tells_display_subs, tells_history_subs, unsubscribes_display_state, unsubscribes_history,
  run_call, run_calls, seed_display_queue, seed_history_queue, register_display_queue,
  register_history_queue, record_message, tell_display_subs, tell_history_subs, handle_message,
  is_free, is_listed, unsubscribe_queue, unsubscribe_display_state, new, seed_display_state,
  on_connect, on_connection_lost, new_queue,
}
use split_flap_display_web.Mqtt.Reception.{IsValid, record_entry-ring}

pub new_client-IsValid : (qs : ℕ → Queue Event) → IsValid (new qs)
unfolding new
new_client-IsValid qs = record {
  ring = omega arith;
  display = record { known = tt; distinct = tt; bounded = λ q lt. absurd (omega arith) };
  raw = record { known = tt; distinct = tt; bounded = λ q lt. absurd (omega arith) };
  apart = λ q i. absurd i;
}

seed_display_state-IsValid : (o : Option (List ℕ)) → Laws.IsValid (seed_display_state o)
unfolding seed_display_state
seed_display_state-IsValid none = new-IsValid (pos 100)
seed_display_state-IsValid (some payload) =
    push-IsValid (Queue.new (pos 100)) (display_state_event payload) (new-IsValid (pos 100))

seeded-IsValid :
    (h : List MqttHistoryEntry) → Laws.IsValid (push_all (Queue.new (pos 500)) (map raw_event h))
seeded-IsValid h = push_all-IsValid (Queue.new (pos 500)) (map raw_event h) (new-IsValid (pos 500))

unregistered :
    (q : Queue Event) (c : Client) → Laws.IsValid q → IsValid c → IsValid (new_queue q c).1
unfolding new_queue
unregistered q c w v = record {
  ring = v.ring;
  display = new_queue-IsHub c.display_subs c.next_queue c.queues v.display q w;
  raw = new_queue-IsHub c.history_subs c.next_queue c.queues v.raw q w;
  apart = v.apart;
}

seed_display_queue-IsValid : (c : Client) → IsValid c → IsValid (seed_display_queue c).1
unfolding seed_display_queue
seed_display_queue-IsValid c v =
    unregistered (seed_display_state c.latest) c (seed_display_state-IsValid c.latest) v

pub seed_history_queue-IsValid : (c : Client) → IsValid c → IsValid (seed_history_queue c).1
unfolding seed_history_queue
seed_history_queue-IsValid c v = unregistered _ c (seeded-IsValid c.history) v

unlisted : (q : ℕ) (rs : List ℕ) → is_listed q rs ≡ false → ¬ In q rs
unlisted q [] e i = absurd i
unlisted q (r ∷ rs) e (inl p) = ground arith
unlisted q (r ∷ rs) e (inr i) = absurd (unlisted q rs (ground arith) i)

register-IsHub :
    (q : ℕ) (subs : List ℕ) (next : ℕ) (qs : ℕ → Queue Event)
    → q < next
    → ¬ In q subs
    → IsHub subs next qs
    → IsHub (q ∷ subs) next qs
register-IsHub q subs next qs lt n h = record {
  known = (lt, h.known);
  distinct = (not_In-All q subs n, h.distinct);
  bounded = h.bounded;
}

-- What is_free says.
abbrev IsFree : ℕ → Client → Type 0
IsFree q c = (q < c.next_queue) × (¬ In q c.display_subs) × (¬ In q c.history_subs)

is_free-IsFree : (q : ℕ) (c : Client) → is_free q c ≡ true → IsFree q c
is_free-IsFree q c e = (
  ground arith,
  unlisted q c.display_subs (ground arith),
  unlisted q c.history_subs (ground arith),
)

register_display_queue-IsValid :
    (q : ℕ) (c : Client) → IsFree q c → IsValid c → IsValid (register_display_queue q c)
unfolding register_display_queue
register_display_queue-IsValid q c (lt, n, n') v = record {
  ring = v.ring;
  display = register-IsHub q c.display_subs c.next_queue c.queues lt n v.display;
  raw = v.raw;
  apart = apart_with;
}
  where
    apart_with : (a : ℕ) → In a (q ∷ c.display_subs) → ¬ In a c.history_subs
    apart_with a (inl e) = λ j. n' (subst (λ x. In x c.history_subs) e j)
    apart_with a (inr i) = v.apart a i

register_history_queue-IsValid :
    (q : ℕ) (c : Client) → IsFree q c → IsValid c → IsValid (register_history_queue q c)
unfolding register_history_queue
register_history_queue-IsValid q c (lt, n, n') v = record {
  ring = v.ring;
  display = v.display;
  raw = register-IsHub q c.history_subs c.next_queue c.queues lt n' v.raw;
  apart = apart_with;
}
  where
    apart_with : (a : ℕ) → In a c.display_subs → ¬ In a (q ∷ c.history_subs)
    apart_with a i (inl e) = n (subst (λ x. In x c.display_subs) e i)
    apart_with a i (inr j) = v.apart a i j

unsubscribe_display_state-IsValid :
    (q : ℕ) (c : Client) → IsValid c → IsValid (unsubscribe_display_state q c)
unfolding unsubscribe_display_state
unsubscribe_display_state-IsValid q c v = record {
  ring = v.ring;
  display = unsubscribe-IsHub c.display_subs c.next_queue c.queues v.display q;
  raw = v.raw;
  apart = λ a i. v.apart a (In-of_keep_if _ a c.display_subs i).0;
}

unsubscribe_queue-IsValid : (q : ℕ) (c : Client) → IsValid c → IsValid (unsubscribe_queue q c)
unfolding unsubscribe_queue
unsubscribe_queue-IsValid q c v = record {
  ring = v.ring;
  display = v.display;
  raw = unsubscribe-IsHub c.history_subs c.next_queue c.queues v.raw q;
  apart = λ a i j. v.apart a i (In-of_keep_if _ a c.history_subs j).0;
}

tell-IsValid :
    (subs : List ℕ) (e : Event) (c : Client)
    → IsValid c
    → IsValid (record c { queues = push_each subs e c.queues })
tell-IsValid subs e c v = record {
  ring = v.ring;
  display = push_each_to-IsHub c.display_subs c.next_queue c.queues v.display subs e;
  raw = push_each_to-IsHub c.history_subs c.next_queue c.queues v.raw subs e;
  apart = v.apart;
}

run_call-IsValid : (call : Call) (c : Client) → IsValid c → IsValid (run_call call c)
unfolding run_call on_connect on_connection_lost record_message tell_display_subs tell_history_subs
run_call-IsValid connects c v = record {
  ring = v.ring;
  display = v.display;
  raw = v.raw;
  apart = v.apart;
}
run_call-IsValid loses_connection c v = record {
  ring = v.ring;
  display = v.display;
  raw = v.raw;
  apart = v.apart;
}
run_call-IsValid seeds_display_queue c v = seed_display_queue-IsValid c v
run_call-IsValid seeds_history_queue c v = seed_history_queue-IsValid c v
run_call-IsValid (registers_display_queue q) c v =
    if_intro IsValid (is_free q c) _ c
      (λ e. register_display_queue-IsValid q c (is_free-IsFree q c e) v) (λ _. v)
run_call-IsValid (registers_history_queue q) c v =
    if_intro IsValid (is_free q c) _ c
      (λ e. register_history_queue-IsValid q c (is_free-IsFree q c e) v) (λ _. v)
run_call-IsValid (unsubscribes_display_state q) c v = unsubscribe_display_state-IsValid q c v
run_call-IsValid (unsubscribes_history q) c v = unsubscribe_queue-IsValid q c v
run_call-IsValid (records e) c v = record {
  ring = record_entry-ring e c.history v.ring;
  display = v.display;
  raw = v.raw;
  apart = v.apart;
}
run_call-IsValid (tells_display_subs subs e) c v =
    tell-IsValid subs (display_state_event e.payload) c v
run_call-IsValid (tells_history_subs subs e) c v = tell-IsValid subs (raw_event e) c v

pub run_calls-IsValid : (calls : List Call) (c : Client) → IsValid c → IsValid (run_calls calls c)
unfolding run_calls
run_calls-IsValid [] c v = v
run_calls-IsValid (call ∷ calls) c v =
    run_calls-IsValid calls (run_call call c) (run_call-IsValid call c v)

-- A message that handleMessage handles whole is one of these runs.
run_calls-handle_message :
    (e : MqttHistoryEntry) (c : Client)
    → run_calls
        (records e ∷ tells_display_subs c.display_subs e ∷ tells_history_subs c.history_subs e ∷ [])
        c
      ≡ handle_message e c
unfolding run_calls run_call handle_message record_message tell_display_subs tell_history_subs
run_calls-handle_message e c = refl
