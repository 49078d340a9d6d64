-- ===== src/Mqtt/Reception.antt =====
-- What messages from the broker do to the client and to its subscribers.
use mathlib.Core.List.{append_assoc, append-nil}
use split_flap_display_web.Prelude.{
  ℕ, ◌-◌, ◌≤◌, ◌≡◌, refl, sym, ap, ◌∙◌, inl, inr, List, [], ◌∷◌, ◌++◌, map, length, length-append,
  length-drop, drop, leb, In, arith, Bool-cases,
}
use split_flap_display_web.Queue.{push, push_all}
use split_flap_display_web.Queue
use split_flap_display_web.Queue.Laws.{
  keep_last, keep_last-append, keep_last_of_fits, drop-append, drop-zero,
}
use split_flap_display_web.Models.{MqttHistoryEntry}
use split_flap_display_web.Subscribers.{push_each}
use split_flap_display_web.Subscribers.Hub.{
  IsHub, push_each-IsHub, push_each_to-IsHub, push_each-delivers,
}
use split_flap_display_web.Mqtt.{
  Client, record_entry, handle_message, display_state_event, raw_event,
}

-- Messages that arrive one after another.
unfoldable pub receive_all : List MqttHistoryEntry → Client → Client
receive_all [] c = c
receive_all (e ∷ es) c = receive_all es (handle_message e c)

pub record_entry-keep_last :
    (e : MqttHistoryEntry) (h : List MqttHistoryEntry)
    → length h ≤ 500
    → record_entry e h ≡ keep_last 500 (h ++ e ∷ [])
unfolding record_entry
record_entry-keep_last e h ring = elim (Bool-cases (leb 500 (length h))) [
  | inl full ↦
      let one_over : length (h ++ e ∷ []) - 500 ≡ 1 = ground (arith, length-append h (e ∷ [])) in
      let one_in : 1 ≤ length h = ground arith in
      ground (arith, drop-append 1 h (e ∷ []) one_in, ap (λ (k : ℕ). drop k (h ++ e ∷ [])) one_over)
  | inr room ↦
      let none_over : length (h ++ e ∷ []) - 500 ≡ 0 = ground (arith, length-append h (e ∷ [])) in
      ground (arith, drop-zero _ (h ++ e ∷ []) none_over)
]

pub record_entry-ring :
    (e : MqttHistoryEntry) (h : List MqttHistoryEntry)
    → length h ≤ 500
    → length (record_entry e h) ≤ 500
record_entry-ring e h ring = omega (
  arith,
  ap length (record_entry-keep_last e h ring),
  length-drop (length (h ++ e ∷ []) - 500) (h ++ e ∷ []),
)

-- The ring is within its bound, both sets of subscribers are in order, and no queue is in both.
pub record IsValid (c : Client) : Type 0 where
  pub ring : length c.history ≤ 500
  pub display : IsHub c.display_subs c.next_queue c.queues
  pub raw : IsHub c.history_subs c.next_queue c.queues
  pub apart : (q : ℕ) → In q c.display_subs → ¬ In q c.history_subs

-- What a run of messages leaves behind.
pub record Received (es : List MqttHistoryEntry) (c c' : Client) : Type 0 where
  pub history : c'.history ≡ keep_last 500 (c.history ++ es)
  pub display_told :
      (q : ℕ)
      → In q c.display_subs
      → c'.queues q ≡ push_all (c.queues q) (map (λ e. display_state_event e.payload) es)
  pub raw_told :
      (q : ℕ) → In q c.history_subs → c'.queues q ≡ push_all (c.queues q) (map raw_event es)
  pub others_untold :
      (q : ℕ) → ¬ In q c.display_subs → ¬ In q c.history_subs → c'.queues q ≡ c.queues q
  pub valid : IsValid c'

module _ (e : MqttHistoryEntry) (c : Client) (v : IsValid c) where
  displayed : ℕ → Queue.Queue split_flap_display_web.Events.Event
  displayed = push_each c.display_subs (display_state_event e.payload) c.queues

  display_once :
      (q : ℕ)
      → In q c.display_subs
      → (handle_message e c).queues q ≡ push (c.queues q) (display_state_event e.payload)
  unfolding handle_message displayed
  display_once q i =
      (push_each-delivers c.history_subs (raw_event e) displayed q v.raw.distinct).1 (v.apart q i)
      ∙ (push_each-delivers c.display_subs (display_state_event e.payload) c.queues q
            v.display.distinct).0
          i

  raw_once :
      (q : ℕ)
      → In q c.history_subs
      → (handle_message e c).queues q ≡ push (c.queues q) (raw_event e)
  unfolding handle_message displayed
  raw_once q i =
      (push_each-delivers c.history_subs (raw_event e) displayed q v.raw.distinct).0 i
      ∙ ap (λ k. push k (raw_event e))
          ((push_each-delivers c.display_subs (display_state_event e.payload) c.queues q
              v.display.distinct).1
            (λ j. v.apart q j i))

  pub neither :
      (q : ℕ)
      → ¬ In q c.display_subs
      → ¬ In q c.history_subs
      → (handle_message e c).queues q ≡ c.queues q
  unfolding handle_message displayed
  neither q d h =
      (push_each-delivers c.history_subs (raw_event e) displayed q v.raw.distinct).1 h
      ∙ (push_each-delivers c.display_subs (display_state_event e.payload) c.queues q
            v.display.distinct).1
          d

pub handle_message-IsValid :
    (e : MqttHistoryEntry) (c : Client) → IsValid c → IsValid (handle_message e c)
unfolding handle_message
handle_message-IsValid e c v =
    let shown = push_each c.display_subs (display_state_event e.payload) c.queues in
    let display = push_each-IsHub c.display_subs c.next_queue c.queues v.display _ in
    let raw = push_each_to-IsHub c.history_subs c.next_queue c.queues v.raw c.display_subs _ in
    record {
      ring = record_entry-ring e c.history v.ring;
      display =
          push_each_to-IsHub c.display_subs c.next_queue shown display c.history_subs (raw_event e);
      raw = push_each-IsHub c.history_subs c.next_queue shown raw (raw_event e);
      apart = v.apart;
    }

-- After any run of messages from the broker, the history holds the newest 500 of what it held and of
-- them; every display-state subscriber has been pushed their payloads and every history subscriber the
-- messages themselves, in their order and once each; and no other queue has changed.
pub receive_all-Received :
    (es : List MqttHistoryEntry) (c : Client) → IsValid c → Received es c (receive_all es c)
unfolding receive_all push_all handle_message
receive_all-Received [] c v = record {
  history = rw append-nil (sym (keep_last_of_fits 500 c.history v.ring));
  display_told = λ q i. refl;
  raw_told = λ q i. refl;
  others_untold = λ q d h. refl;
  valid = v;
}
receive_all-Received (e ∷ es) c v =
    let later = receive_all-Received es (handle_message e c) (handle_message-IsValid e c v) in
    record {
      history =
          later.history
          ∙ ap (λ h. keep_last 500 (h ++ es)) (record_entry-keep_last e c.history v.ring)
          ∙ keep_last-append 500 (c.history ++ e ∷ []) es
          ∙ ap (λ h. keep_last 500 h) (append_assoc c.history (e ∷ []) es);
      display_told = λ q i.
          later.display_told q i
          ∙ ap (λ k. push_all k (map (λ e. display_state_event e.payload) es))
              (display_once e c v q i);
      raw_told =
          λ q i. later.raw_told q i ∙ ap (λ k. push_all k (map raw_event es)) (raw_once e c v q i);
      others_untold = λ q d h. later.others_untold q d h ∙ neither e c v q d h;
      valid = later.valid;
    }
