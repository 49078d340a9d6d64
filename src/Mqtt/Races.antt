-- ===== src/Mqtt/Races.antt =====
-- A message that comes in while a subscriber of the MQTT client is being set up: SubscribeQueue copies
-- the history under one lock and registers its queue under another.
use split_flap_display_web.Prelude.{◌≡◌, ap, ◌∙◌, inl, refl, [], ◌∷◌, ◌++◌, map, In, pos, arith}
use split_flap_display_web.Queue.{push, push_all}
use split_flap_display_web.Queue
use split_flap_display_web.Queue.Laws.{keep_last}
use split_flap_display_web.Models.{MqttHistoryEntry}
use split_flap_display_web.Subscribers.{push_each}
use split_flap_display_web.Subscribers.Hub.{next_unknown, not_In-All, push_each-delivers}
use split_flap_display_web.Mqtt.{
  Client, raw_event, record_entry, subscribe_queue, seed_history_queue, register_history_queue,
  record_message, tell_history_subs, handle_message, new_queue,
}
use split_flap_display_web.Mqtt.Reception.{IsValid, neither, record_entry-keep_last}
use split_flap_display_web.Mqtt.Subscriptions.{seed_history_queue-IsValid}

missed :
    (e : MqttHistoryEntry) (c : Client)
    → IsValid c
    → (handle_message e (seed_history_queue c).1).queues c.next_queue
      ≡ push_all (Queue.new (pos 500)) (map raw_event c.history)
unfolding seed_history_queue new_queue
missed e c v =
    neither e (seed_history_queue c).1 (seed_history_queue-IsValid c v) c.next_queue
      (next_unknown c.display_subs c.next_queue c.queues v.display)
      (next_unknown c.history_subs c.next_queue c.queues v.raw)
    ∙ ground arith

doubled :
    (e : MqttHistoryEntry) (c : Client)
    → IsValid c
    → (push_each
          (c.next_queue ∷ c.history_subs)
          (raw_event e)
          (subscribe_queue (record_message e c)).1.queues)
        c.next_queue
      ≡ push
          (push_all (Queue.new (pos 500)) (map raw_event (keep_last 500 (c.history ++ e ∷ []))))
          (raw_event e)
unfolding subscribe_queue seed_history_queue new_queue register_history_queue record_message
doubled e c v =
    let fresh =
      not_In-All c.next_queue c.history_subs
        (next_unknown c.history_subs c.next_queue c.queues v.raw) in
    (push_each-delivers (c.next_queue ∷ c.history_subs) (raw_event e)
        (subscribe_queue (record_message e c)).1.queues c.next_queue (fresh, v.raw.distinct)).0
      (inl refl)
    ∙ ap (λ k. push k (raw_event e)) (ground arith)
    ∙ ap (λ h. push (push_all (Queue.new (pos 500)) (map raw_event h)) (raw_event e))
        (record_entry-keep_last e c.history v.ring)

-- A message that is handled between the two halves of SubscribeQueue is in the history afterwards, but
-- the new queue is as it was seeded before, so that its subscriber does not hear of the message. And if
-- a whole SubscribeQueue comes after the message is recorded and before the history subscribers are
-- told, the new queue is seeded with the message and has it pushed once more.
pub subscribe_queue-races :
    (e : MqttHistoryEntry) (c : Client)
    → IsValid c
    → (let (q, seeded) = seed_history_queue c in
        let after = register_history_queue q (handle_message e seeded) in
        (after.queues q ≡ push_all (Queue.new (pos 500)) (map raw_event c.history))
        × (after.history ≡ keep_last 500 (c.history ++ e ∷ []))
        × In q after.history_subs)
      × (let (q, subscribed) = subscribe_queue (record_message e c) in
          let after = tell_history_subs subscribed.history_subs e subscribed in
          after.queues q
          ≡ push
              (push_all (Queue.new (pos 500)) (map raw_event (keep_last 500 (c.history ++ e ∷ []))))
              (raw_event e))
unfolding register_history_queue seed_history_queue handle_message record_entry subscribe_queue
subscribe_queue-races e c v =
    ((missed e c v, record_entry-keep_last e c.history v.ring, inl refl), doubled e c v)
