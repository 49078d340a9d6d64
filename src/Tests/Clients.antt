-- ===== src/Tests/Clients.antt =====
-- The MQTT client's theorems at concrete inputs.
use split_flap_display_web.Prelude.{◌≡◌, List, [], ◌∷◌, ◌++◌, map, Text, codes, In, pos}
use split_flap_display_web.Models.{MqttHistoryEntry}
use split_flap_display_web.Queue.Laws.{keep_last}
use split_flap_display_web.Mqtt.{
  Client, Answer, failed, Call, connects, records, seeds_display_queue, seeds_history_queue,
  registers_display_queue, registers_history_queue, tells_display_subs, tells_history_subs,
  unsubscribes_display_state, new, raw_event, subscribe_queue, seed_history_queue,
  register_history_queue, record_message, tell_history_subs, handle_message, run_calls,
}
use split_flap_display_web.Mqtt.Reception.{IsValid, Received, receive_all, receive_all-Received}
use split_flap_display_web.Mqtt.Subscriptions.{new_client-IsValid, run_calls-IsValid}
use split_flap_display_web.Mqtt.Races.{subscribe_queue-races}
use split_flap_display_web.Queue.{push, push_all}
use split_flap_display_web.Queue
use split_flap_display_web.Tests.{no_queue}

abbrev shown : Text → MqttHistoryEntry
shown text = record { topic = codes "splitflap/state"; payload = text }

-- The second message comes between the halves of both subscriptions.
abbrev calls : List Call
calls =
    connects
    ∷ records (shown (codes "A"))
    ∷ seeds_display_queue
    ∷ seeds_history_queue
    ∷ records (shown (codes "B"))
    ∷ registers_history_queue 1
    ∷ tells_display_subs [] (shown (codes "B"))
    ∷ registers_display_queue 0
    ∷ tells_history_subs (1 ∷ []) (shown (codes "B"))
    ∷ unsubscribes_display_state 0
    ∷ []

abbrev idle : Client
idle = new (λ a. no_queue)

abbrev running : Client
running = run_calls calls idle

running-IsValid : IsValid running
running-IsValid = run_calls-IsValid calls idle (new_client-IsValid (λ a. no_queue))

abbrev later : List MqttHistoryEntry
later = shown (codes "C") ∷ shown (codes "D") ∷ []

receive_all-Received_example : Received later running (receive_all later running)
receive_all-Received_example = receive_all-Received later running running-IsValid

subscribe_queue-races_example :
    (let (q, seeded) = seed_history_queue running in
      let after = register_history_queue q (handle_message (shown (codes "C")) seeded) in
      (after.queues q ≡ push_all (Queue.new (pos 500)) (map raw_event running.history))
      × (after.history ≡ keep_last 500 (running.history ++ shown (codes "C") ∷ []))
      × In q after.history_subs)
    × (let (q, subscribed) = subscribe_queue (record_message (shown (codes "C")) running) in
        let after = tell_history_subs subscribed.history_subs (shown (codes "C")) subscribed in
        after.queues q
        ≡ push
            (push_all
              (Queue.new (pos 500))
              (map raw_event (keep_last 500 (running.history ++ shown (codes "C") ∷ []))))
            (raw_event (shown (codes "C"))))
subscribe_queue-races_example = subscribe_queue-races (shown (codes "C")) running running-IsValid

abbrev refusing : Text → Text → Answer
refusing topic payload = failed (codes "not authorised")
