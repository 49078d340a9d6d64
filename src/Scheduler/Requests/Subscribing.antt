-- ===== src/Scheduler/Requests/Subscribing.antt =====
-- A subscription, whole and overtaken by an addition.
use split_flap_display_web.Prelude.{
  ℕ, ◌<◌, ◌≡◌, refl, none, List, ◌∷◌, Text, take, lookup, All, All-In, In, inl, arith,
}
use split_flap_display_web.Models.{new_history_entry, Zone}
use split_flap_display_web.Scheduler.{Scheduler}
use split_flap_display_web.Scheduler.Requests.{
  Input, Draft, ok, validate, add_message, draft_message, seed_queue, register_queue,
  subscribe_queue,
}
use split_flap_display_web.Scheduler.Requests.Adding.{add_message-Added}
use split_flap_display_web.Scheduler.Invariant.{IsValid, subscribe_queue-IsValid}

-- Seeding alone keeps the invariant: the new queue exists and is not yet registered.
seed_queue-IsValid : (z : Zone) (s : Scheduler) → IsValid s → IsValid (seed_queue z s).1
unfolding seed_queue subscribe_queue register_queue
seed_queue-IsValid z s v =
    let whole = subscribe_queue-IsValid z s v in
    record {
      holds = v.holds;
      hub = record {
        known = whole.hub.known.1;
        distinct = whole.hub.distinct.1;
        bounded = whole.hub.bounded;
      };
    }

not_registered : (l : List ℕ) (n : ℕ) → All (λ q. q < n) l → ¬ In n l
not_registered l n k i = absurd (below (All-In (λ q. q < n) l k i))
  where
    below : n < n → ⊥
    below h = omega arith

-- A message that is added between the two halves of SubscribeQueue is in the history afterwards, but
-- the new queue is as it was seeded before: its subscriber does not hear of the message.
pub seed_queue-missed :
    (z : Zone) (s : Scheduler) (id : Text) (now : ℕ) (i : Input) (d : Draft)
    → IsValid s
    → validate i (seed_queue z s).1 ≡ ok d
    → lookup id s.store.by_id ≡ none
    → let (q, seeded) = seed_queue z s in
      let after = register_queue q (add_message z id now i seeded).1 in
      (after.queues q ≡ seeded.queues q)
      × (after.hist ≡ take 50 (new_history_entry z (draft_message id now i d) ∷ s.hist))
      × In q after.subs
unfolding seed_queue register_queue
seed_queue-missed z s id now i d v accepted fresh =
    let seeded = seed_queue-IsValid z s v in
    let added = (add_message-Added z id now i (seed_queue z s).1 d seeded accepted fresh).1 in
    (
      added.others_untold s.next_queue (not_registered s.subs s.next_queue v.hub.known),
      added.history,
      inl refl,
    )
