-- ===== src/Subscribers.antt =====
-- The loops over a set of subscribers, which `notify` and `AddMessage` of
-- backend-go/internal/scheduler/scheduler.go and `handleMessage` of
-- backend-go/internal/mqttclient/client.go have. A subscriber is a queue, shared by pointer: queues are
-- a function of their addresses.
pub mod Hub
use split_flap_display_web.Prelude.{ℕ, List, [], ◌∷◌, ◌==◌, if◌then◌else◌}
use split_flap_display_web.Queue.{Queue, push}
use split_flap_display_web.Events.{Event}

unfoldable pub push_at : ℕ → Event → (ℕ → Queue Event) → ℕ → Queue Event
push_at q e qs a = if a == q then push (qs a) e else qs a

unfoldable pub push_each : List ℕ → Event → (ℕ → Queue Event) → ℕ → Queue Event
push_each [] e qs = qs
push_each (q ∷ rest) e qs = push_each rest e (push_at q e qs)

-- Each subscriber gets the first event and then the second.
unfoldable pub push_both : List ℕ → Event → Event → (ℕ → Queue Event) → ℕ → Queue Event
push_both [] e f qs = qs
push_both (q ∷ rest) e f qs = push_both rest e f (push_at q f (push_at q e qs))
