-- ===== src/Mqtt/Publishing.antt =====
-- Publish: when it succeeds.
use split_flap_display_web.Prelude.{◌≡◌, ◌↔◌, true, none, Text, arith}
use split_flap_display_web.Mqtt.{Client, Answer, sent, failed, timed_out, answered, publish}

answered-none : (a : Answer) → (answered a ≡ none) ↔ (a ≡ sent)
unfolding answered
answered-none sent = (λ h. cc, λ h. cc)
answered-none (failed e) = (λ h. cc, λ h. cc)
answered-none timed_out = (λ h. cc, λ h. cc)

-- Publish returns no error exactly if the client was started, is connected, and the broker completed
-- the publish of this topic and payload within the time allowed and without an error.
publish_iff :
    (broker : Text → Text → Answer) (topic payload : Text) (c : Client)
    → (publish broker topic payload c ≡ none)
      ↔ ((c.has_client ≡ true) × (c.connected ≡ true) × (broker topic payload ≡ sent))
unfolding publish
publish_iff broker topic payload c = (
  λ h. ground (arith, answered-none (broker topic payload)),
  λ h. ground (arith, answered-none (broker topic payload)),
)
