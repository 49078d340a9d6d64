-- ===== src/Events.antt =====
-- The events that the backend pushes to its subscribers (queue.Event of
-- backend-go/internal/queue/queue.go, with the values that scheduler.go and client.go marshal into it).
--
-- The bytes of an event are `json.Marshal` of a value; the model keeps the value. Marshalling such
-- values cannot fail, and the source ignores its error.
use split_flap_display_web.Prelude.{Option, List, Text}
use split_flap_display_web.Models.{MessageDto, HistoryEntry, MqttHistoryEntry}

pub data Body : Type 0 where
  -- {"type": "current", "message": ...}
  current_body : Option MessageDto → Body
  -- {"type": "queue", "messages": ...}
  queue_body : List MessageDto → Body
  -- {"type": "history", "messages": ...}
  history_body : List HistoryEntry → Body
  -- {"type": "display-state", "message": {"message": ...}}
  display_state_body : Text → Body
  -- {"topic": ..., "payload": ...}
  raw_body : MqttHistoryEntry → Body

pub record Event : Type 0 where
  pub name : Text
  pub body : Body
