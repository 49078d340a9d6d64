-- ===== src/Api/Views.antt =====
-- The handlers of backend-go/internal/api/server.go that only show fields, `handleConfig` and
-- `handleDisplayState`, and the test by which `requestLogger` writes a line.
use mathlib.Core.List.{List}
use split_flap_display_web.Prelude.{
  ℕ, ◌≡◌, refl, ap, Bool, ◌&&◌, ◌||◌, not, Option, some, [], ◌∷◌, ◌++◌, Text, codes, text_eq, leb,
  ltb, ℤ, arith,
}
use split_flap_display_web.Config.{Config}
use split_flap_display_web.Models.{MqttHistoryEntry}
use split_flap_display_web.Mqtt.{Client, get_latest_message, handle_message}
use split_flap_display_web.Mqtt.Reception.{receive_all}

pub record ConfigView : Type 0 where
  pub publish_topic : Text
  pub subscribe_topic : Text
  pub broker_host : Text
  pub connected : Bool
  pub default_display_duration : ℤ
  pub default_target_display_count : ℤ
  pub idle_message : Text
  pub idle_mode : Text
  pub scheduler_enabled : Bool

unfoldable pub handle_config : Config → Client → ConfigView
handle_config cfg client = record {
  publish_topic = cfg.publish_topic;
  subscribe_topic = cfg.subscribe_topic;
  broker_host = cfg.mqtt_broker_host;
  connected = client.connected;
  default_display_duration = cfg.default_display_duration;
  default_target_display_count = cfg.default_target_display_count;
  idle_message = cfg.idle_message;
  idle_mode = cfg.idle_mode;
  scheduler_enabled = cfg.scheduler_enabled;
}

-- `none` is JSON's null.
unfoldable pub handle_display_state : Client → Option Text
handle_display_state client = get_latest_message client

-- In nanoseconds.
abbrev pub slow_request_threshold : ℕ
slow_request_threshold = 500000000

-- Of a request's path, the status of its answer, and its latency.
unfoldable pub logs_request : Text → ℕ → ℕ → Bool
logs_request path status latency =
    let is_sse = text_eq path (codes "/api/scheduler/stream") in
    leb 400 status || (ltb slow_request_threshold latency && not is_sse)

receive_all-append :
    (es fs : List MqttHistoryEntry) (c : Client)
    → receive_all (es ++ fs) c ≡ receive_all fs (receive_all es c)
unfolding receive_all
receive_all-append [] fs c = refl
receive_all-append (e ∷ es) fs c = receive_all-append es fs (handle_message e c)

-- The display's state is the payload of the last message that was received.
pub handle_display_state-receive_all :
    (es : List MqttHistoryEntry) (e : MqttHistoryEntry) (c : Client)
    → handle_display_state (receive_all (es ++ e ∷ []) c) ≡ some e.payload
unfolding handle_display_state receive_all handle_message
handle_display_state-receive_all es e c = ap handle_display_state (receive_all-append es (e ∷ []) c)

-- A slow answer of the stream is not logged, unless it is an error.
pub logs_request-stream :
    (status latency : ℕ)
    → logs_request (codes "/api/scheduler/stream") status latency ≡ leb 400 status
unfolding logs_request text_eq
logs_request-stream status latency = ground arith
