-- ===== src/Config.antt =====
-- backend-go/internal/config/config.go: the configuration, from defaults, a file and the environment.
--
-- The lines of the file are those that bufio.Scanner yields, `none` standing for a file that is missing
-- or cannot be opened; the environment is a function. Both are arguments. String and Log, which
-- print a configuration for diagnostics, are left out.
pub mod Precedence
use split_flap_display_web.Prelude.{
  ℕ, zero, suc, Bool, true, false, ◌||◌, Option, none, some, List, [], ◌∷◌, Text, codes, text_eq, ℤ,
  pos, if◌then◌else◌,
}
use split_flap_display_web.Strings.{to_upper, trim_space, has_prefix, cut, atoi, parse_bool}

pub record Config : Type 0 where
  pub mqtt_broker_host : Text
  pub mqtt_broker_port : ℤ
  pub mqtt_client_id : Text
  pub publish_topic : Text
  pub subscribe_topic : Text
  pub default_display_duration : ℤ
  pub default_target_display_count : ℤ
  pub display_width : ℤ
  pub idle_message : Text
  pub idle_mode : Text
  pub idle_publish_interval : ℤ
  pub scheduler_enabled : Bool

abbrev pub defaults : Config
defaults = record {
  mqtt_broker_host = codes "localhost";
  mqtt_broker_port = pos 1883;
  mqtt_client_id = codes "splitflap-web";
  publish_topic = codes "splitflap/splitflap/set";
  subscribe_topic = codes "splitflap/splitflap/state";
  default_display_duration = pos 10;
  default_target_display_count = pos 6;
  display_width = pos 12;
  idle_message = codes "WELCOME";
  idle_mode = codes "publish";
  idle_publish_interval = pos 10;
  scheduler_enabled = true;
}

-- A value that does not parse leaves the field as it is.
abbrev pub or_keep {ℓ} : {A : Type ℓ} → Option A → A → A
or_keep none kept = kept
or_keep (some a) kept = a

unfoldable pub apply_key : Text → Text → Config → Config
apply_key key val c =
    let k = to_upper key in
    if text_eq k (codes "MQTT_BROKER_HOST")
    then record c { mqtt_broker_host = val }
    else if text_eq k (codes "MQTT_BROKER_PORT")
    then record c { mqtt_broker_port = or_keep (atoi val) c.mqtt_broker_port }
    else if text_eq k (codes "MQTT_CLIENT_ID")
    then record c { mqtt_client_id = val }
    else if text_eq k (codes "PUBLISH_TOPIC")
    then record c { publish_topic = val }
    else if text_eq k (codes "SUBSCRIBE_TOPIC")
    then record c { subscribe_topic = val }
    else if text_eq k (codes "DEFAULT_DISPLAY_DURATION")
    then record c { default_display_duration = or_keep (atoi val) c.default_display_duration }
    else if text_eq k (codes "DEFAULT_TARGET_DISPLAY_COUNT")
    then record c {
      default_target_display_count = or_keep (atoi val) c.default_target_display_count;
    }
    else if text_eq k (codes "DISPLAY_WIDTH")
    then record c { display_width = or_keep (atoi val) c.display_width }
    else if text_eq k (codes "IDLE_MESSAGE")
    then record c { idle_message = val }
    else if text_eq k (codes "IDLE_MODE")
    then record c { idle_mode = val }
    else if text_eq k (codes "IDLE_PUBLISH_INTERVAL")
    then record c { idle_publish_interval = or_keep (atoi val) c.idle_publish_interval }
    else if text_eq k (codes "SCHEDULER_ENABLED")
    then record c { scheduler_enabled = or_keep (parse_bool val) c.scheduler_enabled }
    else c

apply_pair : Option (Text × Text) → Config → Config
apply_pair none c = c
apply_pair (some (key, val)) c = apply_key (trim_space key) (trim_space val) c

-- Blank lines, comments and lines without "=" are skipped.
unfoldable pub apply_line : Text → Config → Config
unfolding apply_pair
apply_line text c =
    let line = trim_space text in
    if text_eq line [] || has_prefix line (codes "#") then c else apply_pair (cut b'=' line) c

unfoldable pub load_file : List Text → Config → Config
load_file [] c = c
load_file (line ∷ rest) c = load_file rest (apply_line line c)

unfoldable pub apply_optional : Text → Option Text → Config → Config
apply_optional key none c = c
apply_optional key (some val) c = apply_key key val c

abbrev pub env_keys : List Text
env_keys =
    codes "MQTT_BROKER_HOST"
    ∷ codes "MQTT_BROKER_PORT"
    ∷ codes "MQTT_CLIENT_ID"
    ∷ codes "PUBLISH_TOPIC"
    ∷ codes "SUBSCRIBE_TOPIC"
    ∷ codes "DEFAULT_DISPLAY_DURATION"
    ∷ codes "DEFAULT_TARGET_DISPLAY_COUNT"
    ∷ codes "DISPLAY_WIDTH"
    ∷ codes "IDLE_MESSAGE"
    ∷ codes "IDLE_MODE"
    ∷ codes "IDLE_PUBLISH_INTERVAL"
    ∷ codes "SCHEDULER_ENABLED"
    ∷ []

unfoldable pub apply_each : (Text → Option Text) → List Text → Config → Config
apply_each env [] c = c
apply_each env (key ∷ keys) c = apply_each env keys (apply_optional key (env key) c)

unfoldable pub apply_env : (Text → Option Text) → Config → Config
apply_env env c = apply_each env env_keys c

abbrev pub file_config : Option (List Text) → Config
file_config none = defaults
file_config (some lines) = load_file lines defaults

unfoldable pub load : Option (List Text) → (Text → Option Text) → Config
load file env = apply_env env (file_config file)
