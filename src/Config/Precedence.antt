-- ===== src/Config/Precedence.antt =====
-- Load: the environment goes before the file, and the file before the defaults.
use split_flap_display_web.Prelude.{◌≡◌, refl, Option, none, some, List, Text, codes, text_eq}
use split_flap_display_web.Strings.{to_upper, atoi, parse_bool}
use split_flap_display_web.Config.{
  Config, or_keep, apply_key, apply_optional, apply_each, apply_env, file_config, load,
}

-- The value that a variable of the environment gives, if it is set and parses.
abbrev pub given {ℓ} : {A : Type ℓ} → (Text → Option A) → Option Text → A → A
given parse none kept = kept
given parse (some val) kept = or_keep (parse val) kept

abbrev pub as_text : Text → Option Text
as_text val = some val

-- Every field is what its variable gives, or else as it was.
pub record Overridden (env : Text → Option Text) (c c' : Config) : Type 0 where
  pub mqtt_broker_host :
      c'.mqtt_broker_host ≡ given as_text (env (codes "MQTT_BROKER_HOST")) c.mqtt_broker_host
  pub mqtt_broker_port :
      c'.mqtt_broker_port ≡ given atoi (env (codes "MQTT_BROKER_PORT")) c.mqtt_broker_port
  pub mqtt_client_id :
      c'.mqtt_client_id ≡ given as_text (env (codes "MQTT_CLIENT_ID")) c.mqtt_client_id
  pub publish_topic : c'.publish_topic ≡ given as_text (env (codes "PUBLISH_TOPIC")) c.publish_topic
  pub subscribe_topic :
      c'.subscribe_topic ≡ given as_text (env (codes "SUBSCRIBE_TOPIC")) c.subscribe_topic
  pub default_display_duration :
      c'.default_display_duration
      ≡ given atoi (env (codes "DEFAULT_DISPLAY_DURATION")) c.default_display_duration
  pub default_target_display_count :
      c'.default_target_display_count
      ≡ given atoi (env (codes "DEFAULT_TARGET_DISPLAY_COUNT")) c.default_target_display_count
  pub display_width : c'.display_width ≡ given atoi (env (codes "DISPLAY_WIDTH")) c.display_width
  pub idle_message : c'.idle_message ≡ given as_text (env (codes "IDLE_MESSAGE")) c.idle_message
  pub idle_mode : c'.idle_mode ≡ given as_text (env (codes "IDLE_MODE")) c.idle_mode
  pub idle_publish_interval :
      c'.idle_publish_interval
      ≡ given atoi (env (codes "IDLE_PUBLISH_INTERVAL")) c.idle_publish_interval
  pub scheduler_enabled :
      c'.scheduler_enabled ≡ given parse_bool (env (codes "SCHEDULER_ENABLED")) c.scheduler_enabled

pub mqtt_broker_host_set :
    (o : Option Text) (c : Config)
    → apply_optional (codes "MQTT_BROKER_HOST") o c
      ≡ record c { mqtt_broker_host = given as_text o c.mqtt_broker_host }
unfolding apply_optional apply_key to_upper text_eq
mqtt_broker_host_set none c = refl
mqtt_broker_host_set (some val) c = refl

pub mqtt_broker_port_set :
    (o : Option Text) (c : Config)
    → apply_optional (codes "MQTT_BROKER_PORT") o c
      ≡ record c { mqtt_broker_port = given atoi o c.mqtt_broker_port }
unfolding apply_optional apply_key to_upper text_eq
mqtt_broker_port_set none c = refl
mqtt_broker_port_set (some val) c = refl

pub mqtt_client_id_set :
    (o : Option Text) (c : Config)
    → apply_optional (codes "MQTT_CLIENT_ID") o c
      ≡ record c { mqtt_client_id = given as_text o c.mqtt_client_id }
unfolding apply_optional apply_key to_upper text_eq
mqtt_client_id_set none c = refl
mqtt_client_id_set (some val) c = refl

pub publish_topic_set :
    (o : Option Text) (c : Config)
    → apply_optional (codes "PUBLISH_TOPIC") o c
      ≡ record c { publish_topic = given as_text o c.publish_topic }
unfolding apply_optional apply_key to_upper text_eq
publish_topic_set none c = refl
publish_topic_set (some val) c = refl

pub subscribe_topic_set :
    (o : Option Text) (c : Config)
    → apply_optional (codes "SUBSCRIBE_TOPIC") o c
      ≡ record c { subscribe_topic = given as_text o c.subscribe_topic }
unfolding apply_optional apply_key to_upper text_eq
subscribe_topic_set none c = refl
subscribe_topic_set (some val) c = refl

pub default_display_duration_set :
    (o : Option Text) (c : Config)
    → apply_optional (codes "DEFAULT_DISPLAY_DURATION") o c
      ≡ record c { default_display_duration = given atoi o c.default_display_duration }
unfolding apply_optional apply_key to_upper text_eq
default_display_duration_set none c = refl
default_display_duration_set (some val) c = refl

pub default_target_display_count_set :
    (o : Option Text) (c : Config)
    → apply_optional (codes "DEFAULT_TARGET_DISPLAY_COUNT") o c
      ≡ record c { default_target_display_count = given atoi o c.default_target_display_count }
unfolding apply_optional apply_key to_upper text_eq
default_target_display_count_set none c = refl
default_target_display_count_set (some val) c = refl

pub display_width_set :
    (o : Option Text) (c : Config)
    → apply_optional (codes "DISPLAY_WIDTH") o c
      ≡ record c { display_width = given atoi o c.display_width }
unfolding apply_optional apply_key to_upper text_eq
display_width_set none c = refl
display_width_set (some val) c = refl

pub idle_message_set :
    (o : Option Text) (c : Config)
    → apply_optional (codes "IDLE_MESSAGE") o c
      ≡ record c { idle_message = given as_text o c.idle_message }
unfolding apply_optional apply_key to_upper text_eq
idle_message_set none c = refl
idle_message_set (some val) c = refl

pub idle_mode_set :
    (o : Option Text) (c : Config)
    → apply_optional (codes "IDLE_MODE") o c ≡ record c { idle_mode = given as_text o c.idle_mode }
unfolding apply_optional apply_key to_upper text_eq
idle_mode_set none c = refl
idle_mode_set (some val) c = refl

pub idle_publish_interval_set :
    (o : Option Text) (c : Config)
    → apply_optional (codes "IDLE_PUBLISH_INTERVAL") o c
      ≡ record c { idle_publish_interval = given atoi o c.idle_publish_interval }
unfolding apply_optional apply_key to_upper text_eq
idle_publish_interval_set none c = refl
idle_publish_interval_set (some val) c = refl

pub scheduler_enabled_set :
    (o : Option Text) (c : Config)
    → apply_optional (codes "SCHEDULER_ENABLED") o c
      ≡ record c { scheduler_enabled = given parse_bool o c.scheduler_enabled }
unfolding apply_optional apply_key to_upper text_eq
scheduler_enabled_set none c = refl
scheduler_enabled_set (some val) c = refl

-- Each field of the loaded configuration is the value of its environment variable, where that is set
-- and valid, and otherwise what the file (or the default) says.
pub load-Overridden :
    (file : Option (List Text)) (env : Text → Option Text)
    → Overridden env (file_config file) (load file env)
unfolding load apply_env apply_each
load-Overridden file env =
    rw
      (
        mqtt_broker_host_set, mqtt_broker_port_set, mqtt_client_id_set, publish_topic_set,
        subscribe_topic_set, default_display_duration_set, default_target_display_count_set,
        display_width_set, idle_message_set, idle_mode_set, idle_publish_interval_set,
        scheduler_enabled_set,
      )
      (record {
        mqtt_broker_host = refl;
        mqtt_broker_port = refl;
        mqtt_client_id = refl;
        publish_topic = refl;
        subscribe_topic = refl;
        default_display_duration = refl;
        default_target_display_count = refl;
        display_width = refl;
        idle_message = refl;
        idle_mode = refl;
        idle_publish_interval = refl;
        scheduler_enabled = refl;
      })
