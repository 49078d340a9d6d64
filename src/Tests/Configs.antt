-- ===== src/Tests/Configs.antt =====
-- The configuration's theorem at a concrete input, and runs on small files.
use split_flap_display_web.Prelude.{
  ◌≡◌, refl, true, false, Option, none, some, List, [], ◌∷◌, Text, codes, text_eq, pos,
}
use split_flap_display_web.Strings.{atoi, trim_space, to_upper, has_prefix, cut}
use split_flap_display_web.Config.{file_config, load, load_file, apply_line, apply_key}
use split_flap_display_web.Config.Precedence.{Overridden, load-Overridden}

-- A comment, a line without "=", spaces, a lower-case key, a value that is no number.
abbrev lines : List Text
lines =
    codes "# display"
    ∷ codes "nonsense"
    ∷ codes "  display_width = 20 "
    ∷ codes "IDLE_MODE=keep=x"
    ∷ codes "MQTT_BROKER_PORT=none"
    ∷ []

abbrev env : Text → Option Text
env key = elim (text_eq key (codes "IDLE_MODE")) [ true ↦ some (codes "publish") | false ↦ none ]

load-Overridden_example : Overridden env (file_config (some lines)) (load (some lines) env)
load-Overridden_example = load-Overridden (some lines) env

width_read : (file_config (some lines)).display_width ≡ pos 20
unfolding load_file apply_line apply_key text_eq atoi trim_space to_upper has_prefix cut
width_read = refl

port_kept : (file_config (some lines)).mqtt_broker_port ≡ pos 1883
unfolding load_file apply_line apply_key text_eq atoi trim_space to_upper has_prefix cut
port_kept = refl

mode_read : (file_config (some lines)).idle_mode ≡ codes "keep=x"
unfolding load_file apply_line apply_key text_eq atoi trim_space to_upper has_prefix cut
mode_read = refl
