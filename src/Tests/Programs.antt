-- ===== src/Tests/Programs.antt =====
-- The command at concrete inputs.
use split_flap_display_web.Prelude.{
  ◌≡◌, refl, true, false, Option, none, some, List, [], ◌∷◌, All, Text, codes, text_eq,
  if◌then◌else◌, pos,
}
use split_flap_display_web.Strings.{atoi, trim_space, to_upper, has_prefix, cut}
use split_flap_display_web.Config.{
  file_config, load, load_file, apply_line, apply_key, apply_env, apply_each, apply_optional,
}
use split_flap_display_web.Scheduler.Invariant.{IsValid}
use split_flap_display_web.Scheduler.Stock.{IsStocked}
use split_flap_display_web.Scheduler.Ticks.{quiet, run_loop}
use split_flap_display_web.Scheduler.Lifecycle as SchedulerLife
use split_flap_display_web.Scheduler.Lifecycle.Settling.{IsSettled}
use split_flap_display_web.Mqtt.Lifecycle as ClientLife
use split_flap_display_web.Mqtt.Lifecycle.Serial.{IsExclusive}
use split_flap_display_web.Server.{
  Program, boot, serving, finished, starts_client, starts_scheduler, Reach, here, next,
  make_scheduler, Files, find_config_path, config_candidates, first_that,
}
use split_flap_display_web.Server.Shutdown.{Finishes, main_finishes}
use split_flap_display_web.Server.Wiring.{Configured, run_loop-make_scheduler}
use split_flap_display_web.Scheduler
use split_flap_display_web.Scheduler.Requests.{Draft}
use split_flap_display_web.Tests.{utc, empty_heap, no_queue, hello_draft, eventful}
use split_flap_display_web.Tests.Streams.{no_streams}

abbrev up : Program
up =
    let b = boot true no_streams in
    record b {
      phase = serving;
      client = ClientLife.start b.client;
      scheduler = if true then SchedulerLife.start b.scheduler else b.scheduler;
    }

up-Reach : Reach (boot true no_streams) up
up-Reach = next (next here (starts_client refl)) (starts_scheduler refl)

main_finishes_example :
    (up.phase ≡ serving
      → IsSettled up.scheduler.running up.scheduler.root_done up.scheduler.workers
        × IsExclusive up.client.running up.client.root_done up.client.workers)
    × Finishes up
    × (up.phase ≡ finished
        → All (λ w. w.ended ≡ true) up.scheduler.workers
          × All (λ w. ClientLife.is_over w.place ≡ true) up.client.workers)
main_finishes_example = main_finishes true no_streams up up-Reach

abbrev file : Option (List Text)
file = some (codes "DEFAULT_DISPLAY_DURATION = 5" ∷ codes "IDLE_MODE=off" ∷ [])

abbrev vars : Text → Option Text
vars key = elim (text_eq key (codes "DEFAULT_TARGET_DISPLAY_COUNT")) [
  | true ↦ some (codes "4")
  | false ↦ none
]

run_loop-make_scheduler_example :
    let s = make_scheduler (load file vars) empty_heap (λ q. no_queue) in
    Configured vars (file_config file) s.settings
    × IsValid (run_loop utc (eventful ∷ quiet 500 ∷ []) s)
    × IsStocked (run_loop utc (eventful ∷ quiet 500 ∷ []) s)
unfolding load apply_env apply_each apply_optional load_file apply_line apply_key text_eq atoi
    trim_space to_upper has_prefix cut
run_loop-make_scheduler_example =
    run_loop-make_scheduler file vars empty_heap (λ q. no_queue) utc (eventful ∷ quiet 500 ∷ [])
      refl refl refl

-- The count is that of the environment, the duration that of the file.
abbrev draft : Draft
draft = record hello_draft { target_display_count = pos 4; display_duration = pos 5 }

-- Only the parent directory's file exists, and the current directory is not known.
abbrev disk : Files
disk = record {
  exe_dir = none;
  join = λ parts. [];
  absolute = λ p. none;
  exists = λ p. text_eq p (codes "../app.conf");
  is_dir = λ p. false;
}

parent_found : find_config_path disk ≡ codes "../app.conf"
unfolding find_config_path config_candidates first_that text_eq
parent_found = refl
