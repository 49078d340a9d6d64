-- ===== src/Server/Wiring.antt =====
-- The scheduler that the command makes from its configuration.
use split_flap_display_web.Prelude.{ℕ, ◌≡◌, true, Option, List, Text, codes, is_positive, arith}
use split_flap_display_web.Strings.{atoi}
use split_flap_display_web.Queue.{Queue}
use split_flap_display_web.Events.{Event}
use split_flap_display_web.Models.{Zone}
use split_flap_display_web.Store.{Heap}
use split_flap_display_web.Config.{Config, file_config, load}
use split_flap_display_web.Config.Precedence.{given, as_text, load-Overridden}
use split_flap_display_web.Scheduler.{Settings, Scheduler}
use split_flap_display_web.Scheduler
use split_flap_display_web.Scheduler.Invariant.{IsValid, new-IsValid}
use split_flap_display_web.Scheduler.Loop.{run_loop-IsValid}
use split_flap_display_web.Scheduler.Stock.{IsStocked}
use split_flap_display_web.Scheduler.Stock.Kept.{run_loop-IsStocked}
use split_flap_display_web.Scheduler.Ticks.{Env, run_loop}
use split_flap_display_web.Server.{settings_of, make_scheduler}

make_scheduler-IsStocked :
    (cfg : Config) (heap : Heap) (queues : ℕ → Queue Event)
    → heap.next ≡ 0
    → is_positive cfg.default_target_display_count ≡ true
    → is_positive cfg.default_display_duration ≡ true
    → IsStocked (make_scheduler cfg heap queues)
unfolding make_scheduler settings_of Scheduler.new
make_scheduler-IsStocked cfg heap queues e t d = record {
  sound = λ r lt. absurd (omega (arith, e));
  target = t;
  duration = d;
}

-- The scheduler's settings are those of the environment, where it gives one that parses, and else those
-- of the configuration `c` of the file.
pub record Configured (env : Text → Option Text) (c : Config) (s : Settings) : Type 0 where
  pub publish_topic : s.publish_topic ≡ given as_text (env (codes "PUBLISH_TOPIC")) c.publish_topic
  pub default_display_dur :
      s.default_display_dur
      ≡ given atoi (env (codes "DEFAULT_DISPLAY_DURATION")) c.default_display_duration
  pub default_target_count :
      s.default_target_count
      ≡ given atoi (env (codes "DEFAULT_TARGET_DISPLAY_COUNT")) c.default_target_display_count
  pub display_width : s.display_width ≡ given atoi (env (codes "DISPLAY_WIDTH")) c.display_width
  pub idle_message : s.idle_message ≡ given as_text (env (codes "IDLE_MESSAGE")) c.idle_message
  pub idle_mode : s.idle_mode ≡ given as_text (env (codes "IDLE_MODE")) c.idle_mode
  pub idle_interval :
      s.idle_interval ≡ given atoi (env (codes "IDLE_PUBLISH_INTERVAL")) c.idle_publish_interval

make_scheduler-Configured :
    (file : Option (List Text)) (vars : Text → Option Text) (heap : Heap) (queues : ℕ → Queue Event)
    → Configured vars (file_config file) (make_scheduler (load file vars) heap queues).settings
unfolding make_scheduler settings_of Scheduler.new
make_scheduler-Configured file vars heap queues =
    let fields = load-Overridden file vars in
    record {
      publish_topic = fields.publish_topic;
      default_display_dur = fields.default_display_duration;
      default_target_count = fields.default_target_display_count;
      display_width = fields.display_width;
      idle_message = fields.idle_message;
      idle_mode = fields.idle_mode;
      idle_interval = fields.idle_publish_interval;
    }

-- Whatever the configuration file and the environment say, the settings of the scheduler that the command
-- makes are each what its variable of the environment gives, or else what the file or the default says.
-- And if the display duration and the target count that they lead to are positive, that scheduler, when
-- it runs, keeps its bounds and has sound messages only, whatever requests come in and however its
-- publishes end.
pub run_loop-make_scheduler :
    (file : Option (List Text)) (vars : Text → Option Text)
    → (heap : Heap) (queues : ℕ → Queue Event) → (z : Zone) (envs : List Env) → heap.next ≡ 0
    → is_positive (load file vars).default_target_display_count ≡ true
    → is_positive (load file vars).default_display_duration ≡ true
    → Configured vars (file_config file) (make_scheduler (load file vars) heap queues).settings
      × IsValid (run_loop z envs (make_scheduler (load file vars) heap queues))
      × IsStocked (run_loop z envs (make_scheduler (load file vars) heap queues))
run_loop-make_scheduler file vars heap queues z envs e t d = (
  make_scheduler-Configured file vars heap queues,
  run_loop-IsValid z envs _
      (unfold make_scheduler in new-IsValid (settings_of (load file vars)) heap queues),
  run_loop-IsStocked z envs _ (make_scheduler-IsStocked (load file vars) heap queues e t d),
)
