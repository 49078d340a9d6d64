-- ===== src/Server.antt =====
-- backend-go/cmd/server/main.go: the command that puts the parts together.
--
-- The file system and the path functions of Go's library are outside the repository: `Files` has what
-- the command asks of them. The signal, the listener and the deferred cancellation of the root context,
-- after which the process ends, are left out.
pub mod Paths
pub mod Orderly
pub mod Shutdown
pub mod Wiring
use split_flap_display_web.Prelude.{
  ℕ, ◌≡◌, Bool, true, false, ◌&&◌, Option, none, some, List, [], ◌∷◌, ◌++◌, Text, codes, All,
  if◌then◌else◌,
}
use split_flap_display_web.Prelude.Steps.{Somewhere}
use split_flap_display_web.Queue.{Queue}
use split_flap_display_web.Events.{Event}
use split_flap_display_web.Store.{Heap}
use split_flap_display_web.Config.{Config}
use split_flap_display_web.Scheduler.{Scheduler, Settings}
use split_flap_display_web.Scheduler
use split_flap_display_web.Scheduler.Lifecycle as SchedulerLife
use split_flap_display_web.Mqtt.Lifecycle as ClientLife
use split_flap_display_web.Api.Stream.Registry.{Registry, register_sse, unregister_sse, shutdown}

pub record Files : Type 0 where
  -- The directory of the executable, if os.Executable knows it.
  pub exe_dir : Option Text
  -- filepath.Join
  pub join : List Text → Text
  -- filepath.Abs
  pub absolute : Text → Option Text
  -- Whether os.Stat succeeds, and whether it finds a directory.
  pub exists : Text → Bool
  pub is_dir : Text → Bool

-- The first candidate that passes the test.
unfoldable pub first_that : (Text → Bool) → List Text → Option Text
first_that p [] = none
first_that p (c ∷ cs) = if p c then some c else first_that p cs

config_beside : (List Text → Text) → Option Text → List Text
config_beside join none = []
config_beside join (some dir) =
    join (dir ∷ codes "app.conf" ∷ [])
    ∷ join (dir ∷ codes "backend-go" ∷ codes "app.conf" ∷ [])
    ∷ join (dir ∷ codes ".." ∷ codes "app.conf" ∷ [])
    ∷ join (dir ∷ codes ".." ∷ codes "backend-go" ∷ codes "app.conf" ∷ [])
    ∷ []

unfoldable pub config_candidates : Files → List Text
unfolding config_beside
config_candidates f =
    codes "app.conf"
    ∷ codes "backend-go/app.conf"
    ∷ (config_beside f.join f.exe_dir ++ codes "../backend-go/app.conf" ∷ codes "../app.conf" ∷ [])

abbrev pub or_else : Option Text → Text → Text
or_else none t = t
or_else (some p) t = p

found_config : Files → Option Text → Text
found_config f (some c) = or_else (f.absolute c) c
found_config f none = or_else (f.absolute (codes "app.conf")) (codes "backend-go/app.conf")

unfoldable pub find_config_path : Files → Text
unfolding found_config
find_config_path f = found_config f (first_that f.exists (config_candidates f))

static_beside : (List Text → Text) → Option Text → List Text
static_beside join none = []
static_beside join (some dir) =
    join (dir ∷ codes "frontend" ∷ codes "static" ∷ [])
    ∷ join (dir ∷ codes ".." ∷ codes "frontend" ∷ codes "static" ∷ [])
    ∷ join (dir ∷ codes ".." ∷ codes ".." ∷ codes "frontend" ∷ codes "static" ∷ [])
    ∷ join (dir ∷ codes "backend-go" ∷ codes "frontend" ∷ codes "static" ∷ [])
    ∷ []

unfoldable pub static_candidates : Files → List Text
unfolding static_beside
static_candidates f =
    codes "frontend/static" ∷ codes "../frontend/static" ∷ static_beside f.join f.exe_dir

unfoldable pub find_static_dir : Files → Text
find_static_dir f =
    or_else (first_that (λ c. f.exists c && f.is_dir c) (static_candidates f))
      (codes "frontend/static")

-- What the scheduler is made with.
unfoldable pub settings_of : Config → Settings
settings_of cfg = record {
  publish_topic = cfg.publish_topic;
  default_display_dur = cfg.default_display_duration;
  default_target_count = cfg.default_target_display_count;
  display_width = cfg.display_width;
  idle_message = cfg.idle_message;
  idle_mode = cfg.idle_mode;
  idle_interval = cfg.idle_publish_interval;
}

unfoldable pub make_scheduler : Config → Heap → (ℕ → Queue Event) → Scheduler
make_scheduler cfg heap queues = Scheduler.new (settings_of cfg) heap queues

-- Where `main` stands: before `mq.Start`, before the scheduler's, waiting for the signal, in
-- `sched.Stop`, before `mq.Stop`, in it, before `server.Shutdown`, and past it.
pub data Phase : Type 0 where
  booting client_up serving scheduler_stopping scheduler_stopped client_stopping client_stopped :
      Phase
  finished : Phase

pub record Program : Type 0 where
  -- `cfg.SchedulerEnabled`
  pub enabled : Bool
  pub phase : Phase
  pub scheduler : SchedulerLife.Life
  pub client : ClientLife.Life
  pub streams : Registry

abbrev pub boot : Bool → Registry → Program
boot enabled streams = record {
  enabled = enabled;
  phase = booting;
  scheduler = SchedulerLife.not_started;
  client = ClientLife.not_started;
  streams = streams;
}

-- A step of `main`, or of what runs beside it: the goroutines, and handlers that register streams.
pub data Step (s : Program) : Program → Type 0 where
  starts_client :
      s.phase ≡ booting
      → Step s (record s { phase = client_up; client = ClientLife.start s.client })
  starts_scheduler :
      s.phase ≡ client_up
      → Step s (record s {
        phase = serving;
        scheduler = if s.enabled then SchedulerLife.start s.scheduler else s.scheduler;
      })
  -- The signal has come.
  stops_scheduler :
      s.phase ≡ serving
      → s.enabled ≡ true
      → Step s (record s {
        phase = scheduler_stopping;
        scheduler = SchedulerLife.begin_stop s.scheduler;
      })
  skips_scheduler :
      s.phase ≡ serving → s.enabled ≡ false → Step s (record s { phase = scheduler_stopped })
  scheduler_stop_returns :
      s.phase ≡ scheduler_stopping
      → All SchedulerLife.IsQuiet s.scheduler.workers
      → Step s (record s { phase = scheduler_stopped })
  stops_client :
      s.phase ≡ scheduler_stopped
      → Step s (record s { phase = client_stopping; client = ClientLife.begin_stop s.client })
  client_stop_returns :
      s.phase ≡ client_stopping
      → All ClientLife.IsQuiet s.client.workers
      → Step s (record s { phase = client_stopped })
  shuts_down :
      s.phase ≡ client_stopped
      → Step s (record s { phase = finished; streams = shutdown s.streams })
  scheduler_works :
      {ws : List SchedulerLife.Worker}
      → Somewhere (SchedulerLife.Works s.scheduler.root_done) s.scheduler.workers ws
      → Step s (record s { scheduler = record s.scheduler { workers = ws } })
  client_works :
      {ws : List ClientLife.Worker}
      → Somewhere (ClientLife.Works s.client.root_done) s.client.workers ws
      → Step s (record s { client = record s.client { workers = ws } })
  client_clears :
      {ws : List ClientLife.Worker}
      → Somewhere ClientLife.Clears s.client.workers ws
      → Step s (record s { client = record s.client { running = false; workers = ws } })
  registers : (d : ℕ) → Step s (record s { streams = register_sse d s.streams })
  unregisters : (d : ℕ) → Step s (record s { streams = unregister_sse d s.streams })

pub data Reach (s : Program) : Program → Type 0 where
  here : Reach s s
  next : {t u : Program} → Reach s t → Step t u → Reach s u
