-- ===== src/Server/Orderly.antt =====
-- Where the parts stand in each phase of the command.
use split_flap_display_web.Prelude.{◌≡◌, ◌≢◌, refl, Bool, true, false, All, if_intro}
use split_flap_display_web.Prelude.Steps.{Somewhere-All}
use split_flap_display_web.Scheduler.Lifecycle as SchedulerLife
use split_flap_display_web.Scheduler.Lifecycle.Calls as SchedulerCalls
use split_flap_display_web.Mqtt.Lifecycle as ClientLife
use split_flap_display_web.Mqtt.Lifecycle.Calls as ClientCalls
use split_flap_display_web.Api.Stream.Registry.{Registry}
use split_flap_display_web.Server.{
  Phase, client_up, serving, scheduler_stopping, scheduler_stopped, client_stopping, Program, boot,
  Step, starts_client, starts_scheduler, stops_scheduler, skips_scheduler, scheduler_stop_returns,
  stops_client, client_stop_returns, shuts_down, scheduler_works, client_works, client_clears,
  registers, unregisters, Reach, here, next,
}

-- The phases in which the scheduler's flag may be set, and the client's.
abbrev pub scheduler_up : Phase → Bool
scheduler_up serving = true
scheduler_up _ = false

abbrev pub client_running : Phase → Bool
client_running client_up = true
client_running serving = true
client_running scheduler_stopping = true
client_running scheduler_stopped = true
client_running _ = false

pub record IsOrderly (s : Program) : Type 0 where
  pub scheduler_reach : SchedulerLife.Reach SchedulerLife.not_started s.scheduler
  pub client_reach : ClientLife.Reach true ClientLife.not_started s.client
  pub scheduler_quiet : s.phase ≢ scheduler_stopping → All SchedulerLife.IsQuiet s.scheduler.workers
  pub client_quiet : s.phase ≢ client_stopping → All ClientLife.IsQuiet s.client.workers
  pub scheduler_off : scheduler_up s.phase ≡ false → s.scheduler.running ≡ false
  pub client_off : client_running s.phase ≡ false → s.client.running ≡ false
  pub disabled : s.enabled ≡ false → s.scheduler.running ≡ false

boot-IsOrderly : (enabled : Bool) (streams : Registry) → IsOrderly (boot enabled streams)
boot-IsOrderly enabled streams = record {
  scheduler_reach = SchedulerLife.here;
  client_reach = ClientLife.here;
  scheduler_quiet = λ n. tt;
  client_quiet = λ n. tt;
  scheduler_off = λ e. refl;
  client_off = λ e. refl;
  disabled = λ e. refl;
}

pub Step-IsOrderly : {s t : Program} → Step s t → IsOrderly s → IsOrderly t
Step-IsOrderly {s} (starts_client e) h = record {
  scheduler_reach = h.scheduler_reach;
  client_reach = ClientCalls.start-Reach s.client (h.client_quiet (λ k. cc)) h.client_reach;
  scheduler_quiet = λ n. h.scheduler_quiet (λ k. cc);
  client_quiet = λ n. ClientCalls.start-IsQuiet s.client (h.client_quiet (λ k. cc));
  scheduler_off = λ k. h.scheduler_off (rw e refl);
  client_off = λ k. cc;
  disabled = h.disabled;
}
Step-IsOrderly {s} (starts_scheduler e) h = record {
  scheduler_reach =
      if_intro (SchedulerLife.Reach SchedulerLife.not_started) s.enabled _ _
        (λ k. SchedulerCalls.start-Reach s.scheduler h.scheduler_reach) (λ k. h.scheduler_reach);
  client_reach = h.client_reach;
  scheduler_quiet = λ n.
      if_intro (λ (l : SchedulerLife.Life). All SchedulerLife.IsQuiet l.workers) s.enabled _ _
        (λ k. SchedulerCalls.start-IsQuiet s.scheduler (h.scheduler_quiet (λ j. cc)))
        (λ k. h.scheduler_quiet (λ j. cc));
  client_quiet = λ n. h.client_quiet (λ k. cc);
  scheduler_off = λ k. cc;
  client_off = λ k. cc;
  disabled = λ k. rw k (h.disabled k);
}
Step-IsOrderly {s} (stops_scheduler e on) h = record {
  scheduler_reach = SchedulerCalls.begin_stop-Reach s.scheduler h.scheduler_reach;
  client_reach = h.client_reach;
  scheduler_quiet = λ n. absurd (n refl);
  client_quiet = λ n. h.client_quiet (λ k. cc);
  scheduler_off = λ k. SchedulerCalls.running-begin_stop s.scheduler;
  client_off = λ k. cc;
  disabled = λ k. SchedulerCalls.running-begin_stop s.scheduler;
}
Step-IsOrderly {s} (skips_scheduler e out) h = record {
  scheduler_reach = h.scheduler_reach;
  client_reach = h.client_reach;
  scheduler_quiet = λ n. h.scheduler_quiet (λ k. cc);
  client_quiet = λ n. h.client_quiet (λ k. cc);
  scheduler_off = λ k. h.disabled out;
  client_off = λ k. cc;
  disabled = h.disabled;
}
Step-IsOrderly {s} (scheduler_stop_returns e q) h = record {
  scheduler_reach = h.scheduler_reach;
  client_reach = h.client_reach;
  scheduler_quiet = λ n. q;
  client_quiet = λ n. h.client_quiet (λ k. cc);
  scheduler_off = λ k. h.scheduler_off (rw e refl);
  client_off = λ k. cc;
  disabled = h.disabled;
}
Step-IsOrderly {s} (stops_client e) h = record {
  scheduler_reach = h.scheduler_reach;
  client_reach = ClientCalls.begin_stop-Reach s.client h.client_reach;
  scheduler_quiet = λ n. h.scheduler_quiet (λ k. cc);
  client_quiet = λ n. absurd (n refl);
  scheduler_off = λ k. h.scheduler_off (rw e refl);
  client_off = λ k. ClientCalls.running-begin_stop s.client;
  disabled = h.disabled;
}
Step-IsOrderly {s} (client_stop_returns e q) h = record {
  scheduler_reach = h.scheduler_reach;
  client_reach = h.client_reach;
  scheduler_quiet = λ n. h.scheduler_quiet (λ k. cc);
  client_quiet = λ n. q;
  scheduler_off = λ k. h.scheduler_off (rw e refl);
  client_off = λ k. h.client_off (rw e refl);
  disabled = h.disabled;
}
Step-IsOrderly {s} (shuts_down e) h = record {
  scheduler_reach = h.scheduler_reach;
  client_reach = h.client_reach;
  scheduler_quiet = λ n. h.scheduler_quiet (λ k. cc);
  client_quiet = λ n. h.client_quiet (λ k. cc);
  scheduler_off = λ k. h.scheduler_off (rw e refl);
  client_off = λ k. h.client_off (rw e refl);
  disabled = h.disabled;
}
Step-IsOrderly {s} (scheduler_works {ws} m) h = record {
  scheduler_reach = SchedulerLife.next h.scheduler_reach (SchedulerLife.works m);
  client_reach = h.client_reach;
  scheduler_quiet = λ n. Somewhere-All _ SchedulerCalls.Works-IsQuiet m (h.scheduler_quiet n);
  client_quiet = h.client_quiet;
  scheduler_off = h.scheduler_off;
  client_off = h.client_off;
  disabled = h.disabled;
}
Step-IsOrderly {s} (client_works {ws} m) h = record {
  scheduler_reach = h.scheduler_reach;
  client_reach = ClientLife.next h.client_reach (ClientLife.works m);
  scheduler_quiet = h.scheduler_quiet;
  client_quiet = λ n. Somewhere-All _ ClientCalls.Works-IsQuiet m (h.client_quiet n);
  scheduler_off = h.scheduler_off;
  client_off = h.client_off;
  disabled = h.disabled;
}
Step-IsOrderly {s} (client_clears {ws} m) h = record {
  scheduler_reach = h.scheduler_reach;
  client_reach = ClientLife.next h.client_reach (ClientLife.gets_cleared m);
  scheduler_quiet = h.scheduler_quiet;
  client_quiet = λ n. Somewhere-All _ ClientCalls.Clears-IsQuiet m (h.client_quiet n);
  scheduler_off = h.scheduler_off;
  client_off = λ k. refl;
  disabled = h.disabled;
}
Step-IsOrderly {s} (registers d) h = record {
  scheduler_reach = h.scheduler_reach;
  client_reach = h.client_reach;
  scheduler_quiet = h.scheduler_quiet;
  client_quiet = h.client_quiet;
  scheduler_off = h.scheduler_off;
  client_off = h.client_off;
  disabled = h.disabled;
}
Step-IsOrderly {s} (unregisters d) h = record {
  scheduler_reach = h.scheduler_reach;
  client_reach = h.client_reach;
  scheduler_quiet = h.scheduler_quiet;
  client_quiet = h.client_quiet;
  scheduler_off = h.scheduler_off;
  client_off = h.client_off;
  disabled = h.disabled;
}

pub Reach-IsOrderly :
    (enabled : Bool) (streams : Registry) (s : Program)
    → Reach (boot enabled streams) s
    → IsOrderly s
Reach-IsOrderly enabled streams s here = boot-IsOrderly enabled streams
Reach-IsOrderly enabled streams s (next {t} r st) =
    Step-IsOrderly st (Reach-IsOrderly enabled streams t r)
