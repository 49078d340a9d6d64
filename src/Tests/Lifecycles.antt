-- ===== src/Tests/Lifecycles.antt =====
-- Start and Stop of the scheduler and of the MQTT client at concrete inputs.
use split_flap_display_web.Prelude.{◌≡◌, refl, true, false, List, [], ◌∷◌, All}
use split_flap_display_web.Prelude.Steps.{Eventually, at_head, further}
use split_flap_display_web.Scheduler.Lifecycle.{
  Life, Worker, Works, IsQuiet, Reach, here, next, starts, stops, works, cancels, awaiting,
  not_started, spawned,
}
use split_flap_display_web.Scheduler.Lifecycle.Settling.{IsSettled, Reach-IsSettled}
use split_flap_display_web.Mqtt.Lifecycle
use split_flap_display_web.Mqtt.Lifecycle.Calm.{Moves}
use split_flap_display_web.Mqtt.Lifecycle.Serial.{IsExclusive, Reach-IsExclusive}
use split_flap_display_web.Mqtt.Lifecycle.Orphan.{stopped, Reach-orphan}

-- A Start that overtakes a Stop: two goroutines, the older of which has been told to end.
abbrev overtaken : Life
overtaken = record {
  running = true;
  root_done = false;
  workers = spawned ∷ record { ended = false; cancelled = true; stopper = awaiting } ∷ [];
}

overtaken-Reach : Reach not_started overtaken
overtaken-Reach =
    next (next (next (next here (starts refl)) (stops spawned [] refl refl)) (starts refl))
      (works (further (at_head (cancels refl))))

Reach-IsSettled_example :
    (All IsQuiet overtaken.workers → IsSettled true false overtaken.workers)
    × ((ws : List Worker) × Eventually (Works false) overtaken.workers ws × All IsQuiet ws)
Reach-IsSettled_example = Reach-IsSettled overtaken overtaken-Reach

-- A client that is stopped while it connects.
abbrev stopping : Lifecycle.Life
stopping = record {
  running = false;
  root_done = false;
  workers =
      record { place = Lifecycle.connecting; cancelled = true; stopper = Lifecycle.disconnecting }
      ∷ [];
}

abbrev trying : Lifecycle.Worker
trying = record Lifecycle.spawned { place = Lifecycle.connecting }

stopping-Reach : Lifecycle.Reach true Lifecycle.not_started stopping
stopping-Reach =
    Lifecycle.next
      (Lifecycle.next
        (Lifecycle.next (Lifecycle.next Lifecycle.here (Lifecycle.starts refl (λ k. tt)))
          (Lifecycle.works (at_head (Lifecycle.tries refl refl))))
        (Lifecycle.stops trying [] refl refl))
      (Lifecycle.works (at_head (Lifecycle.cancels refl)))

Reach-IsExclusive_example :
    IsExclusive false false stopping.workers
    × ((ws : List Lifecycle.Worker) × Eventually (Moves false) stopping.workers ws
        × All Lifecycle.IsQuiet ws)
Reach-IsExclusive_example = Reach-IsExclusive stopping stopping-Reach

abbrev online : Lifecycle.Worker
online = record Lifecycle.spawned { place = Lifecycle.connected }

abbrev connected_client : Lifecycle.Life
connected_client = record { running = true; root_done = false; workers = online ∷ [] }

Reach-orphan_example :
    (t : Lifecycle.Life) × Lifecycle.Reach false connected_client t
    × (t.running ≡ false)
    × All Lifecycle.IsQuiet t.workers
    × (t.workers ≡ Lifecycle.spawned ∷ stopped ∷ [])
Reach-orphan_example = Reach-orphan connected_client online [] refl refl refl refl tt
