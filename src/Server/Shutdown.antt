-- ===== src/Server/Shutdown.antt =====
-- From the start of the command to its end.
use split_flap_display_web.Prelude.{
  ◌≡◌, ◌⊎◌, refl, sym, ap, subst, Bool, true, false, List, [], ◌∷◌, All, Bool-cases, inl, inr,
}
use split_flap_display_web.Prelude.Steps.{Somewhere, Eventually, stays, moves, at_head, further}
use split_flap_display_web.Scheduler.Lifecycle as SchedulerLife
use split_flap_display_web.Scheduler.Lifecycle.Settling.{IsSettled, Reach-IsSettled}
use split_flap_display_web.Mqtt.Lifecycle as ClientLife
use split_flap_display_web.Mqtt.Lifecycle.Serial.{IsExclusive, Reach-IsExclusive}
use split_flap_display_web.Mqtt.Lifecycle.Calm.{Moves, by_work, by_clearing}
use split_flap_display_web.Api.Stream.Registry.{Registry}
use split_flap_display_web.Server.{
  Phase, booting, client_up, serving, scheduler_stopping, scheduler_stopped, client_stopping,
  client_stopped, finished, Program, boot, Step, starts_client, starts_scheduler, stops_scheduler,
  skips_scheduler, scheduler_stop_returns, stops_client, client_stop_returns, shuts_down,
  scheduler_works, client_works, client_clears, Reach, here, next,
}
use split_flap_display_web.Server.Orderly.{IsOrderly, Step-IsOrderly, Reach-IsOrderly}

Reach-trans : {s t u : Program} → Reach s t → Reach t u → Reach s u
Reach-trans r here = r
Reach-trans r (next q st) = next (Reach-trans r q) st

Reach-keeps : {s t : Program} → Reach s t → IsOrderly s → IsOrderly t
Reach-keeps here h = h
Reach-keeps (next r st) h = Step-IsOrderly st (Reach-keeps r h)

-- The steps of the goroutines and of the Stops are steps of the program.
Eventually-scheduler :
    (s : Program) (d : Bool) (ws vs : List SchedulerLife.Worker)
    → Eventually (SchedulerLife.Works d) ws vs
    → d ≡ s.scheduler.root_done
    → Reach
        (record s { scheduler = record s.scheduler { workers = ws } })
        (record s { scheduler = record s.scheduler { workers = vs } })
Eventually-scheduler s d ws vs stays e = here
Eventually-scheduler s d ws vs (moves {ys} m r) e =
    Reach-trans (next here (scheduler_works (rw e at m))) (Eventually-scheduler s d ys vs r e)

-- Beside a client whose flag is clear, clearing it changes nothing.
abbrev stopped : Program → List ClientLife.Worker → Program
stopped s ws = record s { client = record s.client { running = false; workers = ws } }

Moves-split :
    {d : Bool} {ws vs : List ClientLife.Worker}
    → Somewhere (Moves d) ws vs
    → Somewhere (ClientLife.Works d) ws vs ⊎ Somewhere ClientLife.Clears ws vs
Moves-split (at_head (by_work m)) = inl (at_head m)
Moves-split (at_head (by_clearing m)) = inr (at_head m)
Moves-split (further m) = elim (Moves-split m) [ inl k ↦ inl (further k) | inr k ↦ inr (further k) ]

client_move :
    (s : Program) (ws vs : List ClientLife.Worker)
    → Somewhere (Moves s.client.root_done) ws vs
    → Step (stopped s ws) (stopped s vs)
client_move s ws vs m = elim (Moves-split m) [ inl k ↦ client_works k | inr k ↦ client_clears k ]

Eventually-client :
    (s : Program) (d : Bool) (ws vs : List ClientLife.Worker)
    → Eventually (Moves d) ws vs
    → d ≡ s.client.root_done
    → Reach (stopped s ws) (stopped s vs)
Eventually-client s d ws vs stays e = here
Eventually-client s d ws vs (moves {ys} m r) e =
    Reach-trans (next here (client_move s ws ys (rw e at m))) (Eventually-client s d ys vs r e)

-- `main` gets to its end.
abbrev pub Finishes : Program → Type 0
Finishes s = (t : Program) × Reach s t × (t.phase ≡ finished)

after : {s t : Program} → Reach s t → Finishes t → Finishes s
after r (u, q, e) = (u, Reach-trans r q, e)

from_client_stopped : (s : Program) → s.phase ≡ client_stopped → Finishes s
from_client_stopped s e = (_, next here (shuts_down e), refl)

from_client_stopping : (s : Program) → s.phase ≡ client_stopping → IsOrderly s → Finishes s
from_client_stopping s e h =
    let (ws, r, q) = (Reach-IsExclusive s.client h.client_reach).1 in
    let same : stopped s s.client.workers ≡ s =
      ap (λ b. record s { client = record s.client { running = b } })
        (sym (h.client_off (rw e refl))) in
    let calmed = Eventually-client s s.client.root_done s.client.workers ws r refl in
    let quiet = subst (λ x. Reach x (stopped s ws)) same calmed in
    after (next quiet (client_stop_returns e q)) (from_client_stopped _ refl)

from_scheduler_stopped : (s : Program) → s.phase ≡ scheduler_stopped → IsOrderly s → Finishes s
from_scheduler_stopped s e h =
    let st = next here (stops_client e) in after st (from_client_stopping _ refl (Reach-keeps st h))

from_scheduler_stopping : (s : Program) → s.phase ≡ scheduler_stopping → IsOrderly s → Finishes s
from_scheduler_stopping s e h =
    let (ws, r, q) = (Reach-IsSettled s.scheduler h.scheduler_reach).1 in
    let calmed = Eventually-scheduler s s.scheduler.root_done s.scheduler.workers ws r refl in
    let st = next calmed (scheduler_stop_returns e q) in
    after st (from_scheduler_stopped _ refl (Reach-keeps st h))

from_serving : (s : Program) → s.phase ≡ serving → IsOrderly s → Finishes s
from_serving s e h = elim (Bool-cases s.enabled) [
  | inl on ↦
      let st = next here (stops_scheduler e on) in
      after st (from_scheduler_stopping _ refl (Reach-keeps st h))
  | inr out ↦
      let st = next here (skips_scheduler e out) in
      after st (from_scheduler_stopped _ refl (Reach-keeps st h))
]

from_client_up : (s : Program) → s.phase ≡ client_up → IsOrderly s → Finishes s
from_client_up s e h =
    let st = next here (starts_scheduler e) in after st (from_serving _ refl (Reach-keeps st h))

from_booting : (s : Program) → s.phase ≡ booting → IsOrderly s → Finishes s
from_booting s e h =
    let st = next here (starts_client e) in after st (from_client_up _ refl (Reach-keeps st h))

finishes_from : (s : Program) (p : Phase) → s.phase ≡ p → IsOrderly s → Finishes s
finishes_from s booting e h = from_booting s e h
finishes_from s client_up e h = from_client_up s e h
finishes_from s serving e h = from_serving s e h
finishes_from s scheduler_stopping e h = from_scheduler_stopping s e h
finishes_from s scheduler_stopped e h = from_scheduler_stopped s e h
finishes_from s client_stopping e h = from_client_stopping s e h
finishes_from s client_stopped e h = from_client_stopped s e
finishes_from s finished e h = (s, here, e)

-- What Stop has waited for.
over_at_last :
    (running d : Bool) (ws : List SchedulerLife.Worker)
    → running ≡ false
    → IsSettled running d ws
    → All (λ w. w.ended ≡ true) ws
over_at_last running d [] e h = tt
over_at_last running d (w ∷ ws) e h = (h.1 e, h.0)

gone_at_last :
    (running d : Bool) (ws : List ClientLife.Worker)
    → running ≡ false
    → All ClientLife.IsQuiet ws
    → IsExclusive running d ws
    → All (λ w. ClientLife.is_over w.place ≡ true) ws
gone_at_last running d [] e q h = tt
gone_at_last running d (w ∷ ws) e q h = (h.1 q.0 e, h.0)

-- Whether the scheduler is enabled or not, and whatever the goroutines and the handlers do beside
-- it. While the command serves: every scheduler loop but the newest has ended, and the newest has
-- ended if the scheduler's flag is clear, and has not if the flag is set and the context is not
-- done; and every goroutine that Start of the MQTT client has spawned is over but the newest, which
-- is over if no Stop is in progress and the client's flag is clear, and is connected or on its way
-- there if the flag is set and its context is not done. `main` can always go on to its end, where
-- every loop of the scheduler and every goroutine that Start of the MQTT client has spawned is over.
pub main_finishes :
    (enabled : Bool) (streams : Registry) (s : Program)
    → Reach (boot enabled streams) s
    → (s.phase ≡ serving
        → IsSettled s.scheduler.running s.scheduler.root_done s.scheduler.workers
          × IsExclusive s.client.running s.client.root_done s.client.workers)
      × Finishes s
      × (s.phase ≡ finished
          → All (λ w. w.ended ≡ true) s.scheduler.workers
            × All (λ w. ClientLife.is_over w.place ≡ true) s.client.workers)
main_finishes enabled streams s r =
    let h = Reach-IsOrderly enabled streams s r in
    let settled = (Reach-IsSettled s.scheduler h.scheduler_reach).0 in
    let exclusive = (Reach-IsExclusive s.client h.client_reach).0 in
    (
      λ e. (settled (h.scheduler_quiet (λ k. cc)), exclusive),
      finishes_from s s.phase refl h,
      λ e. (
        over_at_last _ _ s.scheduler.workers (h.scheduler_off (rw e refl))
            (settled (h.scheduler_quiet (λ k. cc))),
        gone_at_last _ _ s.client.workers (h.client_off (rw e refl)) (h.client_quiet (λ k. cc))
            exclusive,
      ),
    )
