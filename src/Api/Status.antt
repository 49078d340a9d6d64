-- ===== src/Api/Status.antt =====
-- GET /api/scheduler/status: how its fields fit together.
use split_flap_display_web.Prelude.{
  ℕ, ◌≤◌, ◌≡◌, ◌↔◌, refl, Option, none, some, List, [], ◌∷◌, codes, length, count_if-not,
  if◌then◌else◌, arith,
}
use split_flap_display_web.Models.{Zone}
use split_flap_display_web.Scheduler.{
  Scheduler, active_messages, state, has_any, is_set, high_priority_count,
}
use split_flap_display_web.Api.{handle_scheduler_status}

active_not_idle : {P : Type 0} → codes "Active" ≡ codes "Idle" → P
active_not_idle e = cc

idle_iff_nothing :
    (o : Option ℕ) (l : List ℕ)
    → ((if is_set o then codes "Active" else if has_any l then codes "Active" else codes "Idle")
        ≡ codes "Idle")
      ↔ ((o ≡ none) × (length l ≡ 0))
unfolding is_set has_any
idle_iff_nothing none [] = (λ e. (refl, refl), λ h. refl)
idle_iff_nothing none (r ∷ rs) = (λ e. active_not_idle e, λ h. absurd (omega (arith, h.1)))
idle_iff_nothing (some r) l = (λ e. active_not_idle e, λ h. cc)

-- The reported state is "Idle" exactly if no message is on display and the reported size of the queue
-- is zero, and the reported number of high-priority messages is at most that size.
handle_scheduler_status_fits :
    (z : Zone) (s : Scheduler)
    → let status = handle_scheduler_status z s in
      ((status.state_name ≡ codes "Idle") ↔ ((s.current ≡ none) × (status.queue_size ≡ 0)))
      × (status.high_priority ≤ status.queue_size)
unfolding handle_scheduler_status state high_priority_count
handle_scheduler_status_fits z s = (
  idle_iff_nothing s.current (active_messages s),
  omega (arith, count_if-not _ (active_messages s)),
)
