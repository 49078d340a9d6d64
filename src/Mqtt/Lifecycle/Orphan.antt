-- ===== src/Mqtt/Lifecycle/Orphan.antt =====
-- A Start that overlaps a Stop.
use split_flap_display_web.Prelude.{◌≡◌, refl, Bool, true, false, List, ◌∷◌, All, arith}
use split_flap_display_web.Prelude.Steps.{at_head, further}
use split_flap_display_web.Mqtt.Lifecycle.{
  connected, closed, absent, disconnecting, returned, Worker, Life, spawned, leaves, closes,
  cancels, disconnects, returns, clears, IsQuiet, starts, stops, works, gets_cleared, Reach, here,
  next,
}

-- A goroutine that is stopped, as it is left behind.
abbrev pub stopped : Worker
stopped = record { place = closed; cancelled = true; stopper = returned }

overlapping : (ws : List Worker) → ◌≡◌ {A = Bool} false true → All IsQuiet ws
overlapping ws k = absurd (ground arith)

-- From any state in which the client is connected and no Stop is in progress, a Stop that a Start
-- overtakes can lead to one in which the flag is clear and no Stop is in progress, and yet the goroutine
-- of that Start runs on: the goroutine that was stopped has cleared the flag that the Start had set.
pub Reach-orphan :
    (s : Life) (w : Worker) (ws : List Worker)
    → s.running ≡ true
    → s.workers ≡ w ∷ ws
    → w.place ≡ connected
    → w.stopper ≡ absent
    → All IsQuiet ws
    → (t : Life) × Reach false s t
      × (t.running ≡ false)
      × All IsQuiet t.workers
      × (t.workers ≡ spawned ∷ stopped ∷ ws)
Reach-orphan s w ws run e p a q =
    let s₁ = next here (stops w ws run e) in
    let s₂ = next s₁ (works (at_head (cancels refl))) in
    let s₃ =
      next s₂
        (starts refl (overlapping (record w { cancelled = true; stopper = disconnecting } ∷ ws))) in
    let s₄ = next s₃ (works (further (at_head (leaves (rw p refl) refl)))) in
    let s₅ = next s₄ (gets_cleared (further (at_head (clears refl)))) in
    let s₆ = next s₅ (works (further (at_head (closes refl)))) in
    let s₇ = next s₆ (works (further (at_head (disconnects refl)))) in
    let s₈ = next s₇ (works (further (at_head (returns refl refl)))) in
    (
      record s { running = false; workers = spawned ∷ stopped ∷ ws },
      s₈,
      refl,
      (refl, (refl, q)),
      refl,
    )
