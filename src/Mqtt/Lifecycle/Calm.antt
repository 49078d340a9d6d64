-- ===== src/Mqtt/Lifecycle/Calm.antt =====
-- A Stop in progress can return.
use split_flap_display_web.Prelude.{◌≡◌, refl, inl, inr, Bool, true}
use split_flap_display_web.Prelude.Steps.{Chain, ends, links}
use split_flap_display_web.Mqtt.Lifecycle.{
  Place, checking, connecting, backing_off, connected, returning, cleared, closed, Stopper, absent,
  taken, disconnecting, awaiting, returned, Worker, selects, Works, leaves, closes, cancels,
  disconnects, returns, Clears, clears, IsQuiet,
}
use split_flap_display_web.Mqtt.Lifecycle.Local.{IsLocal}

-- What one goroutine and the Stop that waits for it do.
pub data Moves (root_done : Bool) (v w : Worker) : Type 0 where
  by_work : Works root_done v w → Moves root_done v w
  by_clearing : Clears v w → Moves root_done v w

abbrev pub Calm : Bool → Worker → Type 0
Calm d w = (v : Worker) × Chain (Moves d) w v × IsQuiet v

first_move : {d : Bool} {v w : Worker} → Moves d v w → Calm d w → Calm d v
first_move m (u, c, q) = (u, links m c, q)

Calm-closed : (d : Bool) (w : Worker) → w.place ≡ closed → w.stopper ≡ awaiting → Calm d w
Calm-closed d w p a = (record w { stopper = returned }, links (by_work (returns a p)) ends, refl)

Calm-cleared : (d : Bool) (w : Worker) → w.place ≡ cleared → w.stopper ≡ awaiting → Calm d w
Calm-cleared d w p a =
    first_move (by_work (closes p)) (Calm-closed d (record w { place = closed }) refl a)

Calm-returning : (d : Bool) (w : Worker) → w.place ≡ returning → w.stopper ≡ awaiting → Calm d w
Calm-returning d w p a =
    first_move (by_clearing (clears p)) (Calm-cleared d (record w { place = cleared }) refl a)

Calm-selecting :
    (d : Bool) (w : Worker)
    → selects w.place ≡ true
    → w.stopper ≡ awaiting
    → w.cancelled ≡ true
    → Calm d w
Calm-selecting d w s a c =
    first_move (by_work (leaves s (rw c refl)))
      (Calm-returning d (record w { place = returning }) refl a)

-- The goroutine winds up, and the Stop returns.
Calm-awaiting :
    (d : Bool) (w : Worker) (p : Place)
    → w.place ≡ p
    → w.stopper ≡ awaiting
    → w.cancelled ≡ true
    → Calm d w
Calm-awaiting d w checking e a c = Calm-selecting d w (rw e refl) a c
Calm-awaiting d w connecting e a c = Calm-selecting d w (rw e refl) a c
Calm-awaiting d w backing_off e a c = Calm-selecting d w (rw e refl) a c
Calm-awaiting d w connected e a c = Calm-selecting d w (rw e refl) a c
Calm-awaiting d w returning e a c = Calm-returning d w e a
Calm-awaiting d w cleared e a c = Calm-cleared d w e a
Calm-awaiting d w closed e a c = Calm-closed d w e a

Calm-disconnecting :
    (d : Bool) (w : Worker) → w.stopper ≡ disconnecting → w.cancelled ≡ true → Calm d w
Calm-disconnecting d w e c =
    first_move (by_work (disconnects e))
      (Calm-awaiting d (record w { stopper = awaiting }) w.place refl refl c)

pub Calm-at : (d : Bool) (w : Worker) (st : Stopper) → w.stopper ≡ st → IsLocal d w → Calm d w
Calm-at d w absent e l = (w, ends, rw e refl)
Calm-at d w returned e l = (w, ends, rw e refl)
Calm-at d w awaiting e l = Calm-awaiting d w w.place refl e (l.told (inr e))
Calm-at d w disconnecting e l = Calm-disconnecting d w e (l.told (inl e))
Calm-at d w taken e l =
    first_move (by_work (cancels e))
      (Calm-disconnecting d (record w { cancelled = true; stopper = disconnecting }) refl refl)
