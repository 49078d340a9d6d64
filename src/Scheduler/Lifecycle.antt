-- ===== src/Scheduler/Lifecycle.antt =====
-- Start and Stop of backend-go/internal/scheduler/scheduler.go, in every interleaving of any number of
-- calls of them with the goroutines that Start has spawned.
--
-- Both take `lifecycleMu`, and Stop gives it back before it cancels and waits, so that its first part is
-- a step of its own. What a goroutine does in between is its ticks; here it only ends, once its context
-- is done. A Start that finds the flag set and a Stop that finds it clear do nothing.
pub mod Settling
pub mod Calls
use split_flap_display_web.Prelude.{
  ◌≡◌, ◌≢◌, ◌⊎◌, refl, subst, inl, inr, Bool, true, false, ◌||◌, List, [], ◌∷◌, if◌then◌else◌, All,
  All-map, arith, Bool-cases,
}
use split_flap_display_web.Prelude.Steps.{
  Somewhere, Somewhere-All, Eventually, Eventually-All, Chain, at_head, further, ends, links,
}

-- How far the Stop has got that has taken a goroutine's cancel function and channel.
pub data Stopper : Type 0 where
  absent taken awaiting returned : Stopper

-- A goroutine of Start, with its context and its `done` channel, which is closed when it has ended.
pub record Worker : Type 0 where
  pub ended : Bool
  pub cancelled : Bool
  pub stopper : Stopper

pub record Life : Type 0 where
  pub running : Bool
  -- Whether the context that Start is given is done.
  pub root_done : Bool
  -- The newest goroutine first: `cancel` and `done` are the head's.
  pub workers : List Worker

abbrev pub not_started : Life
not_started = record { running = false; root_done = false; workers = [] }

abbrev pub spawned : Worker
spawned = record { ended = false; cancelled = false; stopper = absent }

-- A step of a goroutine or of the Stop that waits for it.
pub data Works (root_done : Bool) (w : Worker) : Worker → Type 0 where
  cancels :
      w.stopper ≡ taken → Works root_done w (record w { cancelled = true; stopper = awaiting })
  returns :
      w.stopper ≡ awaiting → w.ended ≡ true → Works root_done w (record w { stopper = returned })
  finishes :
      w.ended ≡ false
      → w.cancelled || root_done ≡ true
      → Works root_done w (record w { ended = true })

pub data Step (s : Life) : Life → Type 0 where
  starts : s.running ≡ false → Step s (record s { running = true; workers = spawned ∷ s.workers })
  stops :
      (w : Worker) (ws : List Worker)
      → s.running ≡ true
      → s.workers ≡ w ∷ ws
      → Step s (record s { running = false; workers = record w { stopper = taken } ∷ ws })
  works :
      {ws : List Worker}
      → Somewhere (Works s.root_done) s.workers ws
      → Step s (record s { workers = ws })
  root_ends : Step s (record s { root_done = true })

pub data Reach (s : Life) : Life → Type 0 where
  here : Reach s s
  next : {t u : Life} → Reach s t → Step t u → Reach s u

-- No Stop is in progress.
abbrev pub IsQuiet : Worker → Type 0
IsQuiet w = (w.stopper ≡ absent) ⊎ (w.stopper ≡ returned)

-- Start as one call, and the part of Stop under the lock.
unfoldable pub start : Life → Life
start s = if s.running then s else record s { running = true; workers = spawned ∷ s.workers }

abbrev pub take_newest : List Worker → List Worker
take_newest [] = []
take_newest (w ∷ ws) = record w { stopper = taken } ∷ ws

unfoldable pub begin_stop : Life → Life
begin_stop s =
    if s.running then record s { running = false; workers = take_newest s.workers } else s
