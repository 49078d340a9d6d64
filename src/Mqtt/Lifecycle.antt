-- ===== src/Mqtt/Lifecycle.antt =====
-- Start and Stop of backend-go/internal/mqttclient/client.go, with the goroutine that connects.
--
-- Both take `lifecycleMu`, and Stop gives it back before it cancels, disconnects and waits, so that its
-- first part is a step of its own. A Start that finds the flag set and a Stop that finds it clear do
-- nothing. Whether a connection is made is the broker's affair: both answers of `Connect` are steps.
pub mod Local
pub mod Calm
pub mod Serial
pub mod Calls
pub mod Orphan
use split_flap_display_web.Prelude.{◌≡◌, Bool, true, false, ◌||◌, List, [], ◌∷◌, if◌then◌else◌, All}
use split_flap_display_web.Prelude.Steps.{Somewhere}

-- Where the goroutine stands: at the check of its context, waiting for `Connect`, for five seconds, or
-- for the end of its context; about to clear the flag; about to close `done`; and past that.
pub data Place : Type 0 where
  checking connecting backing_off connected returning cleared closed : Place

-- How far the Stop has got that has taken a goroutine's cancel function, client and channel.
pub data Stopper : Type 0 where
  absent taken disconnecting awaiting returned : Stopper

pub record Worker : Type 0 where
  pub place : Place
  pub cancelled : Bool
  pub stopper : Stopper

pub record Life : Type 0 where
  pub running : Bool
  -- Whether the context that Start is given is done.
  pub root_done : Bool
  -- The newest goroutine first: `cancel`, `client` and `done` are the head's.
  pub workers : List Worker

abbrev pub not_started : Life
not_started = record { running = false; root_done = false; workers = [] }

abbrev pub spawned : Worker
spawned = record { place = checking; cancelled = false; stopper = absent }

-- The four places with a select on the context.
abbrev pub selects : Place → Bool
selects checking = true
selects connecting = true
selects backing_off = true
selects connected = true
selects returning = false
selects cleared = false
selects closed = false

-- The goroutine will touch neither the client nor the flag again.
abbrev pub is_over : Place → Bool
is_over checking = false
is_over connecting = false
is_over backing_off = false
is_over connected = false
is_over returning = false
is_over cleared = true
is_over closed = true

-- A step of a goroutine or of the Stop that waits for it.
pub data Works (root_done : Bool) (w : Worker) : Worker → Type 0 where
  leaves :
      selects w.place ≡ true
      → w.cancelled || root_done ≡ true
      → Works root_done w (record w { place = returning })
  tries :
      w.place ≡ checking
      → w.cancelled || root_done ≡ false
      → Works root_done w (record w { place = connecting })
  fails : w.place ≡ connecting → Works root_done w (record w { place = backing_off })
  retries : w.place ≡ backing_off → Works root_done w (record w { place = checking })
  succeeds : w.place ≡ connecting → Works root_done w (record w { place = connected })
  closes : w.place ≡ cleared → Works root_done w (record w { place = closed })
  cancels :
      w.stopper ≡ taken → Works root_done w (record w { cancelled = true; stopper = disconnecting })
  disconnects : w.stopper ≡ disconnecting → Works root_done w (record w { stopper = awaiting })
  returns :
      w.stopper ≡ awaiting → w.place ≡ closed → Works root_done w (record w { stopper = returned })

-- The deferred `running.Store(false)`.
pub data Clears (w : Worker) : Worker → Type 0 where
  clears : w.place ≡ returning → Clears w (record w { place = cleared })

abbrev pub is_busy : Stopper → Bool
is_busy absent = false
is_busy taken = true
is_busy disconnecting = true
is_busy awaiting = true
is_busy returned = false

-- The Stop that has taken the goroutine, if any, is not in progress.
abbrev pub IsQuiet : Worker → Type 0
IsQuiet w = is_busy w.stopper ≡ false

-- With `serial`, nobody calls Start while a Stop is in progress.
pub data Step (serial : Bool) (s : Life) : Life → Type 0 where
  starts :
      s.running ≡ false
      → (serial ≡ true → All IsQuiet s.workers)
      → Step serial s (record s { running = true; workers = spawned ∷ s.workers })
  stops :
      (w : Worker) (ws : List Worker)
      → s.running ≡ true
      → s.workers ≡ w ∷ ws
      → Step serial s (record s { running = false; workers = record w { stopper = taken } ∷ ws })
  works :
      {ws : List Worker}
      → Somewhere (Works s.root_done) s.workers ws
      → Step serial s (record s { workers = ws })
  gets_cleared :
      {ws : List Worker}
      → Somewhere Clears s.workers ws
      → Step serial s (record s { running = false; workers = ws })
  root_ends : Step serial s (record s { root_done = true })

pub data Reach (serial : Bool) (s : Life) : Life → Type 0 where
  here : Reach serial s s
  next : {t u : Life} → Reach serial s t → Step serial t u → Reach serial s u

-- Start as one call, and the part of Stop under the lock.
unfoldable pub start : Life → Life
start s = if s.running then s else record s { running = true; workers = spawned ∷ s.workers }

abbrev pub take_newest : List Worker → List Worker
take_newest [] = []
take_newest (w ∷ ws) = record w { stopper = taken } ∷ ws

unfoldable pub begin_stop : Life → Life
begin_stop s =
    if s.running then record s { running = false; workers = take_newest s.workers } else s
