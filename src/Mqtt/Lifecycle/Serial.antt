-- ===== src/Mqtt/Lifecycle/Serial.antt =====
-- One goroutine at a time uses the client, if no Start overtakes a Stop.
use split_flap_display_web.Prelude.{
  ◌≡◌, refl, subst, Bool, true, false, ◌||◌, List, [], ◌∷◌, All, All-map, arith,
}
use split_flap_display_web.Prelude.Steps.{
  Somewhere, Somewhere-All, Eventually, Eventually-All, at_head, further,
}
use split_flap_display_web.Mqtt.Lifecycle.{
  Place, checking, connecting, backing_off, connected, returning, cleared, closed, absent, taken,
  Worker, Life, not_started, spawned, selects, is_over, is_busy, Works, leaves, tries, fails,
  retries, succeeds, closes, cancels, disconnects, returns, Clears, clears, IsQuiet, Step, starts,
  stops, works, gets_cleared, root_ends, Reach, here, next,
}
use split_flap_display_web.Mqtt.Lifecycle.Local.{IsLocal, Works-IsLocal, Clears-IsLocal}
use split_flap_display_web.Mqtt.Lifecycle.Calm.{Moves, Calm-at}

selects_lem : (p : Place) → selects p ≡ true → is_over p ≡ false
selects_lem checking e = refl
selects_lem connecting e = refl
selects_lem backing_off e = refl
selects_lem connected e = refl
selects_lem returning e = refl
selects_lem cleared e = absurd (ground arith)
selects_lem closed e = absurd (ground arith)

-- A goroutine that is not the newest is past its last use of the client and of the flag.
abbrev IsOld : Bool → Worker → Type 0
IsOld d w = (is_over w.place ≡ true) × IsLocal d w

Works-over :
    {d : Bool} (v w : Worker) → Works d v w → is_over v.place ≡ true → is_over w.place ≡ true
Works-over v w (leaves e f) h = ground (arith, selects_lem v.place e)
Works-over v w (tries e f) h = absurd (ground arith)
Works-over v w (fails e) h = absurd (ground arith)
Works-over v w (retries e) h = absurd (ground arith)
Works-over v w (succeeds e) h = absurd (ground arith)
Works-over v w (closes e) h = refl
Works-over v w (cancels e) h = h
Works-over v w (disconnects e) h = h
Works-over v w (returns e f) h = h

Works-IsOld : {d : Bool} (v w : Worker) → Works d v w → IsOld d v → IsOld d w
Works-IsOld v w s (o, l) = (Works-over v w s o, Works-IsLocal v w s l)

-- If the flag is set, no Stop has taken the newest goroutine and it is not over; if it is clear, one has
-- and is in progress, or the goroutine is over.
abbrev IsHeaded : Bool → Worker → Type 0
IsHeaded true w = (w.stopper ≡ absent) × (is_over w.place ≡ false)
IsHeaded false w = is_over w.place || is_busy w.stopper ≡ true

Works-IsHeaded :
    {d : Bool} (b : Bool) (v w : Worker) → Works d v w → IsLocal d v → IsHeaded b v → IsHeaded b w
Works-IsHeaded true v w (leaves e f) l h = (h.0, refl)
Works-IsHeaded true v w (tries e f) l h = (h.0, refl)
Works-IsHeaded true v w (fails e) l h = (h.0, refl)
Works-IsHeaded true v w (retries e) l h = (h.0, refl)
Works-IsHeaded true v w (succeeds e) l h = (h.0, refl)
Works-IsHeaded true v w (closes e) l h = absurd (ground arith)
Works-IsHeaded true v w (cancels e) l h = absurd (ground arith)
Works-IsHeaded true v w (disconnects e) l h = absurd (ground arith)
Works-IsHeaded true v w (returns e f) l h = absurd (ground arith)
Works-IsHeaded false v w (leaves e f) l h = rw (selects_lem v.place e) at h
Works-IsHeaded false v w (tries e f) l h = ground arith
Works-IsHeaded false v w (fails e) l h = ground arith
Works-IsHeaded false v w (retries e) l h = ground arith
Works-IsHeaded false v w (succeeds e) l h = ground arith
Works-IsHeaded false v w (closes e) l h = refl
Works-IsHeaded false v w (cancels e) l h = ground arith
Works-IsHeaded false v w (disconnects e) l h = ground arith
Works-IsHeaded false v w (returns e f) l h = rw f refl

Clears-IsHeaded : (v w : Worker) → Clears v w → IsHeaded false w
Clears-IsHeaded v w (clears e) = refl

Clears-IsOld : {d : Bool} (v w : Worker) → Clears v w → IsOld d v → IsOld d w
Clears-IsOld v w (clears e) h = (refl, Clears-IsLocal v w (clears e) h.1)

abbrev pub IsAlive : Bool → Bool → List Worker → Type 0
IsAlive running d [] = running ≡ false
IsAlive running d (w ∷ ws) = IsHeaded running w × IsLocal d w × All (IsOld d) ws

Works-IsAlive :
    (b d : Bool) (ws vs : List Worker) → Somewhere (Works d) ws vs → IsAlive b d ws → IsAlive b d vs
Works-IsAlive b d ws vs (at_head {x} {y} s) h =
    (Works-IsHeaded b x y s h.1 h.0, Works-IsLocal x y s h.1, h.2)
Works-IsAlive b d ws vs (further s) h = (h.0, h.1, Somewhere-All (Works d) Works-IsOld s h.2)

-- A goroutine that is past its use of the flag does not clear it.
Clears-never : (d : Bool) (ws vs : List Worker) → Somewhere Clears ws vs → ¬ All (IsOld d) ws
Clears-never d ws vs (at_head (clears e)) h = ground (arith, h.0.0, e)
Clears-never d ws vs (further s) h = Clears-never d _ _ s h.1

Clears-IsAlive :
    (b d : Bool) (ws vs : List Worker)
    → Somewhere Clears ws vs
    → IsAlive b d ws
    → IsAlive false d vs
Clears-IsAlive b d ws vs (at_head {x} {y} s) h =
    (Clears-IsHeaded x y s, Clears-IsLocal x y s h.1, h.2)
Clears-IsAlive b d ws vs (further {xs} {ys} s) h = absurd (Clears-never d xs ys s h.2)

later-IsLocal : (d : Bool) (w : Worker) → IsLocal d w → IsLocal true w
later-IsLocal d w h = record {
  untouched = h.untouched;
  told = h.told;
  waited = h.waited;
  cause = λ k. ground arith;
}

root-IsAlive : (b d : Bool) (ws : List Worker) → IsAlive b d ws → IsAlive b true ws
root-IsAlive b d [] h = h
root-IsAlive b d (w ∷ ws) (h, l, os) =
    (h, later-IsLocal d w l, All-map _ ws (λ x o. (o.0, later-IsLocal d x o.1)) os)

spawn-IsAlive :
    (d : Bool) (ws : List Worker)
    → All IsQuiet ws
    → IsAlive false d ws
    → IsAlive true d (spawned ∷ ws)
spawn-IsAlive d ws q h = (
  (refl, refl),
  record { untouched = λ k. refl; told = λ k. ground arith; waited = λ k. cc; cause = λ k. cc },
  old ws q h,
)
  where
    old : (vs : List Worker) → All IsQuiet vs → IsAlive false d vs → All (IsOld d) vs
    old [] r k = tt
    old (w ∷ vs) r k = ((ground (arith, k.0, r.0), k.1), k.2)

take-IsAlive :
    (d : Bool) (w : Worker) (ws : List Worker)
    → IsAlive true d (w ∷ ws)
    → IsAlive false d (record w { stopper = taken } ∷ ws)
take-IsAlive d w ws (h, l, os) = (
  ground arith,
  record { untouched = λ k. cc; told = λ k. ground arith; waited = λ k. cc; cause = l.cause },
  os,
)

Step-IsAlive :
    {s t : Life}
    → Step true s t
    → IsAlive s.running s.root_done s.workers
    → IsAlive t.running t.root_done t.workers
Step-IsAlive {s} (starts e q) h = spawn-IsAlive s.root_done s.workers (q refl) (rw e at h)
Step-IsAlive {s} (stops w ws e f) h = take-IsAlive s.root_done w ws (rw (e, f) at h)
Step-IsAlive {s} (works {ws} m) h = Works-IsAlive s.running s.root_done s.workers ws m h
Step-IsAlive {s} (gets_cleared {ws} m) h = Clears-IsAlive s.running s.root_done s.workers ws m h
Step-IsAlive {s} root_ends h = root-IsAlive s.running s.root_done s.workers h

pub Reach-IsAlive : {s : Life} → Reach true not_started s → IsAlive s.running s.root_done s.workers
Reach-IsAlive here = refl
Reach-IsAlive (next r st) = Step-IsAlive st (Reach-IsAlive r)

-- Of the goroutines that Start has spawned only the newest may use the client; it may not if no Stop is in
-- progress and the flag is clear, and it is connected or on its way there if the flag is set and its
-- context is not done.
abbrev pub IsExclusive : Bool → Bool → List Worker → Type 0
IsExclusive running d [] = running ≡ false
IsExclusive running d (w ∷ ws) =
    All (λ v. is_over v.place ≡ true) ws
    × (IsQuiet w → running ≡ false → is_over w.place ≡ true)
    × (running ≡ true → d ≡ false → selects w.place ≡ true)

free_runs : (w : Worker) → IsLocal false w → w.stopper ≡ absent → selects w.place ≡ true
free_runs w l e = ground (arith, l.cause, l.untouched e)

IsAlive-IsExclusive : (b d : Bool) (ws : List Worker) → IsAlive b d ws → IsExclusive b d ws
IsAlive-IsExclusive b d [] h = h
IsAlive-IsExclusive true d (w ∷ ws) (h, l, os) =
    (All-map _ ws (λ v o. o.0) os, λ q k. cc, λ k e. free_runs w (subst (λ x. IsLocal x w) e l) h.0)
IsAlive-IsExclusive false d (w ∷ ws) (h, l, os) =
    (All-map _ ws (λ v o. o.0) os, λ q k. ground (arith, h, q), λ k e. cc)

IsAlive-locals : (b d : Bool) (ws : List Worker) → IsAlive b d ws → All (IsLocal d) ws
IsAlive-locals b d [] h = tt
IsAlive-locals b d (w ∷ ws) (h, l, os) = (l, All-map _ ws (λ x o. o.1) os)

-- If no Start is called while a Stop is in progress: of the goroutines that Start has spawned, only the
-- newest may use the client; it may not if the flag is clear and no Stop is in progress, and it is
-- connected or on its way there if the flag is set and its context is not done. And the Stops in progress
-- can always return, by the steps of the goroutines and of the Stops alone.
pub Reach-IsExclusive :
    (s : Life)
    → Reach true not_started s
    → IsExclusive s.running s.root_done s.workers
      × ((ws : List Worker) × Eventually (Moves s.root_done) s.workers ws × All IsQuiet ws)
Reach-IsExclusive s r =
    let alive = Reach-IsAlive r in
    (
      IsAlive-IsExclusive s.running s.root_done s.workers alive,
      Eventually-All (Moves s.root_done) s.workers (λ w l. Calm-at s.root_done w w.stopper refl l)
          (IsAlive-locals s.running s.root_done s.workers alive),
    )
