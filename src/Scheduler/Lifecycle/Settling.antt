-- ===== src/Scheduler/Lifecycle/Settling.antt =====
-- One loop of the scheduler at a time, and the flag tells whether it runs.
use split_flap_display_web.Prelude.{
  ◌≡◌, ◌≢◌, refl, subst, inl, inr, Bool, true, false, ◌||◌, List, [], ◌∷◌, All, All-map, arith,
  Bool-cases,
}
use split_flap_display_web.Prelude.Steps.{
  Somewhere, Somewhere-All, Eventually, Eventually-All, Chain, at_head, further, ends, links,
}
use split_flap_display_web.Scheduler.Lifecycle.{
  Stopper, absent, taken, awaiting, returned, Worker, Life, not_started, spawned, Works, cancels,
  returns, finishes, Step, starts, stops, works, root_ends, Reach, here, next, IsQuiet,
}

pub record IsLocal (root_done : Bool) (w : Worker) : Type 0 where
  pub untouched : w.stopper ≡ absent → w.cancelled ≡ false
  pub told : w.stopper ≡ awaiting → w.cancelled ≡ true
  pub waited : w.stopper ≡ returned → w.ended ≡ true
  pub cause : w.ended ≡ true → w.cancelled || root_done ≡ true

Works-IsLocal : {d : Bool} (v w : Worker) → Works d v w → IsLocal d v → IsLocal d w
Works-IsLocal v w (cancels e) h = record {
  untouched = λ k. cc;
  told = λ k. refl;
  waited = λ k. cc;
  cause = λ k. refl;
}
Works-IsLocal v w (returns e f) h = record {
  untouched = λ k. cc;
  told = λ k. cc;
  waited = λ k. f;
  cause = h.cause;
}
Works-IsLocal v w (finishes e f) h = record {
  untouched = h.untouched;
  told = h.told;
  waited = λ k. refl;
  cause = λ k. f;
}

-- A goroutine that is not the newest has been taken by a Stop.
abbrev IsOld : Bool → Worker → Type 0
IsOld d w = (w.stopper ≢ absent) × IsLocal d w

Works-taken : {d : Bool} (v w : Worker) → Works d v w → v.stopper ≢ absent → w.stopper ≢ absent
Works-taken v w (cancels e) h = λ k. cc
Works-taken v w (returns e f) h = λ k. cc
Works-taken v w (finishes e f) h = h

Works-free : {d : Bool} (v w : Worker) → Works d v w → v.stopper ≡ absent → w.stopper ≡ absent
Works-free v w (cancels e) h = cc
Works-free v w (returns e f) h = cc
Works-free v w (finishes e f) h = h

Works-IsOld : {d : Bool} (v w : Worker) → Works d v w → IsOld d v → IsOld d w
Works-IsOld v w s (t, l) = (Works-taken v w s t, Works-IsLocal v w s l)

-- The newest goroutine has not been taken if the flag is set, and has been if it is clear.
abbrev IsHeaded : Bool → Worker → Type 0
IsHeaded true w = w.stopper ≡ absent
IsHeaded false w = w.stopper ≢ absent

Works-IsHeaded : {d : Bool} (b : Bool) (v w : Worker) → Works d v w → IsHeaded b v → IsHeaded b w
Works-IsHeaded true v w s h = Works-free v w s h
Works-IsHeaded false v w s h = Works-taken v w s h

abbrev pub IsAlive : Bool → Bool → List Worker → Type 0
IsAlive running d [] = running ≡ false
IsAlive running d (w ∷ ws) = IsHeaded running w × IsLocal d w × All (IsOld d) ws

Somewhere-IsAlive :
    (b d : Bool) (ws vs : List Worker) → Somewhere (Works d) ws vs → IsAlive b d ws → IsAlive b d vs
Somewhere-IsAlive b d ws vs (at_head {x} {y} s) h =
    (Works-IsHeaded b x y s h.0, Works-IsLocal x y s h.1, h.2)
Somewhere-IsAlive b d ws vs (further s) h = (h.0, h.1, Somewhere-All (Works d) Works-IsOld s h.2)

later-IsLocal : (d : Bool) (w : Worker) → IsLocal d w → IsLocal true w
later-IsLocal d w h = record {
  untouched = h.untouched;
  told = h.told;
  waited = h.waited;
  cause = λ k. ground arith;
}

root-IsAlive : (b d : Bool) (ws : List Worker) → IsAlive b d ws → IsAlive b true ws
root-IsAlive b d [] h = h
root-IsAlive b d (w ∷ ws) (h, l, os) =
    (h, later-IsLocal d w l, All-map _ ws (λ x o. (o.0, later-IsLocal d x o.1)) os)

spawn-IsAlive : (d : Bool) (ws : List Worker) → IsAlive false d ws → IsAlive true d (spawned ∷ ws)
spawn-IsAlive d ws h = (
  refl,
  record { untouched = λ k. refl; told = λ k. cc; waited = λ k. cc; cause = λ k. cc },
  old ws h,
)
  where
    old : (vs : List Worker) → IsAlive false d vs → All (IsOld d) vs
    old [] k = tt
    old (w ∷ vs) k = ((k.0, k.1), k.2)

take-IsAlive :
    (d : Bool) (w : Worker) (ws : List Worker)
    → IsAlive true d (w ∷ ws)
    → IsAlive false d (record w { stopper = taken } ∷ ws)
take-IsAlive d w ws (h, l, os) =
    (λ k. cc, record { untouched = λ k. cc; told = λ k. cc; waited = λ k. cc; cause = l.cause }, os)

Step-IsAlive :
    {s t : Life}
    → Step s t
    → IsAlive s.running s.root_done s.workers
    → IsAlive t.running t.root_done t.workers
Step-IsAlive {s} (starts e) h = spawn-IsAlive s.root_done s.workers (rw e at h)
Step-IsAlive {s} (stops w ws e f) h = take-IsAlive s.root_done w ws (rw (e, f) at h)
Step-IsAlive {s} (works {ws} m) h = Somewhere-IsAlive s.running s.root_done s.workers ws m h
Step-IsAlive {s} root_ends h = root-IsAlive s.running s.root_done s.workers h

pub Reach-IsAlive : {s : Life} → Reach not_started s → IsAlive s.running s.root_done s.workers
Reach-IsAlive here = refl
Reach-IsAlive (next r st) = Step-IsAlive st (Reach-IsAlive r)

-- Every goroutine but the newest has ended; so has the newest if the flag is clear, and it has not if the
-- flag is set and the context of Start is not done.
abbrev pub IsSettled : Bool → Bool → List Worker → Type 0
IsSettled running d [] = running ≡ false
IsSettled running d (w ∷ ws) =
    All (λ v. v.ended ≡ true) ws
    × (running ≡ false → w.ended ≡ true)
    × (running ≡ true → d ≡ false → w.ended ≡ false)

quiet_old : (d : Bool) (w : Worker) → IsQuiet w → IsOld d w → w.ended ≡ true
quiet_old d w (inl e) o = absurd (o.0 e)
quiet_old d w (inr e) o = o.1.waited e

All-quiet :
    (d : Bool) (ws : List Worker) → All IsQuiet ws → All (IsOld d) ws → All (λ w. w.ended ≡ true) ws
All-quiet d [] q o = tt
All-quiet d (w ∷ ws) q o = (quiet_old d w q.0 o.0, All-quiet d ws q.1 o.1)

free_runs : (w : Worker) → IsLocal false w → w.stopper ≡ absent → w.ended ≡ false
free_runs w l e = ground (arith, l.cause, l.untouched e)

IsAlive-IsSettled :
    (b d : Bool) (ws : List Worker) → IsAlive b d ws → All IsQuiet ws → IsSettled b d ws
IsAlive-IsSettled b d [] h q = h
IsAlive-IsSettled true d (w ∷ ws) (h, l, os) q =
    (All-quiet d ws q.1 os, λ k. cc, λ k e. free_runs w (subst (λ x. IsLocal x w) e l) h)
IsAlive-IsSettled false d (w ∷ ws) (h, l, os) q =
    (All-quiet d ws q.1 os, λ k. quiet_old d w q.0 (h, l), λ k e. cc)

-- Whoever waits for a goroutine comes to return.
await :
    (d : Bool) (w : Worker)
    → w.stopper ≡ awaiting
    → w.cancelled ≡ true
    → (v : Worker) × Chain (Works d) w v × IsQuiet v
await d w e c = elim (Bool-cases w.ended) [
  | inl f ↦ (record w { stopper = returned }, links (returns e f) ends, inr refl)
  | inr f ↦ (
    record w { ended = true; stopper = returned },
    links (finishes f (ground arith)) (links (returns e refl) ends),
    inr refl,
  )
]

quieten_from :
    (d : Bool) (w : Worker) (st : Stopper)
    → w.stopper ≡ st
    → IsLocal d w
    → (v : Worker) × Chain (Works d) w v × IsQuiet v
quieten_from d w absent e l = (w, ends, inl e)
quieten_from d w returned e l = (w, ends, inr e)
quieten_from d w awaiting e l = await d w e (l.told e)
quieten_from d w taken e l =
    let (v, c, q) = await d (record w { cancelled = true; stopper = awaiting }) refl refl in
    (v, links (cancels e) c, q)

quieten : (d : Bool) (w : Worker) → IsLocal d w → (v : Worker) × Chain (Works d) w v × IsQuiet v
quieten d w l = quieten_from d w w.stopper refl l

IsAlive-locals : (b d : Bool) (ws : List Worker) → IsAlive b d ws → All (IsLocal d) ws
IsAlive-locals b d [] h = tt
IsAlive-locals b d (w ∷ ws) (h, l, os) = (l, All-map _ ws (λ x o. o.1) os)

-- However calls of Start and Stop interleave: when no Stop is in progress, every loop of the scheduler
-- but the newest has ended; the newest has ended if the flag is clear, and has not if the flag is set and
-- the context of Start is not done (if the flag is set and that context is done, nothing is said of
-- it). And the Stops in progress can always return, by the steps of the goroutines and of the Stops
-- alone.
pub Reach-IsSettled :
    (s : Life)
    → Reach not_started s
    → (All IsQuiet s.workers → IsSettled s.running s.root_done s.workers)
      × ((ws : List Worker) × Eventually (Works s.root_done) s.workers ws × All IsQuiet ws)
Reach-IsSettled s r =
    let alive = Reach-IsAlive r in
    (
      IsAlive-IsSettled s.running s.root_done s.workers alive,
      Eventually-All (Works s.root_done) s.workers (quieten s.root_done)
          (IsAlive-locals s.running s.root_done s.workers alive),
    )
