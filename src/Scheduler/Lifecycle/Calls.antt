-- ===== src/Scheduler/Lifecycle/Calls.antt =====
-- Whole calls of Start and Stop, one after another.
use split_flap_display_web.Prelude.{
  ◌≡◌, refl, inl, inr, Bool, true, false, List, [], ◌∷◌, All, if_intro, arith,
}
use split_flap_display_web.Scheduler.Lifecycle.{
  Worker, Life, not_started, Works, cancels, returns, finishes, Reach, next, starts, stops, IsQuiet,
  start, take_newest, begin_stop,
}
use split_flap_display_web.Scheduler.Lifecycle.Settling.{Reach-IsAlive}

pub start-Reach : (s : Life) → Reach not_started s → Reach not_started (start s)
unfolding start
start-Reach s r = if_intro (Reach not_started) s.running _ _ (λ e. r) (λ e. next r (starts e))

take-Reach :
    (s : Life) (ws : List Worker)
    → s.workers ≡ ws
    → s.running ≡ true
    → Reach not_started s
    → Reach not_started (record s { running = false; workers = take_newest ws })
take-Reach s [] e run r = absurd (idle run (rw e at (Reach-IsAlive r)))
  where
    idle : s.running ≡ true → ¬ (s.running ≡ false)
    idle h k = ground arith
take-Reach s (w ∷ ws) e run r = next r (stops w ws run e)

pub begin_stop-Reach : (s : Life) → Reach not_started s → Reach not_started (begin_stop s)
unfolding begin_stop
begin_stop-Reach s r =
    if_intro (Reach not_started) s.running _ _ (λ e. take-Reach s s.workers refl e r) (λ e. r)

pub running-begin_stop : (s : Life) → (begin_stop s).running ≡ false
unfolding begin_stop
running-begin_stop s = if_intro (λ (l : Life). l.running ≡ false) s.running _ _ (λ e. refl) (λ e. e)

pub Works-IsQuiet : {d : Bool} (v w : Worker) → Works d v w → IsQuiet v → IsQuiet w
Works-IsQuiet v w (cancels e) (inl q) = cc
Works-IsQuiet v w (cancels e) (inr q) = cc
Works-IsQuiet v w (returns e f) q = inr refl
Works-IsQuiet v w (finishes e f) q = q

pub start-IsQuiet : (s : Life) → All IsQuiet s.workers → All IsQuiet (start s).workers
unfolding start
start-IsQuiet s q =
    if_intro (λ (l : Life). All IsQuiet l.workers) s.running _ _ (λ e. q) (λ e. (inl refl, q))
