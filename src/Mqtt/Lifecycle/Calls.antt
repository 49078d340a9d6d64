-- ===== src/Mqtt/Lifecycle/Calls.antt =====
-- Whole calls of Start and Stop, one after another.
use split_flap_display_web.Prelude.{
  ◌≡◌, refl, Bool, true, false, List, [], ◌∷◌, All, if_intro, arith,
}
use split_flap_display_web.Mqtt.Lifecycle.{
  Worker, Life, not_started, Works, leaves, tries, fails, retries, succeeds, closes, cancels,
  disconnects, returns, Clears, clears, Reach, next, starts, stops, IsQuiet, start, take_newest,
  begin_stop,
}
use split_flap_display_web.Mqtt.Lifecycle.Serial.{Reach-IsAlive}

pub start-Reach :
    (s : Life) → All IsQuiet s.workers → Reach true not_started s → Reach true not_started (start s)
unfolding start
start-Reach s q r =
    if_intro (Reach true not_started) s.running _ _ (λ e. r) (λ e. next r (starts e (λ k. q)))

take-Reach :
    (s : Life) (ws : List Worker)
    → s.workers ≡ ws
    → s.running ≡ true
    → Reach true not_started s
    → Reach true not_started (record s { running = false; workers = take_newest ws })
take-Reach s [] e run r = absurd (idle run (rw e at (Reach-IsAlive r)))
  where
    idle : s.running ≡ true → ¬ (s.running ≡ false)
    idle h k = ground arith
take-Reach s (w ∷ ws) e run r = next r (stops w ws run e)

pub begin_stop-Reach : (s : Life) → Reach true not_started s → Reach true not_started (begin_stop s)
unfolding begin_stop
begin_stop-Reach s r =
    if_intro (Reach true not_started) s.running _ _ (λ e. take-Reach s s.workers refl e r) (λ e. r)

pub running-begin_stop : (s : Life) → (begin_stop s).running ≡ false
unfolding begin_stop
running-begin_stop s = if_intro (λ (l : Life). l.running ≡ false) s.running _ _ (λ e. refl) (λ e. e)

pub Works-IsQuiet : {d : Bool} (v w : Worker) → Works d v w → IsQuiet v → IsQuiet w
Works-IsQuiet v w (leaves e f) q = q
Works-IsQuiet v w (tries e f) q = q
Works-IsQuiet v w (fails e) q = q
Works-IsQuiet v w (retries e) q = q
Works-IsQuiet v w (succeeds e) q = q
Works-IsQuiet v w (closes e) q = q
Works-IsQuiet v w (cancels e) q = absurd (ground arith)
Works-IsQuiet v w (disconnects e) q = absurd (ground arith)
Works-IsQuiet v w (returns e f) q = refl

pub Clears-IsQuiet : (v w : Worker) → Clears v w → IsQuiet v → IsQuiet w
Clears-IsQuiet v w (clears e) q = q

pub start-IsQuiet : (s : Life) → All IsQuiet s.workers → All IsQuiet (start s).workers
unfolding start
start-IsQuiet s q =
    if_intro (λ (l : Life). All IsQuiet l.workers) s.running _ _ (λ e. q) (λ e. (refl, q))
