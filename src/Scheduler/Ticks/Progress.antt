-- ===== src/Scheduler/Ticks/Progress.antt =====
-- Every message is shown until its target is reached, and then the display goes idle.
use split_flap_display_web.Prelude.{
  map, length, ℕ, zero, suc, ◌+◌, ◌-◌, ◌≤◌, ◌≡◌, ◌≢◌, refl, sym, ap, subst, ◌∙◌, inl, inr, false,
  some, List, [], ◌∷◌, Text, keep_if, if◌then◌else◌, to_ℕ, values, All, All-map, All-In, ◌<◌, ◌⊎◌,
  ◌==◌, leb, In, In-of_keep_if, DistinctBy, arith, Bool-cases, Option-cases,
}
use Prim.Native.Nat.{max}
use split_flap_display_web.Models.{Message, Zone, is_completed}
use split_flap_display_web.Store.{Heap, active_at, list_active}
use split_flap_display_web.Store.Invariant.{id_at, values-DistinctBy}
use split_flap_display_web.Scheduler.{Scheduler, active_messages, select_next_message}
use split_flap_display_web.Scheduler.Ticks.{undisturbed, scheduler_tick, run_loop}
use split_flap_display_web.Store.Order.{swap_at, swaps, In-swaps}
use split_flap_display_web.Scheduler.Ticks.Display.{
  ShownOnce, selected_In, selected_live, scheduler_tick-Shown,
}
use split_flap_display_web.Scheduler.Selection.{select_next_message-none}
use split_flap_display_web.Scheduler.Invariant.{IsValid}
use split_flap_display_web.Scheduler.Loop.{scheduler_tick-IsValid}

-- How often a message is still to be shown: at least once while it is active.
abbrev pub share : Message → ℕ
share m = if is_completed m then 0 else max 1 (to_ℕ m.target_display_count - m.display_count)

unfoldable pub sum_by : (ℕ → ℕ) → List ℕ → ℕ
sum_by f [] = 0
sum_by f (x ∷ l) = f x + sum_by f l

-- The displays that the stored messages are still to have.
unfoldable pub remaining : Scheduler → ℕ
unfolding sum_by
remaining s = sum_by (λ r. share (s.heap.cell r)) (values s.store.by_id)

le_or_lt : (m n : ℕ) → (m ≤ n) ⊎ (n < m)
le_or_lt m n = elim (Bool-cases (leb m n)) [
  | inl e ↦ inl (ground arith)
  | inr e ↦ inr (ground arith)
]

eq_or_ne : (m n : ℕ) → (m ≡ n) ⊎ (m ≢ n)
eq_or_ne m n = elim (Bool-cases (m == n)) [
  | inl e ↦ inl (ground arith)
  | inr e ↦ inr (ground arith)
]

-- One display takes one off a message's share.
ShownOnce-share :
    (now : ℕ) (m m' : Message)
    → is_completed m ≡ false
    → ShownOnce now m m'
    → share m' + 1 ≡ share m
ShownOnce-share now m m' live one =
    elim (le_or_lt (to_ℕ m.target_display_count) (m.display_count + 1)) [
      | inl few ↦ rw (one.counted, one.reached few, live) (omega arith)
      | inr many ↦ rw (one.counted, one.more many, live) (omega arith)
    ]

sum_by_agree : (f g : ℕ → ℕ) (l : List ℕ) → All (λ a. f a ≡ g a) l → sum_by f l ≡ sum_by g l
unfolding sum_by
sum_by_agree f g [] h = refl
sum_by_agree f g (x ∷ l) h = omega (arith, h.0, sum_by_agree f g l h.1)

-- A sum that falls by one at one element of the list, and nowhere else.
sum_by_falls :
    (f g : ℕ → ℕ) (key : ℕ → Text) (r : ℕ) (l : List ℕ)
    → DistinctBy key l
    → In r l
    → ((a : ℕ) → a ≢ r → f a ≡ g a)
    → f r + 1 ≡ g r
    → sum_by f l + 1 ≡ sum_by g l
unfolding sum_by
sum_by_falls f g key r [] d i same less = absurd i
sum_by_falls f g key r (x ∷ l) d (inl p) same less =
    let others = All-map _ l (λ y n. same y (λ (e : y ≡ r). n (ap key (sym p ∙ sym e)))) d.0 in
    omega (arith, sum_by_agree f g l others, subst (λ (y : ℕ). f y + 1 ≡ g y) p less)
sum_by_falls f g key r (x ∷ l) d (inr i) same less = omega (
  arith,
  sum_by_falls f g key r l d.1 i same less,
  same x (λ e. All-In (λ y. key x ≢ key y) l d.0 i (ap key e)),
)

sum_by_zero : (f : ℕ → ℕ) (a : ℕ) (l : List ℕ) → In a l → sum_by f l ≡ 0 → f a ≡ 0
unfolding sum_by
sum_by_zero f a [] i e = absurd i
sum_by_zero f a (x ∷ l) (inl p) e = ap f p ∙ omega arith
sum_by_zero f a (x ∷ l) (inr i) e = sum_by_zero f a l i (omega arith)

share_pos : (m : Message) → is_completed m ≡ false → 1 ≤ share m
share_pos m h = rw h (omega arith)

sum_by-active :
    (h : Heap) (l : List ℕ) → sum_by (λ r. share (h.cell r)) l ≡ 0 → keep_if (active_at h) l ≡ []
unfolding sum_by
sum_by-active h [] e = refl
sum_by-active h (x ∷ l) e = elim (Bool-cases (is_completed (h.cell x))) [
  | inl ended ↦ rw ended (sum_by-active h l (omega arith))
  | inr live ↦ absurd (omega (arith, share_pos (h.cell x) live))
]

cons_ne_nil : (x : ℕ) (l : List ℕ) → ◌≡◌ {A = List ℕ} (x ∷ l) [] → ⊥
cons_ne_nil x l e = cc

sum_by-idle :
    (h : Heap) (l : List ℕ) → keep_if (active_at h) l ≡ [] → sum_by (λ r. share (h.cell r)) l ≡ 0
unfolding sum_by
sum_by-idle h [] e = refl
sum_by-idle h (x ∷ l) e = elim (Bool-cases (is_completed (h.cell x))) [
  | inl ended ↦ rw ended (omega (arith, sum_by-idle h l (rw ended at e)))
  | inr live ↦ absurd (cons_ne_nil x (keep_if (active_at h) l) (rw live at e))
]

none_of_idle : (s : Scheduler) → active_messages s ≡ [] → remaining s ≡ 0
unfolding remaining list_active
none_of_idle s e = sum_by-idle s.heap (values s.store.by_id) e

-- Nothing remains only if no message is active.
idle_of_none : (s : Scheduler) → remaining s ≡ 0 → active_messages s ≡ []
unfolding remaining list_active
idle_of_none s e = sum_by-active s.heap (values s.store.by_id) e

sum_by-swap_at :
    (f : ℕ → ℕ) (n : ℕ) (m : List (Text × ℕ))
    → sum_by f (values (swap_at n m)) ≡ sum_by f (values m)
unfolding sum_by swap_at
sum_by-swap_at f n [] = refl
sum_by-swap_at f zero (x ∷ []) = refl
sum_by-swap_at f zero (x ∷ y ∷ l) = omega arith
sum_by-swap_at f (suc n) (x ∷ l) = omega (arith, sum_by-swap_at f n l)

sum_by-swaps :
    (f : ℕ → ℕ) (ns : List ℕ) (m : List (Text × ℕ))
    → sum_by f (values (swaps ns m)) ≡ sum_by f (values m)
unfolding swaps
sum_by-swaps f [] m = refl
sum_by-swaps f (n ∷ ns) m = sum_by-swaps f ns (swap_at n m) ∙ sum_by-swap_at f n m

-- Each tick that nothing interrupts takes one off the displays that remain.
pub scheduler_tick-remaining :
    (z : Zone) (now r : ℕ) (ns : List ℕ) (s : Scheduler)
    → IsValid s
    → select_next_message s ≡ some r
    → remaining (scheduler_tick z (undisturbed now ns) s).after + 1 ≡ remaining s
unfolding remaining
scheduler_tick-remaining z now r ns s v e =
    let tick = scheduler_tick-Shown z now r ns s v e in
    let after = λ (a : ℕ). share ((scheduler_tick z (undisturbed now ns) s).after.heap.cell a) in
    ap (λ (m : List (Text × ℕ)). sum_by after (values m) + 1) tick.store_kept
    ∙ ap (λ (k : ℕ). k + 1) (sum_by-swaps after ns s.store.by_id)
    ∙ sum_by_falls after _ (id_at s.heap) r (values s.store.by_id)
        (values-DistinctBy s.heap s.store.by_id v.holds.stored.keyed v.holds.stored.distinct)
        (selected_In s r e) (λ a n. ap share (tick.others_kept a n))
        (ShownOnce-share now (s.heap.cell r) _ (selected_live s r e) tick.shown)

-- The displays that a message has had, and is still to have.
total : Scheduler → ℕ → ℕ
total s a = (s.heap.cell a).display_count + share (s.heap.cell a)

scheduler_tick-total :
    (z : Zone) (now r : ℕ) (ns : List ℕ) (s : Scheduler)
    → IsValid s
    → select_next_message s ≡ some r
    → (a : ℕ) → total (scheduler_tick z (undisturbed now ns) s).after a ≡ total s a
unfolding total
scheduler_tick-total z now r ns s v e a =
    let tick = scheduler_tick-Shown z now r ns s v e in
    elim (eq_or_ne a r) [
      | inl same ↦
          let less = ShownOnce-share now (s.heap.cell r) _ (selected_live s r e) tick.shown in
          rw same (omega (arith, less, ap (λ (m : Message). m.display_count) tick.shown.counted))
      | inr other ↦ ap (λ (m : Message). m.display_count + share m) (tick.others_kept a other)
    ]

-- What the loop leaves: nothing active, and every stored message with the displays it was to have.
abbrev Drained : Scheduler → Scheduler → Type 0
Drained s t =
    (active_messages t ≡ [])
    × ((a : ℕ)
        → In a (values s.store.by_id)
        → (t.heap.cell a).display_count ≡ (s.heap.cell a).display_count + share (s.heap.cell a))

Drained-at_once : (s : Scheduler) → remaining s ≡ 0 → Drained s s
unfolding remaining
Drained-at_once s e =
    (idle_of_none s e, λ a i. omega (arith, sum_by_zero _ a (values s.store.by_id) i e))

drains :
    (z : Zone) (now : ℕ) (orders : List (List ℕ)) (s : Scheduler)
    → IsValid s
    → remaining s ≡ length orders
    → Drained s (run_loop z (map (undisturbed now) orders) s)
unfolding run_loop
drains z now [] s v e = Drained-at_once s e
drains z now (ns ∷ orders) s v e = elim (Option-cases (select_next_message s)) [
  | inl none_left ↦
      absurd (omega (arith, none_of_idle s ((select_next_message-none s).0 none_left)))
  | inr (r, chosen) ↦
      let kept = (scheduler_tick-Shown z now r ns s v chosen).store_kept in
      let (idle, counts) =
        drains z now orders (scheduler_tick z (undisturbed now ns) s).after
          (scheduler_tick-IsValid z (undisturbed now ns) s v)
          (omega (arith, scheduler_tick-remaining z now r ns s v chosen)) in
      (
        idle,
        λ a i.
            counts a (
              subst (λ (m : List (Text × ℕ)). In a (values m)) (sym kept)
                (In-swaps a ns s.store.by_id i))
            ∙ unfold total in scheduler_tick-total z now r ns s v chosen a,
      )
]

share_of_live :
    (m : Message)
    → is_completed m ≡ false
    → m.display_count + share m ≡ max (m.display_count + 1) (to_ℕ m.target_display_count)
share_of_live m h = rw h (omega arith)

-- Left alone, with publishes that succeed, the scheduler shows each message until its target is
-- reached: after as many ticks as displays remain, no message is active, and every message that was
-- active has been displayed once more, or if its target is higher, exactly as often as its target says.
-- Go may visit the store's map in another order at each tick.
pub run_loop-drains :
    (z : Zone) (now : ℕ) (orders : List (List ℕ)) (s : Scheduler)
    → IsValid s
    → remaining s ≡ length orders
    → (active_messages (run_loop z (map (undisturbed now) orders) s) ≡ [])
      × ((a : ℕ)
          → In a (active_messages s)
          → ((run_loop z (map (undisturbed now) orders) s).heap.cell a).display_count
            ≡ max ((s.heap.cell a).display_count + 1) (to_ℕ (s.heap.cell a).target_display_count))
unfolding list_active
run_loop-drains z now orders s v e =
    let (idle, counts) = drains z now orders s v e in
    (
      idle,
      λ a i.
          let (stored, live) = In-of_keep_if (active_at s.heap) a (values s.store.by_id) i in
          counts a stored ∙ share_of_live (s.heap.cell a) (ground (arith, live)),
    )
