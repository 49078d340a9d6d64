-- ===== src/Queue.antt =====
-- backend-go/internal/queue/queue.go: the bounded queue with "drop oldest" insertion that every
-- subscriber has. What a method does under its mutex is one step, and so is a function here; a push
-- is two, since it signals after it has given the mutex back. Elements are of any type: the code never
-- looks into an event. `notify` says whether the one-slot channel is full.
pub mod Laws
pub mod Delivery
pub mod Contents
use split_flap_display_web.Prelude.{
  ℕ, zero, suc, Bool, true, false, Option, none, some, List, [], ◌∷◌, ◌++◌, length, drop, ltb,
  if◌then◌else◌, ℤ, is_positive, to_ℕ, ◌&&◌, not,
}

pub record Queue {ℓ} (A : Type ℓ) : Type ℓ where
  pub cap : ℕ
  pub buf : List A
  pub notify : Bool

-- A step of a goroutine that uses the queue.
pub data Op {ℓ} (A : Type ℓ) : Type ℓ where
  pushes : A → Op A
  pops : Op A
  drains : Op A

-- Where the goroutine that relays a queue stands: at the `select` on the notification channel, or in
-- the loop that pops until the queue is empty.
pub data Phase : Type 0 where
  waiting draining : Phase

module _ {ℓ} {A : Type ℓ} where
  unfoldable pub new : ℤ → Queue A
  new capacity = record {
    cap = if is_positive capacity then to_ℕ capacity else 1;
    buf = [];
    notify = false;
  }

  -- The send does nothing where the slot is full.
  unfoldable pub signal : Queue A → Queue A
  signal q = if q.notify then q else record q { notify = true }

  drop_oldest : Queue A → A → Queue A
  drop_oldest q e = if ltb 0 (length q.buf) then record q { buf = drop 1 q.buf ++ e ∷ [] } else q

  -- What a push does under the lock.
  unfoldable pub insert : Queue A → A → Queue A
  unfolding drop_oldest
  insert q e =
      if ltb (length q.buf) q.cap then record q { buf = q.buf ++ e ∷ [] } else drop_oldest q e

  -- The signal follows when the lock is given back.
  unfoldable pub push : Queue A → A → Queue A
  unfolding insert signal
  push q e = signal (insert q e)

  pop_front : List A → Queue A → Option A × Queue A
  pop_front [] q = (none, q)
  pop_front (e ∷ rest) q = (some e, record q { buf = rest })

  unfoldable pub pop : Queue A → Option A × Queue A
  unfolding pop_front
  pop q = pop_front q.buf q

  pub drain : Queue A → List A × Queue A
  drain q = (q.buf, record q { buf = [] })

  pub len : Queue A → ℕ
  len q = length q.buf

  unfoldable pub push_all : Queue A → List A → Queue A
  push_all q [] = q
  push_all q (e ∷ es) = push_all (push q e) es

  -- What a schedule of operations takes out, in order, and the queue that it leaves.
  taken : Option A → List A
  taken none = []
  taken (some e) = e ∷ []

  step : Op A → Queue A → List A × Queue A
  unfolding taken
  step (pushes e) q = ([], push q e)
  step pops q = let (o, q') = pop q in (taken o, q')
  step drains q = drain q

  pub run : List (Op A) → Queue A → List A × Queue A
  unfolding step
  run [] q = ([], q)
  run (o ∷ os) q = let (out, q') = step o q in let (later, q'') = run os q' in (out ++ later, q'')

  unfoldable pub pushed : List (Op A) → List A
  pushed [] = []
  pushed (pushes e ∷ os) = e ∷ pushed os
  pushed (pops ∷ os) = pushed os
  pushed (drains ∷ os) = pushed os
