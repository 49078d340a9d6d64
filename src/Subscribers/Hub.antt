-- ===== src/Subscribers/Hub.antt =====
-- Who is registered, and what a notification does to the queues.
use split_flap_display_web.Prelude.{
  ℕ, ◌+◌, ◌<◌, ◌≡◌, ◌≢◌, refl, sym, ap, ◌∙◌, not, List, [], ◌∷◌, ◌==◌, if◌then◌else◌, keep_if, All,
  All-map, All-keep_if, All-In, In, inl, inr, DistinctBy, DistinctBy-keep_if, arith,
}
use split_flap_display_web.Queue.{Queue, push}
use split_flap_display_web.Queue.Laws.{new-IsValid, push-IsValid}
use split_flap_display_web.Queue.Laws
use split_flap_display_web.Events.{Event}
use split_flap_display_web.Subscribers.{push_at, push_each, push_both}

-- Registered queues exist and are registered once; every queue is within its capacity.
pub record IsHub (subs : List ℕ) (next : ℕ) (queues : ℕ → Queue Event) : Type 0 where
  pub known : All (λ q. q < next) subs
  pub distinct : DistinctBy (λ (q : ℕ). q) subs
  pub bounded : (q : ℕ) → q < next → Laws.IsValid (queues q)

push_at-IsValid :
    (q : ℕ) (e : Event) (qs : ℕ → Queue Event) (a : ℕ)
    → Laws.IsValid (qs a)
    → Laws.IsValid (push_at q e qs a)
unfolding push_at
push_at-IsValid q e qs a v = ground (arith, push-IsValid (qs a) e v)

push_each-IsValid :
    (rs : List ℕ) (e : Event) (qs : ℕ → Queue Event) (a : ℕ)
    → Laws.IsValid (qs a)
    → Laws.IsValid (push_each rs e qs a)
unfolding push_each
push_each-IsValid [] e qs a v = v
push_each-IsValid (r ∷ rs) e qs a v =
    push_each-IsValid rs e (push_at r e qs) a (push_at-IsValid r e qs a v)

push_both-IsValid :
    (rs : List ℕ) (e f : Event) (qs : ℕ → Queue Event) (a : ℕ)
    → Laws.IsValid (qs a)
    → Laws.IsValid (push_both rs e f qs a)
unfolding push_both
push_both-IsValid [] e f qs a v = v
push_both-IsValid (r ∷ rs) e f qs a v =
    push_both-IsValid rs e f (push_at r f (push_at r e qs)) a
      (push_at-IsValid r f (push_at r e qs) a (push_at-IsValid r e qs a v))

module _ (subs : List ℕ) (next : ℕ) (qs : ℕ → Queue Event) (hub : IsHub subs next qs) where
  -- Whoever is told.
  pub push_each_to-IsHub : (rs : List ℕ) (e : Event) → IsHub subs next (push_each rs e qs)
  push_each_to-IsHub rs e = record {
    known = hub.known;
    distinct = hub.distinct;
    bounded = λ q lt. push_each-IsValid rs e qs q (hub.bounded q lt);
  }

  pub push_each-IsHub : (e : Event) → IsHub subs next (push_each subs e qs)
  push_each-IsHub = push_each_to-IsHub subs

  pub push_both-IsHub : (e f : Event) → IsHub subs next (push_both subs e f qs)
  push_both-IsHub e f = record {
    known = hub.known;
    distinct = hub.distinct;
    bounded = λ q lt. push_both-IsValid subs e f qs q (hub.bounded q lt);
  }

  fresh_differs : (l : List ℕ) → All (λ q. q < next) l → All (λ q. next ≢ q) l
  fresh_differs l a = All-map _ l (λ q lt e. absurd (omega arith)) a

  known_later : (l : List ℕ) → All (λ q. q < next) l → All (λ q. q < next + 1) l
  known_later l a = All-map _ l (λ q lt. omega arith) a

  -- A new subscriber with a queue within its capacity.
  pub subscribe-IsHub :
      (q : Queue Event)
      → Laws.IsValid q
      → IsHub (next ∷ subs) (next + 1) (λ a. if a == next then q else qs a)
  subscribe-IsHub q v = record {
    known = (omega arith, known_later subs hub.known);
    distinct = (fresh_differs subs hub.known, hub.distinct);
    bounded = λ a lt. grind (arith, hub.bounded, v);
  }

  -- A new queue that is not registered here.
  pub new_queue-IsHub :
      (q : Queue Event)
      → Laws.IsValid q
      → IsHub subs (next + 1) (λ a. if a == next then q else qs a)
  new_queue-IsHub q v = record {
    known = known_later subs hub.known;
    distinct = hub.distinct;
    bounded = λ a lt. grind (arith, hub.bounded, v);
  }

  -- The next address is not registered.
  pub next_unknown : ¬ In next subs
  next_unknown i = absurd (below (All-In (λ q. q < next) subs hub.known i))
    where
      below : next < next → ⊥
      below h = omega arith

  pub unsubscribe-IsHub : (q : ℕ) → IsHub (keep_if (λ a. not (a == q)) subs) next qs
  unsubscribe-IsHub q = record {
    known = All-keep_if _ _ subs hub.known;
    distinct = DistinctBy-keep_if _ _ subs hub.distinct;
    bounded = hub.bounded;
  }

-- A notification reaches a queue exactly once if it is registered, and not at all otherwise.
push_each_other :
    (rs : List ℕ) (e : Event) (qs : ℕ → Queue Event) (a : ℕ)
    → All (λ r. a ≢ r) rs
    → push_each rs e qs a ≡ qs a
unfolding push_each push_at
push_each_other [] e qs a n = refl
push_each_other (r ∷ rs) e qs a n =
    push_each_other rs e (push_at r e qs) a n.1 ∙ ground (arith, n.0)

push_at_self :
    (a r : ℕ) (e : Event) (qs : ℕ → Queue Event) → a ≡ r → push_at r e qs a ≡ push (qs a) e
unfolding push_at
push_at_self a r e qs p = ground arith

push_at_other : (a r : ℕ) (e : Event) (qs : ℕ → Queue Event) → a ≢ r → push_at r e qs a ≡ qs a
unfolding push_at
push_at_other a r e qs n = ground arith

push_each_registered :
    (rs : List ℕ) (e : Event) (qs : ℕ → Queue Event) (a : ℕ)
    → DistinctBy (λ (q : ℕ). q) rs
    → In a rs
    → push_each rs e qs a ≡ push (qs a) e
unfolding push_each
push_each_registered [] e qs a d i = absurd i
push_each_registered (r ∷ rs) e qs a d (inl p) =
    push_each_other rs e (push_at r e qs) a (All-map _ rs (λ q n h. n (sym p ∙ h)) d.0)
    ∙ push_at_self a r e qs p
push_each_registered (r ∷ rs) e qs a d (inr i) =
    push_each_registered rs e (push_at r e qs) a d.1 i
    ∙ ap (λ q. push q e) (push_at_other a r e qs (λ h. All-In (λ q. r ≢ q) rs d.0 i (sym h)))

pub not_In-All : (a : ℕ) (rs : List ℕ) → ¬ In a rs → All (λ r. a ≢ r) rs
not_In-All a [] n = tt
not_In-All a (r ∷ rs) n = (λ e. n (inl e), not_In-All a rs (λ i. n (inr i)))

-- A notification is pushed exactly once to every registered queue, and to no other.
pub push_each-delivers :
    (rs : List ℕ) (e : Event) (qs : ℕ → Queue Event) (a : ℕ)
    → DistinctBy (λ (q : ℕ). q) rs
    → (In a rs → push_each rs e qs a ≡ push (qs a) e) × (¬ In a rs → push_each rs e qs a ≡ qs a)
push_each-delivers rs e qs a d =
    (push_each_registered rs e qs a d, λ n. push_each_other rs e qs a (not_In-All a rs n))

push_both_other :
    (rs : List ℕ) (e f : Event) (qs : ℕ → Queue Event) (a : ℕ)
    → All (λ r. a ≢ r) rs
    → push_both rs e f qs a ≡ qs a
unfolding push_both
push_both_other [] e f qs a n = refl
push_both_other (r ∷ rs) e f qs a n =
    push_both_other rs e f (push_at r f (push_at r e qs)) a n.1
    ∙ push_at_other a r f (push_at r e qs) n.0
    ∙ push_at_other a r e qs n.0

push_both_registered :
    (rs : List ℕ) (e f : Event) (qs : ℕ → Queue Event) (a : ℕ)
    → DistinctBy (λ (q : ℕ). q) rs
    → In a rs
    → push_both rs e f qs a ≡ push (push (qs a) e) f
unfolding push_both
push_both_registered [] e f qs a d i = absurd i
push_both_registered (r ∷ rs) e f qs a d (inl p) =
    push_both_other rs e f (push_at r f (push_at r e qs)) a
      (All-map _ rs (λ q n h. n (sym p ∙ h)) d.0)
    ∙ push_at_self a r f (push_at r e qs) p
    ∙ ap (λ q. push q f) (push_at_self a r e qs p)
push_both_registered (r ∷ rs) e f qs a d (inr i) =
    let other = λ (h : a ≡ r). All-In (λ q. r ≢ q) rs d.0 i (sym h) in
    push_both_registered rs e f (push_at r f (push_at r e qs)) a d.1 i
    ∙ ap (λ q. push (push q e) f)
        (push_at_other a r f (push_at r e qs) other ∙ push_at_other a r e qs other)

-- A pair of notifications is pushed exactly once, in order, to every registered queue, and to no other.
pub push_both-delivers :
    (rs : List ℕ) (e f : Event) (qs : ℕ → Queue Event) (a : ℕ)
    → DistinctBy (λ (q : ℕ). q) rs
    → (In a rs → push_both rs e f qs a ≡ push (push (qs a) e) f)
      × (¬ In a rs → push_both rs e f qs a ≡ qs a)
push_both-delivers rs e f qs a d =
    (push_both_registered rs e f qs a d, λ n. push_both_other rs e f qs a (not_In-All a rs n))
