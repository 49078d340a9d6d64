-- ===== src/Scheduler/Selection.antt =====
-- SelectNextMessage and QueueSnapshot: which message comes next, and the order that clients see.
use split_flap_display_web.Prelude.{
  ℕ, ◌≤◌, ◌<◌, ◌≡◌, ◌⊎◌, ◌↔◌, inl, inr, refl, sym, ap, subst, Bool, false, none, some, List, [],
  ◌∷◌, map, text_lt_asymm, text_lt_trans_not, In, In-All, All-In, DistinctBy, DistinctBy-eq, Perm,
  length, arith, ◌≢◌, ◌∙◌, true, Text, text_eq, text_eq_iff, text_lt, ne_of_text_eq, All-map,
  Pairwise, Bool-cases,
}
use split_flap_display_web.Prelude.Sort.{
  sort_stable, sort_stable-All, sort_stable-perm, sort_stable-IsAscending, IsStrictWeak,
  IsAscending, In-sort_stable, length-sort_stable,
}
use split_flap_display_web.Models.{Message, MessageDto, Zone, priority_high, priority_rank, to_dto}
use split_flap_display_web.Store.{Heap}
use split_flap_display_web.Scheduler.{
  Scheduler, active_messages, priority_sort_rank, dto_less, queue_snapshot, select_less, first,
  select_next_message,
}

-- The order of display: high priority first, then the fewest displays, then the oldest.
abbrev pub Precedes : Message → Message → Type 0
Precedes a b =
    (priority_rank b.priority < priority_rank a.priority)
    ⊎ ((priority_rank a.priority ≡ priority_rank b.priority)
        × ((a.display_count < b.display_count)
            ⊎ ((a.display_count ≡ b.display_count) × (a.created_at ≤ b.created_at))))

pub select_less-IsStrictWeak : (h : Heap) → IsStrictWeak (select_less h)
unfolding select_less
select_less-IsStrictWeak h = record {
  asymm = λ a b e. ground arith;
  trans_not = λ a b c e f. ground arith;
}

not_less-Precedes :
    (h : Heap) (a b : ℕ) → select_less h b a ≡ false → Precedes (h.cell a) (h.cell b)
unfolding select_less
not_less-Precedes h a b e = ground arith

Precedes-antisymm : (a b : Message) → Precedes a b → Precedes b a → a.created_at ≡ b.created_at
Precedes-antisymm a b p q = omega arith

module _ (h : Heap) where
  -- The head of an ascending list precedes every element.
  head-Precedes :
      (l : List ℕ) (r a : ℕ)
      → IsAscending (select_less h) l
      → first l ≡ some r
      → In a l
      → Precedes (h.cell r) (h.cell a)
  head-Precedes [] r a asc e i = absurd i
  head-Precedes (x ∷ l) r a asc e (inl p) =
      let same : x ≡ r = cc in
      subst (λ y. Precedes (h.cell y) (h.cell a)) same
        (subst (λ y. Precedes (h.cell x) (h.cell y)) (sym p) (inr (refl, inr (refl, omega arith))))
  head-Precedes (x ∷ l) r a asc e (inr i) =
      let same : x ≡ r = cc in
      subst (λ y. Precedes (h.cell y) (h.cell a)) same
        (not_less-Precedes h x a (All-In (λ y. select_less h y x ≡ false) l asc.0 i))

  first-In : (l : List ℕ) (r : ℕ) → first l ≡ some r → In r l
  first-In [] r e = cc
  first-In (x ∷ l) r e = inl (cc)

-- The selected message is active, and it precedes every active message in the order of display.
pub select_next_message-first :
    (s : Scheduler) (r : ℕ)
    → select_next_message s ≡ some r
    → In r (active_messages s)
      × ((a : ℕ) → In a (active_messages s) → Precedes (s.heap.cell r) (s.heap.cell a))
unfolding select_next_message
select_next_message-first s r e = (
  All-In (λ y. In y (active_messages s)) sorted
      (sort_stable-All less (λ y. In y (active_messages s)) (active_messages s)
        (In-All (active_messages s)))
      (first-In s.heap sorted r e),
  λ a i.
      head-Precedes s.heap sorted r a
        (sort_stable-IsAscending (select_less-IsStrictWeak s.heap) (active_messages s)) e
        (In-sort_stable less a (active_messages s) i),
)
  where
    less : ℕ → ℕ → Bool
    less = select_less s.heap

    sorted : List ℕ
    sorted = sort_stable (select_less s.heap) (active_messages s)

-- The choice does not depend on the order in which Go visits the map: two schedulers over one heap
-- that have the same active messages choose the same one, if no two were created at the same instant.
pub select_next_message_order :
    (s t : Scheduler) (r q : ℕ)
    → s.heap ≡ t.heap
    → ((a : ℕ) → In a (active_messages s) ↔ In a (active_messages t))
    → DistinctBy (λ a. (s.heap.cell a).created_at) (active_messages s)
    → select_next_message s ≡ some r
    → select_next_message t ≡ some q
    → r ≡ q
select_next_message_order s t r q heaps same d es et =
    let (ir, first_s) = select_next_message-first s r es in
    let (iq, first_t) = select_next_message-first t q et in
    let below = first_s q ((same q).1 iq) in
    let above =
      subst (λ (h : Heap). Precedes (h.cell q) (h.cell r)) (sym heaps)
        (first_t r ((same r).0 ir)) in
    DistinctBy-eq (λ a. (s.heap.cell a).created_at) r q (active_messages s) d ir ((same q).1 iq)
      (Precedes-antisymm (s.heap.cell r) (s.heap.cell q) below above)

nil_of_first : (l : List ℕ) → first l ≡ none → l ≡ []
nil_of_first [] e = refl
nil_of_first (x ∷ l) e = cc

first_sorted-none :
    (less : ℕ → ℕ → Bool) (l : List ℕ) → (first (sort_stable less l) ≡ none) ↔ (l ≡ [])
unfolding sort_stable
first_sorted-none less [] = (λ _. refl, λ _. refl)
first_sorted-none less (x ∷ l) = (
  λ e. absurd (
      omega (
        arith,
        length-sort_stable less (x ∷ l),
        ap length (nil_of_first (sort_stable less (x ∷ l)) e),
      )),
  λ e. cc,
)

-- Nothing is selected exactly when no message is active.
pub select_next_message-none :
    (s : Scheduler) → (select_next_message s ≡ none) ↔ (active_messages s ≡ [])
unfolding select_next_message
select_next_message-none s = first_sorted-none (select_less s.heap) (active_messages s)

dto_less-IsStrictWeak : IsStrictWeak dto_less
unfolding dto_less
dto_less-IsStrictWeak = record {
  asymm = λ a b e. ground (arith, text_lt_asymm a.created_at b.created_at);
  trans_not = λ a b c e f. ground (arith, text_lt_trans_not a.created_at b.created_at c.created_at);
}

-- The order that clients see: high priority before any other, then the fewest displays, then the
-- creation time whose printed form is not the greater.
abbrev pub DtoPrecedes : MessageDto → MessageDto → Type 0
DtoPrecedes a b =
    ((a.priority ≡ priority_high) × (b.priority ≢ priority_high))
    ⊎ (((a.priority ≡ priority_high) ↔ (b.priority ≡ priority_high))
        × ((a.display_count < b.display_count)
            ⊎ ((a.display_count ≡ b.display_count) × (text_lt b.created_at a.created_at ≡ false))))

then_Precedes :
    (a b : MessageDto)
    → priority_sort_rank b.priority ≡ priority_sort_rank a.priority
    → dto_less b a ≡ false
    → (a.display_count < b.display_count)
      ⊎ ((a.display_count ≡ b.display_count) × (text_lt b.created_at a.created_at ≡ false))
unfolding dto_less
then_Precedes a b e h = ground arith

high_first :
    (a b : MessageDto)
    → priority_sort_rank b.priority < priority_sort_rank a.priority
    → ¬ (dto_less b a ≡ false)
unfolding dto_less
high_first a b e h = ground arith

rank_of_high : (p : Text) → text_eq p priority_high ≡ true → priority_sort_rank p ≡ 0
unfolding priority_sort_rank
rank_of_high p e = rw e refl

rank_of_other : (p : Text) → text_eq p priority_high ≡ false → priority_sort_rank p ≡ 1
unfolding priority_sort_rank
rank_of_other p e = rw e refl

DtoPrecedes-by_rank :
    (a b : MessageDto)
    → (text_eq a.priority priority_high ≡ true) ⊎ (text_eq a.priority priority_high ≡ false)
    → (text_eq b.priority priority_high ≡ true) ⊎ (text_eq b.priority priority_high ≡ false)
    → dto_less b a ≡ false
    → DtoPrecedes a b
DtoPrecedes-by_rank a b (inl e) (inl f) h =
    let same_rank = rank_of_high b.priority f ∙ sym (rank_of_high a.priority e) in
    let high_a = (text_eq_iff a.priority priority_high).0 e in
    let high_b = (text_eq_iff b.priority priority_high).0 f in
    inr ((λ _. high_b, λ _. high_a), then_Precedes a b same_rank h)
DtoPrecedes-by_rank a b (inl e) (inr f) h =
    inl ((text_eq_iff a.priority priority_high).0 e, ne_of_text_eq b.priority priority_high f)
DtoPrecedes-by_rank a b (inr e) (inl f) h =
    absurd (high_first a b (omega (arith, rank_of_other a.priority e, rank_of_high b.priority f)) h)
DtoPrecedes-by_rank a b (inr e) (inr f) h =
    let same_rank = rank_of_other b.priority f ∙ sym (rank_of_other a.priority e) in
    let other_a = ne_of_text_eq a.priority priority_high e in
    let other_b = ne_of_text_eq b.priority priority_high f in
    inr ((λ k. absurd (other_a k), λ k. absurd (other_b k)), then_Precedes a b same_rank h)

not_less-DtoPrecedes : (a b : MessageDto) → dto_less b a ≡ false → DtoPrecedes a b
not_less-DtoPrecedes a b h =
    DtoPrecedes-by_rank a b (Bool-cases (text_eq a.priority priority_high))
      (Bool-cases (text_eq b.priority priority_high)) h

IsAscending-Pairwise : (l : List MessageDto) → IsAscending dto_less l → Pairwise DtoPrecedes l
IsAscending-Pairwise [] h = tt
IsAscending-Pairwise (x ∷ l) h =
    (All-map _ l (λ y e. not_less-DtoPrecedes x y e) h.0, IsAscending-Pairwise l h.1)

-- The queue that clients see is a rearrangement of the active messages, in which every message
-- precedes all that stand behind it: one of high priority those of other priorities, and of two that
-- are both of high priority or both not, the one that has been shown less often, or if there is none
-- the one whose printed creation time is not the greater.
pub queue_snapshot-sorted :
    (z : Zone) (s : Scheduler)
    → Perm (queue_snapshot z s) (map (λ r. to_dto z (s.heap.cell r)) (active_messages s))
      × Pairwise DtoPrecedes (queue_snapshot z s)
unfolding queue_snapshot
queue_snapshot-sorted z s =
    let less = sort_stable-IsAscending dto_less-IsStrictWeak _ in
    (sort_stable-perm dto_less _, IsAscending-Pairwise _ less)
