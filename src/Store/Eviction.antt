-- ===== src/Store/Eviction.antt =====
-- EvictCompleted.

use split_flap_display_web.Prelude.{
  ℕ, ◌+◌, ◌-◌, ◌≤◌, ◌≡◌, ◌≢◌, refl, ap, subst, ◌∙◌, inl, inr, true, false, not, List, [], ◌∷◌, Text,
  length, take, drop, length-take, keep_if, keep_if-passes, count_if, length-keep_if, All, All-take,
  All-keep_if, All-map, In, In-All, In-keep_if, In-of_keep_if, In-take-drop, DistinctBy-split,
  All-In, DistinctBy, DistinctBy-take, DistinctBy-keep_if, delete, values, delete-All, leb, min,
  Bool-cases, arith,
}
use split_flap_display_web.Prelude.Sort.{
  sort_stable, sort_stable-All, sort_stable-DistinctBy, length-sort_stable, In-sort_stable,
  sort_stable-IsAscending, IsStrictWeak, IsAscending-split,
}
use split_flap_display_web.Store.{
  Heap, Store, completed_at, active_at, older, delete_all, evict_completed, list_active,
}
use split_flap_display_web.Store.Removal.{
  without_key, without_keys, In-of_without_keys, In-without_keys, keep_if-without_keys,
  count_if-without_keys,
}
use split_flap_display_web.Store.Invariant.{
  IsStored, id_at, delete_all-All, delete_all-DistinctBy, values-DistinctBy,
}

-- The completed messages of the store.
abbrev pub completed_refs : Heap → Store → List ℕ
completed_refs h s = keep_if (completed_at h) (values s.by_id)

-- How many they are.
abbrev pub count_completed : Heap → Store → ℕ
count_completed h s = count_if (completed_at h) (values s.by_id)

-- The first `n` of them by creation time.
abbrev evicted : Heap → Store → ℕ → List ℕ
evicted h s n = take n (sort_stable (older h) (completed_refs h s))

values-delete :
    (h : Heap) (k : Text) (m : List (Text × ℕ))
    → All (λ e. id_at h e.1 ≡ e.0) m
    → values (delete k m) ≡ without_key (id_at h) k (values m)
unfolding delete
values-delete h k [] a = refl
values-delete h k (e ∷ m) a = rw a.0 (ground (arith, values-delete h k m a.1))

values-delete_all :
    (h : Heap) (rs : List ℕ) (m : List (Text × ℕ))
    → All (λ e. id_at h e.1 ≡ e.0) m
    → values (delete_all h rs m) ≡ without_keys (id_at h) rs (values m)
unfolding delete_all without_keys
values-delete_all h [] m a = refl
values-delete_all h (r ∷ rs) m a =
    values-delete_all h rs (delete (id_at h r) m) (delete-All _ (id_at h r) m a)
    ∙ ap (without_keys (id_at h) rs) (values-delete h (id_at h r) m a)

pub older-IsStrictWeak : (h : Heap) → IsStrictWeak (older h)
older-IsStrictWeak h = record {
  asymm = λ a b e. ground arith;
  trans_not = λ a b c e f. ground arith;
}

module _ (h : Heap) (s : Store) (n : ℕ) where
  evicted-In : All (λ r. In r (values s.by_id)) (evicted h s n)
  evicted-In = All-take _ n _ (
      sort_stable-All (older h) _ (completed_refs h s)
        (All-keep_if _ (completed_at h) (values s.by_id) (In-All (values s.by_id))))

  evicted-completed : All (λ r. completed_at h r ≡ true) (evicted h s n)
  evicted-completed = All-take _ n _ (
      sort_stable-All (older h) _ (completed_refs h s)
        (keep_if-passes (completed_at h) (values s.by_id)))

  evicted-not_active : All (λ r. active_at h r ≡ false) (evicted h s n)
  evicted-not_active = All-map _ (evicted h s n) (λ r e. ap not e) evicted-completed

  length-evicted : length (evicted h s n) ≡ min n (count_completed h s)
  length-evicted =
      length-take n (sort_stable (older h) (completed_refs h s))
      ∙ omega (
        arith,
        length-sort_stable (older h) (completed_refs h s),
        length-keep_if (completed_at h) (values s.by_id),
      )

  module _ (v : IsStored h s) where
    refs-DistinctBy : DistinctBy (id_at h) (values s.by_id)
    refs-DistinctBy = values-DistinctBy h s.by_id v.keyed v.distinct

    sorted-DistinctBy : DistinctBy (id_at h) (sort_stable (older h) (completed_refs h s))
    sorted-DistinctBy =
        sort_stable-DistinctBy (older h) (id_at h) (completed_refs h s)
          (DistinctBy-keep_if _ (completed_at h) (values s.by_id) refs-DistinctBy)

    evicted-DistinctBy : DistinctBy (id_at h) (evicted h s n)
    evicted-DistinctBy = DistinctBy-take (id_at h) n _ sorted-DistinctBy

    left : List ℕ
    left = without_keys (id_at h) (evicted h s n) (values s.by_id)

    left_active : keep_if (active_at h) left ≡ keep_if (active_at h) (values s.by_id)
    unfolding left
    left_active =
        keep_if-without_keys (id_at h) (active_at h) (evicted h s n) (values s.by_id)
          refs-DistinctBy evicted-DistinctBy evicted-In evicted-not_active

    left_completed :
        count_if (completed_at h) left + min n (count_completed h s) ≡ count_completed h s
    unfolding left
    left_completed = omega (
      arith,
      length-evicted,
      count_if-without_keys (id_at h) (completed_at h) (evicted h s n) (values s.by_id)
          refs-DistinctBy evicted-DistinctBy evicted-In evicted-completed,
    )

    taken_of_gone : (a : ℕ) → In a (completed_refs h s) → ¬ In a left → In a (evicted h s n)
    unfolding left
    taken_of_gone a i gone =
        elim (In-take-drop n a _ (In-sort_stable (older h) a (completed_refs h s) i)) [
          | inl t ↦ t
          | inr d ↦ absurd (
              gone (
                In-without_keys (id_at h) a (evicted h s n) (values s.by_id)
                  (In-of_keep_if (completed_at h) a (values s.by_id) i).0
                  (DistinctBy-split (id_at h) n a _ sorted-DistinctBy d)))
        ]

    dropped_of_left :
        (b : ℕ)
        → In b left
        → completed_at h b ≡ true
        → In b (drop n (sort_stable (older h) (completed_refs h s)))
    unfolding left
    dropped_of_left b i done =
        let (there, kept) = In-of_without_keys (id_at h) b (evicted h s n) (values s.by_id) i in
        elim (In-take-drop n b _ (
          In-sort_stable (older h) b (completed_refs h s)
            (In-keep_if (completed_at h) (values s.by_id) there done))) [
              | inl t ↦ absurd (All-In (λ r. id_at h b ≢ id_at h r) (evicted h s n) kept t refl)
              | inr d ↦ d
            ]

    -- A completed message that is gone is no younger than one that is left.
    left_younger :
        (a b : ℕ)
        → In a (completed_refs h s)
        → ¬ In a left
        → In b left
        → completed_at h b ≡ true
        → (h.cell a).created_at ≤ (h.cell b).created_at
    left_younger a b ia gone ib done =
        let split =
          IsAscending-split (older-IsStrictWeak h) n (sort_stable (older h) (completed_refs h s))
            (sort_stable-IsAscending (older-IsStrictWeak h) (completed_refs h s)) in
        let above = All-In _ (evicted h s n) split (taken_of_gone a ia gone) in
        let not_older : older h b a ≡ false = All-In _ _ above (dropped_of_left b ib done) in
        ground (arith, not_older)

-- What `EvictCompleted` promises of the store that it leaves.
pub record Evicts (h : Heap) (keep : ℕ) (s s' : Store) (removed : ℕ) : Type 0 where
  pub bounded : count_completed h s' ≡ min (count_completed h s) keep
  pub counted : removed + count_completed h s' ≡ count_completed h s
  pub active_kept : list_active h s' ≡ list_active h s
  pub oldest_first :
      (a b : ℕ)
      → In a (completed_refs h s)
      → ¬ In a (values s'.by_id)
      → In b (completed_refs h s')
      → (h.cell a).created_at ≤ (h.cell b).created_at
  pub valid : IsStored h s'

evict_many :
    (h : Heap) (keep n : ℕ) (s : Store)
    → IsStored h s
    → n + keep ≡ count_completed h s
    → Evicts h keep s (record { by_id = delete_all h (evicted h s n) s.by_id }) n
unfolding list_active left
evict_many h keep n s v e =
    let rest : values (delete_all h (evicted h s n) s.by_id) ≡ left h s n v =
      values-delete_all h (evicted h s n) s.by_id v.keyed in
    record {
      bounded = rw rest (omega (arith, left_completed h s n v));
      counted = rw rest (omega (arith, left_completed h s n v));
      active_kept = rw rest (left_active h s n v);
      oldest_first = λ a b i gone j.
          let (there, done) = In-of_keep_if (completed_at h) b _ j in
          left_younger h s n v a b i (subst (λ t. ¬ In a t) rest gone)
            (subst (λ t. In b t) rest there) done;
      valid = record {
        keyed = delete_all-All _ h (evicted h s n) s.by_id v.keyed;
        distinct = delete_all-DistinctBy h (evicted h s n) s.by_id v.distinct;
        allocated = delete_all-All _ h (evicted h s n) s.by_id v.allocated;
      };
    }

-- At most `keep` completed messages remain, the reported number is the number removed, the active ones
-- stay, and no completed message that is removed is younger than one that remains.
pub evict_completed-Evicts :
    (h : Heap) (keep : ℕ) (s : Store)
    → IsStored h s
    → Evicts h keep s (evict_completed h keep s).0 (evict_completed h keep s).1
unfolding evict_completed list_active
evict_completed-Evicts h keep s v = elim (Bool-cases (leb (length (completed_refs h s)) keep)) [
  | inl few ↦
      rw (few, evict_completed)
        (record {
          bounded = ground (arith, length-keep_if (completed_at h) (values s.by_id));
          counted = omega arith;
          active_kept = refl;
          oldest_first =
              λ a b i gone _. absurd (gone (In-of_keep_if (completed_at h) a (values s.by_id) i).0);
          valid = v;
        })
  | inr many ↦
      rw (many, evict_completed)
        (evict_many h keep (length (completed_refs h s) - keep) s v
          (ground (arith, length-keep_if (completed_at h) (values s.by_id))))
]
