-- ===== src/Store/Invariant.antt =====
-- The invariant of the store: each entry stands under its message's own identifier, identifiers are
-- distinct, and no pointer dangles.
use split_flap_display_web.Prelude.{
  ℕ, ◌+◌, ◌≤◌, ◌<◌, ◌≡◌, ◌≢◌, refl, sym, ◌∙◌, Bool, true, List, [], ◌∷◌, Text, length, count_if,
  count_if_mono, All, All-map, DistinctBy, insert, values, key_of, insert-All, delete-All,
  insert-DistinctBy, delete-DistinctBy, arith, length-keep_if,
}
use split_flap_display_web.Models.{Message}
use split_flap_display_web.Store.{
  Heap, Store, write, alloc, add, delete_all, active_at, list_active, count_active,
}

abbrev pub id_at : Heap → ℕ → Text
id_at h r = (h.cell r).id

pub record IsStored (h : Heap) (s : Store) : Type 0 where
  pub keyed : All (λ e. id_at h e.1 ≡ e.0) s.by_id
  pub distinct : DistinctBy key_of s.by_id
  pub allocated : All (λ e. e.1 < h.next) s.by_id

-- What the rest of the program does to the heap: identifiers of messages in use stay, and no address
-- is given back.
pub record Extends (h h' : Heap) : Type 0 where
  pub same_ids : (r : ℕ) → r < h.next → id_at h' r ≡ id_at h r
  pub grows : h.next ≤ h'.next

pub Extends-IsStored : {h h' : Heap} (s : Store) → Extends h h' → IsStored h s → IsStored h' s
Extends-IsStored {h} {h'} s x v = record {
  keyed = keyed_in s.by_id v.keyed v.allocated;
  distinct = v.distinct;
  allocated = All-map _ s.by_id (λ e lt. below e.1 lt) v.allocated;
}
  where
    below : (r : ℕ) → r < h.next → r < h'.next
    below r lt = omega (arith, x.grows)

    keyed_in :
        (m : List (Text × ℕ))
        → All (λ e. id_at h e.1 ≡ e.0) m
        → All (λ e. e.1 < h.next) m
        → All (λ e. id_at h' e.1 ≡ e.0) m
    keyed_in [] k a = tt
    keyed_in (e ∷ m) k a = (x.same_ids e.1 a.0 ∙ k.0, keyed_in m k.1 a.1)

pub write-Extends : (r : ℕ) (m : Message) (h : Heap) → m.id ≡ id_at h r → Extends h (write r m h)
unfolding write
write-Extends r m h e = record { same_ids = λ a _. ground arith; grows = omega arith }

pub alloc-Extends : (m : Message) (h : Heap) → Extends h (alloc m h).1
unfolding alloc
alloc-Extends m h = record { same_ids = λ a lt. ground arith; grows = omega arith }

pub add-IsStored :
    (h : Heap) (r : ℕ) (s : Store) → r < h.next → IsStored h s → IsStored h (add h r s)
unfolding add
add-IsStored h r s lt v = record {
  keyed = insert-All _ (id_at h r) r s.by_id refl v.keyed;
  distinct = insert-DistinctBy (id_at h r) r s.by_id v.distinct;
  allocated = insert-All _ (id_at h r) r s.by_id lt v.allocated;
}

pub delete_all-All {κ} :
    (P : Text × ℕ → Type κ) (h : Heap) (rs : List ℕ) (m : List (Text × ℕ))
    → All P m
    → All P (delete_all h rs m)
unfolding delete_all
delete_all-All P h [] m a = a
delete_all-All P h (r ∷ rs) m a = delete_all-All P h rs _ (delete-All P (id_at h r) m a)

pub delete_all-DistinctBy :
    (h : Heap) (rs : List ℕ) (m : List (Text × ℕ))
    → DistinctBy key_of m
    → DistinctBy key_of (delete_all h rs m)
unfolding delete_all
delete_all-DistinctBy h [] m d = d
delete_all-DistinctBy h (r ∷ rs) m d =
    delete_all-DistinctBy h rs _ (delete-DistinctBy (id_at h r) m d)

-- In a valid store the pointers have distinct identifiers.
pub values-DistinctBy :
    (h : Heap) (m : List (Text × ℕ))
    → All (λ e. id_at h e.1 ≡ e.0) m
    → DistinctBy key_of m
    → DistinctBy (id_at h) (values m)
values-DistinctBy h [] k d = tt
values-DistinctBy h (e ∷ m) k d = (others m k.1 d.0, values-DistinctBy h m k.1 d.1)
  where
    others :
        (l : List (Text × ℕ))
        → All (λ y. id_at h y.1 ≡ y.0) l
        → All (λ y. e.0 ≢ y.0) l
        → All (λ a. id_at h e.1 ≢ id_at h a) (values l)
    others [] kl n = tt
    others (y ∷ l) kl n = (λ q. n.0 (sym k.0 ∙ q ∙ kl.0), others l kl.1 n.1)

-- A message that is not active stays so: then the number of active messages does not grow.
pub count_active_mono :
    (h h' : Heap) (s : Store)
    → All (λ r. active_at h' r ≡ true → active_at h r ≡ true) (values s.by_id)
    → count_active h' s ≤ count_active h s
unfolding count_active
count_active_mono h h' s a = count_if_mono (active_at h') (active_at h) (values s.by_id) a

pub count_active-length : (h : Heap) (s : Store) → count_active h s ≡ length (list_active h s)
unfolding count_active list_active
count_active-length h s = sym (length-keep_if (active_at h) (values s.by_id))

count_if-insert :
    (p : ℕ → Bool) (k : Text) (r : ℕ) (m : List (Text × ℕ))
    → count_if p (values (insert k r m)) ≤ count_if p (values m) + 1
unfolding insert
count_if-insert p k r [] = ground arith
count_if-insert p k r (e ∷ m) = ground (arith, count_if-insert p k r m)

length-insert : (k : Text) (r : ℕ) (m : List (Text × ℕ)) → length (insert k r m) ≤ length m + 1
unfolding insert
length-insert k r [] = omega arith
length-insert k r (e ∷ m) = ground (arith, length-insert k r m)

pub count_active-add :
    (h : Heap) (r : ℕ) (s : Store) → count_active h (add h r s) ≤ count_active h s + 1
unfolding count_active add
count_active-add h r s = count_if-insert (active_at h) (id_at h r) r s.by_id
