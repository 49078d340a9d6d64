-- ===== src/Store.antt =====
-- backend-go/internal/store/store.go: the map from identifiers to messages.
--
-- The map holds pointers, which the scheduler's `current` shares, so messages live in an explicit heap
-- and a pointer is a number. The mutex makes each method one step, and so is a function here.
-- `EvictCompleted` sorts with `sort.Slice`, which leaves the order of equal creation times open; the
-- model sorts stably, and the theorems speak of creation times only. It is called with a limit that is
-- not negative, and is modelled for those.
--
-- Go visits a map in no specified order, and in another at every visit. The list of the entries stands
-- for the order of a visit: a theorem about every store is about every order, and between the steps of
-- the scheduler Order changes it at will.
pub mod Removal
pub mod Invariant
pub mod Eviction
pub mod Lookup
pub mod Order
use split_flap_display_web.Prelude.{
  ℕ, zero, suc, ◌+◌, ◌-◌, Bool, true, false, not, Option, none, some, List, [], ◌∷◌, Text, leb, ltb,
  ◌==◌, if◌then◌else◌, length, take, keep_if, count_if, lookup, insert, delete, values,
}
use split_flap_display_web.Prelude.Sort.{sort_stable}
use split_flap_display_web.Models.{Message, is_completed, mark_completed}

pub record Heap : Type 0 where
  pub cell : ℕ → Message
  -- The first address that is not in use.
  pub next : ℕ

unfoldable pub write : ℕ → Message → Heap → Heap
write r m h = record h { cell = λ a. if a == r then m else h.cell a }

unfoldable pub alloc : Message → Heap → ℕ × Heap
alloc m h = (h.next, record { cell = λ a. if a == h.next then m else h.cell a; next = h.next + 1 })

pub record Store : Type 0 where
  pub by_id : List (Text × ℕ)

abbrev pub empty : Store
empty = record { by_id = [] }

unfoldable pub add : Heap → ℕ → Store → Store
add h r s = record { by_id = insert (h.cell r).id r s.by_id }

unfoldable pub get : Text → Store → Option ℕ
get id s = lookup id s.by_id

unfoldable pub list_all : Store → List ℕ
list_all s = values s.by_id

abbrev pub completed_at : Heap → ℕ → Bool
completed_at h r = is_completed (h.cell r)

abbrev pub active_at : Heap → ℕ → Bool
active_at h r = not (is_completed (h.cell r))

-- In the order in which the map is visited.
unfoldable pub list_active : Heap → Store → List ℕ
list_active h s = keep_if (active_at h) (values s.by_id)

unfoldable pub count_active : Heap → Store → ℕ
count_active h s = count_if (active_at h) (values s.by_id)

-- `a.CreatedAt.Before(b.CreatedAt)`
abbrev pub older : Heap → ℕ → ℕ → Bool
older h a b = ltb (h.cell a).created_at (h.cell b).created_at

unfoldable pub delete_all : Heap → List ℕ → List (Text × ℕ) → List (Text × ℕ)
delete_all h [] m = m
delete_all h (r ∷ rs) m = delete_all h rs (delete (h.cell r).id m)

unfoldable pub evict_completed : Heap → ℕ → Store → Store × ℕ
evict_completed h max_keep s =
    let completed = keep_if (completed_at h) (values s.by_id) in
    let to_remove = length completed - max_keep in
    if leb (length completed) max_keep then (s, 0) else (
      record { by_id = delete_all h (take to_remove (sort_stable (older h) completed)) s.by_id },
      to_remove,
    )

unfoldable pub update_found : (Message → Message) → Option ℕ → Heap → Heap × Bool
update_found f none h = (h, false)
update_found f (some r) h = (write r (f (h.cell r)) h, true)

unfoldable pub update : Text → (Message → Message) → Store → Heap → Heap × Bool
unfolding update_found write
update id f s h = update_found f (lookup id s.by_id) h

-- `Store.MarkCompleted`
unfoldable pub mark_completed_by_id : Text → Store → Heap → Heap × Bool
unfolding update_found write
mark_completed_by_id id s h = update_found mark_completed (lookup id s.by_id) h
