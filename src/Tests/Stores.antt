-- ===== src/Tests/Stores.antt =====
-- The store's theorems at concrete inputs.
use split_flap_display_web.Prelude.{ℕ, ◌-◌, ◌≢◌, refl, List, [], ◌∷◌, arith}
use split_flap_display_web.Store.{Heap, Store, evict_completed}
use split_flap_display_web.Store.Invariant.{IsStored}
use split_flap_display_web.Store.Eviction.{Evicts, evict_completed-Evicts}
use split_flap_display_web.Tests.{no_message}

-- Three completed messages, the later address the older.
abbrev three : Heap
three = record { cell = λ a. record no_message { id = a ∷ []; created_at = 10 - a }; next = 3 }

abbrev all_three : Store
all_three = record { by_id = (0 ∷ [], 0) ∷ (1 ∷ [], 1) ∷ (2 ∷ [], 2) ∷ [] }

differ : (a b : ℕ) → a ≢ b → ◌≢◌ {A = List ℕ} (a ∷ []) (b ∷ [])
differ a b h e = ground (arith)

all_three-IsStored : IsStored three all_three
all_three-IsStored = record {
  keyed = (refl, (refl, (refl, tt)));
  distinct = (
    (differ 0 1 (omega arith), (differ 0 2 (omega arith), tt)),
    ((differ 1 2 (omega arith), tt), (tt, tt)),
  );
  allocated = (omega arith, (omega arith, (omega arith, tt)));
}

evict_completed-Evicts_example :
    Evicts three 1 all_three
      (evict_completed three 1 all_three).0
      (evict_completed three 1 all_three).1
evict_completed-Evicts_example = evict_completed-Evicts three 1 all_three all_three-IsStored
