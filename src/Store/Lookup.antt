-- ===== src/Store/Lookup.antt =====
-- Finding messages in the store, and the active messages after an addition.
use split_flap_display_web.Prelude.{
  ℕ, ◌≡◌, ◌≢◌, refl, sym, ap, ◌∙◌, Bool, true, Option, none, some, List, [], ◌∷◌, Text, text_eq,
  keep_if, All, All-In, In, inl, inr, text_eq_iff, text_eq_of_ne, Bool-cases, ◌++◌, DistinctBy,
  lookup, insert, values, key_of, arith,
}
use split_flap_display_web.Store.{Heap, Store, add, active_at, list_active}
use split_flap_display_web.Store.Invariant.{id_at, values-DistinctBy}

-- A pointer that the store holds is found under its message's identifier.
pub lookup-of_In :
    (h : Heap) (r : ℕ) (m : List (Text × ℕ))
    → All (λ e. id_at h e.1 ≡ e.0) m
    → DistinctBy key_of m
    → In r (values m)
    → lookup (id_at h r) m ≡ some r
unfolding lookup
lookup-of_In h r [] k d i = absurd i
lookup-of_In h r (e ∷ m) k d (inl p) =
    rw ((text_eq_iff e.0 (id_at h r)).1 (sym k.0 ∙ ap (id_at h) (sym p))) (ap some (sym p))
lookup-of_In h r (e ∷ m) k d (inr i) =
    let other : e.0 ≢ id_at h r = λ q.
      All-In (λ b. id_at h e.1 ≢ id_at h b) (values m) (values-DistinctBy h (e ∷ m) k d).0 i
        (k.0 ∙ q) in
    rw (text_eq_of_ne e.0 (id_at h r) other) (lookup-of_In h r m k.1 d.1 i)

values-insert_fresh :
    (id : Text) (r : ℕ) (m : List (Text × ℕ))
    → lookup id m ≡ none
    → values (insert id r m) ≡ values m ++ r ∷ []
unfolding lookup insert
values-insert_fresh id r [] q = refl
values-insert_fresh id r (e ∷ m) q = elim (Bool-cases (text_eq e.0 id)) [
  | inl same ↦ absurd (some_ne_none (rw same at q))
  | inr other ↦ rw other (ap (◌∷◌ e.1) (values-insert_fresh id r m (rw other at q)))
]
  where
    some_ne_none : ◌≡◌ {A = Option ℕ} (some e.1) none → ⊥
    some_ne_none p = cc

keep_if-append :
    (p : ℕ → Bool) (xs ys : List ℕ) → keep_if p (xs ++ ys) ≡ keep_if p xs ++ keep_if p ys
keep_if-append p [] ys = refl
keep_if-append p (x ∷ xs) ys = ground (arith, keep_if-append p xs ys)

-- A new active message comes after the active messages that there are.
pub list_active-add :
    (h : Heap) (r : ℕ) (s : Store)
    → lookup (id_at h r) s.by_id ≡ none
    → active_at h r ≡ true
    → list_active h (add h r s) ≡ list_active h s ++ r ∷ []
unfolding list_active add
list_active-add h r s q e =
    ap (keep_if (active_at h)) (values-insert_fresh (id_at h r) r s.by_id q)
    ∙ keep_if-append (active_at h) (values s.by_id) (r ∷ [])
    ∙ rw e

keep_if_agree :
    (p q : ℕ → Bool) (xs : List ℕ) → All (λ x. p x ≡ q x) xs → keep_if p xs ≡ keep_if q xs
keep_if_agree p q [] a = refl
keep_if_agree p q (x ∷ xs) a = ground (arith, a.0, keep_if_agree p q xs a.1)

-- The active messages are the same in a heap that agrees on them.
pub list_active_agree :
    (h h' : Heap) (s : Store)
    → All (λ a. active_at h' a ≡ active_at h a) (values s.by_id)
    → list_active h' s ≡ list_active h s
unfolding list_active
list_active_agree h h' s a = keep_if_agree (active_at h') (active_at h) (values s.by_id) a
