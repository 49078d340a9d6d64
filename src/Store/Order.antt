-- ===== src/Store/Order.antt =====
-- The order in which Go visits the map: none is specified, and it may be another at each visit.
use split_flap_display_web.Prelude.{
  ℕ, zero, suc, ◌≡◌, ◌≢◌, ◌⊎◌, refl, sym, ap, ◌∙◌, inl, inr, Bool, true, false, Option, some, List,
  [], ◌∷◌, Text, text_eq, text_eq_iff, if◌then◌else◌, length, count_if, All, DistinctBy, In, lookup,
  values, key_of, arith, Bool-cases,
}
use split_flap_display_web.Store.{Heap, Store, count_active}
use split_flap_display_web.Store.Invariant.{IsStored}

-- Entries `n` and `n + 1` change places. Any order comes from another by such changes.
unfoldable pub swap_at {ℓ} : {A : Type ℓ} → ℕ → List A → List A
swap_at n [] = []
swap_at zero (x ∷ []) = x ∷ []
swap_at zero (x ∷ y ∷ l) = y ∷ x ∷ l
swap_at (suc n) (x ∷ l) = x ∷ swap_at n l

swap_at-All {ℓ κ} :
    {A : Type ℓ} (P : A → Type κ) (n : ℕ) (l : List A) → All P l → All P (swap_at n l)
unfolding swap_at
swap_at-All P n [] h = tt
swap_at-All P zero (x ∷ []) h = h
swap_at-All P zero (x ∷ y ∷ l) (p, (q, h)) = (q, (p, h))
swap_at-All P (suc n) (x ∷ l) h = (h.0, swap_at-All P n l h.1)

swap_at-DistinctBy :
    (n : ℕ) (m : List (Text × ℕ)) → DistinctBy key_of m → DistinctBy key_of (swap_at n m)
unfolding swap_at
swap_at-DistinctBy n [] d = tt
swap_at-DistinctBy zero (x ∷ []) d = d
swap_at-DistinctBy zero (x ∷ y ∷ l) d = ((λ e. d.0.0 (sym e), d.1.0), (d.0.1, d.1.1))
swap_at-DistinctBy (suc n) (x ∷ l) d =
    (swap_at-All (λ y. key_of x ≢ key_of y) n l d.0, swap_at-DistinctBy n l d.1)

pub length-swap_at {ℓ} : {A : Type ℓ} (n : ℕ) (l : List A) → length (swap_at n l) ≡ length l
unfolding swap_at
length-swap_at n [] = refl
length-swap_at zero (x ∷ []) = refl
length-swap_at zero (x ∷ y ∷ l) = refl
length-swap_at (suc n) (x ∷ l) = omega (arith, length-swap_at n l)

count_if-swap_at :
    (p : ℕ → Bool) (n : ℕ) (m : List (Text × ℕ))
    → count_if p (values (swap_at n m)) ≡ count_if p (values m)
unfolding swap_at
count_if-swap_at p n [] = refl
count_if-swap_at p zero (x ∷ []) = refl
count_if-swap_at p zero (x ∷ y ∷ l) = ground arith
count_if-swap_at p (suc n) (x ∷ l) = ground (arith, count_if-swap_at p n l)

first_of_two :
    (k : Text) (x y : Text × ℕ) (l : List (Text × ℕ))
    → x.0 ≢ y.0
    → (text_eq x.0 k ≡ true) ⊎ (text_eq x.0 k ≡ false)
    → (text_eq y.0 k ≡ true) ⊎ (text_eq y.0 k ≡ false)
    → lookup k (y ∷ x ∷ l) ≡ lookup k (x ∷ y ∷ l)
unfolding lookup
first_of_two k x y l n (inl e) (inl f) =
    absurd (n ((text_eq_iff x.0 k).0 e ∙ sym ((text_eq_iff y.0 k).0 f)))
first_of_two k x y l n (inl e) (inr f) = rw (e, f) refl
first_of_two k x y l n (inr e) (inl f) = rw (e, f) refl
first_of_two k x y l n (inr e) (inr f) = rw (e, f) refl

lookup-swap_at :
    (k : Text) (n : ℕ) (m : List (Text × ℕ))
    → DistinctBy key_of m
    → lookup k (swap_at n m) ≡ lookup k m
unfolding swap_at lookup
lookup-swap_at k n [] d = refl
lookup-swap_at k zero (x ∷ []) d = refl
lookup-swap_at k zero (x ∷ y ∷ l) d =
    first_of_two k x y l d.0.0 (Bool-cases (text_eq x.0 k)) (Bool-cases (text_eq y.0 k))
lookup-swap_at k (suc n) (x ∷ l) d =
    ap (λ (o : Option ℕ). if text_eq x.0 k then some x.1 else o) (lookup-swap_at k n l d.1)

-- One change after another.
unfoldable pub swaps : List ℕ → List (Text × ℕ) → List (Text × ℕ)
swaps [] m = m
swaps (n ∷ ns) m = swaps ns (swap_at n m)

pub lookup-swaps :
    (k : Text) (ns : List ℕ) (m : List (Text × ℕ))
    → DistinctBy key_of m
    → lookup k (swaps ns m) ≡ lookup k m
unfolding swaps
lookup-swaps k [] m d = refl
lookup-swaps k (n ∷ ns) m d =
    lookup-swaps k ns (swap_at n m) (swap_at-DistinctBy n m d) ∙ lookup-swap_at k n m d

In-swap_at : (a n : ℕ) (m : List (Text × ℕ)) → In a (values m) → In a (values (swap_at n m))
unfolding swap_at
In-swap_at a n [] i = i
In-swap_at a zero (x ∷ []) i = i
In-swap_at a zero (x ∷ y ∷ l) (inl e) = inr (inl e)
In-swap_at a zero (x ∷ y ∷ l) (inr (inl e)) = inl e
In-swap_at a zero (x ∷ y ∷ l) (inr (inr i)) = inr (inr i)
In-swap_at a (suc n) (x ∷ l) (inl e) = inl e
In-swap_at a (suc n) (x ∷ l) (inr i) = inr (In-swap_at a n l i)

pub In-swaps :
    (a : ℕ) (ns : List ℕ) (m : List (Text × ℕ)) → In a (values m) → In a (values (swaps ns m))
unfolding swaps
In-swaps a [] m i = i
In-swaps a (n ∷ ns) m i = In-swaps a ns (swap_at n m) (In-swap_at a n m i)

abbrev pub reordered : ℕ → Store → Store
reordered n s = record { by_id = swap_at n s.by_id }

pub reordered-IsStored : (n : ℕ) (h : Heap) (s : Store) → IsStored h s → IsStored h (reordered n s)
reordered-IsStored n h s v = record {
  keyed = swap_at-All _ n s.by_id v.keyed;
  distinct = swap_at-DistinctBy n s.by_id v.distinct;
  allocated = swap_at-All _ n s.by_id v.allocated;
}

pub count_active-reordered :
    (n : ℕ) (h : Heap) (s : Store) → count_active h (reordered n s) ≡ count_active h s
unfolding count_active
count_active-reordered n h s = count_if-swap_at _ n s.by_id
