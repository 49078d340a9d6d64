-- ===== src/Prelude/Sort.antt =====
-- Go's `sort.SliceStable`. A stable sort by a strict weak order has one result; insertion computes
-- it.
use split_flap_display_web.Prelude.Tests.{if◌then◌else◌}
use split_flap_display_web.Prelude.Predicates.{All, In, DistinctBy, All-map, All-drop}
use split_flap_display_web.Prelude.Lists.{take, drop, length}
use Prim.Native.Nat.{ℕ, zero, suc}
use mathlib.Core.Path.{◌≡◌, refl, sym}
use mathlib.Core.Logic.{◌≢◌}
use mathlib.Core.Bool.{Bool, true, false}
use mathlib.Core.List.{List, [], ◌∷◌, Perm}
use mathlib.Core.List.Perm
use native.Mathlib.Omega.{arith}
use split_flap_display_web.Prelude.Tests.{Bool-cases}
use mathlib.Core.Logic.{inl, inr}

module _ {ℓ} {A : Type ℓ} (less : A → A → Bool) where
  unfoldable pub insert_stable : A → List A → List A
  insert_stable x [] = x ∷ []
  insert_stable x (y ∷ ys) = if less y x then y ∷ insert_stable x ys else x ∷ y ∷ ys

  unfoldable pub sort_stable : List A → List A
  unfolding insert_stable
  sort_stable [] = []
  sort_stable (x ∷ xs) = insert_stable x (sort_stable xs)

  -- What `sort` asks of `less`: a strict weak order.
  pub record IsStrictWeak : Type ℓ where
    pub asymm : (a b : A) → less a b ≡ true → less b a ≡ false
    pub trans_not : (a b c : A) → less b a ≡ false → less c b ≡ false → less c a ≡ false

  -- No later element is less than an earlier one.
  abbrev pub IsAscending : List A → Type 0
  IsAscending [] = Unit
  IsAscending (x ∷ xs) = All (λ y. less y x ≡ false) xs × IsAscending xs

module _ {ℓ} {A : Type ℓ} (less : A → A → Bool) where
  insert_stable-perm : (x : A) (ys : List A) → Perm (insert_stable less x ys) (x ∷ ys)
  unfolding insert_stable
  insert_stable-perm x [] = Perm.rfl
  insert_stable-perm x (y ∷ ys) = elim (Bool-cases (less y x)) [
    | inl e ↦
        rw (e, insert_stable)
          (Perm.trans (Perm.cons y (insert_stable-perm x ys)) (Perm.swap x y ys))
    | inr e ↦ rw (e, insert_stable) Perm.rfl
  ]

  pub sort_stable-perm : (xs : List A) → Perm (sort_stable less xs) xs
  unfolding sort_stable
  sort_stable-perm [] = Perm.rfl
  sort_stable-perm (x ∷ xs) =
      Perm.trans (insert_stable-perm x (sort_stable less xs)) (Perm.cons x (sort_stable-perm xs))

  insert_stable-All {κ} :
      (P : A → Type κ) (x : A) (ys : List A) → P x → All P ys → All P (insert_stable less x ys)
  unfolding insert_stable
  insert_stable-All P x [] p h = (p, tt)
  insert_stable-All P x (y ∷ ys) p h = ground (arith, insert_stable-All P x ys)

  pub sort_stable-All {κ} : (P : A → Type κ) (xs : List A) → All P xs → All P (sort_stable less xs)
  unfolding sort_stable
  sort_stable-All P [] h = tt
  sort_stable-All P (x ∷ xs) h =
      insert_stable-All P x (sort_stable less xs) h.0 (sort_stable-All P xs h.1)

  insert_stable-DistinctBy {κ} :
      {B : Type κ} (f : A → B) (x : A) (ys : List A)
      → All (λ y. f x ≢ f y) ys
      → DistinctBy f ys
      → DistinctBy f (insert_stable less x ys)
  unfolding insert_stable
  insert_stable-DistinctBy f x [] h d = (tt, tt)
  insert_stable-DistinctBy f x (y ∷ ys) h d = elim (Bool-cases (less y x)) [
    | inl e ↦
        rw (e, insert_stable)
          (
            insert_stable-All (λ z. f y ≢ f z) x ys (λ p. h.0 (sym p)) d.0,
            insert_stable-DistinctBy f x ys h.1 d.1,
          )
    | inr e ↦ rw (e, insert_stable) (h, d)
  ]

  pub sort_stable-DistinctBy {κ} :
      {B : Type κ} (f : A → B) (xs : List A) → DistinctBy f xs → DistinctBy f (sort_stable less xs)
  unfolding sort_stable
  sort_stable-DistinctBy f [] d = tt
  sort_stable-DistinctBy f (x ∷ xs) d =
      insert_stable-DistinctBy f x (sort_stable less xs) (sort_stable-All (λ y. f x ≢ f y) xs d.0)
        (sort_stable-DistinctBy f xs d.1)

module _ {ℓ} {A : Type ℓ} {less : A → A → Bool} (w : IsStrictWeak less) where
  below_of_head :
      (x y : A) (ys : List A)
      → less y x ≡ false
      → All (λ z. less z y ≡ false) ys
      → All (λ z. less z x ≡ false) ys
  below_of_head x y ys h = All-map _ ys (λ z k. w.trans_not x y z h k)

  insert_stable-IsAscending :
      (x : A) (ys : List A) → IsAscending less ys → IsAscending less (insert_stable less x ys)
  unfolding insert_stable
  insert_stable-IsAscending x [] h = (tt, tt)
  insert_stable-IsAscending x (y ∷ ys) h = elim (Bool-cases (less y x)) [
    | inl e ↦
        rw (e, insert_stable)
          (
            insert_stable-All less (λ z. less z y ≡ false) x ys (w.asymm y x e) h.0,
            insert_stable-IsAscending x ys h.1,
          )
    | inr e ↦ rw (e, insert_stable) ((e, below_of_head x y ys e h.0), h)
  ]

  -- Sorting by a strict weak order gives an ascending list.
  pub sort_stable-IsAscending : (xs : List A) → IsAscending less (sort_stable less xs)
  unfolding sort_stable
  sort_stable-IsAscending [] = tt
  sort_stable-IsAscending (x ∷ xs) =
      insert_stable-IsAscending x (sort_stable less xs) (sort_stable-IsAscending xs)

  -- In an ascending list what is taken is not above what is left.
  pub IsAscending-split :
      (n : ℕ) (xs : List A)
      → IsAscending less xs
      → All (λ a. All (λ b. less b a ≡ false) (drop n xs)) (take n xs)
  IsAscending-split zero xs h = tt
  IsAscending-split (suc n) [] h = tt
  IsAscending-split (suc n) (x ∷ xs) h = (All-drop _ n xs h.0, IsAscending-split n xs h.1)

module _ {A : Type 0} (less : A → A → Bool) where
  In-insert_stable : (a x : A) (ys : List A) → In a (x ∷ ys) → In a (insert_stable less x ys)
  unfolding insert_stable
  In-insert_stable a x [] i = i
  In-insert_stable a x (y ∷ ys) i = elim (Bool-cases (less y x)) [
    | inl e ↦
        rw (e, insert_stable)
          (elim i [
            | inl here ↦ inr (In-insert_stable a x ys (inl here))
            | inr (inl second) ↦ inl second
            | inr (inr later) ↦ inr (In-insert_stable a x ys (inr later))
          ])
    | inr e ↦ rw (e, insert_stable) i
  ]

  pub In-sort_stable : (a : A) (xs : List A) → In a xs → In a (sort_stable less xs)
  unfolding sort_stable
  In-sort_stable a [] i = i
  In-sort_stable a (x ∷ xs) (inl e) = In-insert_stable a x (sort_stable less xs) (inl e)
  In-sort_stable a (x ∷ xs) (inr i) =
      In-insert_stable a x (sort_stable less xs) (inr (In-sort_stable a xs i))

  length-insert_stable : (x : A) (ys : List A) → length (insert_stable less x ys) ≡ suc (length ys)
  unfolding insert_stable
  length-insert_stable x [] = refl
  length-insert_stable x (y ∷ ys) = ground (arith, length-insert_stable x ys)

  pub length-sort_stable : (xs : List A) → length (sort_stable less xs) ≡ length xs
  unfolding sort_stable
  length-sort_stable [] = refl
  length-sort_stable (x ∷ xs) =
      omega (arith, length-insert_stable x (sort_stable less xs), length-sort_stable xs)
