-- ===== src/Prelude/Predicates.antt =====
-- Predicates on lists by recursion: they compute to tuples, which the tactics read and build.
use Prim.Native.Nat.{ℕ, zero, suc, ◌≤◌}
use mathlib.Core.Path.{◌≡◌, refl, sym, ap, subst, ◌∙◌}
use mathlib.Core.Logic.{◌≢◌, ◌⊎◌, inl, inr}
use mathlib.Core.Bool.{Bool, true}
use mathlib.Core.List.{List, [], ◌∷◌, ◌++◌, Mem, not-mem-nil, eq-or-mem_of_mem-cons}
use mathlib.Core.Logic.Or
use native.Mathlib.Omega.{arith}
use split_flap_display_web.Prelude.Tests.{Bool-cases}
use split_flap_display_web.Prelude.Lists.{take, drop, keep_if, count_if}

module _ {ℓ} {A : Type ℓ} where
  abbrev pub All {κ} : (A → Type κ) → List A → Type κ
  All P [] = Unit
  All P (x ∷ xs) = P x × All P xs

  -- No two elements have the same image.
  abbrev pub DistinctBy {κ} : {B : Type κ} → (A → B) → List A → Type κ
  DistinctBy f [] = Unit
  DistinctBy f (x ∷ xs) = All (λ y. f x ≢ f y) xs × DistinctBy f xs

  -- Each element is in the relation to all that stand behind it.
  abbrev pub Pairwise {κ} : (A → A → Type κ) → List A → Type κ
  Pairwise R [] = Unit
  Pairwise R (x ∷ xs) = All (λ y. R x y) xs × Pairwise R xs

-- Membership as a sum, which may be taken apart into data.
abbrev pub In : {A : Type 0} → A → List A → Type 0
In a [] = ⊥
In a (x ∷ xs) = (a ≡ x) ⊎ In a xs

module _ {ℓ κ} {A : Type ℓ} (P : A → Type κ) where
  pub All-append : (xs ys : List A) → All P xs → All P ys → All P (xs ++ ys)
  All-append [] ys hx hy = hy
  All-append (x ∷ xs) ys hx hy = (hx.0, All-append xs ys hx.1 hy)

  pub All-take : (n : ℕ) (xs : List A) → All P xs → All P (take n xs)
  All-take zero xs h = tt
  All-take (suc n) [] h = tt
  All-take (suc n) (x ∷ xs) h = (h.0, All-take n xs h.1)

  pub All-drop : (n : ℕ) (xs : List A) → All P xs → All P (drop n xs)
  All-drop zero xs h = h
  All-drop (suc n) [] h = tt
  All-drop (suc n) (x ∷ xs) h = All-drop n xs h.1

  pub All-keep_if : (p : A → Bool) (xs : List A) → All P xs → All P (keep_if p xs)
  All-keep_if p [] h = tt
  All-keep_if p (x ∷ xs) h = ground (arith, All-keep_if p xs h.1)

  pub All-intro : (xs : List A) → ((x : A) → P x) → All P xs
  All-intro [] h = tt
  All-intro (x ∷ xs) h = (h x, All-intro xs h)

  pub All-map {μ} : {Q : A → Type μ} (xs : List A) → ((x : A) → P x → Q x) → All P xs → All Q xs
  All-map [] f h = tt
  All-map (x ∷ xs) f h = (f x h.0, All-map xs f h.1)

  -- The library's `Mem` is a proposition, so it is used at one.
  pub All-mem : ((x : A) → IsProp (P x)) → {a : A} (xs : List A) → All P xs → Mem a xs → P a
  All-mem prop [] h m = absurd (not-mem-nil m)
  All-mem prop {a} (x ∷ xs) h m =
      Or.elim (prop a) (eq-or-mem_of_mem-cons m) (λ e. rw e h.0) (All-mem prop xs h.1)

-- What passes the test passes the test.
pub keep_if-passes {ℓ} :
    {A : Type ℓ} (p : A → Bool) (xs : List A) → All (λ x. p x ≡ true) (keep_if p xs)
keep_if-passes p [] = tt
keep_if-passes p (x ∷ xs) = ground (arith, keep_if-passes p xs)

module _ {ℓ κ} {A : Type ℓ} {B : Type κ} (f : A → B) where
  pub DistinctBy-take : (n : ℕ) (xs : List A) → DistinctBy f xs → DistinctBy f (take n xs)
  DistinctBy-take zero xs h = tt
  DistinctBy-take (suc n) [] h = tt
  DistinctBy-take (suc n) (x ∷ xs) h =
      (All-take (λ y. f x ≢ f y) n xs h.0, DistinctBy-take n xs h.1)

  pub DistinctBy-keep_if :
      (p : A → Bool) (xs : List A) → DistinctBy f xs → DistinctBy f (keep_if p xs)
  DistinctBy-keep_if p [] h = tt
  DistinctBy-keep_if p (x ∷ xs) h =
      ground (arith, All-keep_if (λ y. f x ≢ f y) p xs h.0, DistinctBy-keep_if p xs h.1)

-- A test that fewer elements pass has a smaller count.
pub count_if_mono {ℓ} :
    {A : Type ℓ} (p q : A → Bool) (xs : List A)
    → All (λ x. p x ≡ true → q x ≡ true) xs
    → count_if p xs ≤ count_if q xs
count_if_mono p q [] h = omega arith
count_if_mono p q (x ∷ xs) h = ground (arith, h.0, count_if_mono p q xs h.1)

module _ {A : Type 0} where
  pub All-In {κ} : (P : A → Type κ) {a : A} (xs : List A) → All P xs → In a xs → P a
  All-In P [] h i = absurd i
  All-In P (x ∷ xs) h (inl e) = rw e h.0
  All-In P (x ∷ xs) h (inr i) = All-In P xs h.1 i

  pub In-All : (xs : List A) → All (λ a. In a xs) xs
  In-All [] = tt
  In-All (x ∷ xs) = (inl refl, All-map (λ a. In a xs) xs (λ a i. inr i) (In-All xs))

  pub In-keep_if : (p : A → Bool) {a : A} (xs : List A) → In a xs → p a ≡ true → In a (keep_if p xs)
  In-keep_if p [] i e = absurd i
  In-keep_if p {a} (x ∷ xs) (inl h) e = rw (subst (λ (y : A). p y ≡ true) h e) (inl h)
  In-keep_if p (x ∷ xs) (inr i) e = ground (arith, In-keep_if p xs i e)

  pub In-of_keep_if :
      (p : A → Bool) (a : A) (xs : List A) → In a (keep_if p xs) → In a xs × (p a ≡ true)
  In-of_keep_if p a [] i = absurd i
  In-of_keep_if p a (x ∷ xs) i = elim (Bool-cases (p x)) [
    | inl e ↦ head_kept (In-of_keep_if p a xs) e (rw e at i)
    | inr e ↦ let (j, q) = In-of_keep_if p a xs (rw e at i) in (inr j, q)
  ]
    where
      head_kept :
          (In a (keep_if p xs) → In a xs × (p a ≡ true))
          → p x ≡ true
          → In a (x ∷ keep_if p xs)
          → In a (x ∷ xs) × (p a ≡ true)
      head_kept rest e (inl h) = (inl h, subst (λ (y : A). p y ≡ true) (sym h) e)
      head_kept rest e (inr j) = let (k, q) = rest j in (inr k, q)

  pub In-take-drop : (n : ℕ) (a : A) (xs : List A) → In a xs → In a (take n xs) ⊎ In a (drop n xs)
  In-take-drop zero a xs i = inr i
  In-take-drop (suc n) a [] i = absurd i
  In-take-drop (suc n) a (x ∷ xs) (inl e) = inl (inl e)
  In-take-drop (suc n) a (x ∷ xs) (inr i) = elim (In-take-drop n a xs i) [
    | inl t ↦ inl (inr t)
    | inr d ↦ inr d
  ]

  In-of_drop : (n : ℕ) (a : A) (xs : List A) → In a (drop n xs) → In a xs
  In-of_drop zero a xs i = i
  In-of_drop (suc n) a [] i = absurd i
  In-of_drop (suc n) a (x ∷ xs) i = inr (In-of_drop n a xs i)

  -- What is left has other images than what is taken.
  pub DistinctBy-split {κ} :
      {B : Type κ} (f : A → B) (n : ℕ) (b : A) (xs : List A)
      → DistinctBy f xs
      → In b (drop n xs)
      → All (λ r. f b ≢ f r) (take n xs)
  DistinctBy-split f zero b xs d i = tt
  DistinctBy-split f (suc n) b [] d i = absurd i
  DistinctBy-split f (suc n) b (x ∷ xs) d i = (
    λ e. All-In (λ y. f x ≢ f y) xs d.0 (In-of_drop n b xs i) (sym e),
    DistinctBy-split f n b xs d.1 i,
  )

  -- Elements with one image are one.
  pub DistinctBy-eq {κ} :
      {B : Type κ} (f : A → B) (a b : A) (xs : List A)
      → DistinctBy f xs
      → In a xs
      → In b xs
      → f a ≡ f b
      → a ≡ b
  DistinctBy-eq f a b [] d i j e = absurd i
  DistinctBy-eq f a b (x ∷ xs) d (inl p) (inl q) e = p ∙ sym q
  DistinctBy-eq f a b (x ∷ xs) d (inl p) (inr j) e =
      absurd (All-In (λ y. f x ≢ f y) xs d.0 j (ap f (sym p) ∙ e))
  DistinctBy-eq f a b (x ∷ xs) d (inr i) (inl q) e =
      absurd (All-In (λ y. f x ≢ f y) xs d.0 i (ap f (sym q) ∙ sym e))
  DistinctBy-eq f a b (x ∷ xs) d (inr i) (inr j) e = DistinctBy-eq f a b xs d.1 i j e
