-- ===== src/Prelude/Maps.antt =====
-- Go maps with string keys, as association lists. The order of the entries is the order in which a
-- `range` loop happens to visit them: Go leaves it open, and the theorems hold for every order.
use mathlib.Core.Path.{◌≡◌, refl, subst}
use mathlib.Core.Logic.{◌≢◌, inl, inr}
use mathlib.Core.Bool.{false}
use mathlib.Core.Option.{Option, none, some}
use mathlib.Core.List.{List, [], ◌∷◌, map}
use native.Mathlib.Omega.{arith}
use split_flap_display_web.Prelude.Tests.{if◌then◌else◌, Bool-cases}
use split_flap_display_web.Prelude.Texts.{Text, text_eq, text_eq_iff}
use split_flap_display_web.Prelude.Predicates.{All, DistinctBy}

module _ {ℓ} {V : Type ℓ} where
  -- `m[k]`, with its `ok`
  unfoldable pub lookup : Text → List (Text × V) → Option V
  lookup k [] = none
  lookup k ((j, v) ∷ m) = if text_eq j k then some v else lookup k m

  -- `m[k] = v`
  unfoldable pub insert : Text → V → List (Text × V) → List (Text × V)
  insert k v [] = (k, v) ∷ []
  insert k v ((j, w) ∷ m) = if text_eq j k then (k, v) ∷ m else (j, w) ∷ insert k v m

  -- `delete(m, k)`
  unfoldable pub delete : Text → List (Text × V) → List (Text × V)
  delete k [] = []
  delete k ((j, w) ∷ m) = if text_eq j k then delete k m else (j, w) ∷ delete k m

  abbrev pub key_of : Text × V → Text
  key_of e = e.0

  abbrev pub values : List (Text × V) → List V
  values = map (λ e. e.1)

pub ne_of_text_eq : (j k : Text) → text_eq j k ≡ false → j ≢ k
ne_of_text_eq j k h e = ground (arith, text_eq_iff j k)

pub text_eq_of_ne : (j k : Text) → j ≢ k → text_eq j k ≡ false
text_eq_of_ne j k h = ground (arith, text_eq_iff j k)

module _ {ℓ} {V : Type ℓ} where
  pub lookup-insert :
      (k j : Text) (v : V) (m : List (Text × V))
      → lookup j (insert k v m) ≡ (if text_eq k j then some v else lookup j m)
  unfolding lookup insert
  lookup-insert k j v [] = refl
  lookup-insert k j v ((i, w) ∷ m) =
      ground (arith, text_eq_iff k j, text_eq_iff i k, text_eq_iff i j, lookup-insert k j v m)

  pub lookup-delete :
      (k j : Text) (m : List (Text × V))
      → lookup j (delete k m) ≡ (if text_eq k j then none else lookup j m)
  unfolding lookup delete
  lookup-delete k j [] = ground arith
  lookup-delete k j ((i, w) ∷ m) =
      ground (arith, text_eq_iff k j, text_eq_iff i k, text_eq_iff i j, lookup-delete k j m)

  pub insert-All {κ} :
      (P : Text × V → Type κ) (k : Text) (v : V) (m : List (Text × V))
      → P (k, v)
      → All P m
      → All P (insert k v m)
  unfolding insert
  insert-All P k v [] p h = (p, tt)
  insert-All P k v ((j, w) ∷ m) p h = ground (arith, insert-All P k v m)

  pub delete-All {κ} :
      (P : Text × V → Type κ) (k : Text) (m : List (Text × V)) → All P m → All P (delete k m)
  unfolding delete
  delete-All P k [] h = tt
  delete-All P k ((j, w) ∷ m) h = ground (arith, delete-All P k m)

  pub insert-DistinctBy :
      (k : Text) (v : V) (m : List (Text × V))
      → DistinctBy key_of m
      → DistinctBy key_of (insert k v m)
  unfolding insert
  insert-DistinctBy k v [] d = (tt, tt)
  insert-DistinctBy k v ((j, w) ∷ m) d = elim (Bool-cases (text_eq j k)) [
    | inl e ↦ rw e (subst (λ i. All (λ y. i ≢ y.0) m) ((text_eq_iff j k).0 e) d.0, d.1)
    | inr e ↦
        rw e
          (insert-All (λ y. j ≢ y.0) k v m (ne_of_text_eq j k e) d.0, insert-DistinctBy k v m d.1)
  ]

  pub delete-DistinctBy :
      (k : Text) (m : List (Text × V)) → DistinctBy key_of m → DistinctBy key_of (delete k m)
  unfolding delete
  delete-DistinctBy k [] d = tt
  delete-DistinctBy k ((j, w) ∷ m) d =
      ground (arith, delete-DistinctBy k m d.1, delete-All (λ e. j ≢ e.0) k m d.0)
