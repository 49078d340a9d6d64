-- ===== src/Prelude/Steps.antt =====
-- Steps of one element of a list: one of several goroutines moves.
use mathlib.Core.List.{List, [], ◌∷◌}
use split_flap_display_web.Prelude.Predicates.{All}

module _ {ℓ κ} {A : Type ℓ} (R : A → A → Type κ) where
  pub data Somewhere : List A → List A → Type (ℓ ⊔ κ) where
    at_head : {x y : A} {xs : List A} → R x y → Somewhere (x ∷ xs) (y ∷ xs)
    further : {x : A} {xs ys : List A} → Somewhere xs ys → Somewhere (x ∷ xs) (x ∷ ys)

  pub Somewhere-All {μ} :
      {P : A → Type μ} {xs ys : List A}
      → ((x y : A) → R x y → P x → P y)
      → Somewhere xs ys
      → All P xs
      → All P ys
  Somewhere-All f (at_head {x} {y} r) h = (f x y r h.0, h.1)
  Somewhere-All f (further s) h = (h.0, Somewhere-All f s h.1)

  -- Several such steps.
  pub data Eventually : List A → List A → Type (ℓ ⊔ κ) where
    stays : {xs : List A} → Eventually xs xs
    moves : {xs ys zs : List A} → Somewhere xs ys → Eventually ys zs → Eventually xs zs

  Eventually-further : {x : A} {xs ys : List A} → Eventually xs ys → Eventually (x ∷ xs) (x ∷ ys)
  Eventually-further stays = stays
  Eventually-further (moves s e) = moves (further s) (Eventually-further e)

  -- The steps of one element alone.
  pub data Chain : A → A → Type (ℓ ⊔ κ) where
    ends : {x : A} → Chain x x
    links : {x y z : A} → R x y → Chain y z → Chain x z

  Eventually-Chain :
      {x y : A} {xs ys : List A} → Chain x y → Eventually xs ys → Eventually (x ∷ xs) (y ∷ ys)
  Eventually-Chain ends e = Eventually-further e
  Eventually-Chain (links r c) e = moves (at_head r) (Eventually-Chain c e)

  -- If each element can get to where `Q` holds of it, then all of them can.
  pub Eventually-All {μ ν} :
      {P : A → Type μ} {Q : A → Type ν} (xs : List A)
      → ((x : A) → P x → (y : A) × Chain x y × Q y)
      → All P xs
      → (ys : List A) × Eventually xs ys × All Q ys
  Eventually-All [] f h = ([], stays, tt)
  Eventually-All (x ∷ xs) f h =
      let (y, c, q) = f x h.0 in
      let (ys, e, qs) = Eventually-All xs f h.1 in (y ∷ ys, Eventually-Chain c e, (q, qs))
