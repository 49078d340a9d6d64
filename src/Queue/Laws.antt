-- ===== src/Queue/Laws.antt =====
-- The queue keeps the newest `cap` elements, in the order of insertion.
use mathlib.Core.List.{append_assoc, append-nil}
use split_flap_display_web.Prelude.{
  ℕ, zero, suc, ◌+◌, ◌-◌, ◌≤◌, ◌≡◌, refl, sym, ap, ◌∙◌, inl, inr, List, [], ◌∷◌, ◌++◌, length, drop,
  ltb, ℤ, arith, Bool-cases, length-append, length-drop,
}
use split_flap_display_web.Queue.{Queue, new, push, pop, pop_front, push_all}

-- The last `n` elements.
abbrev pub keep_last {ℓ} : {A : Type ℓ} → ℕ → List A → List A
keep_last n xs = drop (length xs - n) xs

pub record IsValid {ℓ} {A : Type ℓ} (q : Queue A) : Type 0 where
  pub room : 1 ≤ q.cap
  pub fits : length q.buf ≤ q.cap

module _ {ℓ} {A : Type ℓ} where
  pub new-IsValid : (capacity : ℤ) → IsValid (new {A = A} capacity)
  unfolding new
  new-IsValid capacity = ground arith

  drop-length : (xs : List A) → drop (length xs) xs ≡ []
  drop-length [] = refl
  drop-length (x ∷ xs) = drop-length xs

  pub drop-zero : (n : ℕ) (xs : List A) → n ≡ 0 → drop n xs ≡ xs
  drop-zero zero xs e = refl
  drop-zero (suc n) xs e = absurd (omega arith)

  pub drop-append : (n : ℕ) (xs ys : List A) → n ≤ length xs → drop n (xs ++ ys) ≡ drop n xs ++ ys
  drop-append zero xs ys h = refl
  drop-append (suc n) [] ys h = absurd (omega arith)
  drop-append (suc n) (x ∷ xs) ys h = drop-append n xs ys (omega arith)

  drop-nil : (n : ℕ) → drop {A = A} n [] ≡ []
  drop-nil zero = refl
  drop-nil (suc n) = refl

  pub drop-drop : (m n : ℕ) (xs : List A) → drop m (drop n xs) ≡ drop (n + m) xs
  drop-drop m zero xs = ap (λ (k : ℕ). drop k xs) (omega arith)
  drop-drop m (suc n) [] = drop-nil m ∙ sym (drop-nil (suc n + m))
  drop-drop m (suc n) (x ∷ xs) = drop-drop m n xs ∙ ap (λ (k : ℕ). drop k (x ∷ xs)) (suc_add n m)
    where
      suc_add : (a b : ℕ) → suc (a + b) ≡ suc a + b
      suc_add a b = omega arith

  pub cap-push : (q : Queue A) (e : A) → (push q e).cap ≡ q.cap
  unfolding push
  cap-push q e = ground arith

  -- A push keeps the newest `cap` elements.
  pub buf-push :
      (q : Queue A) (e : A) → IsValid q → (push q e).buf ≡ keep_last q.cap (q.buf ++ e ∷ [])
  unfolding push
  buf-push q e v = elim (Bool-cases (ltb (length q.buf) q.cap)) [
    | inl room ↦
        let none_over : length (q.buf ++ e ∷ []) - q.cap ≡ 0 =
          ground (arith, length-append q.buf (e ∷ [])) in
        ground (arith, drop-zero _ (q.buf ++ e ∷ []) none_over)
    | inr full ↦
        let one_over : length (q.buf ++ e ∷ []) - q.cap ≡ 1 =
          ground (arith, length-append q.buf (e ∷ []), v.fits, v.room) in
        let one_in : 1 ≤ length q.buf = ground arith in
        ground (
          arith,
          drop-append 1 q.buf (e ∷ []) one_in,
          ap (λ (k : ℕ). drop k (q.buf ++ e ∷ [])) one_over,
        )
  ]

  pub push-IsValid : (q : Queue A) (e : A) → IsValid q → IsValid (push q e)
  push-IsValid q e v = record {
    room = rw (cap-push q e) v.room;
    fits =
        rw (buf-push q e v, cap-push q e)
          (omega (arith, length-drop (length (q.buf ++ e ∷ []) - q.cap) (q.buf ++ e ∷ []), v.fits));
  }

  pub keep_last-append :
      (n : ℕ) (xs ys : List A) → keep_last n (keep_last n xs ++ ys) ≡ keep_last n (xs ++ ys)
  keep_last-append n xs ys =
      ap (λ (t : List A). keep_last n t) (sym (drop-append (length xs - n) xs ys (omega arith)))
      ∙ drop-drop _ (length xs - n) (xs ++ ys)
      ∙ ap (λ (k : ℕ). drop k (xs ++ ys))
          (omega (arith, length-append xs ys, length-drop (length xs - n) (xs ++ ys)))

  pub keep_last_of_fits : (n : ℕ) (xs : List A) → length xs ≤ n → keep_last n xs ≡ xs
  keep_last_of_fits n xs h = drop-zero _ xs (omega arith)

  pub cap-push_all : (q : Queue A) (es : List A) → (push_all q es).cap ≡ q.cap
  unfolding push_all
  cap-push_all q [] = refl
  cap-push_all q (e ∷ es) = cap-push_all (push q e) es ∙ cap-push q e

  -- After any run of insertions a queue holds the newest `cap` of its elements and theirs.
  pub buf-push_all :
      (q : Queue A) (es : List A) → IsValid q → (push_all q es).buf ≡ keep_last q.cap (q.buf ++ es)
  unfolding push_all
  buf-push_all q [] v = rw append-nil (sym (keep_last_of_fits q.cap q.buf v.fits))
  buf-push_all q (e ∷ es) v =
      buf-push_all (push q e) es (push-IsValid q e v)
      ∙ rw (cap-push q e, buf-push q e v)
          (keep_last-append q.cap (q.buf ++ e ∷ []) es
            ∙ ap (λ (t : List A). keep_last q.cap t) (append_assoc q.buf (e ∷ []) es))

  pop_front-IsValid :
      (xs : List A) (q : Queue A) → length xs ≤ q.cap → IsValid q → IsValid (pop_front xs q).1
  unfolding pop_front
  pop_front-IsValid [] q h v = v
  pop_front-IsValid (e ∷ rest) q h v = record { room = v.room; fits = omega arith }

  pub pop-IsValid : (q : Queue A) → IsValid q → IsValid (pop q).1
  unfolding pop
  pop-IsValid q v = pop_front-IsValid q.buf q v.fits v

  pub push_all-IsValid : (q : Queue A) (es : List A) → IsValid q → IsValid (push_all q es)
  unfolding push_all
  push_all-IsValid q [] v = v
  push_all-IsValid q (e ∷ es) v = push_all-IsValid (push q e) es (push-IsValid q e v)
