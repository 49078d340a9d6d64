-- ===== src/Queue/Contents.antt =====
-- What one insertion and one pop make of the contents.
use mathlib.Core.List.{Sublist, nil-sublist}
use mathlib.Core.List.Sublist
use split_flap_display_web.Prelude.{
  ◌≡◌, ◌⊎◌, inl, inr, refl, sym, subst, some, List, [], ◌∷◌, ◌++◌, drop, ltb, length, All,
  All-append, All-drop, Bool-cases,
}
use split_flap_display_web.Queue.{Queue, insert, drop_oldest, pop, pop_front}

module _ {ℓ} {A : Type ℓ} where
  -- Appended, appended in place of the oldest, or (without any room) not at all.
  pub insert-cases :
      (q : Queue A) (e : A)
      → ((insert q e).buf ≡ q.buf ++ e ∷ [])
        ⊎ ((insert q e).buf ≡ drop 1 q.buf ++ e ∷ [])
        ⊎ ((insert q e).buf ≡ q.buf)
  unfolding insert drop_oldest
  insert-cases q e = elim (Bool-cases (ltb (length q.buf) q.cap)) [
    | inl k ↦ inl (rw k refl)
    | inr k ↦ elim (Bool-cases (ltb 0 (length q.buf))) [
      | inl j ↦ inr (inl (rw (k, j) refl))
      | inr j ↦ inr (inr (rw (k, j) refl))
    ]
  ]

  drop_one : (ys : List A) → Sublist (drop 1 ys) ys
  drop_one [] = Sublist.refl []
  drop_one (y ∷ ys) = Sublist.cons y (Sublist.refl ys)

  pub from_left : (xs ys : List A) → Sublist xs (xs ++ ys)
  from_left [] ys = nil-sublist ys
  from_left (x ∷ xs) ys = Sublist.cons-cons x (from_left xs ys)

  pub insert-sublist : (q : Queue A) (e : A) → Sublist (insert q e).buf (q.buf ++ e ∷ [])
  insert-sublist q e = elim (insert-cases q e) [
    | inl k ↦ rw k (Sublist.refl _)
    | inr (inl k) ↦ rw k (Sublist.append (drop_one q.buf) (Sublist.refl (e ∷ [])))
    | inr (inr k) ↦ rw k (from_left q.buf (e ∷ []))
  ]

  pub All-insert :
      (P : A → Type 0) (q : Queue A) (e : A) → P e → All P q.buf → All P (insert q e).buf
  All-insert P q e new h = elim (insert-cases q e) [
    | inl k ↦ subst (All P) (sym k) (All-append P q.buf (e ∷ []) h (new, tt))
    | inr (inl k) ↦
        subst (All P) (sym k)
          (All-append P (drop 1 q.buf) (e ∷ []) (All-drop P 1 q.buf h) (new, tt))
    | inr (inr k) ↦ subst (All P) (sym k) h
  ]

  pop_front_lem :
      (xs : List A) (q : Queue A) (e : A)
      → (pop_front xs q).0 ≡ some e
      → xs ≡ e ∷ (pop_front xs q).1.buf
  unfolding pop_front
  pop_front_lem [] q e k = cc
  pop_front_lem (x ∷ xs) q e k = cc

  pub buf-pop : (q : Queue A) (e : A) → (pop q).0 ≡ some e → q.buf ≡ e ∷ (pop q).1.buf
  unfolding pop
  buf-pop q e k = pop_front_lem q.buf q e k
