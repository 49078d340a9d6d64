-- ===== src/Store/Removal.antt =====
-- Lists in which every element has its own key: what removing keys from them does to counts.
use split_flap_display_web.Prelude.{
  ◌+◌, ◌≡◌, ◌≢◌, inl, inr, refl, sym, ap, subst, ◌∙◌, Bool, true, false, not, List, [], ◌∷◌, Text,
  text_eq, text_eq_iff, text_eq_refl, text_eq_of_ne, length, keep_if, count_if, All, All-map, In,
  DistinctBy, DistinctBy-keep_if, All-In, In-keep_if, In-of_keep_if, Bool-cases, arith,
}

module _ {A : Type 0} (key : A → Text) where
  abbrev pub other_key : Text → A → Bool
  other_key k a = not (text_eq (key a) k)

  abbrev pub without_key : Text → List A → List A
  without_key k = keep_if (other_key k)

  unfoldable pub without_keys : List A → List A → List A
  without_keys [] xs = xs
  without_keys (r ∷ rs) xs = without_keys rs (without_key (key r) xs)

  without_key_absent : (k : Text) (xs : List A) → All (λ y. k ≢ key y) xs → without_key k xs ≡ xs
  without_key_absent k [] h = refl
  without_key_absent k (x ∷ xs) h =
      rw (text_eq_of_ne (key x) k (λ e. h.0 (sym e))) (ap (◌∷◌ x) (without_key_absent k xs h.1))

  -- An element that is in the list is the only one with its key.
  key_ne_of_In :
      (p : A → Bool) (r : A) (xs : List A)
      → DistinctBy key xs
      → In r xs
      → p r ≡ false
      → All (λ a. p a ≡ true → key r ≢ key a) xs
  key_ne_of_In p r [] d i e = tt
  key_ne_of_In p r (x ∷ xs) d (inl h) e = (
    λ t. absurd (differ (ap p h) t),
    All-map _ xs (λ a n _. subst (λ (y : A). key y ≢ key a) (sym h) n) d.0,
  )
    where
      differ : p r ≡ p x → p x ≡ true → ⊥
      differ q t = cc
  key_ne_of_In p r (x ∷ xs) d (inr i) e =
      (λ _ q. All-In (λ y. key x ≢ key y) xs d.0 i (sym q), key_ne_of_In p r xs d.1 i e)

  -- Removing a key keeps what passes a test that no element with the key passes.
  keep_if-without_key :
      (p : A → Bool) (k : Text) (xs : List A)
      → All (λ a. p a ≡ true → k ≢ key a) xs
      → keep_if p (without_key k xs) ≡ keep_if p xs
  keep_if-without_key p k [] h = refl
  keep_if-without_key p k (x ∷ xs) h = elim (Bool-cases (text_eq (key x) k)) [
    | inl same ↦ elim (Bool-cases (p x)) [
      | inl passes ↦ absurd (h.0 passes (sym ((text_eq_iff (key x) k).0 same)))
      | inr fails ↦ rw (same, fails) (keep_if-without_key p k xs h.1)
    ]
    | inr other ↦ rw other (ground (arith, keep_if-without_key p k xs h.1))
  ]

  -- Removing the key of an element that passes a test removes one such element.
  count_if-without_key :
      (p : A → Bool) (r : A) (xs : List A)
      → DistinctBy key xs
      → In r xs
      → p r ≡ true
      → count_if p (without_key (key r) xs) + 1 ≡ count_if p xs
  count_if-without_key p r [] d i e = absurd i
  count_if-without_key p r (x ∷ xs) d (inl h) e =
      rw (ap (λ (y : A). text_eq (key y) (key r)) (sym h), text_eq_refl (key r))
        (ground (
          arith,
          without_key_absent (key r) xs
              (subst (λ (y : A). All (λ z. key y ≢ key z) xs) (sym h) d.0),
          subst (λ (y : A). p y ≡ true) h e,
        ))
  count_if-without_key p r (x ∷ xs) d (inr i) e =
      rw (text_eq_of_ne (key x) (key r) (All-In (λ y. key x ≢ key y) xs d.0 i))
        (omega (arith, count_if-without_key p r xs d.1 i e))

  still_In :
      (r : A) (rs xs : List A)
      → All (λ y. key r ≢ key y) rs
      → All (λ y. In y xs) rs
      → All (λ y. In y (without_key (key r) xs)) rs
  still_In r [] xs d h = tt
  still_In r (y ∷ rs) xs d h = (
    In-keep_if (other_key (key r)) xs h.0 (rw (text_eq_of_ne (key y) (key r) (λ e. d.0 (sym e)))),
    still_In r rs xs d.1 h.1,
  )

  pub keep_if-without_keys :
      (p : A → Bool) (rs xs : List A)
      → DistinctBy key xs
      → DistinctBy key rs
      → All (λ r. In r xs) rs
      → All (λ r. p r ≡ false) rs
      → keep_if p (without_keys rs xs) ≡ keep_if p xs
  unfolding without_keys
  keep_if-without_keys p [] xs d dr i f = refl
  keep_if-without_keys p (r ∷ rs) xs d dr i f =
      keep_if-without_keys p rs (without_key (key r) xs)
        (DistinctBy-keep_if key (other_key (key r)) xs d) dr.1 (still_In r rs xs dr.0 i.1) f.1
      ∙ keep_if-without_key p (key r) xs (key_ne_of_In p r xs d i.0 f.0)

  pub count_if-without_keys :
      (p : A → Bool) (rs xs : List A)
      → DistinctBy key xs
      → DistinctBy key rs
      → All (λ r. In r xs) rs
      → All (λ r. p r ≡ true) rs
      → count_if p (without_keys rs xs) + length rs ≡ count_if p xs
  unfolding without_keys
  count_if-without_keys p [] xs d dr i f = omega arith
  count_if-without_keys p (r ∷ rs) xs d dr i f = omega (
    arith,
    count_if-without_keys p rs (without_key (key r) xs)
        (DistinctBy-keep_if key (other_key (key r)) xs d) dr.1 (still_In r rs xs dr.0 i.1) f.1,
    count_if-without_key p r xs d i.0 f.0,
  )

  pub In-of_without_keys :
      (a : A) (rs xs : List A) → In a (without_keys rs xs) → In a xs × All (λ r. key a ≢ key r) rs
  unfolding without_keys
  In-of_without_keys a [] xs i = (i, tt)
  In-of_without_keys a (r ∷ rs) xs i =
      let rest = In-of_without_keys a rs (without_key (key r) xs) i in
      let (there, kept) = In-of_keep_if (other_key (key r)) a xs rest.0 in
      (there, (ground (arith, text_eq_iff (key a) (key r)), rest.1))

  pub In-without_keys :
      (a : A) (rs xs : List A) → In a xs → All (λ r. key a ≢ key r) rs → In a (without_keys rs xs)
  unfolding without_keys
  In-without_keys a [] xs i n = i
  In-without_keys a (r ∷ rs) xs i n =
      In-without_keys a rs (without_key (key r) xs)
        (In-keep_if (other_key (key r)) xs i (rw (text_eq_of_ne (key a) (key r) n.0))) n.1
