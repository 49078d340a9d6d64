-- ===== src/Queue/Delivery.antt =====
-- Schedules of the queue's operations: what comes out, and that a waiting consumer is told.
use mathlib.Core.List.{append_assoc, append-nil, Sublist}
use mathlib.Core.List.Sublist
use split_flap_display_web.Prelude.{
  ℕ, zero, suc, subst, drop, ◌+◌, ◌≤◌, ◌≡◌, ◌≢◌, refl, sym, ap, ◌∙◌, true, false, none, some, List,
  [], ◌∷◌, ◌++◌, length, arith, length-append, length-drop, inl, inr, ◌<◌, ◌⊎◌,
}
use split_flap_display_web.Queue.{
  Queue, insert, signal, Op, pushes, pops, drains, Phase, waiting, draining, push, pop, drain, run,
  step, pushed, pop_front, taken, drop_oldest,
}
use split_flap_display_web.Queue.Laws.{
  IsValid, push-IsValid, buf-push, keep_last_of_fits, cap-push, pop-IsValid,
}

module _ {ℓ} {A : Type ℓ} where
  -- Producers, and the consumer's loop: wait for the notification, pop until empty, wait again. A
  -- producer inserts under the lock and signals afterwards, and others may move in between; `n` counts
  -- the producers that have inserted and not signalled yet.
  pub data Move : Phase × ℕ × Queue A → Phase × ℕ × Queue A → Type ℓ where
    inserts : (p : Phase) (n : ℕ) (q : Queue A) (e : A) → Move (p, n, q) (p, n + 1, insert q e)
    signals : (p : Phase) (n : ℕ) (q : Queue A) → Move (p, n + 1, q) (p, n, signal q)
    wake :
        (n : ℕ) (q : Queue A)
        → q.notify ≡ true
        → Move (waiting, n, q) (draining, n, record q { notify = false })
    take_one :
        (n : ℕ) (q : Queue A) (e : A)
        → (pop q).0 ≡ some e
        → Move (draining, n, q) (draining, n, (pop q).1)
    settle :
        (n : ℕ) (q : Queue A) → (pop q).0 ≡ none → Move (draining, n, q) (waiting, n, (pop q).1)

  pub data Reach (s : Phase × ℕ × Queue A) : Phase × ℕ × Queue A → Type ℓ where
    here : Reach s s
    next : {t u : Phase × ℕ × Queue A} → Reach s t → Move t u → Reach s u

  -- A consumer that waits beside a queue with elements has been told, or is about to be.
  abbrev pub IsTold : Phase × ℕ × Queue A → Type ℓ
  IsTold (waiting, n, q) = q.buf ≢ [] → 0 < n ⊎ (q.notify ≡ true)
  IsTold (draining, n, q) = Unit

  -- A pop takes out the head, or finds nothing.
  pop_front-buf :
      (xs : List A) (q : Queue A)
      → q.buf ≡ xs
      → taken (pop_front xs q).0 ++ (pop_front xs q).1.buf ≡ xs
  unfolding pop_front taken
  pop_front-buf [] q h = h
  pop_front-buf (e ∷ rest) q h = refl

  buf-pop : (q : Queue A) → taken (pop q).0 ++ (pop q).1.buf ≡ q.buf
  unfolding pop
  buf-pop q = pop_front-buf q.buf q refl

  pop_front-cap : (xs : List A) (q : Queue A) → (pop_front xs q).1.cap ≡ q.cap
  unfolding pop_front
  pop_front-cap [] q = refl
  pop_front-cap (e ∷ rest) q = refl

  cap-pop : (q : Queue A) → (pop q).1.cap ≡ q.cap
  unfolding pop
  cap-pop q = pop_front-cap q.buf q

  pop_front-none :
      (xs : List A) (q : Queue A)
      → q.buf ≡ xs
      → (pop_front xs q).0 ≡ none
      → (pop_front xs q).1.buf ≡ []
  unfolding pop_front
  pop_front-none [] q h p = h
  pop_front-none (e ∷ rest) q h p = cc

  pop-none : (q : Queue A) → (pop q).0 ≡ none → (pop q).1.buf ≡ []
  unfolding pop
  pop-none q p = pop_front-none q.buf q refl p

  pop_front_of_none : (xs : List A) (q : Queue A) → (pop_front xs q).0 ≡ none → xs ≡ []
  unfolding pop_front
  pop_front_of_none [] q p = refl
  pop_front_of_none (e ∷ rest) q p = cc

  pub pop_of_none : (q : Queue A) → (pop q).0 ≡ none → q.buf ≡ []
  unfolding pop
  pop_of_none q p = pop_front_of_none q.buf q p

  pop_front-length :
      (xs : List A) (q : Queue A) (e : A)
      → (pop_front xs q).0 ≡ some e
      → length xs ≡ length (pop_front xs q).1.buf + 1
  unfolding pop_front
  pop_front-length [] q e p = cc
  pop_front-length (x ∷ rest) q e p = omega arith

  pub length-pop :
      (q : Queue A) (e : A) → (pop q).0 ≡ some e → length q.buf ≡ length (pop q).1.buf + 1
  unfolding pop
  length-pop q e p = pop_front-length q.buf q e p

  pop_front-notify : (xs : List A) (q : Queue A) → (pop_front xs q).1.notify ≡ q.notify
  unfolding pop_front
  pop_front-notify [] q = refl
  pop_front-notify (x ∷ rest) q = refl

  pub notify-pop : (q : Queue A) → (pop q).1.notify ≡ q.notify
  unfolding pop
  notify-pop q = pop_front-notify q.buf q

  pub length-insert-le : (q : Queue A) (e : A) → length (insert q e).buf ≤ length q.buf + 1
  unfolding insert drop_oldest
  length-insert-le q e = ground (
    arith,
    length-append q.buf (e ∷ []),
    length-append (drop 1 q.buf) (e ∷ []),
    length-drop 1 q.buf,
  )

  pub notify-insert : (q : Queue A) (e : A) → (insert q e).notify ≡ q.notify
  unfolding insert drop_oldest
  notify-insert q e = ground arith

  pub buf-signal : (q : Queue A) → (signal q).buf ≡ q.buf
  unfolding signal
  buf-signal q = ground arith

  pub notify-signal : (q : Queue A) → (signal q).notify ≡ true
  unfolding signal
  notify-signal q = ground arith

  Move-IsTold : {s t : Phase × ℕ × Queue A} → Move s t → IsTold s → IsTold t
  Move-IsTold (inserts waiting n q e) h = λ _. inl (omega arith)
  Move-IsTold (inserts draining n q e) h = tt
  Move-IsTold (signals waiting n q) h = λ _. inr (notify-signal q)
  Move-IsTold (signals draining n q) h = tt
  Move-IsTold (wake n q m) h = tt
  Move-IsTold (take_one n q e p) h = tt
  Move-IsTold (settle n q p) h = λ ne. absurd (ne (pop-none q p))

  -- No notification is lost: whatever the interleaving of the producers, which insert an element and
  -- then signal, with the consumer's loop, a consumer that waits beside a queue with elements has been
  -- told, or a producer is about to tell it.
  pub Reach-IsTold : {s t : Phase × ℕ × Queue A} → IsTold s → Reach s t → IsTold t
  Reach-IsTold h here = h
  Reach-IsTold h (next r m) = Move-IsTold m (Reach-IsTold h r)

  drop-sublist : (n : ℕ) (xs : List A) → Sublist (drop n xs) xs
  drop-sublist zero xs = Sublist.refl xs
  drop-sublist (suc n) [] = Sublist.refl []
  drop-sublist (suc n) (x ∷ xs) = Sublist.cons x (drop-sublist n xs)

  push-sublist : (q : Queue A) (e : A) → IsValid q → Sublist (push q e).buf (q.buf ++ e ∷ [])
  push-sublist q e v = rw (buf-push q e v) (drop-sublist _ (q.buf ++ e ∷ []))

  -- What comes out, then what is left, is what was there and what went in, with elements missing at
  -- most: nothing is made up, doubled or reordered.
  pub run-sublist :
      (os : List (Op A)) (q : Queue A)
      → IsValid q
      → Sublist ((run os q).0 ++ (run os q).1.buf) (q.buf ++ pushed os)
  unfolding run step pushed drain
  run-sublist [] q v = rw append-nil (Sublist.refl q.buf)
  run-sublist (pushes e ∷ os) q v =
      Sublist.trans (run-sublist os (push q e) (push-IsValid q e v))
        (rw append_assoc at (Sublist.append (push-sublist q e v) (Sublist.refl (pushed os))))
  run-sublist (pops ∷ os) q v =
      let later = run-sublist os (pop q).1 (pop-IsValid q v) in
      let whole = Sublist.append (Sublist.refl (taken (pop q).0)) later in
      rw (append_assoc (taken (pop q).0)) (
        subst
          (λ (t : List A).
            Sublist (taken (pop q).0 ++ ((run os (pop q).1).0 ++ (run os (pop q).1).1.buf)) t)
          (sym (append_assoc (taken (pop q).0) (pop q).1.buf (pushed os))
            ∙ ap (λ (t : List A). t ++ pushed os) (buf-pop q))
          whole)
  run-sublist (drains ∷ os) q v =
      let later =
        run-sublist os (record q { buf = [] }) (record { room = v.room; fits = omega arith }) in
      rw (append_assoc q.buf) (Sublist.append (Sublist.refl q.buf) later)

  -- Nothing is lost while what was there and what goes in fits in the queue.
  pub run_fits :
      (os : List (Op A)) (q : Queue A)
      → IsValid q
      → length q.buf + length (pushed os) ≤ q.cap
      → (run os q).0 ++ (run os q).1.buf ≡ q.buf ++ pushed os
  unfolding run step pushed drain
  run_fits [] q v h = sym (append-nil q.buf)
  run_fits (pushes e ∷ os) q v h =
      let room : length (q.buf ++ e ∷ []) ≤ q.cap = omega (arith, length-append q.buf (e ∷ [])) in
      let kept : (push q e).buf ≡ q.buf ++ e ∷ [] =
        buf-push q e v ∙ keep_last_of_fits q.cap (q.buf ++ e ∷ []) room in
      run_fits os (push q e) (push-IsValid q e v)
        (omega (arith, cap-push q e, ap length kept, length-append q.buf (e ∷ [])))
      ∙ ap (λ (t : List A). t ++ pushed os) kept
      ∙ append_assoc q.buf (e ∷ []) (pushed os)
  run_fits (pops ∷ os) q v h =
      append_assoc (taken (pop q).0) (run os (pop q).1).0 (run os (pop q).1).1.buf
      ∙ ap (◌++◌ (taken (pop q).0)) (
          run_fits os (pop q).1 (pop-IsValid q v) (
            omega (
              arith,
              cap-pop q,
              ap length (buf-pop q),
              length-append (taken (pop q).0) (pop q).1.buf,
            )))
      ∙ sym (append_assoc (taken (pop q).0) (pop q).1.buf (pushed os))
      ∙ ap (λ (t : List A). t ++ pushed os) (buf-pop q)
  run_fits (drains ∷ os) q v h =
      append_assoc q.buf (run os (record q { buf = [] })).0 (run os (record q { buf = [] })).1.buf
      ∙ ap (◌++◌ q.buf) (
          run_fits os (record q { buf = [] }) (record { room = v.room; fits = omega arith })
            (omega arith))
