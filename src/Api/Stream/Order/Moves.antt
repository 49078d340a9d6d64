-- ===== src/Api/Stream/Order/Moves.antt =====
-- What each step does to the order of a subscription's events.
use mathlib.Core.List.{append_assoc, append-nil}
use mathlib.Core.List.Sublist
use split_flap_display_web.Prelude.{
  ℕ, ◌≡◌, inl, inr, sym, subst, Bool, true, false, some, List, [], ◌∷◌, ◌++◌, keep_if, All,
}
use split_flap_display_web.Queue.{Queue, insert, pop}
use split_flap_display_web.Queue.Contents.{insert-sublist, All-insert, buf-pop}
use split_flap_display_web.Api.Stream.{Source, Relays}
use split_flap_display_web.Api.Stream.Order.{
  keep_if-tail, keep_if-insert, held, pending, Relays-moves, All-held, Ordered,
}

module _ {ℓ} {A : Type ℓ} (p : A → Bool) where
  pub own_moves :
      {c : Bool} {own t other : Source A} {m n : Queue A} (ins out : List A)
      → Relays c own m t n
      → Ordered p ins out m own other
      → Ordered p ins out n t other
  own_moves {own} {t} {m} {n} ins out r h = elim (Relays-moves r) [
    | inl (same, k) ↦ record {
      pure = subst (All (λ e. p e ≡ true)) (sym same) h.pure;
      foreign = h.foreign;
      sub = rw (k, same) h.sub;
    }
    | inr (e, next, k) ↦
        let pure = rw next at h.pure in
        record {
          pure = pure.1;
          foreign = h.foreign;
          sub =
              Sublist.trans {l₂ = (keep_if p (out ++ m.buf) ++ keep_if p (e ∷ [])) ++ pending t}
                (rw k (Sublist.append (keep_if-insert p out m e) (Sublist.refl (pending t))))
                (rw
                  (append_assoc (keep_if p (out ++ m.buf)) (keep_if p (e ∷ [])) (pending t), pure.0)
                  (rw next at h.sub));
        }
  ]

  pub other_moves :
      {c : Bool} {own other t : Source A} {m n : Queue A} (ins out : List A)
      → Relays c other m t n
      → Ordered p ins out m own other
      → Ordered p ins out n own t
  other_moves {own} {t} {m} {n} ins out r h = elim (Relays-moves r) [
    | inl (same, k) ↦ record {
      pure = h.pure;
      foreign = subst (All (λ e. p e ≡ false)) (sym same) h.foreign;
      sub = rw k h.sub;
    }
    | inr (e, next, k) ↦
        let foreign = rw next at h.foreign in
        record {
          pure = h.pure;
          foreign = foreign.1;
          sub =
              Sublist.trans {l₂ = (keep_if p (out ++ m.buf) ++ keep_if p (e ∷ [])) ++ pending own}
                (rw k (Sublist.append (keep_if-insert p out m e) (Sublist.refl (pending own))))
                (rw (foreign.0, append-nil (keep_if p (out ++ m.buf))) h.sub);
        }
  ]

  pub writes_one :
      (ins out : List A) (m : Queue A) (own other : Source A) (e : A)
      → (pop m).0 ≡ some e
      → Ordered p ins out m own other
      → Ordered p ins (out ++ e ∷ []) (pop m).1 own other
  writes_one ins out m own other e k h = record {
    pure = h.pure;
    foreign = h.foreign;
    sub = rw (append_assoc out (e ∷ []) (pop m).1.buf) (rw (buf-pop m e k) at h.sub);
  }

  pub loses_one :
      (ins out : List A) (m : Queue A) (own other : Source A) (e : A)
      → (pop m).0 ≡ some e
      → Ordered p ins out m own other
      → Ordered p ins out (pop m).1 own other
  loses_one ins out m own other e k h = record {
    pure = h.pure;
    foreign = h.foreign;
    sub =
        Sublist.trans
          (Sublist.append (keep_if-tail p out e (pop m).1.buf) (Sublist.refl (pending own)))
          (rw (buf-pop m e k) at h.sub);
  }

  pub own_comes :
      (ins out : List A) (m : Queue A) (own other : Source A) (e : A) (n : ℕ)
      → p e ≡ true
      → Ordered p ins out m own other
      → Ordered p
          (ins ++ e ∷ [])
          out
          m
          (record own { queue = insert own.queue e; unsignalled = n })
          other
  own_comes ins out m own other e n k h = record {
    pure =
        All-held (λ a. p a ≡ true) own.relay _ _ (All-insert (λ a. p a ≡ true) own.queue e k)
          h.pure;
    foreign = h.foreign;
    sub =
        Sublist.trans
          (Sublist.append (Sublist.refl (keep_if p (out ++ m.buf)))
            (Sublist.append (Sublist.refl (held own.relay)) (insert-sublist own.queue e)))
          (rw
            (
              sym (append_assoc (held own.relay) own.queue.buf (e ∷ [])),
              sym (append_assoc (keep_if p (out ++ m.buf)) (pending own) (e ∷ [])),
            )
            (Sublist.append h.sub (Sublist.refl (e ∷ []))));
  }

  pub other_comes :
      (ins out : List A) (m : Queue A) (own other : Source A) (e : A) (n : ℕ)
      → p e ≡ false
      → Ordered p ins out m own other
      → Ordered p ins out m own (record other { queue = insert other.queue e; unsignalled = n })
  other_comes ins out m own other e n k h = record {
    pure = h.pure;
    foreign =
        All-held (λ a. p a ≡ false) other.relay _ _ (All-insert (λ a. p a ≡ false) other.queue e k)
          h.foreign;
    sub = h.sub;
  }
