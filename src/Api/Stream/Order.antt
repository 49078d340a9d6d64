-- ===== src/Api/Stream/Order.antt =====
-- What a subscription's events go through: they may be dropped, and are never made up, doubled or
-- reordered.
pub mod Moves
pub mod Written
use mathlib.Core.List.{append_assoc, append-nil, Sublist}
use mathlib.Core.List.Sublist
use split_flap_display_web.Prelude.{
  ℕ, ◌+◌, ◌≡◌, ◌≢◌, ◌⊎◌, inl, inr, refl, sym, ap, subst, ◌∙◌, Bool, true, false, Option, none, some,
  List, [], ◌∷◌, ◌++◌, drop, ltb, length, if◌then◌else◌, keep_if, All, All-append, All-drop, arith,
  Bool-cases,
}
use split_flap_display_web.Queue.{Queue, insert, signal, pop}
use split_flap_display_web.Queue.Delivery.{buf-signal}
use split_flap_display_web.Queue.Contents.{
  insert-cases, insert-sublist, All-insert, buf-pop, from_left,
}
use split_flap_display_web.Api.Stream.{
  Relay, waiting, draining, telling, stopped, carrying, Writer, Source, Stream, open_stream, Relays,
  signals, stops, wakes, takes, settles, hands_over, tells, detach, Step, relays_sched, relays_mqtt,
  falls_back, emits, opened, notified, writes, written_all, returns, Outside, event_sched,
  event_mqtt, starts, shuts_down, write_opening_fails, write_fails, keepalive_fails, Reach, here,
  inside, outside,
}

module _ {ℓ} {A : Type ℓ} (p : A → Bool) where
  pub keep_if-append : (xs ys : List A) → keep_if p (xs ++ ys) ≡ keep_if p xs ++ keep_if p ys
  keep_if-append [] ys = refl
  keep_if-append (x ∷ xs) ys = ground (arith, keep_if-append xs ys)

  keep_if-one : (y : A) (ys : List A) → Sublist (keep_if p ys) (keep_if p (y ∷ ys))
  keep_if-one y ys = elim (Bool-cases (p y)) [
    | inl e ↦ rw e (Sublist.cons y (Sublist.refl (keep_if p ys)))
    | inr e ↦ rw e (Sublist.refl (keep_if p ys))
  ]

  pub keep_if-tail :
      (xs : List A) (y : A) (ys : List A)
      → Sublist (keep_if p (xs ++ ys)) (keep_if p (xs ++ y ∷ ys))
  keep_if-tail xs y ys =
      rw (keep_if-append xs ys, keep_if-append xs (y ∷ ys))
        (Sublist.append (Sublist.refl (keep_if p xs)) (keep_if-one y ys))

  keep_if-drop : (xs ys : List A) → Sublist (keep_if p (xs ++ drop 1 ys)) (keep_if p (xs ++ ys))
  keep_if-drop xs [] = Sublist.refl _
  keep_if-drop xs (y ∷ ys) = keep_if-tail xs y ys

  -- What an insertion makes of the kept elements.
  pub keep_if-insert :
      (out : List A) (m : Queue A) (e : A)
      → Sublist
          (keep_if p (out ++ (insert m e).buf))
          (keep_if p (out ++ m.buf) ++ keep_if p (e ∷ []))
  keep_if-insert out m e = elim (insert-cases m e) [
    | inl k ↦
        rw (k, sym (append_assoc out m.buf (e ∷ [])), keep_if-append (out ++ m.buf) (e ∷ []))
          (Sublist.refl _)
    | inr (inl k) ↦
        rw
          (
            k,
            sym (append_assoc out (drop 1 m.buf) (e ∷ [])),
            keep_if-append (out ++ drop 1 m.buf) (e ∷ []),
          )
          (Sublist.append (keep_if-drop out m.buf) (Sublist.refl _))
    | inr (inr k) ↦ rw k (from_left _ _)
  ]

module _ {ℓ} {A : Type ℓ} where
  -- What a relay has in its hand, and what is to come after that.
  abbrev pub held : Relay A → List A
  held waiting = []
  held draining = []
  held telling = []
  held stopped = []
  held (carrying e) = e ∷ []

  abbrev pub pending : Source A → List A
  pending s = held s.relay ++ s.queue.buf

  -- A relay hands over its next event, or nothing changes.
  pub Relays-moves :
      {c : Bool} {s t : Source A} {m n : Queue A}
      → Relays c s m t n
      → ((pending t ≡ pending s) × (n.buf ≡ m.buf))
        ⊎ ((e : A) × (pending s ≡ e ∷ pending t) × (n.buf ≡ (insert m e).buf))
  Relays-moves {s} (signals n e) = inl (ap (λ l. held s.relay ++ l) (buf-signal s.queue), refl)
  Relays-moves (stops e c) = inl (rw e refl, refl)
  Relays-moves (wakes e n) = inl (rw e refl, refl)
  Relays-moves {s} (takes a e k) = inl (rw e (sym (buf-pop s.queue a k)), refl)
  Relays-moves (settles e k) = inl (rw e refl, refl)
  Relays-moves {m} (hands_over a e) = inr (a, rw e refl, refl)
  Relays-moves {m} (tells e) = inl (rw e refl, buf-signal m)

  pub All-held :
      (P : A → Type 0) (r : Relay A) (l l' : List A)
      → (All P l → All P l')
      → All P (held r ++ l)
      → All P (held r ++ l')
  All-held P waiting l l' f h = f h
  All-held P draining l l' f h = f h
  All-held P telling l l' f h = f h
  All-held P stopped l l' f h = f h
  All-held P (carrying e) l l' f h = (h.0, f h.1)

  pub All-last : (P : A → Type 0) (l : List A) (e : A) → All P (l ++ e ∷ []) → All P l × P e
  All-last P [] e h = (tt, h.0)
  All-last P (x ∷ l) e h = let (k, last) = All-last P l e h.1 in ((h.0, k), last)

  -- Of what has been written and what is on its way, the events of one subscription.
  pub record Ordered (p : A → Bool) (ins out : List A) (m : Queue A) (own other : Source A)
      : Type ℓ where
    pub pure : All (λ e. p e ≡ true) (pending own)
    pub foreign : All (λ e. p e ≡ false) (pending other)
    pub sub : Sublist (keep_if p (out ++ m.buf) ++ pending own) ins
