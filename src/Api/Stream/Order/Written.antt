-- ===== src/Api/Stream/Order/Written.antt =====
-- What the client receives of a subscription.
use mathlib.Core.List.{Sublist}
use mathlib.Core.List.Sublist
use split_flap_display_web.Prelude.{
  ◌≡◌, Bool, true, false, List, [], ◌∷◌, ◌++◌, keep_if, All, All-map,
}
use split_flap_display_web.Queue
use split_flap_display_web.Queue.{Queue, insert, signal, pop}
use split_flap_display_web.Queue.Contents.{from_left}
use split_flap_display_web.Api.Stream.{
  Source, Stream, source_of, open_stream, detach, Step, relays_sched, relays_mqtt, falls_back,
  emits, opened, notified, writes, written_all, returns, event_sched, event_mqtt, starts,
  shuts_down, write_opening_fails, write_fails, keepalive_fails, Reach, here, inside, outside,
}
use split_flap_display_web.Api.Stream.Order.{keep_if-append, pending, All-last, Ordered}
use split_flap_display_web.Api.Stream.Order.Moves.{
  own_moves, other_moves, writes_one, loses_one, own_comes, other_comes,
}

-- The events of a subscription so far: those that seeded its queue, and those that came.
unfoldable pub events_sched {ℓ} : {A : Type ℓ} {s t : Stream A} → List A → Reach s t → List A
events_sched seeds here = seeds
events_sched seeds (inside r st) = events_sched seeds r
events_sched seeds (outside r (event_sched e)) = events_sched seeds r ++ e ∷ []
events_sched seeds (outside r (event_mqtt e)) = events_sched seeds r
events_sched seeds (outside r (starts e)) = events_sched seeds r
events_sched seeds (outside r shuts_down) = events_sched seeds r
events_sched seeds (outside r (write_opening_fails e o k)) = events_sched seeds r
events_sched seeds (outside r (write_fails e o k)) = events_sched seeds r
events_sched seeds (outside r (keepalive_fails o)) = events_sched seeds r

unfoldable pub events_mqtt {ℓ} : {A : Type ℓ} {s t : Stream A} → List A → Reach s t → List A
events_mqtt seeds here = seeds
events_mqtt seeds (inside r st) = events_mqtt seeds r
events_mqtt seeds (outside r (event_sched e)) = events_mqtt seeds r
events_mqtt seeds (outside r (event_mqtt e)) = events_mqtt seeds r ++ e ∷ []
events_mqtt seeds (outside r (starts e)) = events_mqtt seeds r
events_mqtt seeds (outside r shuts_down) = events_mqtt seeds r
events_mqtt seeds (outside r (write_opening_fails e o k)) = events_mqtt seeds r
events_mqtt seeds (outside r (write_fails e o k)) = events_mqtt seeds r
events_mqtt seeds (outside r (keepalive_fails o)) = events_mqtt seeds r

module _ {ℓ} {A : Type ℓ} where
  -- For both subscriptions: `p` holds of the events of one, `q` of those of the other.
  abbrev Both : (A → Bool) → (A → Bool) → List A → List A → Stream A → Type ℓ
  Both p q ins jns s =
      Ordered p ins s.written s.merged s.sched s.mqtt
      × Ordered q jns s.written s.merged s.mqtt s.sched

  Step-Both :
      (p q : A → Bool) (ins jns : List A) {s t : Stream A}
      → Step s t
      → Both p q ins jns s
      → Both p q ins jns t
  unfolding detach
  Step-Both p q ins jns {s} (relays_sched r) (h, k) =
      (own_moves p ins s.written r h, other_moves q jns s.written r k)
  Step-Both p q ins jns {s} (relays_mqtt r) (h, k) =
      (other_moves p ins s.written r h, own_moves q jns s.written r k)
  Step-Both p q ins jns (falls_back e c) h = h
  Step-Both p q ins jns {s} (emits a e o) (h, k) = (
    writes_one p ins s.written s.merged s.sched s.mqtt a o h,
    writes_one q jns s.written s.merged s.mqtt s.sched a o k,
  )
  Step-Both p q ins jns (opened e o) h = h
  Step-Both p q ins jns (notified e n) (h, k) = (
    record { pure = h.pure; foreign = h.foreign; sub = h.sub },
    record { pure = k.pure; foreign = k.foreign; sub = k.sub },
  )
  Step-Both p q ins jns {s} (writes a e o) (h, k) = (
    writes_one p ins s.written s.merged s.sched s.mqtt a o h,
    writes_one q jns s.written s.merged s.mqtt s.sched a o k,
  )
  Step-Both p q ins jns (written_all e o) h = h
  Step-Both p q ins jns (returns e c) h = h

  Reach-Both :
      (p q : A → Bool) (a b : Queue A) (s : Stream A) (r : Reach (open_stream a b) s)
      → All (λ e. (p e ≡ true) × (q e ≡ false)) (events_sched a.buf r)
      → All (λ e. (p e ≡ false) × (q e ≡ true)) (events_mqtt b.buf r)
      → Both p q (events_sched a.buf r) (events_mqtt b.buf r) s
  unfolding events_sched events_mqtt open_stream source_of Queue.new detach
  Reach-Both p q a b s here f g = (
    record {
      pure = All-map _ a.buf (λ e h. h.0) f;
      foreign = All-map _ b.buf (λ e h. h.0) g;
      sub = Sublist.refl a.buf;
    },
    record {
      pure = All-map _ b.buf (λ e h. h.1) g;
      foreign = All-map _ a.buf (λ e h. h.1) f;
      sub = Sublist.refl b.buf;
    },
  )
  Reach-Both p q a b s (inside {t} r st) f g = Step-Both p q _ _ st (Reach-Both p q a b t r f g)
  Reach-Both p q a b s (outside {t} r (event_sched e)) f g =
      let (f', (pe, qe)) = All-last _ (events_sched a.buf r) e f in
      let (h, k) = Reach-Both p q a b t r f' g in
      (own_comes p _ _ _ _ _ e _ pe h, other_comes q _ _ _ _ _ e _ qe k)
  Reach-Both p q a b s (outside {t} r (event_mqtt e)) f g =
      let (g', (pe, qe)) = All-last _ (events_mqtt b.buf r) e g in
      let (h, k) = Reach-Both p q a b t r f g' in
      (other_comes p _ _ _ _ _ e _ pe h, own_comes q _ _ _ _ _ e _ qe k)
  Reach-Both p q a b s (outside {t} r (starts e)) f g = Reach-Both p q a b t r f g
  Reach-Both p q a b s (outside {t} r shuts_down) f g = Reach-Both p q a b t r f g
  Reach-Both p q a b s (outside {t} r (write_opening_fails e o u)) f g =
      let (h, k) = Reach-Both p q a b t r f g in
      (loses_one p _ _ _ _ _ e u h, loses_one q _ _ _ _ _ e u k)
  Reach-Both p q a b s (outside {t} r (write_fails e o u)) f g =
      let (h, k) = Reach-Both p q a b t r f g in
      (loses_one p _ _ _ _ _ e u h, loses_one q _ _ _ _ _ e u k)
  Reach-Both p q a b s (outside {t} r (keepalive_fails o)) f g = Reach-Both p q a b t r f g

  Ordered-sublist :
      (p : A → Bool) (ins : List A) (m : Queue A) (own other : Source A) (out : List A)
      → Ordered p ins out m own other
      → Sublist (keep_if p out) ins
  Ordered-sublist p ins m own other out h =
      Sublist.trans (from_left (keep_if p out) (keep_if p m.buf)) (
        Sublist.trans (from_left (keep_if p out ++ keep_if p m.buf) (pending own))
          (rw (keep_if-append p out m.buf) at h.sub))

  -- Where `p` tells the events of the scheduler's subscription and `q` those of the display's: what the
  -- client has received of either are events of that subscription, in their order and none of them twice,
  -- whatever has happened to the stream. Some may be missing: a queue that is full drops its oldest.
  pub Reach-sublist :
      (p q : A → Bool) (a b : Queue A) (s : Stream A) (r : Reach (open_stream a b) s)
      → All (λ e. (p e ≡ true) × (q e ≡ false)) (events_sched a.buf r)
      → All (λ e. (p e ≡ false) × (q e ≡ true)) (events_mqtt b.buf r)
      → Sublist (keep_if p s.written) (events_sched a.buf r)
        × Sublist (keep_if q s.written) (events_mqtt b.buf r)
  Reach-sublist p q a b s r f g =
      let (h, k) = Reach-Both p q a b s r f g in
      (
        Ordered-sublist p _ s.merged s.sched s.mqtt s.written h,
        Ordered-sublist q _ s.merged s.mqtt s.sched s.written k,
      )
