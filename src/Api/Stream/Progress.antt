-- ===== src/Api/Stream/Progress.antt =====
-- Left alone, a stream comes to rest, and there everything has been delivered or everything has returned.
use split_flap_display_web.Prelude.{
  ℕ, zero, suc, ◌≡◌, ◌≢◌, ◌⊎◌, inl, inr, refl, Bool, true, false, Option-cases, Bool-cases, List,
  [], ◌∷◌, arith,
}
use split_flap_display_web.Queue.{Queue, pop}
use split_flap_display_web.Api.Stream.{
  Relay, waiting, draining, telling, stopped, carrying, Writer, absent, opening, selecting, writing,
  ended, Source, Stream, Relays, signals, stops, wakes, takes, settles, hands_over, tells, Step,
  relays_sched, relays_mqtt, falls_back, emits, opened, notified, writes, written_all, returns,
}
use split_flap_display_web.Api.Stream.Told.{IsHeard, IsTold}

not_both {ℓ} : {P : Type ℓ} {b : Bool} → b ≡ false → b ≡ true → P
not_both live done = cc

module _ {ℓ} {A : Type ℓ} where
  -- Everything that was there has been relayed and written, and all goroutines wait.
  pub record IsDelivered (s : Stream A) : Type ℓ where
    pub live : s.cancelled ≡ false
    pub writer : s.writer ≡ selecting
    pub sched_waits : s.sched.relay ≡ waiting
    pub mqtt_waits : s.mqtt.relay ≡ waiting
    pub sched_empty : s.sched.queue.buf ≡ []
    pub mqtt_empty : s.mqtt.queue.buf ≡ []
    pub merged_empty : s.merged.buf ≡ []

  -- The stream is cancelled and its goroutines have returned.
  pub record IsClosed (s : Stream A) : Type ℓ where
    pub cancelled : s.cancelled ≡ true
    pub sched_stopped : s.sched.relay ≡ stopped
    pub mqtt_stopped : s.mqtt.relay ≡ stopped
    pub writer : (s.writer ≡ ended) ⊎ (s.writer ≡ absent)

  -- A relay that has nothing to do.
  record IsQuiet (c : Bool) (s : Source A) : Type ℓ where
    waits : c ≡ false → (s.relay ≡ waiting) × (s.queue.buf ≡ [])
    ends : c ≡ true → s.relay ≡ stopped

  empty_or_not : (l : List A) → (l ≢ [] → ⊥) → l ≡ []
  empty_or_not [] h = refl
  empty_or_not (x ∷ l) h = absurd (h (λ e. cc))

  module _ (c : Bool) (s : Source A) (m : Queue A) where
    Next : Type ℓ
    Next = (t : Source A) × (n : Queue A) × Relays c s m t n

    waiting_moves : s.relay ≡ waiting → s.unsignalled ≡ 0 → IsHeard s → Next ⊎ IsQuiet c s
    unfolding Next
    waiting_moves e z h = elim (Bool-cases c) [
      | inl done ↦ inl (_, _, stops e done)
      | inr live ↦ elim (Bool-cases s.queue.notify) [
        | inl told ↦ inl (_, _, wakes e told)
        | inr untold ↦ inr (record {
          waits = λ _. (
            e,
            empty_or_not s.queue.buf
                (λ ne. elim (h e ne) [ inl some_left ↦ omega arith | inr told ↦ cc ]),
          );
          ends = λ done. cc;
        })
      ]
    ]

    draining_moves : s.relay ≡ draining → Next
    unfolding Next
    draining_moves e = elim (Option-cases (pop s.queue).0) [
      | inl nothing ↦ (_, _, settles e nothing)
      | inr (a, found) ↦ (_, _, takes a e found)
    ]

    relay_moves :
        (r : Relay A)
        → s.relay ≡ r
        → s.unsignalled ≡ 0
        → IsHeard s
        → (r ≡ stopped → c ≡ true)
        → Next ⊎ IsQuiet c s
    unfolding Next
    relay_moves waiting e z h l = waiting_moves e z h
    relay_moves draining e z h l = inl (draining_moves e)
    relay_moves telling e z h l = inl (_, _, tells e)
    relay_moves stopped e z h l =
        inr (record { waits = λ live. not_both live (l refl); ends = λ _. e })
    relay_moves (carrying a) e z h l = inl (_, _, hands_over a e)

    source_moves :
        (n : ℕ)
        → s.unsignalled ≡ n
        → IsHeard s
        → (s.relay ≡ stopped → c ≡ true)
        → Next ⊎ IsQuiet c s
    unfolding Next
    source_moves zero z h l = relay_moves s.relay refl z h l
    source_moves (suc n) z h l = inl (_, _, signals n z)

  Some : Stream A → Type ℓ
  Some s = (t : Stream A) × Step s t

  IsAtRest : Stream A → Type ℓ
  IsAtRest s = IsDelivered s ⊎ IsClosed s

  module _ (s : Stream A) (told : IsTold s) (q : IsQuiet s.cancelled s.sched)
      (r : IsQuiet s.cancelled s.mqtt) where
    opening_moves : s.writer ≡ opening → Some s
    unfolding Some
    opening_moves e = elim (Option-cases (pop s.merged).0) [
      | inl nothing ↦ (_, opened e nothing)
      | inr (a, found) ↦ (_, emits a e found)
    ]

    writing_moves : s.writer ≡ writing → Some s
    unfolding Some
    writing_moves e = elim (Option-cases (pop s.merged).0) [
      | inl nothing ↦ (_, written_all e nothing)
      | inr (a, found) ↦ (_, writes a e found)
    ]

    closed : s.cancelled ≡ true → (s.writer ≡ ended) ⊎ (s.writer ≡ absent) → IsAtRest s
    unfolding IsAtRest
    closed done w = inr (record {
      cancelled = done;
      sched_stopped = q.ends done;
      mqtt_stopped = r.ends done;
      writer = w;
    })

    all_written :
        s.cancelled ≡ false → s.writer ≡ selecting → s.merged.notify ≡ false → s.merged.buf ≡ []
    all_written live e untold =
        let (i, _) = q.waits live in
        let (j, _) = r.waits live in
        empty_or_not s.merged.buf (λ ne. elim (told.merged e ne) [
          | inl first ↦ cc
          | inr (inl second) ↦ cc
          | inr (inr noticed) ↦ cc
        ])

    selecting_moves : s.writer ≡ selecting → Some s ⊎ IsAtRest s
    unfolding Some IsAtRest
    selecting_moves e = elim (Bool-cases s.cancelled) [
      | inl done ↦ inl (_, returns e done)
      | inr live ↦ elim (Bool-cases s.merged.notify) [
        | inl n ↦ inl (_, notified e n)
        | inr untold ↦ inr (
            inl (record {
              live = live;
              writer = e;
              sched_waits = (q.waits live).0;
              mqtt_waits = (r.waits live).0;
              sched_empty = (q.waits live).1;
              mqtt_empty = (r.waits live).1;
              merged_empty = all_written live e untold;
            }))
      ]
    ]

    absent_moves : s.writer ≡ absent → Some s ⊎ IsAtRest s
    unfolding Some
    absent_moves e = elim (Bool-cases s.cancelled) [
      | inl done ↦ inr (closed done (inr e))
      | inr live ↦ inl (_, falls_back e live)
    ]

    writer_moves : (w : Writer) → s.writer ≡ w → Some s ⊎ IsAtRest s
    writer_moves absent e = absent_moves e
    writer_moves opening e = inl (opening_moves e)
    writer_moves selecting e = selecting_moves e
    writer_moves writing e = inl (writing_moves e)
    writer_moves ended e = inr (closed (told.writer_live e) (inl e))

  -- A stream can move on its own, or it is at rest.
  pub progress :
      (s : Stream A) → IsTold s → ((t : Stream A) × Step s t) ⊎ IsDelivered s ⊎ IsClosed s
  unfolding Some IsAtRest Next
  progress s told =
      elim (source_moves s.cancelled s.sched s.merged s.sched.unsignalled refl told.sched
        told.sched_live) [
          | inl (t, m, step) ↦ inl (_, relays_sched step)
          | inr q ↦
              elim (source_moves s.cancelled s.mqtt s.merged s.mqtt.unsignalled refl told.mqtt
                told.mqtt_live) [
                  | inl (t, m, step) ↦ inl (_, relays_mqtt step)
                  | inr r ↦ writer_moves s told q r s.writer refl
                ]
        ]
