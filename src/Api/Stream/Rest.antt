-- ===== src/Api/Stream/Rest.antt =====
-- How long a stream can go on by itself: every step takes something off a weight.
use split_flap_display_web.Prelude.{
  ℕ, zero, suc, ◌+◌, ◌-◌, ◌*◌, ◌<◌, ◌≤◌, ◌≡◌, ◌≢◌, ◌⊎◌, inl, inr, ap, Bool, true, false, [], length,
  arith,
}
use split_flap_display_web.Queue.{Queue, signal}
use split_flap_display_web.Queue.Delivery.{
  length-pop, notify-pop, length-insert-le, notify-insert, buf-signal,
}
use split_flap_display_web.Api.Stream.{
  Relay, waiting, draining, telling, stopped, carrying, Writer, absent, opening, selecting, writing,
  ended, Source, Stream, Relays, signals, stops, wakes, takes, settles, hands_over, tells, detach,
  Step, relays_sched, relays_mqtt, falls_back, emits, opened, notified, writes, written_all,
  returns, Reach, open_stream,
}
use split_flap_display_web.Api.Stream.Told.{IsTold, Step-IsTold, Reach-IsTold, open_stream-IsTold}
use split_flap_display_web.Api.Stream.Progress.{IsDelivered, IsClosed, progress}

abbrev flag : Bool → ℕ
flag true = 1
flag false = 0

flag_le : (b : Bool) → flag b ≤ 1
flag_le true = omega arith
flag_le false = omega arith

module _ {ℓ} {A : Type ℓ} where
  abbrev relay_weight : Relay A → ℕ
  relay_weight waiting = 1
  relay_weight draining = 2
  relay_weight telling = 5
  relay_weight stopped = 0
  relay_weight (carrying e) = 7

  -- An event in a subscription has yet to be taken, handed over, announced and written.
  abbrev source_weight : Source A → ℕ
  source_weight s =
      6 * length s.queue.buf + 2 * flag s.queue.notify + 3 * s.unsignalled + relay_weight s.relay

  abbrev queue_weight : Queue A → ℕ
  queue_weight q = length q.buf + 2 * flag q.notify

abbrev writer_weight : Writer → ℕ
writer_weight absent = 0
writer_weight opening = 2
writer_weight selecting = 1
writer_weight writing = 2
writer_weight ended = 0

module _ {ℓ} {A : Type ℓ} where
  abbrev pub weight : Stream A → ℕ
  weight s =
      source_weight s.sched
      + source_weight s.mqtt
      + queue_weight s.merged
      + writer_weight s.writer
      + (1 - flag s.cancelled)

  Relays-weight :
      {c : Bool} {s t : Source A} {m n : Queue A}
      → Relays c s m t n
      → source_weight t + queue_weight n < source_weight s + queue_weight m
  Relays-weight {s} (signals n e) =
      omega (arith, ap length (buf-signal s.queue), flag_le (signal s.queue).notify, e)
  Relays-weight (stops e c) = omega (arith, ap relay_weight e)
  Relays-weight (wakes e n) = omega (arith, ap relay_weight e, ap flag n)
  Relays-weight {s} (takes a e p) =
      omega (arith, ap relay_weight e, length-pop s.queue a p, ap flag (notify-pop s.queue))
  Relays-weight (settles e p) = omega (arith, ap relay_weight e)
  Relays-weight {m} (hands_over a e) =
      omega (arith, ap relay_weight e, length-insert-le m a, ap flag (notify-insert m a))
  Relays-weight {m} (tells e) =
      omega (arith, ap relay_weight e, ap length (buf-signal m), flag_le (signal m).notify)

  Step-weight : {s t : Stream A} → Step s t → weight t < weight s
  unfolding detach
  Step-weight (relays_sched r) = omega (arith, Relays-weight r)
  Step-weight (relays_mqtt r) = omega (arith, Relays-weight r)
  Step-weight (falls_back e c) = omega (arith, ap flag c)
  Step-weight {s} (emits a e p) =
      omega (arith, length-pop s.merged a p, ap flag (notify-pop s.merged))
  Step-weight (opened e p) = omega (arith, ap writer_weight e)
  Step-weight (notified e n) = omega (arith, ap writer_weight e, ap flag n)
  Step-weight {s} (writes a e p) =
      omega (arith, length-pop s.merged a p, ap flag (notify-pop s.merged))
  Step-weight (written_all e p) = omega (arith, ap writer_weight e)
  Step-weight (returns e c) = omega (arith, ap writer_weight e, ap flag c)

  -- A run of steps that ends in `u`, and their number.
  pub data Run (u : Stream A) : ℕ → Stream A → Type ℓ where
    rests : Run u zero u
    steps : {s t : Stream A} {n : ℕ} → Step s t → Run u n t → Run u (suc n) s

  Run-le-weight : {u s : Stream A} {n : ℕ} → Run u n s → n + weight u ≤ weight s
  Run-le-weight rests = omega arith
  Run-le-weight (steps st r) = omega (arith, Step-weight st, Run-le-weight r)

  pub record Rests (s : Stream A) : Type ℓ where
    pub rounds : ℕ
    pub last : Stream A
    pub run : Run last rounds s
    pub at_rest : IsDelivered last ⊎ IsClosed last

  one_more : {s t : Stream A} → Step s t → Rests t → Rests s
  one_more st r = record {
    rounds = suc r.rounds;
    last = r.last;
    run = steps st r.run;
    at_rest = r.at_rest;
  }

  rest_within : (n : ℕ) (s : Stream A) → weight s ≤ n → IsTold s → Rests s
  rest_within zero s h told = elim (progress s told) [
    | inr still ↦ record { rounds = zero; last = s; run = rests; at_rest = still }
    | inl (t, st) ↦ absurd (omega (arith, Step-weight st))
  ]
  rest_within (suc n) s h told = elim (progress s told) [
    | inr still ↦ record { rounds = zero; last = s; run = rests; at_rest = still }
    | inl (t, st) ↦
        one_more st (rest_within n t (omega (arith, Step-weight st)) (Step-IsTold st told))
  ]

  -- A stream that has been opened can go on by itself for no more steps than its weight, whatever has
  -- happened to it before and in whatever order its goroutines move; and it comes to rest, where either
  -- it is alive and no event is left in any of its queues, or it is cancelled and its goroutines have
  -- returned.
  pub open_stream-Rests :
      (sched mqtt : Queue A) (s : Stream A)
      → (sched.buf ≢ [] → sched.notify ≡ true)
      → (mqtt.buf ≢ [] → mqtt.notify ≡ true)
      → Reach (open_stream sched mqtt) s
      → ((n : ℕ) (t : Stream A) → Run t n s → n ≤ weight s) × Rests s
  open_stream-Rests sched mqtt s h k r =
      let told = Reach-IsTold (open_stream-IsTold sched mqtt h k) r in
      (λ n t r. omega (arith, Run-le-weight r), rest_within (weight s) s (omega arith) told)
