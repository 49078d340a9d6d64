-- ===== src/Api/Stream/Told.antt =====
-- Nobody waits beside a queue with events without having been told, or being about to be.
use split_flap_display_web.Prelude.{◌<◌, ◌≡◌, ◌≢◌, ◌⊎◌, inl, inr, refl, Bool, true, [], arith}
use split_flap_display_web.Queue.{Queue, pop}
use split_flap_display_web.Queue.Delivery.{notify-signal, pop_of_none}
use split_flap_display_web.Api.Stream.{
  Relay, waiting, telling, stopped, Writer, selecting, ended, Source, Stream, open_stream, Relays,
  signals, stops, wakes, takes, settles, hands_over, tells, detach, Step, relays_sched, relays_mqtt,
  falls_back, emits, opened, notified, writes, written_all, returns, Outside, event_sched,
  event_mqtt, starts, shuts_down, write_opening_fails, write_fails, keepalive_fails, Reach, here,
  inside, outside,
}

module _ {ℓ} {A : Type ℓ} where
  -- A relay at its select has been told of what is in its queue, or a producer is about to tell it.
  abbrev pub IsHeard : Source A → Type ℓ
  IsHeard s = s.relay ≡ waiting → s.queue.buf ≢ [] → (0 < s.unsignalled) ⊎ (s.queue.notify ≡ true)

  -- So has a writer at its select, or a relay is about to tell it.
  abbrev pub IsNoticed : Writer → Queue A → Relay A → Relay A → Type ℓ
  IsNoticed w m r r' =
      w ≡ selecting → m.buf ≢ [] → (r ≡ telling) ⊎ (r' ≡ telling) ⊎ (m.notify ≡ true)

  -- Together with: what has returned, has returned because the stream is cancelled.
  pub record IsTold (s : Stream A) : Type ℓ where
    pub sched : IsHeard s.sched
    pub mqtt : IsHeard s.mqtt
    pub merged : IsNoticed s.writer s.merged s.sched.relay s.mqtt.relay
    pub sched_live : s.sched.relay ≡ stopped → s.cancelled ≡ true
    pub mqtt_live : s.mqtt.relay ≡ stopped → s.cancelled ≡ true
    pub writer_live : s.writer ≡ ended → s.cancelled ≡ true

  -- A seeded queue: its events have been signalled.
  pub open_stream-IsTold :
      (sched mqtt : Queue A)
      → (sched.buf ≢ [] → sched.notify ≡ true)
      → (mqtt.buf ≢ [] → mqtt.notify ≡ true)
      → IsTold (open_stream sched mqtt)
  unfolding open_stream
  open_stream-IsTold sched mqtt h k = record {
    sched = λ w ne. inr (h ne);
    mqtt = λ w ne. inr (k ne);
    merged = λ w ne. cc;
    sched_live = λ e. cc;
    mqtt_live = λ e. cc;
    writer_live = λ e. cc;
  }

  Relays-IsHeard :
      {c : Bool} {s t : Source A} {m n : Queue A} → Relays c s m t n → IsHeard s → IsHeard t
  Relays-IsHeard {s} (signals n e) h = λ w ne. inr (notify-signal s.queue)
  Relays-IsHeard (stops e c) h = λ w ne. cc
  Relays-IsHeard (wakes e n) h = λ w ne. cc
  Relays-IsHeard (takes a e p) h = λ w ne. cc
  Relays-IsHeard {s} (settles e p) h = λ w ne. absurd (ne (pop_of_none s.queue p))
  Relays-IsHeard (hands_over a e) h = λ w ne. cc
  Relays-IsHeard (tells e) h = λ w ne. cc

  Relays-IsNoticed :
      {c : Bool} {s t : Source A} {m n : Queue A} {w : Writer} {r : Relay A}
      → Relays c s m t n
      → IsNoticed w m s.relay r
      → IsNoticed w n t.relay r
  Relays-IsNoticed (signals n e) h = h
  Relays-IsNoticed (stops e c) h = λ w ne. ground (arith, h w ne)
  Relays-IsNoticed (wakes e n) h = λ w ne. ground (arith, h w ne)
  Relays-IsNoticed (takes a e p) h = λ w ne. ground (arith, h w ne)
  Relays-IsNoticed (settles e p) h = λ w ne. ground (arith, h w ne)
  Relays-IsNoticed (hands_over a e) h = λ w ne. inl refl
  Relays-IsNoticed {m} (tells e) h = λ w ne. inr (inr (notify-signal m))

  Relays-live :
      {c : Bool} {s t : Source A} {m n : Queue A}
      → Relays c s m t n
      → (s.relay ≡ stopped → c ≡ true)
      → t.relay ≡ stopped
      → c ≡ true
  Relays-live (signals n e) h = h
  Relays-live (stops e c) h = λ w. c
  Relays-live (wakes e n) h = λ w. cc
  Relays-live (takes a e p) h = λ w. cc
  Relays-live (settles e p) h = λ w. cc
  Relays-live (hands_over a e) h = λ w. cc
  Relays-live (tells e) h = λ w. cc

  swap-IsNoticed :
      (w : Writer) (m : Queue A) (r r' : Relay A) → IsNoticed w m r r' → IsNoticed w m r' r
  swap-IsNoticed w m r r' h = λ e ne. elim (h e ne) [
    | inl a ↦ inr (inl a)
    | inr (inl b) ↦ inl b
    | inr (inr n) ↦ inr (inr n)
  ]

  -- The writer has returned, and the stream is cancelled.
  gone :
      (s : Stream A) (m : Queue A)
      → IsHeard s.sched
      → IsHeard s.mqtt
      → IsTold (record (detach s) { merged = m; writer = ended })
  unfolding detach
  gone s m h k = record {
    sched = h;
    mqtt = k;
    merged = λ w ne. cc;
    sched_live = λ w. refl;
    mqtt_live = λ w. refl;
    writer_live = λ w. refl;
  }

  pub Step-IsTold : {s t : Stream A} → Step s t → IsTold s → IsTold t
  unfolding detach
  Step-IsTold {s} (relays_sched r) h = record {
    sched = Relays-IsHeard r h.sched;
    mqtt = h.mqtt;
    merged = Relays-IsNoticed r h.merged;
    sched_live = Relays-live r h.sched_live;
    mqtt_live = h.mqtt_live;
    writer_live = h.writer_live;
  }
  Step-IsTold {s} (relays_mqtt {t} {m} r) h = record {
    sched = h.sched;
    mqtt = Relays-IsHeard r h.mqtt;
    merged =
        swap-IsNoticed s.writer m t.relay s.sched.relay (
          Relays-IsNoticed r
            (swap-IsNoticed s.writer s.merged s.sched.relay s.mqtt.relay h.merged));
    sched_live = h.sched_live;
    mqtt_live = Relays-live r h.mqtt_live;
    writer_live = h.writer_live;
  }
  Step-IsTold (falls_back e c) h = record {
    sched = h.sched;
    mqtt = h.mqtt;
    merged = λ w ne. cc;
    sched_live = λ w. refl;
    mqtt_live = λ w. refl;
    writer_live = λ w. refl;
  }
  Step-IsTold (emits a e p) h = record {
    sched = h.sched;
    mqtt = h.mqtt;
    merged = λ w ne. cc;
    sched_live = h.sched_live;
    mqtt_live = h.mqtt_live;
    writer_live = h.writer_live;
  }
  Step-IsTold {s} (opened e p) h = record {
    sched = h.sched;
    mqtt = h.mqtt;
    merged = λ w ne. absurd (ne (pop_of_none s.merged p));
    sched_live = h.sched_live;
    mqtt_live = h.mqtt_live;
    writer_live = λ w. cc;
  }
  Step-IsTold (notified e n) h = record {
    sched = h.sched;
    mqtt = h.mqtt;
    merged = λ w ne. cc;
    sched_live = h.sched_live;
    mqtt_live = h.mqtt_live;
    writer_live = λ w. cc;
  }
  Step-IsTold (writes a e p) h = record {
    sched = h.sched;
    mqtt = h.mqtt;
    merged = λ w ne. cc;
    sched_live = h.sched_live;
    mqtt_live = h.mqtt_live;
    writer_live = h.writer_live;
  }
  Step-IsTold {s} (written_all e p) h = record {
    sched = h.sched;
    mqtt = h.mqtt;
    merged = λ w ne. absurd (ne (pop_of_none s.merged p));
    sched_live = h.sched_live;
    mqtt_live = h.mqtt_live;
    writer_live = λ w. cc;
  }
  Step-IsTold {s} (returns e c) h = gone s s.merged h.sched h.mqtt

  Outside-IsTold : {s t : Stream A} → Outside s t → IsTold s → IsTold t
  unfolding detach
  Outside-IsTold (event_sched e) h = record {
    sched = λ w ne. inl (omega arith);
    mqtt = h.mqtt;
    merged = h.merged;
    sched_live = h.sched_live;
    mqtt_live = h.mqtt_live;
    writer_live = h.writer_live;
  }
  Outside-IsTold (event_mqtt e) h = record {
    sched = h.sched;
    mqtt = λ w ne. inl (omega arith);
    merged = h.merged;
    sched_live = h.sched_live;
    mqtt_live = h.mqtt_live;
    writer_live = h.writer_live;
  }
  Outside-IsTold (starts e) h = record {
    sched = h.sched;
    mqtt = h.mqtt;
    merged = λ w ne. cc;
    sched_live = h.sched_live;
    mqtt_live = h.mqtt_live;
    writer_live = λ w. cc;
  }
  Outside-IsTold shuts_down h = record {
    sched = h.sched;
    mqtt = h.mqtt;
    merged = h.merged;
    sched_live = λ w. refl;
    mqtt_live = λ w. refl;
    writer_live = λ w. refl;
  }
  Outside-IsTold {s} (write_opening_fails e o p) h = gone s (pop s.merged).1 h.sched h.mqtt
  Outside-IsTold {s} (write_fails e o p) h = gone s (pop s.merged).1 h.sched h.mqtt
  Outside-IsTold {s} (keepalive_fails o) h = gone s s.merged h.sched h.mqtt

  -- Whatever happens, and in whatever order.
  pub Reach-IsTold : {s t : Stream A} → IsTold s → Reach s t → IsTold t
  Reach-IsTold h here = h
  Reach-IsTold h (inside r st) = Step-IsTold st (Reach-IsTold h r)
  Reach-IsTold h (outside r o) = Outside-IsTold o (Reach-IsTold h r)
