-- ===== src/Api/Stream.antt =====
-- The event stream of backend-go/internal/api/server.go: `handleSSE`, with its two relays, its writer and
-- the fallback for a writer that never starts, and `registerSSE`, `unregisterSSE` and `Shutdown`.
--
-- Every goroutine is a state, and a step is what it does between two points where another can come in:
-- a select that fires, a pop, a push's insertion under the lock, its signal, a write. A select with
-- several ready cases takes any of them. Elements are of any type: the stream never looks into an event.
pub mod Told
pub mod Progress
pub mod Rest
pub mod Order
pub mod Frames
pub mod RoundTrip
pub mod Registry
use split_flap_display_web.Prelude.{
  ℕ, suc, ◌+◌, ◌≡◌, Bool, true, false, Option, none, some, List, [], ◌∷◌, ◌++◌, pos,
}
use split_flap_display_web.Queue.{Queue, insert, signal, pop}
use split_flap_display_web.Queue

-- Where a relay stands: at its select, in the loop that pops, with an event in hand, between the
-- insertion and the signal of its push, or returned.
pub data Relay {ℓ} (A : Type ℓ) : Type ℓ where
  waiting draining telling stopped : Relay A
  carrying : A → Relay A

-- The function that fasthttp calls to write the response. `absent` is before it is called.
pub data Writer : Type 0 where
  absent opening selecting writing ended : Writer

-- A subscription: the queue, how many producers have inserted and not signalled, and the relay.
pub record Source {ℓ} (A : Type ℓ) : Type ℓ where
  pub queue : Queue A
  pub unsignalled : ℕ
  pub relay : Relay A

pub record Stream {ℓ} (A : Type ℓ) : Type ℓ where
  pub sched : Source A
  pub mqtt : Source A
  pub merged : Queue A
  pub writer : Writer
  -- Whether the stream's context is done.
  pub cancelled : Bool
  -- Whether both queues are still subscribed.
  pub attached : Bool
  -- What has reached the client.
  pub written : List A

module _ {ℓ} {A : Type ℓ} where
  source_of : Queue A → Source A
  source_of q = record { queue = q; unsignalled = 0; relay = waiting }

  -- `handleSSE` up to its return, with the two queues that it has subscribed.
  unfoldable pub open_stream : Queue A → Queue A → Stream A
  unfolding source_of
  open_stream sched mqtt = record {
    sched = source_of sched;
    mqtt = source_of mqtt;
    merged = Queue.new (pos 1000);
    writer = absent;
    cancelled = false;
    attached = true;
    written = [];
  }

  -- What a producer's signal and a relay do: to the subscription and to the merged queue.
  pub data Relays (cancelled : Bool) (s : Source A) (m : Queue A)
      : Source A → Queue A → Type ℓ where
    signals :
        (n : ℕ)
        → s.unsignalled ≡ suc n
        → Relays cancelled s m (record s { queue = signal s.queue; unsignalled = n }) m
    stops :
        s.relay ≡ waiting → cancelled ≡ true → Relays cancelled s m (record s { relay = stopped }) m
    wakes :
        s.relay ≡ waiting
        → s.queue.notify ≡ true
        → Relays cancelled s m
            (record s { queue = record s.queue { notify = false }; relay = draining })
            m
    takes :
        (e : A)
        → s.relay ≡ draining
        → (pop s.queue).0 ≡ some e
        → Relays cancelled s m (record s { queue = (pop s.queue).1; relay = carrying e }) m
    settles :
        s.relay ≡ draining
        → (pop s.queue).0 ≡ none
        → Relays cancelled s m (record s { relay = waiting }) m
    hands_over :
        (e : A)
        → s.relay ≡ carrying e
        → Relays cancelled s m (record s { relay = telling }) (insert m e)
    tells : s.relay ≡ telling → Relays cancelled s m (record s { relay = draining }) (signal m)

  -- The deferred calls of the writer, and what the fallback does.
  pub detach : Stream A → Stream A
  detach s = record s { cancelled = true; attached = false }

  -- A step of the stream on its own.
  pub data Step (s : Stream A) : Stream A → Type ℓ where
    relays_sched :
        {t : Source A} {m : Queue A}
        → Relays s.cancelled s.sched s.merged t m
        → Step s (record s { sched = t; merged = m })
    relays_mqtt :
        {t : Source A} {m : Queue A}
        → Relays s.cancelled s.mqtt s.merged t m
        → Step s (record s { mqtt = t; merged = m })
    -- The grace period is over and the writer has not started. A writer that starts between this test
    -- and the cancellation does what one does that starts after it: it looks at the context only once it
    -- has emptied the merged queue.
    falls_back : s.writer ≡ absent → s.cancelled ≡ false → Step s (detach s)
    -- An event in the loop before the select, and in the loop after a notification.
    emits :
        (e : A)
        → s.writer ≡ opening
        → (pop s.merged).0 ≡ some e
        → Step s (record s { merged = (pop s.merged).1; written = s.written ++ e ∷ [] })
    opened : s.writer ≡ opening → (pop s.merged).0 ≡ none → Step s (record s { writer = selecting })
    notified :
        s.writer ≡ selecting
        → s.merged.notify ≡ true
        → Step s (record s { merged = record s.merged { notify = false }; writer = writing })
    writes :
        (e : A)
        → s.writer ≡ writing
        → (pop s.merged).0 ≡ some e
        → Step s (record s { merged = (pop s.merged).1; written = s.written ++ e ∷ [] })
    written_all :
        s.writer ≡ writing → (pop s.merged).0 ≡ none → Step s (record s { writer = selecting })
    returns :
        s.writer ≡ selecting → s.cancelled ≡ true → Step s (record (detach s) { writer = ended })

  -- What comes from outside: an event for a subscriber, the call of the writer,
  -- a shutdown, and a write or a keepalive that fails because the client has gone.
  pub data Outside (s : Stream A) : Stream A → Type ℓ where
    event_sched :
        (e : A)
        → Outside s (record s {
          sched = record s.sched {
            queue = insert s.sched.queue e;
            unsignalled = s.sched.unsignalled + 1;
          };
        })
    event_mqtt :
        (e : A)
        → Outside s (record s {
          mqtt = record s.mqtt {
            queue = insert s.mqtt.queue e;
            unsignalled = s.mqtt.unsignalled + 1;
          };
        })
    starts : s.writer ≡ absent → Outside s (record s { writer = opening })
    shuts_down : Outside s (record s { cancelled = true })
    write_opening_fails :
        (e : A)
        → s.writer ≡ opening
        → (pop s.merged).0 ≡ some e
        → Outside s (record (detach s) { merged = (pop s.merged).1; writer = ended })
    write_fails :
        (e : A)
        → s.writer ≡ writing
        → (pop s.merged).0 ≡ some e
        → Outside s (record (detach s) { merged = (pop s.merged).1; writer = ended })
    keepalive_fails : s.writer ≡ selecting → Outside s (record (detach s) { writer = ended })

  pub data Reach (s : Stream A) : Stream A → Type ℓ where
    here : Reach s s
    inside : {t u : Stream A} → Reach s t → Step t u → Reach s u
    outside : {t u : Stream A} → Reach s t → Outside t u → Reach s u
