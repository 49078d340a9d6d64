-- ===== src/Tests/Streams.antt =====
-- The event stream at concrete inputs.
use split_flap_display_web.Prelude.{
  Bool, ltb, leb, keep_if, ℕ, ◌+◌, ◌≤◌, ◌≡◌, refl, none, true, false, ◌||◌, arith, List, [], ◌∷◌,
  map, Text, codes,
}
use split_flap_display_web.Events.{Body, current_body, display_state_body}
use split_flap_display_web.Queue.{Queue, insert, pop, signal}
use split_flap_display_web.Queue
use mathlib.Core.List.{Sublist}
use split_flap_display_web.Api.Stream.Order.Written.{events_sched, events_mqtt, Reach-sublist}
use split_flap_display_web.Api.Stream.{
  Stream, open_stream, opening, Reach, here, inside, outside, event_sched, starts, relays_sched,
  wakes, takes, hands_over, tells, emits, draining,
}
use split_flap_display_web.Api.Stream.Rest.{weight, Run, Rests, open_stream-Rests}
use split_flap_display_web.Api.Stream.Frames.{Chunk, frame, keepalive, nothing_read, write_all}
use split_flap_display_web.Api.Stream.RoundTrip.{events_of, received, read-write_all}
use split_flap_display_web.Tests.Browsers.{browser}
use split_flap_display_web.Api.Stream.Registry.{
  Registry, mem, registers, unregisters, shuts_down, Op, run, registered_after, shut_down_in,
  run_registry,
}

-- A subscription that was seeded with one event, and one with none.
abbrev seeded : Queue ℕ
seeded = record { buf = 7 ∷ []; cap = 1000; notify = true }

abbrev unseeded : Queue ℕ
unseeded = record { buf = []; cap = 1000; notify = false }

-- Then a producer inserts an event, and the writer starts.
abbrev started : Stream ℕ
started =
    let s = open_stream seeded unseeded in
    record s {
      sched = record s.sched {
        queue = insert s.sched.queue 8;
        unsignalled = s.sched.unsignalled + 1;
      };
      writer = opening;
    }

started-Reach : Reach (open_stream seeded unseeded) started
unfolding open_stream
started-Reach = outside (outside here (event_sched 8)) (starts refl)

open_stream-Rests_example :
    ((n : ℕ) (t : Stream ℕ) → Run t n started → n ≤ weight started) × Rests started
open_stream-Rests_example =
    open_stream-Rests seeded unseeded started (λ ne. refl) (λ ne. absurd (ne refl)) started-Reach

-- Then the relay takes over the first event, and the writer writes it.
abbrev delivered : Stream ℕ
delivered = record started {
  sched = record {
    queue = record { buf = 8 ∷ []; cap = 1000; notify = false };
    unsignalled = 1;
    relay = draining;
  };
  merged = record { buf = []; cap = 1000; notify = true };
  written = 7 ∷ [];
}

delivered-Reach : Reach (open_stream seeded unseeded) delivered
unfolding open_stream insert pop signal Queue.new
delivered-Reach =
    inside
      (inside
        (inside
          (inside
            (inside (outside (outside here (event_sched 8)) (starts refl))
              (relays_sched (wakes refl refl)))
            (relays_sched (takes 7 refl refl)))
          (relays_sched (hands_over 7 refl)))
        (relays_sched (tells refl)))
      (emits 7 refl refl)

small : ℕ → Bool
small e = ltb e 100

large : ℕ → Bool
large e = leb 100 e

Reach-sublist_example :
    Sublist (keep_if small (7 ∷ [])) (events_sched (7 ∷ []) delivered-Reach)
    × Sublist (keep_if large (7 ∷ [])) (events_mqtt [] delivered-Reach)
unfolding events_sched events_mqtt delivered-Reach small large
Reach-sublist_example =
    Reach-sublist small large seeded unseeded delivered delivered-Reach
      ((refl, refl), ((refl, refl), tt)) tt

abbrev marshal : Body → Text
marshal (display_state_body t) = codes "{}"
marshal b = codes "null"

abbrev chunks : List Chunk
chunks =
    frame (record { name = codes "scheduler"; body = display_state_body (codes "HI") })
    ∷ keepalive
    ∷ frame (record { name = codes "display-state"; body = current_body none })
    ∷ []

read-write_all_example :
    browser.read nothing_read (write_all marshal chunks) ≡ map (received marshal) (events_of chunks)
unfolding events_of
read-write_all_example =
    read-write_all browser marshal chunks
      ((λ e. cc, omega arith, omega arith), ((λ e. cc, omega arith, omega arith), tt))

abbrev pub no_streams : Registry
no_streams = record { sse_cancels = []; cancelled = λ d. false }

-- Stream 1 leaves before the shutdown, stream 2 does not, and stream 3 comes after it.
abbrev comings : List Op
comings = registers 1 ∷ registers 2 ∷ unregisters 1 ∷ shuts_down ∷ registers 3 ∷ []

run_registry_example :
    (mem 2 (run comings no_streams).sse_cancels ≡ registered_after 2 false comings)
    × ((run comings no_streams).cancelled 2 ≡ shut_down_in 2 false comings || false)
unfolding mem
run_registry_example = run_registry comings no_streams 2
