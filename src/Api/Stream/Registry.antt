-- ===== src/Api/Stream/Registry.antt =====
-- `registerSSE`, `unregisterSSE` and `Shutdown` of backend-go/internal/api/server.go: the streams that a
-- shutdown must cancel. A stream is known by its context, a number here. The HTTP server's own shutdown,
-- which Fiber does after that, is left out.
use split_flap_display_web.Prelude.{
  ℕ, ◌≡◌, refl, ◌∙◌, Bool, true, false, not, ◌&&◌, ◌||◌, List, [], ◌∷◌, ◌==◌, if◌then◌else◌,
  keep_if, arith,
}

pub record Registry : Type 0 where
  pub sse_cancels : List ℕ
  -- Which contexts are cancelled.
  pub cancelled : ℕ → Bool

unfoldable pub mem : ℕ → List ℕ → Bool
mem a [] = false
mem a (b ∷ l) = b == a || mem a l

-- A key of the map is there once.
unfoldable pub register_sse : ℕ → Registry → Registry
register_sse d r = record r { sse_cancels = d ∷ keep_if (λ a. not (a == d)) r.sse_cancels }

unfoldable pub unregister_sse : ℕ → Registry → Registry
unregister_sse d r = record r { sse_cancels = keep_if (λ a. not (a == d)) r.sse_cancels }

unfoldable pub cancel : ℕ → (ℕ → Bool) → ℕ → Bool
cancel d cancelled a = if a == d then true else cancelled a

unfoldable pub cancel_each : List ℕ → (ℕ → Bool) → ℕ → Bool
cancel_each [] cancelled = cancelled
cancel_each (d ∷ ds) cancelled = cancel_each ds (cancel d cancelled)

unfoldable pub shutdown : Registry → Registry
shutdown r = record { sse_cancels = []; cancelled = cancel_each r.sse_cancels r.cancelled }

pub data Op : Type 0 where
  registers unregisters : ℕ → Op
  shuts_down : Op

unfoldable pub run : List Op → Registry → Registry
run [] r = r
run (registers d ∷ os) r = run os (register_sse d r)
run (unregisters d ∷ os) r = run os (unregister_sse d r)
run (shuts_down ∷ os) r = run os (shutdown r)

-- Whether a stream is registered after these operations, and whether a shutdown found it registered:
-- told from the operations alone.
pub registered_after : ℕ → Bool → List Op → Bool
registered_after d now [] = now
registered_after d now (registers a ∷ os) = registered_after d (a == d || now) os
registered_after d now (unregisters a ∷ os) = registered_after d (not (a == d) && now) os
registered_after d now (shuts_down ∷ os) = registered_after d false os

pub shut_down_in : ℕ → Bool → List Op → Bool
shut_down_in d now [] = false
shut_down_in d now (registers a ∷ os) = shut_down_in d (a == d || now) os
shut_down_in d now (unregisters a ∷ os) = shut_down_in d (not (a == d) && now) os
shut_down_in d now (shuts_down ∷ os) = now || shut_down_in d false os

mem-keep_if :
    (d a : ℕ) (l : List ℕ) → mem d (keep_if (λ b. not (b == a)) l) ≡ not (a == d) && mem d l
unfolding mem
mem-keep_if d a [] = ground arith
mem-keep_if d a (b ∷ l) = ground (arith, mem-keep_if d a l)

cancel_each-mem :
    (d : ℕ) (ds : List ℕ) (cancelled : ℕ → Bool)
    → cancel_each ds cancelled d ≡ mem d ds || cancelled d
unfolding cancel_each cancel mem
cancel_each-mem d [] cancelled = refl
cancel_each-mem d (a ∷ ds) cancelled = ground (arith, cancel_each-mem d ds (cancel a cancelled))

mem-register_sse :
    (d a : ℕ) (r : Registry) → mem d (register_sse a r).sse_cancels ≡ a == d || mem d r.sse_cancels
unfolding register_sse mem
mem-register_sse d a r = ground (arith, mem-keep_if d a r.sse_cancels)

cancelled-register_sse : (d a : ℕ) (r : Registry) → (register_sse a r).cancelled d ≡ r.cancelled d
unfolding register_sse
cancelled-register_sse d a r = refl

mem-unregister_sse :
    (d a : ℕ) (r : Registry)
    → mem d (unregister_sse a r).sse_cancels ≡ not (a == d) && mem d r.sse_cancels
unfolding unregister_sse
mem-unregister_sse d a r = mem-keep_if d a r.sse_cancels

cancelled-unregister_sse :
    (d a : ℕ) (r : Registry) → (unregister_sse a r).cancelled d ≡ r.cancelled d
unfolding unregister_sse
cancelled-unregister_sse d a r = refl

mem-shutdown : (d : ℕ) (r : Registry) → mem d (shutdown r).sse_cancels ≡ false
unfolding shutdown mem
mem-shutdown d r = refl

cancelled-shutdown :
    (d : ℕ) (r : Registry) → (shutdown r).cancelled d ≡ mem d r.sse_cancels || r.cancelled d
unfolding shutdown
cancelled-shutdown d r = cancel_each-mem d r.sse_cancels r.cancelled

or_swap : (a b c : Bool) → a || (b || c) ≡ (b || a) || c
or_swap a b c = ground arith

-- Whatever streams come, go, and come again around whatever shutdowns, a stream is registered exactly if
-- it was registered last since the last shutdown, and its context has been cancelled by the server
-- exactly if a shutdown found it registered (or it was cancelled before).
pub run_registry :
    (os : List Op) (r : Registry) (d : ℕ)
    → (mem d (run os r).sse_cancels ≡ registered_after d (mem d r.sse_cancels) os)
      × ((run os r).cancelled d ≡ shut_down_in d (mem d r.sse_cancels) os || r.cancelled d)
unfolding run registered_after shut_down_in
run_registry [] r d = (refl, refl)
run_registry (registers a ∷ os) r d =
    rw (mem-register_sse d a r, cancelled-register_sse d a r) at
      (run_registry os (register_sse a r) d)
run_registry (unregisters a ∷ os) r d =
    rw (mem-unregister_sse d a r, cancelled-unregister_sse d a r) at
      (run_registry os (unregister_sse a r) d)
run_registry (shuts_down ∷ os) r d =
    let (registered, cancelled) = run_registry os (shutdown r) d in
    (
      rw (mem-shutdown d r) at registered,
      rw (mem-shutdown d r) at cancelled
          ∙ rw (cancelled-shutdown d r)
              (or_swap (shut_down_in d false os) (mem d r.sse_cancels) (r.cancelled d)),
    )
