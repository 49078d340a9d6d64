-- ===== src/Mqtt/Lifecycle/Local.antt =====
-- What is true of each goroutine and of the Stop that waits for it, by itself.
use split_flap_display_web.Prelude.{◌≡◌, ◌⊎◌, refl, inl, Bool, true, false, ◌||◌, arith}
use split_flap_display_web.Mqtt.Lifecycle.{
  closed, absent, disconnecting, awaiting, returned, Worker, selects, Works, leaves, tries, fails,
  retries, succeeds, closes, cancels, disconnects, returns, Clears, clears,
}

pub record IsLocal (root_done : Bool) (w : Worker) : Type 0 where
  pub untouched : w.stopper ≡ absent → w.cancelled ≡ false
  pub told : (w.stopper ≡ disconnecting) ⊎ (w.stopper ≡ awaiting) → w.cancelled ≡ true
  pub waited : w.stopper ≡ returned → w.place ≡ closed
  pub cause : selects w.place ≡ false → w.cancelled || root_done ≡ true

pub Works-IsLocal : {d : Bool} (v w : Worker) → Works d v w → IsLocal d v → IsLocal d w
Works-IsLocal v w (leaves e f) h = record {
  untouched = h.untouched;
  told = h.told;
  waited = λ k. ground (arith, h.waited k);
  cause = λ k. f;
}
Works-IsLocal v w (tries e f) h = record {
  untouched = h.untouched;
  told = h.told;
  waited = λ k. ground (arith, h.waited k);
  cause = λ k. ground arith;
}
Works-IsLocal v w (fails e) h = record {
  untouched = h.untouched;
  told = h.told;
  waited = λ k. ground (arith, h.waited k);
  cause = λ k. ground arith;
}
Works-IsLocal v w (retries e) h = record {
  untouched = h.untouched;
  told = h.told;
  waited = λ k. ground (arith, h.waited k);
  cause = λ k. ground arith;
}
Works-IsLocal v w (succeeds e) h = record {
  untouched = h.untouched;
  told = h.told;
  waited = λ k. ground (arith, h.waited k);
  cause = λ k. ground arith;
}
Works-IsLocal v w (closes e) h = record {
  untouched = h.untouched;
  told = h.told;
  waited = λ k. refl;
  cause = λ k. h.cause (rw e refl);
}
Works-IsLocal v w (cancels e) h = record {
  untouched = λ k. cc;
  told = λ k. refl;
  waited = λ k. cc;
  cause = λ k. refl;
}
Works-IsLocal v w (disconnects e) h = record {
  untouched = λ k. cc;
  told = λ k. h.told (inl e);
  waited = λ k. cc;
  cause = h.cause;
}
Works-IsLocal v w (returns e f) h = record {
  untouched = λ k. cc;
  told = λ k. ground arith;
  waited = λ k. f;
  cause = h.cause;
}

pub Clears-IsLocal : {d : Bool} (v w : Worker) → Clears v w → IsLocal d v → IsLocal d w
Clears-IsLocal v w (clears e) h = record {
  untouched = h.untouched;
  told = h.told;
  waited = λ k. ground (arith, h.waited k);
  cause = λ k. h.cause (rw e refl);
}
