-- ===== src/Models/Marks.antt =====
-- What any run of `MarkDisplayed` and `MarkCompleted` makes of a new message.
use split_flap_display_web.Prelude.{
  ℕ, ◌≡◌, refl, Option, none, some, List, [], ◌∷◌, length, Bool, true, false, arith,
}
use split_flap_display_web.Models.{
  Message, MessageStatus, pending, active, completed, mark_displayed, mark_completed,
}

-- A call of one of the two mutating methods.
pub data Mark : Type 0 where
  displays : ℕ → Mark
  completes : Mark

pub apply_marks : List Mark → Message → Message
apply_marks [] m = m
apply_marks (displays now ∷ ms) m = apply_marks ms (mark_displayed now m)
apply_marks (completes ∷ ms) m = apply_marks ms (mark_completed m)

-- The times at which the message was shown, latest first.
pub shown : List ℕ → List Mark → List ℕ
shown before [] = before
shown before (displays now ∷ ms) = shown (now ∷ before) ms
shown before (completes ∷ ms) = shown before ms

pub was_completed : List Mark → Bool
was_completed [] = false
was_completed (displays now ∷ ms) = was_completed ms
was_completed (completes ∷ ms) = true

abbrev pub latest : List ℕ → Option ℕ
latest [] = none
latest (t ∷ ts) = some t

-- Completed once completed; else active once shown; else pending.
abbrev pub status_after : Bool → List ℕ → MessageStatus
status_after true ts = completed
status_after false [] = pending
status_after false (t ∷ ts) = active

-- The mutable fields, read off the times of display and whether the message was completed.
pub record Reads (times : List ℕ) (ended : Bool) (m : Message) : Type 0 where
  pub count : m.display_count ≡ length times
  pub last : m.last_displayed_at ≡ latest times
  pub state : m.status ≡ status_after ended times

mark_displayed-Reads :
    (now : ℕ) (ts : List ℕ) (ended : Bool) (m : Message)
    → Reads ts ended m
    → Reads (now ∷ ts) ended (mark_displayed now m)
unfolding mark_displayed
mark_displayed-Reads now ts true m r = record {
  count = omega (arith, r.count);
  last = refl;
  state = ground (arith, r.state);
}
mark_displayed-Reads now [] false m r = record {
  count = omega (arith, r.count);
  last = refl;
  state = ground (arith, r.state);
}
mark_displayed-Reads now (t ∷ ts) false m r = record {
  count = omega (arith, r.count);
  last = refl;
  state = ground (arith, r.state);
}

mark_completed-Reads :
    (ts : List ℕ) (ended : Bool) (m : Message) → Reads ts ended m → Reads ts true (mark_completed m)
unfolding mark_completed
mark_completed-Reads ts ended m r = record { count = r.count; last = r.last; state = refl }

or_completed : Bool → List Mark → Bool
or_completed true ms = true
or_completed false ms = was_completed ms

or_completed-displays :
    (ended : Bool) (now : ℕ) (ms : List Mark)
    → or_completed ended (displays now ∷ ms) ≡ or_completed ended ms
unfolding or_completed was_completed
or_completed-displays true now ms = refl
or_completed-displays false now ms = refl

or_completed-completes :
    (ended : Bool) (ms : List Mark) → or_completed ended (completes ∷ ms) ≡ or_completed true ms
unfolding or_completed was_completed
or_completed-completes true ms = refl
or_completed-completes false ms = refl

or_completed-nil : (ended : Bool) → or_completed ended [] ≡ ended
unfolding or_completed was_completed
or_completed-nil true = refl
or_completed-nil false = refl

apply_marks_from :
    (ms : List Mark) (ts : List ℕ) (ended : Bool) (m : Message)
    → Reads ts ended m
    → Reads (shown ts ms) (or_completed ended ms) (apply_marks ms m)
unfolding apply_marks shown
apply_marks_from [] ts ended m r = rw (or_completed-nil ended) r
apply_marks_from (displays now ∷ ms) ts ended m r = rw (or_completed-displays ended now ms) (
    apply_marks_from ms (now ∷ ts) ended (mark_displayed now m)
      (mark_displayed-Reads now ts ended m r))
apply_marks_from (completes ∷ ms) ts ended m r =
    rw (or_completed-completes ended ms)
      (apply_marks_from ms ts true (mark_completed m) (mark_completed-Reads ts ended m r))

-- Whatever the interleaving of `MarkDisplayed` and `MarkCompleted` on a new message, its display
-- count is the number of displays, its last display the latest of them, and its status completed if it
-- was ever completed (also if it was shown afterwards), else active if it was ever shown, else pending.
pub apply_marks-Reads :
    (ms : List Mark) (m : Message)
    → m.display_count ≡ 0
    → m.last_displayed_at ≡ none
    → m.status ≡ pending
    → Reads (shown [] ms) (was_completed ms) (apply_marks ms m)
unfolding or_completed
apply_marks-Reads ms m c l s =
    apply_marks_from ms [] false m (record { count = c; last = l; state = s })
