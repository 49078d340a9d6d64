-- ===== src/Scheduler/Stock/Sent.antt =====
-- What the ticks hand to the MQTT client.
use Prim.Native.Nat.{max}
use split_flap_display_web.Prelude.{
  ℕ, ◌<◌, ◌≤◌, ◌≡◌, ◌⊎◌, refl, inl, inr, Bool, true, false, Option, none, some, List, [], ◌∷◌, Text,
  length, arith, All, if◌then◌else◌, text_eq, Bool-cases, to_ℕ, ℤ,
}
use split_flap_display_web.Models.{Message, Zone}
use split_flap_display_web.Scheduler.{Scheduler, select_next_message, notify}
use split_flap_display_web.Scheduler.Invariant.{IsValid}
use split_flap_display_web.Scheduler.Loop.{select-live}
use split_flap_display_web.Scheduler.Rendering.{pad_to_width, publish_payload}
use split_flap_display_web.Scheduler.Rendering.Width.{publish_payload-length, nil_or_not}
use split_flap_display_web.Scheduler.Ticks.{
  Env, Ticked, show, handle_idle, display, tick_of, scheduler_tick, publishes_when_idle,
}
use split_flap_display_web.Scheduler.Stock.{IsSound, IsStocked}

pad_to_width_unaligned : (text : Text) (width : ℤ) → pad_to_width text [] width ≡ text
unfolding pad_to_width text_eq
pad_to_width_unaligned text width = ground arith

-- An unaligned text goes out as it is.
length-unaligned :
    (s : Scheduler) (m : Message)
    → m.align ≡ []
    → length (publish_payload s m) ≤ max (length m.message) (to_ℕ s.display_width)
unfolding publish_payload
length-unaligned s m e = elim (nil_or_not m.message) [
  | inl blank ↦ omega (arith, publish_payload-length s m (inl blank))
  | inr shown ↦ rw (shown, e, pad_to_width_unaligned m.message s.display_width) (omega arith)
]

length-publish_payload-le :
    (s : Scheduler) (m : Message)
    → IsSound m
    → length (publish_payload s m) ≤ max 256 (to_ℕ s.display_width)
length-publish_payload-le s m v = elim v.aligned [
  | inr aligned ↦ omega (arith, publish_payload-length s m (inr aligned), v.short)
  | inl e ↦ omega (arith, length-unaligned s m e, v.short)
]

-- What a tick may hand over: the idle message, or a text that the display's driver can take.
abbrev pub IsSendable : Scheduler → Text × Text → Type 0
IsSendable s (topic, payload) =
    (topic ≡ s.publish_topic)
    × ((payload ≡ s.idle_message) ⊎ (length payload ≤ max 256 (to_ℕ s.display_width)))

either-sent :
    (b : Bool) (t u : Ticked) (l : List (Text × Text))
    → t.sent ≡ l
    → u.sent ≡ l
    → (if b then t else u).sent ≡ l
either-sent true t u l e k = e
either-sent false t u l e k = k

sent-display :
    (z : Zone) (env : Env) (r : ℕ) (s : Scheduler)
    → (display z env r s).sent
      ≡ (s.publish_topic, publish_payload (show z r s) ((show z r s).heap.cell r)) ∷ []
unfolding display
sent-display z env r s = either-sent _ _ _ _ refl refl

show-IsSendable :
    (z : Zone) (r : ℕ) (s : Scheduler)
    → r < s.heap.next
    → IsStocked s
    → IsSendable s (s.publish_topic, publish_payload (show z r s) ((show z r s).heap.cell r))
unfolding show notify
show-IsSendable z r s lt v =
    (refl, inr (length-publish_payload-le (show z r s) (s.heap.cell r) (v.sound r lt)))

display-sends :
    (z : Zone) (env : Env) (r : ℕ) (s : Scheduler)
    → r < s.heap.next
    → IsStocked s
    → (length (display z env r s).sent ≤ 1) × All (IsSendable s) (display z env r s).sent
display-sends z env r s lt v =
    rw (sent-display z env r s) (omega arith, (show-IsSendable z r s lt v, tt))

tick_of-sends :
    (z : Zone) (env : Env) (s : Scheduler) (o : Option ℕ)
    → select_next_message s ≡ o
    → IsValid s
    → IsStocked s
    → (length (tick_of z env s o).sent ≤ 1) × All (IsSendable s) (tick_of z env s o).sent
unfolding tick_of handle_idle
tick_of-sends z env s none e v w = elim (Bool-cases (publishes_when_idle s.idle_mode)) [
  | inl on ↦ rw on (omega arith, ((refl, inl refl), tt))
  | inr off ↦ rw off (omega arith, tt)
]
tick_of-sends z env s (some r) e v w = display-sends z env r s (select-live s r v e) w

-- A tick publishes at most once, on the scheduler's topic, and either the idle message or a text of at
-- most 256 characters or the width of the display, whichever is more.
pub scheduler_tick-sends :
    (z : Zone) (env : Env) (s : Scheduler)
    → IsValid s
    → IsStocked s
    → (length (scheduler_tick z env s).sent ≤ 1) × All (IsSendable s) (scheduler_tick z env s).sent
unfolding scheduler_tick
scheduler_tick-sends z env s v w = tick_of-sends z env s (select_next_message s) refl v w
