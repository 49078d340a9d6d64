-- ===== src/Scheduler/Requests/Racing.antt =====
-- Two calls of AddMessage that overlap: the limit is checked under one lock and the message is stored
-- under another, so that both calls can pass the check before either stores its message.
use split_flap_display_web.Prelude.{ℕ, ◌+◌, ◌≡◌, refl, none, Text, length, lookup, arith}
use split_flap_display_web.Models.{Zone, new_message}
use split_flap_display_web.Scheduler.{Scheduler, active_messages}
use split_flap_display_web.Scheduler.Requests.{Input, Draft, ok, validate, accept, draft_message}
use split_flap_display_web.Scheduler.Requests.Validation.{validate_iff}
use split_flap_display_web.Scheduler.Requests.Adding.{accept_active}
use split_flap_display_web.Scheduler.Invariant.{IsValid, accept-IsValid}

-- Two inputs that are both valid before either message is stored are both accepted, and two more
-- messages are active afterwards: the limit of 100 active messages is passed by one if 99 were active.
pub accept_race :
    (z : Zone) (id id' : Text) (now now' : ℕ) (i j : Input) (s : Scheduler) (d d' : Draft)
    → IsValid s
    → validate i s ≡ ok d
    → validate j s ≡ ok d'
    → lookup id s.store.by_id ≡ none
    → lookup id' (accept z (draft_message id now i d) s).store.by_id ≡ none
    → length (
        active_messages
          (accept z (draft_message id' now' j d') (accept z (draft_message id now i d) s)))
      ≡ length (active_messages s) + 2
unfolding draft_message new_message
accept_race z id id' now now' i j s d d' v first second fresh fresh' =
    let m = draft_message id now i d in
    let s₁ = accept z m s in
    let v₁ = accept-IsValid z m s ((validate_iff i s d).0 first).room v in
    omega (
      arith,
      accept_active z m s v refl fresh,
      accept_active z (draft_message id' now' j d') s₁ v₁ refl fresh',
    )
