-- ===== src/Api/Publishing.antt =====
-- POST /api/publish: every answer, and what it did.
use split_flap_display_web.Prelude.{ℕ, ◌≡◌, ◌⊎◌, Option, none, some, Text}
use split_flap_display_web.Models.{Priority, Zone, parse_priority}
use split_flap_display_web.Scheduler.{Scheduler}
use split_flap_display_web.Scheduler.Requests.{Input, Draft, draft_message}
use split_flap_display_web.Scheduler.Requests.Validation.{Checked}
use split_flap_display_web.Scheduler.Requests.Adding.{Added}
use split_flap_display_web.Api.{Detail, Response, answers, fails}

-- An error answer, which leaves the scheduler as it was: the client's mistake, or a full queue.
pub record Refused (s : Scheduler) (r : Response Text × Scheduler) : Type 0 where
  pub status : ℕ
  pub detail : Detail
  pub refused : r ≡ (fails status detail, s)
  pub client_error : (status ≡ 400) ⊎ (status ≡ 429)

-- The message of the input `i` has been added, and its identifier is the answer.
pub record Published (z : Zone) (id : Text) (now : ℕ) (i : Input) (s : Scheduler)
    (r : Response Text × Scheduler) : Type 0 where
  pub draft : Draft
  pub checked : Checked i s draft
  pub answered : r.0 ≡ answers id
  pub added : Added z (draft_message id now i draft) s r.1

-- The priority that a request names, if it names one.
pub data Names : Option Text → Option Priority → Type 0 where
  no_priority : Names none none
  priority_named : (w : Text) (p : Priority) → parse_priority w ≡ some p → Names (some w) (some p)
