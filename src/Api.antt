-- ===== src/Api.antt =====
-- backend-go/internal/api/server.go: what the HTTP handlers answer and what they do to the scheduler.
--
-- Fiber is outside the repository: routing, headers and the parsing of a request's body (`BodyParser`)
-- are arguments, and a response is a status with the value that is encoded as JSON. The identifier and
-- the time of a new message are arguments as well.
pub mod Publishing
pub mod Deleting
pub mod Status
pub mod Stream
pub mod Views
use split_flap_display_web.Prelude.{
  ℕ, zero, suc, Bool, true, false, not, ◌&&◌, ◌||◌, Option, none, some, List, [], ◌∷◌, Text, codes,
  text_eq, leb, ◌==◌, length, if◌then◌else◌, ℤ,
}
use split_flap_display_web.Strings.{to_lower, trim_space, has_prefix, cut}
use split_flap_display_web.Models.{MessageDto, Priority, Zone, parse_priority, parse_align}
use split_flap_display_web.Scheduler.{
  Scheduler, active_messages, current_snapshot, state, high_priority_count,
}
use split_flap_display_web.Scheduler.Requests.{
  Input, AddError, validation_error, queue_full_error, Result, ok, err, add_message, remove_message,
}

pub record PublishRequest : Type 0 where
  pub text : Text
  pub target_display_count : Option ℤ
  pub display_duration : Option ℤ
  pub priority : Option Text
  pub align : Option Text

abbrev pub empty_request : PublishRequest
empty_request = record {
  text = [];
  target_display_count = none;
  display_duration = none;
  priority = none;
  align = none;
}

-- What Fiber knows of a request to publish.
pub record HttpRequest : Type 0 where
  pub body : Text
  pub content_type : Text
  -- The header Cf-Access-Authenticated-User-Email, empty where it is missing.
  pub email : Text

-- The text of an error: as it stands, or QueueFullError's, which prints the limit.
pub data Detail : Type 0 where
  says : Text → Detail
  says_full : ℕ → Detail

pub data Response (A : Type 0) : Type 0 where
  -- Status 200.
  answers : A → Response A
  -- `sendError`
  fails : ℕ → Detail → Response A

-- The body as a request, if it can be parsed; `body_parser` parses a content type and a body. A text/plain
-- body is the text, trimmed.
unfoldable pub read_request :
    (Text → Text → Option PublishRequest) → HttpRequest → Option PublishRequest
read_request body_parser http =
    if text_eq (trim_space http.body) []
    then some empty_request
    else if has_prefix (to_lower http.content_type) (codes "text/plain")
    then some (record empty_request { text = trim_space http.body })
    else body_parser http.content_type http.body

-- The part of an address before its first "@", if there is any.
user_part : Text → Option (Text × Text) → Text
user_part email none = email
user_part email (some ([], after)) = email
user_part email (some (c ∷ before, after)) = c ∷ before

unfoldable pub user_of_email : Text → Text
unfolding user_part
user_of_email email = if text_eq email [] then codes "unknown" else user_part email (cut b'@' email)

pub data Parsed : Type 0 where
  absent unknown : Parsed
  parsed : Priority → Parsed

parsed_of : Option Priority → Parsed
parsed_of none = unknown
parsed_of (some p) = parsed p

unfoldable pub read_priority : Option Text → Parsed
unfolding parsed_of
read_priority none = absent
read_priority (some w) = parsed_of (parse_priority w)

unfoldable pub is_some {ℓ} : {A : Type ℓ} → Option A → Bool
is_some none = false
is_some (some a) = true

unfoldable pub align_known : Option Text → Bool
unfolding is_some
align_known none = true
align_known (some w) = is_some (parse_align w)

unfoldable pub or_empty : Option Text → Text
or_empty none = []
or_empty (some w) = w

unfoldable pub input_of : HttpRequest → PublishRequest → Option Priority → Input
unfolding or_empty
input_of http req priority = record {
  text = req.text;
  target_display_count = req.target_display_count;
  display_duration = req.display_duration;
  priority = priority;
  user = user_of_email http.email;
  align = or_empty req.align;
}

unfoldable pub add_response : Result Text × Scheduler → Response Text × Scheduler
add_response (ok id, s) = (answers id, s)
add_response (err (validation_error msg), s) = (fails 400 (says msg), s)
add_response (err (queue_full_error n), s) = (fails 429 (says_full n), s)

-- Past the parsing of the priority.
unfoldable pub publish_checked :
    Zone
    → Text
    → ℕ
    → HttpRequest
    → PublishRequest
    → Option Priority
    → Scheduler
    → Response Text × Scheduler
unfolding add_response input_of
publish_checked z id now http req priority s =
    if align_known req.align
    then add_response (add_message z id now (input_of http req priority) s)
    else (fails 400 (says (codes "align must be 'left', 'center' or 'right'")), s)

unfoldable pub publish_prioritised :
    Zone → Text → ℕ → HttpRequest → PublishRequest → Parsed → Scheduler → Response Text × Scheduler
publish_prioritised z id now http req unknown s =
    (fails 400 (says (codes "priority must be 'normal' or 'high'")), s)
publish_prioritised z id now http req absent s = publish_checked z id now http req none s
publish_prioritised z id now http req (parsed p) s = publish_checked z id now http req (some p) s

unfoldable pub publish_parsed :
    Zone → Text → ℕ → HttpRequest → Option PublishRequest → Scheduler → Response Text × Scheduler
publish_parsed z id now http none s = (fails 400 (says (codes "invalid JSON body")), s)
publish_parsed z id now http (some req) s =
    publish_prioritised z id now http req (read_priority req.priority) s

unfoldable pub handle_publish :
    Zone
    → (Text → Text → Option PublishRequest)
    → Text
    → ℕ
    → HttpRequest
    → Scheduler
    → Response Text × Scheduler
handle_publish z body_parser id now http s =
    publish_parsed z id now http (read_request body_parser http) s

unfoldable pub is_hex : ℕ → Bool
is_hex c = (leb b'0' c && leb c b'9') || (leb b'a' c && leb c b'f') || (leb b'A' c && leb c b'F')

-- Groups of hexadecimal digits of these lengths, with hyphens in between.
unfoldable pub hex_groups : List ℕ → Text → Bool
unfolding is_hex
hex_groups [] [] = true
hex_groups [] (c ∷ s) = false
hex_groups (zero ∷ []) [] = true
hex_groups (zero ∷ []) (c ∷ s) = false
hex_groups (zero ∷ n ∷ ns) [] = false
hex_groups (zero ∷ n ∷ ns) (c ∷ s) = c == b'-' && hex_groups (n ∷ ns) s
hex_groups (suc n ∷ ns) [] = false
hex_groups (suc n ∷ ns) (c ∷ s) = is_hex c && hex_groups (n ∷ ns) s

-- `uuidRe`
unfoldable pub is_uuid : Text → Bool
unfolding hex_groups
is_uuid = hex_groups (8 ∷ 4 ∷ 4 ∷ 4 ∷ 12 ∷ [])

unfoldable pub delete_response : Bool × Scheduler → Response (Unit {0}) × Scheduler
delete_response (false, s) = (fails 404 (says (codes "message not found")), s)
delete_response (true, s) = (answers tt, s)

unfoldable pub handle_delete_message : Zone → Text → Scheduler → Response (Unit {0}) × Scheduler
unfolding delete_response
handle_delete_message z id s =
    if is_uuid id
    then delete_response (remove_message z id s)
    else (fails 400 (says (codes "invalid uuid")), s)

unfoldable pub handle_current : Zone → Scheduler → Response (Option MessageDto)
handle_current z s = answers (current_snapshot z s)

pub record SchedulerStatus : Type 0 where
  pub state_name : Text
  pub current : Option MessageDto
  pub queue_size : ℕ
  pub high_priority : ℕ

unfoldable pub handle_scheduler_status : Zone → Scheduler → SchedulerStatus
handle_scheduler_status z s = record {
  state_name = state s;
  current = current_snapshot z s;
  queue_size = length (active_messages s);
  high_priority = high_priority_count s;
}
