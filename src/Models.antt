-- ===== src/Models.antt =====
-- backend-go/internal/models/message.go: messages, their life cycle, and their JSON forms.
--
-- The lock of a message makes each method one step. Times are numbers of nanoseconds; how a time is
-- printed depends on the time zone of the machine, so `Zone` is a parameter. A message's identifier
-- (uuid.NewString) and the current time are arguments of `new_message`.
pub mod Parsing
pub mod Marks
use split_flap_display_web.Prelude.{
  ℕ, zero, suc, ◌+◌, Bool, true, false, Option, none, some, List, [], ◌∷◌, Text, codes, text_eq, ℤ,
  if◌then◌else◌,
}
use split_flap_display_web.Strings.{to_lower, trim_space}

pub data MessageStatus : Type 0 where
  pending active completed : MessageStatus

-- `Priority` is a string in the source too.
abbrev pub Priority : Type 0
Priority = Text

abbrev pub priority_normal : Priority
priority_normal = codes "normal"

abbrev pub priority_high : Priority
priority_high = codes "high"

unfoldable pub priority_rank : Priority → ℕ
priority_rank p = if text_eq p priority_high then 1 else 0

unfoldable pub parse_priority : Text → Option Priority
parse_priority s =
    let w = to_lower s in
    if text_eq w (codes "normal")
    then some priority_normal
    else if text_eq w []
    then some priority_normal
    else if text_eq w (codes "high")
    then some priority_high
    else none

unfoldable pub parse_align : Text → Option Text
parse_align s =
    let w = to_lower (trim_space s) in
    if text_eq w []
    then some []
    else if text_eq w (codes "left")
    then some []
    else if text_eq w (codes "center")
    then some (codes "center")
    else if text_eq w (codes "right")
    then some (codes "right")
    else none

pub record Message : Type 0 where
  pub id : Text
  pub message : Text
  pub created_at : ℕ
  pub status : MessageStatus
  pub display_duration : ℤ
  pub target_display_count : ℤ
  pub display_count : ℕ
  pub last_displayed_at : Option ℕ
  pub priority : Priority
  pub user : Text
  pub align : Text

promote : MessageStatus → MessageStatus
promote pending = active
promote active = active
promote completed = completed

unfoldable pub mark_displayed : ℕ → Message → Message
unfolding promote
mark_displayed now m = record m {
  status = promote m.status;
  display_count = m.display_count + 1;
  last_displayed_at = some now;
}

unfoldable pub mark_completed : Message → Message
mark_completed m = record m { status = completed }

abbrev pub status_is_completed : MessageStatus → Bool
status_is_completed pending = false
status_is_completed active = false
status_is_completed completed = true

abbrev pub is_completed : Message → Bool
is_completed m = status_is_completed m.status

-- `DisplayCountSafe` and `StatusSafe`
abbrev pub display_count_safe : Message → ℕ
display_count_safe m = m.display_count

abbrev pub status_safe : Message → MessageStatus
status_safe m = m.status

abbrev pub set_display_count : ℕ → Message → Message
set_display_count n m = record m { display_count = n }

unfoldable pub new_message : Text → ℕ → Text → ℤ → ℤ → Priority → Text → Text → Message
new_message id now text target_display_count display_duration priority user align = record {
  id = id;
  message = text;
  created_at = now;
  status = pending;
  display_duration = display_duration;
  target_display_count = target_display_count;
  display_count = 0;
  last_displayed_at = none;
  priority = priority;
  user = user;
  align = align;
}

-- `time.Time.Format` in the machine's zone, with the layouts of the source.
pub record Zone : Type 0 where
  -- "2006-01-02T15:04:05"
  pub iso : ℕ → Text
  -- "15:04"
  pub hm : ℕ → Text

pub record MessageDto : Type 0 where
  pub id : Text
  pub message : Text
  pub created_at : Text
  pub status : MessageStatus
  pub display_duration : ℤ
  pub target_display_count : ℤ
  pub display_count : ℕ
  pub last_displayed_at : Option Text
  pub last_displayed_time : Option Text
  pub priority : Priority
  pub user : Text

format_option : (ℕ → Text) → Option ℕ → Option Text
format_option f none = none
format_option f (some t) = some (f t)

unfoldable pub to_dto : Zone → Message → MessageDto
unfolding format_option
to_dto z m = record {
  id = m.id;
  message = m.message;
  created_at = z.iso m.created_at;
  status = m.status;
  display_duration = m.display_duration;
  target_display_count = m.target_display_count;
  display_count = m.display_count;
  last_displayed_at = format_option z.iso m.last_displayed_at;
  last_displayed_time = format_option z.hm m.last_displayed_at;
  priority = m.priority;
  user = m.user;
}

pub record HistoryEntry : Type 0 where
  pub id : Text
  pub time : Text
  pub user : Text
  pub message : Text
  pub priority : Priority

unfoldable pub new_history_entry : Zone → Message → HistoryEntry
new_history_entry z m = record {
  id = m.id;
  time = z.hm m.created_at;
  user = m.user;
  message = m.message;
  priority = m.priority;
}

pub record MqttHistoryEntry : Type 0 where
  pub topic : Text
  pub payload : Text
