-- ===== src/Tests/Handlers.antt =====
-- The HTTP handlers' theorems at concrete inputs.
use split_flap_display_web.Prelude.{
  ℕ, ◌≡◌, refl, true, false, Option, none, some, Text, codes, lookup, text_eq,
}
use split_flap_display_web.Scheduler.Requests.Removing.{Removed}
use split_flap_display_web.Api.{
  PublishRequest, HttpRequest, empty_request, says, answers, fails, is_uuid, handle_delete_message,
}
use split_flap_display_web.Api.Deleting.{IsUuid, is_uuid-IsUuid, handle_delete_message_cases}
use split_flap_display_web.Scheduler.{Scheduler}
use split_flap_display_web.Scheduler.Requests.{add_message, validate}
use split_flap_display_web.Scheduler.Invariant.{IsValid, add_message-IsValid}
use split_flap_display_web.Tests.{utc, fresh, hello, busy}
use split_flap_display_web.Tests.Schedules.{fresh-IsValid, busy-IsValid}

-- A parser that knows one body.
abbrev one_body : Text → Text → Option PublishRequest
one_body content_type body = elim (text_eq body (codes "{}")) [
  | true ↦ some empty_request
  | false ↦ none
]

abbrev by_carol : HttpRequest
by_carol = record {
  body = codes "HELLO";
  content_type = codes "Text/Plain; charset=utf-8";
  email = codes "carol@example.org";
}

abbrev uuid : Text
uuid = codes "12345678-9abc-def0-1234-56789ABCDEF0"

-- A scheduler with one message, whose identifier is a UUID.
abbrev one_message : Scheduler
one_message = (add_message utc uuid 100 hello fresh).1

one_message-IsValid : IsValid one_message
one_message-IsValid = add_message-IsValid utc uuid 100 hello fresh fresh-IsValid

DeletionCases : Scheduler → Type 0
DeletionCases s =
    (¬ IsUuid uuid
      → handle_delete_message utc uuid s ≡ (fails 400 (says (codes "invalid uuid")), s))
    × (IsUuid uuid
        → lookup uuid s.store.by_id ≡ none
        → handle_delete_message utc uuid s ≡ (fails 404 (says (codes "message not found")), s))
    × ((r : ℕ)
        → IsUuid uuid
        → lookup uuid s.store.by_id ≡ some r
        → ((handle_delete_message utc uuid s).0 ≡ answers tt)
          × Removed utc r s (handle_delete_message utc uuid s).1)

handle_delete_message_cases_example : DeletionCases one_message
unfolding DeletionCases
handle_delete_message_cases_example =
    handle_delete_message_cases utc uuid one_message one_message-IsValid

well_formed : is_uuid uuid ≡ true
unfolding is_uuid
well_formed = refl

uuid-IsUuid : IsUuid uuid
uuid-IsUuid = (is_uuid-IsUuid uuid).0 well_formed

found : lookup uuid one_message.store.by_id ≡ some 0
unfolding add_message validate lookup split_flap_display_web.Store.count_active
    split_flap_display_web.Models.parse_align text_eq split_flap_display_web.Strings.to_lower
    split_flap_display_web.Strings.trim_space split_flap_display_web.Scheduler.Requests.accept
    split_flap_display_web.Scheduler.signal_wakeup split_flap_display_web.Scheduler.record_history
    split_flap_display_web.Store.evict_completed split_flap_display_web.Store.add
    split_flap_display_web.Prelude.insert split_flap_display_web.Store.alloc
found = refl

-- The deletion succeeds where the message is, and finds nothing where it is not.
deleted : (handle_delete_message utc uuid one_message).0 ≡ answers tt
deleted =
    ((handle_delete_message_cases utc uuid one_message one_message-IsValid).2 0 uuid-IsUuid found).0

not_found :
    handle_delete_message utc uuid busy ≡ (fails 404 (says (codes "message not found")), busy)
not_found =
    (handle_delete_message_cases utc uuid busy busy-IsValid).1 uuid-IsUuid
      (unfold busy lookup text_eq in refl)

no_hyphens : is_uuid (codes "123456789abcdef0123456789ABCDEF0") ≡ false
unfolding is_uuid
no_hyphens = refl
