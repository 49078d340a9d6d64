-- ===== src/Scheduler/Rendering.antt =====
-- publishPayload and padToWidth: the text that is sent to the display.
pub mod Width
use split_flap_display_web.Prelude.{
  ℕ, ◌-◌, ◌/◌, Bool, true, false, ◌||◌, not, Text, codes, text_eq, [], ◌++◌, length, leb,
  if◌then◌else◌, ℤ, is_positive, to_ℕ,
}
use split_flap_display_web.Strings.{spaces}
use split_flap_display_web.Models.{Message}
use split_flap_display_web.Scheduler.{Scheduler}

unfoldable pub pad_to_width : Text → Text → ℤ → Text
pad_to_width text align width =
    let text_len = length text in
    let w = to_ℕ width in
    let left = (w - text_len) / 2 in
    if not (is_positive width) || leb w text_len
    then text
    else if text_eq align (codes "center")
    then spaces left ++ text ++ spaces (w - text_len - left)
    else if text_eq align (codes "right")
    then spaces (w - text_len) ++ text
    else text

unfoldable pub publish_payload : Scheduler → Message → Text
publish_payload s m =
    if text_eq m.message []
    then (if is_positive s.display_width then spaces (to_ℕ s.display_width) else [])
    else pad_to_width m.message m.align s.display_width
