-- ===== src/Tests/Messages.antt =====
-- The messages' theorems at concrete inputs.
use split_flap_display_web.Prelude.{◌≡◌, refl, some, List, [], ◌∷◌, codes, text_eq}
use split_flap_display_web.Strings.{to_lower, trim_space}
use split_flap_display_web.Models.{Message, pending, parse_align}
use split_flap_display_web.Models.Marks.{
  Mark, displays, completes, shown, was_completed, Reads, apply_marks, apply_marks-Reads,
}
use split_flap_display_web.Tests.{no_message}

-- Shown, completed by a deletion, and shown once more by the tick that was under way.
abbrev marks : List Mark
marks = displays 10 ∷ completes ∷ displays 20 ∷ []

abbrev unseen : Message
unseen = record no_message { status = pending }

apply_marks-Reads_example : Reads (shown [] marks) (was_completed marks) (apply_marks marks unseen)
apply_marks-Reads_example = apply_marks-Reads marks unseen refl refl refl

loud : parse_align (codes " CENTER ") ≡ some (codes "center")
unfolding parse_align text_eq to_lower trim_space
loud = refl
