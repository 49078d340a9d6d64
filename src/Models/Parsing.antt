-- ===== src/Models/Parsing.antt =====
-- ParseAlign, and the priorities that the program knows.
use split_flap_display_web.Prelude.{
  ◌≡◌, ◌⊎◌, inl, inr, refl, sym, subst, some, [], Text, codes, text_eq, arith,
}
use split_flap_display_web.Strings.{to_lower, trim_space}
use split_flap_display_web.Models.{Priority, priority_normal, priority_high, parse_align}

-- A parsed alignment is one of the three that the renderer knows.
abbrev pub IsAlign : Text → Type 0
IsAlign a = (a ≡ []) ⊎ (a ≡ codes "center") ⊎ (a ≡ codes "right")

-- A priority that the program knows.
abbrev pub IsPriority : Priority → Type 0
IsPriority p = (p ≡ priority_normal) ⊎ (p ≡ priority_high)

pub parse_align-IsAlign : (s a : Text) → parse_align s ≡ some a → IsAlign a
unfolding parse_align
parse_align-IsAlign s a h = ground arith

-- The three alignments parse to themselves.
pub parse_align-fixed : (a : Text) → IsAlign a → parse_align a ≡ some a
unfolding parse_align text_eq to_lower trim_space
parse_align-fixed a (inl e) = subst (λ t. parse_align t ≡ some t) (sym e) refl
parse_align-fixed a (inr (inl e)) = subst (λ t. parse_align t ≡ some t) (sym e) refl
parse_align-fixed a (inr (inr e)) = subst (λ t. parse_align t ≡ some t) (sym e) refl

-- A parsed alignment parses to itself, so that parsing twice, in the handler and in the scheduler, is
-- the same as parsing once.
parse_align_idem : (s a : Text) → parse_align s ≡ some a → parse_align a ≡ some a
parse_align_idem s a h = parse_align-fixed a (parse_align-IsAlign s a h)
