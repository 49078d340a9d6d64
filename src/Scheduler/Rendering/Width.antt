-- ===== src/Scheduler/Rendering/Width.antt =====
-- What the display receives: never less than the text, filled up to the width, aligned as asked.
use split_flap_display_web.Prelude.{
  ℕ, zero, suc, ◌+◌, ◌-◌, ◌/◌, ◌≤◌, ◌<◌, ◌≡◌, refl, ◌∙◌, ◌⊎◌, inl, inr, true, false, not, ◌||◌, [],
  ◌∷◌, ◌++◌, Text, codes, text_eq, text_eq_refl, length, length-append, length-replicate, leb,
  if◌then◌else◌, ℤ, pos, negsuc, is_positive, to_ℕ, arith, Bool-cases,
}
use Prim.Native.Nat.{max}
use split_flap_display_web.Strings.{spaces}
use split_flap_display_web.Models.{Message}
use split_flap_display_web.Scheduler.{Scheduler}
use split_flap_display_web.Scheduler.Rendering.{pad_to_width, publish_payload}

not_shown_as_is : (w n : ℕ) → n < w → (not (is_positive (pos w)) || leb w n) ≡ false
not_shown_as_is zero n h = absurd (omega arith)
not_shown_as_is (suc w) n h = ground arith

shown_as_is :
    (width : ℤ) (n : ℕ) → to_ℕ width ≤ n → (not (is_positive width) || leb (to_ℕ width) n) ≡ true
shown_as_is (pos zero) n h = refl
shown_as_is (pos (suc w)) n h = ground arith
shown_as_is (negsuc w) n h = refl

center_fills :
    (text : Text) (w : ℕ)
    → length text < w
    → pad_to_width text (codes "center") (pos w)
      ≡ spaces ((w - length text) / 2) ++ text ++ spaces (w - length text - (w - length text) / 2)
unfolding pad_to_width text_eq
center_fills text w h = rw (not_shown_as_is w (length text) h, pad_to_width)

right_fills :
    (text : Text) (w : ℕ)
    → length text < w
    → pad_to_width text (codes "right") (pos w) ≡ spaces (w - length text) ++ text
unfolding pad_to_width text_eq
right_fills text w h = rw (not_shown_as_is w (length text) h, pad_to_width)

-- A text shorter than the display is padded to fill it exactly. Centred, it has spaces on both sides,
-- as many at the right as at the left or one more; aligned right, it has all of them before it.
pub pad_to_width_fills :
    (text : Text) (w : ℕ)
    → length text < w
    → ((left : ℕ) × (right : ℕ) × (pad_to_width text (codes "center") (pos w)
          ≡ spaces left ++ text ++ spaces right)
        × (left + length text + right ≡ w)
        × (left ≤ right)
        × (right ≤ left + 1))
      × ((left : ℕ) × (pad_to_width text (codes "right") (pos w) ≡ spaces left ++ text)
          × (left + length text ≡ w))
pad_to_width_fills text w h = (
  (
    (w - length text) / 2,
    w - length text - (w - length text) / 2,
    center_fills text w h,
    omega arith,
    omega arith,
    omega arith,
  ),
  (w - length text, right_fills text w h, omega arith),
)

-- A text that fills the display, or a display without a width, is never cut or padded.
pub pad_to_width_whole :
    (text align : Text) (width : ℤ)
    → to_ℕ width ≤ length text
    → pad_to_width text align width ≡ text
unfolding pad_to_width
pad_to_width_whole text align width h = rw (shown_as_is width (length text) h, pad_to_width)

pub nil_or_not : (t : Text) → (t ≡ []) ⊎ (text_eq t [] ≡ false)
unfolding text_eq
nil_or_not [] = inl refl
nil_or_not (c ∷ t) = inr refl

width_cases : (width : ℤ) (n : ℕ) → (to_ℕ width ≤ n) ⊎ ((w : ℕ) × (width ≡ pos w) × (n < w))
width_cases (pos w) n = elim (Bool-cases (leb w n)) [
  | inl e ↦ inl (ground arith)
  | inr e ↦ inr (w, refl, ground arith)
]
width_cases (negsuc w) n = inl (omega arith)

length-spaces : (n : ℕ) → length (spaces n) ≡ n
length-spaces n = length-replicate n 32

length-center :
    (text : Text) (width : ℤ)
    → length (pad_to_width text (codes "center") width) ≡ max (length text) (to_ℕ width)
length-center text width = elim (width_cases width (length text)) [
  | inl fits ↦ rw (pad_to_width_whole text (codes "center") width fits) (omega arith)
  | inr (w, e, short) ↦ rw e (
      rw (center_fills text w short) (
        omega (
          arith,
          length-append (spaces ((w - length text) / 2) ++ text)
              (spaces (w - length text - (w - length text) / 2)),
          length-append (spaces ((w - length text) / 2)) text,
          length-spaces ((w - length text) / 2),
          length-spaces (w - length text - (w - length text) / 2),
        )))
]

length-right :
    (text : Text) (width : ℤ)
    → length (pad_to_width text (codes "right") width) ≡ max (length text) (to_ℕ width)
length-right text width = elim (width_cases width (length text)) [
  | inl fits ↦ rw (pad_to_width_whole text (codes "right") width fits) (omega arith)
  | inr (w, e, short) ↦ rw e (
      rw (right_fills text w short) (
        omega
          (arith, length-append (spaces (w - length text)) text, length-spaces (w - length text))))
]

length-blank :
    (width : ℤ) → length (if is_positive width then spaces (to_ℕ width) else []) ≡ to_ℕ width
length-blank (pos zero) = refl
length-blank (pos (suc w)) = length-spaces (suc w)
length-blank (negsuc w) = refl

-- An empty, centred or right-aligned message occupies the whole display: what is published has the
-- length of the text or the width of the display, whichever is more.
pub publish_payload-length :
    (s : Scheduler) (m : Message)
    → (m.message ≡ []) ⊎ (m.align ≡ codes "center") ⊎ (m.align ≡ codes "right")
    → length (publish_payload s m) ≡ max (length m.message) (to_ℕ s.display_width)
unfolding publish_payload
publish_payload-length s m (inl e) =
    rw (e, text_eq_refl [], publish_payload) (length-blank s.display_width ∙ omega arith)
publish_payload-length s m (inr (inl e)) = elim (nil_or_not m.message) [
  | inl blank ↦
      rw (blank, text_eq_refl [], publish_payload) (length-blank s.display_width ∙ omega arith)
  | inr shown ↦ rw (shown, e, publish_payload) (length-center m.message s.display_width)
]
publish_payload-length s m (inr (inr e)) = elim (nil_or_not m.message) [
  | inl blank ↦
      rw (blank, text_eq_refl [], publish_payload) (length-blank s.display_width ∙ omega arith)
  | inr shown ↦ rw (shown, e, publish_payload) (length-right m.message s.display_width)
]
