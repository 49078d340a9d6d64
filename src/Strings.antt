-- ===== src/Strings.antt =====
-- What the backend uses of Go's `strings`, `strconv` and `unicode` packages.
--
-- Case mapping is exact for the ASCII letters and for the four runes outside ASCII that map onto one
-- (U+0130 and U+212A downwards, U+0131 and U+017F upwards). Any other rune maps outside ASCII; it is
-- left as it is, since the program compares mapped texts with ASCII words only.
use split_flap_display_web.Prelude.{
  ℕ, zero, suc, ◌+◌, ◌-◌, ◌*◌, Bool, true, false, ◌&&◌, ◌||◌, Option, none, some, List, [], ◌∷◌,
  map, Text, codes, leb, ◌==◌, if◌then◌else◌, replicate, text_eq, ℤ, pos, negsuc,
}

unfoldable pub to_lower_rune : ℕ → ℕ
to_lower_rune c =
    if leb b'A' c && leb c b'Z'
    then c + 32
    else if c == 0x130
    then b'i'
    else if c == 0x212a
    then b'k'
    else c

unfoldable pub to_upper_rune : ℕ → ℕ
to_upper_rune c =
    if leb b'a' c && leb c b'z'
    then c - 32
    else if c == 0x131
    then b'I'
    else if c == 0x17f
    then b'S'
    else c

unfoldable pub to_lower : Text → Text
unfolding to_lower_rune
to_lower = map to_lower_rune

unfoldable pub to_upper : Text → Text
unfolding to_upper_rune
to_upper = map to_upper_rune

-- unicode.IsSpace
unfoldable pub is_space : ℕ → Bool
is_space c =
    (leb 9 c && leb c 13)
    || c == 32
    || c == 0x85
    || c == 0xa0
    || c == 0x1680
    || (leb 0x2000 c && leb c 0x200a)
    || c == 0x2028
    || c == 0x2029
    || c == 0x202f
    || c == 0x205f
    || c == 0x3000

unfoldable pub trim_left : Text → Text
trim_left [] = []
trim_left (c ∷ s) = if is_space c then trim_left s else c ∷ s

-- A space goes only if nothing but spaces follows it.
cons_trimmed : ℕ → Text → Text
cons_trimmed c [] = if is_space c then [] else c ∷ []
cons_trimmed c (d ∷ s) = c ∷ d ∷ s

unfoldable pub trim_right : Text → Text
unfolding cons_trimmed
trim_right [] = []
trim_right (c ∷ s) = cons_trimmed c (trim_right s)

-- strings.TrimSpace
unfoldable pub trim_space : Text → Text
unfolding trim_left trim_right is_space
trim_space s = trim_right (trim_left s)

-- strings.HasPrefix
unfoldable pub has_prefix : Text → Text → Bool
has_prefix s [] = true
has_prefix [] (d ∷ t) = false
has_prefix (c ∷ s) (d ∷ t) = c == d && has_prefix s t

-- The text before the first `sep` and the text after it, which is how `strings.Index` of a one-byte
-- separator is used; `none` where the index is negative.
unfoldable pub cut : ℕ → Text → Option (Text × Text)
cut sep [] = none
cut sep (c ∷ s) =
    if c == sep
    then some ([], s)
    else elim (cut sep s) [ none ↦ none | some (before, after) ↦ some (c ∷ before, after) ]

-- strings.Repeat(" ", n)
abbrev pub spaces : ℕ → Text
spaces n = replicate n 32

is_digit : ℕ → Bool
is_digit c = leb b'0' c && leb c b'9'

digits_from : ℕ → Text → Option ℕ
unfolding is_digit
digits_from acc [] = some acc
digits_from acc (c ∷ s) =
    let rest = digits_from (acc * 10 + (c - b'0')) s in if is_digit c then rest else none

unsigned : Text → Option ℕ
unfolding digits_from
unsigned [] = none
unsigned (c ∷ s) = digits_from 0 (c ∷ s)

-- Past the range of `int64` there is an error.
in_range : Option ℕ → Option ℤ
in_range none = none
in_range (some n) = if leb n 9223372036854775807 then some (pos n) else none

negative_of : ℕ → ℤ
negative_of zero = pos 0
negative_of (suc n) = negsuc n

in_negative_range : Option ℕ → Option ℤ
in_negative_range none = none
in_negative_range (some n) = if leb n 9223372036854775808 then some (negative_of n) else none

-- strconv.Atoi
unfoldable pub atoi : Text → Option ℤ
unfolding unsigned in_range negative_of in_negative_range
atoi [] = none
atoi (c ∷ s) =
    if c == b'-'
    then in_negative_range (unsigned s)
    else if c == b'+'
    then in_range (unsigned s)
    else in_range (unsigned (c ∷ s))

is_one_of : Text → List Text → Bool
is_one_of s [] = false
is_one_of s (w ∷ ws) = text_eq s w || is_one_of s ws

-- strconv.ParseBool
unfoldable pub parse_bool : Text → Option Bool
unfolding is_one_of
parse_bool s =
    if is_one_of s
      (codes "1" ∷ codes "t" ∷ codes "T" ∷ codes "true" ∷ codes "TRUE" ∷ codes "True" ∷ [])
    then some true
    else if is_one_of s
        (codes "0" ∷ codes "f" ∷ codes "F" ∷ codes "false" ∷ codes "FALSE" ∷ codes "False" ∷ [])
    then some false
    else none
