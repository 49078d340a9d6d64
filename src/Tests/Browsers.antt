-- ===== src/Tests/Browsers.antt =====
-- A reader of event streams that obeys the laws of the HTML standard, line by line.
use mathlib.Core.List.{append_assoc, append-nil}
use split_flap_display_web.Prelude.{
  ℕ, ◌≡◌, ◌≢◌, refl, ap, ◌∙◌, Bool, false, ◌||◌, Option, none, some, List, [], ◌∷◌, ◌++◌,
  All-append, Text, codes, text_eq, ◌==◌, if◌then◌else◌, arith,
}
use split_flap_display_web.Strings.{cut}
use split_flap_display_web.Api.Stream.Frames.{Received, Buffers, nothing_read, IsLine, EventSource}

skip_space : Text → Text
skip_space [] = []
skip_space (c ∷ s) = if c == 32 then s else c ∷ s

without_last : Text → Text
without_last [] = []
without_last (c ∷ []) = []
without_last (c ∷ d ∷ s) = c ∷ without_last (d ∷ s)

abbrev type_of : Text → Text
type_of [] = codes "message"
type_of (c ∷ s) = c ∷ s

-- The end of an event: a message, if there are data.
dispatch : Text → Text → List Received
unfolding without_last
dispatch kind [] = []
dispatch kind (c ∷ s) = record { kind = type_of kind; content = without_last (c ∷ s) } ∷ []

set_field : Text → Text → Buffers → Buffers
set_field name value b =
    if text_eq name (codes "event")
    then record b { kind = value }
    else if text_eq name (codes "data")
    then record b { content = b.content ++ value ++ 10 ∷ [] }
    else b

-- A line without a colon is a field without a value. One that begins with a colon is a comment, and is a
-- field without a name here, which sets nothing.
read_field : Option (Text × Text) → Text → Buffers → Buffers
unfolding skip_space set_field
read_field none line b = set_field line [] b
read_field (some (name, value)) line b = set_field name (skip_space value) b

read_line : Text → Buffers → List Received × Buffers
unfolding dispatch read_field
read_line [] b = (dispatch b.kind b.content, nothing_read)
read_line (c ∷ s) b = ([], read_field (cut b':' (c ∷ s)) (c ∷ s) b)

abbrev ends_line : ℕ → Bool
ends_line c = c == 10 || c == 13

-- One character: what it completes, the line so far, and the buffers.
read_char : ℕ → Text → Buffers → List Received × Text × Buffers
unfolding read_line
read_char c line b =
    if ends_line c
    then (let (out, b') = read_line line b in (out, [], b'))
    else ([], line ++ c ∷ [], b)

read_from : Text → Buffers → Text → List Received
unfolding read_char
read_from line b [] = []
read_from line b (c ∷ s) = let (out, line', b') = read_char c line b in out ++ read_from line' b' s

-- A line is read as a whole.
read_from-line :
    (t line rest : Text) (b : Buffers)
    → IsLine t
    → read_from line b (t ++ 10 ∷ rest)
      ≡ (read_line (line ++ t) b).0 ++ read_from [] (read_line (line ++ t) b).1 rest
unfolding read_from read_char
read_from-line [] line rest b h = rw append-nil refl
read_from-line (c ∷ t) line rest b h =
    let still : ends_line c ≡ false = ground (arith, h.0) in
    rw still (rw (append_assoc line (c ∷ []) t) at (read_from-line t (line ++ c ∷ []) rest b h.1))

event_line :
    (value : Text) (b : Buffers)
    → read_line (codes "event: " ++ value) b ≡ ([], record b { kind = value })
unfolding read_line cut text_eq
event_line value b = refl

data_line :
    (value : Text) (b : Buffers)
    → read_line (codes "data: " ++ value) b
      ≡ ([], record b { content = b.content ++ value ++ 10 ∷ [] })
unfolding read_line cut text_eq
data_line value b = refl

comment_line : (text : Text) (b : Buffers) → read_line (b':' ∷ text) b ≡ ([], b)
unfolding read_line cut text_eq
comment_line text b = refl

after_line :
    (t rest : Text) (b b' : Buffers)
    → IsLine t
    → read_line t b ≡ ([], b')
    → read_from [] b (t ++ 10 ∷ rest) ≡ read_from [] b' rest
after_line t rest b b' h e =
    read_from-line t [] rest b h
    ∙ ap (λ (p : List Received × Buffers). p.0 ++ read_from [] p.1 rest) e

without_last-append : (t : Text) → without_last (t ++ 10 ∷ []) ≡ t
unfolding without_last
without_last-append [] = refl
without_last-append (c ∷ []) = refl
without_last-append (c ∷ d ∷ t) = ap (λ (s : Text). c ∷ s) (without_last-append (d ∷ t))

type_of_named : (kind : Text) → kind ≢ [] → type_of kind ≡ kind
type_of_named [] ne = absurd (ne refl)
type_of_named (c ∷ s) ne = refl

dispatch-ended :
    (kind value : Text)
    → kind ≢ []
    → dispatch kind (value ++ 10 ∷ []) ≡ record { kind = kind; content = value } ∷ []
unfolding dispatch
dispatch-ended kind [] ne = rw (type_of_named kind ne) refl
dispatch-ended kind (c ∷ s) ne = rw (type_of_named kind ne, without_last-append (c ∷ s)) refl

blank_line :
    (b : Buffers) (rest : Text)
    → read_from [] b (10 ∷ rest) ≡ dispatch b.kind b.content ++ read_from [] nothing_read rest
unfolding read_from
blank_line b rest = refl

IsLine-event : (value : Text) → IsLine value → IsLine (codes "event: " ++ value)
IsLine-event value h = All-append _ (codes "event: ") value (omega arith) h

IsLine-data : (value : Text) → IsLine value → IsLine (codes "data: " ++ value)
IsLine-data value h = All-append _ (codes "data: ") value (omega arith) h

IsLine-comment : (text : Text) → IsLine text → IsLine (b':' ∷ text)
IsLine-comment text h = (omega arith, h)

pub browser : EventSource
unfolding dispatch read_from
browser = record {
  read = read_from [];
  read_event = λ b value rest h.
      after_line (codes "event: " ++ value) rest b _ (IsLine-event value h) (event_line value b);
  read_data = λ b value rest h.
      after_line (codes "data: " ++ value) rest b _ (IsLine-data value h) (data_line value b);
  read_comment = λ b text rest h.
      after_line (b':' ∷ text) rest b b (IsLine-comment text h) (comment_line text b);
  read_blank = λ b value rest ne e.
      blank_line b rest
      ∙ ap (λ (c : Text). dispatch b.kind c ++ read_from [] nothing_read rest) e
      ∙ ap (λ (l : List Received). l ++ read_from [] nothing_read rest)
          (dispatch-ended b.kind value ne);
  read_blank_without_data = λ b rest e.
      blank_line b rest ∙ ap (λ (c : Text). dispatch b.kind c ++ read_from [] nothing_read rest) e;
  read_end = λ b. refl;
}
