-- ===== src/Api/Stream/RoundTrip.antt =====
-- What the browser reads of a stream is what the server wrote.
use mathlib.Core.List.{append_assoc}
use split_flap_display_web.Prelude.{
  ◌≡◌, ◌≢◌, refl, ap, ◌∙◌, List, [], ◌∷◌, ◌++◌, map, All, Text, codes, arith,
}
use split_flap_display_web.Events.{Event, Body}
use split_flap_display_web.Api.Stream.Frames.{
  Chunk, frame, keepalive, write_event, write_all, Received, nothing_read, IsLine, EventSource,
}

-- The text of an event, line by line.
event_lines :
    (name content rest : Text)
    → (codes "event: " ++ (name ++ (codes "\ndata: " ++ (content ++ codes "\n\n")))) ++ rest
      ≡ (codes "event: " ++ name) ++ 10 ∷ ((codes "data: " ++ content) ++ 10 ∷ 10 ∷ rest)
event_lines name content rest = simp append_assoc

read-event :
    (browser : EventSource) (marshal : Body → Text) (ev : Event) (rest : Text)
    → ev.name ≢ []
    → IsLine ev.name
    → IsLine (marshal ev.body)
    → browser.read nothing_read (write_event marshal ev ++ rest)
      ≡ record { kind = ev.name; content = marshal ev.body } ∷ browser.read nothing_read rest
unfolding write_event
read-event browser marshal ev rest ne h k =
    let content = codes "data: " ++ marshal ev.body in
    let named = record nothing_read { kind = ev.name } in
    ap (browser.read nothing_read) (event_lines ev.name (marshal ev.body) rest)
    ∙ browser.read_event nothing_read ev.name (content ++ 10 ∷ 10 ∷ rest) h
    ∙ browser.read_data named (marshal ev.body) (10 ∷ rest) k
    ∙ browser.read_blank (record named { content = marshal ev.body ++ 10 ∷ [] }) (marshal ev.body)
        rest ne refl

read-keepalive :
    (browser : EventSource) (rest : Text)
    → browser.read nothing_read (codes ":keepalive\n\n" ++ rest) ≡ browser.read nothing_read rest
read-keepalive browser rest =
    browser.read_comment nothing_read (codes "keepalive") (10 ∷ rest) (omega arith)
    ∙ browser.read_blank_without_data nothing_read rest refl

unfoldable pub events_of : List Chunk → List Event
events_of [] = []
events_of (frame ev ∷ cs) = ev ∷ events_of cs
events_of (keepalive ∷ cs) = events_of cs

abbrev pub received : (Body → Text) → Event → Received
received marshal ev = record { kind = ev.name; content = marshal ev.body }

-- There is a name, and no line break in it or in the data; `json.Marshal` escapes all such.
abbrev pub IsSendable : (Body → Text) → Event → Type 0
IsSendable marshal ev = (ev.name ≢ []) × IsLine ev.name × IsLine (marshal ev.body)

-- A browser whose EventSource obeys the laws of the HTML standard dispatches exactly the events that were
-- written, with their names and data and in their order, whatever keepalives stand between them, if each
-- has a name and no line break stands in a name or in the data.
pub read-write_all :
    (browser : EventSource) (marshal : Body → Text) (cs : List Chunk)
    → All (IsSendable marshal) (events_of cs)
    → browser.read nothing_read (write_all marshal cs) ≡ map (received marshal) (events_of cs)
unfolding write_all events_of
read-write_all browser marshal [] h = browser.read_end nothing_read
read-write_all browser marshal (frame ev ∷ cs) h =
    let (named, line, content) = h.0 in
    read-event browser marshal ev (write_all marshal cs) named line content
    ∙ ap (λ l. received marshal ev ∷ l) (read-write_all browser marshal cs h.1)
read-write_all browser marshal (keepalive ∷ cs) h =
    read-keepalive browser (write_all marshal cs) ∙ read-write_all browser marshal cs h
