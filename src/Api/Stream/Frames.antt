-- ===== src/Api/Stream/Frames.antt =====
-- The bytes of a stream: what `writeEvent` and the keepalive write; and the browser's EventSource, which
-- is outside the repository, as a parameter with the laws of the HTML standard.
use split_flap_display_web.Prelude.{◌≡◌, ◌≢◌, List, [], ◌∷◌, ◌++◌, All, Text, codes}
use split_flap_display_web.Events.{Event, Body}

-- What the writer writes at a time: an event, or the line that keeps the connection open.
pub data Chunk : Type 0 where
  frame : Event → Chunk
  keepalive : Chunk

-- `marshal` gives the bytes of an event's data.
unfoldable pub write_event : (Body → Text) → Event → Text
write_event marshal ev =
    codes "event: " ++ (ev.name ++ (codes "\ndata: " ++ (marshal ev.body ++ codes "\n\n")))

unfoldable pub write_chunk : (Body → Text) → Chunk → Text
unfolding write_event
write_chunk marshal (frame ev) = write_event marshal ev
write_chunk marshal keepalive = codes ":keepalive\n\n"

unfoldable pub write_all : (Body → Text) → List Chunk → Text
unfolding write_chunk
write_all marshal [] = []
write_all marshal (c ∷ cs) = write_chunk marshal c ++ write_all marshal cs

-- A message as a listener gets it: its type and its data.
pub record Received : Type 0 where
  pub kind : Text
  pub content : Text

-- What the browser has read of an event that is not complete: the buffers for its type and its data.
pub record Buffers : Type 0 where
  pub kind : Text
  pub content : Text

abbrev pub nothing_read : Buffers
nothing_read = record { kind = []; content = [] }

-- A text without a line feed and without a carriage return.
abbrev pub IsLine : Text → Type 0
IsLine t = All (λ c. (c ≢ 10) × (c ≢ 13)) t

-- The browser's EventSource, as far as the server relies on it: `read` is what it dispatches of the rest of
-- a stream, from the beginning of a line. The laws are those of the HTML standard (9.2.6, Interpreting an
-- event stream) for the lines that the server writes.
pub record EventSource : Type 0 where
  pub read : Buffers → Text → List Received
  -- The field `event` sets the type.
  pub read_event :
      (b : Buffers) (value rest : Text)
      → IsLine value
      → read b ((codes "event: " ++ value) ++ 10 ∷ rest) ≡ read (record b { kind = value }) rest
  -- The field `data` adds its value and a line feed to the data.
  pub read_data :
      (b : Buffers) (value rest : Text)
      → IsLine value
      → read b ((codes "data: " ++ value) ++ 10 ∷ rest)
        ≡ read (record b { content = b.content ++ value ++ 10 ∷ [] }) rest
  -- A line that begins with a colon is ignored.
  pub read_comment :
      (b : Buffers) (text rest : Text)
      → IsLine text
      → read b (b':' ∷ text ++ 10 ∷ rest) ≡ read b rest
  -- A blank line dispatches the event, less the last line feed of its data, and clears the buffers.
  pub read_blank :
      (b : Buffers) (value rest : Text)
      → b.kind ≢ []
      → b.content ≡ value ++ 10 ∷ []
      → read b (10 ∷ rest) ≡ record { kind = b.kind; content = value } ∷ read nothing_read rest
  -- Without data it only clears them.
  pub read_blank_without_data :
      (b : Buffers) (rest : Text) → b.content ≡ [] → read b (10 ∷ rest) ≡ read nothing_read rest
  -- An event that the stream's end cuts off is discarded.
  pub read_end : (b : Buffers) → read b [] ≡ []
