-- ===== src/Sse/Event/RoundTrip.antt =====
-- What a reader gets from the frames of src/sse/event.py.
use boilerplate_python_fasta.Prelude.{
  refl, [], ◌∷◌, none, ◌++◌, ◌≡◌, List, ℕ, All, false, subst, map, sym, ap, option_map, ◌∙◌, ◌≢◌,
}
use mathlib.Core.List.{append_assoc, append-nil}
use boilerplate_python_fasta.Prelude.Text.{codes, show}
use boilerplate_python_fasta.Sse.Event.{
  encode, fields, check_event, ServerSentEvent, join_lines, split_lines, labelled, is_empty,
}
use boilerplate_python_fasta.Sse.Event.Lines.{lines, split_lines-lines, lines-ne-nil}
use boilerplate_python_fasta.Sse.Event.Framing.{
  ended, IsLine, lines-ended, join_lines-ended, read_lines-append, drop_last-append, append-All,
}
use boilerplate_python_fasta.Sse.Event.Reader.{
  read, read_lines, read_line, dispatch, Reader, Message, drop_last, type_of,
}
use boilerplate_python_fasta.Sse.Event.Fields.{
  quiet_append, fields-IsLine, filled, or_else, or_else_some, read_fields,
}

ended-ne-nil : (l : List ℕ) (ls : List (List ℕ)) → ended (l ∷ ls) ≢ []
ended-ne-nil [] ls = λ e. cc
ended-ne-nil (c ∷ l) ls = λ e. cc

drop_last-ended :
    (l : List ℕ) (ls : List (List ℕ)) → drop_last (ended (l ∷ ls)) ≡ join_lines (l ∷ ls)
drop_last-ended l [] = drop_last-append l (10 ∷ []) (λ e. cc) ∙ append-nil l
drop_last-ended l (m ∷ ls) =
    drop_last-append l (10 ∷ ended (m ∷ ls)) (λ e. cc)
    ∙ ap (λ t. l ++ t)
        (drop_last-append (10 ∷ []) (ended (m ∷ ls)) (ended-ne-nil m ls)
          ∙ ap (λ t. 10 ∷ t) (drop_last-ended m ls))

joined : (ls : List (List ℕ)) → ls ≢ [] → drop_last (ended ls) ≡ join_lines ls
joined [] n = absurd (n refl)
joined (l ∷ ls) n = drop_last-ended l ls

is_empty-ended : (ls : List (List ℕ)) → ls ≢ [] → is_empty (ended ls) ≡ false
is_empty-ended [] n = absurd (n refl)
is_empty-ended ([] ∷ ls) n = refl
is_empty-ended ((c ∷ l) ∷ ls) n = refl

-- What a reader with empty buffers makes of a frame.
abbrev pub message_of : ServerSentEvent → Reader → Message
message_of e r = record {
  type = type_of (or_else [] e.event);
  payload = join_lines (lines e.payload);
  last_event_id = or_else r.last_event_id e.id;
}

abbrev pub reader_after : ServerSentEvent → Reader → Reader
reader_after e r = record {
  payload = [];
  event = [];
  last_event_id = or_else r.last_event_id e.id;
  retry = or_else_some r.retry e.retry;
}

abbrev pub IsIdle : Reader → Type 0
IsIdle r = (r.payload ≡ []) × (r.event ≡ [])

dispatch-filled :
    (e : ServerSentEvent) (r : Reader)
    → IsIdle r
    → dispatch (filled e r) ≡ (reader_after e r, message_of e r ∷ [])
unfolding dispatch
dispatch-filled e r h =
    rw
      (
        h.0,
        h.1,
        split_lines-lines e.payload,
        is_empty-ended (lines e.payload) (lines-ne-nil e.payload),
        joined (lines e.payload) (lines-ne-nil e.payload),
      )
      refl

append_right : (xs ys : List (List ℕ)) → ys ≢ [] → (xs ++ ys) ≢ []
append_right [] ys n = n
append_right (x ∷ xs) ys n = λ e. cc

mapped-ne-nil :
    (ls : List (List ℕ)) → ls ≢ [] → map (λ line. codes "data" ++ b':' ∷ b' ' ∷ line) ls ≢ []
mapped-ne-nil [] n = n
mapped-ne-nil (l ∷ ls) n = λ e. cc

joined_ended :
    (ls : List (List ℕ)) (rest : List ℕ) → ls ≢ [] → join_lines ls ++ 10 ∷ rest ≡ ended ls ++ rest
joined_ended [] rest n = absurd (n refl)
joined_ended (l ∷ ls) rest n = join_lines-ended l ls rest

ended-blank : (ls : List (List ℕ)) → ended (ls ++ [] ∷ []) ≡ ended ls ++ 10 ∷ []
ended-blank [] = refl
ended-blank (l ∷ ls) =
    ap (λ t. l ++ 10 ∷ t) (ended-blank ls) ∙ sym (append_assoc l (10 ∷ ended ls) (10 ∷ []))

fields-ne-nil : (e : ServerSentEvent) → fields e ≢ []
unfolding fields
fields-ne-nil e = append_right (labelled "event" e.event) _ (
    append_right (labelled "id" e.id) _ (
      append_right (labelled "retry" (option_map show e.retry)) _ (
        mapped-ne-nil (split_lines e.payload)
          (subst (λ ls. ls ≢ []) (sym (split_lines-lines e.payload)) (lines-ne-nil e.payload)))))

encode-ended :
    (e : ServerSentEvent) (rest : List ℕ) → encode e ++ rest ≡ ended (fields e ++ [] ∷ []) ++ rest
unfolding encode
encode-ended e rest =
    append_assoc (join_lines (fields e)) (10 ∷ 10 ∷ []) rest
    ∙ joined_ended (fields e) (10 ∷ rest) (fields-ne-nil e)
    ∙ sym (append_assoc (ended (fields e)) (10 ∷ []) rest)
    ∙ ap (λ t. t ++ rest) (sym (ended-blank (fields e)))

lines_of_frame :
    (e : ServerSentEvent) (rest : List ℕ)
    → check_event e ≡ none
    → lines (encode e ++ rest) ≡ (fields e ++ [] ∷ []) ++ lines rest
lines_of_frame e rest h =
    ap lines (encode-ended e rest)
    ∙ lines-ended _ rest (append-All IsLine _ _ (fields-IsLine e h) (refl, tt))

read_frame :
    (e : ServerSentEvent) (r : Reader)
    → check_event e ≡ none
    → IsIdle r
    → read_lines (fields e ++ [] ∷ []) r ≡ (reader_after e r, message_of e r ∷ [])
unfolding read_lines read_line
read_frame e r h idle =
    quiet_append (fields e) ([] ∷ []) r (filled e r) _ (read_fields e r h)
      (ap (λ (x : Reader × List Message). (x.0, x.1 ++ [])) (dispatch-filled e r idle))

-- A stream that begins with a frame.
frame_first :
    (e : ServerSentEvent) (rest : List ℕ) (r : Reader)
    → check_event e ≡ none
    → IsIdle r
    → read (encode e ++ rest) r
      ≡ ((read rest (reader_after e r)).0, message_of e r ∷ (read rest (reader_after e r)).1)
unfolding read
frame_first e rest r h idle =
    ap (λ ls. read_lines (drop_last ls) r) (lines_of_frame e rest h)
    ∙ ap (λ ls. read_lines ls r)
        (drop_last-append (fields e ++ [] ∷ []) (lines rest) (lines-ne-nil rest))
    ∙ read_lines-append (fields e ++ [] ∷ []) (drop_last (lines rest)) r
    ∙ ap
        (λ (x : Reader × List Message). (
          (read_lines (drop_last (lines rest)) x.0).0,
          x.1 ++ (read_lines (drop_last (lines rest)) x.0).1,
        ))
        (read_frame e r h idle)

abbrev pub encode_all : List ServerSentEvent → List ℕ
encode_all [] = []
encode_all (e ∷ es) = encode e ++ encode_all es

abbrev pub messages_of : List ServerSentEvent → Reader → List Message
messages_of [] r = []
messages_of (e ∷ es) r = message_of e r ∷ messages_of es (reader_after e r)

abbrev pub reader_after_all : List ServerSentEvent → Reader → Reader
reader_after_all [] r = r
reader_after_all (e ∷ es) r = reader_after_all es (reader_after e r)

-- A reader between two frames gets from a stream of events that pass their checks exactly one
-- message for each, in order: with the event's name or `message`, its data with each line break
-- read as "\n", and the last id that was sent. It ends between two frames, with that id and the
-- last `retry`.
pub read-encode_all :
    (es : List ServerSentEvent) (r : Reader)
    → All (λ e. check_event e ≡ none) es
    → IsIdle r
    → read (encode_all es) r ≡ (reader_after_all es r, messages_of es r)
unfolding read lines read_lines
read-encode_all [] r h idle = refl
read-encode_all (e ∷ es) r h idle =
    frame_first e (encode_all es) r h.0 idle
    ∙ ap (λ (x : Reader × List Message). (x.0, message_of e r ∷ x.1))
        (read-encode_all es (reader_after e r) h.1 (refl, refl))
