-- ===== src/Sse/Event/Fields.antt =====
-- What a reader makes of the fields of a frame (src/sse/event.py).
use boilerplate_python_fasta.Prelude.{
  refl, [], ◌∷◌, none, some, ◌++◌, Option, ◌≡◌, List, ℕ, All, ◌==◌, false, subst, map, sym, ap,
  arith, option_map, ◌∙◌,
}
use mathlib.Core.List.{append_assoc, append-nil}
use boilerplate_python_fasta.Prelude.Text.{codes, show, read-show, all-show}
use boilerplate_python_fasta.Sse.Event.{
  fields, check_event, ServerSentEvent, is_break, has, split_lines, labelled,
}
use boilerplate_python_fasta.Sse.Event.Lines.{split_lines-lines}
use boilerplate_python_fasta.Sse.Event.Framing.{
  ended, IsLine, read_lines-append, IsLine-lines, append-All, digits-IsLine, data_lines-IsLine,
}
use boilerplate_python_fasta.Sse.Event.Reader.{read_lines, read_line, set_field, Reader, Message}

checked :
    (e : ServerSentEvent)
    → check_event e ≡ none
    → (has is_break e.event ≡ false)
      × (has is_break e.id ≡ false)
      × (has (λ c. c == 0) e.id ≡ false)
unfolding check_event
checked e h = ground arith

event-IsLine : (o : Option (List ℕ)) → has is_break o ≡ false → All IsLine (labelled "event" o)
event-IsLine none h = tt
event-IsLine (some v) h = (h, tt)

id-IsLine : (o : Option (List ℕ)) → has is_break o ≡ false → All IsLine (labelled "id" o)
id-IsLine none h = tt
id-IsLine (some v) h = (h, tt)

retry-IsLine : (o : Option ℕ) → All IsLine (labelled "retry" (option_map show o))
retry-IsLine none = tt
retry-IsLine (some n) = (digits-IsLine (show n) (all-show n), tt)

-- The lines of a frame that passes its checks.
pub fields-IsLine : (e : ServerSentEvent) → check_event e ≡ none → All IsLine (fields e)
unfolding fields
fields-IsLine e h =
    let (h_event, h_id, _) = checked e h in
    append-All IsLine _ _ (event-IsLine e.event h_event) (
      append-All IsLine _ _ (id-IsLine e.id h_id) (
        append-All IsLine _ _ (retry-IsLine e.retry) (
          data_lines-IsLine _
            (subst (All IsLine) (sym (split_lines-lines e.payload)) (IsLine-lines e.payload)))))

abbrev pub or_else : {A : Type 0} → A → Option A → A
or_else a none = a
or_else a (some b) = b

abbrev pub or_else_some : {A : Type 0} → Option A → Option A → Option A
or_else_some a none = a
or_else_some a (some b) = some b

-- What the `data` lines add to the buffer.
read_data :
    (ls : List (List ℕ)) (r : Reader)
    → read_lines (map (λ line. codes "data" ++ b':' ∷ b' ' ∷ line) ls) r
      ≡ (record r { payload = r.payload ++ ended ls }, [])
unfolding read_lines read_line set_field
read_data [] r = ap (λ t. (record r { payload = t }, [])) (sym (append-nil r.payload))
read_data (l ∷ ls) r =
    read_data ls (record r { payload = r.payload ++ (l ++ 10 ∷ []) })
    ∙ ap (λ t. (record r { payload = t }, []))
        (append_assoc r.payload (l ++ 10 ∷ []) (ended ls)
          ∙ ap (λ t. r.payload ++ t) (append_assoc l (10 ∷ []) (ended ls)))

read_labelled_event :
    (o : Option (List ℕ)) (r : Reader)
    → read_lines (labelled "event" o) r ≡ (record r { event = or_else r.event o }, [])
unfolding read_lines read_line set_field
read_labelled_event none r = refl
read_labelled_event (some v) r = refl

read_labelled_id :
    (o : Option (List ℕ)) (r : Reader)
    → has (λ c. c == 0) o ≡ false
    → read_lines (labelled "id" o) r ≡ (record r { last_event_id = or_else r.last_event_id o }, [])
unfolding read_lines read_line set_field
read_labelled_id none r h = refl
read_labelled_id (some v) r h = rw h refl

read_labelled_retry :
    (o : Option ℕ) (r : Reader)
    → read_lines (labelled "retry" (option_map show o)) r
      ≡ (record r { retry = or_else_some r.retry o }, [])
unfolding read_lines read_line set_field
read_labelled_retry none r = refl
read_labelled_retry (some v) r = rw (all-show, read-show) refl

-- The buffers once the lines of a frame are read.
abbrev pub filled : ServerSentEvent → Reader → Reader
filled e r = record {
  payload = r.payload ++ ended (split_lines e.payload);
  event = or_else r.event e.event;
  last_event_id = or_else r.last_event_id e.id;
  retry = or_else_some r.retry e.retry;
}

pub quiet_append :
    (xs ys : List (List ℕ)) (r r' : Reader) (out : Reader × List Message)
    → read_lines xs r ≡ (r', [])
    → read_lines ys r' ≡ out
    → read_lines (xs ++ ys) r ≡ out
quiet_append xs ys r r' out h k =
    read_lines-append xs ys r
    ∙ ap (λ (x : Reader × List Message). ((read_lines ys x.0).0, x.1 ++ (read_lines ys x.0).1)) h
    ∙ k

pub read_fields :
    (e : ServerSentEvent) (r : Reader)
    → check_event e ≡ none
    → read_lines (fields e) r ≡ (filled e r, [])
unfolding fields
read_fields e r h =
    let (_, _, h_nul) = checked e h in
    let r1 = record r { event = or_else r.event e.event } in
    let r2 = record r1 { last_event_id = or_else r.last_event_id e.id } in
    let r3 = record r2 { retry = or_else_some r.retry e.retry } in
    quiet_append _ _ r r1 _ (read_labelled_event e.event r) (
      quiet_append _ _ r1 r2 _ (read_labelled_id e.id r1 h_nul) (
        quiet_append _ _ r2 r3 _ (read_labelled_retry e.retry r2)
          (read_data (split_lines e.payload) r3)))
