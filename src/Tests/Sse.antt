-- ===== src/Tests/Sse.antt =====
-- Runs of src/sse/event.py.
use boilerplate_python_fasta.Sse.Event.{ServerSentEvent, check_event}
use boilerplate_python_fasta.Sse.Event.Reader.{Reader, read}
use Prim.Native.String.{[]}
use boilerplate_python_fasta.Prelude.{refl, ◌∷◌, ◌≡◌, [], some, none}
use boilerplate_python_fasta.Sse.Event.RoundTrip.{
  encode_all, reader_after_all, messages_of, read-encode_all,
}
use boilerplate_python_fasta.Sse.Event.Lines.{lines}
use boilerplate_python_fasta.Prelude.Text.{codes}

abbrev update : ServerSentEvent
update = record {
  payload = b'a' ∷ 13 ∷ 10 ∷ b':' ∷ [];
  event = some (b'u' ∷ []);
  id = some (b'7' ∷ []);
  retry = some 250;
}

abbrev plain : ServerSentEvent
plain = record { payload = b'b' ∷ []; event = none; id = none; retry = none }

abbrev connected : Reader
connected = record { payload = []; event = []; last_event_id = []; retry = none }

update_allowed : check_event update ≡ none
unfolding check_event
update_allowed = refl

plain_allowed : check_event plain ≡ none
unfolding check_event
plain_allowed = refl

second_type : messages_of (update ∷ plain ∷ []) connected ≡ (
    record { type = b'u' ∷ []; payload = b'a' ∷ 10 ∷ b':' ∷ []; last_event_id = b'7' ∷ [] }
    ∷ record { type = codes "message"; payload = b'b' ∷ []; last_event_id = b'7' ∷ [] }
    ∷ [])
unfolding lines
second_type = refl

read-encode_all_example : read (encode_all (update ∷ plain ∷ [])) connected ≡ (
  reader_after_all (update ∷ plain ∷ []) connected,
  messages_of (update ∷ plain ∷ []) connected,
)
read-encode_all_example =
    read-encode_all (update ∷ plain ∷ []) connected (update_allowed, (plain_allowed, tt))
      (refl, refl)
