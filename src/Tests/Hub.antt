-- ===== src/Tests/Hub.antt =====
-- Runs of src/sse/hub.py.
use boilerplate_python_fasta.Prelude.Dict
use boilerplate_python_fasta.Prelude.{
  refl, ℕ, ℕ_discrete, List, [], ◌∷◌, ◌≡◌, some, none, false, remove_first, String_discrete,
  option_map,
}
use boilerplate_python_fasta.Sse.Hub.{
  yields, yields_last, overflow_event, Hub, new_hub, subscribe, publish, publish_loop, offer,
  put_nowait, close, close_loop, close_subscriber, drop_subscriber, read_stream, next,
}
use boilerplate_python_fasta.Sse.Event.{ServerSentEvent}
use boilerplate_python_fasta.Sse.Hub.Registry.{Action, run, send, pull, shut, open_stream, perform}

abbrev quiet_hub : Hub
quiet_hub = record {
  buffer = 1;
  topics = [];
  subscribers = λ i. record { topic = ""; buffer = 1; queue = []; terminated = false };
  created = 0;
}

quiet_hub-new : new_hub 1 ≡ some quiet_hub
unfolding new_hub
quiet_hub-new = refl

abbrev note : ℕ → ServerSentEvent
note c = record { payload = c ∷ []; event = none; id = none; retry = none }

-- The third event finds no room.
abbrev calls : List Action
calls =
    send "t" (note b'a')
    ∷ pull 0
    ∷ send "t" (note b'b')
    ∷ open_stream "t"
    ∷ send "u" (note b'x')
    ∷ send "t" (note b'c')
    ∷ shut none
    ∷ pull 0
    ∷ pull 0
    ∷ []

-- The stream reads two events and is then told that it fell behind.
told_of_overflow :
    option_map (λ r. r.0) (run calls (subscribe "t" quiet_hub).1)
    ≡ some
        ((0, yields (note b'a')) ∷ (0, yields (note b'b')) ∷ (0, yields_last overflow_event) ∷ [])
unfolding run perform publish publish_loop offer put_nowait close close_loop close_subscriber
    drop_subscriber read_stream next subscribe Dict.get Dict.put Dict.remove remove_first
    String_discrete ℕ_discrete
told_of_overflow = refl
