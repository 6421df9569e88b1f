-- ===== src/Channel/Tests.antt =====
-- Two messages over a channel, with a JSON library whose values are texts.
use rift_lift.Common.{
  List, [], ◌∷◌, ◌++◌, map, some, Text, codes, starts_with, text_eq, All, Result, ok, err, length,
  arith, ◌≡◌, refl, if◌then◌else◌, ◌+◌,
}
use rift_lift.Channel.Pipe.{JsonLibrary, PipeChannel, serve, close, response_to}
use rift_lift.Channel.Framing.{
  IsMessage, frames, send_all, receive_all, receive_all-send_all, serve-frames,
}

abbrev plain_json : JsonLibrary
plain_json = record {
  Json = Text;
  dump = λ j. j;
  parse = λ s. some s;
  is_object = λ j. starts_with j (codes "{");
}

abbrev unavailable : Text
unavailable = codes "{\"error\":1}"

abbrev handler : Text → Result Text
handler j = if text_eq j (codes "{}") then err (codes "broken") else ok (codes "{\"ok\":1}")

abbrev requests : List Text
requests = codes "{}" ∷ codes "{\"op\":1}" ∷ []

abbrev end_with : Text → PipeChannel
end_with waiting = record { read = 3; write = 4; incoming = waiting; outgoing = [] }

requests-IsMessage : All (IsMessage plain_json) requests
unfolding starts_with
requests-IsMessage = (
  record { some_bytes = refl; few_bytes = omega arith; is_object = refl; reads_back = refl },
  (record { some_bytes = refl; few_bytes = omega arith; is_object = refl; reads_back = refl }, tt),
)

responses-IsMessage :
    All (IsMessage plain_json) (map (response_to plain_json unavailable handler) requests)
unfolding starts_with text_eq
responses-IsMessage = (
  record { some_bytes = refl; few_bytes = omega arith; is_object = refl; reads_back = refl },
  (record { some_bytes = refl; few_bytes = omega arith; is_object = refl; reads_back = refl }, tt),
)

receive_all-send_all_example :
    (sent : PipeChannel) × (send_all plain_json requests (end_with []) ≡ ok sent)
    × (receive_all plain_json (length requests) (record (end_with []) { incoming = sent.outgoing })
        ≡ ok (requests, record (end_with []) { incoming = [] }))
receive_all-send_all_example =
    receive_all-send_all plain_json requests (end_with []) (end_with []) requests-IsMessage refl
      refl refl

serve-frames_example :
    serve plain_json unavailable handler
      (length requests + 1)
      (end_with (frames plain_json requests))
    ≡ close (record (end_with (frames plain_json requests)) {
      incoming = [];
      outgoing =
          [] ++ frames plain_json (map (response_to plain_json unavailable handler) requests);
    })
serve-frames_example =
    serve-frames plain_json unavailable handler requests 1 (end_with (frames plain_json requests))
      requests-IsMessage responses-IsMessage refl refl refl
