-- ===== src/Channel/Framing.antt =====
-- Messages that are sent over a channel, received and answered (src/common/ipc.cpp).
use rift_lift.Common.{
  ℕ, zero, suc, ◌+◌, ◌^◌, true, false, List, [], ◌∷◌, ◌++◌, map, some, Text, codes, is_empty, ltb,
  ◌==◌, length, take, drop, All, Result, ok, err, ◌>>=◌, ◌≡◌, refl, ap, sym, ◌∙◌, arith, ◌≤◌, ◌<◌,
  append_assoc, append-nil, length-append,
}
use rift_lift.Channel.Pipe.{
  JsonLibrary, PipeChannel, read_pipe, max_message, length_bytes, length_of_bytes, frame, send,
  receive, response_to, serve_one, serve, close,
}

length_of_bytes-length_bytes : (n : ℕ) → n < 2 ^ 32 → length_of_bytes (length_bytes n) ≡ n
unfolding length_of_bytes length_bytes
length_of_bytes-length_bytes n h = omega arith

take-append : (s t : Text) → take (length s) (s ++ t) ≡ s
take-append [] t = refl
take-append (c ∷ s) t = ap (λ u. c ∷ u) (take-append s t)

drop-append : (s t : Text) → drop (length s) (s ++ t) ≡ t
drop-append [] t = refl
drop-append (c ∷ s) t = drop-append s t

read_pipe-append :
    (s rest : Text) (c : PipeChannel)
    → c.incoming ≡ s ++ rest
    → read_pipe (length s) c ≡ ok (s, record c { incoming = rest })
unfolding read_pipe
read_pipe-append s rest c e =
    let enough : ltb (length (s ++ rest)) (length s) ≡ false =
      ground (arith, length-append s rest) in
    rw (e, enough, take-append s rest, drop-append s rest) refl

pair_path : {s s' t t' : Text} → s ≡ s' → t ≡ t' → ◌≡◌ {A = Text × Text} (s, t) (s', t')
pair_path e f = rw (e, f) refl

module _ (library : JsonLibrary) where
  -- A message that can be sent and that the JSON library reads back.
  pub record IsMessage (value : library.Json) : Type 0 where
    pub some_bytes : is_empty (library.dump value) ≡ false
    pub few_bytes : length (library.dump value) ≤ max_message
    pub is_object : library.is_object value ≡ true
    pub reads_back : library.parse (library.dump value) ≡ some value

  send-IsMessage :
      (value : library.Json) (c : PipeChannel)
      → IsMessage value
      → c.write == 0 ≡ false
      → send library value c ≡ ok (record c { outgoing = c.outgoing ++ frame library value })
  unfolding send
  send-IsMessage value c m h =
      let few : ltb max_message (length (library.dump value)) ≡ false =
        ground (arith, m.few_bytes) in
      rw (h, m.some_bytes, few) refl

  receive-frame :
      (value : library.Json) (rest : Text) (c : PipeChannel)
      → IsMessage value
      → c.read == 0 ≡ false
      → c.incoming ≡ frame library value ++ rest
      → receive library c ≡ ok (value, record c { incoming = rest })
  unfolding receive frame length_bytes
  receive-frame value rest c m h e =
      let bytes = library.dump value in
      let n = length bytes in
      let header =
        read_pipe-append (length_bytes n) (bytes ++ rest) c
          (e ∙ append_assoc (length_bytes n) bytes rest) in
      let body = read_pipe-append bytes rest (record c { incoming = bytes ++ rest }) refl in
      let size = length_of_bytes-length_bytes n (omega (arith, m.few_bytes)) in
      let few : ltb max_message n ≡ false = ground (arith, m.few_bytes) in
      let some : (n == 0) ≡ false = not_zero bytes m.some_bytes in
      rw (h, header, size, some, few, body, m.reads_back, m.is_object) refl
    where
      not_zero : (s : Text) → is_empty s ≡ false → (length s == 0) ≡ false
      not_zero s k = ground arith

  -- The frames of several messages, one behind the other.
  abbrev pub frames : List library.Json → Text
  frames [] = []
  frames (value ∷ values) = frame library value ++ frames values

  -- What is received of several messages that wait.
  abbrev pub receive_all : ℕ → PipeChannel → Result (List library.Json × PipeChannel)
  receive_all zero c = ok ([], c)
  receive_all (suc n) c = do
    (value, c1) ← receive library c
    (values, c2) ← receive_all n c1
    ok (value ∷ values, c2)

  abbrev pub send_all : List library.Json → PipeChannel → Result PipeChannel
  send_all [] c = ok c
  send_all (value ∷ values) c = do c1 ← send library value c; send_all values c1

  send_all-frames :
      (values : List library.Json) (c : PipeChannel)
      → All IsMessage values
      → c.write == 0 ≡ false
      → send_all values c ≡ ok (record c { outgoing = c.outgoing ++ frames values })
  send_all-frames [] c m h = ap (λ t. ok (record c { outgoing = t })) (sym (append-nil c.outgoing))
  send_all-frames (value ∷ values) c (m, ms) h =
      rw
        (
          send-IsMessage value c m h,
          send_all-frames values (record c { outgoing = c.outgoing ++ frame library value }) ms h,
          append_assoc c.outgoing (frame library value) (frames values),
        )
        refl

  receive_all-frames :
      (values : List library.Json) (rest : Text) (c : PipeChannel)
      → All IsMessage values
      → c.read == 0 ≡ false
      → c.incoming ≡ frames values ++ rest
      → receive_all (length values) c ≡ ok (values, record c { incoming = rest })
  receive_all-frames [] rest c m h e = ap (λ t. ok ([], record c { incoming = t })) e
  receive_all-frames (value ∷ values) rest c (m, ms) h e =
      rw
        (
          receive-frame value (frames values ++ rest) c m h
              (e ∙ append_assoc (frame library value) (frames values) rest),
          receive_all-frames values rest (record c { incoming = frames values ++ rest }) ms h refl,
        )
        refl

  -- Messages of up to 1 MiB that are sent over an open channel are received at its other end in
  -- the order in which they were sent, each one whole, and no byte is left over.
  pub receive_all-send_all :
      (values : List library.Json) (sender receiver : PipeChannel)
      → All IsMessage values
      → sender.write == 0 ≡ false
      → receiver.read == 0 ≡ false
      → sender.outgoing ≡ []
      → (sent : PipeChannel) × (send_all values sender ≡ ok sent)
        × (receive_all (length values) (record receiver { incoming = sent.outgoing })
            ≡ ok (values, record receiver { incoming = [] }))
  receive_all-send_all values sender receiver ms w r none_waits = (
    record sender { outgoing = sender.outgoing ++ frames values },
    send_all-frames values sender ms w,
    receive_all-frames values [] (record receiver { incoming = sender.outgoing ++ frames values })
        ms r (ap (λ t. t ++ frames values) none_waits ∙ sym (append-nil (frames values))),
  )

  module _ (unavailable : library.Json) (handler : library.Json → Result library.Json) where
    serve_one-frame :
        (value : library.Json) (rest : Text) (c : PipeChannel)
        → IsMessage value
        → IsMessage (response_to library unavailable handler value)
        → c.read == 0 ≡ false
        → c.write == 0 ≡ false
        → c.incoming ≡ frame library value ++ rest
        → serve_one library unavailable handler c
          ≡ ok (record c {
            incoming = rest;
            outgoing = c.outgoing ++ frame library (response_to library unavailable handler value);
          })
    unfolding serve_one
    serve_one-frame value rest c m m' r w e =
        rw
          (
            receive-frame value rest c m r e,
            send-IsMessage (response_to library unavailable handler value)
                (record c { incoming = rest }) m' w,
          )
          refl

    serve_one-nothing :
        (c : PipeChannel)
        → c.read == 0 ≡ false
        → c.incoming ≡ []
        → serve_one library unavailable handler c ≡ err (codes "Credential broker pipe closed.")
    unfolding serve_one receive read_pipe
    serve_one-nothing c r e = rw (r, e) refl

    serve-nothing :
        (rounds : ℕ) (c : PipeChannel)
        → c.read == 0 ≡ false
        → c.incoming ≡ []
        → serve library unavailable handler rounds c ≡ close c
    unfolding serve
    serve-nothing zero c r e = refl
    serve-nothing (suc rounds) c r e = rw (serve_one-nothing c r e, serve) refl

    -- While no stop is requested, a peer that has sent some requests and closed its end has each
    -- of them answered, in order and once, whether or not the handler throws; then the channel is
    -- closed. The requests and the responses are messages of up to 1 MiB.
    pub serve-frames :
        (values : List library.Json) (rounds : ℕ) (c : PipeChannel)
        → All IsMessage values
        → All IsMessage (map (response_to library unavailable handler) values)
        → c.read == 0 ≡ false
        → c.write == 0 ≡ false
        → c.incoming ≡ frames values
        → serve library unavailable handler (length values + rounds) c
          ≡ close (record c {
            incoming = [];
            outgoing = c.outgoing ++ frames (map (response_to library unavailable handler) values);
          })
    unfolding serve
    serve-frames [] rounds c ms ms' r w e =
        let more : 0 + rounds ≡ rounds = omega arith in
        let closed : close c ≡ close (record c { incoming = []; outgoing = c.outgoing ++ [] }) =
          ap (λ p. close (record c { incoming = p.0; outgoing = p.1 }))
            (pair_path e (sym (append-nil c.outgoing))) in
        ap (λ n. serve library unavailable handler n c) more ∙ serve-nothing rounds c r e ∙ closed
    serve-frames (value ∷ values) rounds c (m, ms) (m', ms') r w e =
        let response = response_to library unavailable handler value in
        let more : suc (length values) + rounds ≡ suc (length values + rounds) = omega arith in
        let c1 = record c {
          incoming = frames values;
          outgoing = c.outgoing ++ frame library response;
        } in
        let rest = serve-frames values rounds c1 ms ms' r w refl in
        rw
          (
            more,
            serve,
            serve_one-frame value (frames values) c m m' r w e,
            rest,
            append_assoc c.outgoing (frame library response)
                (frames (map (response_to library unavailable handler) values)),
          )
          refl
