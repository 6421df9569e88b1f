-- ===== src/Channel/Pipe.antt =====
-- `PipeChannel` of src/common/ipc.h and ipc.cpp. A pipe is the bytes that wait in it: `write_pipe`
-- appends to them, `read_pipe` takes as many as it is asked for and throws where the pipe ends before.
use rift_lift.Common.{
  ℕ, zero, suc, ◌+◌, ◌*◌, ◌/◌, ◌%◌, Bool, not, ◌||◌, [], ◌∷◌, ◌++◌, Option, none, some, Text, codes,
  is_empty, ltb, ◌==◌, length, take, drop, Result, ok, err, require, ◌>>=◌, ◌>>◌, if◌then◌else◌,
}

-- What is used of the JSON library: `dump`, `parse` without exceptions, and `is_object`.
pub record JsonLibrary : Type 1 where
  pub Json : Type 0
  pub dump : Json → Text
  pub parse : Text → Option Json
  pub is_object : Json → Bool

-- One end: the two handles, of which 0 is a closed one, the bytes to be read and those written.
pub record PipeChannel : Type 0 where
  pub read : ℕ
  pub write : ℕ
  pub incoming : Text
  pub outgoing : Text

abbrev pub max_message : ℕ
max_message = 1024 * 1024

-- `length[i] = static_cast<unsigned char>(bytes.size() >> (8 * i))` for i from 0 to 3
unfoldable pub length_bytes : ℕ → Text
length_bytes n = n % 256 ∷ n / 256 % 256 ∷ n / 65536 % 256 ∷ n / 16777216 % 256 ∷ []

-- `size |= std::uint32_t(length[i]) << (8 * i)`: the bytes do not overlap.
unfoldable pub length_of_bytes : Text → ℕ
length_of_bytes [] = 0
length_of_bytes (b ∷ bs) = b + 256 * length_of_bytes bs

unfoldable pub read_pipe : ℕ → PipeChannel → Result (Text × PipeChannel)
read_pipe n c =
    if ltb (length c.incoming) n
    then err (codes "Credential broker pipe closed.")
    else ok (take n c.incoming, record c { incoming = drop n c.incoming })

unfoldable pub close : PipeChannel → PipeChannel
close c = record c { read = 0; write = 0 }

module _ (library : JsonLibrary) where
  -- What `send` writes for a message.
  unfoldable pub frame : library.Json → Text
  frame value = length_bytes (length (library.dump value)) ++ library.dump value

  unfoldable pub send : library.Json → PipeChannel → Result PipeChannel
  send value c = do
    require (not (c.write == 0)) (codes "Credential channel is closed.")
    require (not (is_empty (library.dump value) || ltb max_message (length (library.dump value))))
        (codes "Credential channel message exceeds its limit.")
    ok (record c { outgoing = c.outgoing ++ frame value })

  abbrev object_of : Option library.Json → Result library.Json
  object_of none = err (codes "Invalid credential channel message.")
  object_of (some j) =
      if library.is_object j then ok j else err (codes "Invalid credential channel message.")

  unfoldable pub receive : PipeChannel → Result (library.Json × PipeChannel)
  receive c = do
    require (not (c.read == 0)) (codes "Credential channel is closed.")
    (header, c1) ← read_pipe 4 c
    require (not (length_of_bytes header == 0 || ltb max_message (length_of_bytes header)))
        (codes "Invalid credential channel message length.")
    (bytes, c2) ← read_pipe (length_of_bytes header) c1
    j ← object_of (library.parse bytes)
    ok (j, c2)

  unfoldable pub call : library.Json → PipeChannel → Result (library.Json × PipeChannel)
  call request c = do c1 ← send request c; receive c1

  module _ (unavailable : library.Json) (handler : library.Json → Result library.Json) where
    -- The response: what the handler returns or, where it throws, the object that says so.
    abbrev pub response_to : library.Json → library.Json
    response_to request = elim (handler request) [
      | err message ↦ unavailable
      | ok response ↦ response
    ]

    unfoldable pub serve_one : PipeChannel → Result PipeChannel
    serve_one c = do (request, c1) ← receive c; send (response_to request) c1

    -- `serve` where a stop is requested in the given round, or an exception comes before.
    unfoldable pub serve : ℕ → PipeChannel → PipeChannel
    serve zero c = close c
    serve (suc rounds) c = elim (serve_one c) [ err message ↦ close c | ok c1 ↦ serve rounds c1 ]
