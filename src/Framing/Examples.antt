-- ===== src/Framing/Examples.antt =====
-- The theorems on frames at concrete bytes (crates/rpytest-ipc/src/framing.rs).
use rpytest.Common.{
  ℕ, ◌+◌, ◌≡◌, refl, sym, List, [], ◌∷◌, ◌++◌, Option, some, ok, err, length, take, drop,
}
use rpytest.Framing.{
  FramingError, message_too_large, max_message_size, to_le_bytes, encode, decode,
  parse_frame_header,
}
use rpytest.Framing.RoundTrip.{IsRefused, decode-encode, parse_frame_header_errors}

-- A message that is its own bytes.
abbrev to_bytes : List ℕ → Option (List ℕ)
to_bytes bytes = some bytes

abbrev of_bytes : List ℕ → Option (List ℕ)
of_bytes bytes = some bytes

abbrev message : List ℕ
message = 130 ∷ 1 ∷ 2 ∷ []

encodes : encode to_bytes message ≡ ok (3 ∷ 0 ∷ 0 ∷ 0 ∷ message)
unfolding encode to_le_bytes
encodes = refl

decode-encode_example :
    (len : ℕ) × (parse_frame_header ((3 ∷ 0 ∷ 0 ∷ 0 ∷ message) ++ 9 ∷ []) ≡ ok (len, 4))
    × (decode of_bytes (take len (drop 4 ((3 ∷ 0 ∷ 0 ∷ 0 ∷ message) ++ 9 ∷ []))) ≡ ok message)
    × (length (3 ∷ 0 ∷ 0 ∷ 0 ∷ message) ≡ 4 + len)
decode-encode_example =
    decode-encode to_bytes of_bytes (λ m bytes e. sym e) message (3 ∷ 0 ∷ 0 ∷ 0 ∷ message) (9 ∷ [])
      encodes

abbrev header : List ℕ
header = 1 ∷ 2 ∷ 0 ∷ 0 ∷ 7 ∷ []

abbrev large : List ℕ
large = 0 ∷ 0 ∷ 0 ∷ 2 ∷ []

abbrev too_large : FramingError
too_large = message_too_large 33_554_432 max_message_size

abbrev four : ℕ
four = 4

header_parses : parse_frame_header header ≡ ok (513, four)
unfolding parse_frame_header
header_parses = refl

header_fails : parse_frame_header large ≡ err too_large
unfolding parse_frame_header
header_fails = refl

parse_frame_header_errors_example :
    (parse_frame_header large ≡ err too_large → IsRefused large too_large)
    × (IsRefused large too_large → parse_frame_header large ≡ err too_large)
parse_frame_header_errors_example = parse_frame_header_errors large too_large
