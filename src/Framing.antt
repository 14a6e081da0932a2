-- ===== src/Framing.antt =====
-- crates/rpytest-ipc/src/framing.rs: frames of a 4-byte little-endian length and a MessagePack
-- payload. A byte is a number below 256. rmp_serde is not of this repository: the two functions of
-- it that the code calls are parameters, with `none` for an error.
pub mod RoundTrip
mod Examples
use rpytest.Common.{
  ℕ, ◌+◌, ◌*◌, ◌/◌, ◌%◌, List, [], ◌∷◌, ◌++◌, Option, none, some, if◌then◌else◌, ltb, length,
  Result, ok, err,
}

pub data FramingError : Type 0 where
  serialize deserialize invalid_frame : FramingError
  message_too_large : ℕ → ℕ → FramingError

abbrev pub max_message_size : ℕ
max_message_size = 16 * 1024 * 1024

-- `(n as u32).to_le_bytes()`
unfoldable pub to_le_bytes : ℕ → List ℕ
to_le_bytes n =
    let m = n % 4_294_967_296 in m % 256 ∷ m / 256 % 256 ∷ m / 65_536 % 256 ∷ m / 16_777_216 ∷ []

abbrev pub from_le_bytes : ℕ → ℕ → ℕ → ℕ → ℕ
from_le_bytes a b c d = a + b * 256 + c * 65_536 + d * 16_777_216

module _ {T : Type 0} (to_vec_named : T → Option (List ℕ)) where
  abbrev encoded : Option (List ℕ) → Result FramingError (List ℕ)
  encoded none = err serialize
  encoded (some payload) =
      if ltb max_message_size (length payload)
      then err (message_too_large (length payload) max_message_size)
      else ok (to_le_bytes (length payload) ++ payload)

  unfoldable pub encode : T → Result FramingError (List ℕ)
  encode msg = encoded (to_vec_named msg)

  abbrev checked : Option (List ℕ) → Result FramingError (List ℕ)
  checked none = err serialize
  checked (some payload) =
      if ltb max_message_size (length payload)
      then err (message_too_large (length payload) max_message_size)
      else ok payload

  unfoldable pub encode_payload : T → Result FramingError (List ℕ)
  encode_payload msg = checked (to_vec_named msg)

module _ {T : Type 0} (from_slice : List ℕ → Option T) where
  abbrev decoded : Option T → Result FramingError T
  decoded none = err deserialize
  decoded (some msg) = ok msg

  unfoldable pub decode : List ℕ → Result FramingError T
  decode bytes = decoded (from_slice bytes)

abbrev header_of : ℕ → Result FramingError (ℕ × ℕ)
header_of len =
    if ltb max_message_size len then err (message_too_large len max_message_size) else ok (len, 4)

unfoldable pub parse_frame_header : List ℕ → Result FramingError (ℕ × ℕ)
parse_frame_header (a ∷ b ∷ c ∷ d ∷ rest) = header_of (from_le_bytes a b c d)
parse_frame_header _ = err invalid_frame
