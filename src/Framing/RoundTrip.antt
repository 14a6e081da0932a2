-- ===== src/Framing/RoundTrip.antt =====
-- Frames are read back as they were written (crates/rpytest-ipc/src/framing.rs).
use rpytest.Common.{
  ℕ, ◌+◌, ◌*◌, ◌/◌, ◌%◌, ◌≤◌, ◌<◌, ◌≡◌, refl, sym, ap, List, [], ◌∷◌, ◌++◌, Option, some, length,
  ok, err, arith, take, drop, Option-cases, inl, inr, All,
}
use mathlib.Core.List.{append_assoc}
use rpytest.Framing.{
  FramingError, invalid_frame, message_too_large, max_message_size, to_le_bytes, from_le_bytes,
  encode, encode_payload, decode, parse_frame_header, header_of,
}

take-append {ℓ} : {A : Type ℓ} (xs ys : List A) → take (length xs) (xs ++ ys) ≡ xs
take-append [] ys = refl
take-append (x ∷ xs) ys = ap (◌∷◌ x) (take-append xs ys)

header-to_le_bytes :
    (n : ℕ) (rest : List ℕ)
    → n ≤ max_message_size
    → parse_frame_header (to_le_bytes n ++ rest) ≡ ok (n, 4)
unfolding parse_frame_header to_le_bytes
header-to_le_bytes n rest h =
    let e : from_le_bytes (n % 4_294_967_296 % 256) (n % 4_294_967_296 / 256 % 256)
          (n % 4_294_967_296 / 65_536 % 256) (n % 4_294_967_296 / 16_777_216)
        ≡ n =
      omega arith in
    rw e (ground arith)

-- What a successful `encode` has written.
encode_frame :
    {T : Type 0} (to_vec_named : T → Option (List ℕ)) (msg : T) (frame : List ℕ)
    → encode to_vec_named msg ≡ ok frame
    → (payload : List ℕ) × (to_vec_named msg ≡ some payload)
      × (length payload ≤ max_message_size)
      × (frame ≡ to_le_bytes (length payload) ++ payload)
unfolding encode
encode_frame to_vec_named msg frame e = elim (Option-cases (to_vec_named msg)) [
  | inl n ↦ absurd (ground arith)
  | inr (payload, p) ↦ (payload, p, ground arith, ground arith)
]

decode-from_slice :
    {T : Type 0} (from_slice : List ℕ → Option T) (bytes : List ℕ) (msg : T)
    → from_slice bytes ≡ some msg
    → decode from_slice bytes ≡ ok msg
unfolding decode
decode-from_slice from_slice bytes msg e = rw e

module _ {T : Type 0} (to_vec_named : T → Option (List ℕ)) (from_slice : List ℕ → Option T)
    (law : (msg : T) (bytes : List ℕ)
      → to_vec_named msg ≡ some bytes
      → from_slice bytes ≡ some msg) where
  -- If MessagePack reads back what it writes, then of a frame with anything behind it the header
  -- gives the payload's length and place, the payload decodes to the message, and the frame has no
  -- byte beyond header and payload.
  pub decode-encode :
      (msg : T) (frame rest : List ℕ)
      → encode to_vec_named msg ≡ ok frame
      → (len : ℕ) × (parse_frame_header (frame ++ rest) ≡ ok (len, 4))
        × (decode from_slice (take len (drop 4 (frame ++ rest))) ≡ ok msg)
        × (length frame ≡ 4 + len)
  unfolding to_le_bytes
  decode-encode msg frame rest e =
      let (payload, p, small, f) = encode_frame to_vec_named msg frame e in
      let n = length payload in
      rw f (
        n,
        rw (append_assoc (to_le_bytes n) payload rest)
            (header-to_le_bytes n (payload ++ rest) small),
        rw (take-append payload rest)
            (decode-from_slice from_slice payload msg (law msg payload p)),
        omega arith,
      )

header_of_ok :
    (v len offset : ℕ)
    → header_of v ≡ ok (len, offset)
    → (offset ≡ 4) × (len ≤ max_message_size) × (len ≡ v)
header_of_ok v len offset e = ground arith

-- A header that is accepted is the one that `encode` writes for its length, and the length is within
-- the limit; the payload begins after it.
to_le_bytes-parse_frame_header :
    (bytes : List ℕ) (len offset : ℕ)
    → All (λ b. b < 256) bytes
    → parse_frame_header bytes ≡ ok (len, offset)
    → (offset ≡ 4) × (len ≤ max_message_size) × (bytes ≡ to_le_bytes len ++ drop offset bytes)
unfolding parse_frame_header to_le_bytes
to_le_bytes-parse_frame_header (a ∷ b ∷ c ∷ d ∷ rest) len offset h e =
    let (o, l, v) = header_of_ok (from_le_bytes a b c d) len offset e in
    let ea : len % 4_294_967_296 % 256 ≡ a = omega arith in
    let eb : len % 4_294_967_296 / 256 % 256 ≡ b = omega arith in
    let ec : len % 4_294_967_296 / 65_536 % 256 ≡ c = omega arith in
    let ed : len % 4_294_967_296 / 16_777_216 ≡ d = omega arith in
    rw (o, ea, eb, ec, ed) (refl, l, refl)
to_le_bytes-parse_frame_header _ len offset h e = cc

-- The bytes cannot be a header, and this is the error for it: there are fewer than 4, or the number
-- that the first 4 write with the lowest byte first is over the limit.
abbrev pub IsRefused : List ℕ → FramingError → Type 0
IsRefused (a ∷ b ∷ c ∷ d ∷ rest) e =
    let n = a + 256 * (b + 256 * (c + 256 * d)) in
    (max_message_size < n) × (e ≡ message_too_large n max_message_size)
IsRefused _ e = e ≡ invalid_frame

-- A header is refused with an error exactly if there are fewer than 4 bytes and the error is the one
-- for a broken frame, or the little-endian number of the first 4 bytes is over the limit and the error
-- names that number and the limit.
pub parse_frame_header_errors :
    (bytes : List ℕ) (e : FramingError)
    → (parse_frame_header bytes ≡ err e → IsRefused bytes e)
      × (IsRefused bytes e → parse_frame_header bytes ≡ err e)
unfolding parse_frame_header
parse_frame_header_errors (a ∷ b ∷ c ∷ d ∷ rest) e =
    let same : from_le_bytes a b c d ≡ a + 256 * (b + 256 * (c + 256 * d)) = omega arith in
    (λ h. rw (sym same) (ground arith), λ h. ground (arith, h, same))
parse_frame_header_errors [] e = (λ h. cc h, λ h. cc h)
parse_frame_header_errors (a ∷ []) e = (λ h. cc h, λ h. cc h)
parse_frame_header_errors (a ∷ b ∷ []) e = (λ h. cc h, λ h. cc h)
parse_frame_header_errors (a ∷ b ∷ c ∷ []) e = (λ h. cc h, λ h. cc h)

-- `encode` fails as `encode_payload` does, and its success is the payload behind its header.
encode-encode_payload :
    {T : Type 0} (to_vec_named : T → Option (List ℕ)) (msg : T)
    → ((payload : List ℕ)
        → encode_payload to_vec_named msg ≡ ok payload
        → encode to_vec_named msg ≡ ok (to_le_bytes (length payload) ++ payload))
      × ((e : FramingError)
          → encode_payload to_vec_named msg ≡ err e
          → encode to_vec_named msg ≡ err e)
unfolding encode encode_payload
encode-encode_payload to_vec_named msg = (λ payload h. ground arith, λ e h. ground arith)
