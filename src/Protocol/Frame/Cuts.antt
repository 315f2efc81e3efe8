-- ===== src/Protocol/Frame/Cuts.antt =====
-- `decode_frame` (src/protocol/protocol.cpp) on a part of a frame, and on a frame with bytes behind it.
use bolt_stream.Base.{
  ℕ, ◌-◌, ◌≤◌, ◌<◌, ◌≡◌, ◌≢◌, refl, ap, ◌∙◌, [], ◌∷◌, ◌++◌, arith, ltb, if◌then◌else◌, ◌==◌, length,
  take, Bytes, append_assoc, length-append, length-take_of_le, take-append_past, inl, inr,
  Bool-cases, ltb→lt, ltb→le,
}
use bolt_stream.Protocol.Types.{err, invalid_length}
use bolt_stream.Protocol.Wire.{write_u16, write_u32, write_u64}
use bolt_stream.Protocol.Frame.{
  FrameHeader, frame_header_bytes, encode_frame_as, decode_header, take_payload, decode_frame,
}
use bolt_stream.Protocol.Frame.Header.{write_header}
use bolt_stream.Protocol.Frame.Codec.{
  IsSendable, header, encode_frame_as-write_header, decode_frame-rest,
}

length-write_header : (h : FrameHeader) → length (write_header h) ≡ frame_header_bytes
unfolding write_u16 write_u32 write_u64
length-write_header h = refl

decode_frame-short :
    (bytes : Bytes) (max_frame_bytes : ℕ)
    → length bytes < frame_header_bytes
    → decode_frame bytes max_frame_bytes ≡ err invalid_length "truncated frame header"
unfolding decode_frame decode_header take_payload
decode_frame-short bytes max_frame_bytes h = ground arith

-- More bytes than announced take the last branch.
longer :
    {A : Type 0} (a b c : A) (payload extra : Bytes)
    → extra ≢ []
    → (if length (payload ++ extra) == length payload
        then a
        else if ltb (length (payload ++ extra)) (length payload)
        then b
        else c)
      ≡ c
longer a b c payload [] h = absurd (h refl)
longer a b c payload (x ∷ extra) h = ground (arith, length-append payload (x ∷ extra))

module _ (version frame_type correlation_id : ℕ) (payload : Bytes) (max_frame_bytes : ℕ) where
  abbrev sent : Bytes
  sent = encode_frame_as version frame_type correlation_id payload 0

  cut_header :
      (n : ℕ)
      → IsSendable version frame_type correlation_id payload max_frame_bytes
      → n < frame_header_bytes
      → n < length sent
      → decode_frame (take n sent) max_frame_bytes ≡ err invalid_length "truncated frame header"
  cut_header n s short h =
      decode_frame-short (take n sent) max_frame_bytes
        (omega (arith, length-take_of_le n sent (omega arith)))

  cut_payload :
      (n : ℕ)
      → IsSendable version frame_type correlation_id payload max_frame_bytes
      → frame_header_bytes ≤ n
      → n < length sent
      → decode_frame (take n sent) max_frame_bytes ≡ err invalid_length "truncated frame payload"
  cut_payload n s long h =
      let hd : FrameHeader = header version frame_type correlation_id payload max_frame_bytes in
      let k : ℕ = n - length (write_header hd) in
      let split = encode_frame_as-write_header version frame_type correlation_id payload 0 in
      let past =
        take-append_past n (write_header hd) payload (omega (arith, length-write_header hd)) in
      let less : k < length payload =
        omega (
          arith,
          ap length split,
          length-append (write_header hd) payload,
          length-write_header hd,
        ) in
      let size = length-take_of_le k payload (omega arith) in
      ap (λ b. decode_frame (take n b) max_frame_bytes) split
      ∙ ap (λ b. decode_frame b max_frame_bytes) past
      ∙ decode_frame-rest version frame_type correlation_id payload max_frame_bytes (take k payload)
          s
      ∙ ground (arith, size, less)

  -- Every proper prefix of an encoded frame that is within the limits is refused with `invalid_length`:
  -- as a truncated header where it is shorter than a header, else as a truncated payload.
  pub decode_frame-take :
      (n : ℕ)
      → IsSendable version frame_type correlation_id payload max_frame_bytes
      → n < length sent
      → decode_frame (take n sent) max_frame_bytes
        ≡ err invalid_length (
            if ltb n frame_header_bytes
            then "truncated frame header"
            else "truncated frame payload")
  decode_frame-take n s h = elim (Bool-cases (ltb n frame_header_bytes)) [
    | inl short ↦ rw short (cut_header n s (ltb→lt n _ short) h)
    | inr long ↦ rw long (cut_payload n s (ltb→le n _ long) h)
  ]

  -- An encoded frame that is within the limits, with bytes behind it, is refused with `invalid_length`.
  pub decode_frame-append :
      (extra : Bytes)
      → IsSendable version frame_type correlation_id payload max_frame_bytes
      → extra ≢ []
      → decode_frame (sent ++ extra) max_frame_bytes
        ≡ err invalid_length "frame contains trailing bytes"
  decode_frame-append extra s h =
      let hd : FrameHeader = header version frame_type correlation_id payload max_frame_bytes in
      let split = encode_frame_as-write_header version frame_type correlation_id payload 0 in
      ap (λ b. decode_frame (b ++ extra) max_frame_bytes) split
      ∙ ap (λ b. decode_frame b max_frame_bytes) (append_assoc (write_header hd) payload extra)
      ∙ decode_frame-rest version frame_type correlation_id payload max_frame_bytes
          (payload ++ extra) s
      ∙ longer _ _ _ payload extra h
