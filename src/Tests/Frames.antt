-- ===== src/Tests/Frames.antt =====
-- A frame with the payload "hi", its bytes, and the check value of the CRC.
use bolt_stream.Base.{
  ◌≡◌, refl, Bool, true, ◌&&◌, [], ◌∷◌, ◌++◌, arith, ltb, take, All, Bytes, codes,
}
use bolt_stream.Protocol.Types.{ok, err, invalid_length}
use bolt_stream.Protocol.Wire.{
  IsByte, write_u16, write_u32, write_u64, read_u16_be, read_u32_be, read_u64_be,
}
use bolt_stream.Protocol.Frame.{
  crc_bit, crc_byte, crc32, frame_prefix, encode_frame_as, read_header, check_header, decode_header,
  take_payload, decode_frame,
}
use bolt_stream.Protocol.Frame.Codec.{
  IsSendable, sent_header, decode_frame-encode_frame, encode_frame-decode_frame,
}
use bolt_stream.Protocol.Frame.Cuts.{decode_frame-take, decode_frame-append}

crc32_check_value : crc32 (codes "123456789") ≡ 0xCBF43926
unfolding crc32 crc_byte crc_bit
crc32_check_value = refl

abbrev hi : Bytes
hi = codes "hi"

abbrev hi_IsSendable : IsSendable 5 6 7 hi 1000
hi_IsSendable = record {
  old_enough = omega arith;
  new_enough = omega arith;
  typed = omega arith;
  correlated = omega arith;
  within = omega arith;
  limit = omega arith;
}

decode_frame-encode_frame_example :
    decode_frame (encode_frame_as 5 6 7 hi 0) 1000
    ≡ ok (record { header = sent_header 5 6 7 hi 0; payload = hi })
decode_frame-encode_frame_example = decode_frame-encode_frame 5 6 7 hi 1000 hi_IsSendable

decode_frame-take_example :
    decode_frame (take 33 (encode_frame_as 5 6 7 hi 0)) 1000
    ≡ err invalid_length "truncated frame payload"
unfolding encode_frame_as frame_prefix write_u16 write_u32 write_u64
decode_frame-take_example = decode_frame-take 5 6 7 hi 1000 33 hi_IsSendable (omega arith)

decode_frame-append_example :
    decode_frame (encode_frame_as 5 6 7 hi 0 ++ 1 ∷ []) 1000
    ≡ err invalid_length "frame contains trailing bytes"
decode_frame-append_example = decode_frame-append 5 6 7 hi 1000 (1 ∷ []) hi_IsSendable (λ e. cc)

abbrev all_bytes : Bytes → Bool
all_bytes [] = true
all_bytes (b ∷ bytes) = ltb b 256 && all_bytes bytes

pub all_bytes-IsByte : (bytes : Bytes) → all_bytes bytes ≡ true → All IsByte bytes
all_bytes-IsByte [] h = tt
all_bytes-IsByte (b ∷ bytes) h = (ground arith, all_bytes-IsByte bytes (ground arith))

abbrev hi_bytes : Bytes
hi_bytes =
    66 ∷ 83 ∷ 84 ∷ 82 ∷ 0 ∷ 5 ∷ 0 ∷ 6 ∷ 0 ∷ 0 ∷ 0 ∷ 32 ∷ 0 ∷ 0 ∷ 0 ∷ 2 ∷ 0 ∷ 0 ∷ 0 ∷ 0 ∷ 0 ∷ 0 ∷ 0
    ∷ 7 ∷ 0 ∷ 0 ∷ 0 ∷ 0 ∷ 7 ∷ 170 ∷ 194 ∷ 127 ∷ 104 ∷ 105 ∷ []

hi_frame :
    decode_frame hi_bytes 1000 ≡ ok (record { header = sent_header 5 6 7 hi 0; payload = hi })
unfolding decode_frame decode_header read_header check_header take_payload crc32 crc_byte crc_bit
    frame_prefix write_u16 write_u32 write_u64 read_u16_be read_u32_be read_u64_be
hi_frame = refl

encode_frame-decode_frame_example :
    (encode_frame_as 5 6 7 hi 0 ≡ hi_bytes) × IsSendable 5 6 7 hi 1000
encode_frame-decode_frame_example =
    encode_frame-decode_frame hi_bytes 1000 (all_bytes-IsByte hi_bytes refl) (omega arith) hi_frame

-- 33 bytes are too few for the frame.
too_long :
    decode_frame (encode_frame_as 5 6 7 hi 0) 33
    ≡ err invalid_length "frame exceeds configured maximum"
unfolding encode_frame_as decode_frame decode_header read_header check_header take_payload crc32
    crc_byte crc_bit frame_prefix write_u16 write_u32 write_u64 read_u16_be read_u32_be read_u64_be
too_long = refl
