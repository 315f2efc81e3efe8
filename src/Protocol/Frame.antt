-- ===== src/Protocol/Frame.antt =====
-- Frames: the CRC, the 32-byte header and the payload behind it (src/protocol/protocol.cpp). An
-- enumerator of `FrameType` is given by its underlying value, since the header may hold any.
pub mod Header
pub mod Codec
pub mod Cuts
use Prim.Native.Nat.{bit_and, bit_xor}
use bolt_stream.Base.{
  ℕ, zero, suc, ◌+◌, ◌-◌, ◌/◌, ◌%◌, ◌^◌, Bool, ◌||◌, not, List, [], ◌∷◌, ◌++◌, foldl, ltb, ◌==◌,
  if◌then◌else◌, length, take, drop, Bytes,
}
use bolt_stream.Protocol.Types.{
  Decoded, ok, err, invalid_length, invalid_magic, unsupported_version, reserved_flags,
  crc_mismatch,
}
use bolt_stream.Protocol.Wire.{
  written, write_u16, write_u32, write_u64, read_u16_be, read_u32_be, read_u64_be,
}

-- `kMagic`, `kProtocolVersion`, `kMinimumProtocolVersion`, `kFrameHeaderBytes`, `kHeaderCrcOffset`
abbrev pub magic_number : ℕ
magic_number = 0x42535452

abbrev pub protocol_version : ℕ
protocol_version = 5

abbrev pub minimum_protocol_version : ℕ
minimum_protocol_version = 4

abbrev pub frame_header_bytes : ℕ
frame_header_bytes = 32

abbrev pub header_crc_offset : ℕ
header_crc_offset = 28

pub record FrameHeader : Type 0 where
  pub magic : ℕ
  pub version : ℕ
  pub frame_type : ℕ
  pub header_bytes : ℕ
  pub payload_bytes : ℕ
  pub correlation_id : ℕ
  pub flags : ℕ
  pub header_crc32 : ℕ

pub record Frame : Type 0 where
  pub header : FrameHeader
  pub payload : Bytes

-- One round of the inner loop: `mask = 0U - (crc & 1U); crc = (crc >> 1U) ^ (0xEDB88320U & mask)`.
unfoldable pub crc_bit : ℕ → ℕ
crc_bit crc =
    let mask = (2 ^ 32 - bit_and crc 1) % 2 ^ 32 in bit_xor (crc / 2) (bit_and 0xEDB88320 mask)

abbrev rounds {ℓ} : {A : Type ℓ} → ℕ → (A → A) → A → A
rounds zero f a = a
rounds (suc n) f a = rounds n f (f a)

unfoldable pub crc_byte : ℕ → ℕ → ℕ
unfolding crc_bit
crc_byte crc byte = rounds 8 crc_bit (bit_xor crc byte)

-- `~crc`
unfoldable pub crc32 : Bytes → ℕ
unfolding crc_byte
crc32 bytes = 2 ^ 32 - 1 - foldl crc_byte 0xFFFFFFFF bytes

-- What `encode_frame` has written when it takes the CRC.
unfoldable pub frame_prefix : ℕ → ℕ → ℕ → ℕ → ℕ → Bytes
frame_prefix version frame_type correlation_id payload_bytes flags = written (
    write_u32 magic_number
    ∷ write_u16 version
    ∷ write_u16 frame_type
    ∷ write_u32 frame_header_bytes
    ∷ write_u32 payload_bytes
    ∷ write_u64 correlation_id
    ∷ write_u32 flags
    ∷ [])

-- The overload that takes a version.
unfoldable pub encode_frame_as : ℕ → ℕ → ℕ → Bytes → ℕ → Bytes
encode_frame_as version frame_type correlation_id payload flags =
    let out = frame_prefix version frame_type correlation_id (length payload % 2 ^ 32) flags in
    out ++ (write_u32 (crc32 out) ++ payload)

unfoldable pub encode_frame : ℕ → ℕ → Bytes → ℕ → Bytes
encode_frame = encode_frame_as protocol_version

unfoldable pub read_header : Bytes → FrameHeader
read_header bytes = record {
  magic = read_u32_be bytes 0;
  version = read_u16_be bytes 4;
  frame_type = read_u16_be bytes 6;
  header_bytes = read_u32_be bytes 8;
  payload_bytes = read_u32_be bytes 12;
  correlation_id = read_u64_be bytes 16;
  flags = read_u32_be bytes 24;
  header_crc32 = read_u32_be bytes 28;
}

unfoldable pub check_header : Bytes → ℕ → FrameHeader → Decoded FrameHeader
check_header bytes max_frame_bytes h =
    if not (h.magic == magic_number)
    then err invalid_magic "invalid frame magic"
    else if ltb h.version minimum_protocol_version || ltb protocol_version h.version
    then err unsupported_version "unsupported protocol version"
    else if not (h.header_bytes == frame_header_bytes)
    then err invalid_length "unsupported frame header length"
    else if ltb max_frame_bytes frame_header_bytes
        || ltb (max_frame_bytes - frame_header_bytes) h.payload_bytes
    then err invalid_length "frame exceeds configured maximum"
    else if not (h.flags == 0)
    then err reserved_flags "reserved frame flags are not supported"
    else if not (crc32 (take header_crc_offset bytes) == h.header_crc32)
    then err crc_mismatch "frame header crc mismatch"
    else ok h

unfoldable pub decode_header : Bytes → ℕ → Decoded FrameHeader
decode_header bytes max_frame_bytes =
    if ltb (length bytes) frame_header_bytes
    then err invalid_length "truncated frame header"
    else check_header bytes max_frame_bytes (read_header bytes)

-- The size check and the payload of `decode_frame`, behind the header's result.
unfoldable pub take_payload : Bytes → Decoded FrameHeader → Decoded Frame
take_payload bytes (err code message) = err code message
take_payload bytes (ok header) =
    let expected_size = frame_header_bytes + header.payload_bytes in
    if length bytes == expected_size
    then ok (record { header = header; payload = drop frame_header_bytes bytes })
    else if ltb (length bytes) expected_size
    then err invalid_length "truncated frame payload"
    else err invalid_length "frame contains trailing bytes"

unfoldable pub decode_frame : Bytes → ℕ → Decoded Frame
decode_frame bytes max_frame_bytes = take_payload bytes (decode_header bytes max_frame_bytes)
