-- ===== src/Protocol/Frame/Codec.antt =====
-- `encode_frame` against `decode_frame` (src/protocol/protocol.cpp), in both directions.
use bolt_stream.Base.{
  ℕ, ◌+◌, ◌%◌, ◌^◌, ◌≤◌, ◌<◌, ◌≡◌, refl, sym, ap, subst, length-drop, ◌∙◌, ◌++◌, arith, ltb,
  if◌then◌else◌, length, take, drop, All, Bytes, append_assoc, ◌==◌,
}
use bolt_stream.Protocol.Types.{Decoded, ok, err, invalid_length}
use bolt_stream.Protocol.Wire.{write_u16, write_u32, write_u64, IsU16, IsU32, IsU64, IsByte}
use bolt_stream.Protocol.Frame.{
  FrameHeader, Frame, magic_number, frame_header_bytes, header_crc_offset, protocol_version,
  minimum_protocol_version, crc32, frame_prefix, encode_frame_as, read_header, check_header,
  decode_header, take_payload, decode_frame,
}
use bolt_stream.Protocol.Frame.Header.{
  write_header, FrameHeaderFits, read_header-write_header, write_header-read_header,
}

pub crc32-lt : (bytes : Bytes) → crc32 bytes < 2 ^ 32
unfolding crc32
crc32-lt bytes = omega arith

-- The header that `encode_frame` writes.
abbrev pub sent_header : ℕ → ℕ → ℕ → Bytes → ℕ → FrameHeader
sent_header version frame_type correlation_id payload flags = record {
  magic = magic_number;
  version = version;
  frame_type = frame_type;
  header_bytes = frame_header_bytes;
  payload_bytes = length payload % 2 ^ 32;
  correlation_id = correlation_id;
  flags = flags;
  header_crc32 =
      crc32 (frame_prefix version frame_type correlation_id (length payload % 2 ^ 32) flags);
}

module _ (version frame_type correlation_id : ℕ) (payload : Bytes) (flags : ℕ) where
  pub encode_frame_as-write_header :
      encode_frame_as version frame_type correlation_id payload flags
      ≡ write_header (sent_header version frame_type correlation_id payload flags) ++ payload
  unfolding encode_frame_as frame_prefix
  encode_frame_as-write_header = simp append_assoc

-- The bytes that the CRC covers, of any header.
take-write_header :
    (h : FrameHeader) (payload : Bytes)
    → h.magic ≡ magic_number
    → h.header_bytes ≡ frame_header_bytes
    → take header_crc_offset (write_header h ++ payload)
      ≡ frame_prefix h.version h.frame_type h.correlation_id h.payload_bytes h.flags
unfolding frame_prefix write_u16 write_u32 write_u64
take-write_header h payload m b = cc

-- What a peer sends within the limits: a version that this protocol speaks, no flags.
pub record IsSendable (version frame_type correlation_id : ℕ) (payload : Bytes)
    (max_frame_bytes : ℕ) : Type 0 where
  pub old_enough : minimum_protocol_version ≤ version
  pub new_enough : version ≤ protocol_version
  pub typed : IsU16 frame_type
  pub correlated : IsU64 correlation_id
  pub within : frame_header_bytes + length payload ≤ max_frame_bytes
  pub limit : IsU32 max_frame_bytes

module _ (version frame_type correlation_id : ℕ) (payload : Bytes) (max_frame_bytes : ℕ) where
  abbrev pub header : FrameHeader
  header = sent_header version frame_type correlation_id payload 0

  sent_header-Fits :
      IsSendable version frame_type correlation_id payload max_frame_bytes → FrameHeaderFits header
  sent_header-Fits s =
      omega (
        arith,
        crc32-lt (frame_prefix version frame_type correlation_id (length payload % 2 ^ 32) 0),
      )

  -- The header is accepted whatever stands behind it.
  pub decode_header-sent_header :
      (rest : Bytes)
      → IsSendable version frame_type correlation_id payload max_frame_bytes
      → decode_header (write_header header ++ rest) max_frame_bytes ≡ ok header
  unfolding decode_header check_header
  decode_header-sent_header rest s = ground (
    arith,
    read_header-write_header header rest (sent_header-Fits s),
    take-write_header header rest refl refl,
  )

  -- What follows the header is compared with the size that the header announces.
  pub decode_frame-rest :
      (rest : Bytes)
      → IsSendable version frame_type correlation_id payload max_frame_bytes
      → decode_frame (write_header header ++ rest) max_frame_bytes ≡ (
          if length rest == length payload
          then ok (record { header = header; payload = rest })
          else if ltb (length rest) (length payload)
          then err invalid_length "truncated frame payload"
          else err invalid_length "frame contains trailing bytes")
  unfolding decode_frame take_payload
  decode_frame-rest rest s = ground (
    arith,
    decode_header-sent_header rest s,
    read_header-write_header header rest (sent_header-Fits s),
  )

-- If a frame's version is a supported one, its type fits 16 bits and its correlation id 64 bits, and
-- header and payload together are within the limit, itself below 2^32, then the encoded frame is decoded
-- to the header and the payload that were sent.
pub decode_frame-encode_frame :
    (version frame_type correlation_id : ℕ) (payload : Bytes) (max_frame_bytes : ℕ)
    → IsSendable version frame_type correlation_id payload max_frame_bytes
    → decode_frame (encode_frame_as version frame_type correlation_id payload 0) max_frame_bytes
      ≡ ok (record {
        header = sent_header version frame_type correlation_id payload 0;
        payload = payload;
      })
decode_frame-encode_frame version frame_type correlation_id payload max_frame_bytes s =
    rw (encode_frame_as-write_header version frame_type correlation_id payload 0) (
      decode_frame-rest version frame_type correlation_id payload max_frame_bytes payload s
      ∙ ground arith)

-- What a checked header says.
record IsChecked (bytes : Bytes) (max_frame_bytes : ℕ) (h : FrameHeader) : Type 0 where
  long : frame_header_bytes ≤ length bytes
  there : read_header bytes ≡ h
  magic : h.magic ≡ magic_number
  old_enough : minimum_protocol_version ≤ h.version
  new_enough : h.version ≤ protocol_version
  header_bytes : h.header_bytes ≡ frame_header_bytes
  within : frame_header_bytes + h.payload_bytes ≤ max_frame_bytes
  flags : h.flags ≡ 0
  crc : h.header_crc32 ≡ crc32 (take header_crc_offset bytes)

decode_header-IsChecked :
    (bytes : Bytes) (max_frame_bytes : ℕ) {h : FrameHeader}
    → decode_header bytes max_frame_bytes ≡ ok h
    → IsChecked bytes max_frame_bytes h
unfolding decode_header check_header
decode_header-IsChecked bytes max_frame_bytes e = ground arith

take_payload-ok :
    (bytes : Bytes) (d : Decoded FrameHeader) {f : Frame}
    → take_payload bytes d ≡ ok f
    → (d ≡ ok f.header)
      × (length bytes ≡ frame_header_bytes + f.header.payload_bytes)
      × (f.payload ≡ drop frame_header_bytes bytes)
unfolding take_payload
take_payload-ok bytes (err code message) e = cc
take_payload-ok bytes (ok header) e = ground arith

-- The header that the decoder accepted is the one that `encode_frame` would send.
sent_header-checked :
    (bytes payload : Bytes) (max_frame_bytes : ℕ) (h : FrameHeader)
    → IsChecked bytes max_frame_bytes h
    → FrameHeaderFits h
    → write_header h ++ payload ≡ bytes
    → length payload ≡ h.payload_bytes
    → sent_header h.version h.frame_type h.correlation_id payload 0 ≡ h
sent_header-checked bytes payload max_frame_bytes h c fits whole size =
    let n : length payload % 2 ^ 32 ≡ h.payload_bytes = omega arith in
    let covered = ap (take header_crc_offset) whole in
    let m : magic_number ≡ h.magic = sym c.magic in
    let b : frame_header_bytes ≡ h.header_bytes = sym c.header_bytes in
    let fl : ◌≡◌ {A = ℕ} 0 h.flags = sym c.flags in
    cc (take-write_header h payload c.magic c.header_bytes, covered, n, m, b, fl, c.crc)

-- If bytes are decoded to a frame under a limit below 2^32, then encoding the frame again gives the same
-- bytes, and its version, type, correlation id and size are within their limits.
pub encode_frame-decode_frame :
    (bytes : Bytes) (max_frame_bytes : ℕ) {f : Frame}
    → All IsByte bytes
    → IsU32 max_frame_bytes
    → decode_frame bytes max_frame_bytes ≡ ok f
    → (encode_frame_as f.header.version f.header.frame_type f.header.correlation_id f.payload 0
        ≡ bytes)
      × IsSendable f.header.version f.header.frame_type f.header.correlation_id f.payload
          max_frame_bytes
unfolding decode_frame
encode_frame-decode_frame bytes max_frame_bytes {f} hb hm e =
    let h = f.header in
    let (headed, total, paid) = take_payload-ok bytes (decode_header bytes max_frame_bytes) e in
    let c = decode_header-IsChecked bytes max_frame_bytes headed in
    let (split, there) = write_header-read_header bytes hb c.long in
    let fits : FrameHeaderFits h = subst FrameHeaderFits c.there there in
    let whole : write_header h ++ f.payload ≡ bytes =
      subst (λ k. write_header k ++ f.payload ≡ bytes) c.there (rw paid split) in
    let size : length f.payload ≡ h.payload_bytes =
      omega (arith, ap length paid, length-drop frame_header_bytes bytes) in
    (
      encode_frame_as-write_header h.version h.frame_type h.correlation_id f.payload 0
          ∙ ap (λ k. write_header k ++ f.payload)
              (sent_header-checked bytes f.payload max_frame_bytes h c fits whole size)
          ∙ whole,
      record {
        old_enough = c.old_enough;
        new_enough = c.new_enough;
        typed = fits.2;
        correlated = fits.5;
        within = omega (arith, size, c.within);
        limit = hm;
      },
    )
