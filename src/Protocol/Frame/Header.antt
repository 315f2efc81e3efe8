-- ===== src/Protocol/Frame/Header.antt =====
-- The header fields at their fixed offsets are the fields that a reader takes in turn, so both
-- directions of the header's encoding follow from the rules for readers and writers.
use bolt_stream.Base.{
  ◌+◌, ◌≤◌, ◌≡◌, sym, ◌∙◌, some, [], ◌∷◌, ◌++◌, arith, length, drop, All, Bytes, append_assoc,
  append-nil,
}
use bolt_stream.Protocol.Wire.{
  Reader, ◌>>=◌, pure, written, write_u16, write_u32, write_u64, read_u16, read_u32, read_u64,
  IsU16, IsU32, IsU64, IsByte,
}
use bolt_stream.Protocol.Wire.Reads.{
  Reads, step, then_read, read_u16-Reads, read_u32-Reads, read_u64-Reads,
}
use bolt_stream.Protocol.Wire.Parses.{
  Parses, Parses-bind, Parses-pure, read_u16-Parses, read_u32-Parses, read_u64-Parses,
}
use bolt_stream.Protocol.Wire.Positions.{read_u16-drop, read_u32-drop, read_u64-drop}
use bolt_stream.Protocol.Frame.{FrameHeader, read_header, frame_header_bytes}

abbrev pub write_header : FrameHeader → Bytes
write_header h = written (
    write_u32 h.magic
    ∷ write_u16 h.version
    ∷ write_u16 h.frame_type
    ∷ write_u32 h.header_bytes
    ∷ write_u32 h.payload_bytes
    ∷ write_u64 h.correlation_id
    ∷ write_u32 h.flags
    ∷ write_u32 h.header_crc32
    ∷ [])

header_fields : Reader FrameHeader
header_fields = do
  magic ← read_u32
  version ← read_u16
  frame_type ← read_u16
  header_bytes ← read_u32
  payload_bytes ← read_u32
  correlation_id ← read_u64
  flags ← read_u32
  header_crc32 ← read_u32
  pure (record {
    magic = magic;
    version = version;
    frame_type = frame_type;
    header_bytes = header_bytes;
    payload_bytes = payload_bytes;
    correlation_id = correlation_id;
    flags = flags;
    header_crc32 = header_crc32;
  })

abbrev pub FrameHeaderFits : FrameHeader → Type 0
FrameHeaderFits h =
    IsU32 h.magic
    × IsU16 h.version
    × IsU16 h.frame_type
    × IsU32 h.header_bytes
    × IsU32 h.payload_bytes
    × IsU64 h.correlation_id
    × IsU32 h.flags
    × IsU32 h.header_crc32

header_fields-Reads : Reads FrameHeaderFits write_header header_fields
unfolding header_fields
header_fields-Reads = record {
  at = λ r rest h. simp append_assoc (
      step read_u32-Reads _ h.0
      ∙ step read_u16-Reads _ h.1
      ∙ step read_u16-Reads _ h.2
      ∙ step read_u32-Reads _ h.3
      ∙ step read_u32-Reads _ h.4
      ∙ step read_u64-Reads _ h.5
      ∙ step read_u32-Reads _ h.6
      ∙ step read_u32-Reads _ h.7);
}

header_fields-Parses : Parses FrameHeaderFits [] header_fields write_header
unfolding header_fields
header_fields-Parses = Parses-bind read_u32-Parses λ magic h0.
    Parses-bind read_u16-Parses λ version h1. Parses-bind read_u16-Parses λ frame_type h2.
      Parses-bind read_u32-Parses λ header_bytes h3. Parses-bind read_u32-Parses λ payload_bytes h4.
        Parses-bind read_u64-Parses λ correlation_id h5. Parses-bind read_u32-Parses λ flags h6.
          Parses-bind read_u32-Parses λ header_crc32 h7.
            Parses-pure _ (simp (append_assoc, append-nil)) (h0, h1, h2, h3, h4, h5, h6, h7)

-- With 32 bytes there, the reads at fixed offsets are the reads in turn.
header_fields-read_header :
    (bytes : Bytes)
    → frame_header_bytes ≤ length bytes
    → header_fields bytes ≡ some (read_header bytes, drop frame_header_bytes bytes)
unfolding header_fields read_header
header_fields-read_header bytes h =
    then_read read_u32 _ (read_u32-drop bytes 0 (omega arith))
    ∙ then_read read_u16 _ (read_u16-drop bytes 4 (omega arith))
    ∙ then_read read_u16 _ (read_u16-drop bytes 6 (omega arith))
    ∙ then_read read_u32 _ (read_u32-drop bytes 8 (omega arith))
    ∙ then_read read_u32 _ (read_u32-drop bytes 12 (omega arith))
    ∙ then_read read_u64 _ (read_u64-drop bytes 16 (omega arith))
    ∙ then_read read_u32 _ (read_u32-drop bytes 24 (omega arith))
    ∙ then_read read_u32 _ (read_u32-drop bytes 28 (omega arith))

pub read_header-write_header :
    (h : FrameHeader) (payload : Bytes)
    → FrameHeaderFits h
    → (read_header (write_header h ++ payload) ≡ h)
      × (drop frame_header_bytes (write_header h ++ payload) ≡ payload)
      × (length (write_header h ++ payload) ≡ frame_header_bytes + length payload)
read_header-write_header h payload fits =
    let long : length (write_header h ++ payload) ≡ frame_header_bytes + length payload =
      (unfold write_u16 write_u32 write_u64 in omega arith) in
    let taken = header_fields-read_header (write_header h ++ payload) (omega (arith, long)) in
    let given = header_fields-Reads.at h payload fits in
    (cc (taken, given), cc (taken, given), long)

pub write_header-read_header :
    (bytes : Bytes)
    → All IsByte bytes
    → frame_header_bytes ≤ length bytes
    → (write_header (read_header bytes) ++ drop frame_header_bytes bytes ≡ bytes)
      × FrameHeaderFits (read_header bytes)
write_header-read_header bytes hb h =
    let (split, fits, _) = header_fields-Parses.at bytes hb (header_fields-read_header bytes h) in
    (sym split, fits)
