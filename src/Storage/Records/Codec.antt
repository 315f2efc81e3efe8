-- ===== src/Storage/Records/Codec.antt =====
-- `encode_record` against `decode_record` (src/storage/partition_log.cpp).
use bolt_stream.Base.{
  ℕ, ◌+◌, ◌-◌, ◌%◌, ◌^◌, ◌≤◌, ◌<◌, ◌≡◌, refl, ap, ◌∙◌, some, ◌++◌, arith, length, take, drop, Bytes,
  append_assoc, length-append, take-append, drop-append,
}
use bolt_stream.Compression.{returns}
use bolt_stream.Protocol.Wire.{
  Reader, ◌>>=◌, pure, write_u16, write_u32, write_u64, read_u32_be, read_u16, read_u32, read_u64,
  IsU16, IsU32, IsU64,
}
use bolt_stream.Protocol.Wire.Reads.{
  Reads, step, then_read, read_u16-Reads, read_u32-Reads, read_u64-Reads,
}
use bolt_stream.Protocol.Wire.Positions.{read_u16-drop, read_u32-drop, read_u64-drop}
use bolt_stream.Protocol.Frame.{crc32}
use bolt_stream.Protocol.Frame.Codec.{crc32-lt}
use bolt_stream.Storage.Records.{
  RecordHead, write_record_head, record_head, record_body, encode_record, read_record_head,
  decode_record, DecodedRecord, minimum_record_bytes,
}

abbrev RecordHeadFits : RecordHead → Type 0
RecordHeadFits h =
    IsU16 h.version
    × IsU16 h.flags
    × IsU64 h.offset
    × IsU64 h.timestamp_unix_ns
    × IsU32 h.key_bytes
    × IsU32 h.value_bytes
    × IsU32 h.headers

head_fields : Reader RecordHead
head_fields = do
  version ← read_u16
  flags ← read_u16
  offset ← read_u64
  timestamp_unix_ns ← read_u64
  key_bytes ← read_u32
  value_bytes ← read_u32
  headers ← read_u32
  pure (record {
    version = version;
    flags = flags;
    offset = offset;
    timestamp_unix_ns = timestamp_unix_ns;
    key_bytes = key_bytes;
    value_bytes = value_bytes;
    headers = headers;
  })

head_fields-Reads : Reads RecordHeadFits write_record_head head_fields
unfolding head_fields
head_fields-Reads = record {
  at = λ r rest h. simp append_assoc (
      step read_u16-Reads _ h.0
      ∙ step read_u16-Reads _ h.1
      ∙ step read_u64-Reads _ h.2
      ∙ step read_u64-Reads _ h.3
      ∙ step read_u32-Reads _ h.4
      ∙ step read_u32-Reads _ h.5
      ∙ step read_u32-Reads _ h.6);
}

head_fields-read_record_head :
    (bytes : Bytes)
    → 32 ≤ length bytes
    → head_fields bytes ≡ some (read_record_head bytes, drop 32 bytes)
unfolding head_fields read_record_head
head_fields-read_record_head bytes h =
    then_read read_u16 _ (read_u16-drop bytes 0 (omega arith))
    ∙ then_read read_u16 _ (read_u16-drop bytes 2 (omega arith))
    ∙ then_read read_u64 _ (read_u64-drop bytes 4 (omega arith))
    ∙ then_read read_u64 _ (read_u64-drop bytes 12 (omega arith))
    ∙ then_read read_u32 _ (read_u32-drop bytes 20 (omega arith))
    ∙ then_read read_u32 _ (read_u32-drop bytes 24 (omega arith))
    ∙ then_read read_u32 _ (read_u32-drop bytes 28 (omega arith))

length-write_record_head :
    (h : RecordHead) (rest : Bytes) → length (write_record_head h ++ rest) ≡ 32 + length rest
unfolding write_u16 write_u32 write_u64
length-write_record_head h rest = omega arith

read_record_head-write_record_head :
    (h : RecordHead) (rest : Bytes)
    → RecordHeadFits h
    → (read_record_head (write_record_head h ++ rest) ≡ h)
      × (drop 32 (write_record_head h ++ rest) ≡ rest)
read_record_head-write_record_head h rest fits =
    let taken =
      head_fields-read_record_head (write_record_head h ++ rest)
        (omega (arith, length-write_record_head h rest)) in
    let given = head_fields-Reads.at h rest fits in (cc (taken, given), cc (taken, given))

-- A word at the end is read back at its position.
pub read_u32_be-end :
    (body : Bytes) (v : ℕ) → IsU32 v → read_u32_be (body ++ write_u32 v) (length body) ≡ v
unfolding read_u32_be write_u32
read_u32_be-end body v h = rw (drop-append body (write_u32 v)) (unfold write_u32 in ground arith)

pub length-write_u32 : (v : ℕ) → length (write_u32 v) ≡ 4
unfolding write_u32
length-write_u32 v = refl

-- The body of a record that `encode_record` accepts.
pub record RecordFits (offset timestamp_unix_ns : ℕ) (key value : Bytes) : Type 0 where
  pub offset_fits : IsU64 offset
  pub timestamp_fits : IsU64 timestamp_unix_ns
  pub size : length key + length value + minimum_record_bytes < 2 ^ 32

-- What a record is written as, behind its length word.
abbrev pub record_image : ℕ → ℕ → Bytes → Bytes → Bytes
record_image offset timestamp_unix_ns key value =
    let body = record_body offset timestamp_unix_ns key value in body ++ write_u32 (crc32 body)

abbrev pub decoded_record : Bytes → ℕ → ℕ → ℕ → Bytes → Bytes → DecodedRecord
decoded_record topic partition offset timestamp_unix_ns key value = record {
  stored = record {
    metadata = record {
      topic = topic;
      partition = partition;
      offset = offset;
      timestamp_unix_ns = timestamp_unix_ns;
      encoded_byte_size = (minimum_record_bytes + length key + length value + 4) % 2 ^ 32;
    };
    key = key;
    value = value;
  };
  record_bytes = minimum_record_bytes + length key + length value;
}

module _ (offset timestamp_unix_ns : ℕ) (key value : Bytes) where
  pub length-record_body :
      length (record_body offset timestamp_unix_ns key value) ≡ 32 + length key + length value
  unfolding record_body
  length-record_body = omega (
    arith,
    length-write_record_head (record_head offset timestamp_unix_ns key value) (key ++ value),
    length-append key value,
  )

  pub length-record_image :
      length (record_image offset timestamp_unix_ns key value)
      ≡ minimum_record_bytes + length key + length value
  length-record_image =
      let body = record_body offset timestamp_unix_ns key value in
      omega (
        arith,
        length-append body (write_u32 (crc32 body)),
        length-write_u32 (crc32 body),
        length-record_body,
      )

  pub encode_record_lem :
      RecordFits offset timestamp_unix_ns key value
      → encode_record offset timestamp_unix_ns key value
        ≡ returns (
            write_u32 (minimum_record_bytes + length key + length value)
            ++ record_image offset timestamp_unix_ns key value)
  unfolding encode_record
  encode_record_lem f = ground (arith, f.size, length-record_body)

  pub image-head :
      RecordFits offset timestamp_unix_ns key value
      → (read_record_head (record_image offset timestamp_unix_ns key value)
          ≡ record_head offset timestamp_unix_ns key value)
        × (drop 32 (record_image offset timestamp_unix_ns key value)
            ≡ key ++ (value ++ write_u32 (crc32 (record_body offset timestamp_unix_ns key value))))
  unfolding record_body
  image-head f =
      let crc : Bytes = write_u32 (crc32 (record_body offset timestamp_unix_ns key value)) in
      let h : RecordHead = record_head offset timestamp_unix_ns key value in
      let split : record_image offset timestamp_unix_ns key value
          ≡ write_record_head h ++ (key ++ (value ++ crc)) =
        append_assoc (write_record_head h) (key ++ value) crc
        ∙ ap (λ l. write_record_head h ++ l) (append_assoc key value crc) in
      let (head, rest) =
        read_record_head-write_record_head h (key ++ (value ++ crc))
          (omega (arith, f.size, f.offset_fits, f.timestamp_fits)) in
      (ap read_record_head split ∙ head, ap (drop 32) split ∙ rest)

  -- A record that fits is decoded from what stands behind its length word.
  pub decode_record-record_image :
      (topic : Bytes) (partition : ℕ)
      → RecordFits offset timestamp_unix_ns key value
      → decode_record topic partition
          (minimum_record_bytes + length key + length value)
          (record_image offset timestamp_unix_ns key value)
        ≡ returns (decoded_record topic partition offset timestamp_unix_ns key value)
  unfolding decode_record
  decode_record-record_image topic partition f =
      let body : Bytes = record_body offset timestamp_unix_ns key value in
      let image : Bytes = record_image offset timestamp_unix_ns key value in
      let n : ℕ = minimum_record_bytes + length key + length value in
      let whole : length image ≡ n = length-record_image in
      let inner : n - 4 ≡ length body = omega (arith, length-record_body) in
      let stored : read_u32_be image (length body) ≡ crc32 body =
        read_u32_be-end body (crc32 body) (crc32-lt body) in
      let covered : take (length body) image ≡ body = take-append body (write_u32 (crc32 body)) in
      let k : length key % 2 ^ 32 ≡ length key = omega (arith, f.size) in
      let v : length value % 2 ^ 32 ≡ length value = omega (arith, f.size) in
      let (head, payload) = image-head f in
      rw
        (
          inner,
          stored,
          covered,
          whole,
          head,
          payload,
          k,
          v,
          take-append key (value ++ write_u32 (crc32 body)),
          drop-append key (value ++ write_u32 (crc32 body)),
          take-append value (write_u32 (crc32 body)),
        )
        (ground arith)
