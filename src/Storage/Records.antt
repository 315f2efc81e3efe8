-- ===== src/Storage/Records.antt =====
-- One stored record (src/storage/partition_log.cpp). An exception is a thrown text. `encode_record` gives
-- the length word, the body and the CRC; `decode_record` takes what stands behind the length word.
pub mod Codec
use bolt_stream.Base.{
  ℕ, ◌+◌, ◌-◌, ◌%◌, ◌^◌, ◌||◌, not, [], ◌∷◌, ◌++◌, ltb, ◌==◌, if◌then◌else◌, length, take, drop,
  Bytes,
}
use bolt_stream.Compression.{Outcome, returns, throws}
use bolt_stream.Protocol.Wire.{
  written, write_u16, write_u32, write_u64, read_u16_be, read_u32_be, read_u64_be,
}
use bolt_stream.Protocol.Frame.{crc32}

-- `kRecordVersion`, `kRecordFlags`, `kHeaderCount`, `kFixedRecordBodyBytes`, `kMinimumRecordBytes`
abbrev pub record_version : ℕ
record_version = 1

abbrev pub record_flags : ℕ
record_flags = 0

abbrev pub header_count : ℕ
header_count = 0

abbrev pub fixed_record_body_bytes : ℕ
fixed_record_body_bytes = 32

abbrev pub minimum_record_bytes : ℕ
minimum_record_bytes = 36

abbrev pub u32_max : ℕ
u32_max = 2 ^ 32 - 1

pub record RecordMetadata : Type 0 where
  pub topic : Bytes
  pub partition : ℕ
  pub offset : ℕ
  pub timestamp_unix_ns : ℕ
  pub encoded_byte_size : ℕ

pub record Record : Type 0 where
  pub metadata : RecordMetadata
  pub key : Bytes
  pub value : Bytes

pub record DecodedRecord : Type 0 where
  pub stored : Record
  pub record_bytes : ℕ

-- The fields in front of the key.
pub record RecordHead : Type 0 where
  pub version : ℕ
  pub flags : ℕ
  pub offset : ℕ
  pub timestamp_unix_ns : ℕ
  pub key_bytes : ℕ
  pub value_bytes : ℕ
  pub headers : ℕ

abbrev pub write_record_head : RecordHead → Bytes
write_record_head h = written (
    write_u16 h.version
    ∷ write_u16 h.flags
    ∷ write_u64 h.offset
    ∷ write_u64 h.timestamp_unix_ns
    ∷ write_u32 h.key_bytes
    ∷ write_u32 h.value_bytes
    ∷ write_u32 h.headers
    ∷ [])

abbrev pub record_head : ℕ → ℕ → Bytes → Bytes → RecordHead
record_head offset timestamp_unix_ns key value = record {
  version = record_version;
  flags = record_flags;
  offset = offset;
  timestamp_unix_ns = timestamp_unix_ns;
  key_bytes = length key % 2 ^ 32;
  value_bytes = length value % 2 ^ 32;
  headers = header_count;
}

unfoldable pub record_body : ℕ → ℕ → Bytes → Bytes → Bytes
record_body offset timestamp_unix_ns key value =
    write_record_head (record_head offset timestamp_unix_ns key value) ++ (key ++ value)

unfoldable pub encode_record : ℕ → ℕ → Bytes → Bytes → Outcome Bytes
encode_record offset timestamp_unix_ns key value =
    if ltb u32_max (length key) || ltb u32_max (length value)
    then throws "record key/value exceed format limits"
    else let body = record_body offset timestamp_unix_ns key value in
      let record_bytes = length body + 4 in
      if ltb u32_max record_bytes
      then throws "record exceeds format limits"
      else returns (write_u32 record_bytes ++ (body ++ write_u32 (crc32 body)))

unfoldable pub read_record_head : Bytes → RecordHead
read_record_head bytes = record {
  version = read_u16_be bytes 0;
  flags = read_u16_be bytes 2;
  offset = read_u64_be bytes 4;
  timestamp_unix_ns = read_u64_be bytes 12;
  key_bytes = read_u32_be bytes 20;
  value_bytes = read_u32_be bytes 24;
  headers = read_u32_be bytes 28;
}

unfoldable pub decode_record : Bytes → ℕ → ℕ → Bytes → Outcome DecodedRecord
decode_record topic partition record_bytes body_and_crc =
    if not (record_bytes == length body_and_crc) || ltb record_bytes minimum_record_bytes
    then throws "invalid record length"
    else let body_bytes = record_bytes - 4 in
      let h = read_record_head body_and_crc in
      let payload = drop fixed_record_body_bytes body_and_crc in
      if not (read_u32_be body_and_crc body_bytes == crc32 (take body_bytes body_and_crc))
      then throws "record crc mismatch"
      else if not (h.version == record_version)
          || (not (h.flags == record_flags) || not (h.headers == header_count))
      then throws "unsupported record header"
      else if not (fixed_record_body_bytes + h.key_bytes + h.value_bytes == body_bytes)
      then throws "record payload length mismatch"
      else returns (record {
        stored = record {
          metadata = record {
            topic = topic;
            partition = partition;
            offset = h.offset;
            timestamp_unix_ns = h.timestamp_unix_ns;
            encoded_byte_size = (record_bytes + 4) % 2 ^ 32;
          };
          key = take h.key_bytes payload;
          value = take h.value_bytes (drop h.key_bytes payload);
        };
        record_bytes = record_bytes;
      })
