-- ===== src/Storage/Batches.antt =====
-- One stored batch (src/storage/partition_log.cpp). The layout is that of a record, with version 2 and
-- a compressed record set in the place of key and value.
pub mod Codec
use bolt_stream.Base.{
  ℕ, ◌+◌, ◌-◌, ◌%◌, ◌^◌, ◌||◌, not, List, [], ◌∷◌, ◌++◌, ltb, ◌==◌, if◌then◌else◌, length, take,
  drop, String, Bytes,
}
use bolt_stream.Compression.{Zstd, Outcome, returns, throws, is_supported, decompress}
use bolt_stream.Protocol.Types.{Decoded, ok, err}
use bolt_stream.Protocol.Wire.{
  written, write_u16, write_u32, write_u64, read_u16_be, read_u32_be, read_u64_be,
}
use bolt_stream.Protocol.Frame.{crc32}
use bolt_stream.Protocol.Batch.{BatchRecord, decode_record_set}

-- `kBatchVersion`, `kFixedBatchBodyBytes`
abbrev pub batch_version : ℕ
batch_version = 2

abbrev pub fixed_batch_body_bytes : ℕ
fixed_batch_body_bytes = 36

pub record BatchMetadata : Type 0 where
  pub topic : Bytes
  pub partition : ℕ
  pub base_offset : ℕ
  pub next_offset : ℕ
  pub timestamp_unix_ns : ℕ
  pub record_count : ℕ
  pub logical_bytes : ℕ
  pub encoded_bytes : ℕ
  pub stored_bytes : ℕ
  pub codec : ℕ

pub record DecodedBatch : Type 0 where
  pub metadata : BatchMetadata
  pub records : List BatchRecord
  pub batch_bytes : ℕ

-- The fields in front of the encoded records. `codec` is the 16-bit word.
pub record BatchHead : Type 0 where
  pub version : ℕ
  pub flags : ℕ
  pub codec : ℕ
  pub reserved : ℕ
  pub base_offset : ℕ
  pub timestamp_unix_ns : ℕ
  pub record_count : ℕ
  pub uncompressed_bytes : ℕ
  pub encoded_bytes : ℕ

abbrev pub write_batch_head : BatchHead → Bytes
write_batch_head h = written (
    write_u16 h.version
    ∷ write_u16 h.flags
    ∷ write_u16 h.codec
    ∷ write_u16 h.reserved
    ∷ write_u64 h.base_offset
    ∷ write_u64 h.timestamp_unix_ns
    ∷ write_u32 h.record_count
    ∷ write_u32 h.uncompressed_bytes
    ∷ write_u32 h.encoded_bytes
    ∷ [])

abbrev pub batch_head : ℕ → ℕ → ℕ → ℕ → ℕ → Bytes → BatchHead
batch_head base_offset timestamp_unix_ns codec record_count uncompressed_bytes encoded_records =
    record {
      version = batch_version;
      flags = 0;
      codec = codec;
      reserved = 0;
      base_offset = base_offset;
      timestamp_unix_ns = timestamp_unix_ns;
      record_count = record_count;
      uncompressed_bytes = uncompressed_bytes;
      encoded_bytes = length encoded_records % 2 ^ 32;
    }

unfoldable pub batch_body : ℕ → ℕ → ℕ → ℕ → ℕ → Bytes → Bytes
batch_body base_offset timestamp_unix_ns codec record_count uncompressed_bytes encoded_records =
    write_batch_head (
      batch_head base_offset timestamp_unix_ns codec record_count uncompressed_bytes
        encoded_records)
    ++ encoded_records

unfoldable pub encode_batch : ℕ → ℕ → ℕ → ℕ → ℕ → Bytes → Bytes
encode_batch base_offset timestamp_unix_ns codec record_count uncompressed_bytes encoded_records =
    let body =
      batch_body base_offset timestamp_unix_ns codec record_count uncompressed_bytes
        encoded_records in
    write_u32 ((length body + 4) % 2 ^ 32) ++ (body ++ write_u32 (crc32 body))

unfoldable pub read_batch_head : Bytes → BatchHead
read_batch_head bytes = record {
  version = read_u16_be bytes 0;
  flags = read_u16_be bytes 2;
  codec = read_u16_be bytes 4;
  reserved = read_u16_be bytes 6;
  base_offset = read_u64_be bytes 8;
  timestamp_unix_ns = read_u64_be bytes 16;
  record_count = read_u32_be bytes 24;
  uncompressed_bytes = read_u32_be bytes 28;
  encoded_bytes = read_u32_be bytes 32;
}

abbrev pub batch_of : Bytes → ℕ → ℕ → BatchHead → List BatchRecord → DecodedBatch
batch_of topic partition batch_bytes h records = record {
  metadata = record {
    topic = topic;
    partition = partition;
    base_offset = h.base_offset;
    next_offset = (h.base_offset + h.record_count) % 2 ^ 64;
    timestamp_unix_ns = h.timestamp_unix_ns;
    record_count = h.record_count;
    logical_bytes = h.uncompressed_bytes;
    encoded_bytes = h.encoded_bytes;
    stored_bytes = (batch_bytes + 4) % 2 ^ 32;
    codec = h.codec % 2 ^ 8;
  };
  records = records;
  batch_bytes = batch_bytes;
}

abbrev pub batch_records :
    Bytes → ℕ → ℕ → BatchHead → Decoded (List BatchRecord) → Outcome DecodedBatch
batch_records topic partition batch_bytes h (ok records) =
    returns (batch_of topic partition batch_bytes h records)
batch_records topic partition batch_bytes h (err code message) = throws message

abbrev pub batch_content : Bytes → ℕ → ℕ → BatchHead → Outcome Bytes → Outcome DecodedBatch
batch_content topic partition batch_bytes h (throws message) = throws message
batch_content topic partition batch_bytes h (returns raw) =
    batch_records topic partition batch_bytes h (decode_record_set raw h.record_count)

-- `static_cast<compression::Codec>` keeps the low byte of the codec word.
unfoldable pub decode_batch : Zstd → Bytes → ℕ → ℕ → Bytes → ℕ → Outcome DecodedBatch
decode_batch zstd topic partition batch_bytes body_and_crc maximum_uncompressed =
    if not (batch_bytes == length body_and_crc) || ltb batch_bytes (fixed_batch_body_bytes + 4)
    then throws "invalid batch length"
    else let body_bytes = batch_bytes - 4 in
      let h = read_batch_head body_and_crc in
      if not (crc32 (take body_bytes body_and_crc) == read_u32_be body_and_crc body_bytes)
      then throws "batch crc mismatch"
      else if not (h.version == batch_version) || (not (h.flags == 0) || not (h.reserved == 0))
      then throws "unsupported batch header"
      else if not (is_supported (h.codec % 2 ^ 8))
          || (h.record_count == 0
              || (h.uncompressed_bytes == 0
                  || not (h.encoded_bytes == body_bytes - fixed_batch_body_bytes)))
      then throws "invalid batch header"
      else batch_content topic partition batch_bytes h (
          decompress zstd (h.codec % 2 ^ 8)
            (take h.encoded_bytes (drop fixed_batch_body_bytes body_and_crc)) h.uncompressed_bytes
            maximum_uncompressed)
