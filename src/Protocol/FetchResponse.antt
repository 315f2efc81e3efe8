-- ===== src/Protocol/FetchResponse.antt =====
-- The fetch response in its two layouts, plain records and one compressed batch
-- (src/protocol/protocol.cpp). The zstd library is a parameter, as in Compression.
pub mod Codec
use bolt_stream.Base.{
  String, ℕ, ◌+◌, ◌*◌, ◌/◌, ◌%◌, ◌^◌, List, [], ◌∷◌, ◌++◌, ◌==◌, if◌then◌else◌, length, Option,
  none, some, Bytes,
}
use bolt_stream.Compression.{Zstd, Outcome, returns, throws, decompress}
use bolt_stream.Protocol.Wire.{
  Reader, ◌>>=◌, pure, written, write_u16, write_u32, write_u64, write_bytes, write_string,
  write_each, read_u16, read_u32, read_u64, read_bytes, read_string, read_each,
}
use bolt_stream.Protocol.Types.{Decoded, ok, err, malformed_payload, invalid_batch}
use bolt_stream.Protocol.Batch.{BatchRecord, decode_record_set}
use bolt_stream.Protocol.Fetch.{FetchRecord, write_fetch_record, read_fetch_record}

pub record FetchResponse : Type 0 where
  pub topic : Bytes
  pub partition : ℕ
  pub from_offset : ℕ
  pub next_offset : ℕ
  pub records : List FetchRecord

-- `kCompressedFetchMarker`, in the place of the record count.
abbrev pub compressed_fetch_marker : ℕ
compressed_fetch_marker = 0x42544348

-- `kDefaultMaxFrameBytes`
abbrev pub default_max_frame_bytes : ℕ
default_max_frame_bytes = 1024 * 1024

-- The fields in front of the records, with the count or the marker last.
pub record FetchHead : Type 0 where
  pub topic : Bytes
  pub partition : ℕ
  pub from_offset : ℕ
  pub next_offset : ℕ
  pub record_count : ℕ

unfoldable pub write_fetch_head : FetchHead → Bytes
write_fetch_head h = written (
    write_string h.topic
    ∷ write_u16 h.partition
    ∷ write_u64 h.from_offset
    ∷ write_u64 h.next_offset
    ∷ write_u32 h.record_count
    ∷ [])

unfoldable pub read_fetch_head : Reader FetchHead
read_fetch_head = do
  topic ← read_string
  partition ← read_u16
  from_offset ← read_u64
  next_offset ← read_u64
  record_count ← read_u32
  pure (record {
    topic = topic;
    partition = partition;
    from_offset = from_offset;
    next_offset = next_offset;
    record_count = record_count;
  })

abbrev pub plain_head : FetchResponse → FetchHead
plain_head r = record {
  topic = r.topic;
  partition = r.partition;
  from_offset = r.from_offset;
  next_offset = r.next_offset;
  record_count = length r.records % 2 ^ 32;
}

unfoldable pub encode_fetch_response : FetchResponse → Bytes
encode_fetch_response r = write_fetch_head (plain_head r) ++ write_each write_fetch_record r.records

-- The fields behind the marker. `codec` is the 16-bit word.
pub record CompressedBatch : Type 0 where
  pub codec : ℕ
  pub timestamp_unix_ns : ℕ
  pub record_count : ℕ
  pub uncompressed_bytes : ℕ
  pub encoded_records : Bytes

unfoldable pub write_compressed_batch : CompressedBatch → Bytes
write_compressed_batch b = written (
    write_u16 b.codec
    ∷ write_u64 b.timestamp_unix_ns
    ∷ write_u32 b.record_count
    ∷ write_u32 b.uncompressed_bytes
    ∷ write_bytes b.encoded_records
    ∷ [])

unfoldable pub read_compressed_batch : Reader CompressedBatch
read_compressed_batch = do
  codec ← read_u16
  timestamp_unix_ns ← read_u64
  record_count ← read_u32
  uncompressed_bytes ← read_u32
  encoded_records ← read_bytes
  pure (record {
    codec = codec;
    timestamp_unix_ns = timestamp_unix_ns;
    record_count = record_count;
    uncompressed_bytes = uncompressed_bytes;
    encoded_records = encoded_records;
  })

abbrev pub compressed_head : Bytes → ℕ → ℕ → ℕ → FetchHead
compressed_head topic partition from_offset next_offset = record {
  topic = topic;
  partition = partition;
  from_offset = from_offset;
  next_offset = next_offset;
  record_count = compressed_fetch_marker;
}

unfoldable pub encode_compressed_fetch_response : Bytes → ℕ → ℕ → ℕ → CompressedBatch → Bytes
encode_compressed_fetch_response topic partition from_offset next_offset batch =
    write_fetch_head (compressed_head topic partition from_offset next_offset)
    ++ write_compressed_batch batch

-- The records from `offset` on, each with the batch's time and its share of the encoded size.
unfoldable pub number_records : ℕ → ℕ → ℕ → List BatchRecord → List FetchRecord
number_records offset timestamp_unix_ns size [] = []
number_records offset timestamp_unix_ns size (r ∷ rs) =
    record {
      offset = offset;
      timestamp_unix_ns = timestamp_unix_ns;
      key = r.key;
      message = r.message;
      encoded_byte_size = size;
    }
    ∷ number_records ((offset + 1) % 2 ^ 64) timestamp_unix_ns size rs

abbrev pub with_records : FetchHead → List FetchRecord → FetchResponse
with_records h records = record {
  topic = h.topic;
  partition = h.partition;
  from_offset = h.from_offset;
  next_offset = h.next_offset;
  records = records;
}

abbrev pub number_batch :
    FetchHead → CompressedBatch → Decoded (List BatchRecord) → Decoded FetchResponse
number_batch h b (err code message) = err code message
number_batch h b (ok records) = ok (
    with_records h (
      number_records h.from_offset b.timestamp_unix_ns
        (length b.encoded_records / b.record_count % 2 ^ 32) records))

abbrev pub open_batch : FetchHead → CompressedBatch → Outcome Bytes → Decoded FetchResponse
open_batch h b (throws message) = err invalid_batch message
open_batch h b (returns raw) = number_batch h b (decode_record_set raw b.record_count)

-- What follows a read that must reach the end of the payload.
abbrev pub at_end {ℓ} :
    {A : Type ℓ} → String → (A → Decoded FetchResponse) → Option (A × Bytes) → Decoded FetchResponse
at_end message next none = err malformed_payload message
at_end message next (some (a, [])) = next a
at_end message next (some (a, b ∷ rest)) = err malformed_payload message

module _ (zstd : Zstd) where
  -- `static_cast<compression::Codec>(codec_value)` keeps the low byte.
  unfoldable pub decode_compressed : FetchHead → CompressedBatch → Decoded FetchResponse
  decode_compressed h b = open_batch h b (
      decompress zstd (b.codec % 2 ^ 8) b.encoded_records b.uncompressed_bytes
        default_max_frame_bytes)

  abbrev pub decode_fetch_body : Option (FetchHead × Bytes) → Decoded FetchResponse
  decode_fetch_body none = err malformed_payload "malformed fetch response payload"
  decode_fetch_body (some (h, rest)) =
      if h.record_count == compressed_fetch_marker
      then at_end "malformed compressed fetch response" (decode_compressed h)
          (read_compressed_batch rest)
      else at_end "malformed fetch response payload" (λ records. ok (with_records h records))
          (read_each read_fetch_record h.record_count rest)

  unfoldable pub decode_fetch_response : Bytes → Decoded FetchResponse
  decode_fetch_response payload = decode_fetch_body (read_fetch_head payload)
