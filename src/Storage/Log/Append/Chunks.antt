-- ===== src/Storage/Log/Append/Chunks.antt =====
-- The records that `append_batch` writes are read back by `recover` (src/storage/partition_log.cpp).
use bolt_stream.Base.{
  ℕ, ◌+◌, ◌≡◌, ap, sym, ◌∙◌, ◌||◌, ◌++◌, length, ltb, ltb→le, Bytes, Bool-cases, inl, inr, arith,
}
use bolt_stream.Compression.{Zstd, returns}
use bolt_stream.Protocol.Wire.{write_u32, read_u16_be, IsU64}
use bolt_stream.Storage.Records.{
  u32_max, record_body, encode_record, decode_record, RecordHead, read_record_head,
}
use bolt_stream.Storage.Records.Codec.{
  RecordFits, record_image, decoded_record, length-record_image, length-record_body,
  encode_record_lem, image-head, decode_record-record_image,
}
use bolt_stream.Storage.Log.{LogOptions, plain, as_plain, decode_entry}
use bolt_stream.Storage.Log.Recover.Scan.{Chunk, chunk_bytes, IsChunk}

abbrev pub record_chunk : LogOptions → ℕ → ℕ → Bytes → Bytes → Chunk
record_chunk options offset timestamp_unix_ns key value = record {
  body = record_image offset timestamp_unix_ns key value;
  entry =
      plain (decoded_record options.topic options.partition_id offset timestamp_unix_ns key value);
}

encode_record-RecordFits :
    (offset timestamp_unix_ns : ℕ) (key value encoded : Bytes)
    → IsU64 offset
    → IsU64 timestamp_unix_ns
    → encode_record offset timestamp_unix_ns key value ≡ returns encoded
    → RecordFits offset timestamp_unix_ns key value
unfolding encode_record
encode_record-RecordFits offset timestamp_unix_ns key value encoded h g e =
    elim (Bool-cases (ltb u32_max (length key) || ltb u32_max (length value))) [
      | inl too_long ↦ cc (rw too_long at e)
      | inr short ↦
          elim (Bool-cases
            (ltb u32_max (length (record_body offset timestamp_unix_ns key value) + 4))) [
              | inl too_long ↦ cc (rw (short, too_long) at e)
              | inr fits ↦ record {
                offset_fits = h;
                timestamp_fits = g;
                size = omega (
                  arith,
                  ltb→le u32_max (length (record_body offset timestamp_unix_ns key value) + 4) fits,
                  length-record_body offset timestamp_unix_ns key value,
                );
              }
            ]
    ]

version-record_image :
    (offset timestamp_unix_ns : ℕ) (key value : Bytes)
    → RecordFits offset timestamp_unix_ns key value
    → read_u16_be (record_image offset timestamp_unix_ns key value) 0 ≡ 1
unfolding read_record_head
version-record_image offset timestamp_unix_ns key value f =
    ap (λ h. RecordHead.version h) (image-head offset timestamp_unix_ns key value f).0

pub record_chunk-IsChunk :
    (zstd : Zstd) (options : LogOptions) (offset timestamp_unix_ns : ℕ) (key value : Bytes)
    → RecordFits offset timestamp_unix_ns key value
    → IsChunk zstd options (record_chunk options offset timestamp_unix_ns key value)
unfolding decode_entry
record_chunk-IsChunk zstd options offset timestamp_unix_ns key value f =
    let n = length-record_image offset timestamp_unix_ns key value in
    let image = record_image offset timestamp_unix_ns key value in
    record {
      long = omega (arith, n);
      short = omega (arith, n, f.size);
      decoded = rw (version-record_image offset timestamp_unix_ns key value f) (
          ap (λ k. as_plain (decode_record options.topic options.partition_id k image)) n
          ∙ ap as_plain (
              decode_record-record_image offset timestamp_unix_ns key value options.topic
                options.partition_id f));
    }

-- What `encode_record` gives is such a chunk.
pub encode_record-IsChunk :
    (zstd : Zstd) (options : LogOptions) (offset timestamp_unix_ns : ℕ) (key value encoded : Bytes)
    → IsU64 offset
    → IsU64 timestamp_unix_ns
    → encode_record offset timestamp_unix_ns key value ≡ returns encoded
    → (encoded ≡ chunk_bytes (record_chunk options offset timestamp_unix_ns key value))
      × IsChunk zstd options (record_chunk options offset timestamp_unix_ns key value)
encode_record-IsChunk zstd options offset timestamp_unix_ns key value encoded h g e =
    let f = encode_record-RecordFits offset timestamp_unix_ns key value encoded h g e in
    let n = length-record_image offset timestamp_unix_ns key value in
    let image = record_image offset timestamp_unix_ns key value in
    let same : returns encoded ≡ returns (write_u32 (length image) ++ image) =
      sym e
      ∙ encode_record_lem offset timestamp_unix_ns key value f
      ∙ ap (λ k. returns (write_u32 k ++ image)) (sym n) in
    (cc same, record_chunk-IsChunk zstd options offset timestamp_unix_ns key value f)
