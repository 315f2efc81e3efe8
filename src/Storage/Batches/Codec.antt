-- ===== src/Storage/Batches/Codec.antt =====
-- `encode_batch` against `decode_batch` (src/storage/partition_log.cpp).
use bolt_stream.Base.{
  ℕ, ◌+◌, ◌-◌, ◌%◌, ◌^◌, ◌≤◌, ◌<◌, ◌≡◌, ap, ◌∙◌, true, some, List, ◌++◌, arith, length, take, drop,
  Bytes, append_assoc, length-append, take-append,
}
use bolt_stream.Compression.{Zstd, returns, is_supported, decompress}
use bolt_stream.Protocol.Wire.{
  Reader, ◌>>=◌, pure, write_u16, write_u32, write_u64, read_u32_be, read_u16, read_u32, read_u64,
  IsU16, IsU32, IsU64,
}
use bolt_stream.Protocol.Wire.Reads.{
  Reads, step, then_read, read_u16-Reads, read_u32-Reads, read_u64-Reads,
}
use bolt_stream.Protocol.Wire.Positions.{read_u16-drop, read_u32-drop, read_u64-drop}
use bolt_stream.Protocol.Types.{ok}
use bolt_stream.Protocol.Frame.{crc32}
use bolt_stream.Protocol.Frame.Codec.{crc32-lt}
use bolt_stream.Protocol.Batch.{BatchRecord, decode_record_set}
use bolt_stream.Storage.Records.Codec.{read_u32_be-end, length-write_u32}
use bolt_stream.Storage.Batches.{
  DecodedBatch, BatchHead, write_batch_head, batch_head, batch_body, encode_batch, read_batch_head,
  decode_batch,
}

abbrev BatchHeadFits : BatchHead → Type 0
BatchHeadFits h =
    IsU16 h.version
    × IsU16 h.flags
    × IsU16 h.codec
    × IsU16 h.reserved
    × IsU64 h.base_offset
    × IsU64 h.timestamp_unix_ns
    × IsU32 h.record_count
    × IsU32 h.uncompressed_bytes
    × IsU32 h.encoded_bytes

head_fields : Reader BatchHead
head_fields = do
  version ← read_u16
  flags ← read_u16
  codec ← read_u16
  reserved ← read_u16
  base_offset ← read_u64
  timestamp_unix_ns ← read_u64
  record_count ← read_u32
  uncompressed_bytes ← read_u32
  encoded_bytes ← read_u32
  pure (record {
    version = version;
    flags = flags;
    codec = codec;
    reserved = reserved;
    base_offset = base_offset;
    timestamp_unix_ns = timestamp_unix_ns;
    record_count = record_count;
    uncompressed_bytes = uncompressed_bytes;
    encoded_bytes = encoded_bytes;
  })

head_fields-Reads : Reads BatchHeadFits write_batch_head head_fields
unfolding head_fields
head_fields-Reads = record {
  at = λ r rest h. simp append_assoc (
      step read_u16-Reads _ h.0
      ∙ step read_u16-Reads _ h.1
      ∙ step read_u16-Reads _ h.2
      ∙ step read_u16-Reads _ h.3
      ∙ step read_u64-Reads _ h.4
      ∙ step read_u64-Reads _ h.5
      ∙ step read_u32-Reads _ h.6
      ∙ step read_u32-Reads _ h.7
      ∙ step read_u32-Reads _ h.8);
}

head_fields-read_batch_head :
    (bytes : Bytes)
    → 36 ≤ length bytes
    → head_fields bytes ≡ some (read_batch_head bytes, drop 36 bytes)
unfolding head_fields read_batch_head
head_fields-read_batch_head bytes h =
    then_read read_u16 _ (read_u16-drop bytes 0 (omega arith))
    ∙ then_read read_u16 _ (read_u16-drop bytes 2 (omega arith))
    ∙ then_read read_u16 _ (read_u16-drop bytes 4 (omega arith))
    ∙ then_read read_u16 _ (read_u16-drop bytes 6 (omega arith))
    ∙ then_read read_u64 _ (read_u64-drop bytes 8 (omega arith))
    ∙ then_read read_u64 _ (read_u64-drop bytes 16 (omega arith))
    ∙ then_read read_u32 _ (read_u32-drop bytes 24 (omega arith))
    ∙ then_read read_u32 _ (read_u32-drop bytes 28 (omega arith))
    ∙ then_read read_u32 _ (read_u32-drop bytes 32 (omega arith))

length-write_batch_head :
    (h : BatchHead) (rest : Bytes) → length (write_batch_head h ++ rest) ≡ 36 + length rest
unfolding write_u16 write_u32 write_u64
length-write_batch_head h rest = omega arith

read_batch_head-write_batch_head :
    (h : BatchHead) (rest : Bytes)
    → BatchHeadFits h
    → (read_batch_head (write_batch_head h ++ rest) ≡ h)
      × (drop 36 (write_batch_head h ++ rest) ≡ rest)
read_batch_head-write_batch_head h rest fits =
    let taken =
      head_fields-read_batch_head (write_batch_head h ++ rest)
        (omega (arith, length-write_batch_head h rest)) in
    let given = head_fields-Reads.at h rest fits in (cc (taken, given), cc (taken, given))

-- A batch whose content is the compressed encoding of records.
pub record BatchFits (zstd : Zstd)
    (base_offset timestamp_unix_ns codec record_count uncompressed_bytes : ℕ)
    (encoded_records : Bytes) (maximum_uncompressed : ℕ) (raw : Bytes) (records : List BatchRecord)
    : Type 0 where
  pub base_fits : IsU64 base_offset
  pub timestamp_fits : IsU64 timestamp_unix_ns
  pub count_fits : IsU32 record_count
  pub some_records : 0 < record_count
  pub size_fits : IsU32 uncompressed_bytes
  pub some_bytes : 0 < uncompressed_bytes
  pub encoded_fits : length encoded_records + 40 < 2 ^ 32
  pub codec_fits : codec < 2 ^ 8
  pub supported : is_supported codec ≡ true
  pub unpacked :
      decompress zstd codec encoded_records uncompressed_bytes maximum_uncompressed ≡ returns raw
  pub decoded : decode_record_set raw record_count ≡ ok records

module _ (base_offset timestamp_unix_ns codec record_count uncompressed_bytes : ℕ)
    (encoded_records : Bytes) where
  abbrev body : Bytes
  body =
      batch_body base_offset timestamp_unix_ns codec record_count uncompressed_bytes encoded_records

  abbrev head : BatchHead
  head =
      batch_head base_offset timestamp_unix_ns codec record_count uncompressed_bytes encoded_records

  -- What a batch is written as, behind its length word.
  abbrev pub batch_image : Bytes
  batch_image = body ++ write_u32 (crc32 body)

  length-batch_body : length body ≡ 36 + length encoded_records
  unfolding batch_body
  length-batch_body = length-write_batch_head head encoded_records

  pub length-batch_image : length batch_image ≡ 40 + length encoded_records
  length-batch_image = omega (
    arith,
    length-append body (write_u32 (crc32 body)),
    length-write_u32 (crc32 body),
    length-batch_body,
  )

  pub encode_batch_lem :
      length encoded_records + 40 < 2 ^ 32
      → encode_batch base_offset timestamp_unix_ns codec record_count uncompressed_bytes
          encoded_records
        ≡ write_u32 (40 + length encoded_records) ++ batch_image
  unfolding encode_batch
  encode_batch_lem h =
      let n : (length body + 4) % 2 ^ 32 ≡ 40 + length encoded_records =
        omega (arith, length-batch_body) in
      rw n

  -- The batch that stands for these bytes.
  abbrev pub decoded_batch : Bytes → ℕ → List BatchRecord → DecodedBatch
  decoded_batch topic partition records = record {
    metadata = record {
      topic = topic;
      partition = partition;
      base_offset = base_offset;
      next_offset = (base_offset + record_count) % 2 ^ 64;
      timestamp_unix_ns = timestamp_unix_ns;
      record_count = record_count;
      logical_bytes = uncompressed_bytes;
      encoded_bytes = length encoded_records;
      stored_bytes = (40 + length encoded_records + 4) % 2 ^ 32;
      codec = codec;
    };
    records = records;
    batch_bytes = 40 + length encoded_records;
  }

  module _ (zstd : Zstd) (maximum_uncompressed : ℕ) (raw : Bytes) (records : List BatchRecord)
      (f : BatchFits zstd base_offset timestamp_unix_ns codec record_count uncompressed_bytes
        encoded_records maximum_uncompressed raw records) where
    pub image-head :
        (read_batch_head batch_image ≡ head)
        × (drop 36 batch_image ≡ encoded_records ++ write_u32 (crc32 body))
    unfolding batch_body
    image-head =
        let crc : Bytes = write_u32 (crc32 body) in
        let split : batch_image ≡ write_batch_head head ++ (encoded_records ++ crc) =
          append_assoc (write_batch_head head) encoded_records crc in
        let (read, rest) = read_batch_head-write_batch_head head (encoded_records ++ crc) (
          omega (
            arith, f.base_fits, f.timestamp_fits, f.count_fits, f.size_fits, f.encoded_fits,
            f.codec_fits,
          )) in
        (ap read_batch_head split ∙ read, ap (drop 36) split ∙ rest)

    -- A batch that fits is decoded, from what stands behind its length word, to its header's fields, its
    -- sizes, and the records that were encoded.
    pub decode_batch-batch_image :
        (topic : Bytes) (partition : ℕ)
        → decode_batch zstd topic partition
            (40 + length encoded_records)
            batch_image
            maximum_uncompressed
          ≡ returns (decoded_batch topic partition records)
    unfolding decode_batch
    decode_batch-batch_image topic partition =
        let whole : length batch_image ≡ 40 + length encoded_records = length-batch_image in
        let inner : 40 + length encoded_records - 4 ≡ length body =
          omega (arith, length-batch_body) in
        let stored : read_u32_be batch_image (length body) ≡ crc32 body =
          read_u32_be-end body (crc32 body) (crc32-lt body) in
        let covered : take (length body) batch_image ≡ body =
          take-append body (write_u32 (crc32 body)) in
        let e : length encoded_records % 2 ^ 32 ≡ length encoded_records =
          omega (arith, f.encoded_fits) in
        let c : codec % 2 ^ 8 ≡ codec = omega (arith, f.codec_fits) in
        let (read, rest) = image-head in
        rw
          (
            inner,
            stored,
            covered,
            whole,
            read,
            rest,
            e,
            c,
            take-append encoded_records (write_u32 (crc32 body)),
            f.supported,
            f.unpacked,
            f.decoded,
          )
          (ground (arith, f.some_records, f.some_bytes, length-batch_body))
