-- ===== src/Storage/Log/Encoded/Laid.antt =====
-- What `append_encoded_batch` makes of a log whose segments hold whole records and batches
-- (src/storage/partition_log.cpp).
use bolt_stream.Base.{
  ℕ, ◌+◌, ◌%◌, ◌^◌, ◌<◌, ◌≤◌, ◌≡◌, refl, ap, subst, sym, ◌∙◌, List, [], ◌∷◌, ◌++◌, map, length, All,
  Bytes, Option-cases, inl, inr, arith,
}
use bolt_stream.Compression.{Zstd, returns}
use bolt_stream.Compression.Laws.{decompress-returns}
use bolt_stream.Protocol.Types.{ok}
use bolt_stream.Protocol.Wire.{write_u32, write_list, IsU64}
use bolt_stream.Protocol.Batch.{BatchRecord, encode_record_set, decode_record_set}
use bolt_stream.Protocol.Batch.Codec.{BatchRecordFits, decode_record_set-encode_record_set}
use bolt_stream.Storage.Batches.{BatchMetadata, encode_batch}
use bolt_stream.Storage.Batches.Codec.{BatchFits, batch_image, length-batch_image, encode_batch_lem}
use bolt_stream.Storage.Log.{LogOptions, PartitionLog}
use bolt_stream.Storage.Log.Recover.{entry_index, entry_next}
use bolt_stream.Storage.Log.Recover.Scan.{Chunk, chunk_bytes, IsChunk}
use bolt_stream.Storage.Log.Append.{AppendRecord, Outside, Cleanup}
use bolt_stream.Storage.Log.Append.Durable.{IsLaid}
use bolt_stream.Storage.Log.Encoded.Checked.{refusal-none, batch_chunk, batch_chunk-IsChunk}
use bolt_stream.Storage.Log.Encoded.{
  validation_record, refusal, place, batch_metadata, append_encoded_batch,
}
use bolt_stream.Storage.Log.Encoded.InPlace.{placed-IsLaid}

four_bytes : (records : List BatchRecord) → 4 ≤ length (encode_record_set records)
unfolding encode_record_set write_list write_u32
four_bytes records = omega arith

length-map-validation_record :
    (records : List AppendRecord) → length (map validation_record records) ≡ length records
length-map-validation_record [] = refl
length-map-validation_record (r ∷ records) = omega (arith, length-map-validation_record records)

encode_batch-chunk_bytes :
    (options : LogOptions) (base_offset timestamp_unix_ns codec count uncompressed_bytes : ℕ)
    (encoded_records : Bytes) (records : List BatchRecord)
    → count < 2 ^ 32
    → length encoded_records + 40 < 2 ^ 32
    → encode_batch base_offset timestamp_unix_ns codec
        (count % 2 ^ 32)
        uncompressed_bytes
        encoded_records
      ≡ chunk_bytes (
          batch_chunk options base_offset timestamp_unix_ns codec count uncompressed_bytes
            encoded_records records)
encode_batch-chunk_bytes options base_offset timestamp_unix_ns codec count uncompressed_bytes
      encoded_records records few h =
    let image =
      batch_image base_offset timestamp_unix_ns codec count uncompressed_bytes encoded_records in
    let same : count % 2 ^ 32 ≡ count = omega arith in
    ap (λ n. encode_batch base_offset timestamp_unix_ns codec n uncompressed_bytes encoded_records)
      same
    ∙ encode_batch_lem base_offset timestamp_unix_ns codec count uncompressed_bytes encoded_records
        h
    ∙ ap (λ n. write_u32 n ++ image)
        (sym (
          length-batch_image base_offset timestamp_unix_ns codec count uncompressed_bytes
            encoded_records))

-- An `append_encoded_batch` that returns, on a log whose segments hold whole records and batches, leaves
-- such a log, whose next offset has grown by the number of the records. The records have values that
-- are not empty, and the sizes and the clock's reading fit their fields.
pub append_encoded_batch-IsLaid :
    (zstd : Zstd) (codec : ℕ) (encoded_records : Bytes) (uncompressed_bytes : ℕ)
    (records : List AppendRecord) (outside : Outside) (cleanup : Cleanup) (log : PartitionLog)
    (metadata : BatchMetadata)
    → IsLaid zstd log
    → IsU64 outside.timestamp_unix_ns
    → codec < 2 ^ 8
    → length encoded_records + 40 < 2 ^ 32
    → uncompressed_bytes < 2 ^ 32
    → All BatchRecordFits (map validation_record records)
    → log.next_offset + length records < 2 ^ 64
    → (append_encoded_batch zstd codec encoded_records uncompressed_bytes records outside cleanup
        log).1
      ≡ returns metadata
    → let log' =
        (append_encoded_batch zstd codec encoded_records uncompressed_bytes records outside cleanup
          log).0 in
      IsLaid zstd log' × (log'.next_offset ≡ log.next_offset + length records)
unfolding append_encoded_batch
append_encoded_batch-IsLaid zstd codec encoded_records uncompressed_bytes records outside cleanup
      log metadata laid clock codec_fits encoded_fits size_fits fits small e =
    elim (Option-cases
      (refusal zstd log.options codec encoded_records uncompressed_bytes records)) [
        | inr (message, refused) ↦ cc (rw (append_encoded_batch, refused) at e)
        | inl accepted ↦
            let count : ℕ = length records in
            let next : ℕ = log.next_offset in
            let canonical : Bytes = encode_record_set (map validation_record records) in
            let (some_there, few, size, unpacked) =
              refusal-none zstd log.options codec encoded_records uncompressed_bytes records
                accepted in
            let (_, _, supported) =
              decompress-returns zstd codec uncompressed_bytes
                log.options.max_uncompressed_batch_bytes encoded_records unpacked in
            let as_many = length-map-validation_record records in
            let decoded =
              subst (λ n. decode_record_set canonical n ≡ ok (map validation_record records))
                as_many
                (decode_record_set-encode_record_set (map validation_record records)
                  (omega (arith, as_many)) fits) in
            let f : BatchFits zstd next outside.timestamp_unix_ns codec count uncompressed_bytes
                encoded_records log.options.max_uncompressed_batch_bytes canonical
                (map validation_record records) =
              record {
                base_fits = omega arith;
                timestamp_fits = clock;
                count_fits = few;
                some_records = some_there;
                size_fits = size_fits;
                some_bytes = omega (arith, size, four_bytes (map validation_record records));
                encoded_fits = encoded_fits;
                codec_fits = codec_fits;
                supported = supported;
                unpacked = unpacked;
                decoded = decoded;
              } in
            let c : Chunk =
              batch_chunk log.options next outside.timestamp_unix_ns codec count uncompressed_bytes
                encoded_records (map validation_record records) in
            let chunk : IsChunk zstd log.options c =
              batch_chunk-IsChunk zstd log.options next outside.timestamp_unix_ns codec count
                uncompressed_bytes encoded_records canonical (map validation_record records) f in
            let encoded : Bytes =
              encode_batch next outside.timestamp_unix_ns codec (count % 2 ^ 32) uncompressed_bytes
                encoded_records in
            let image : encoded ≡ chunk_bytes c =
              encode_batch-chunk_bytes log.options next outside.timestamp_unix_ns codec count
                uncompressed_bytes encoded_records (map validation_record records) few
                encoded_fits in
            let stored : BatchMetadata =
              batch_metadata log.options (place log next encoded) outside.timestamp_unix_ns codec
                count uncompressed_bytes (length encoded_records) in
            rw (append_encoded_batch, accepted)
              (placed-IsLaid zstd cleanup log outside c count encoded stored metadata laid chunk
                image some_there small (λ base position. unfold entry_index in refl)
                (unfold entry_next in omega arith) (rw (append_encoded_batch, accepted) at e))
      ]
