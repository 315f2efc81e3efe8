-- ===== src/Storage/Log/Encoded/Checked.antt =====
-- What `append_encoded_batch` stores (src/storage/partition_log.cpp): the batch it has checked, whose
-- index entries have the batch's offsets.
use bolt_stream.Base.{
  ℕ, zero, suc, ◌+◌, ◌^◌, ◌<◌, ◌≡◌, ◌==◌, refl, ap, subst, ◌∙◌, false, ◌||◌, none, List, [], ◌∷◌,
  ◌++◌, map, ltb, length, is_empty, Bytes, Bool-cases, inl, inr, arith, ==_iff, ltb→le,
}
use bolt_stream.Compression.{Zstd, returns, decompress, Outcome-cases}
use bolt_stream.OrderedMap.Order.{bytes_eq, bytes_IsOrdered}
use bolt_stream.Protocol.Wire.{read_u16_be}
use bolt_stream.Protocol.Batch.{BatchRecord, encode_record_set}
use bolt_stream.Storage.Records.{u32_max}
use bolt_stream.Storage.Batches.{BatchHead, decode_batch, read_batch_head}
use bolt_stream.Storage.Batches.Codec.{
  BatchFits, decoded_batch, batch_image, length-batch_image, image-head, decode_batch-batch_image,
}
use bolt_stream.Storage.Log.{
  LogOptions, IndexEntry, batched, as_batched, decode_entry, batch_index, last_segment,
}
use bolt_stream.Storage.Log.Recover.Scan.{Chunk, IsChunk}
use bolt_stream.Storage.Log.Layout.Recovery.{first_offset, Rising}
use bolt_stream.Storage.Log.Append.{AppendRecord}
use bolt_stream.Storage.Log.Encoded.{validation_record, refusal}

pub batch_index-Rising :
    (left index base_offset position record_bytes segment count : ℕ)
    → base_offset + index + left < 2 ^ 64
    → Rising
        (base_offset + index + left)
        (batch_index left index base_offset position record_bytes segment count)
      × (first_offset
            (base_offset + index + left)
            (batch_index left index base_offset position record_bytes segment count)
          ≡ base_offset + index)
unfolding batch_index
batch_index-Rising zero index base_offset position record_bytes segment count h = (tt, omega arith)
batch_index-Rising (suc left) index base_offset position record_bytes segment count h =
    let e : base_offset + (index + 1) + left ≡ base_offset + index + suc left = omega arith in
    let entries = batch_index left (index + 1) base_offset position record_bytes segment count in
    let (rising, first) =
      batch_index-Rising left (index + 1) base_offset position record_bytes segment count
        (omega arith) in
    let rising' = subst (λ n. Rising n entries) e rising in
    let first' : first_offset (base_offset + index + suc left) entries ≡ base_offset + (index + 1) =
      subst (λ n. first_offset n entries ≡ base_offset + (index + 1)) e first in
    ((omega (arith, first'), rising'), omega arith)

pub last_segment-batch :
    (left index base_offset position record_bytes segment count otherwise : ℕ)
    (entries : List IndexEntry)
    → 0 < left
    → last_segment otherwise
        (entries ++ batch_index left index base_offset position record_bytes segment count)
      ≡ segment
unfolding last_segment batch_index
last_segment-batch left index base_offset position record_bytes segment count otherwise
      (e ∷ entries) h =
    last_segment-batch left index base_offset position record_bytes segment count e.segment entries
      h
last_segment-batch zero index base_offset position record_bytes segment count otherwise [] h =
    absurd (omega arith)
last_segment-batch (suc zero) index base_offset position record_bytes segment count otherwise [] h =
    refl
last_segment-batch (suc (suc left)) index base_offset position record_bytes segment count otherwise
      [] h =
    last_segment-batch (suc left) (index + 1) base_offset position record_bytes segment count
      segment [] (omega arith)

counted :
    (records : List AppendRecord)
    → (is_empty records || ltb u32_max (length records)) ≡ false
    → (0 < length records) × (length records < 2 ^ 32)
counted [] h = cc h
counted (r ∷ records) h = (omega arith, omega (arith, ltb→le u32_max (length (r ∷ records)) h))

-- What a batch without a refusal is known to be.
pub refusal-none :
    (zstd : Zstd) (options : LogOptions) (codec : ℕ) (encoded_records : Bytes)
    (uncompressed_bytes : ℕ) (records : List AppendRecord)
    → refusal zstd options codec encoded_records uncompressed_bytes records ≡ none
    → let canonical = encode_record_set (map validation_record records) in
      (0 < length records)
      × (length records < 2 ^ 32)
      × (length canonical ≡ uncompressed_bytes)
      × (decompress zstd codec encoded_records uncompressed_bytes
            options.max_uncompressed_batch_bytes
          ≡ returns canonical)
unfolding refusal
refusal-none zstd options codec encoded_records uncompressed_bytes records e =
    let canonical = encode_record_set (map validation_record records) in
    let unpacked =
      decompress zstd codec encoded_records uncompressed_bytes
        options.max_uncompressed_batch_bytes in
    elim (Bool-cases (is_empty records || ltb u32_max (length records))) [
      | inl bad ↦ cc (rw bad at e)
      | inr good ↦ elim (Bool-cases (length canonical == uncompressed_bytes)) [
        | inr differs ↦ cc (rw (good, differs) at e)
        | inl same ↦ elim (Outcome-cases unpacked) [
          | inl (message, threw) ↦ cc (rw (good, same, threw) at e)
          | inr (decoded, returned) ↦ elim (Bool-cases (bytes_eq decoded canonical)) [
            | inr differs ↦ cc (rw (good, same, returned, differs) at e)
            | inl equal ↦
                let (some_there, few) = counted records good in
                (
                  some_there,
                  few,
                  (==_iff (length canonical) uncompressed_bytes).0 same,
                  returned ∙ ap returns ((bytes_IsOrdered.eq_iff decoded canonical).0 equal),
                )
          ]
        ]
      ]
    ]

abbrev pub batch_chunk : LogOptions → ℕ → ℕ → ℕ → ℕ → ℕ → Bytes → List BatchRecord → Chunk
batch_chunk options base_offset timestamp_unix_ns codec count uncompressed_bytes encoded_records
      records =
    record {
      body =
          batch_image base_offset timestamp_unix_ns codec count uncompressed_bytes encoded_records;
      entry = batched (
          decoded_batch base_offset timestamp_unix_ns codec count uncompressed_bytes encoded_records
            options.topic options.partition_id records);
    }

module _ (zstd : Zstd) (options : LogOptions)
    (base_offset timestamp_unix_ns codec count uncompressed_bytes : ℕ) (encoded_records raw : Bytes)
    (records : List BatchRecord)
    (f : BatchFits zstd base_offset timestamp_unix_ns codec count uncompressed_bytes encoded_records
      options.max_uncompressed_batch_bytes raw records) where
  version-batch_image :
      read_u16_be
        (batch_image base_offset timestamp_unix_ns codec count uncompressed_bytes encoded_records)
        0
      ≡ 2
  unfolding read_batch_head
  version-batch_image =
      ap (λ h. BatchHead.version h)
        (image-head base_offset timestamp_unix_ns codec count uncompressed_bytes encoded_records
          zstd options.max_uncompressed_batch_bytes raw records f).0

  pub batch_chunk-IsChunk : IsChunk zstd options (
      batch_chunk options base_offset timestamp_unix_ns codec count uncompressed_bytes
        encoded_records records)
  unfolding decode_entry
  batch_chunk-IsChunk =
      let n =
        length-batch_image base_offset timestamp_unix_ns codec count uncompressed_bytes
          encoded_records in
      let image =
        batch_image base_offset timestamp_unix_ns codec count uncompressed_bytes encoded_records in
      let maximum = options.max_uncompressed_batch_bytes in
      record {
        long = omega (arith, n);
        short = omega (arith, n, f.encoded_fits);
        decoded = rw version-batch_image (
            ap
              (λ k.
                as_batched (decode_batch zstd options.topic options.partition_id k image maximum))
              n
            ∙ ap as_batched (
                decode_batch-batch_image base_offset timestamp_unix_ns codec count
                  uncompressed_bytes encoded_records zstd maximum raw records f options.topic
                  options.partition_id));
      }
