-- ===== src/Protocol/FetchResponse/Codec.antt =====
-- Both layouts of the fetch response against its decoder (src/protocol/protocol.cpp).
use bolt_stream.Base.{
  ℕ, ◌/◌, ◌%◌, ◌^◌, ◌<◌, ◌≤◌, ◌≡◌, ◌≢◌, refl, sym, ap, ◌∙◌, false, List, [], ◌==◌, arith, length,
  some, All, Bytes, append_assoc, append-nil, ◌∷◌, get_elem?, zero, suc, ◌+◌,
}
use bolt_stream.Compression.{Zstd, returns, compress}
use bolt_stream.Compression.Laws.{decompress-compress}
use bolt_stream.Protocol.Wire.{IsU16, IsU32, IsU64, IsSized, write_each, read_each}
use bolt_stream.Protocol.Wire.Reads.{
  Reads, step, read_u16-Reads, read_u32-Reads, read_u64-Reads, bytes_Reads, string_Reads,
  each_Reads,
}
use bolt_stream.Protocol.Types.{ok}
use bolt_stream.Protocol.Batch.{BatchRecord, encode_record_set}
use bolt_stream.Protocol.Batch.Codec.{BatchRecordFits, decode_record_set-encode_record_set}
use bolt_stream.Protocol.Fetch.{write_fetch_record, read_fetch_record}
use bolt_stream.Protocol.Fetch.Codec.{FetchRecordFits, fetch_record_Reads}
use bolt_stream.Protocol.FetchResponse.{
  FetchResponse, compressed_fetch_marker, default_max_frame_bytes, FetchHead, write_fetch_head,
  read_fetch_head, plain_head, encode_fetch_response, CompressedBatch, write_compressed_batch,
  read_compressed_batch, compressed_head, encode_compressed_fetch_response, number_records,
  with_records, decode_compressed, at_end, decode_fetch_response,
}

abbrev pub FetchHeadFits : FetchHead → Type 0
FetchHeadFits h =
    IsSized h.topic
    × IsU16 h.partition
    × IsU64 h.from_offset
    × IsU64 h.next_offset
    × IsU32 h.record_count

fetch_head_Reads : Reads FetchHeadFits write_fetch_head read_fetch_head
unfolding write_fetch_head read_fetch_head
fetch_head_Reads = record {
  at = λ r rest h. simp append_assoc (
      step string_Reads _ h.0
      ∙ step read_u16-Reads _ h.1
      ∙ step read_u64-Reads _ h.2
      ∙ step read_u64-Reads _ h.3
      ∙ step read_u32-Reads _ h.4);
}

abbrev pub CompressedBatchFits : CompressedBatch → Type 0
CompressedBatchFits b =
    IsU16 b.codec
    × IsU64 b.timestamp_unix_ns
    × IsU32 b.record_count
    × IsU32 b.uncompressed_bytes
    × IsSized b.encoded_records

compressed_batch_Reads : Reads CompressedBatchFits write_compressed_batch read_compressed_batch
unfolding write_compressed_batch read_compressed_batch
compressed_batch_Reads = record {
  at = λ r rest h. simp append_assoc (
      step read_u16-Reads _ h.0
      ∙ step read_u64-Reads _ h.1
      ∙ step read_u32-Reads _ h.2
      ∙ step read_u32-Reads _ h.3
      ∙ step bytes_Reads _ h.4);
}

abbrev pub FetchResponseFits : FetchResponse → Type 0
FetchResponseFits r =
    IsSized r.topic
    × IsU16 r.partition
    × IsU64 r.from_offset
    × IsU64 r.next_offset
    × IsU32 (length r.records)
    × All FetchRecordFits r.records

length-number_records :
    (offset timestamp_unix_ns size : ℕ) (records : List BatchRecord)
    → length (number_records offset timestamp_unix_ns size records) ≡ length records
unfolding number_records
length-number_records offset timestamp_unix_ns size [] = refl
length-number_records offset timestamp_unix_ns size (r ∷ records) =
    omega (arith, length-number_records ((offset + 1) % 2 ^ 64) timestamp_unix_ns size records)

number_records-get_elem? :
    (offset timestamp_unix_ns size i : ℕ) (r : BatchRecord) (records : List BatchRecord)
    → offset < 2 ^ 64
    → get_elem? records i ≡ some r
    → (length (number_records offset timestamp_unix_ns size records) ≡ length records)
      × (get_elem? (number_records offset timestamp_unix_ns size records) i
          ≡ some (record {
            offset = (offset + i) % 2 ^ 64;
            timestamp_unix_ns = timestamp_unix_ns;
            key = r.key;
            message = r.message;
            encoded_byte_size = size;
          }))
unfolding number_records get_elem?
number_records-get_elem? offset timestamp_unix_ns size i r [] small e = cc e
number_records-get_elem? offset timestamp_unix_ns size zero r (x ∷ records) small e =
    let here : x ≡ r = cc e in
    let first : (offset + 0) % 2 ^ 64 ≡ offset = omega arith in
    (length-number_records offset timestamp_unix_ns size (x ∷ records), rw (first, here))
number_records-get_elem? offset timestamp_unix_ns size (suc i) r (x ∷ records) small e =
    let (long, found) =
      number_records-get_elem? ((offset + 1) % 2 ^ 64) timestamp_unix_ns size i r records
        (omega arith) e in
    let later : ((offset + 1) % 2 ^ 64 + i) % 2 ^ 64 ≡ (offset + suc i) % 2 ^ 64 = omega arith in
    (
      omega (arith, long),
      found
          ∙ ap
              (λ o. some (record {
                offset = o;
                timestamp_unix_ns = timestamp_unix_ns;
                key = r.key;
                message = r.message;
                encoded_byte_size = size;
              }))
              later,
    )

module _ (zstd : Zstd) where
  -- A fetch response with plain records that fits its fields is decoded to itself, unless the number of
  -- its records is the marker of a compressed batch.
  pub decode_fetch_response-encode_fetch_response :
      (r : FetchResponse)
      → FetchResponseFits r
      → length r.records ≢ compressed_fetch_marker
      → decode_fetch_response zstd (encode_fetch_response r) ≡ ok r
  unfolding decode_fetch_response encode_fetch_response
  decode_fetch_response-encode_fetch_response r h other =
      let n : length r.records % 2 ^ 32 ≡ length r.records = omega (arith, h.4) in
      let head =
        fetch_head_Reads.at (plain_head r) (write_each write_fetch_record r.records)
          (h.0, h.1, h.2, h.3, omega arith) in
      let body = (each_Reads fetch_record_Reads (length r.records)).at r.records [] (refl, h.5) in
      let plain : (length r.records == compressed_fetch_marker) ≡ false = ground (arith, other) in
      rw (head, n, plain)
        (ap
            (λ b.
              at_end "malformed fetch response payload"
                (λ records. ok (with_records (plain_head r) records))
                (read_each read_fetch_record (length r.records) b))
            (sym (append-nil _))
          ∙ rw body)

  -- A compressed batch of records is decoded to a response that has a record for each of these: the one
  -- at place `i` has the key and the message of the record at place `i`, the response's first offset plus
  -- `i` as its offset, the batch's time, and an equal share of the encoded size. The encoding of the
  -- records is within the frame limit, and the announced count and size are right.
  pub decode_fetch_response-compressed :
      (topic : Bytes) (partition from_offset next_offset level : ℕ) (batch : CompressedBatch)
      (records : List BatchRecord) (i : ℕ) (r : BatchRecord)
      → FetchHeadFits (compressed_head topic partition from_offset next_offset)
      → CompressedBatchFits batch
      → batch.codec < 2 ^ 8
      → All BatchRecordFits records
      → batch.record_count ≡ length records
      → batch.uncompressed_bytes ≡ length (encode_record_set records)
      → batch.uncompressed_bytes ≤ default_max_frame_bytes
      → compress zstd batch.codec (encode_record_set records) level ≡ returns batch.encoded_records
      → get_elem? records i ≡ some r
      → (response : FetchResponse) × (decode_fetch_response zstd
            (encode_compressed_fetch_response topic partition from_offset next_offset batch)
          ≡ ok response)
        × (length response.records ≡ length records)
        × (get_elem? response.records i
            ≡ some (record {
              offset = (from_offset + i) % 2 ^ 64;
              timestamp_unix_ns = batch.timestamp_unix_ns;
              key = r.key;
              message = r.message;
              encoded_byte_size = length batch.encoded_records / length records % 2 ^ 32;
            }))
        × (response.topic ≡ topic)
        × (response.partition ≡ partition)
        × (response.from_offset ≡ from_offset)
        × (response.next_offset ≡ next_offset)
  unfolding decode_fetch_response encode_compressed_fetch_response decode_compressed
  decode_fetch_response-compressed topic partition from_offset next_offset level batch records i r
        fits there small each counted size limit packed place =
      let hd : FetchHead = compressed_head topic partition from_offset next_offset in
      let head = fetch_head_Reads.at hd (write_compressed_batch batch) fits in
      let body : read_compressed_batch (write_compressed_batch batch) ≡ some (batch, []) =
        ap read_compressed_batch (sym (append-nil _)) ∙ compressed_batch_Reads.at batch [] there in
      let word : batch.codec % 2 ^ 8 ≡ batch.codec = omega arith in
      let opened =
        decompress-compress zstd batch.codec level default_max_frame_bytes
          (encode_record_set records) batch.encoded_records packed (omega arith) in
      let read = decode_record_set-encode_record_set records (omega (arith, there.2)) each in
      let share : ℕ = length batch.encoded_records / length records % 2 ^ 32 in
      let (long, found) =
        number_records-get_elem? from_offset batch.timestamp_unix_ns share i r records fits.2
          place in
      (
        with_records hd (number_records from_offset batch.timestamp_unix_ns share records),
        rw (head, body, word, size, opened, counted, read),
        long,
        found,
        refl,
        refl,
        refl,
        refl,
      )
