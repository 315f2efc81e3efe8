-- ===== src/Storage/Log/Read.antt =====
-- `read_from` and `read_encoded_batch` (src/storage/partition_log.cpp).
pub mod Positions
pub mod Limits
pub mod Held
pub mod Counted
pub mod Stored
use bolt_stream.Base.{
  ℕ, zero, suc, ◌+◌, ◌/◌, ◌==◌, Bool, ◌&&◌, ◌||◌, not, Option, none, some, List, [], ◌∷◌, ltb, leb,
  if◌then◌else◌, length, take, drop, Bytes,
}
use bolt_stream.Compression.{Zstd, Outcome, returns, throws}
use bolt_stream.OrderedMap.{find}
use bolt_stream.OrderedMap.Numbers.{number_key}
use bolt_stream.Protocol.Wire.{read_u16_be, read_u32_be}
use bolt_stream.Protocol.Batch.{BatchRecord}
use bolt_stream.Storage.Records.{Record}
use bolt_stream.Storage.Batches.{
  BatchMetadata, DecodedBatch, batch_version, fixed_batch_body_bytes, decode_batch,
}
use bolt_stream.Storage.Log.{
  LogOptions, Files, IndexEntry, PartitionLog, Entry, plain, batched, decode_entry,
}

-- The length word and what it announces, at a position of a file.
unfoldable pub read_body : Bytes → Outcome (ℕ × Bytes)
read_body rest =
    let record_bytes = read_u32_be rest 0 in
    let body = drop 4 rest in
    if ltb (length rest) 4
    then throws "failed to read record length"
    else if ltb (length body) record_bytes
    then throws "failed to read record body"
    else returns (record_bytes, take record_bytes body)

abbrev pub read_at : ℕ → Option Bytes → Outcome (ℕ × Bytes)
read_at position none = throws "failed to open segment for read: "
read_at position (some bytes) = read_body (drop position bytes)

unfoldable pub nth : ℕ → List BatchRecord → Option BatchRecord
nth index [] = none
nth zero (r ∷ records) = some r
nth (suc index) (r ∷ records) = nth index records

abbrev pub record_of_batch :
    LogOptions → IndexEntry → BatchMetadata → Option BatchRecord → Outcome Record
record_of_batch options e metadata none = throws "batch index entry is out of range"
record_of_batch options e metadata (some r) = returns (record {
  metadata = record {
    topic = options.topic;
    partition = options.partition_id;
    offset = e.offset;
    timestamp_unix_ns = metadata.timestamp_unix_ns;
    encoded_byte_size = metadata.stored_bytes / metadata.record_count;
  };
  key = r.key;
  value = r.message;
})

abbrev pub record_of : LogOptions → IndexEntry → Entry → Outcome Record
record_of options e (plain r) = returns r.stored
record_of options e (batched b) =
    record_of_batch options e b.metadata (nth e.record_index b.records)

abbrev pub decoded_at : LogOptions → IndexEntry → Outcome Entry → Outcome Record
decoded_at options e (throws message) = throws message
decoded_at options e (returns entry) = record_of options e entry

abbrev pub with_size : ℕ → Outcome Record → Outcome (Record × ℕ)
with_size record_bytes (throws message) = throws message
with_size record_bytes (returns r) = returns (r, record_bytes)

abbrev pub read_decoded :
    Zstd → LogOptions → IndexEntry → Outcome (ℕ × Bytes) → Outcome (Record × ℕ)
read_decoded zstd options e (throws message) = throws message
read_decoded zstd options e (returns (record_bytes, body)) =
    with_size record_bytes (decoded_at options e (decode_entry zstd options record_bytes body))

-- The record of an index entry, and its length word.
unfoldable pub read_record : Zstd → LogOptions → Files → IndexEntry → Outcome (Record × ℕ)
read_record zstd options logs e =
    read_decoded zstd options e (read_at e.file_position (find e.segment logs))

-- The limits, in front of an entry; `max_bytes` of 0 is none.
unfoldable pub is_full : ℕ → ℕ → ℕ → ℕ → ℕ → Bool
is_full max_records max_bytes count emitted_bytes record_bytes =
    leb max_records count
    || (ltb 0 max_bytes && (not (count == 0) && ltb max_bytes (emitted_bytes + record_bytes + 4)))

abbrev pub also : Record → Outcome (List Record) → Outcome (List Record)
also r (throws message) = throws message
also r (returns records) = returns (r ∷ records)

-- The loop, for a way to read the record of an entry.
unfoldable pub read_entries :
    (IndexEntry → Outcome (Record × ℕ))
    → ℕ
    → ℕ
    → ℕ
    → List IndexEntry
    → ℕ
    → ℕ
    → Outcome (List Record)
read_entries read offset max_records max_bytes [] count emitted_bytes = returns []
read_entries read offset max_records max_bytes (e ∷ entries) count emitted_bytes =
    let skipped = read_entries read offset max_records max_bytes entries count emitted_bytes in
    if ltb e.offset offset
    then skipped
    else if is_full max_records max_bytes count emitted_bytes e.record_bytes
    then returns []
    else elim (read e) [
      | throws message ↦ throws message
      | returns (r, record_bytes) ↦ also r (
          read_entries read offset max_records max_bytes entries (count + 1)
            (emitted_bytes + (record_bytes + 4)))
    ]

unfoldable pub read_from : Zstd → PartitionLog → ℕ → ℕ → ℕ → Outcome (List Record)
read_from zstd log offset max_records max_bytes =
    read_entries (read_record zstd log.options log.files.logs) offset max_records max_bytes
      log.index 0 0

pub record EncodedBatch : Type 0 where
  pub metadata : BatchMetadata
  pub encoded_records : Bytes

unfoldable pub find_entry : ℕ → List IndexEntry → Option IndexEntry
find_entry offset [] = none
find_entry offset (e ∷ entries) = if e.offset == offset then some e else find_entry offset entries

abbrev pub encoded_of : Bytes → Outcome DecodedBatch → Outcome (Option EncodedBatch)
encoded_of body (throws message) = throws message
encoded_of body (returns b) = returns (
    some (record {
      metadata = b.metadata;
      encoded_records = take b.metadata.encoded_bytes (drop fixed_batch_body_bytes body);
    }))

-- `rest` is the file from behind the length word on; the entry says how much to read.
abbrev pub encoded_at :
    Zstd → LogOptions → IndexEntry → Option Bytes → Outcome (Option EncodedBatch)
encoded_at zstd options e none = throws "failed to open encoded batch segment"
encoded_at zstd options e (some bytes) =
    let rest = drop (e.file_position + 4) bytes in
    let body = take e.record_bytes rest in
    if ltb (length rest) e.record_bytes || not (read_u16_be body 0 == batch_version)
    then returns none
    else encoded_of body (
        decode_batch zstd options.topic options.partition_id e.record_bytes body
          options.max_uncompressed_batch_bytes)

-- Only the first record of a batch leads to it.
unfoldable pub read_encoded_batch : Zstd → PartitionLog → ℕ → Outcome (Option EncodedBatch)
read_encoded_batch zstd log offset = elim (find_entry offset log.index) [
  | none ↦ returns none
  | some e ↦
      if not (e.record_index == 0)
      then returns none
      else encoded_at zstd log.options e (find e.segment log.files.logs)
]
