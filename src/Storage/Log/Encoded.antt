-- ===== src/Storage/Log/Encoded.antt =====
-- `append_encoded_batch` (src/storage/partition_log.cpp): a compressed batch is checked against its
-- records and stored as it came.
pub mod Checked
pub mod InPlace
pub mod Laid
use bolt_stream.Base.{
  ℕ, ◌+◌, ◌-◌, ◌%◌, ◌^◌, ◌==◌, Bool, ◌&&◌, ◌||◌, not, Option, none, some, List, [], ◌++◌, map, ltb,
  if◌then◌else◌, length, take, is_empty, String, Bytes,
}
use bolt_stream.Compression.{Zstd, Outcome, returns, throws, decompress}
use bolt_stream.OrderedMap.{erase}
use bolt_stream.OrderedMap.Numbers.{number_key}
use bolt_stream.OrderedMap.Order.{bytes_eq}
use bolt_stream.Protocol.Batch.{BatchRecord, encode_record_set}
use bolt_stream.Storage.Records.{u32_max}
use bolt_stream.Storage.Batches.{BatchMetadata, encode_batch}
use bolt_stream.Storage.Log.{
  LogOptions, Files, Directory, PartitionLog, append_to, index_bytes, active_segment_base,
  batch_index,
}
use bolt_stream.Storage.Log.Append.{
  AppendRecord, Outside, Cleanup, file_size_or_zero, resize_file, write_at,
}

abbrev pub validation_record : AppendRecord → BatchRecord
validation_record r = record { key = r.key; message = r.value }

-- The checks, up to the first that fails.
abbrev pub same_content : Bytes → Outcome Bytes → Option String
same_content canonical (throws message) = some message
same_content canonical (returns decoded) =
    if bytes_eq decoded canonical then none else some "encoded batch content mismatch"

unfoldable pub refusal : Zstd → LogOptions → ℕ → Bytes → ℕ → List AppendRecord → Option String
refusal zstd options codec encoded_records uncompressed_bytes decoded_records =
    let canonical = encode_record_set (map validation_record decoded_records) in
    if is_empty decoded_records || ltb u32_max (length decoded_records)
    then some "encoded batch record count is invalid"
    else if not (length canonical == uncompressed_bytes)
    then some "encoded batch logical size mismatch"
    else same_content canonical (
        decompress zstd codec encoded_records uncompressed_bytes
          options.max_uncompressed_batch_bytes)

-- A batch in its place: where it goes, and its bytes behind and with the length word.
pub record Placed : Type 0 where
  pub segment_base : ℕ
  pub current_size : ℕ
  pub base_offset : ℕ
  pub encoded : Bytes
  pub body_bytes : ℕ

unfoldable pub place : PartitionLog → ℕ → Bytes → Placed
place log base_offset encoded =
    let current_size = file_size_or_zero (active_segment_base log) log.files.logs in
    let due =
      ltb 0 current_size && ltb log.options.max_segment_bytes (current_size + length encoded) in
    record {
      segment_base = if due then base_offset else active_segment_base log;
      current_size = if due then 0 else current_size;
      base_offset = base_offset;
      encoded = encoded;
      body_bytes = (length encoded - 4) % 2 ^ 32;
    }

-- The handler: a file that was empty, or is in a new segment, is removed. It ignores the error if it
-- cannot be removed or resized.
unfoldable pub restore : Bool → Bool → ℕ → ℕ → Files → Files
restore removes resizes base size files =
    if size == 0
    then if removes then erase base files else files
    else if resizes
    then resize_file base size files
    else files

-- Opening both streams, then the writes. The text is of the exception.
unfoldable pub write_batch : Outside → Placed → Bytes → Directory → Directory × Option String
write_batch outside p entries files =
    let logs = append_to p.segment_base [] files.logs in
    let indexes = append_to p.segment_base [] files.indexes in
    let opened : Directory = record {
      logs = if outside.opens_log then logs else files.logs;
      indexes = if outside.opens_index then indexes else files.indexes;
    } in
    if not (outside.opens_log && outside.opens_index)
    then (opened, some "failed to open encoded batch segment")
    else elim outside.cut_off [
      | some (log_bytes, index_size) ↦ (
        write_at p.segment_base (take log_bytes p.encoded) (take index_size entries) files,
        some "failed to flush encoded batch",
      )
      | none ↦ (
        write_at p.segment_base p.encoded entries files,
        if outside.flush.succeeds then none else some "failed to flush encoded batch",
      )
    ]

abbrev pub batch_metadata : LogOptions → Placed → ℕ → ℕ → ℕ → ℕ → ℕ → BatchMetadata
batch_metadata options p timestamp_unix_ns codec record_count logical_bytes encoded_bytes = record {
  topic = options.topic;
  partition = options.partition_id;
  base_offset = p.base_offset;
  next_offset = (p.base_offset + record_count) % 2 ^ 64;
  timestamp_unix_ns = timestamp_unix_ns;
  record_count = record_count % 2 ^ 32;
  logical_bytes = logical_bytes;
  encoded_bytes = encoded_bytes % 2 ^ 32;
  stored_bytes = length p.encoded % 2 ^ 32;
  codec = codec;
}

abbrev pub stored_batch :
    Cleanup
    → PartitionLog
    → Placed
    → ℕ
    → BatchMetadata
    → Directory × Option String
    → PartitionLog × Outcome BatchMetadata
stored_batch cleanup log p count metadata (files, some message) = (
  record log {
    files = record {
      logs =
          restore (cleanup.removes_log p.segment_base) (cleanup.resizes_log p.segment_base)
            p.segment_base p.current_size files.logs;
      indexes =
          restore (cleanup.removes_index p.segment_base) (cleanup.resizes_index p.segment_base)
            p.segment_base (file_size_or_zero p.segment_base log.files.indexes) files.indexes;
    };
  },
  throws message,
)
stored_batch cleanup log p count metadata (files, none) = (
  record log {
    files = files;
    index =
        log.index
        ++ batch_index count 0 p.base_offset p.current_size p.body_bytes p.segment_base count;
    next_offset = (log.next_offset + count) % 2 ^ 64;
  },
  returns metadata,
)

-- `outside.age_seconds` is not asked: a batch does not roll by age.
unfoldable pub append_encoded_batch :
    Zstd
    → ℕ
    → Bytes
    → ℕ
    → List AppendRecord
    → Outside
    → Cleanup
    → PartitionLog
    → PartitionLog × Outcome BatchMetadata
append_encoded_batch zstd codec encoded_records uncompressed_bytes decoded_records outside cleanup
      log =
    let count = length decoded_records in
    let p = place log log.next_offset (
      encode_batch log.next_offset outside.timestamp_unix_ns codec (count % 2 ^ 32)
        uncompressed_bytes encoded_records) in
    let entries =
      index_bytes
        (batch_index count 0 p.base_offset p.current_size p.body_bytes p.segment_base count) in
    let metadata =
      batch_metadata log.options p outside.timestamp_unix_ns codec count uncompressed_bytes
        (length encoded_records) in
    elim (refusal zstd log.options codec encoded_records uncompressed_bytes decoded_records) [
      | some message ↦ (log, throws message)
      | none ↦ stored_batch cleanup log p count metadata (write_batch outside p entries log.files)
    ]
