-- ===== src/Storage/Log/Append.antt =====
-- `append`, `append_batch` and `append_encoded_batch` (src/storage/partition_log.cpp). What is written
-- stands in the file at once; where a step throws, any part of what the open streams were given stands
-- there. The handler's own listing of the directory is taken to succeed.
pub mod Grown
pub mod Growth
pub mod Chunks
pub mod Durable
pub mod Restore
pub mod Rollback
pub mod Reopening
use bolt_stream.Base.{
  ℕ, zero, suc, ◌+◌, ◌-◌, ◌%◌, ◌^◌, ◌==◌, Bool, true, false, ◌&&◌, ◌||◌, not, Option, none, some,
  List, [], ◌∷◌, ◌++◌, map, ltb, leb, if◌then◌else◌, length, take, is_empty, String, Bytes,
}
use bolt_stream.Compression.{Zstd, Outcome, returns, throws, decompress}
use bolt_stream.OrderedMap.{find, insert, erase}
use bolt_stream.OrderedMap.Numbers.{number_key}
use bolt_stream.OrderedMap.Order.{bytes_eq}
use bolt_stream.Protocol.Batch.{BatchRecord, encode_record_set}
use bolt_stream.Storage.Records.{u32_max, RecordMetadata, encode_record}
use bolt_stream.Storage.Batches.{BatchMetadata, encode_batch}
use bolt_stream.Storage.Log.{
  LogOptions, Files, Directory, IndexEntry, PartitionLog, content, append_to, write_index_entry,
  index_bytes, active_segment_base, batch_index, plain_index,
}

pub record AppendRecord : Type 0 where
  pub key : Bytes
  pub value : Bytes

-- A flush of the two streams, and how many bytes of what was written to each since they were opened
-- stand in its file when the streams are closed without a flush that succeeds.
pub record Flush : Type 0 where
  pub succeeds : Bool
  pub written : ℕ × ℕ

-- What a call asks of the world: the clock, the age of the active file, whether the streams open, what
-- their flush does, and, if a write fails, how much of what was written stands in the files.
pub record Outside : Type 0 where
  pub timestamp_unix_ns : ℕ
  pub age_seconds : ℕ
  pub opens_log : Bool
  pub opens_index : Bool
  pub flush : Flush
  pub cut_off : Option (ℕ × ℕ)

-- Which calls of `remove` and `resize_file` in a handler succeed, by base offset. The handlers ignore the
-- errors of the others, which leave the file as it is.
pub record Cleanup : Type 0 where
  pub removes_log : ℕ → Bool
  pub removes_index : ℕ → Bool
  pub resizes_log : ℕ → Bool
  pub resizes_index : ℕ → Bool

-- The last flush, and the handler.
pub record Ending : Type 0 where
  pub flush : Flush
  pub cleanup : Cleanup

-- `file_size_or_zero`
abbrev pub file_size_or_zero : ℕ → Files → ℕ
file_size_or_zero base files = length (content (find base files))

-- `originals`: by base offset, the sizes of the log and of the index.
abbrev pub Originals : Type 0
Originals = List (ℕ × (ℕ × ℕ))

unfoldable pub originals : Files → Files → Originals
originals [] indexes = []
originals ((base, bytes) ∷ logs) indexes =
    (base, (length bytes, file_size_or_zero base indexes)) ∷ originals logs indexes

-- `std::filesystem::resize_file`: the file is cut, or filled up with zeros.
unfoldable pub zero_bytes : ℕ → Bytes
zero_bytes zero = []
zero_bytes (suc n) = 0 ∷ zero_bytes n

abbrev pub resized : ℕ → Bytes → Bytes
resized n bytes = take n bytes ++ zero_bytes (n - length bytes)

abbrev pub resize_found : ℕ → ℕ → Option Bytes → Files → Files
resize_found base n none files = files
resize_found base n (some bytes) files = insert base (resized n bytes) files

unfoldable pub resize_file : ℕ → ℕ → Files → Files
resize_file base n files = resize_found base n (find base files) files

abbrev pub restore_segment : Cleanup → ℕ → Option (ℕ × ℕ) → Directory → Directory
restore_segment cleanup base none files = record {
  logs = if cleanup.removes_log base then erase base files.logs else files.logs;
  indexes = if cleanup.removes_index base then erase base files.indexes else files.indexes;
}
restore_segment cleanup base (some (log_bytes, index_size)) files = record {
  logs = if cleanup.resizes_log base then resize_file base log_bytes files.logs else files.logs;
  indexes =
      if cleanup.resizes_index base
      then resize_file base index_size files.indexes
      else files.indexes;
}

-- The loop of the handler, over the segments that the directory has after the failure.
unfoldable pub rollback : Cleanup → Originals → Files → Directory → Directory
rollback cleanup originals [] files = files
rollback cleanup originals ((base, bytes) ∷ segments) files =
    rollback cleanup originals segments (restore_segment cleanup base (find base originals) files)

-- The locals of `append_batch`. `is_open` is whether the two streams are open, `opened_base` the segment
-- that they were opened for last, and `opened_log` and `opened_index` the sizes of its files then.
pub record AppendState : Type 0 where
  pub files : Directory
  pub base_offset : ℕ
  pub current_size : ℕ
  pub is_open : Bool
  pub opened_base : ℕ
  pub opened_log : ℕ
  pub opened_index : ℕ
  pub staged : List IndexEntry
  pub metadata : List RecordMetadata

-- A step ends, or throws with the files as they are then.
pub data Attempt : Type 0 where
  done : AppendState → Attempt
  failed : String → Directory → Attempt

abbrev pub and_then : Attempt → (AppendState → Attempt) → Attempt
and_then (done s) next = next s
and_then (failed message files) next = failed message files

abbrev pub cut_found : ℕ → ℕ → Option Bytes → Files → Files
cut_found base n none files = files
cut_found base n (some bytes) files = insert base (take n bytes) files

-- The file has its first `n` bytes.
unfoldable pub cut_file : ℕ → ℕ → Files → Files
cut_file base n files = cut_found base n (find base files) files

-- The files, if the step throws when so much of the open chunk stands in them.
unfoldable pub closed : ℕ × ℕ → AppendState → Directory
closed (log_bytes, index_size) s =
    if s.is_open
    then (record {
      logs = cut_file s.opened_base (s.opened_log + log_bytes) s.files.logs;
      indexes = cut_file s.opened_base (s.opened_index + index_size) s.files.indexes;
    })
    else s.files

unfoldable pub flush_chunk : Flush → AppendState → Attempt
flush_chunk flush s =
    if not s.is_open
    then done s
    else if not flush.succeeds
    then failed "failed to flush append batch for segment " (closed flush.written s)
    else done (record s { is_open = false })

unfoldable pub open_chunk : Outside → AppendState → Attempt
open_chunk outside s =
    let logs = append_to s.base_offset [] s.files.logs in
    let indexes = append_to s.base_offset [] s.files.indexes in
    if s.is_open
    then done s
    else if not outside.opens_log
    then failed "failed to open segment for append: " s.files
    else if not outside.opens_index
    then failed "failed to open index for append: " (record s.files { logs = logs })
    else done (record s {
      files = record { logs = logs; indexes = indexes };
      is_open = true;
      opened_base = s.base_offset;
      opened_log = file_size_or_zero s.base_offset s.files.logs;
      opened_index = file_size_or_zero s.base_offset s.files.indexes;
    })

abbrev pub roll : ℕ → AppendState → AppendState
roll offset s = record s { base_offset = offset; current_size = 0 }

unfoldable pub roll_due : LogOptions → Outside → ℕ → AppendState → Bool
roll_due options outside size s =
    (ltb 0 s.current_size && ltb options.max_segment_bytes (s.current_size + size))
    || (ltb 0 options.segment_max_age_seconds
        && (ltb 0 s.current_size && leb options.segment_max_age_seconds outside.age_seconds))

unfoldable pub write_at : ℕ → Bytes → Bytes → Directory → Directory
write_at base log_bytes index_entry files = record {
  logs = append_to base log_bytes files.logs;
  indexes = append_to base index_entry files.indexes;
}

abbrev pub staged_entry : ℕ → ℕ → AppendState → IndexEntry
staged_entry offset size s = plain_index offset s.current_size ((size - 4) % 2 ^ 32) s.base_offset

abbrev pub entry_bytes : ℕ → ℕ → AppendState → Bytes
entry_bytes offset size s = write_index_entry offset s.current_size ((size - 4) % 2 ^ 32)

unfoldable pub write_record : LogOptions → ℕ → Outside → Bytes → AppendState → Attempt
write_record options offset outside encoded s = elim outside.cut_off [
  | some written ↦ failed "failed to write append batch for segment " (
      closed written (record s {
        files = write_at s.base_offset encoded (entry_bytes offset (length encoded) s) s.files;
      }))
  | none ↦ done (record s {
    files = write_at s.base_offset encoded (entry_bytes offset (length encoded) s) s.files;
    staged = s.staged ++ staged_entry offset (length encoded) s ∷ [];
    metadata =
        s.metadata
        ++ record {
          topic = options.topic;
          partition = options.partition_id;
          offset = offset;
          timestamp_unix_ns = outside.timestamp_unix_ns;
          encoded_byte_size = length encoded % 2 ^ 32;
        }
          ∷ [];
    current_size = s.current_size + length encoded;
  })
]

abbrev pub append_encoded : LogOptions → ℕ → Outside → AppendState → Outcome Bytes → Attempt
append_encoded options offset outside s (throws message) =
    failed message (closed outside.flush.written s)
append_encoded options offset outside s (returns encoded) =
    and_then
      (if roll_due options outside (length encoded) s
        then and_then (flush_chunk outside.flush s) (λ s. done (roll offset s))
        else done s)
      λ s. and_then (open_chunk outside s) (write_record options offset outside encoded)

-- The body of the loop.
unfoldable pub append_one : LogOptions → ℕ → AppendRecord → Outside → AppendState → Attempt
append_one options offset r outside s =
    append_encoded options offset outside s
      (encode_record offset outside.timestamp_unix_ns r.key r.value)

unfoldable pub append_records :
    LogOptions → ℕ → List (AppendRecord × Outside) → AppendState → Attempt
append_records options offset [] s = done s
append_records options offset ((r, outside) ∷ records) s =
    and_then (append_one options (offset % 2 ^ 64) r outside s)
      (append_records options (offset + 1) records)

abbrev pub append_start : PartitionLog → AppendState
append_start log = record {
  files = log.files;
  base_offset = active_segment_base log;
  current_size = file_size_or_zero (active_segment_base log) log.files.logs;
  is_open = false;
  opened_base = active_segment_base log;
  opened_log = file_size_or_zero (active_segment_base log) log.files.logs;
  opened_index = file_size_or_zero (active_segment_base log) log.files.indexes;
  staged = [];
  metadata = [];
}

abbrev pub append_end :
    Cleanup → PartitionLog → ℕ → Attempt → PartitionLog × Outcome (List RecordMetadata)
append_end cleanup log count (failed message files) = (
  record log {
    files = rollback cleanup (originals log.files.logs log.files.indexes) files.logs files;
  },
  throws message,
)
append_end cleanup log count (done s) = (
  record log {
    files = s.files;
    index = log.index ++ s.staged;
    next_offset = (log.next_offset + count) % 2 ^ 64;
  },
  returns s.metadata,
)

-- Every record comes with what the world does at it.
unfoldable pub append_batch :
    List (AppendRecord × Outside)
    → Ending
    → PartitionLog
    → PartitionLog × Outcome (List RecordMetadata)
append_batch records ending log =
    if is_empty records
    then (log, returns [])
    else append_end ending.cleanup log (length records) (
        and_then (append_records log.options log.next_offset records (append_start log))
          (flush_chunk ending.flush))

-- `appended.front()`; `none` does not arise.
abbrev pub front : Outcome (List RecordMetadata) → Outcome (Option RecordMetadata)
front (throws message) = throws message
front (returns []) = returns none
front (returns (m ∷ appended)) = returns (some m)

unfoldable pub append :
    AppendRecord → Outside → Ending → PartitionLog → PartitionLog × Outcome (Option RecordMetadata)
append r outside ending log =
    let (log', appended) = append_batch ((r, outside) ∷ []) ending log in (log', front appended)
