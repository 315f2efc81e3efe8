-- ===== src/Storage/Log/Recover.antt =====
-- `recover` and `open` (src/storage/partition_log.cpp). Listing a directory, reading an open file
-- and writing an open index is taken to succeed; the files after an exception are not modelled.
pub mod Scan
pub mod Total
use bolt_stream.Base.{
  ℕ, zero, suc, ◌+◌, ◌-◌, ◌%◌, ◌^◌, max, Bool, true, false, ◌&&◌, ◌||◌, not, Option, none, some,
  List, [], ◌∷◌, ◌++◌, ltb, leb, ◌==◌, if◌then◌else◌, length, take, drop, is_empty, Bytes,
}
use bolt_stream.Compression.{Zstd, Outcome, returns, throws}
use bolt_stream.OrderedMap.{insert, erase}
use bolt_stream.OrderedMap.Numbers.{number_key}
use bolt_stream.Protocol.Wire.{read_u32_be}
use bolt_stream.Storage.Names.{is_valid_topic_name}
use bolt_stream.Storage.Records.{minimum_record_bytes}
use bolt_stream.Storage.Log.{
  LogOptions, Files, Directory, IndexEntry, RecoveryStats, PartitionLog, append_to, index_bytes,
  active_segment_base, Entry, plain, batched, decode_entry, batch_index, plain_index,
}

-- What the file system does for a partition: whether its directory is created, and by base offset
-- whether a segment opens, its index opens to be rebuilt, a file is truncated, and files are removed,
-- and whether the two files of the active segment open.
pub record Disk : Type 0 where
  pub creates_directory : Bool
  pub reads_log : ℕ → Bool
  pub rebuilds_index : ℕ → Bool
  pub truncates : ℕ → Bool
  pub removes_log : ℕ → Bool
  pub removes_index : ℕ → Bool
  pub opens_active_log : Bool
  pub opens_active_index : Bool

abbrev pub no_fault : Disk
no_fault = record {
  creates_directory = true;
  reads_log = λ base. true;
  rebuilds_index = λ base. true;
  truncates = λ base. true;
  removes_log = λ base. true;
  removes_index = λ base. true;
  opens_active_log = true;
  opens_active_index = true;
}

-- A step that returns something is followed by the next one.
abbrev pub and_some {ℓ} :
    {A B : Type ℓ} → Outcome (Option A) → (A → Outcome (Option B)) → Outcome (Option B)
and_some (throws message) next = throws message
and_some (returns none) next = returns none
and_some (returns (some a)) next = next a

-- What the loop over a segment has collected.
pub record Found : Type 0 where
  pub index : List IndexEntry
  pub index_file : Bytes
  pub next_offset : ℕ
  pub records_recovered : ℕ

unfoldable pub entry_index : ℕ → ℕ → ℕ → Entry → List IndexEntry
entry_index segment position record_bytes (plain r) =
    plain_index r.stored.metadata.offset position record_bytes segment ∷ []
entry_index segment position record_bytes (batched b) =
    batch_index b.metadata.record_count 0 b.metadata.base_offset position record_bytes segment
      b.metadata.record_count

unfoldable pub entry_next : Entry → ℕ
entry_next (plain r) = (r.stored.metadata.offset + 1) % 2 ^ 64
entry_next (batched b) = b.metadata.next_offset

unfoldable pub entry_count : Entry → ℕ
entry_count (plain r) = 1
entry_count (batched b) = b.metadata.record_count

unfoldable pub note_entry : ℕ → ℕ → ℕ → Entry → Found → Found
note_entry segment position record_bytes entry found =
    let entries = entry_index segment position record_bytes entry in
    record {
      index = found.index ++ entries;
      index_file = found.index_file ++ index_bytes entries;
      next_offset = max found.next_offset (entry_next entry);
      records_recovered = found.records_recovered + entry_count entry;
    }

pub record Scanned : Type 0 where
  pub found : Found
  pub position : ℕ
  pub truncate : Bool

module _ (zstd : Zstd) (options : LogOptions) (segment : ℕ) where
  -- `while (position < original_size)`; `rest` is the file from `position` on. Without fuel, `none`.
  unfoldable pub scan : ℕ → ℕ → Bytes → Found → Option Scanned
  scan zero position rest found = none
  scan (suc fuel) position rest found =
      let stop = some (record { found = found; position = position; truncate = true }) in
      let record_bytes = read_u32_be rest 0 in
      if is_empty rest
      then some (record { found = found; position = position; truncate = false })
      else if ltb (length rest) 4
      then stop
      else if ltb record_bytes minimum_record_bytes || ltb (length rest - 4) record_bytes
      then stop
      else elim (decode_entry zstd options record_bytes (take record_bytes (drop 4 rest))) [
        | throws message ↦ stop
        | returns entry ↦
            scan fuel (position + 4 + record_bytes) (drop record_bytes (drop 4 rest))
              (note_entry segment position record_bytes entry found)
      ]

-- The loop over the segments: the files, the index, and whether a segment was truncated.
pub record Recovering : Type 0 where
  pub files : Directory
  pub index : List IndexEntry
  pub next_offset : ℕ
  pub stats : RecoveryStats
  pub stop_after_corruption : Bool

-- The errors of the removals are ignored.
unfoldable pub drop_segment : Disk → ℕ → Bytes → Recovering → Recovering
drop_segment disk base bytes s = record s {
  files = record {
    logs = if disk.removes_log base then erase base s.files.logs else s.files.logs;
    indexes = if disk.removes_index base then erase base s.files.indexes else s.files.indexes;
  };
  stats = record s.stats { bytes_truncated = s.stats.bytes_truncated + length bytes };
}

unfoldable pub note_segment : ℕ → Bytes → Scanned → Recovering → Recovering
note_segment base bytes sc s = record {
  files = record {
    logs = if sc.truncate then insert base (take sc.position bytes) s.files.logs else s.files.logs;
    indexes = insert base sc.found.index_file s.files.indexes;
  };
  index = sc.found.index;
  next_offset = sc.found.next_offset;
  stats = record s.stats {
    segments_scanned = s.stats.segments_scanned + 1;
    indexes_rebuilt = s.stats.indexes_rebuilt + 1;
    records_recovered = sc.found.records_recovered;
    bytes_truncated =
        if sc.truncate
        then s.stats.bytes_truncated + (length bytes - sc.position)
        else s.stats.bytes_truncated;
  };
  stop_after_corruption = sc.truncate;
}

abbrev pub found_before : Recovering → Found
found_before s = record {
  index = s.index;
  index_file = [];
  next_offset = s.next_offset;
  records_recovered = s.stats.records_recovered;
}

-- The file as long as it is is fuel enough: every round takes at least forty bytes.
unfoldable pub recover_segment :
    Zstd → Disk → LogOptions → ℕ → Bytes → Recovering → Outcome (Option Recovering)
recover_segment zstd disk options base bytes s =
    if s.stop_after_corruption
    then returns (some (drop_segment disk base bytes s))
    else if not (disk.reads_log base)
    then throws "failed to open segment for recovery: "
    else if not (disk.rebuilds_index base)
    then throws "failed to rebuild index: "
    else elim (scan zstd options base (suc (length bytes)) 0 bytes (found_before s)) [
      | none ↦ returns none
      | some sc ↦
          if sc.truncate && not (disk.truncates base)
          then throws "failed to truncate "
          else returns (some (note_segment base bytes sc s))
    ]

unfoldable pub recover_segments :
    Zstd → Disk → LogOptions → Files → Recovering → Outcome (Option Recovering)
recover_segments zstd disk options [] s = returns (some s)
recover_segments zstd disk options ((base, bytes) ∷ segments) s =
    and_some (recover_segment zstd disk options base bytes s)
      (recover_segments zstd disk options segments)

-- `std::sort` by offset. Entries of one offset stay in their order.
unfoldable pub insert_by_offset : IndexEntry → List IndexEntry → List IndexEntry
insert_by_offset e [] = e ∷ []
insert_by_offset e (f ∷ entries) =
    if ltb f.offset e.offset then f ∷ insert_by_offset e entries else e ∷ f ∷ entries

unfoldable pub sort_by_offset : List IndexEntry → List IndexEntry
sort_by_offset [] = []
sort_by_offset (e ∷ entries) = insert_by_offset e (sort_by_offset entries)

abbrev pub recovery_start : Directory → Recovering
recovery_start files = record {
  files = files;
  index = [];
  next_offset = 0;
  stats = record {
    segments_scanned = 0;
    indexes_rebuilt = 0;
    records_recovered = 0;
    bytes_truncated = 0;
    next_offset = 0;
  };
  stop_after_corruption = false;
}

abbrev pub recovered : LogOptions → Recovering → PartitionLog
recovered options s = record {
  options = options;
  files = s.files;
  index = sort_by_offset s.index;
  recovery_stats = record s.stats { next_offset = s.next_offset };
  next_offset = s.next_offset;
}

-- Without enough fuel it would return `none`.
unfoldable pub recover : Zstd → Disk → LogOptions → Directory → Outcome (Option PartitionLog)
recover zstd disk options files =
    if not disk.creates_directory
    then throws "failed to create partition directory: "
    else and_some (recover_segments zstd disk options files.logs (recovery_start files))
        (λ s. returns (some (recovered options s)))

-- Both files of the active segment are there afterwards.
unfoldable pub open_active_segment : Disk → PartitionLog → Outcome (Option PartitionLog)
open_active_segment disk log =
    if not disk.opens_active_log
    then throws "failed to open active segment"
    else if not disk.opens_active_index
    then throws "failed to open active index"
    else returns (
        some (record log {
          files = record {
            logs = append_to (active_segment_base log) [] log.files.logs;
            indexes = append_to (active_segment_base log) [] log.files.indexes;
          };
        }))

unfoldable pub open_log : Zstd → Disk → LogOptions → Directory → Outcome (Option PartitionLog)
open_log zstd disk options files =
    if not (is_valid_topic_name options.topic)
    then throws "invalid topic name"
    else if options.max_segment_bytes == 0
    then throws "max_segment_bytes must be greater than zero"
    else and_some (recover zstd disk options files) (open_active_segment disk)
