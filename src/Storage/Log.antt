-- ===== src/Storage/Log.antt =====
-- PartitionLog (src/storage/partition_log.cpp): the files of a partition's directory and the state in
-- memory. A segment is known by its base offset, which its file name spells; the directory holds the
-- `.log` and the `.index` files by base offset. What the clock, the age of a file and the streams do is
-- an argument of the calls.
pub mod Recover
pub mod Append
pub mod Encoded
pub mod Layout
pub mod Read
pub mod Retain
use bolt_stream.Base.{
  ℕ, zero, suc, ◌+◌, ◌%◌, ◌^◌, Bool, Option, none, some, List, [], ◌∷◌, ◌++◌, ◌==◌, if◌then◌else◌,
  Bytes,
}
use bolt_stream.Compression.{Zstd, Outcome, returns, throws}
use bolt_stream.OrderedMap.{find, insert}
use bolt_stream.OrderedMap.Numbers.{number_key}
use bolt_stream.Protocol.Wire.{write_u32, write_u64, read_u16_be}
use bolt_stream.Storage.Records.{DecodedRecord, decode_record}
use bolt_stream.Storage.Batches.{DecodedBatch, batch_version, decode_batch}

-- `PartitionLogOptions`, without the directory.
pub record LogOptions : Type 0 where
  pub topic : Bytes
  pub partition_id : ℕ
  pub max_segment_bytes : ℕ
  pub segment_max_age_seconds : ℕ
  pub max_uncompressed_batch_bytes : ℕ

abbrev pub Files : Type 0
Files = List (ℕ × Bytes)

pub record Directory : Type 0 where
  pub logs : Files
  pub indexes : Files

-- `segment` is the base offset of `segment_path`.
pub record IndexEntry : Type 0 where
  pub offset : ℕ
  pub file_position : ℕ
  pub record_bytes : ℕ
  pub segment : ℕ
  pub record_index : ℕ
  pub record_count : ℕ

pub record RecoveryStats : Type 0 where
  pub segments_scanned : ℕ
  pub indexes_rebuilt : ℕ
  pub records_recovered : ℕ
  pub bytes_truncated : ℕ
  pub next_offset : ℕ

pub record PartitionLog : Type 0 where
  pub options : LogOptions
  pub files : Directory
  pub index : List IndexEntry
  pub recovery_stats : RecoveryStats
  pub next_offset : ℕ

-- The content of a file, as a stream opened to append sees it: a missing file is an empty one.
abbrev pub content : Option Bytes → Bytes
content none = []
content (some bytes) = bytes

-- Opening to append creates the file; then the bytes are appended.
unfoldable pub append_to : ℕ → Bytes → Files → Files
append_to base bytes files = insert base (content (find base files) ++ bytes) files

-- What one call of `write_index_entry` writes.
unfoldable pub write_index_entry : ℕ → ℕ → ℕ → Bytes
write_index_entry offset file_position record_bytes =
    write_u64 offset ++ (write_u64 file_position ++ write_u32 record_bytes)

unfoldable pub index_bytes : List IndexEntry → Bytes
index_bytes [] = []
index_bytes (e ∷ entries) =
    write_index_entry e.offset e.file_position e.record_bytes ++ index_bytes entries

unfoldable pub last_segment : ℕ → List IndexEntry → ℕ
last_segment otherwise [] = otherwise
last_segment otherwise (e ∷ entries) = last_segment e.segment entries

-- The base offset of the last entry's segment.
unfoldable pub active_segment_base : PartitionLog → ℕ
unfolding last_segment
active_segment_base log = last_segment 0 log.index

unfoldable pub earliest_offset : PartitionLog → ℕ
earliest_offset log = elim log.index [ [] ↦ log.next_offset | e ∷ entries ↦ e.offset ]

-- A record or a batch, as `recover` and `read_from` tell them apart.
pub data Entry : Type 0 where
  plain : DecodedRecord → Entry
  batched : DecodedBatch → Entry

abbrev pub as_plain : Outcome DecodedRecord → Outcome Entry
as_plain (returns r) = returns (plain r)
as_plain (throws message) = throws message

abbrev pub as_batched : Outcome DecodedBatch → Outcome Entry
as_batched (returns b) = returns (batched b)
as_batched (throws message) = throws message

unfoldable pub decode_entry : Zstd → LogOptions → ℕ → Bytes → Outcome Entry
decode_entry zstd options record_bytes body_and_crc =
    if read_u16_be body_and_crc 0 == batch_version
    then as_batched (
        decode_batch zstd options.topic options.partition_id record_bytes body_and_crc
          options.max_uncompressed_batch_bytes)
    else as_plain (decode_record options.topic options.partition_id record_bytes body_and_crc)

-- The index entries of the batch's records from `index` on, as many as the first number says.
unfoldable pub batch_index : ℕ → ℕ → ℕ → ℕ → ℕ → ℕ → ℕ → List IndexEntry
batch_index zero index base_offset position record_bytes segment count = []
batch_index (suc left) index base_offset position record_bytes segment count =
    record {
      offset = (base_offset + index) % 2 ^ 64;
      file_position = position;
      record_bytes = record_bytes;
      segment = segment;
      record_index = index;
      record_count = count;
    }
    ∷ batch_index left (index + 1) base_offset position record_bytes segment count

abbrev pub plain_index : ℕ → ℕ → ℕ → ℕ → IndexEntry
plain_index offset position record_bytes segment = record {
  offset = offset;
  file_position = position;
  record_bytes = record_bytes;
  segment = segment;
  record_index = 0;
  record_count = 1;
}
