-- ===== src/Tests/Logs.antt =====
-- Appends to a partition log, and reopening it, on concrete inputs.
use bolt_stream.Base.{
  map, take, ℕ, ◌≡◌, refl, false, true, none, some, List, [], ◌∷◌, arith, inl, Bytes,
}
use bolt_stream.Compression.{returns, throws, decompress}
use bolt_stream.OrderedMap.{find, insert}
use bolt_stream.OrderedMap.Numbers.{number_key}
use bolt_stream.OrderedMap.Order.{bytes_eq}
use bolt_stream.Protocol.Wire.{write_u16, write_u32, write_u64, write_list, write_each, write_bytes}
use bolt_stream.Protocol.Batch.{encode_record_set, write_batch_record}
use bolt_stream.Storage.Records.{RecordMetadata, encode_record, record_body}
use bolt_stream.Storage.Batches.{BatchMetadata, encode_batch, batch_body}
use bolt_stream.Storage.Log.{
  PartitionLog, active_segment_base, earliest_offset, last_segment, append_to,
}
use bolt_stream.Storage.Log.Recover.{no_fault, recover}
use bolt_stream.Storage.Log.Recover.Scan.{chunks_bytes}
use bolt_stream.Storage.Log.Layout.{
  segment_files, segments_index, segments_next, chunks_index, chunks_next,
}
use bolt_stream.Storage.Log.Append.{
  AppendRecord, Flush, Outside, Cleanup, Ending, append_batch, append_records, append_one,
  write_record, cut_file, closed, flush_chunk, open_chunk, roll_due, write_at,
}
use bolt_stream.Storage.Log.Append.Durable.{IsLaid}
use bolt_stream.Storage.Log.Append.Rollback.{index_beside, append_batch-throws}
use bolt_stream.Storage.Log.Append.Reopening.{HoldsMore, append_batch-HoldsMore, recover-IsLaid}
use bolt_stream.Storage.Log.Encoded.{append_encoded_batch, refusal, place, write_batch}
use bolt_stream.Storage.Log.Encoded.Laid.{append_encoded_batch-IsLaid}
use bolt_stream.Storage.Log.Read.{read_from}
use bolt_stream.Storage.Log.Read.Limits.{from_offset, WithinLimits}
use bolt_stream.Storage.Log.Read.Held.{segments_held}
use bolt_stream.Storage.Log.Read.Stored.{read_from-WithinLimits}
use bolt_stream.Storage.Log.Retain.{RetentionPolicy, RetentionStats, RetentionOutside}
use bolt_stream.Tests.Codecs.{copy}
use bolt_stream.Tests.Storage.{options}

-- A partition as it is opened for the first time.
abbrev new_log : PartitionLog
new_log = record {
  options = options;
  files = record { logs = (0, []) ∷ []; indexes = (0, []) ∷ [] };
  index = [];
  recovery_stats = record {
    segments_scanned = 0;
    indexes_rebuilt = 0;
    records_recovered = 0;
    bytes_truncated = 0;
    next_offset = 0;
  };
  next_offset = 0;
}

new_log-IsLaid : IsLaid copy new_log
unfolding active_segment_base last_segment segment_files segments_index segments_next chunks_bytes
    find chunks_index chunks_next
new_log-IsLaid = record {
  segments = (0, []) ∷ [];
  laid = refl;
  sorted = tt;
  indexed = refl;
  upto = refl;
  rising = tt;
  whole = (tt, tt);
  reaches = (inl refl, tt);
  sized = refl;
  base_small = omega arith;
}

abbrev good : Flush
good = record { succeeds = true; written = (0, 0) }

abbrev undoes : Cleanup
undoes = record {
  removes_log = λ base. true;
  removes_index = λ base. true;
  resizes_log = λ base. true;
  resizes_index = λ base. true;
}

abbrev ending : Ending
ending = record { flush = good; cleanup = undoes }

abbrev well : Outside
well = record {
  timestamp_unix_ns = 9;
  age_seconds = 0;
  opens_log = true;
  opens_index = true;
  flush = good;
  cut_off = none;
}

abbrev cut : Outside
cut = record {
  timestamp_unix_ns = 9;
  age_seconds = 0;
  opens_log = true;
  opens_index = true;
  flush = good;
  cut_off = some (10, 3);
}

abbrev three : List (AppendRecord × Outside)
three =
    (record { key = 1 ∷ []; value = 2 ∷ 3 ∷ [] }, well)
    ∷ (record { key = []; value = [] }, well)
    ∷ (record { key = []; value = 4 ∷ [] }, well)
    ∷ []

abbrev stored : ℕ → ℕ → RecordMetadata
stored offset size = record {
  topic = options.topic;
  partition = 3;
  offset = offset;
  timestamp_unix_ns = 9;
  encoded_byte_size = size;
}

-- The third record begins a new segment.
three_stored :
    (append_batch three ending new_log).1 ≡ returns (stored 0 43 ∷ stored 1 40 ∷ stored 2 41 ∷ [])
unfolding append_batch append_records append_one encode_record record_body write_u16 write_u32
    write_u64 write_record flush_chunk open_chunk roll_due write_at append_to find insert
    active_segment_base last_segment
three_stored = refl

append_batch-HoldsMore_example :
    HoldsMore copy new_log new_log-IsLaid three
      (append_batch three ending new_log).0
      (stored 0 43 ∷ stored 1 40 ∷ stored 2 41 ∷ [])
append_batch-HoldsMore_example =
    append_batch-HoldsMore copy new_log three ending (stored 0 43 ∷ stored 1 40 ∷ stored 2 41 ∷ [])
      new_log-IsLaid (omega arith, (omega arith, (omega arith, tt))) (omega arith) three_stored

recover-IsLaid_example :
    (reopened : PartitionLog) × (recover copy no_fault
        (append_batch three ending new_log).0.options
        (append_batch three ending new_log).0.files
      ≡ returns (some reopened))
    × (reopened.index ≡ (append_batch three ending new_log).0.index)
    × (reopened.next_offset ≡ (append_batch three ending new_log).0.next_offset)
    × (reopened.files.logs ≡ (append_batch three ending new_log).0.files.logs)
    × (reopened.recovery_stats.bytes_truncated ≡ 0)
recover-IsLaid_example =
    recover-IsLaid copy (append_batch three ending new_log).0 append_batch-HoldsMore_example.0.0

abbrev last_cut : List (AppendRecord × Outside)
last_cut =
    (record { key = 1 ∷ []; value = 2 ∷ 3 ∷ [] }, well)
    ∷ (record { key = []; value = 4 ∷ [] }, cut)
    ∷ []

last_cut_thrown :
    (append_batch last_cut ending new_log).1 ≡ throws "failed to write append batch for segment "
unfolding append_batch append_records append_one encode_record record_body write_u16 write_u32
    write_u64 write_record closed cut_file flush_chunk open_chunk roll_due write_at append_to find
    insert active_segment_base last_segment
last_cut_thrown = refl

append_batch-throws_example :
    (find 0 (append_batch last_cut ending new_log).0.files.logs ≡ some [])
    × (index_beside 0 (append_batch last_cut ending new_log).0.files ≡ some [])
    × ((append_batch last_cut ending new_log).0.index ≡ [])
    × ((append_batch last_cut ending new_log).0.next_offset ≡ 0)
unfolding find
append_batch-throws_example =
    append_batch-throws 0 last_cut ending new_log "failed to write append batch for segment "
      (refl, refl, refl) tt last_cut_thrown

-- One record with no key and the value `5`, not compressed.
abbrev one_record : Bytes
one_record = 0 ∷ 0 ∷ 0 ∷ 1 ∷ 0 ∷ 0 ∷ 0 ∷ 0 ∷ 0 ∷ 0 ∷ 0 ∷ 1 ∷ 5 ∷ []

abbrev five : List AppendRecord
five = record { key = []; value = 5 ∷ [] } ∷ []

abbrev five_stored : BatchMetadata
five_stored = record {
  topic = options.topic;
  partition = 3;
  base_offset = 0;
  next_offset = 1;
  timestamp_unix_ns = 9;
  record_count = 1;
  logical_bytes = 13;
  encoded_bytes = 13;
  stored_bytes = 57;
  codec = 0;
}

five_returned :
    (append_encoded_batch copy 0 one_record 13 five well undoes new_log).1 ≡ returns five_stored
unfolding append_encoded_batch refusal place write_batch encode_record_set write_list write_each
    write_batch_record write_bytes write_u32 decompress bytes_eq encode_batch batch_body write_u16
    write_u64 write_at append_to find insert active_segment_base last_segment
five_returned = refl

append_encoded_batch-IsLaid_example :
    IsLaid copy (append_encoded_batch copy 0 one_record 13 five well undoes new_log).0
    × ((append_encoded_batch copy 0 one_record 13 five well undoes new_log).0.next_offset ≡ 1)
append_encoded_batch-IsLaid_example =
    append_encoded_batch-IsLaid copy 0 one_record 13 five well undoes new_log five_stored
      new_log-IsLaid (omega arith) (omega arith) (omega arith) (omega arith)
      ((omega arith, omega arith, (λ e. cc e)), tt) (omega arith) five_returned

read_from-WithinLimits_example :
    let log = (append_batch three ending new_log).0 in
    let held =
      from_offset 1 (segments_held log.options append_batch-HoldsMore_example.0.0.segments) in
    (k : ℕ) × (read_from copy log 1 10 0 ≡ returns (map (λ r. r.0) (take k held)))
    × WithinLimits 10 0 0 0 held k
read_from-WithinLimits_example =
    read_from-WithinLimits copy (append_batch three ending new_log).0 1 10 0
      append_batch-HoldsMore_example.0.0

-- Both segments together are too large; the one that is not active goes.
abbrev policy : RetentionPolicy
policy = record { max_bytes = 50; max_age_seconds = 0 }

abbrev world : RetentionOutside
world = record { age_seconds = λ base. 0; keeps_log = λ base. false; keeps_index = λ base. false }

abbrev one_deleted : RetentionStats
one_deleted = record {
  segments_deleted = 1;
  bytes_deleted = 83;
  segments_retained = 1;
  bytes_retained = 41;
  earliest_offset = 2;
  next_offset = 3;
}
