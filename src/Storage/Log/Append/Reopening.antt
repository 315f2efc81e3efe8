-- ===== src/Storage/Log/Append/Reopening.antt =====
-- What `append_batch` makes of a log whose segments hold whole records and batches, and what `recover`
-- finds afterwards (src/storage/partition_log.cpp).
use bolt_stream.Base.{
  ℕ, ◌+◌, ◌%◌, ◌^◌, ◌<◌, ◌≡◌, refl, ap, subst, sym, ◌∙◌, some, List, [], ◌∷◌, ◌++◌, map, length,
  All, arith, append-nil,
}
use bolt_stream.Compression.{Zstd, returns}
use bolt_stream.Protocol.Wire.{IsU64}
use bolt_stream.Storage.Records.{RecordMetadata}
use bolt_stream.Storage.Log.{
  LogOptions, Directory, IndexEntry, Entry, PartitionLog, last_segment, active_segment_base,
}
use bolt_stream.Storage.Log.Recover.{no_fault, recover}
use bolt_stream.Storage.Log.Layout.{segments_index, segments_next}
use bolt_stream.Storage.Log.Layout.Recovery.{Rising, recover-whole}
use bolt_stream.Storage.Log.Layout.Ready.{Holding}
use bolt_stream.Storage.Log.Layout.Entries.{segments_entries}
use bolt_stream.Storage.Log.Append.{
  AppendRecord, Outside, Ending, Cleanup, AppendState, Attempt, done, failed, and_then,
  file_size_or_zero, flush_chunk, append_records, append_start, append_end, append_batch,
}
use bolt_stream.Storage.Log.Append.Growth.{Ends, Ends-and_then}
use bolt_stream.Storage.Log.Append.Durable.{
  IsLaid, offsets_from, appended_entries, Anything, Appended, flush_chunk-Appended,
  append_records-Appended,
}

pub Holding-at :
    (zstd : Zstd) (options : LogOptions) (files : Directory) (index : List IndexEntry)
    (next base size next' base' : ℕ) (held : List Entry)
    → next ≡ next'
    → base ≡ base'
    → Holding zstd options files index next base size held
    → Holding zstd options files index next' base' (file_size_or_zero base' files.logs) held
Holding-at zstd options files index next base size next' base' held e f h =
    rw⁻¹ (e, f) (subst (λ size. Holding zstd options files index next base size held) h.0.sized h)

-- Behind what the log held it holds the records, each with its key and value, under the next offsets in
-- their order and with the time of its append.
abbrev pub HoldsMore :
    (zstd : Zstd) (log : PartitionLog)
    → IsLaid zstd log
    → List (AppendRecord × Outside)
    → PartitionLog
    → List RecordMetadata
    → Type 0
HoldsMore zstd log laid records log' metadata =
    ((laid' : IsLaid zstd log') × (segments_entries laid'.segments
        ≡ segments_entries laid.segments ++ appended_entries log.options log.next_offset records))
    × (log'.next_offset ≡ log.next_offset + length records)
    × (map RecordMetadata.offset metadata ≡ offsets_from log.next_offset (length records))

append_end-HoldsMore :
    (zstd : Zstd) (cleanup : Cleanup) (log : PartitionLog) (laid : IsLaid zstd log)
    (records : List (AppendRecord × Outside)) (a : Attempt) (metadata : List RecordMetadata)
    → Ends
        (Appended zstd log.options log.index log.next_offset
          (segments_entries laid.segments ++ appended_entries log.options log.next_offset records)
          (length records))
        Anything
        a
    → log.next_offset + length records < 2 ^ 64
    → (append_end cleanup log (length records) a).1 ≡ returns metadata
    → HoldsMore zstd log laid records (append_end cleanup log (length records) a).0 metadata
unfolding active_segment_base
append_end-HoldsMore zstd cleanup log laid records (failed message files) metadata h small e = cc e
append_end-HoldsMore zstd cleanup log laid records (done s) metadata h small e =
    let next : ℕ = log.next_offset + length records in
    let same : next ≡ next % 2 ^ 64 = omega arith in
    (
      Holding-at zstd log.options s.files (log.index ++ s.staged) next s.base_offset s.current_size
          (next % 2 ^ 64) (last_segment 0 (log.index ++ s.staged))
          (segments_entries laid.segments ++ appended_entries log.options log.next_offset records)
          same (sym h.active) h.opened.ready,
      sym same,
      let m : metadata ≡ s.metadata = cc e in rw m h.opened.numbered,
    )

-- An `append_batch` that returns, on a log whose segments hold whole records and batches, whatever its
-- segments roll at, leaves a log whose segments hold, whole and in this order, what they held and then
-- the given records, each with its key and value, the next offset and the time of its append. The index
-- and the next offset of the log are as they say, and the metadata that is returned has these offsets.
-- The offsets stay below `2 ^ 64`, and the clock's readings too.
pub append_batch-HoldsMore :
    (zstd : Zstd) (log : PartitionLog) (records : List (AppendRecord × Outside)) (ending : Ending)
    (metadata : List RecordMetadata) (laid : IsLaid zstd log)
    → All (λ entry. IsU64 (Outside.timestamp_unix_ns entry.1)) records
    → log.next_offset + length records < 2 ^ 64
    → (append_batch records ending log).1 ≡ returns metadata
    → HoldsMore zstd log laid records (append_batch records ending log).0 metadata
unfolding append_batch
append_batch-HoldsMore zstd log [] ending metadata laid fits small e =
    let m : metadata ≡ [] = cc e in
    (
      (laid, sym (unfold appended_entries in append-nil (segments_entries laid.segments))),
      omega arith,
      rw m (unfold offsets_from in refl),
    )
append_batch-HoldsMore zstd log (r ∷ records) ending metadata laid fits small e =
    let count : ℕ = length (r ∷ records) in
    let before = segments_entries laid.segments in
    let now = before ++ appended_entries log.options log.next_offset (r ∷ records) in
    let P : List Entry → ℕ → AppendState → Type 0 =
      Appended zstd log.options log.index log.next_offset in
    let a : Attempt = append_records log.options log.next_offset (r ∷ records) (append_start log) in
    let none_yet : log.next_offset + 0 ≡ log.next_offset = omega arith in
    let all : 0 + count ≡ count = omega arith in
    let start : P before 0 (append_start log) = record {
      opened = record {
        ready = rw (append-nil log.index, none_yet) (laid, refl);
        numbered = unfold offsets_from in refl;
      };
      active = unfold active_segment_base in ap (last_segment 0) (append-nil log.index);
    } in
    let ran =
      append_records-Appended zstd log.options log.index log.next_offset before 0 (r ∷ records)
        (append_start log) fits (omega arith) start in
    let appended : Ends (P now count) Anything a =
      subst
        (λ n.
          Ends (P (before ++ appended_entries log.options n (r ∷ records)) count) Anything
            (append_records log.options n (r ∷ records) (append_start log)))
        none_yet
        (subst
          (λ n.
            Ends (P (before ++ appended_entries log.options (log.next_offset + 0) (r ∷ records)) n)
              Anything
              (append_records log.options (log.next_offset + 0) (r ∷ records) (append_start log)))
          all ran) in
    append_end-HoldsMore zstd ending.cleanup log laid (r ∷ records)
      (and_then a (flush_chunk ending.flush)) metadata
      (Ends-and_then (P now count) (P now count) Anything a (flush_chunk ending.flush) appended
        (λ s g.
          flush_chunk-Appended zstd log.options log.index log.next_offset now count ending.flush s
            g))
      small e

-- A log whose segments hold whole records and batches is recovered from its files with the same index
-- and the same next offset, and nothing is truncated, if no file operation fails.
pub recover-IsLaid :
    (zstd : Zstd) (log : PartitionLog)
    → IsLaid zstd log
    → (reopened : PartitionLog) × (recover zstd no_fault log.options log.files
        ≡ returns (some reopened))
      × (reopened.index ≡ log.index)
      × (reopened.next_offset ≡ log.next_offset)
      × (reopened.files.logs ≡ log.files.logs)
      × (reopened.recovery_stats.bytes_truncated ≡ 0)
recover-IsLaid zstd log laid =
    let rising : Rising (segments_next laid.segments) (segments_index laid.segments) =
      subst (λ n. Rising n (segments_index laid.segments)) laid.upto
        (subst (Rising log.next_offset) laid.indexed laid.rising) in
    let (reopened, read, index, next, logs, cut) =
      recover-whole zstd log.options laid.segments log.files laid.whole laid.laid rising in
    (reopened, read, index ∙ sym laid.indexed, next ∙ sym laid.upto, logs, cut)
