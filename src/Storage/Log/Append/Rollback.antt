-- ===== src/Storage/Log/Append/Rollback.antt =====
-- What a failed `append_batch` leaves behind (src/storage/partition_log.cpp).
use bolt_stream.Base.{
  ℕ, ◌==◌, ◌≡◌, refl, ap, sym, ◌∙◌, true, Option, none, some, List, [], ◌∷◌, ◌++◌, length,
  if◌then◌else◌, String, Bytes, inl, inr, arith, append-nil, Option-cases,
}
use bolt_stream.Compression.{throws}
use bolt_stream.OrderedMap.{find}
use bolt_stream.OrderedMap.Laws.{find-erase, IsSorted, IsSorted-erase}
use bolt_stream.OrderedMap.Numbers.{number_key, number_IsOrdered}
use bolt_stream.Storage.Log.{Directory, PartitionLog, content}
use bolt_stream.Storage.Log.Append.{
  AppendRecord, Outside, Ending, Cleanup, Attempt, done, failed, and_then, originals,
  file_size_or_zero, rollback, flush_chunk, append_records, append_start, append_end, append_batch,
}
use bolt_stream.Storage.Log.Append.Growth.{
  IsLater, Held, Reached, Reached-and_then, flush_chunk-Reached, append_records-Reached,
}
use bolt_stream.Storage.Log.Append.Restore.{
  resize_file-find, Grown-Behind, resize_file-content, find-originals, restore_segment_other,
  restore_segment-IsSorted, rollback-After, Behind, sizes_of,
}

abbrev pub content_beside : Option Bytes → Option Bytes → Option Bytes
content_beside none beside = none
content_beside (some log) beside = some (content beside)

-- The content of the index of a segment that is there.
abbrev pub index_beside : ℕ → Directory → Option Bytes
index_beside base files = content_beside (find base files.logs) (find base files.indexes)

-- The handler can remove and resize the files of the segment.
abbrev pub CanUndo : Cleanup → ℕ → Type 0
CanUndo cleanup base =
    (cleanup.removes_log base ≡ true)
    × (cleanup.resizes_log base ≡ true)
    × (cleanup.resizes_index base ≡ true)

module _ (cleanup : Cleanup) (old now : Directory) (base : ℕ) (works : CanUndo cleanup base)
    (later : IsLater old now) where
  abbrev undone : Directory
  undone = rollback cleanup (originals old.logs old.indexes) now.logs now

  -- A segment that was there.
  undone-there :
      (log : Bytes)
      → find base old.logs ≡ some log
      → (find base undone.logs ≡ some log)
        × (content (find base undone.indexes) ≡ content (find base old.indexes))
  undone-there log was =
      let sizes : find base (originals old.logs old.indexes)
          ≡ some (length log, file_size_or_zero base old.indexes) =
        find-originals base old.logs old.indexes ∙ ap (sizes_of old.indexes base) was in
      let start : (more : Bytes) × (find base now.logs ≡ some (log ++ more)) =
        elim (later.logs_grown base) [
          | inl same ↦ ([], same ∙ was ∙ ap some (sym (append-nil log)))
          | inr (more, e) ↦ (more, e ∙ ap (λ o. some (content o ++ more)) was)
        ] in
      rollback-After cleanup (originals old.logs old.indexes) base
        (λ f.
          ((more : Bytes) × (find base f.logs ≡ some (log ++ more)))
          × Behind (find base old.indexes) (find base f.indexes))
        (λ f.
          (find base f.logs ≡ some log)
          × (content (find base f.indexes) ≡ content (find base old.indexes)))
        (λ f before.
          rw (sizes, works.1, works.2)
            (
              resize_file-find base log before.0.0 f.logs before.0.1,
              resize_file-content base (find base old.indexes) f.indexes before.1,
            ))
        (λ f after. (
          ([], after.0 ∙ ap some (sym (append-nil log))),
          ([], after.1 ∙ sym (append-nil (content (find base old.indexes)))),
        ))
        (λ other f differs.
          let (logs, indexes) =
            restore_segment_other cleanup other base (find other (originals old.logs old.indexes)) f
              differs in
          (λ before. rw (logs, indexes) before, λ after. rw (logs, indexes) after))
        now.logs now
        (
          start,
          Grown-Behind (find base old.indexes) (find base now.indexes) (later.indexes_grown base),
        )
        (λ gone. cc (gone, start.1))

  -- A segment that was not there.
  undone-missing : find base old.logs ≡ none → find base undone.logs ≡ none
  undone-missing was =
      let sizes : find base (originals old.logs old.indexes) ≡ none =
        find-originals base old.logs old.indexes ∙ ap (sizes_of old.indexes base) was in
      let same : (base == base) ≡ true = ground arith in
      (rollback-After cleanup (originals old.logs old.indexes) base
        (λ f. IsSorted number_IsOrdered f.logs)
        (λ f. (find base f.logs ≡ none) × IsSorted number_IsOrdered f.logs)
        (λ f before.
          rw (sizes, works.0)
            (
              find-erase number_IsOrdered base base f.logs before
                  ∙ ap (λ t. if t then none else find base f.logs) same,
              IsSorted-erase number_IsOrdered base f.logs before,
            ))
        (λ f after. after.1)
        (λ other f differs.
          let size = find other (originals old.logs old.indexes) in
          let (logs, indexes) = restore_segment_other cleanup other base size f differs in
          (
            λ before. restore_segment-IsSorted cleanup other size f before,
            λ after. (logs ∙ after.0, restore_segment-IsSorted cleanup other size f after.1),
          ))
        now.logs now later.logs_IsSorted (λ gone. (gone, later.logs_IsSorted))).0

  undone-as_before :
      (find base undone.logs ≡ find base old.logs)
      × (index_beside base undone ≡ index_beside base old)
  undone-as_before = elim (Option-cases (find base old.logs)) [
    | inl was ↦
        let gone = undone-missing was in
        (
          gone ∙ sym was,
          ap (λ o. content_beside o (find base undone.indexes)) gone
              ∙ sym (ap (λ o. content_beside o (find base old.indexes)) was),
        )
    | inr (log, was) ↦
        let (there, beside) = undone-there log was in
        (
          there ∙ sym was,
          ap (λ o. content_beside o (find base undone.indexes)) there
              ∙ ap some beside
              ∙ sym (ap (λ o. content_beside o (find base old.indexes)) was),
        )
  ]

-- The end of `append_batch`, where the loop or the last flush failed.
append_end-failed :
    (cleanup : Cleanup) (base count : ℕ) (log : PartitionLog) (message : String) (a : Attempt)
    → CanUndo cleanup base
    → Reached log.files a
    → (append_end cleanup log count a).1 ≡ throws message
    → let log' = (append_end cleanup log count a).0 in
      (find base log'.files.logs ≡ find base log.files.logs)
      × (index_beside base log'.files ≡ index_beside base log.files)
      × (log'.index ≡ log.index)
      × (log'.next_offset ≡ log.next_offset)
append_end-failed cleanup base count log message (done s) works later threw = cc threw
append_end-failed cleanup base count log message (failed text files) works later threw =
    let (logs, indexes) = undone-as_before cleanup log.files files base works later in
    (logs, indexes, refl, refl)

-- An `append_batch` that throws, whether a stream does not open, a write or a flush fails, or a record is
-- too long, and whatever part of what the open streams were given stands in the files then, leaves the
-- segment and its index as they were, or removes the segment if it was not there, and leaves the index in
-- memory and the next offset as they were. The handler can remove and resize the files of this segment,
-- and the directory's segments are in the order of their base offsets.
pub append_batch-throws :
    (base : ℕ) (records : List (AppendRecord × Outside)) (ending : Ending) (log : PartitionLog)
    (message : String)
    → CanUndo ending.cleanup base
    → IsSorted number_IsOrdered log.files.logs
    → (append_batch records ending log).1 ≡ throws message
    → let log' = (append_batch records ending log).0 in
      (find base log'.files.logs ≡ find base log.files.logs)
      × (index_beside base log'.files ≡ index_beside base log.files)
      × (log'.index ≡ log.index)
      × (log'.next_offset ≡ log.next_offset)
unfolding append_batch
append_batch-throws base [] ending log message works sorted threw = (refl, refl, refl, refl)
append_batch-throws base (r ∷ records) ending log message works sorted threw =
    let start : Held log.files (append_start log) = record {
      later = record {
        logs_grown = λ b. inl refl;
        indexes_grown = λ b. inl refl;
        logs_IsSorted = sorted;
      };
      log_before = omega arith;
      index_before = omega arith;
    } in
    let a = append_records log.options log.next_offset (r ∷ records) (append_start log) in
    append_end-failed ending.cleanup base (length (r ∷ records)) log message
      (and_then a (flush_chunk ending.flush)) works
      (Reached-and_then log.files a (flush_chunk ending.flush)
        (append_records-Reached log.files log.options log.next_offset (r ∷ records)
          (append_start log) start)
        (λ s held. flush_chunk-Reached log.files ending.flush s held))
      threw
