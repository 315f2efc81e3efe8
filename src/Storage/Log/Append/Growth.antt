-- ===== src/Storage/Log/Append/Growth.antt =====
-- While `append_batch` runs, the files only grow (src/storage/partition_log.cpp).
use bolt_stream.Base.{
  ℕ, true, false, ◌≤◌, ◌+◌, ◌%◌, ◌^◌, ap, none, some, List, [], ◌∷◌, ◌++◌, take, length,
  if◌then◌else◌, Bytes, Bool-cases, inl, inr, arith, Option-cases,
}
use bolt_stream.Compression.{Outcome, returns, throws}
use bolt_stream.OrderedMap.{find}
use bolt_stream.OrderedMap.Laws.{IsSorted, IsSorted-insert}
use bolt_stream.OrderedMap.Numbers.{number_key, number_IsOrdered}
use bolt_stream.Storage.Records.{encode_record}
use bolt_stream.Storage.Log.{LogOptions, Files, Directory, content, append_to}
use bolt_stream.Storage.Log.Append.{
  AppendRecord, Outside, AppendState, Attempt, done, failed, and_then, Flush, file_size_or_zero,
  cut_file, closed, flush_chunk, open_chunk, roll, roll_due, write_at, entry_bytes, write_record,
  append_encoded, append_one, append_records,
}
use bolt_stream.Storage.Log.Append.Grown.{
  Grown, Grown-trans, Grown-append_to, Grown-length, find-cut_file,
}

-- `now` is a directory that `old` has grown to.
pub record IsLater (old now : Directory) : Type 0 where
  pub logs_grown : (base : ℕ) → Grown (find base old.logs) (find base now.logs)
  pub indexes_grown : (base : ℕ) → Grown (find base old.indexes) (find base now.indexes)
  pub logs_IsSorted : IsSorted number_IsOrdered now.logs

-- What holds where a step ends, and of the files where it throws.
abbrev pub Ends : (AppendState → Type 0) → (Directory → Type 0) → Attempt → Type 0
Ends P F (done s) = P s
Ends P F (failed message files) = F files

pub Ends-and_then :
    (P Q : AppendState → Type 0) (F : Directory → Type 0) (a : Attempt)
    (next : AppendState → Attempt)
    → Ends P F a
    → ((s : AppendState) → P s → Ends Q F (next s))
    → Ends Q F (and_then a next)
Ends-and_then P Q F (done s) next h g = g s h
Ends-and_then P Q F (failed message files) next h g = h

-- What there was of the segment that is open is not behind where it was opened.
pub record Held (old : Directory) (s : AppendState) : Type 0 where
  pub later : IsLater old s.files
  pub log_before : file_size_or_zero s.opened_base old.logs ≤ s.opened_log
  pub index_before : file_size_or_zero s.opened_base old.indexes ≤ s.opened_index

abbrev pub Reached : Directory → Attempt → Type 0
Reached old = Ends (Held old) (IsLater old)

IsSorted-cut_file :
    (base n : ℕ) (files : Files)
    → IsSorted number_IsOrdered files
    → IsSorted number_IsOrdered (cut_file base n files)
unfolding cut_file
IsSorted-cut_file base n files h = elim (Option-cases (find base files)) [
  | inl missing ↦ rw missing h
  | inr (bytes, there) ↦ rw there (IsSorted-insert number_IsOrdered base (take n bytes) files h)
]

module _ (old : Directory) where
  pub Reached-and_then :
      (a : Attempt) (next : AppendState → Attempt)
      → Reached old a
      → ((s : AppendState) → Held old s → Reached old (next s))
      → Reached old (and_then a next)
  Reached-and_then = Ends-and_then (Held old) (Held old) (IsLater old)

  IsSorted-append_to :
      (base : ℕ) (bytes : Bytes) (files : Files)
      → IsSorted number_IsOrdered files
      → IsSorted number_IsOrdered (append_to base bytes files)
  unfolding append_to
  IsSorted-append_to base bytes files h =
      IsSorted-insert number_IsOrdered base (content (find base files) ++ bytes) files h

  append_to-IsLater :
      (base : ℕ) (bytes : Bytes) (files : Directory)
      → IsLater old files
      → IsLater old (record files { logs = append_to base bytes files.logs })
  append_to-IsLater base bytes files h = record {
    logs_grown = λ b.
        Grown-trans (find b old.logs) (find b files.logs) (find b (append_to base bytes files.logs))
          (h.logs_grown b) (Grown-append_to base b bytes files.logs);
    indexes_grown = h.indexes_grown;
    logs_IsSorted = IsSorted-append_to base bytes files.logs h.logs_IsSorted;
  }

  pub write_at-IsLater :
      (base : ℕ) (bytes entry : Bytes) (files : Directory)
      → IsLater old files
      → IsLater old (write_at base bytes entry files)
  unfolding write_at
  write_at-IsLater base bytes entry files h =
      let logs = append_to-IsLater base bytes files h in
      record {
        logs_grown = logs.logs_grown;
        indexes_grown = λ b.
            Grown-trans (find b old.indexes) (find b files.indexes)
              (find b (append_to base entry files.indexes)) (h.indexes_grown b)
              (Grown-append_to base b entry files.indexes);
        logs_IsSorted = logs.logs_IsSorted;
      }

  closed-IsLater : (written : ℕ × ℕ) (s : AppendState) → Held old s → IsLater old (closed written s)
  unfolding closed
  closed-IsLater (log_bytes, index_size) s h =
      let cut : IsLater old (record {
        logs = cut_file s.opened_base (s.opened_log + log_bytes) s.files.logs;
        indexes = cut_file s.opened_base (s.opened_index + index_size) s.files.indexes;
      }) =
        record {
          logs_grown = λ b.
              find-cut_file s.opened_base (s.opened_log + log_bytes) b (find b old.logs)
                s.files.logs
                (λ e. omega (arith, h.log_before, ap (λ k. file_size_or_zero k old.logs) e))
                (h.later.logs_grown b);
          indexes_grown = λ b.
              find-cut_file s.opened_base (s.opened_index + index_size) b (find b old.indexes)
                s.files.indexes
                (λ e. omega (arith, h.index_before, ap (λ k. file_size_or_zero k old.indexes) e))
                (h.later.indexes_grown b);
          logs_IsSorted =
              IsSorted-cut_file s.opened_base (s.opened_log + log_bytes) s.files.logs
                h.later.logs_IsSorted;
        } in
      elim (Bool-cases s.is_open) [
        | inl open_now ↦ rw open_now cut
        | inr not_open ↦ rw not_open h.later
      ]

  pub flush_chunk-Reached :
      (flush : Flush) (s : AppendState) → Held old s → Reached old (flush_chunk flush s)
  unfolding flush_chunk
  flush_chunk-Reached flush s h =
      let part = closed-IsLater flush.written s h in
      let shut : Held old (record s { is_open = false }) = record {
        later = h.later;
        log_before = h.log_before;
        index_before = h.index_before;
      } in
      ground (arith, h, part, shut)

  open_chunk-Reached :
      (outside : Outside) (s : AppendState) → Held old s → Reached old (open_chunk outside s)
  unfolding open_chunk write_at
  open_chunk-Reached outside s h =
      let log_there = append_to-IsLater s.base_offset [] s.files h.later in
      let both = write_at-IsLater s.base_offset [] [] s.files h.later in
      let opened : Held old (record s {
        files = write_at s.base_offset [] [] s.files;
        is_open = true;
        opened_base = s.base_offset;
        opened_log = file_size_or_zero s.base_offset s.files.logs;
        opened_index = file_size_or_zero s.base_offset s.files.indexes;
      }) =
        record {
          later = both;
          log_before = Grown-length _ _ (h.later.logs_grown s.base_offset);
          index_before = Grown-length _ _ (h.later.indexes_grown s.base_offset);
        } in
      ground (arith, h, h.later, log_there, opened)

  write_record-Reached :
      (options : LogOptions) (offset : ℕ) (outside : Outside) (encoded : Bytes) (s : AppendState)
      → Held old s
      → Reached old (write_record options offset outside encoded s)
  unfolding write_record
  write_record-Reached options offset outside encoded s h =
      let entry : Bytes = entry_bytes offset (length encoded) s in
      let later = write_at-IsLater s.base_offset encoded entry s.files h.later in
      elim outside.cut_off
        as (λ cut.
          Reached old (write_record options offset (record outside { cut_off = cut }) encoded s)) [
            | none ↦ record {
              later = later;
              log_before = h.log_before;
              index_before = h.index_before;
            }
            | some written ↦
                closed-IsLater written
                  (record s { files = write_at s.base_offset encoded entry s.files })
                  (record {
                    later = later;
                    log_before = h.log_before;
                    index_before = h.index_before;
                  })
          ]

  roll-Held : (offset : ℕ) (s : AppendState) → Held old s → Held old (roll offset s)
  roll-Held offset s h = record {
    later = h.later;
    log_before = h.log_before;
    index_before = h.index_before;
  }

  append_one-Reached :
      (options : LogOptions) (offset : ℕ) (outside : Outside) (s : AppendState) (o : Outcome Bytes)
      → Held old s
      → Reached old (append_encoded options offset outside s o)
  append_one-Reached options offset outside s (throws message) h =
      closed-IsLater outside.flush.written s h
  append_one-Reached options offset outside s (returns encoded) h =
      let rolled : Reached old
          (and_then (flush_chunk outside.flush s) (λ s. done (roll offset s))) =
        Reached-and_then (flush_chunk outside.flush s) (λ s. done (roll offset s))
          (flush_chunk-Reached outside.flush s h) (λ s g. roll-Held offset s g) in
      Reached-and_then
        (if roll_due options outside (length encoded) s
          then and_then (flush_chunk outside.flush s) (λ s. done (roll offset s))
          else done s)
        (λ s. and_then (open_chunk outside s) (write_record options offset outside encoded))
        (elim (Bool-cases (roll_due options outside (length encoded) s)) [
          | inl due ↦ rw due rolled
          | inr room ↦ rw room h
        ])
        λ s g.
          Reached-and_then (open_chunk outside s) (write_record options offset outside encoded)
            (open_chunk-Reached outside s g)
            (λ s g. write_record-Reached options offset outside encoded s g)

  pub append_records-Reached :
      (options : LogOptions) (offset : ℕ) (records : List (AppendRecord × Outside))
      (s : AppendState)
      → Held old s
      → Reached old (append_records options offset records s)
  unfolding append_records append_one
  append_records-Reached options offset [] s h = h
  append_records-Reached options offset ((r, outside) ∷ records) s h =
      Reached-and_then (append_one options (offset % 2 ^ 64) r outside s)
        (append_records options (offset + 1) records)
        (append_one-Reached options (offset % 2 ^ 64) outside s
          (encode_record (offset % 2 ^ 64) outside.timestamp_unix_ns r.key r.value) h)
        (λ s g. append_records-Reached options (offset + 1) records s g)
