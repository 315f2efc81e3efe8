-- ===== src/Storage/Log/Retain.antt =====
-- `segment_summaries` and `apply_retention` (src/storage/partition_log.cpp).
pub mod Kept
use bolt_stream.Base.{
  ℕ, ◌+◌, ◌-◌, ◌==◌, min, max, Bool, false, ◌&&◌, ◌||◌, not, Option, none, some, List, [], ◌∷◌, ltb,
  leb, if◌then◌else◌, length, String,
}
use bolt_stream.Compression.{Outcome, returns, throws}
use bolt_stream.OrderedMap.{find, insert, erase, values}
use bolt_stream.OrderedMap.Numbers.{number_key}
use bolt_stream.Storage.Log.{
  Files, Directory, IndexEntry, PartitionLog, active_segment_base, earliest_offset,
}
use bolt_stream.Storage.Log.Append.{file_size_or_zero}

pub record SegmentSummary : Type 0 where
  pub base_offset : ℕ
  pub first_offset : ℕ
  pub last_offset : ℕ
  pub log_bytes : ℕ
  pub active : Bool

-- `by_path`, by the base offset in place of the path.
abbrev pub Summaries : Type 0
Summaries = List (ℕ × SegmentSummary)

unfoldable pub file_summaries : ℕ → Files → Summaries
file_summaries active_base [] = []
file_summaries active_base ((base, bytes) ∷ logs) =
    (
      base,
      record {
        base_offset = base;
        first_offset = base;
        last_offset = base;
        log_bytes = length bytes;
        active = base == active_base;
      },
    )
    ∷ file_summaries active_base logs

abbrev pub summary_with : ℕ → Files → IndexEntry → Option SegmentSummary → SegmentSummary
summary_with active_base logs e none = record {
  base_offset = e.segment;
  first_offset = e.offset;
  last_offset = e.offset;
  log_bytes = file_size_or_zero e.segment logs;
  active = e.segment == active_base;
}
summary_with active_base logs e (some s) = record s {
  first_offset = min s.first_offset e.offset;
  last_offset = max s.last_offset e.offset;
}

unfoldable pub note_entries : ℕ → Files → List IndexEntry → Summaries → Summaries
note_entries active_base logs [] summaries = summaries
note_entries active_base logs (e ∷ entries) summaries =
    note_entries active_base logs entries
      (insert e.segment (summary_with active_base logs e (find e.segment summaries)) summaries)

unfoldable pub segment_summaries : PartitionLog → List SegmentSummary
segment_summaries log =
    let active_base = active_segment_base log in
    values (
      note_entries active_base log.files.logs log.index (file_summaries active_base log.files.logs))

pub record RetentionPolicy : Type 0 where
  pub max_bytes : ℕ
  pub max_age_seconds : ℕ

pub record RetentionStats : Type 0 where
  pub segments_deleted : ℕ
  pub bytes_deleted : ℕ
  pub segments_retained : ℕ
  pub bytes_retained : ℕ
  pub earliest_offset : ℕ
  pub next_offset : ℕ

-- The ages of the segments, and which removals fail.
pub record RetentionOutside : Type 0 where
  pub age_seconds : ℕ → ℕ
  pub keeps_log : ℕ → Bool
  pub keeps_index : ℕ → Bool

-- The locals of the loop; `deleted_logs` by base offset.
pub record Retaining : Type 0 where
  pub files : Directory
  pub total_bytes : ℕ
  pub deleted_logs : List ℕ
  pub segments_deleted : ℕ
  pub bytes_deleted : ℕ

pub data RetainStep : Type 0 where
  going : Retaining → RetainStep
  stopped : String → Directory → RetainStep

unfoldable pub is_due : RetentionPolicy → RetentionOutside → SegmentSummary → ℕ → Bool
is_due policy outside summary total_bytes =
    (ltb 0 policy.max_age_seconds
      && leb policy.max_age_seconds (outside.age_seconds summary.base_offset))
    || (ltb 0 policy.max_bytes && ltb policy.max_bytes total_bytes)

-- Subtraction stops at 0, as the code's does.
abbrev pub without_segment : SegmentSummary → Retaining → Retaining
without_segment summary s = record {
  files = record {
    logs = erase summary.base_offset s.files.logs;
    indexes = erase summary.base_offset s.files.indexes;
  };
  total_bytes = s.total_bytes - summary.log_bytes;
  deleted_logs = summary.base_offset ∷ s.deleted_logs;
  segments_deleted = s.segments_deleted + 1;
  bytes_deleted = s.bytes_deleted + summary.log_bytes;
}

unfoldable pub retain_segment :
    RetentionPolicy → RetentionOutside → SegmentSummary → Retaining → RetainStep
retain_segment policy outside summary s =
    let base = summary.base_offset in
    if summary.active || not (is_due policy outside summary s.total_bytes)
    then going s
    else if outside.keeps_log base
    then stopped "failed to delete retained segment " s.files
    else if outside.keeps_index base
    then stopped "failed to delete retained index "
        (record s.files { logs = erase base s.files.logs })
    else going (without_segment summary s)

abbrev pub go_on : RetainStep → (Retaining → RetainStep) → RetainStep
go_on (going s) next = next s
go_on (stopped message files) next = stopped message files

unfoldable pub retain_segments :
    RetentionPolicy → RetentionOutside → List SegmentSummary → Retaining → RetainStep
retain_segments policy outside [] s = going s
retain_segments policy outside (summary ∷ summaries) s =
    go_on (retain_segment policy outside summary s) (retain_segments policy outside summaries)

unfoldable pub is_among : ℕ → List ℕ → Bool
is_among base [] = false
is_among base (other ∷ bases) = other == base || is_among base bases

unfoldable pub not_deleted : List ℕ → List IndexEntry → List IndexEntry
not_deleted deleted [] = []
not_deleted deleted (e ∷ entries) =
    let rest = not_deleted deleted entries in if is_among e.segment deleted then rest else e ∷ rest

unfoldable pub total_log_bytes : List SegmentSummary → ℕ
total_log_bytes [] = 0
total_log_bytes (summary ∷ summaries) = summary.log_bytes + total_log_bytes summaries

abbrev pub retained_log : PartitionLog → Retaining → PartitionLog
retained_log log s = record log { files = s.files; index = not_deleted s.deleted_logs log.index }

abbrev pub retained : PartitionLog → RetainStep → PartitionLog × Outcome RetentionStats
retained log (stopped message files) = (record log { files = files }, throws message)
retained log (going s) =
    let log' = retained_log log s in
    let summaries = segment_summaries log' in
    (
      log',
      returns (record {
        segments_deleted = s.segments_deleted;
        bytes_deleted = s.bytes_deleted;
        segments_retained = length summaries;
        bytes_retained = total_log_bytes summaries;
        earliest_offset = earliest_offset log';
        next_offset = log'.next_offset;
      }),
    )

unfoldable pub apply_retention :
    RetentionPolicy → RetentionOutside → PartitionLog → PartitionLog × Outcome RetentionStats
apply_retention policy outside log =
    let summaries = segment_summaries log in
    retained log (
      retain_segments policy outside summaries (record {
        files = log.files;
        total_bytes = total_log_bytes summaries;
        deleted_logs = [];
        segments_deleted = 0;
        bytes_deleted = 0;
      }))
