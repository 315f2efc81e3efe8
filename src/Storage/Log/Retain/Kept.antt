-- ===== src/Storage/Log/Retain/Kept.antt =====
-- What `apply_retention` leaves (src/storage/partition_log.cpp).
use bolt_stream.Base.{ℕ, ◌≡◌, false, none, List, ◌==◌, if◌then◌else◌}
use bolt_stream.OrderedMap.{find}
use bolt_stream.OrderedMap.Laws.{IsSorted}
use bolt_stream.OrderedMap.Numbers.{number_key, number_IsOrdered}
use bolt_stream.Storage.Log.{Files, PartitionLog, active_segment_base}
use bolt_stream.Storage.Log.Retain.{
  SegmentSummary, RetentionPolicy, RetentionOutside, Retaining, RetainStep, going, stopped,
  is_among, not_deleted,
}

-- The flag of a summary is about its base offset.
abbrev IsMarked : ℕ → SegmentSummary → Type 0
IsMarked active_base s = s.active ≡ (s.base_offset == active_base)

module _ (policy : RetentionPolicy) (outside : RetentionOutside) (logs indexes : Files)
    (active_base : ℕ) where
  -- The loop has removed the deleted segments and no other, the active one not among them.
  record Kept (s : Retaining) : Type 0 where
    logs_kept :
        (base : ℕ)
        → find base s.files.logs ≡ (if is_among base s.deleted_logs then none else find base logs)
    sorted : IsSorted number_IsOrdered s.files.logs
    indexes_kept :
        (base : ℕ)
        → find base s.files.indexes
          ≡ (if is_among base s.deleted_logs then none else find base indexes)
    indexes_sorted : IsSorted number_IsOrdered s.files.indexes
    active_kept : is_among active_base s.deleted_logs ≡ false

  abbrev StillKept : RetainStep → Type 0
  StillKept (going s) = Kept s
  StillKept (stopped message files) = Unit

-- What is left of a log by an `apply_retention` that returns.
abbrev pub LeavesSegment : PartitionLog → ℕ → PartitionLog → Type 0
LeavesSegment log base log' =
    (deleted : List ℕ) × (is_among (active_segment_base log) deleted ≡ false)
    × (log'.index ≡ not_deleted deleted log.index)
    × (find base log'.files.logs
        ≡ (if is_among base deleted then none else find base log.files.logs))
    × (find base log'.files.indexes
        ≡ (if is_among base deleted then none else find base log.files.indexes))
    × (active_segment_base log' ≡ active_segment_base log)
    × (log'.next_offset ≡ log.next_offset)
