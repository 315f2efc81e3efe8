-- ===== src/Storage/DataDir.antt =====
-- `recover_all_logs` (src/storage/partition_log.cpp) over the `topics` directory of a data directory, in
-- the order in which the file system gives its entries.
pub mod Total
use bolt_stream.Base.{
  ℕ, ◌+◌, ◌*◌, Bool, true, false, not, Option, none, some, List, [], ◌∷◌, if◌then◌else◌, Bytes,
}
use bolt_stream.Compression.{Zstd, Outcome, returns, throws}
use bolt_stream.Storage.Names.{is_valid_topic_name, parse_partition_id}
use bolt_stream.Storage.Log.{LogOptions, Directory, RecoveryStats, PartitionLog}
use bolt_stream.Storage.Log.Recover.{Disk, and_some, open_log}

pub record StorageRecoverySummary : Type 0 where
  pub topics_recovered : ℕ
  pub partitions_recovered : ℕ
  pub segments_scanned : ℕ
  pub indexes_rebuilt : ℕ
  pub records_recovered : ℕ
  pub bytes_truncated : ℕ

-- The entries of a directory by name; `none` is an entry that is no directory.
abbrev pub PartitionEntries : Type 0
PartitionEntries = List (Bytes × Option Directory)

abbrev pub TopicEntries : Type 0
TopicEntries = List (Bytes × Option PartitionEntries)

-- `kDefaultSegmentMaxAgeSeconds`, and the default of the options
abbrev pub default_segment_max_age_seconds : ℕ
default_segment_max_age_seconds = 60 * 60

abbrev pub default_max_uncompressed_batch_bytes : ℕ
default_max_uncompressed_batch_bytes = 1024 * 1024

abbrev pub topic_options : Bytes → ℕ → ℕ → LogOptions
topic_options topic partition_id max_segment_bytes = record {
  topic = topic;
  partition_id = partition_id;
  max_segment_bytes = max_segment_bytes;
  segment_max_age_seconds = default_segment_max_age_seconds;
  max_uncompressed_batch_bytes = default_max_uncompressed_batch_bytes;
}

-- `topic_counted` is whether a partition of the topic was recovered before.
abbrev pub count_log : RecoveryStats → Bool → StorageRecoverySummary → StorageRecoverySummary
count_log stats topic_counted s = record {
  topics_recovered = if topic_counted then s.topics_recovered else s.topics_recovered + 1;
  partitions_recovered = s.partitions_recovered + 1;
  segments_scanned = s.segments_scanned + stats.segments_scanned;
  indexes_rebuilt = s.indexes_rebuilt + stats.indexes_rebuilt;
  records_recovered = s.records_recovered + stats.records_recovered;
  bytes_truncated = s.bytes_truncated + stats.bytes_truncated;
}

-- What is done to an entry, and then to the others, which stay behind it.
abbrev pub behind {ℓ} :
    {A : Type ℓ}
    → A
    → Outcome (Option (List A × StorageRecoverySummary))
    → Outcome (Option (List A × StorageRecoverySummary))
behind entry (throws message) = throws message
behind entry (returns none) = returns none
behind entry (returns (some (entries, s))) = returns (some (entry ∷ entries, s))

-- `disks` says by topic and partition what the file system does.
module _ (zstd : Zstd) (disks : Bytes → ℕ → Disk) (max_segment_bytes : ℕ) where
  unfoldable pub recover_partitions :
      Bytes
      → PartitionEntries
      → Bool
      → StorageRecoverySummary
      → Outcome (Option (PartitionEntries × StorageRecoverySummary))
  recover_partitions topic [] topic_counted s = returns (some ([], s))
  recover_partitions topic ((name, none) ∷ entries) topic_counted s =
      behind (name, none) (recover_partitions topic entries topic_counted s)
  recover_partitions topic ((name, some files) ∷ entries) topic_counted s =
      elim (parse_partition_id name) [
        | none ↦ behind (name, some files) (recover_partitions topic entries topic_counted s)
        | some partition_id ↦
            and_some
              (open_log zstd (disks topic partition_id)
                (topic_options topic partition_id max_segment_bytes) files)
              λ log.
                behind (name, some log.files)
                  (recover_partitions topic entries true
                    (count_log log.recovery_stats topic_counted s))
      ]

  unfoldable pub recover_topics :
      TopicEntries
      → StorageRecoverySummary
      → Outcome (Option (TopicEntries × StorageRecoverySummary))
  recover_topics [] s = returns (some ([], s))
  recover_topics ((topic, none) ∷ entries) s = behind (topic, none) (recover_topics entries s)
  recover_topics ((topic, some partitions) ∷ entries) s =
      let passed = behind (topic, some partitions) (recover_topics entries s) in
      let recovered =
        and_some (recover_partitions topic partitions false s)
          (λ (partitions', s'). behind (topic, some partitions') (recover_topics entries s')) in
      if not (is_valid_topic_name topic) then passed else recovered

  -- A directory that does not exist has no entries.
  unfoldable pub recover_all_logs :
      TopicEntries → Outcome (Option (TopicEntries × StorageRecoverySummary))
  recover_all_logs entries = recover_topics entries (record {
    topics_recovered = 0;
    partitions_recovered = 0;
    segments_scanned = 0;
    indexes_rebuilt = 0;
    records_recovered = 0;
    bytes_truncated = 0;
  })
