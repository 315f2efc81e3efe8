-- ===== src/Storage/DataDir/Total.antt =====
-- `recover_all_logs` ends (src/storage/partition_log.cpp), whatever the files hold.
use bolt_stream.Base.{
  ℕ, ◌<◌, ◌≡◌, refl, ap, Bool, true, false, Option, none, some, List, [], ◌∷◌, ◌==◌, String, Bytes,
  arith, Bool-cases, Option-cases, ◌⊎◌, inl, inr,
}
use bolt_stream.Compression.{Zstd, Outcome, returns, throws}
use bolt_stream.Storage.Names.{is_valid_topic_name, parse_partition_id}
use bolt_stream.Storage.Log.{Directory}
use bolt_stream.Storage.Log.Recover.{Disk, and_some, recover, open_active_segment, open_log}
use bolt_stream.Storage.Log.Recover.Total.{
  Fails, EndsUnless, EndsUnless-and_some, recover-total, open_active_segment-EndsUnless,
}
use bolt_stream.Storage.DataDir.{
  StorageRecoverySummary, PartitionEntries, TopicEntries, topic_options, count_log, behind,
  recover_partitions, recover_topics, recover_all_logs,
}

-- A file operation has failed in some partition.
abbrev pub FailsSomewhere : (Bytes → ℕ → Disk) → Type 0
FailsSomewhere disks = (topic : Bytes) × (partition_id : ℕ) × Fails (disks topic partition_id)

behind-EndsUnless :
    {A : Type 0} (F : Type 0) (entry : A) (o : Outcome (Option (List A × StorageRecoverySummary)))
    → EndsUnless F o
    → EndsUnless F (behind entry o)
behind-EndsUnless F entry o (inl (f, (message, e))) = inl (f, (message, ap (behind entry) e))
behind-EndsUnless F entry o (inr ((entries, s), e)) =
    inr ((entry ∷ entries, s), ap (behind entry) e)

-- What fails in one partition fails somewhere.
EndsUnless-somewhere :
    {A : Type 0} (disks : Bytes → ℕ → Disk) (topic : Bytes) (partition_id : ℕ)
    (o : Outcome (Option A))
    → EndsUnless (Fails (disks topic partition_id)) o
    → EndsUnless (FailsSomewhere disks) o
EndsUnless-somewhere disks topic partition_id o (inl (f, threw)) =
    inl ((topic, partition_id, f), threw)
EndsUnless-somewhere disks topic partition_id o (inr returned) = inr returned

module _ (zstd : Zstd) (disks : Bytes → ℕ → Disk) (max_segment_bytes : ℕ)
    (some_size : 0 < max_segment_bytes) where
  open_log-EndsUnless :
      (topic : Bytes) (partition_id : ℕ) (files : Directory)
      → is_valid_topic_name topic ≡ true
      → EndsUnless (FailsSomewhere disks) (
          open_log zstd
            (disks topic partition_id)
            (topic_options topic partition_id max_segment_bytes)
            files)
  unfolding open_log
  open_log-EndsUnless topic partition_id files valid =
      let disk = disks topic partition_id in
      let options = topic_options topic partition_id max_segment_bytes in
      let sized : (max_segment_bytes == 0) ≡ false = ground arith in
      rw (valid, sized)
        (EndsUnless-somewhere disks topic partition_id
          (and_some (recover zstd disk options files) (open_active_segment disk))
          (EndsUnless-and_some (Fails disk) (recover zstd disk options files)
            (open_active_segment disk) (recover-total zstd disk options files)
            (open_active_segment-EndsUnless disk)))

  recover_partitions-EndsUnless :
      (topic : Bytes) (entries : PartitionEntries) (topic_counted : Bool)
      (s : StorageRecoverySummary)
      → is_valid_topic_name topic ≡ true
      → EndsUnless
          (FailsSomewhere disks)
          (recover_partitions zstd disks max_segment_bytes topic entries topic_counted s)
  unfolding recover_partitions
  recover_partitions-EndsUnless topic [] topic_counted s valid = inr (([], s), refl)
  recover_partitions-EndsUnless topic ((name, none) ∷ entries) topic_counted s valid =
      behind-EndsUnless (FailsSomewhere disks) (name, none)
        (recover_partitions zstd disks max_segment_bytes topic entries topic_counted s)
        (recover_partitions-EndsUnless topic entries topic_counted s valid)
  recover_partitions-EndsUnless topic ((name, some files) ∷ entries) topic_counted s valid =
      elim (Option-cases (parse_partition_id name)) [
        | inl other ↦
            rw (recover_partitions, other)
              (behind-EndsUnless (FailsSomewhere disks) (name, some files)
                (recover_partitions zstd disks max_segment_bytes topic entries topic_counted s)
                (recover_partitions-EndsUnless topic entries topic_counted s valid))
        | inr (partition_id, parsed) ↦
            let rest = recover_partitions zstd disks max_segment_bytes topic entries true in
            rw (recover_partitions, parsed)
              (EndsUnless-and_some (FailsSomewhere disks)
                (open_log zstd (disks topic partition_id)
                  (topic_options topic partition_id max_segment_bytes) files)
                (λ log.
                  behind (name, some log.files)
                    (rest (count_log log.recovery_stats topic_counted s)))
                (open_log-EndsUnless topic partition_id files valid)
                (λ log.
                  behind-EndsUnless (FailsSomewhere disks) (name, some log.files)
                    (rest (count_log log.recovery_stats topic_counted s))
                    (recover_partitions-EndsUnless topic entries true
                      (count_log log.recovery_stats topic_counted s) valid)))
      ]

  recover_topics-EndsUnless :
      (entries : TopicEntries) (s : StorageRecoverySummary)
      → EndsUnless (FailsSomewhere disks) (recover_topics zstd disks max_segment_bytes entries s)
  unfolding recover_topics
  recover_topics-EndsUnless [] s = inr (([], s), refl)
  recover_topics-EndsUnless ((topic, none) ∷ entries) s =
      behind-EndsUnless (FailsSomewhere disks) (topic, none)
        (recover_topics zstd disks max_segment_bytes entries s)
        (recover_topics-EndsUnless entries s)
  recover_topics-EndsUnless ((topic, some partitions) ∷ entries) s =
      let rest = recover_topics zstd disks max_segment_bytes entries in
      elim (Bool-cases (is_valid_topic_name topic)) [
        | inr other ↦
            rw (recover_topics, other)
              (behind-EndsUnless (FailsSomewhere disks) (topic, some partitions) (rest s)
                (recover_topics-EndsUnless entries s))
        | inl valid ↦
            rw (recover_topics, valid)
              (EndsUnless-and_some (FailsSomewhere disks)
                (recover_partitions zstd disks max_segment_bytes topic partitions false s)
                (λ (partitions', s'). behind (topic, some partitions') (rest s'))
                (recover_partitions-EndsUnless topic partitions false s valid)
                (λ (partitions', s').
                  behind-EndsUnless (FailsSomewhere disks) (topic, some partitions') (rest s')
                    (recover_topics-EndsUnless entries s')))
      ]

  -- With a segment size that is not 0, `recover_all_logs` ends with a summary, whatever names and files
  -- the data directory holds, or throws, and then in some partition the directory was not created, a
  -- segment, an index or an active file did not open, or a truncation failed. A directory in the place
  -- of a file is one of which the opening fails.
  pub recover_all_logs-total :
      (entries : TopicEntries)
      → (FailsSomewhere disks
          × ((message : String) × (recover_all_logs zstd disks max_segment_bytes entries
                ≡ throws message)))
        ⊎ ((recovered : TopicEntries × StorageRecoverySummary) × (recover_all_logs zstd disks
                max_segment_bytes entries
              ≡ returns (some recovered)))
  unfolding recover_all_logs
  recover_all_logs-total entries = recover_topics-EndsUnless entries (record {
    topics_recovered = 0;
    partitions_recovered = 0;
    segments_scanned = 0;
    indexes_rebuilt = 0;
    records_recovered = 0;
    bytes_truncated = 0;
  })
