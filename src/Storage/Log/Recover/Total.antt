-- ===== src/Storage/Log/Recover/Total.antt =====
-- Recovery of a directory, whatever its files hold (src/storage/partition_log.cpp).
use bolt_stream.Base.{
  ℕ, suc, ◌≡◌, refl, ap, sym, subst, if◌then◌else◌, Option, false, [], ◌∷◌, some, length, String,
  Bytes, arith, Bool-cases, ◌⊎◌, inl, inr, not,
}
use bolt_stream.Compression.{Zstd, Outcome, returns, throws}
use bolt_stream.Storage.Log.{
  LogOptions, Files, Directory, PartitionLog, append_to, active_segment_base,
}
use bolt_stream.Storage.Log.Recover.{
  Disk, and_some, Recovering, recover_segment, recover_segments, recover, open_active_segment,
  recovery_start, recovered, drop_segment, note_segment, found_before,
}
use bolt_stream.Storage.Log.Recover.Scan.{scan-total}

-- A file operation whose failure is not ignored has failed.
pub data Fails (disk : Disk) : Type 0 where
  no_directory : disk.creates_directory ≡ false → Fails disk
  unread_log : (base : ℕ) → disk.reads_log base ≡ false → Fails disk
  unbuilt_index : (base : ℕ) → disk.rebuilds_index base ≡ false → Fails disk
  not_truncated : (base : ℕ) → disk.truncates base ≡ false → Fails disk
  no_active_log : disk.opens_active_log ≡ false → Fails disk
  no_active_index : disk.opens_active_index ≡ false → Fails disk

-- A result is returned, or an exception is thrown, and then `F` holds.
abbrev pub EndsUnless {ℓ} : {A : Type ℓ} → Type ℓ → Outcome (Option A) → Type ℓ
EndsUnless {A = A} F o =
    (F × ((message : String) × (o ≡ throws message))) ⊎ ((a : A) × (o ≡ returns (some a)))

pub EndsUnless-and_some :
    {A B : Type 0} (F : Type 0) (o : Outcome (Option A)) (next : A → Outcome (Option B))
    → EndsUnless F o
    → ((a : A) → EndsUnless F (next a))
    → EndsUnless F (and_some o next)
EndsUnless-and_some F o next (inl (f, (message, e))) h =
    inl (f, (message, ap (λ o. and_some o next) e))
EndsUnless-and_some F o next (inr (a, e)) h = rw e (h a)

module _ (zstd : Zstd) (disk : Disk) (options : LogOptions) where
  recover_segment-EndsUnless :
      (base : ℕ) (bytes : Bytes) (s : Recovering)
      → EndsUnless (Fails disk) (recover_segment zstd disk options base bytes s)
  unfolding recover_segment note_segment
  recover_segment-EndsUnless base bytes s = elim (Bool-cases s.stop_after_corruption) [
    | inl stopped ↦ inr (drop_segment disk base bytes s, rw (recover_segment, stopped))
    | inr going ↦ elim (Bool-cases (disk.reads_log base)) [
      | inr unread ↦ inl (
        unread_log base unread,
        ("failed to open segment for recovery: ", rw (recover_segment, going, unread)),
      )
      | inl read ↦ elim (Bool-cases (disk.rebuilds_index base)) [
        | inr unbuilt ↦ inl (
          unbuilt_index base unbuilt,
          ("failed to rebuild index: ", rw (recover_segment, going, read, unbuilt)),
        )
        | inl built ↦
            let (sc, scanned) =
              scan-total zstd options base (suc (length bytes)) 0 bytes (found_before s)
                (omega arith) in
            let noted = note_segment base bytes sc s in
            elim (Bool-cases sc.truncate) [
              | inr whole ↦ inr (noted, rw (recover_segment, going, read, built, scanned, whole))
              | inl torn ↦ elim (Bool-cases (disk.truncates base)) [
                | inl cut ↦
                    inr (noted, rw (recover_segment, going, read, built, scanned, torn, cut))
                | inr uncut ↦ inl (
                  not_truncated base uncut,
                  (
                    "failed to truncate ",
                    rw (recover_segment, going, read, built, scanned, torn, uncut),
                  ),
                )
              ]
            ]
      ]
    ]
  ]

  recover_segments-EndsUnless :
      (segments : Files) (s : Recovering)
      → EndsUnless (Fails disk) (recover_segments zstd disk options segments s)
  unfolding recover_segments
  recover_segments-EndsUnless [] s = inr (s, refl)
  recover_segments-EndsUnless ((base, bytes) ∷ segments) s =
      EndsUnless-and_some (Fails disk) (recover_segment zstd disk options base bytes s)
        (recover_segments zstd disk options segments) (recover_segment-EndsUnless base bytes s)
        (recover_segments-EndsUnless segments)

  -- Recovery of a partition ends with a log, whatever bytes its files hold, or throws, and then the
  -- directory was not created, a segment or an index did not open, or a truncation failed: the fuel
  -- that the loop over a segment gets, the number of the segment's bytes and one more, is enough.
  pub recover-total :
      (files : Directory)
      → (Fails disk × ((message : String) × (recover zstd disk options files ≡ throws message)))
        ⊎ ((log : PartitionLog) × (recover zstd disk options files ≡ returns (some log)))
  unfolding recover
  recover-total files =
      let read = recover_segments zstd disk options files.logs (recovery_start files) in
      let rest = and_some read (λ s. returns (some (recovered options s))) in
      let failed : String = "failed to create partition directory: " in
      elim (Bool-cases disk.creates_directory) [
        | inr missing ↦ inl (
          no_directory missing,
          (failed, ap (λ made. if not made then throws failed else rest) missing),
        )
        | inl there ↦
            subst (EndsUnless (Fails disk))
              (sym (ap (λ made. if not made then throws failed else rest) there))
              (EndsUnless-and_some (Fails disk) read (λ s. returns (some (recovered options s)))
                (recover_segments-EndsUnless files.logs (recovery_start files))
                (λ s. inr (recovered options s, refl)))
      ]

pub open_active_segment-EndsUnless :
    (disk : Disk) (log : PartitionLog) → EndsUnless (Fails disk) (open_active_segment disk log)
unfolding open_active_segment
open_active_segment-EndsUnless disk log = elim (Bool-cases disk.opens_active_log) [
  | inr closed ↦
      inl
        (no_active_log closed, ("failed to open active segment", rw (open_active_segment, closed)))
  | inl log_opens ↦ elim (Bool-cases disk.opens_active_index) [
    | inr closed ↦ inl (
      no_active_index closed,
      ("failed to open active index", rw (open_active_segment, log_opens, closed)),
    )
    | inl index_opens ↦ inr (
      record log {
        files = record {
          logs = append_to (active_segment_base log) [] log.files.logs;
          indexes = append_to (active_segment_base log) [] log.files.indexes;
        };
      },
      rw (open_active_segment, log_opens, index_opens),
    )
  ]
]
