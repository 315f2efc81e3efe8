-- ===== src/Storage/Log/Encoded/InPlace.antt =====
-- A batch that `append_encoded_batch` puts in its place (src/storage/partition_log.cpp).
use bolt_stream.Base.{
  ℕ, ◌+◌, ◌%◌, ◌^◌, ◌<◌, ◌≡◌, refl, ap, subst, sym, ◌∙◌, ◌&&◌, Option, none, some, List, ◌++◌, ltb,
  length, String, Bytes, Bool-cases, inl, inr, arith,
}
use bolt_stream.Compression.{Zstd, returns}
use bolt_stream.Storage.Batches.{BatchMetadata}
use bolt_stream.Storage.Log.{
  Directory, IndexEntry, PartitionLog, batch_index, index_bytes, last_segment, active_segment_base,
}
use bolt_stream.Storage.Log.Recover.{entry_index, entry_next}
use bolt_stream.Storage.Log.Recover.Scan.{Chunk, chunk_bytes, IsChunk, length-chunk_bytes}
use bolt_stream.Storage.Log.Layout.Recovery.{first_offset, Rising}
use bolt_stream.Storage.Log.Layout.Entries.{segments_entries}
use bolt_stream.Storage.Log.Layout.Ready.{Ready, Ready-roll, Ready-write}
use bolt_stream.Storage.Log.Append.{Outside, Cleanup, file_size_or_zero, write_at}
use bolt_stream.Storage.Log.Append.Durable.{IsLaid}
use bolt_stream.Storage.Log.Append.Reopening.{Holding-at}
use bolt_stream.Storage.Log.Encoded.Checked.{batch_index-Rising, last_segment-batch}
use bolt_stream.Storage.Log.Encoded.{Placed, place, write_batch, stored_batch}

write_batch-none :
    (outside : Outside) (p : Placed) (entries : Bytes) (files : Directory)
    → (write_batch outside p entries files).1 ≡ none
    → (write_batch outside p entries files).0 ≡ write_at p.segment_base p.encoded entries files
unfolding write_batch
write_batch-none outside p entries files e =
    elim (Bool-cases (outside.opens_log && outside.opens_index)) [
      | inr shut ↦ cc (shut, e)
      | inl both_open ↦
          elim outside.cut_off
              as (λ cut.
                (write_batch (record outside { cut_off = cut }) p entries files).1 ≡ none
                → (write_batch (record outside { cut_off = cut }) p entries files).0
                  ≡ write_at p.segment_base p.encoded entries files) [
                    | none ↦ λ e. rw both_open
                    | some cut ↦ λ e. cc e
                  ]
            e
    ]

place-Ready :
    (zstd : Zstd) (log : PartitionLog) (encoded : Bytes)
    → IsLaid zstd log
    → let p = place log log.next_offset encoded in
      Ready zstd log.options log.files log.index log.next_offset p.segment_base p.current_size
unfolding place
place-Ready zstd log encoded laid =
    let size = file_size_or_zero (active_segment_base log) log.files.logs in
    elim (Bool-cases (ltb 0 size && ltb log.options.max_segment_bytes (size + length encoded))) [
      | inl due ↦ rw due (
          (Ready-roll zstd log.options log.files log.index log.next_offset (active_segment_base log)
            size (segments_entries laid.segments) laid refl).0)
      | inr room ↦ rw room laid
    ]

stored_batch-IsLaid :
    (zstd : Zstd) (cleanup : Cleanup) (log : PartitionLog) (p : Placed) (count size : ℕ)
    (stored metadata : BatchMetadata) (written : Directory × Option String)
    → 0 < count
    → log.next_offset + count < 2 ^ 64
    → (written.1 ≡ none
        → Ready zstd log.options written.0
            (log.index
              ++ batch_index count 0 p.base_offset p.current_size p.body_bytes p.segment_base count)
            (log.next_offset + count)
            p.segment_base
            size)
    → (stored_batch cleanup log p count stored written).1 ≡ returns metadata
    → IsLaid zstd (stored_batch cleanup log p count stored written).0
      × ((stored_batch cleanup log p count stored written).0.next_offset ≡ log.next_offset + count)
unfolding active_segment_base
stored_batch-IsLaid zstd cleanup log p count size stored metadata (files, some message) h small
      ready e =
    cc e
stored_batch-IsLaid zstd cleanup log p count size stored metadata (files, none) h small ready e =
    let entries =
      log.index
      ++ batch_index count 0 p.base_offset p.current_size p.body_bytes p.segment_base count in
    let same : log.next_offset + count ≡ (log.next_offset + count) % 2 ^ 64 = omega arith in
    (
      (Holding-at zstd log.options files entries (log.next_offset + count) p.segment_base size
          ((log.next_offset + count) % 2 ^ 64) (last_segment 0 entries)
          (segments_entries (ready refl).segments) same
          (sym (
            last_segment-batch count 0 p.base_offset p.current_size p.body_bytes p.segment_base
              count 0 log.index h))
          (ready refl, refl)).0,
      sym same,
    )

-- A whole batch that is stored in its place.
pub placed-IsLaid :
    (zstd : Zstd) (cleanup : Cleanup) (log : PartitionLog) (outside : Outside) (c : Chunk)
    (count : ℕ) (encoded : Bytes) (stored metadata : BatchMetadata)
    → let p = place log log.next_offset encoded in
      let entries =
        index_bytes
          (batch_index count 0 p.base_offset p.current_size p.body_bytes p.segment_base count) in
      IsLaid zstd log
      → IsChunk zstd log.options c
      → encoded ≡ chunk_bytes c
      → 0 < count
      → log.next_offset + count < 2 ^ 64
      → ((base position : ℕ)
          → entry_index base position (length c.body) c.entry
            ≡ batch_index count 0 log.next_offset position (length c.body) base count)
      → entry_next c.entry ≡ log.next_offset + count
      → (stored_batch cleanup log p count stored (write_batch outside p entries log.files)).1
        ≡ returns metadata
      → let log' =
          (stored_batch cleanup log p count stored (write_batch outside p entries log.files)).0 in
        IsLaid zstd log' × (log'.next_offset ≡ log.next_offset + count)
unfolding place
placed-IsLaid zstd cleanup log outside c count encoded stored metadata laid chunk image h small
      indexed next e =
    let p : Placed = place log log.next_offset encoded in
    let body : p.body_bytes ≡ length c.body =
      omega (arith, ap length image, length-chunk_bytes c, chunk.short) in
    let at_place =
      batch_index count 0 log.next_offset p.current_size (length c.body) p.segment_base count in
    let entries =
      index_bytes
        (batch_index count 0 p.base_offset p.current_size p.body_bytes p.segment_base count) in
    let (rising, first) =
      batch_index-Rising count 0 log.next_offset p.current_size (length c.body) p.segment_base count
        (omega arith) in
    let no_more : log.next_offset + 0 + count ≡ log.next_offset + count = omega arith in
    let same = indexed p.segment_base p.current_size in
    let placed = place-Ready zstd log encoded laid in
    let (written, _) =
      Ready-write zstd log.options log.files log.index log.next_offset p.segment_base p.current_size
        (segments_entries placed.segments) placed refl c entries (log.next_offset + count) chunk
        next (omega arith) (rw same (subst (λ n. Rising n at_place) no_more rising))
        (rw same (
          subst (λ n. first_offset n at_place ≡ log.next_offset + 0) no_more first
          ∙ omega arith)) in
    let size : ℕ = p.current_size + length (chunk_bytes c) in
    let Holds : Bytes → List IndexEntry → Type 0 = λ bytes more.
      Ready zstd log.options (write_at p.segment_base bytes entries log.files) (log.index ++ more)
        (log.next_offset + count) p.segment_base size in
    let ready : Holds encoded
        (batch_index count 0 log.next_offset p.current_size p.body_bytes p.segment_base count) =
      subst
        (λ bytes.
          Holds bytes
            (batch_index count 0 log.next_offset p.current_size p.body_bytes p.segment_base count))
        (sym image)
        (subst
          (λ n.
            Holds (chunk_bytes c)
              (batch_index count 0 log.next_offset p.current_size n p.segment_base count))
          (sym body) (subst (Holds (chunk_bytes c)) same written)) in
    stored_batch-IsLaid zstd cleanup log p count size stored metadata
      (write_batch outside p entries log.files) h small
      (λ none_thrown. rw (write_batch-none outside p entries log.files none_thrown) ready) e
