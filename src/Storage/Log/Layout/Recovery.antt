-- ===== src/Storage/Log/Layout/Recovery.antt =====
-- `recover` (src/storage/partition_log.cpp) on segments that hold whole records and batches.
use bolt_stream.Base.{
  ℕ, suc, ◌+◌, ◌<◌, max, ◌≡◌, refl, ap, sym, ◌∙◌, false, some, List, [], ◌∷◌, ◌++◌, length, ltb,
  le→ltb, All, arith, append-nil, append_assoc,
}
use bolt_stream.Compression.{Zstd, returns}
use bolt_stream.Storage.Log.{LogOptions, Directory, IndexEntry, PartitionLog}
use bolt_stream.Storage.Log.Recover.{
  no_fault, Found, note_entry, entry_index, scan, Recovering, note_segment, found_before,
  recover_segment, recover_segments, recover, recovered, recovery_start, insert_by_offset,
  sort_by_offset,
}
use bolt_stream.Storage.Log.Recover.Scan.{
  Chunk, chunks_bytes, IsChunk, note_chunks, scan-chunks, length-chunk_bytes,
}
use bolt_stream.Storage.Log.Layout.{
  Segments, segment_files, chunks_index, chunks_next, segments_index, segments_next,
}

-- Offsets rise strictly, to below the next one.
abbrev pub first_offset : ℕ → List IndexEntry → ℕ
first_offset next [] = next
first_offset next (e ∷ entries) = e.offset

abbrev pub Rising : ℕ → List IndexEntry → Type 0
Rising next [] = Unit
Rising next (e ∷ entries) = (e.offset < first_offset next entries) × Rising next entries

sort_by_offset-Rising :
    (next : ℕ) (entries : List IndexEntry) → Rising next entries → sort_by_offset entries ≡ entries
unfolding sort_by_offset insert_by_offset
sort_by_offset-Rising next [] h = refl
sort_by_offset-Rising next (e ∷ []) h = refl
sort_by_offset-Rising next (e ∷ f ∷ entries) (less, h) =
    let stays : ltb f.offset e.offset ≡ false = le→ltb f.offset e.offset (omega arith) in
    ap (insert_by_offset e) (sort_by_offset-Rising next (f ∷ entries) h) ∙ rw stays

note_chunks-found :
    (base position : ℕ) (chunks : List Chunk) (found : Found)
    → ((note_chunks base position chunks found).index
        ≡ found.index ++ chunks_index base position chunks)
      × ((note_chunks base position chunks found).next_offset
          ≡ max found.next_offset (chunks_next chunks))
unfolding note_chunks chunks_index chunks_next note_entry
note_chunks-found base position [] found = (sym (append-nil found.index), omega arith)
note_chunks-found base position (c ∷ chunks) found =
    let found' = note_entry base position (length c.body) c.entry found in
    let (index, next) = note_chunks-found base (position + 4 + length c.body) chunks found' in
    (
      index
          ∙ append_assoc found.index (entry_index base position (length c.body) c.entry)
              (chunks_index base (position + 4 + length c.body) chunks),
      next ∙ omega arith,
    )

module _ (zstd : Zstd) (options : LogOptions) where
  abbrev pub IsWhole : ℕ × List Chunk → Type 0
  IsWhole segment = All (IsChunk zstd options) segment.1

  scan-whole :
      (base : ℕ) (chunks : List Chunk) (found : Found)
      → All (IsChunk zstd options) chunks
      → scan zstd options base (suc (length (chunks_bytes chunks))) 0 (chunks_bytes chunks) found
        ≡ some (record {
          found = note_chunks base 0 chunks found;
          position = length (chunks_bytes chunks);
          truncate = false;
        })
  unfolding scan chunks_bytes note_chunks
  scan-whole base [] found all = refl
  scan-whole base (c ∷ chunks) found all =
      let bytes = chunks_bytes (c ∷ chunks) in
      let torn : Chunk = record { body = []; entry = c.entry } in
      ap (λ b. scan zstd options base (suc (length bytes)) 0 b found) (sym (append-nil bytes))
      ∙ scan-chunks zstd options base (suc (length bytes)) 0 0 (c ∷ chunks) torn found all
          (omega arith) (omega (arith, length-chunk_bytes torn)) (omega arith)
      ∙ ap
          (λ p. some (record {
            found = note_chunks base 0 (c ∷ chunks) found;
            position = p;
            truncate = false;
          }))
          (omega arith)

  -- Recovery went on through whole segments.
  abbrev Passed : Segments → Recovering → Recovering → Type 0
  Passed segments s s' =
      (s'.index ≡ s.index ++ segments_index segments)
      × (s'.next_offset ≡ max s.next_offset (segments_next segments))
      × (s'.files.logs ≡ s.files.logs)
      × (s'.stats.bytes_truncated ≡ s.stats.bytes_truncated)

  recover_segments-whole :
      (segments : Segments) (s : Recovering)
      → All IsWhole segments
      → s.stop_after_corruption ≡ false
      → (s' : Recovering) × (recover_segments zstd no_fault options (segment_files segments) s
          ≡ returns (some s'))
        × Passed segments s s'
  unfolding recover_segments recover_segment segment_files segments_index segments_next note_segment
  recover_segments-whole [] s all going =
      (s, refl, (sym (append-nil s.index), omega arith, refl, refl))
  recover_segments-whole ((base, chunks) ∷ segments) s (whole, all) going =
      let found = note_chunks base 0 chunks (found_before s) in
      let bytes = chunks_bytes chunks in
      let s1 =
        note_segment base bytes
          (record { found = found; position = length bytes; truncate = false }) s in
      let (index, next) = note_chunks-found base 0 chunks (found_before s) in
      let (s', rest, (index', next', logs, cut)) = recover_segments-whole segments s1 all refl in
      let first : recover_segment zstd no_fault options base bytes s ≡ returns (some s1) =
        rw (recover_segment, going, scan-whole base chunks (found_before s) whole) in
      (
        s',
        rw (recover_segments, first) rest,
        (
          index'
              ∙ ap (λ l. l ++ segments_index segments) index
              ∙ append_assoc s.index (chunks_index base 0 chunks) (segments_index segments),
          omega (arith, next, next'),
          logs,
          cut,
        ),
      )

  -- Recovery of whole segments reads them in order and truncates nothing.
  pub recover-whole :
      (segments : Segments) (files : Directory)
      → All IsWhole segments
      → files.logs ≡ segment_files segments
      → Rising (segments_next segments) (segments_index segments)
      → (log : PartitionLog) × (recover zstd no_fault options files ≡ returns (some log))
        × (log.index ≡ segments_index segments)
        × (log.next_offset ≡ segments_next segments)
        × (log.files.logs ≡ files.logs)
        × (log.recovery_stats.bytes_truncated ≡ 0)
  unfolding recover
  recover-whole segments files all laid rising =
      let (s, done, (index, next, logs, cut)) =
        recover_segments-whole segments (recovery_start files) all refl in
      let read =
        ap (λ l. recover_segments zstd no_fault options l (recovery_start files)) laid ∙ done in
      (
        recovered options s,
        rw (recover, read),
        ap sort_by_offset index
            ∙ sort_by_offset-Rising (segments_next segments) (segments_index segments) rising,
        next ∙ omega arith,
        logs,
        cut,
      )
