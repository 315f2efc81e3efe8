-- ===== src/Storage/Log/Layout/Ready.antt =====
-- Where the next record or batch goes in a partition whose segments hold whole ones
-- (src/storage/partition_log.cpp), and what a write there makes of it.
use bolt_stream.Base.{
  ℕ, ◌+◌, ◌<◌, ◌≤◌, ◌==◌, max, ◌≡◌, refl, ap, subst, sym, ◌∙◌, true, some, List, [], ◌∷◌, ◌++◌,
  length, All, Bytes, arith, ◌⊎◌, inl, inr, append-nil, length-append, if◌then◌else◌, Bool-cases,
  ==_iff,
}
use bolt_stream.Compression.{Zstd}
use bolt_stream.OrderedMap.{find}
use bolt_stream.OrderedMap.Laws.{IsSorted}
use bolt_stream.OrderedMap.Numbers.{number_key, number_IsOrdered}
use bolt_stream.Storage.Log.{LogOptions, Files, Directory, IndexEntry, Entry, content, append_to}
use bolt_stream.Storage.Log.Recover.{entry_index, entry_next}
use bolt_stream.Storage.Log.Recover.Scan.{Chunk, chunk_bytes, chunks_bytes, IsChunk}
use bolt_stream.Storage.Log.Append.{write_at}
use bolt_stream.Storage.Log.Append.Grown.{find-append_to}
use bolt_stream.Storage.Log.Layout.{
  Segments, segment_files, chunks_index, chunks_next, segments_index, segments_next, chunks_at,
  extend, Reaches,
}
use bolt_stream.Storage.Log.Layout.Entries.{
  chunks_entries, segments_entries, segments_entries-extend,
}
use bolt_stream.Storage.Log.Layout.Extend.{
  content-segment_files, append_to-segment_files, segments_index-extend, segments_next-extend,
  IsSorted-extend, All-extend,
}
use bolt_stream.Storage.Log.Layout.Recovery.{first_offset, Rising, IsWhole}

-- The segment at `base` has `size` bytes; no later segment holds anything.
pub record Ready (zstd : Zstd) (options : LogOptions) (files : Directory) (index : List IndexEntry)
    (next base size : ℕ) : Type 0 where
  pub segments : Segments
  pub laid : files.logs ≡ segment_files segments
  pub sorted : IsSorted number_IsOrdered segments
  pub indexed : index ≡ segments_index segments
  pub upto : next ≡ segments_next segments
  pub rising : Rising next index
  pub whole : All (IsWhole zstd options) segments
  pub reaches : All (Reaches base next) segments
  pub sized : size ≡ length (content (find base files.logs))
  pub base_small : base ≤ next

-- The segments hold these records and batches.
abbrev pub Holding :
    Zstd → LogOptions → Directory → List IndexEntry → ℕ → ℕ → ℕ → List Entry → Type 0
Holding zstd options files index next base size held =
    (r : Ready zstd options files index next base size) × (segments_entries r.segments ≡ held)

nothing_at_next :
    (base next : ℕ) (segments : Segments)
    → All (Reaches base next) segments
    → chunks_at (find next segments) ≡ []
unfolding find
nothing_at_next base next [] all = refl
nothing_at_next base next ((other, chunks) ∷ segments) (reaches, all) =
    elim (Bool-cases (other == next)) [
      | inl same ↦
          let e : other ≡ next = (==_iff other next).0 same in
          rw same (elim reaches [ inl empty ↦ empty | inr (_, below) ↦ absurd (omega (arith, e)) ])
      | inr differs ↦ rw differs (nothing_at_next base next segments all)
    ]

Reaches-later :
    (base base' next next' : ℕ) (segments : Segments)
    → base ≤ base'
    → next ≤ next'
    → All (Reaches base next) segments
    → All (Reaches base' next') segments
Reaches-later base base' next next' [] h g all = tt
Reaches-later base base' next next' ((other, chunks) ∷ segments) h g (reaches, all) = (
  elim reaches [ inl empty ↦ inl empty | inr (small, below) ↦ inr (omega arith, omega arith) ],
  Reaches-later base base' next next' segments h g all,
)

content-append_to :
    (base : ℕ) (bytes : Bytes) (files : Files)
    → content (find base (append_to base bytes files)) ≡ content (find base files) ++ bytes
content-append_to base bytes files =
    let same : (base == base) ≡ true = ground arith in
    ap content (
      find-append_to base base bytes files
      ∙ ap (λ t. if t then some (content (find base files) ++ bytes) else find base files) same)

Rising-append :
    (next next' : ℕ) (entries more : List IndexEntry)
    → Rising next entries
    → Rising next' more
    → first_offset next' more ≡ next
    → Rising next' (entries ++ more)
Rising-append next next' [] more h g e = g
Rising-append next next' (x ∷ []) more (less, h) g e = (omega (arith, e), g)
Rising-append next next' (x ∷ y ∷ entries) more (less, h) g e =
    (less, Rising-append next next' (y ∷ entries) more h g e)

All-append :
    (P : Chunk → Type 0) (some_chunks more : List Chunk)
    → All P some_chunks
    → All P more
    → All P (some_chunks ++ more)
All-append P [] more h g = g
All-append P (c ∷ chunks) more h g = (h.0, All-append P chunks more h.1 g)

module _ (zstd : Zstd) (options : LogOptions) (files : Directory) (index : List IndexEntry)
    (next base size : ℕ) (held : List Entry) (r : Ready zstd options files index next base size)
    (holds : segments_entries r.segments ≡ held) where
  -- A new segment begins at the next offset.
  pub Ready-roll : Holding zstd options files index next next 0 held
  Ready-roll = (
    record {
      segments = r.segments;
      laid = r.laid;
      sorted = r.sorted;
      indexed = r.indexed;
      upto = r.upto;
      rising = r.rising;
      whole = r.whole;
      reaches = Reaches-later base next next next r.segments r.base_small (omega arith) r.reaches;
      sized = sym (
          ap (λ f. length (content (find next f))) r.laid
          ∙ ap length (content-segment_files next r.segments)
          ∙ ap (λ c. length (chunks_bytes c)) (nothing_at_next base next r.segments r.reaches)
          ∙ unfold chunks_bytes in refl);
      base_small = omega arith;
    },
    holds,
  )

  position : length (chunks_bytes (chunks_at (find base r.segments))) ≡ size
  position = sym (
      r.sized
      ∙ ap (λ f. length (content (find base f))) r.laid
      ∙ ap length (content-segment_files base r.segments))

  -- More whole records or batches behind the segment.
  Ready-extend :
      (more : List Chunk) (bytes : Bytes) (indexes : Files) (index' : List IndexEntry)
      (next' size' : ℕ)
      → All (IsChunk zstd options) more
      → chunks_bytes more ≡ bytes
      → index ++ chunks_index base size more ≡ index'
      → next' ≡ max next (chunks_next more)
      → size' ≡ size + length bytes
      → ((more ≡ []) ⊎ (next < next'))
      → Rising next' index'
      → Holding zstd options
          (record { logs = append_to base bytes files.logs; indexes = indexes })
          index'
          next'
          base
          size'
          (held ++ chunks_entries more)
  Ready-extend more bytes indexes index' next' size' whole written indexed upto sized grows rising =
      (
        record {
          segments = extend base more r.segments;
          laid =
              ap (append_to base bytes) r.laid
              ∙ ap (λ b. append_to base b (segment_files r.segments)) (sym written)
              ∙ append_to-segment_files base more r.segments r.sorted;
          sorted = IsSorted-extend base more r.segments r.sorted;
          indexed =
              sym indexed
              ∙ ap (λ l. l ++ chunks_index base size more) r.indexed
              ∙ ap (λ p. segments_index r.segments ++ chunks_index base p more) (sym position)
              ∙ sym (segments_index-extend base next more r.segments r.sorted r.reaches);
          upto = omega (arith, r.upto, upto, segments_next-extend base more r.segments);
          rising = rising;
          whole =
              All-extend (IsWhole zstd options) base more r.segments r.whole whole
                (λ chunks here. All-append (IsChunk zstd options) chunks more here whole);
          reaches =
              All-extend (Reaches base next') base more r.segments
                (Reaches-later base base next next' r.segments (omega arith) (omega (arith, upto))
                  r.reaches)
                (elim grows [
                  | inl empty ↦ inl empty
                  | inr less ↦ inr (omega arith, omega (arith, r.base_small))
                ])
                (λ chunks here. elim grows [
                  | inl empty ↦ elim here [
                    | inl none_there ↦ inl (rw (empty, none_there))
                    | inr (small, below) ↦ inr (small, below)
                  ]
                  | inr less ↦ inr (omega arith, omega (arith, r.base_small))
                ]);
          sized = omega (
            arith,
            sized,
            r.sized,
            ap length (content-append_to base bytes files.logs),
            length-append (content (find base files.logs)) bytes,
          );
          base_small = omega (arith, r.base_small, upto);
        },
        segments_entries-extend base next more r.segments r.sorted r.reaches
            ∙ ap (λ l. l ++ chunks_entries more) holds,
      )

  -- Opening the segment's files to append.
  pub Ready-open :
      (indexes : Files)
      → Holding zstd options
          (record { logs = append_to base [] files.logs; indexes = indexes })
          index
          next
          base
          size
          held
  unfolding chunks_bytes chunks_index chunks_next chunks_entries
  Ready-open indexes =
      subst
        (λ l.
          Holding zstd options (record { logs = append_to base [] files.logs; indexes = indexes })
            index next base size l)
        (append-nil held)
        (Ready-extend [] [] indexes index next size tt refl (append-nil index) (omega arith)
          (omega arith) (inl refl) r.rising)

  -- Writing a record or a batch there.
  pub Ready-write :
      (c : Chunk) (entry : Bytes) (next' : ℕ)
      → IsChunk zstd options c
      → entry_next c.entry ≡ next'
      → next < next'
      → Rising next' (entry_index base size (length c.body) c.entry)
      → first_offset next' (entry_index base size (length c.body) c.entry) ≡ next
      → Holding zstd options
          (write_at base (chunk_bytes c) entry files)
          (index ++ entry_index base size (length c.body) c.entry)
          next'
          base
          (size + length (chunk_bytes c))
          (held ++ c.entry ∷ [])
  unfolding chunks_bytes chunks_index chunks_next chunks_entries write_at
  Ready-write c entry next' chunk after less rising first =
      let entries = entry_index base size (length c.body) c.entry in
      Ready-extend (c ∷ []) (chunk_bytes c) (append_to base entry files.indexes) (index ++ entries)
        next' (size + length (chunk_bytes c)) (chunk, tt) (append-nil (chunk_bytes c))
        (ap (λ l. index ++ l) (append-nil entries)) (omega (arith, after)) refl (inr less)
        (Rising-append next next' index entries r.rising rising first)
