-- ===== src/Storage/Log/Read/Held.antt =====
-- The records that the segments hold, and the entries of the index that lead to them
-- (src/storage/partition_log.cpp).
use bolt_stream.Base.{
  ℕ, zero, suc, ◌+◌, ◌/◌, ◌%◌, ◌^◌, ◌≡◌, refl, ap, ◌∙◌, some, List, [], ◌∷◌, ◌++◌, length, All,
  arith, ◌⊎◌, inl, inr,
}
use bolt_stream.Compression.{Outcome}
use bolt_stream.Protocol.Batch.{BatchRecord}
use bolt_stream.Storage.Records.{Record}
use bolt_stream.Storage.Batches.{BatchMetadata}
use bolt_stream.Storage.Log.{LogOptions, IndexEntry, Entry, plain, batched, batch_index}
use bolt_stream.Storage.Log.Recover.{entry_index}
use bolt_stream.Storage.Log.Recover.Scan.{Chunk}
use bolt_stream.Storage.Log.Layout.{Segments, chunks_index, segments_index}
use bolt_stream.Storage.Log.Read.{nth, record_of, record_of_batch, with_size}
use bolt_stream.Storage.Log.Read.Positions.{chunk_at, chunk_at-past}
use bolt_stream.Storage.Log.Read.Limits.{Matches}

-- The records of a batch from `index` on, with the bytes that the batch takes.
unfoldable pub batch_held :
    LogOptions → BatchMetadata → ℕ → ℕ → List BatchRecord → List (Record × ℕ)
batch_held options m size index [] = []
batch_held options m size index (r ∷ records) =
    (
      record {
        metadata = record {
          topic = options.topic;
          partition = options.partition_id;
          offset = (m.base_offset + index) % 2 ^ 64;
          timestamp_unix_ns = m.timestamp_unix_ns;
          encoded_byte_size = m.stored_bytes / m.record_count;
        };
        key = r.key;
        value = r.message;
      },
      size,
    )
    ∷ batch_held options m size (index + 1) records

abbrev pub entry_held : LogOptions → ℕ → Entry → List (Record × ℕ)
entry_held options size (plain r) = (r.stored, size) ∷ []
entry_held options size (batched b) = batch_held options b.metadata size 0 b.records

unfoldable pub chunks_held : LogOptions → List Chunk → List (Record × ℕ)
chunks_held options [] = []
chunks_held options (c ∷ chunks) =
    entry_held options (length c.body) c.entry ++ chunks_held options chunks

unfoldable pub segments_held : LogOptions → Segments → List (Record × ℕ)
segments_held options [] = []
segments_held options ((base, chunks) ∷ segments) =
    chunks_held options chunks ++ segments_held options segments

-- A batch has as many records as its header says.
abbrev pub IsCounted : Entry → Type 0
IsCounted (plain r) = Unit
IsCounted (batched b) = length b.records ≡ b.metadata.record_count

-- The segment is there.
abbrev pub Among : ℕ → List Chunk → Segments → Type 0
Among base chunks [] = ⊥
Among base chunks ((other, others) ∷ segments) =
    ((other ≡ base) × (others ≡ chunks)) ⊎ Among base chunks segments

module _ (options : LogOptions) (read : IndexEntry → Outcome (Record × ℕ)) where
  Matches-append :
      (entries more : List IndexEntry) (records others : List (Record × ℕ))
      → Matches read entries records
      → Matches read more others
      → Matches read (entries ++ more) (records ++ others)
  Matches-append [] more [] others h g = g
  Matches-append [] more (r ∷ records) others h g = absurd h
  Matches-append (e ∷ entries) more [] others h g = absurd h
  Matches-append (e ∷ entries) more ((r, size) ∷ records) others (at, long, got, h) g =
      (at, long, got, Matches-append entries more records others h g)

  -- At every entry with this place in the file stands this record or batch.
  abbrev pub Stands : ℕ → ℕ → Chunk → Type 0
  Stands base position c =
      (e : IndexEntry)
      → e.segment ≡ base
      → e.file_position ≡ position
      → read e ≡ with_size (length c.body) (record_of options e c.entry)

  batch_index-Matches :
      (base position : ℕ) (c : Chunk) (m : BatchMetadata) (all rest : List BatchRecord)
      (left index : ℕ)
      → ((e : IndexEntry)
          → e.segment ≡ base
          → e.file_position ≡ position
          → read e
            ≡ with_size (length c.body) (record_of_batch options e m (nth e.record_index all)))
      → length rest ≡ left
      → ((i : ℕ) → nth (index + i) all ≡ nth i rest)
      → Matches read
          (batch_index left index m.base_offset position (length c.body) base m.record_count)
          (batch_held options m (length c.body) index rest)
  unfolding batch_index batch_held nth
  batch_index-Matches base position c m all [] zero index stands e suffix = tt
  batch_index-Matches base position c m all [] (suc left) index stands e suffix =
      absurd (omega (arith, e))
  batch_index-Matches base position c m all (r ∷ rest) zero index stands e suffix =
      absurd (omega (arith, e))
  batch_index-Matches base position c m all (r ∷ rest) (suc left) index stands e suffix =
      let here : nth index all ≡ some r =
        ap (λ k. nth k all) {x = index} (omega arith) ∙ suffix 0 in
      (
        refl,
        refl,
        stands _ refl refl
            ∙ ap
                (λ o. with_size (length c.body) (
                  record_of_batch options
                    (record {
                      offset = (m.base_offset + index) % 2 ^ 64;
                      file_position = position;
                      record_bytes = length c.body;
                      segment = base;
                      record_index = index;
                      record_count = m.record_count;
                    })
                    m o))
                here,
        batch_index-Matches base position c m all rest left (index + 1) stands (omega (arith, e))
            (λ i.
              ap (λ k. nth k all) {x = index + 1 + i} {y = index + suc i} (omega arith)
              ∙ suffix (suc i)),
      )

  entry_index-Matches :
      (base position : ℕ) (c : Chunk) (entry : Entry)
      → ((e : IndexEntry)
          → e.segment ≡ base
          → e.file_position ≡ position
          → read e ≡ with_size (length c.body) (record_of options e entry))
      → IsCounted entry
      → Matches read
          (entry_index base position (length c.body) entry)
          (entry_held options (length c.body) entry)
  unfolding entry_index
  entry_index-Matches base position c (plain r) stands counted =
      (refl, refl, stands _ refl refl, tt)
  entry_index-Matches base position c (batched b) stands counted =
      batch_index-Matches base position c b.metadata b.records b.records b.metadata.record_count 0
        stands counted (λ i. ap (λ k. nth k b.records) {x = 0 + i} {y = i} (omega arith))

  chunks_index-Matches :
      (base position : ℕ) (chunks : List Chunk)
      → All (λ c. IsCounted (Chunk.entry c)) chunks
      → ((p : ℕ) (c : Chunk) → chunk_at p chunks ≡ some c → Stands base (position + p) c)
      → Matches read (chunks_index base position chunks) (chunks_held options chunks)
  unfolding chunks_index chunks_held chunk_at
  chunks_index-Matches base position [] counted stands = tt
  chunks_index-Matches base position (c ∷ chunks) (here, counted) stands =
      Matches-append (entry_index base position (length c.body) c.entry)
        (chunks_index base (position + 4 + length c.body) chunks)
        (entry_held options (length c.body) c.entry) (chunks_held options chunks)
        (entry_index-Matches base position c c.entry
          (λ e s p. stands 0 c refl e s (omega (arith, p))) here)
        (chunks_index-Matches base (position + 4 + length c.body) chunks counted (λ p d at e s q.
          stands (4 + length c.body + p) d (chunk_at-past p c chunks ∙ at) e s (omega (arith, q))))

  -- The entries of the index are those of the records, which are read where they stand.
  pub segments_index-Matches :
      (segments : Segments)
      → All (λ segment. All (λ c. IsCounted (Chunk.entry c)) segment.1) segments
      → ((base : ℕ) (chunks : List Chunk)
          → Among base chunks segments
          → (p : ℕ) (c : Chunk) → chunk_at p chunks ≡ some c
          → Stands base p c)
      → Matches read (segments_index segments) (segments_held options segments)
  unfolding segments_index segments_held
  segments_index-Matches [] counted stands = tt
  segments_index-Matches ((base, chunks) ∷ segments) (here, counted) stands =
      Matches-append (chunks_index base 0 chunks) (segments_index segments)
        (chunks_held options chunks) (segments_held options segments)
        (chunks_index-Matches base 0 chunks here
          (λ p c at e s q. stands base chunks (inl (refl, refl)) p c at e s (omega (arith, q))))
        (segments_index-Matches segments counted (λ b others among. stands b others (inr among)))
