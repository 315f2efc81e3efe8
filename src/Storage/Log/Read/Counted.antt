-- ===== src/Storage/Log/Read/Counted.antt =====
-- A batch that is decoded has as many records as its header says (src/storage/partition_log.cpp).
use bolt_stream.Base.{
  ℕ, zero, suc, ◌==◌, ◌%◌, ◌^◌, take, drop, ◌≡◌, refl, subst, Option, none, some, List, [], ◌∷◌,
  length, All, Bytes, Bool-cases, Option-cases, inl, inr, arith, ==_iff,
}
use bolt_stream.Compression.{Zstd, Outcome, returns, throws, decompress}
use bolt_stream.Protocol.Types.{Decoded, ok, err}
use bolt_stream.Protocol.Wire.{Reader, read_each, read_u16_be}
use bolt_stream.Protocol.Batch.{
  BatchRecord, record_set_end, record_set_entries, read_batch_record, decode_record_set,
}
use bolt_stream.Storage.Records.{DecodedRecord}
use bolt_stream.Storage.Batches.{
  BatchHead, read_batch_head, fixed_batch_body_bytes, DecodedBatch, batch_version, batch_records,
  batch_content, decode_batch,
}
use bolt_stream.Storage.Log.{LogOptions, Entry, as_plain, as_batched, decode_entry}
use bolt_stream.Storage.Log.Recover.Scan.{Chunk, IsChunk}
use bolt_stream.Storage.Log.Layout.{Segments}
use bolt_stream.Storage.Log.Layout.Recovery.{IsWhole}
use bolt_stream.Storage.Log.Read.Held.{IsCounted}

-- What is read are so many.
abbrev HasLength : ℕ → Option (List BatchRecord × Bytes) → Type 0
HasLength count none = Unit
HasLength count (some (records, rest)) = length records ≡ count

read_each-HasLength :
    (m : Reader BatchRecord) (count : ℕ) (bytes : Bytes) → HasLength count (read_each m count bytes)
unfolding read_each
read_each-HasLength m zero bytes = refl
read_each-HasLength m (suc count) bytes = elim (Option-cases (m bytes)) [
  | inl missing ↦ rw (HasLength, missing) tt
  | inr ((r, rest), read) ↦ elim (Option-cases (read_each m count rest)) [
    | inl missing ↦ rw (HasLength, read, missing) tt
    | inr ((records, more), others) ↦
        let n = subst (HasLength count) others (read_each-HasLength m count rest) in
        rw (HasLength, read, others) (omega (arith, n))
  ]
]

abbrev OkLength : ℕ → Decoded (List BatchRecord) → Type 0
OkLength count (ok records) = length records ≡ count
OkLength count (err code message) = Unit

record_set_end-OkLength :
    (count : ℕ) (o : Option (List BatchRecord × Bytes))
    → HasLength count o
    → OkLength count (record_set_end o)
record_set_end-OkLength count none h = tt
record_set_end-OkLength count (some (records, [])) h = h
record_set_end-OkLength count (some (records, b ∷ rest)) h = tt

record_set_entries-OkLength :
    (expected : ℕ) (o : Option (ℕ × Bytes)) → OkLength expected (record_set_entries expected o)
record_set_entries-OkLength expected none = tt
record_set_entries-OkLength expected (some (count, rest)) = elim (Bool-cases (count == expected)) [
  | inr differs ↦ rw differs tt
  | inl same ↦
      let e : count ≡ expected = (==_iff count expected).0 same in
      rw same (
        subst (λ n. OkLength n (record_set_end (read_each read_batch_record count rest))) e
          (record_set_end-OkLength count (read_each read_batch_record count rest)
            (read_each-HasLength read_batch_record count rest)))
]

abbrev Counts : Outcome DecodedBatch → Type 0
Counts (throws message) = Unit
Counts (returns b) = length b.records ≡ b.metadata.record_count

batch_records-Counts :
    (topic : Bytes) (partition batch_bytes : ℕ) (h : BatchHead) (d : Decoded (List BatchRecord))
    → OkLength h.record_count d
    → Counts (batch_records topic partition batch_bytes h d)
batch_records-Counts topic partition batch_bytes h (ok records) n = n
batch_records-Counts topic partition batch_bytes h (err code message) n = tt

batch_content-Counts :
    (topic : Bytes) (partition batch_bytes : ℕ) (h : BatchHead) (raw : Outcome Bytes)
    → Counts (batch_content topic partition batch_bytes h raw)
unfolding decode_record_set
batch_content-Counts topic partition batch_bytes h (throws message) = tt
batch_content-Counts topic partition batch_bytes h (returns raw) =
    batch_records-Counts topic partition batch_bytes h (decode_record_set raw h.record_count)
      (record_set_entries-OkLength h.record_count _)

decode_batch-Counts :
    (zstd : Zstd) (topic : Bytes) (partition batch_bytes : ℕ) (bytes : Bytes) (maximum : ℕ)
    → Counts (decode_batch zstd topic partition batch_bytes bytes maximum)
unfolding decode_batch
decode_batch-Counts zstd topic partition batch_bytes bytes maximum =
    let h = read_batch_head bytes in
    let content = batch_content-Counts topic partition batch_bytes h (
      decompress zstd (h.codec % 2 ^ 8) (take h.encoded_bytes (drop fixed_batch_body_bytes bytes))
        h.uncompressed_bytes maximum) in
    ground (arith, content)

abbrev EntryCounts : Outcome Entry → Type 0
EntryCounts (throws message) = Unit
EntryCounts (returns entry) = IsCounted entry

as_batched-EntryCounts : (o : Outcome DecodedBatch) → Counts o → EntryCounts (as_batched o)
as_batched-EntryCounts (throws message) h = tt
as_batched-EntryCounts (returns b) h = h

as_plain-EntryCounts : (o : Outcome DecodedRecord) → EntryCounts (as_plain o)
as_plain-EntryCounts (throws message) = tt
as_plain-EntryCounts (returns r) = tt

decode_entry-EntryCounts :
    (zstd : Zstd) (options : LogOptions) (record_bytes : ℕ) (bytes : Bytes)
    → EntryCounts (decode_entry zstd options record_bytes bytes)
unfolding decode_entry
decode_entry-EntryCounts zstd options record_bytes bytes =
    elim (Bool-cases (read_u16_be bytes 0 == batch_version)) [
      | inl batch ↦ rw batch (
          as_batched-EntryCounts _ (
            decode_batch-Counts zstd options.topic options.partition_id record_bytes bytes
              options.max_uncompressed_batch_bytes))
      | inr other ↦ rw other (as_plain-EntryCounts _)
    ]

module _ (zstd : Zstd) (options : LogOptions) where
  chunks-IsCounted :
      (chunks : List Chunk)
      → All (IsChunk zstd options) chunks
      → All (λ c. IsCounted (Chunk.entry c)) chunks
  chunks-IsCounted [] all = tt
  chunks-IsCounted (c ∷ chunks) (whole, all) = (
    subst EntryCounts whole.decoded (decode_entry-EntryCounts zstd options (length c.body) c.body),
    chunks-IsCounted chunks all,
  )

  pub segments-IsCounted :
      (segments : Segments)
      → All (IsWhole zstd options) segments
      → All (λ segment. All (λ c. IsCounted (Chunk.entry c)) segment.1) segments
  segments-IsCounted [] all = tt
  segments-IsCounted ((base, chunks) ∷ segments) (whole, all) =
      (chunks-IsCounted chunks whole, segments-IsCounted segments all)
