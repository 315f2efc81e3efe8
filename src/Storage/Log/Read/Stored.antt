-- ===== src/Storage/Log/Read/Stored.antt =====
-- `read_from` (src/storage/partition_log.cpp) on a log whose segments hold whole records and batches.
use bolt_stream.Base.{
  ℕ, ◌+◌, ◌-◌, ◌^◌, ◌==◌, ◌<◌, ◌≡◌, refl, ap, subst, sym, true, map, take, ◌∙◌, false, none, some,
  List, [], ◌∷◌, ◌++◌, ltb, ltb→le, length, drop, drop-append, drop-drop, take-append, append_assoc,
  length-append, All, Bytes, arith, Bool-cases, inl, inr, ==_iff,
}
use bolt_stream.Compression.{Zstd, returns}
use bolt_stream.OrderedMap.{find}
use bolt_stream.OrderedMap.Numbers.{number_key, number_IsOrdered}
use bolt_stream.Protocol.Wire.{write_u32}
use bolt_stream.Storage.Log.{LogOptions, PartitionLog}
use bolt_stream.Storage.Log.Recover.Scan.{
  Chunk, chunk_bytes, chunks_bytes, IsChunk, length-chunk_bytes, read_u32_be-write_u32,
}
use bolt_stream.Storage.Log.Layout.{Segments, segment_files, segments_index}
use bolt_stream.Storage.Log.Layout.Recovery.{IsWhole}
use bolt_stream.Storage.Log.Append.Durable.{IsLaid}
use bolt_stream.Storage.Log.Read.{read_body, read_record, read_entries, read_from}
use bolt_stream.Storage.Log.Read.Positions.{chunk_at}
use bolt_stream.Storage.Log.Read.Counted.{segments-IsCounted}
use bolt_stream.Storage.Log.Read.Limits.{from_offset, WithinLimits, read_entries-WithinLimits}
use bolt_stream.Storage.Log.Read.Held.{segments_held, Among, Stands, segments_index-Matches}
use bolt_stream.OrderedMap.Laws.{IsSorted, IsSorted-tail, find-Above}

drop-past : {A : Type 0} (k : ℕ) (xs ys : List A) → drop (length xs + k) (xs ++ ys) ≡ drop k ys
drop-past k xs ys = sym (drop-drop (length xs) k (xs ++ ys)) ∙ ap (drop k) (drop-append xs ys)

-- What stands behind a whole record or batch is of no account.
read_body-chunk_bytes :
    (c : Chunk) (rest : Bytes)
    → length c.body < 2 ^ 32
    → read_body (chunk_bytes c ++ rest) ≡ returns (length c.body, c.body)
unfolding read_body
read_body-chunk_bytes c rest short =
    let n : ℕ = length c.body in
    let (word, behind, size) = read_u32_be-write_u32 n (c.body ++ rest) short in
    let split : chunk_bytes c ++ rest ≡ write_u32 n ++ (c.body ++ rest) =
      append_assoc (write_u32 n) c.body rest in
    let long : ltb (length (write_u32 n ++ (c.body ++ rest))) 4 ≡ false = ground (arith, size) in
    let there : ltb (length (c.body ++ rest)) n ≡ false =
      ground (arith, length-append c.body rest) in
    ap read_body split ∙ rw (long, word, behind, there, take-append c.body rest)

module _ (zstd : Zstd) (options : LogOptions) where
  -- A record or batch that is found at a position is read there.
  read_body-chunk_at :
      (p : ℕ) (chunks : List Chunk) (c : Chunk)
      → All (IsChunk zstd options) chunks
      → chunk_at p chunks ≡ some c
      → IsChunk zstd options c
        × (read_body (drop p (chunks_bytes chunks)) ≡ returns (length c.body, c.body))
  unfolding chunk_at chunks_bytes
  read_body-chunk_at p [] c all e = cc e
  read_body-chunk_at p (x ∷ chunks) c (whole, all) e = elim (Bool-cases (p == 0)) [
    | inl first ↦
        let here : x ≡ c = cc (rw first at e) in
        let start : p ≡ 0 = (==_iff p 0).0 first in
        rw⁻¹ here (
          whole,
          ap (λ q. read_body (drop q (chunk_bytes x ++ chunks_bytes chunks))) start
              ∙ read_body-chunk_bytes x (chunks_bytes chunks) whole.short,
        )
    | inr further ↦ elim (Bool-cases (ltb p (4 + length x.body))) [
      | inl inside ↦ cc (rw (further, inside) at e)
      | inr past ↦
          let k : ℕ = p - (4 + length x.body) in
          let at : p ≡ length (chunk_bytes x) + k =
            omega (arith, ltb→le p (4 + length x.body) past, length-chunk_bytes x) in
          let (is_chunk, read) = read_body-chunk_at k chunks c all (rw (further, past) at e) in
          (
            is_chunk,
            ap (λ q. read_body (drop q (chunk_bytes x ++ chunks_bytes chunks))) at
                ∙ ap read_body (drop-past k (chunk_bytes x) (chunks_bytes chunks))
                ∙ read,
          )
    ]
  ]

  find-IsWhole :
      (base : ℕ) (segments : Segments) {chunks : List Chunk}
      → All (IsWhole zstd options) segments
      → find base segments ≡ some chunks
      → All (IsChunk zstd options) chunks
        × (find base (segment_files segments) ≡ some (chunks_bytes chunks))
  unfolding find segment_files
  find-IsWhole base [] all e = cc e
  find-IsWhole base ((other, others) ∷ segments) {chunks} (whole, all) e =
      elim (Bool-cases (other == base)) [
        | inl same ↦
            let here : others ≡ chunks = cc (rw same at e) in rw⁻¹ here (whole, rw same refl)
        | inr differs ↦
            let (is_whole, there) = find-IsWhole base segments all (rw differs at e) in
            (is_whole, rw differs there)
      ]

  find-Among :
      (base : ℕ) (chunks : List Chunk) (segments : Segments)
      → IsSorted number_IsOrdered segments
      → Among base chunks segments
      → find base segments ≡ some chunks
  unfolding find
  find-Among base chunks [] sorted among = absurd among
  find-Among base chunks ((other, others) ∷ segments) sorted (inl (same, equal)) =
      let here : (base == base) ≡ true = ground arith in rw (same, here) (ap some equal)
  find-Among base chunks ((other, others) ∷ segments) sorted (inr among) =
      let there =
        find-Among base chunks segments
          (IsSorted-tail number_IsOrdered other others segments sorted) among in
      elim (Bool-cases (other == base)) [
        | inr differs ↦ rw differs there
        | inl same ↦
            let nothing = find-Above number_IsOrdered other segments sorted in
            let equal = subst (λ b. find b segments ≡ none) ((==_iff other base).0 same) nothing in
            cc (equal, there)
      ]

  read_record-Stands :
      (segments : Segments) (base : ℕ) (chunks : List Chunk)
      → IsSorted number_IsOrdered segments
      → All (IsWhole zstd options) segments
      → Among base chunks segments
      → (p : ℕ) (c : Chunk) → chunk_at p chunks ≡ some c
      → Stands options (read_record zstd options (segment_files segments)) base p c
  unfolding read_record
  read_record-Stands segments base chunks sorted all among p c at e s q =
      let (whole, file) =
        find-IsWhole base segments all (find-Among base chunks segments sorted among) in
      let (is_chunk, body) = read_body-chunk_at p chunks c whole at in
      let file' = ap (λ b. find b (segment_files segments)) s ∙ file in
      let body' = ap (λ p. read_body (drop p (chunks_bytes chunks))) q ∙ body in
      rw (file', body', is_chunk.decoded)

-- On a log whose segments hold whole records and batches, `read_from` returns the first ones of the
-- records that the segments hold with the given offset or a higher one, in their order, where a record of
-- a batch has the batch's offset plus its place: at most `max_records`, and unless `max_bytes` is 0 or
-- there is only one, at most `max_bytes` bytes of records or batches with their length words. It returns
-- all of them, or one more would be beyond a limit.
pub read_from-WithinLimits :
    (zstd : Zstd) (log : PartitionLog) (offset max_records max_bytes : ℕ) (laid : IsLaid zstd log)
    → let held = from_offset offset (segments_held log.options laid.segments) in
      (k : ℕ) × (read_from zstd log offset max_records max_bytes
        ≡ returns (map (λ r. r.0) (take k held)))
      × WithinLimits max_records max_bytes 0 0 held k
unfolding read_from
read_from-WithinLimits zstd log offset max_records max_bytes laid =
    let read = read_record zstd log.options (segment_files laid.segments) in
    let matches =
      segments_index-Matches log.options read laid.segments
        (segments-IsCounted zstd log.options laid.segments laid.whole)
        (λ base chunks among.
          read_record-Stands zstd log.options laid.segments base chunks laid.sorted laid.whole
            among) in
    let (k, same, limits) =
      read_entries-WithinLimits read offset max_records max_bytes (segments_index laid.segments)
        (segments_held log.options laid.segments) 0 0 matches in
    (
      k,
      ap
            (λ logs.
              read_entries (read_record zstd log.options logs) offset max_records max_bytes
                log.index 0 0)
            laid.laid
          ∙ ap (λ index. read_entries read offset max_records max_bytes index 0 0) laid.indexed
          ∙ same,
      limits,
    )
