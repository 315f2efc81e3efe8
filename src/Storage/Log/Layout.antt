-- ===== src/Storage/Log/Layout.antt =====
-- What the segments of a partition hold when nothing is torn (src/storage/partition_log.cpp): by base
-- offset, whole records and batches, in the order of the index.
pub mod Extend
pub mod Recovery
pub mod Entries
pub mod Ready
use bolt_stream.Base.{
  ℕ, ◌+◌, ◌<◌, ◌≤◌, ◌==◌, max, ◌≡◌, refl, ap, subst, sym, ◌∙◌, true, false, Option, none, some,
  List, [], ◌∷◌, ◌++◌, length, if◌then◌else◌, ltb, All, Bytes, Bool-cases, ltb→lt, ◌⊎◌, inl, inr,
  arith, append-nil, append_assoc, length-append, ==_iff,
}
use bolt_stream.OrderedMap.{find, insert}
use bolt_stream.OrderedMap.Laws.{
  IsSorted, IsSorted-tail, IsSorted-insert, Above, Above-mono, find-Above,
}
use bolt_stream.OrderedMap.Numbers.{number_key, number_IsOrdered}
use bolt_stream.Storage.Log.{Files, IndexEntry, content, append_to}
use bolt_stream.Storage.Log.Recover.{entry_index, entry_next}
use bolt_stream.Storage.Log.Recover.Scan.{Chunk, chunk_bytes, chunks_bytes, length-chunk_bytes}

abbrev pub Segments : Type 0
Segments = List (ℕ × List Chunk)

unfoldable pub segment_files : Segments → Files
segment_files [] = []
segment_files ((base, chunks) ∷ segments) = (base, chunks_bytes chunks) ∷ segment_files segments

unfoldable pub chunks_index : ℕ → ℕ → List Chunk → List IndexEntry
chunks_index base position [] = []
chunks_index base position (c ∷ chunks) =
    entry_index base position (length c.body) c.entry
    ++ chunks_index base (position + 4 + length c.body) chunks

unfoldable pub chunks_next : List Chunk → ℕ
chunks_next [] = 0
chunks_next (c ∷ chunks) = max (entry_next c.entry) (chunks_next chunks)

unfoldable pub segments_index : Segments → List IndexEntry
segments_index [] = []
segments_index ((base, chunks) ∷ segments) = chunks_index base 0 chunks ++ segments_index segments

unfoldable pub segments_next : Segments → ℕ
segments_next [] = 0
segments_next ((base, chunks) ∷ segments) = max (chunks_next chunks) (segments_next segments)

abbrev pub chunks_at : Option (List Chunk) → List Chunk
chunks_at none = []
chunks_at (some chunks) = chunks

-- More behind the segment at `base`.
unfoldable pub extend : ℕ → List Chunk → Segments → Segments
extend base more [] = (base, more) ∷ []
extend base more ((other, chunks) ∷ segments) =
    if other == base
    then (base, chunks ++ more) ∷ segments
    else if ltb base other
    then (base, more) ∷ (other, chunks) ∷ segments
    else (other, chunks) ∷ extend base more segments

-- A segment that is empty, or has its base up to `base` and below `next`.
abbrev pub Reaches : ℕ → ℕ → ℕ × List Chunk → Type 0
Reaches base next segment = (segment.1 ≡ []) ⊎ ((segment.0 ≤ base) × (segment.0 < next))
