-- ===== src/Storage/Log/Layout/Extend.antt =====
-- More records and batches behind a segment: its file and the index (src/storage/partition_log.cpp).
use bolt_stream.Base.{
  ℕ, ◌+◌, ◌<◌, ◌≤◌, ◌==◌, max, ◌≡◌, refl, ap, subst, sym, ◌∙◌, List, [], ◌∷◌, ◌++◌, length, ltb,
  All, Bytes, Bool-cases, ltb→lt, inl, inr, arith, append-nil, append_assoc, length-append, ==_iff,
}
use bolt_stream.OrderedMap.{find, insert}
use bolt_stream.OrderedMap.Laws.{
  IsSorted, IsSorted-tail, IsSorted-insert, Above, Above-mono, find-Above,
}
use bolt_stream.OrderedMap.Numbers.{number_key, number_IsOrdered}
use bolt_stream.Storage.Log.{content, append_to}
use bolt_stream.Storage.Log.Recover.{entry_index}
use bolt_stream.Storage.Log.Recover.Scan.{Chunk, chunk_bytes, chunks_bytes, length-chunk_bytes}
use bolt_stream.Storage.Log.Layout.{
  Segments, segment_files, chunks_index, chunks_next, segments_index, segments_next, chunks_at,
  extend, Reaches,
}

chunks_bytes-append :
    (some_chunks more : List Chunk)
    → chunks_bytes (some_chunks ++ more) ≡ chunks_bytes some_chunks ++ chunks_bytes more
unfolding chunks_bytes
chunks_bytes-append [] more = refl
chunks_bytes-append (c ∷ chunks) more =
    ap (λ b. chunk_bytes c ++ b) (chunks_bytes-append chunks more)
    ∙ sym (append_assoc (chunk_bytes c) (chunks_bytes chunks) (chunks_bytes more))

chunks_index-append :
    (base position : ℕ) (some_chunks more : List Chunk)
    → chunks_index base position (some_chunks ++ more)
      ≡ chunks_index base position some_chunks
        ++ chunks_index base (position + length (chunks_bytes some_chunks)) more
unfolding chunks_index chunks_bytes
chunks_index-append base position [] more = ap (λ p. chunks_index base p more) (omega arith)
chunks_index-append base position (c ∷ chunks) more =
    let e : position + 4 + length c.body + length (chunks_bytes chunks)
        ≡ position + length (chunk_bytes c ++ chunks_bytes chunks) =
      omega (arith, length-append (chunk_bytes c) (chunks_bytes chunks), length-chunk_bytes c) in
    let here = entry_index base position (length c.body) c.entry in
    ap (λ l. here ++ l)
      (chunks_index-append base (position + 4 + length c.body) chunks more
        ∙ ap
            (λ p.
              chunks_index base (position + 4 + length c.body) chunks ++ chunks_index base p more)
            e)
    ∙ sym (
        append_assoc here (chunks_index base (position + 4 + length c.body) chunks)
          (chunks_index base (position + length (chunk_bytes c ++ chunks_bytes chunks)) more))

chunks_next-append :
    (some_chunks more : List Chunk)
    → chunks_next (some_chunks ++ more) ≡ max (chunks_next some_chunks) (chunks_next more)
unfolding chunks_next
chunks_next-append [] more = omega arith
chunks_next-append (c ∷ chunks) more = omega (arith, chunks_next-append chunks more)

pub content-segment_files :
    (base : ℕ) (segments : Segments)
    → content (find base (segment_files segments)) ≡ chunks_bytes (chunks_at (find base segments))
unfolding find segment_files chunks_bytes
content-segment_files base [] = refl
content-segment_files base ((other, chunks) ∷ segments) = elim (Bool-cases (other == base)) [
  | inl same ↦ rw same
  | inr differs ↦ rw differs (content-segment_files base segments)
]

insert-segment_files :
    (base : ℕ) (chunks : List Chunk) (segments : Segments)
    → insert base (chunks_bytes chunks) (segment_files segments)
      ≡ segment_files (insert base chunks segments)
unfolding insert segment_files
insert-segment_files base chunks [] = refl
insert-segment_files base chunks ((other, others) ∷ segments) =
    let entry : ℕ × Bytes = (other, chunks_bytes others) in
    let rest = insert-segment_files base chunks segments in
    elim (Bool-cases (other == base)) [
      | inl same ↦ rw same
      | inr differs ↦ elim (Bool-cases (ltb base other)) [
        | inl before ↦ rw (differs, before)
        | inr behind ↦ rw (differs, behind) (ap (λ l. entry ∷ l) rest)
      ]
    ]

extend-insert :
    (base : ℕ) (more : List Chunk) (segments : Segments) (chunks : List Chunk)
    → IsSorted number_IsOrdered segments
    → chunks_at (find base segments) ++ more ≡ chunks
    → insert base chunks segments ≡ extend base more segments
unfolding extend insert find
extend-insert base more [] v sorted e = ap (λ l. (base, l) ∷ []) (sym e)
extend-insert base more ((other, chunks) ∷ segments) v sorted e =
    elim (Bool-cases (other == base)) [
      | inl same ↦ rw same (ap (λ l. (base, l) ∷ segments) (sym (rw same at e)))
      | inr differs ↦ elim (Bool-cases (ltb base other)) [
        | inl before ↦
            let missing =
              find-Above number_IsOrdered base segments
                (Above-mono number_IsOrdered base other segments before sorted) in
            rw (differs, before)
              (ap (λ l. (base, l) ∷ (other, chunks) ∷ segments) (sym (rw (differs, missing) at e)))
        | inr behind ↦
            rw (differs, behind)
              (ap (λ l. (other, chunks) ∷ l)
                (extend-insert base more segments v
                  (IsSorted-tail number_IsOrdered other chunks segments sorted) (rw differs at e)))
      ]
    ]

-- Chunks that are appended to a file are chunks of its segment.
pub append_to-segment_files :
    (base : ℕ) (more : List Chunk) (segments : Segments)
    → IsSorted number_IsOrdered segments
    → append_to base (chunks_bytes more) (segment_files segments)
      ≡ segment_files (extend base more segments)
unfolding append_to
append_to-segment_files base more segments sorted =
    let before = content-segment_files base segments in
    ap (λ b. insert base (b ++ chunks_bytes more) (segment_files segments)) before
    ∙ ap (λ b. insert base b (segment_files segments))
        (sym (chunks_bytes-append (chunks_at (find base segments)) more))
    ∙ insert-segment_files base (chunks_at (find base segments) ++ more) segments
    ∙ ap segment_files
        (extend-insert base more segments (chunks_at (find base segments) ++ more) sorted refl)

pub IsSorted-extend :
    (base : ℕ) (more : List Chunk) (segments : Segments)
    → IsSorted number_IsOrdered segments
    → IsSorted number_IsOrdered (extend base more segments)
IsSorted-extend base more segments sorted =
    let chunks = chunks_at (find base segments) ++ more in
    subst (IsSorted number_IsOrdered) (extend-insert base more segments chunks sorted refl)
      (IsSorted-insert number_IsOrdered base chunks segments sorted)

-- Above the segment that is written to there is nothing.
empty_beyond :
    (base next low : ℕ) (segments : Segments)
    → base ≤ low
    → Above number_IsOrdered low segments
    → All (Reaches base next) segments
    → segments_index segments ≡ []
unfolding segments_index chunks_index
empty_beyond base next low [] h above all = refl
empty_beyond base next low ((other, chunks) ∷ segments) h (over, above) (reaches, all) =
    let higher : low < other = ltb→lt low other over in
    let rest = empty_beyond base next other segments (omega arith) above all in
    elim reaches [ inl empty ↦ rw (empty, rest) | inr (small, below) ↦ absurd (omega arith) ]

pub segments_index-extend :
    (base next : ℕ) (more : List Chunk) (segments : Segments)
    → IsSorted number_IsOrdered segments
    → All (Reaches base next) segments
    → segments_index (extend base more segments)
      ≡ segments_index segments
        ++ chunks_index base (length (chunks_bytes (chunks_at (find base segments)))) more
unfolding segments_index extend find chunks_bytes
segments_index-extend base next more [] sorted all = append-nil (chunks_index base 0 more)
segments_index-extend base next more ((other, chunks) ∷ segments) sorted (reaches, all) =
    elim (Bool-cases (other == base)) [
      | inl same ↦
          let e : other ≡ base = (==_iff other base).0 same in
          let rest = empty_beyond base next other segments (omega (arith, e)) sorted all in
          let size : ℕ = length (chunks_bytes chunks) in
          rw (same, rest, e)
            (append-nil (chunks_index base 0 (chunks ++ more))
              ∙ chunks_index-append base 0 chunks more
              ∙ ap (λ p. chunks_index base 0 chunks ++ chunks_index base p more)
                  (unfold chunks_bytes in omega arith)
              ∙ ap (λ l. l ++ chunks_index base size more)
                  (sym (append-nil (chunks_index base 0 chunks))))
      | inr differs ↦ elim (Bool-cases (ltb base other)) [
        | inl before ↦
            let missing =
              find-Above number_IsOrdered base segments
                (Above-mono number_IsOrdered base other segments before sorted) in
            let nothing : chunks_index other 0 chunks ++ segments_index segments ≡ [] =
              empty_beyond base next base ((other, chunks) ∷ segments) (omega arith)
                (before, sorted) (reaches, all) in
            rw (differs, before, missing)
              (ap (λ l. chunks_index base 0 more ++ l) nothing
                ∙ append-nil (chunks_index base 0 more)
                ∙ ap (λ l. l ++ chunks_index base 0 more) (sym nothing))
        | inr behind ↦
            let rest =
              segments_index-extend base next more segments
                (IsSorted-tail number_IsOrdered other chunks segments sorted) all in
            rw (differs, behind)
              (ap (λ l. chunks_index other 0 chunks ++ l) rest
                ∙ sym (
                    append_assoc (chunks_index other 0 chunks) (segments_index segments) (
                      chunks_index base (length (chunks_bytes (chunks_at (find base segments))))
                        more)))
      ]
    ]

pub segments_next-extend :
    (base : ℕ) (more : List Chunk) (segments : Segments)
    → segments_next (extend base more segments) ≡ max (segments_next segments) (chunks_next more)
unfolding segments_next extend
segments_next-extend base more [] = omega arith
segments_next-extend base more ((other, chunks) ∷ segments) =
    ground (arith, chunks_next-append chunks more, segments_next-extend base more segments)

-- What holds of the segments holds of the extended ones, if it holds of the one that is extended.
pub All-extend :
    (P : ℕ × List Chunk → Type 0) (base : ℕ) (more : List Chunk) (segments : Segments)
    → All P segments
    → P (base, more)
    → ((chunks : List Chunk) → P (base, chunks) → P (base, chunks ++ more))
    → All P (extend base more segments)
unfolding extend
All-extend P base more [] all new longer = (new, tt)
All-extend P base more ((other, chunks) ∷ segments) (here, all) new longer =
    elim (Bool-cases (other == base)) [
      | inl same ↦
          rw same
            (longer chunks (subst (λ b. P (b, chunks)) ((==_iff other base).0 same) here), all)
      | inr differs ↦ elim (Bool-cases (ltb base other)) [
        | inl before ↦ rw (differs, before) (new, (here, all))
        | inr behind ↦ rw (differs, behind) (here, All-extend P base more segments all new longer)
      ]
    ]
