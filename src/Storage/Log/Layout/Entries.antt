-- ===== src/Storage/Log/Layout/Entries.antt =====
-- The records and batches that the segments of a partition hold, in their order
-- (src/storage/partition_log.cpp), and those that a write adds.
use bolt_stream.Base.{
  ℕ, ◌<◌, ◌≤◌, ◌==◌, ◌≡◌, refl, ap, sym, ◌∙◌, List, [], ◌∷◌, ◌++◌, ltb, All, Bool-cases, ltb→lt,
  inl, inr, arith, append-nil, append_assoc, ==_iff,
}
use bolt_stream.OrderedMap.Laws.{IsSorted, IsSorted-tail, Above}
use bolt_stream.OrderedMap.Numbers.{number_key, number_IsOrdered}
use bolt_stream.Storage.Log.{Entry}
use bolt_stream.Storage.Log.Recover.Scan.{Chunk}
use bolt_stream.Storage.Log.Layout.{Segments, extend, Reaches}

unfoldable pub chunks_entries : List Chunk → List Entry
chunks_entries [] = []
chunks_entries (c ∷ chunks) = c.entry ∷ chunks_entries chunks

unfoldable pub segments_entries : Segments → List Entry
segments_entries [] = []
segments_entries ((base, chunks) ∷ segments) = chunks_entries chunks ++ segments_entries segments

chunks_entries-append :
    (some_chunks more : List Chunk)
    → chunks_entries (some_chunks ++ more) ≡ chunks_entries some_chunks ++ chunks_entries more
unfolding chunks_entries
chunks_entries-append [] more = refl
chunks_entries-append (c ∷ chunks) more = ap (λ l. c.entry ∷ l) (chunks_entries-append chunks more)

-- Above the segment that is written to there is nothing.
nothing_beyond :
    (base next low : ℕ) (segments : Segments)
    → base ≤ low
    → Above number_IsOrdered low segments
    → All (Reaches base next) segments
    → segments_entries segments ≡ []
unfolding segments_entries chunks_entries
nothing_beyond base next low [] h above all = refl
nothing_beyond base next low ((other, chunks) ∷ segments) h (over, above) (reaches, all) =
    let higher : low < other = ltb→lt low other over in
    let rest = nothing_beyond base next other segments (omega arith) above all in
    elim reaches [ inl empty ↦ rw (empty, rest) | inr (small, below) ↦ absurd (omega arith) ]

pub segments_entries-extend :
    (base next : ℕ) (more : List Chunk) (segments : Segments)
    → IsSorted number_IsOrdered segments
    → All (Reaches base next) segments
    → segments_entries (extend base more segments)
      ≡ segments_entries segments ++ chunks_entries more
unfolding segments_entries extend
segments_entries-extend base next more [] sorted all = append-nil (chunks_entries more)
segments_entries-extend base next more ((other, chunks) ∷ segments) sorted (reaches, all) =
    let here = chunks_entries chunks in
    let new = chunks_entries more in
    elim (Bool-cases (other == base)) [
      | inl same ↦
          let e : other ≡ base = (==_iff other base).0 same in
          let rest = nothing_beyond base next other segments (omega (arith, e)) sorted all in
          rw (same, rest)
            (append-nil (chunks_entries (chunks ++ more))
              ∙ chunks_entries-append chunks more
              ∙ ap (λ l. l ++ new) (sym (append-nil here)))
      | inr differs ↦ elim (Bool-cases (ltb base other)) [
        | inl before ↦
            let nothing : here ++ segments_entries segments ≡ [] =
              nothing_beyond base next base ((other, chunks) ∷ segments) (omega arith)
                (before, sorted) (reaches, all) in
            rw (differs, before)
              (ap (λ l. new ++ l) nothing ∙ append-nil new ∙ ap (λ l. l ++ new) (sym nothing))
        | inr behind ↦
            let rest =
              segments_entries-extend base next more segments
                (IsSorted-tail number_IsOrdered other chunks segments sorted) all in
            rw (differs, behind)
              (ap (λ l. here ++ l) rest ∙ sym (append_assoc here (segments_entries segments) new))
      ]
    ]
