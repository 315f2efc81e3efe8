-- ===== src/Storage/Log/Read/Positions.antt =====
-- The record or batch at a position of a segment (src/storage/partition_log.cpp).
use bolt_stream.Base.{
  ℕ, ◌+◌, ◌-◌, ◌==◌, ◌≡◌, false, Option, none, some, List, [], ◌∷◌, ltb, if◌then◌else◌, length,
  arith,
}
use bolt_stream.OrderedMap.Numbers.{number_key}
use bolt_stream.Storage.Log.Recover.Scan.{Chunk}

-- The record or batch that begins at a position.
unfoldable pub chunk_at : ℕ → List Chunk → Option Chunk
chunk_at position [] = none
chunk_at position (c ∷ chunks) =
    let later = chunk_at (position - (4 + length c.body)) chunks in
    if position == 0 then some c else if ltb position (4 + length c.body) then none else later

pub chunk_at-past :
    (p : ℕ) (c : Chunk) (chunks : List Chunk)
    → chunk_at (4 + length c.body + p) (c ∷ chunks) ≡ chunk_at p chunks
unfolding chunk_at
chunk_at-past p c chunks =
    let back : 4 + length c.body + p - (4 + length c.body) ≡ p = omega arith in
    let far : ltb (4 + length c.body + p) (4 + length c.body) ≡ false = ground arith in
    let some_way : (4 + length c.body + p == 0) ≡ false = ground arith in rw (some_way, far, back)
