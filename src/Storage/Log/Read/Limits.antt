-- ===== src/Storage/Log/Read/Limits.antt =====
-- How many records the loop of `read_from` gives (src/storage/partition_log.cpp).
use bolt_stream.Base.{
  ℕ, suc, ◌+◌, ◌<◌, ◌≤◌, ◌≡◌, refl, ◌⊎◌, inl, inr, List, [], ◌∷◌, map, ltb, if◌then◌else◌, length,
  take, arith, Bool-cases,
}
use bolt_stream.Compression.{Outcome, returns}
use bolt_stream.Storage.Records.{Record}
use bolt_stream.Storage.Log.{IndexEntry}
use bolt_stream.Storage.Log.Read.{is_full, read_entries}

-- The records from an offset on.
unfoldable pub from_offset : ℕ → List (Record × ℕ) → List (Record × ℕ)
from_offset offset [] = []
from_offset offset ((r, size) ∷ records) =
    let rest = from_offset offset records in
    if ltb r.metadata.offset offset then rest else (r, size) ∷ rest

-- What records take in the segments, each with its length word.
unfoldable pub bytes_of : List (Record × ℕ) → ℕ
bytes_of [] = 0
bytes_of ((r, size) ∷ records) = size + 4 + bytes_of records

-- The entries are those of the records, which are read there.
abbrev pub Matches :
    (IndexEntry → Outcome (Record × ℕ)) → List IndexEntry → List (Record × ℕ) → Type 0
Matches read [] [] = Unit
Matches read [] (r ∷ records) = ⊥
Matches read (e ∷ entries) [] = ⊥
Matches read (e ∷ entries) ((r, size) ∷ records) =
    (e.offset ≡ r.metadata.offset)
    × (e.record_bytes ≡ size)
    × (read e ≡ returns (r, size))
    × Matches read entries records

-- `k` records come, behind `count` of `emitted` bytes: up to the limits, where a first one always may be
-- too large, and all that there are unless one more would be beyond a limit.
abbrev pub WithinLimits : ℕ → ℕ → ℕ → ℕ → List (Record × ℕ) → ℕ → Type 0
WithinLimits max_records max_bytes count emitted records k =
    (k ≤ length records)
    × ((k ≡ 0) ⊎ (count + k ≤ max_records))
    × ((max_bytes ≡ 0)
        ⊎ ((k ≡ 0) ⊎ ((count + k ≤ 1) ⊎ (emitted + bytes_of (take k records) ≤ max_bytes))))
    × ((k ≡ length records)
        ⊎ ((max_records ≤ count + k)
            ⊎ ((0 < max_bytes)
                × (0 < count + k)
                × (max_bytes < emitted + bytes_of (take (suc k) records)))))

module _ (read : IndexEntry → Outcome (Record × ℕ)) (offset max_records max_bytes : ℕ) where
  pub read_entries-WithinLimits :
      (entries : List IndexEntry) (records : List (Record × ℕ)) (count emitted : ℕ)
      → Matches read entries records
      → (k : ℕ) × (read_entries read offset max_records max_bytes entries count emitted
          ≡ returns (map (λ r. r.0) (take k (from_offset offset records))))
        × WithinLimits max_records max_bytes count emitted (from_offset offset records) k
  unfolding read_entries from_offset bytes_of is_full
  read_entries-WithinLimits [] [] count emitted h =
      (0, refl, (omega arith, inl refl, inr (inl refl), inl refl))
  read_entries-WithinLimits [] (r ∷ records) count emitted h = absurd h
  read_entries-WithinLimits (e ∷ entries) [] count emitted h = absurd h
  read_entries-WithinLimits (e ∷ entries) ((r, size) ∷ records) count emitted (at, long, got, h) =
      elim (Bool-cases (ltb r.metadata.offset offset)) [
        | inl low ↦ rw (at, low) (read_entries-WithinLimits entries records count emitted h)
        | inr high ↦ elim (Bool-cases (is_full max_records max_bytes count emitted size)) [
          | inl full ↦
              rw (at, high, long, full)
                (0, refl, (omega arith, inl refl, inr (inl refl), ground (arith, full)))
          | inr room ↦
              let (k, same, limits) =
                read_entries-WithinLimits entries records (count + 1) (emitted + (size + 4)) h in
              rw (got, at, high, long, room) (suc k, rw same, ground (arith, room, limits))
        ]
      ]
