-- ===== src/Storage/Log/Recover/Scan.antt =====
-- The loop of `recover` over one segment (src/storage/partition_log.cpp), on files that hold whole
-- records and batches, and on files whose last write was cut off.
use bolt_stream.Base.{
  ℕ, zero, suc, ◌+◌, ◌-◌, ◌^◌, ◌≤◌, ◌<◌, ◌≡◌, refl, ap, ◌∙◌, true, false, ◌||◌, not, some, List, [],
  ◌∷◌, ◌++◌, arith, ltb, ◌==◌, length, take, drop, is_empty, All, Bytes, Bool-cases, inl, inr,
  ltb→le, length-append, length-drop, take-append, drop-append, append_assoc, length-take_of_le,
  take-append_past,
}
use bolt_stream.Compression.{Zstd, returns, Outcome-cases}
use bolt_stream.Protocol.Wire.{write_u32, read_u32_be}
use bolt_stream.Storage.Records.{minimum_record_bytes}
use bolt_stream.Storage.Log.{LogOptions, Entry, decode_entry}
use bolt_stream.Storage.Log.Recover.{Found, note_entry, Scanned, scan}

-- A record or batch as it stands in a segment, behind its length word, and what it is decoded to.
pub record Chunk : Type 0 where
  pub body : Bytes
  pub entry : Entry

abbrev pub chunk_bytes : Chunk → Bytes
chunk_bytes c = write_u32 (length c.body) ++ c.body

unfoldable pub chunks_bytes : List Chunk → Bytes
chunks_bytes [] = []
chunks_bytes (c ∷ chunks) = chunk_bytes c ++ chunks_bytes chunks

pub record IsChunk (zstd : Zstd) (options : LogOptions) (c : Chunk) : Type 0 where
  pub long : minimum_record_bytes ≤ length c.body
  pub short : length c.body < 2 ^ 32
  pub decoded : decode_entry zstd options (length c.body) c.body ≡ returns c.entry

-- What the loop collects from whole chunks.
unfoldable pub note_chunks : ℕ → ℕ → List Chunk → Found → Found
note_chunks segment position [] found = found
note_chunks segment position (c ∷ chunks) found =
    note_chunks segment (position + 4 + length c.body) chunks
      (note_entry segment position (length c.body) c.entry found)

pub length-chunk_bytes : (c : Chunk) → length (chunk_bytes c) ≡ 4 + length c.body
unfolding write_u32
length-chunk_bytes c = omega arith

-- The length word, whatever stands behind it.
pub read_u32_be-write_u32 :
    (v : ℕ) (rest : Bytes)
    → v < 2 ^ 32
    → (read_u32_be (write_u32 v ++ rest) 0 ≡ v)
      × (drop 4 (write_u32 v ++ rest) ≡ rest)
      × (length (write_u32 v ++ rest) ≡ 4 + length rest)
unfolding read_u32_be write_u32
read_u32_be-write_u32 v rest h = (ground arith, refl, omega arith)

is_empty-of_length : (s : Bytes) → 0 < length s → is_empty s ≡ false
is_empty-of_length [] h = absurd (omega arith)
is_empty-of_length (x ∷ s) h = refl

module _ (zstd : Zstd) (options : LogOptions) (segment : ℕ) where
  -- A round that goes on.
  scan-step :
      (fuel position n : ℕ) (bytes : Bytes) (found : Found) (entry : Entry)
      → read_u32_be bytes 0 ≡ n
      → minimum_record_bytes ≤ n
      → 4 + n ≤ length bytes
      → decode_entry zstd options n (take n (drop 4 bytes)) ≡ returns entry
      → scan zstd options segment (suc fuel) position bytes found
        ≡ scan zstd options segment fuel
            (position + 4 + n)
            (drop n (drop 4 bytes))
            (note_entry segment position n entry found)
  unfolding scan
  scan-step fuel position n bytes found entry word long there decoded =
      let filled = is_empty-of_length bytes (omega arith) in
      let four : ltb (length bytes) 4 ≡ false = ground arith in
      let small : ltb n minimum_record_bytes ≡ false = ground arith in
      let fits : ltb (length bytes - 4) n ≡ false = ground arith in
      rw (filled, four, word, small, fits, decoded) (rw word)

  -- A round that finds less than a length word, or less than the word says.
  scan-stop :
      (fuel position : ℕ) (bytes : Bytes) (found : Found)
      → 0 < length bytes
      → (4 ≤ length bytes → length bytes < 4 + read_u32_be bytes 0)
      → scan zstd options segment (suc fuel) position bytes found
        ≡ some (record { found = found; position = position; truncate = true })
  unfolding scan
  scan-stop fuel position bytes found filled cut =
      let f = is_empty-of_length bytes filled in
      elim (Bool-cases (ltb (length bytes) 4)) [
        | inl none_there ↦ rw (f, none_there)
        | inr some_there ↦
            let past : ltb (length bytes - 4) (read_u32_be bytes 0) ≡ true =
              ground (arith, some_there, cut (omega (arith, ltb→le (length bytes) 4 some_there))) in
            elim (Bool-cases (ltb (read_u32_be bytes 0) minimum_record_bytes)) [
              | inl small ↦ rw (f, some_there, small)
              | inr large ↦ rw (f, some_there, large, past)
            ]
      ]

  -- One whole chunk is one round.
  scan-chunk :
      (fuel position : ℕ) (c : Chunk) (rest : Bytes) (found : Found)
      → IsChunk zstd options c
      → scan zstd options segment (suc fuel) position (chunk_bytes c ++ rest) found
        ≡ scan zstd options segment fuel
            (position + 4 + length c.body)
            rest
            (note_entry segment position (length c.body) c.entry found)
  scan-chunk fuel position c rest found h =
      let n : ℕ = length c.body in
      let split : chunk_bytes c ++ rest ≡ write_u32 n ++ (c.body ++ rest) =
        append_assoc (write_u32 n) c.body rest in
      let (word, behind, size) = read_u32_be-write_u32 n (c.body ++ rest) h.short in
      let body : take n (drop 4 (write_u32 n ++ (c.body ++ rest))) ≡ c.body =
        ap (take n) behind ∙ take-append c.body rest in
      let tail : drop n (drop 4 (write_u32 n ++ (c.body ++ rest))) ≡ rest =
        ap (drop n) behind ∙ drop-append c.body rest in
      ap (λ b. scan zstd options segment (suc fuel) position b found) split
      ∙ scan-step fuel position n (write_u32 n ++ (c.body ++ rest)) found c.entry word h.long
          (omega (arith, size, length-append c.body rest))
          (ap (decode_entry zstd options n) body ∙ h.decoded)
      ∙ ap
          (λ b.
            scan zstd options segment fuel (position + 4 + n) b
              (note_entry segment position n c.entry found))
          tail

  -- A part of a chunk, and nothing, are where the loop stops.
  scan-cut :
      (fuel position n : ℕ) (c : Chunk) (found : Found)
      → length c.body < 2 ^ 32
      → n < length (chunk_bytes c)
      → scan zstd options segment (suc fuel) position (take n (chunk_bytes c)) found
        ≡ some (record { found = found; position = position; truncate = not (n == 0) })
  scan-cut fuel position zero c found short h = unfold scan in refl
  scan-cut fuel position (suc k) c found short h =
      let n : ℕ = suc k in
      let size : length (take n (chunk_bytes c)) ≡ n =
        length-take_of_le n (chunk_bytes c) (omega arith) in
      let some_bytes : not (suc k == 0) ≡ true = ground arith in
      rw some_bytes (
        scan-stop fuel position (take n (chunk_bytes c)) found (omega (arith, size)) λ four.
          let past : take n (chunk_bytes c)
              ≡ write_u32 (length c.body) ++ take (n - length (write_u32 (length c.body))) c.body =
            take-append_past n (write_u32 (length c.body)) c.body
              (unfold write_u32 in omega (arith, size)) in
          let (word, _, _) =
            read_u32_be-write_u32 (length c.body)
              (take (n - length (write_u32 (length c.body))) c.body) short in
          let read : read_u32_be (take n (chunk_bytes c)) 0 ≡ length c.body =
            ap (λ b. read_u32_be b 0) past ∙ word in
          omega (arith, read, size, length-chunk_bytes c))

  -- A segment that holds whole records and batches, and behind them what was written of another one
  -- before a crash, is read as the whole ones, and is truncated where the last of them ends, unless
  -- nothing stands behind them.
  pub scan-chunks :
      (fuel position n : ℕ) (chunks : List Chunk) (torn : Chunk) (found : Found)
      → All (IsChunk zstd options) chunks
      → length torn.body < 2 ^ 32
      → n < length (chunk_bytes torn)
      → length (chunks_bytes chunks) < fuel
      → scan zstd options segment fuel position
          (chunks_bytes chunks ++ take n (chunk_bytes torn))
          found
        ≡ some (record {
          found = note_chunks segment position chunks found;
          position = position + length (chunks_bytes chunks);
          truncate = not (n == 0);
        })
  unfolding chunks_bytes note_chunks
  scan-chunks zero position n chunks torn found h short cut enough = absurd (omega arith)
  scan-chunks (suc fuel) position n [] torn found h short cut enough =
      scan-cut fuel position n torn found short cut
      ∙ ap (λ p. some (record { found = found; position = p; truncate = not (n == 0) }))
          (omega arith)
  scan-chunks (suc fuel) position n (c ∷ chunks) torn found h short cut enough =
      let tail : Bytes = take n (chunk_bytes torn) in
      let size = length-append (chunk_bytes c) (chunks_bytes chunks) in
      let e : position + 4 + length c.body + length (chunks_bytes chunks)
          ≡ position + length (chunk_bytes c ++ chunks_bytes chunks) =
        omega (arith, size, length-chunk_bytes c) in
      ap (λ b. scan zstd options segment (suc fuel) position b found)
        (append_assoc (chunk_bytes c) (chunks_bytes chunks) tail)
      ∙ scan-chunk fuel position c (chunks_bytes chunks ++ tail) found h.0
      ∙ scan-chunks fuel (position + 4 + length c.body) n chunks torn
          (note_entry segment position (length c.body) c.entry found) h.1 short cut
          (omega (arith, size, length-chunk_bytes c))
      ∙ ap
          (λ p. some (record {
            found =
                note_chunks segment (position + 4 + length c.body) chunks
                  (note_entry segment position (length c.body) c.entry found);
            position = p;
            truncate = not (n == 0);
          }))
          e

  -- With more fuel than there are bytes, the loop over a segment ends, whatever the bytes are.
  pub scan-total :
      (fuel position : ℕ) (rest : Bytes) (found : Found)
      → length rest < fuel
      → (sc : Scanned) × (scan zstd options segment fuel position rest found ≡ some sc)
  unfolding scan
  scan-total zero position rest found h = absurd (omega arith)
  scan-total (suc fuel) position rest found h =
      let n : ℕ = read_u32_be rest 0 in
      let stop : Scanned = record { found = found; position = position; truncate = true } in
      elim (Bool-cases (is_empty rest)) [
        | inl done ↦ (record { found = found; position = position; truncate = false }, rw done)
        | inr more ↦ elim (Bool-cases (ltb (length rest) 4)) [
          | inl none_there ↦ (stop, rw (more, none_there))
          | inr some_there ↦
              elim (Bool-cases (ltb n minimum_record_bytes || ltb (length rest - 4) n)) [
                | inl cut ↦ (stop, rw (more, some_there, cut))
                | inr whole ↦
                    elim (Outcome-cases (decode_entry zstd options n (take n (drop 4 rest)))) [
                      | inl (message, refused) ↦ (stop, rw (more, some_there, whole, refused))
                      | inr (entry, read) ↦
                          let less : length (drop n (drop 4 rest)) < fuel = ground (
                            arith,
                            whole,
                            some_there,
                            length-drop n (drop 4 rest),
                            length-drop 4 rest,
                          ) in
                          rw (more, some_there, whole, read)
                            (scan-total fuel (position + 4 + n) (drop n (drop 4 rest))
                              (note_entry segment position n entry found) less)
                    ]
              ]
        ]
      ]
