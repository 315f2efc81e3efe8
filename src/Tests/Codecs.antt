-- ===== src/Tests/Codecs.antt =====
-- The codecs on a compressor that copies its input.
use bolt_stream.Base.{
  ℕ, ◌≤◌, ◌≡◌, refl, true, Option, none, some, [], ◌∷◌, arith, ltb, if◌then◌else◌, length, Bytes,
}
use bolt_stream.Compression.{returns, Zstd, is_supported, compress, decompress}
use bolt_stream.Compression.Laws.{decompress-compress, decompress-returns}

pub copied :
    (level : ℕ) (input output : Bytes)
    → ◌≡◌ {A = Option Bytes} (some input) (some output)
    → (if ltb (length input) (length output) then none else some output) ≡ some input
copied level input output e = ground (arith, e)

abbrev pub copy : Zstd
copy = record {
  deflate = λ level input. some input;
  inflate = λ capacity input. if ltb capacity (length input) then none else some input;
  inflate-deflate = copied;
}

decompress-compress_example : decompress copy 1 (5 ∷ 6 ∷ []) 2 100 ≡ returns (5 ∷ 6 ∷ [])
unfolding compress
decompress-compress_example =
    decompress-compress copy 1 3 100 (5 ∷ 6 ∷ []) (5 ∷ 6 ∷ []) refl (omega arith)

decompress-returns_example : (length {A = ℕ} (5 ∷ 6 ∷ []) ≡ 2) × (2 ≤ 100) × (is_supported 1 ≡ true)
unfolding decompress
decompress-returns_example = decompress-returns copy 1 2 100 (5 ∷ 6 ∷ []) refl
