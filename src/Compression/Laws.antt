-- ===== src/Compression/Laws.antt =====
-- `compress` and `decompress` (src/compression/compression.cpp) together.
use bolt_stream.Base.{ℕ, ◌≤◌, ◌≡◌, true, arith, length, Bytes}
use bolt_stream.Compression.{returns, Zstd, is_supported, compress, decompress}

module _ (zstd : Zstd) where
  -- What was compressed is restored, when its size is the expected one and within the limit.
  pub decompress-compress :
      (codec level maximum_size : ℕ) (input output : Bytes)
      → compress zstd codec input level ≡ returns output
      → length input ≤ maximum_size
      → decompress zstd codec output (length input) maximum_size ≡ returns input
  unfolding compress decompress
  decompress-compress codec level maximum_size input output e h =
      ground (arith, zstd.inflate-deflate level input output)

  -- What `decompress` returns has the expected size, this is within the limit, and the codec is supported.
  pub decompress-returns :
      (codec expected_size maximum_size : ℕ) (input : Bytes) {output : Bytes}
      → decompress zstd codec input expected_size maximum_size ≡ returns output
      → (length output ≡ expected_size)
        × (expected_size ≤ maximum_size)
        × (is_supported codec ≡ true)
  unfolding decompress is_supported
  decompress-returns codec expected_size maximum_size input e = ground arith
