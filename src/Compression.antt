-- ===== src/Compression.antt =====
-- src/compression/compression.cpp. The zstd library is a parameter. A `Codec` is its underlying
-- `std::uint8_t`, since a cast can give any; an exception is its message.
pub mod Laws
use bolt_stream.Base.{
  ℕ, String, Bool, ◌||◌, not, Option, none, some, ltb, ◌==◌, if◌then◌else◌, length, Bytes, ◌≡◌,
  refl, ◌⊎◌, inl, inr,
}

pub data Outcome {ℓ} (A : Type ℓ) : Type ℓ where
  returns : A → Outcome A
  throws : String → Outcome A

pub Outcome-cases {ℓ} :
    {A : Type ℓ} (o : Outcome A)
    → ((message : String) × (o ≡ throws message)) ⊎ ((a : A) × (o ≡ returns a))
Outcome-cases (returns a) = inr (a, refl)
Outcome-cases (throws message) = inl (message, refl)

-- `ZSTD_compress` at a level and `ZSTD_decompress` into a buffer of a given capacity; `none` is a
-- result for which `ZSTD_isError` holds. What was compressed fits a buffer of its own size again.
pub record Zstd : Type 0 where
  pub deflate : ℕ → Bytes → Option Bytes
  pub inflate : ℕ → Bytes → Option Bytes
  pub inflate-deflate :
      (level : ℕ) (input output : Bytes)
      → deflate level input ≡ some output
      → inflate (length input) output ≡ some input

-- `Codec::None`, `Codec::Zstd`
abbrev pub codec_none : ℕ
codec_none = 0

abbrev pub codec_zstd : ℕ
codec_zstd = 1

unfoldable pub is_supported : ℕ → Bool
is_supported codec = codec == codec_none || codec == codec_zstd

unfoldable pub codec_name : ℕ → String
codec_name codec =
    if codec == codec_none then "none" else if codec == codec_zstd then "zstd" else "unknown"

-- The message that `ZSTD_getErrorName` gives is left off.
abbrev pub compressed : Option Bytes → Outcome Bytes
compressed none = throws "zstd compression failed: "
compressed (some output) = returns output

abbrev pub decompressed : ℕ → Option Bytes → Outcome Bytes
decompressed expected_size none = throws "zstd decompression failed: "
decompressed expected_size (some output) =
    if length output == expected_size
    then returns output
    else throws "decompressed batch size mismatch"

module _ (zstd : Zstd) where
  unfoldable pub compress : ℕ → Bytes → ℕ → Outcome Bytes
  compress codec input zstd_level =
      if codec == codec_none
      then returns input
      else if not (codec == codec_zstd)
      then throws "unsupported compression codec"
      else compressed (zstd.deflate zstd_level input)

  unfoldable pub decompress : ℕ → Bytes → ℕ → ℕ → Outcome Bytes
  decompress codec input expected_size maximum_size =
      if ltb maximum_size expected_size
      then throws "uncompressed batch exceeds configured limit"
      else if codec == codec_none
      then (if length input == expected_size
          then returns input
          else throws "uncompressed batch size mismatch")
      else if not (codec == codec_zstd)
      then throws "unsupported compression codec"
      else decompressed expected_size (zstd.inflate expected_size input)
