-- ===== src/Protocol/Wire.antt =====
-- Big-endian integers, length-prefixed strings and the payload reader of src/protocol/protocol.cpp.
-- A writer gives the bytes that the source appends to its output. A reader is the part of
-- `PayloadReader::bytes_` from `offset_` on; `none` is the `false` of the source.
pub mod Reads
pub mod Parses
pub mod Positions
use bolt_stream.Base.{
  ℕ, zero, suc, ◌+◌, ◌*◌, ◌/◌, ◌%◌, ◌^◌, ◌<◌, Bool, Option, none, some, List, [], ◌∷◌, ◌++◌, map,
  foldl, ltb, if◌then◌else◌, length, take, drop, Bytes, ◌==◌,
}

-- `static_cast<std::uint8_t>((value >> shift) & 0xFF)`
abbrev byte_at : ℕ → ℕ → ℕ
byte_at value shift = value / 2 ^ shift % 256

unfoldable pub write_u16 : ℕ → Bytes
write_u16 value = map (byte_at value) (8 ∷ 0 ∷ [])

unfoldable pub write_u32 : ℕ → Bytes
write_u32 value = map (byte_at value) (24 ∷ 16 ∷ 8 ∷ 0 ∷ [])

unfoldable pub write_u64 : ℕ → Bytes
write_u64 value = map (byte_at value) (56 ∷ 48 ∷ 40 ∷ 32 ∷ 24 ∷ 16 ∷ 8 ∷ 0 ∷ [])

-- `(value << 8) | byte` over the bytes in turn. The shifted bytes do not overlap, so `|` is `+`.
abbrev be_value : Bytes → ℕ
be_value = foldl (λ value byte. value * 256 + byte) 0

unfoldable pub read_u16_be : Bytes → ℕ → ℕ
read_u16_be bytes offset = be_value (take 2 (drop offset bytes))

unfoldable pub read_u32_be : Bytes → ℕ → ℕ
read_u32_be bytes offset = be_value (take 4 (drop offset bytes))

unfoldable pub read_u64_be : Bytes → ℕ → ℕ
read_u64_be bytes offset = be_value (take 8 (drop offset bytes))

-- The length goes through `static_cast<std::uint32_t>`.
unfoldable pub write_bytes : Bytes → Bytes
write_bytes value = write_u32 (length value % 2 ^ 32) ++ value

unfoldable pub write_string : Bytes → Bytes
write_string value = write_u32 (length value % 2 ^ 32) ++ value

unfoldable pub write_bool : Bool → Bytes
write_bool value = write_u32 (if value then 1 else 0)

-- What a function that appends these pieces to `out`, in this order, has written.
abbrev pub written : List Bytes → Bytes
written [] = []
written (piece ∷ pieces) = piece ++ written pieces

module _ {ℓ} {A : Type ℓ} where
  -- `for (const auto& x : xs) { write x; }`
  unfoldable pub write_each : (A → Bytes) → List A → Bytes
  write_each w [] = []
  write_each w (x ∷ xs) = w x ++ write_each w xs

abbrev pub Reader {ℓ} : Type ℓ → Type ℓ
Reader A = Bytes → Option (A × Bytes)

abbrev pub pure {ℓ} : {A : Type ℓ} → A → Reader A
pure a bytes = some (a, bytes)

module _ {ℓ κ} {A : Type ℓ} {B : Type κ} where
  infixl 5 ◌>>=◌ ◌>>◌
  abbrev pub ◌>>=◌ : Reader A → (A → Reader B) → Reader B
  ◌>>=◌ m f bytes = elim (m bytes) [ none ↦ none | some (a, rest) ↦ f a rest ]

  abbrev pub ◌>>◌ : Reader A → Reader B → Reader B
  m >> k = m >>= λ _. k

-- A test in a chain of reads.
abbrev pub require : Bool → Reader (Unit {0})
require test bytes = if test then some (tt, bytes) else none

-- `for (index = 0; index < count; ++index) { read an entry; push it back; }`
unfoldable pub read_each {ℓ} : {A : Type ℓ} → Reader A → ℕ → Reader (List A)
read_each m zero = pure []
read_each m (suc count) = do entry ← m; entries ← read_each m count; pure (entry ∷ entries)

unfoldable pub read_u16 : Reader ℕ
unfolding read_u16_be
read_u16 bytes = if ltb (length bytes) 2 then none else some (read_u16_be bytes 0, drop 2 bytes)

unfoldable pub read_u32 : Reader ℕ
unfolding read_u32_be
read_u32 bytes = if ltb (length bytes) 4 then none else some (read_u32_be bytes 0, drop 4 bytes)

unfoldable pub read_u64 : Reader ℕ
unfolding read_u64_be
read_u64 bytes = if ltb (length bytes) 8 then none else some (read_u64_be bytes 0, drop 8 bytes)

take_exactly : ℕ → Reader Bytes
take_exactly size bytes =
    if ltb (length bytes) size then none else some (take size bytes, drop size bytes)

unfoldable pub read_bytes : Reader Bytes
unfolding read_u32 take_exactly
read_bytes = do size ← read_u32; take_exactly size

unfoldable pub read_string : Reader Bytes
unfolding read_u32 take_exactly
read_string = do size ← read_u32; take_exactly size

bool_of : ℕ → Reader Bool
bool_of encoded bytes = if ltb 1 encoded then none else some (encoded == 1, bytes)

unfoldable pub read_bool : Reader Bool
unfolding read_u32 bool_of
read_bool = do encoded ← read_u32; bool_of encoded

-- The count prefix and the loop of every payload that carries a list.
module _ {ℓ} {A : Type ℓ} where
  unfoldable pub write_list : (A → Bytes) → List A → Bytes
  write_list w xs = write_u32 (length xs % 2 ^ 32) ++ write_each w xs

  unfoldable pub read_list : Reader A → Reader (List A)
  read_list m = do count ← read_u32; read_each m count

-- The values that each field can hold.
abbrev pub IsU16 : ℕ → Type 0
IsU16 v = v < 2 ^ 16

abbrev pub IsU32 : ℕ → Type 0
IsU32 v = v < 2 ^ 32

abbrev pub IsU64 : ℕ → Type 0
IsU64 v = v < 2 ^ 64

-- A string whose length the prefix can hold.
abbrev pub IsSized : Bytes → Type 0
IsSized s = length s < 2 ^ 32

abbrev pub IsByte : ℕ → Type 0
IsByte b = b < 256
