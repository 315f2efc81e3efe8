-- ===== src/Protocol/Wire/Positions.antt =====
-- A read at a fixed position against a read from the bytes that are left (src/protocol/protocol.cpp).
use bolt_stream.Base.{ℕ, ◌+◌, ◌≤◌, ◌≡◌, some, arith, length, drop, Bytes, length-drop, drop-drop}
use bolt_stream.Protocol.Wire.{read_u16_be, read_u32_be, read_u64_be, read_u16, read_u32, read_u64}

module _ (bytes : Bytes) (offset : ℕ) where
  pub read_u16-drop :
      offset + 2 ≤ length bytes
      → read_u16 (drop offset bytes) ≡ some (read_u16_be bytes offset, drop (offset + 2) bytes)
  unfolding read_u16
  read_u16-drop h = ground (arith, length-drop offset bytes, drop-drop offset 2 bytes)

  pub read_u32-drop :
      offset + 4 ≤ length bytes
      → read_u32 (drop offset bytes) ≡ some (read_u32_be bytes offset, drop (offset + 4) bytes)
  unfolding read_u32
  read_u32-drop h = ground (arith, length-drop offset bytes, drop-drop offset 4 bytes)

  pub read_u64-drop :
      offset + 8 ≤ length bytes
      → read_u64 (drop offset bytes) ≡ some (read_u64_be bytes offset, drop (offset + 8) bytes)
  unfolding read_u64
  read_u64-drop h = ground (arith, length-drop offset bytes, drop-drop offset 8 bytes)
