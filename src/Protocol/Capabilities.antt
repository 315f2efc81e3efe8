-- ===== src/Protocol/Capabilities.antt =====
-- The metadata request, which says what codecs a client supports (src/protocol/protocol.cpp).
pub mod Codec
use Prim.Native.Nat.{bit_and}
use bolt_stream.Base.{ℕ, [], ◌∷◌, ◌==◌, if◌then◌else◌, Bytes}
use bolt_stream.Protocol.Wire.{Reader, ◌>>=◌, pure, written, write_u32, read_u32}
use bolt_stream.Protocol.Types.{Decoded, ok, err, malformed_payload}
use bolt_stream.Protocol.Decode.{decode_with}

-- `kNoneMask`
abbrev pub none_mask : ℕ
none_mask = 1

unfoldable pub encode_metadata_request : ℕ → Bytes
encode_metadata_request supported_codecs = written (write_u32 supported_codecs ∷ [])

unfoldable pub read_metadata_request : Reader ℕ
read_metadata_request = do supported_codecs ← read_u32; pure supported_codecs

unfoldable pub check_metadata_request : ℕ → Decoded ℕ
check_metadata_request supported_codecs =
    if bit_and supported_codecs none_mask == 0
    then err malformed_payload "malformed metadata capabilities"
    else ok supported_codecs

unfoldable pub decode_metadata_request : Bytes → Decoded ℕ
unfolding read_metadata_request check_metadata_request
decode_metadata_request =
    decode_with malformed_payload "malformed metadata capabilities" read_metadata_request
      check_metadata_request
