-- ===== src/Protocol/Errors.antt =====
-- The error response (src/protocol/protocol.cpp and its header). The code is its underlying value, since
-- the decoder casts whatever 32 bits it reads to the enumeration.
pub mod Codec
use bolt_stream.Base.{ℕ, [], ◌∷◌, Bytes}
use bolt_stream.Protocol.Wire.{
  Reader, ◌>>=◌, pure, written, write_u32, write_string, read_u32, read_string,
}
use bolt_stream.Protocol.Types.{Decoded, ok, malformed_payload}
use bolt_stream.Protocol.Decode.{decode_with}

pub record ErrorResponse : Type 0 where
  pub code : ℕ
  pub message : Bytes

unfoldable pub encode_error_response : ErrorResponse → Bytes
encode_error_response r = written (write_u32 r.code ∷ write_string r.message ∷ [])

unfoldable pub read_error_response : Reader ErrorResponse
read_error_response = do
  code ← read_u32
  message ← read_string
  pure (record { code = code; message = message })

unfoldable pub decode_error_response : Bytes → Decoded ErrorResponse
unfolding read_error_response
decode_error_response =
    decode_with malformed_payload "malformed error response payload" read_error_response ok
