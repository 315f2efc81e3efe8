-- ===== src/Protocol/Session.antt =====
-- The health and authentication messages (src/protocol/protocol.cpp and its header): the bytes written
-- for each message, and the decoder with its checks in the order of the source.
pub mod Codec
use bolt_stream.Base.{[], ◌∷◌, if◌then◌else◌, is_empty, Bytes}
use bolt_stream.Protocol.Wire.{Reader, ◌>>=◌, pure, written, write_string, read_string}
use bolt_stream.Protocol.Types.{Decoded, ok, err, malformed_payload}
use bolt_stream.Protocol.Decode.{decode_with}

pub record HealthResponse : Type 0 where
  pub status : Bytes
  pub detail : Bytes

unfoldable pub encode_health_response : HealthResponse → Bytes
encode_health_response r = written (write_string r.status ∷ write_string r.detail ∷ [])

unfoldable pub read_health_response : Reader HealthResponse
read_health_response = do
  status ← read_string
  detail ← read_string
  pure (record { status = status; detail = detail })

unfoldable pub decode_health_response : Bytes → Decoded HealthResponse
unfolding read_health_response
decode_health_response =
    decode_with malformed_payload "malformed health response payload" read_health_response ok

pub record AuthRequest : Type 0 where
  pub token : Bytes

unfoldable pub encode_auth_request : AuthRequest → Bytes
encode_auth_request r = written (write_string r.token ∷ [])

unfoldable pub read_auth_request : Reader AuthRequest
read_auth_request = do token ← read_string; pure (record { token = token })

unfoldable pub check_auth_request : AuthRequest → Decoded AuthRequest
check_auth_request r =
    if is_empty r.token then err malformed_payload "auth token must not be empty" else ok r

unfoldable pub decode_auth_request : Bytes → Decoded AuthRequest
unfolding read_auth_request check_auth_request
decode_auth_request =
    decode_with malformed_payload "malformed auth request payload" read_auth_request
      check_auth_request

pub record AuthResponse : Type 0 where
  pub status : Bytes

unfoldable pub encode_auth_response : AuthResponse → Bytes
encode_auth_response r = written (write_string r.status ∷ [])

unfoldable pub read_auth_response : Reader AuthResponse
read_auth_response = do status ← read_string; pure (record { status = status })

unfoldable pub decode_auth_response : Bytes → Decoded AuthResponse
unfolding read_auth_response
decode_auth_response =
    decode_with malformed_payload "malformed auth response payload" read_auth_response ok
