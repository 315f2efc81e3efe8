-- ===== src/Protocol/Session/Codec.antt =====
-- The health and authentication messages: which values fit their
-- fields and pass the checks, and the rules for each reader with its writer.
use bolt_stream.Base.{◌≡◌, ◌≢◌, ◌∙◌, [], arith, append_assoc, append-nil}
use bolt_stream.Protocol.Wire.{IsSized}
use bolt_stream.Protocol.Wire.Reads.{Reads, step, string_Reads}
use bolt_stream.Protocol.Wire.Parses.{Parses, Parses-bind, Parses-pure, string_Parses}
use bolt_stream.Protocol.Types.{ok}
use bolt_stream.Protocol.Decode.{IsCodec, codec, codec_unchecked}
use bolt_stream.Protocol.Session.{
  HealthResponse, encode_health_response, read_health_response, decode_health_response, AuthRequest,
  encode_auth_request, read_auth_request, check_auth_request, decode_auth_request, AuthResponse,
  encode_auth_response, read_auth_response, decode_auth_response,
}

abbrev pub HealthResponseFits : HealthResponse → Type 0
HealthResponseFits r = IsSized r.status × IsSized r.detail

pub health_response_Reads : Reads HealthResponseFits encode_health_response read_health_response
unfolding encode_health_response read_health_response
health_response_Reads = record {
  at = λ r rest h. simp append_assoc (step string_Reads _ h.0 ∙ step string_Reads _ h.1);
}

pub health_response_Parses :
    Parses HealthResponseFits [] read_health_response encode_health_response
unfolding encode_health_response read_health_response
health_response_Parses = Parses-bind string_Parses λ status h0.
    Parses-bind string_Parses λ detail h1. Parses-pure _ (simp (append_assoc, append-nil)) (h0, h1)

abbrev pub HealthResponseValid : HealthResponse → Type 0
HealthResponseValid r = HealthResponseFits r

pub health_response_codec :
    IsCodec HealthResponseValid encode_health_response decode_health_response
unfolding decode_health_response
health_response_codec = codec_unchecked _ _ health_response_Reads health_response_Parses

abbrev pub AuthRequestFits : AuthRequest → Type 0
AuthRequestFits r = IsSized r.token

pub auth_request_Reads : Reads AuthRequestFits encode_auth_request read_auth_request
unfolding encode_auth_request read_auth_request
auth_request_Reads = record { at = λ r rest h. simp append_assoc (step string_Reads _ h) }

pub auth_request_Parses : Parses AuthRequestFits [] read_auth_request encode_auth_request
unfolding encode_auth_request read_auth_request
auth_request_Parses = Parses-bind string_Parses λ token h0. Parses-pure _ (simp append-nil) h0

abbrev pub AuthRequestAccepts : AuthRequest → Type 0
AuthRequestAccepts r = (r.token ≢ [])

accept_auth_request : (r : AuthRequest) → AuthRequestAccepts r → check_auth_request r ≡ ok r
unfolding check_auth_request
accept_auth_request r h = ground arith

accepted_auth_request :
    (a b : AuthRequest) → check_auth_request b ≡ ok a → (b ≡ a) × AuthRequestAccepts a
unfolding check_auth_request
accepted_auth_request a b e = ground arith

abbrev pub AuthRequestValid : AuthRequest → Type 0
AuthRequestValid r = (AuthRequestFits r) × (AuthRequestAccepts r)

pub auth_request_codec : IsCodec AuthRequestValid encode_auth_request decode_auth_request
unfolding decode_auth_request
auth_request_codec =
    codec _ _ auth_request_Reads auth_request_Parses accept_auth_request accepted_auth_request

abbrev pub AuthResponseFits : AuthResponse → Type 0
AuthResponseFits r = IsSized r.status

pub auth_response_Reads : Reads AuthResponseFits encode_auth_response read_auth_response
unfolding encode_auth_response read_auth_response
auth_response_Reads = record { at = λ r rest h. simp append_assoc (step string_Reads _ h) }

pub auth_response_Parses : Parses AuthResponseFits [] read_auth_response encode_auth_response
unfolding encode_auth_response read_auth_response
auth_response_Parses = Parses-bind string_Parses λ status h0. Parses-pure _ (simp append-nil) h0

abbrev pub AuthResponseValid : AuthResponse → Type 0
AuthResponseValid r = AuthResponseFits r

pub auth_response_codec : IsCodec AuthResponseValid encode_auth_response decode_auth_response
unfolding decode_auth_response
auth_response_codec = codec_unchecked _ _ auth_response_Reads auth_response_Parses
