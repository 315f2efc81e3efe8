-- ===== src/Protocol/Errors/Codec.antt =====
-- The error response: which values fit its fields, and the rules for its reader and its writer.
use bolt_stream.Base.{◌∙◌, [], append_assoc, append-nil}
use bolt_stream.Protocol.Wire.{IsU32, IsSized}
use bolt_stream.Protocol.Wire.Reads.{Reads, step, read_u32-Reads, string_Reads}
use bolt_stream.Protocol.Wire.Parses.{
  Parses, Parses-bind, Parses-pure, read_u32-Parses, string_Parses,
}
use bolt_stream.Protocol.Decode.{IsCodec, codec_unchecked}
use bolt_stream.Protocol.Errors.{
  ErrorResponse, encode_error_response, read_error_response, decode_error_response,
}

abbrev pub ErrorResponseValid : ErrorResponse → Type 0
ErrorResponseValid r = IsU32 r.code × IsSized r.message

error_response_Reads : Reads ErrorResponseValid encode_error_response read_error_response
unfolding encode_error_response read_error_response
error_response_Reads = record {
  at = λ r rest h. simp append_assoc (step read_u32-Reads _ h.0 ∙ step string_Reads _ h.1);
}

error_response_Parses : Parses ErrorResponseValid [] read_error_response encode_error_response
unfolding encode_error_response read_error_response
error_response_Parses = Parses-bind read_u32-Parses λ code h0.
    Parses-bind string_Parses λ message h1. Parses-pure _ (simp (append_assoc, append-nil)) (h0, h1)

pub error_response_codec : IsCodec ErrorResponseValid encode_error_response decode_error_response
unfolding decode_error_response
error_response_codec = codec_unchecked _ _ error_response_Reads error_response_Parses
