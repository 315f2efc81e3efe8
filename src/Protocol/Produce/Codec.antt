-- ===== src/Protocol/Produce/Codec.antt =====
-- The produce messages for one record, and the response to a batch: which values fit their
-- fields and pass the checks, and the rules for each reader with its writer.
use bolt_stream.Base.{◌≡◌, ◌≢◌, ◌∙◌, [], arith, append_assoc, append-nil}
use bolt_stream.Protocol.Wire.{IsU16, IsU32, IsU64, IsSized}
use bolt_stream.Protocol.Wire.Reads.{
  Reads, step, read_u16-Reads, read_u32-Reads, read_u64-Reads, bytes_Reads, string_Reads,
}
use bolt_stream.Protocol.Wire.Parses.{
  Parses, Parses-bind, Parses-pure, read_u16-Parses, read_u32-Parses, read_u64-Parses, bytes_Parses,
  string_Parses,
}
use bolt_stream.Protocol.Types.{ok}
use bolt_stream.Protocol.Decode.{IsCodec, codec, codec_unchecked}
use bolt_stream.Protocol.Produce.{
  ProduceRequest, encode_produce_request, read_produce_request, check_produce_request,
  decode_produce_request, ProduceResponse, encode_produce_response, read_produce_response,
  decode_produce_response, ProduceBatchResponse, encode_produce_batch_response,
  read_produce_batch_response, decode_produce_batch_response,
}

abbrev pub ProduceRequestFits : ProduceRequest → Type 0
ProduceRequestFits r = IsSized r.topic × IsSized r.key × IsSized r.message

pub produce_request_Reads : Reads ProduceRequestFits encode_produce_request read_produce_request
unfolding encode_produce_request read_produce_request
produce_request_Reads = record {
  at = λ r rest h.
      simp append_assoc (step string_Reads _ h.0 ∙ step bytes_Reads _ h.1 ∙ step bytes_Reads _ h.2);
}

pub produce_request_Parses :
    Parses ProduceRequestFits [] read_produce_request encode_produce_request
unfolding encode_produce_request read_produce_request
produce_request_Parses = Parses-bind string_Parses λ topic h0. Parses-bind bytes_Parses λ key h1.
    Parses-bind bytes_Parses
      λ message h2. Parses-pure _ (simp (append_assoc, append-nil)) (h0, h1, h2)

abbrev pub ProduceRequestAccepts : ProduceRequest → Type 0
ProduceRequestAccepts r = (r.topic ≢ []) × (r.message ≢ [])

accept_produce_request :
    (r : ProduceRequest) → ProduceRequestAccepts r → check_produce_request r ≡ ok r
unfolding check_produce_request
accept_produce_request r h = ground arith

accepted_produce_request :
    (a b : ProduceRequest) → check_produce_request b ≡ ok a → (b ≡ a) × ProduceRequestAccepts a
unfolding check_produce_request
accepted_produce_request a b e = ground arith

abbrev pub ProduceRequestValid : ProduceRequest → Type 0
ProduceRequestValid r = (ProduceRequestFits r) × (ProduceRequestAccepts r)

pub produce_request_codec :
    IsCodec ProduceRequestValid encode_produce_request decode_produce_request
unfolding decode_produce_request
produce_request_codec =
    codec _ _ produce_request_Reads produce_request_Parses accept_produce_request
      accepted_produce_request

abbrev pub ProduceResponseFits : ProduceResponse → Type 0
ProduceResponseFits r =
    IsSized r.topic
    × IsU16 r.partition
    × IsU64 r.offset
    × IsU64 r.next_offset
    × IsU32 r.encoded_byte_size

pub produce_response_Reads : Reads ProduceResponseFits encode_produce_response read_produce_response
unfolding encode_produce_response read_produce_response
produce_response_Reads = record {
  at = λ r rest h. simp append_assoc (
      step string_Reads _ h.0
      ∙ step read_u16-Reads _ h.1
      ∙ step read_u64-Reads _ h.2
      ∙ step read_u64-Reads _ h.3
      ∙ step read_u32-Reads _ h.4);
}

pub produce_response_Parses :
    Parses ProduceResponseFits [] read_produce_response encode_produce_response
unfolding encode_produce_response read_produce_response
produce_response_Parses = Parses-bind string_Parses λ topic h0.
    Parses-bind read_u16-Parses λ partition h1. Parses-bind read_u64-Parses λ offset h2.
      Parses-bind read_u64-Parses λ next_offset h3.
        Parses-bind read_u32-Parses λ encoded_byte_size h4.
          Parses-pure _ (simp (append_assoc, append-nil)) (h0, h1, h2, h3, h4)

abbrev pub ProduceResponseValid : ProduceResponse → Type 0
ProduceResponseValid r = ProduceResponseFits r

pub produce_response_codec :
    IsCodec ProduceResponseValid encode_produce_response decode_produce_response
unfolding decode_produce_response
produce_response_codec = codec_unchecked _ _ produce_response_Reads produce_response_Parses

abbrev pub ProduceBatchResponseFits : ProduceBatchResponse → Type 0
ProduceBatchResponseFits r =
    IsSized r.topic
    × IsU16 r.partition
    × IsU64 r.base_offset
    × IsU64 r.next_offset
    × IsU32 r.record_count
    × IsU32 r.logical_bytes
    × IsU32 r.encoded_bytes
    × IsU32 r.stored_bytes

pub produce_batch_response_Reads :
    Reads ProduceBatchResponseFits encode_produce_batch_response read_produce_batch_response
unfolding encode_produce_batch_response read_produce_batch_response
produce_batch_response_Reads = record {
  at = λ r rest h. simp append_assoc (
      step string_Reads _ h.0
      ∙ step read_u16-Reads _ h.1
      ∙ step read_u64-Reads _ h.2
      ∙ step read_u64-Reads _ h.3
      ∙ step read_u32-Reads _ h.4
      ∙ step read_u32-Reads _ h.5
      ∙ step read_u32-Reads _ h.6
      ∙ step read_u32-Reads _ h.7);
}

pub produce_batch_response_Parses :
    Parses ProduceBatchResponseFits [] read_produce_batch_response encode_produce_batch_response
unfolding encode_produce_batch_response read_produce_batch_response
produce_batch_response_Parses = Parses-bind string_Parses λ topic h0.
    Parses-bind read_u16-Parses λ partition h1. Parses-bind read_u64-Parses λ base_offset h2.
      Parses-bind read_u64-Parses λ next_offset h3. Parses-bind read_u32-Parses λ record_count h4.
        Parses-bind read_u32-Parses λ logical_bytes h5.
          Parses-bind read_u32-Parses λ encoded_bytes h6.
            Parses-bind read_u32-Parses λ stored_bytes h7.
              Parses-pure _ (simp (append_assoc, append-nil)) (h0, h1, h2, h3, h4, h5, h6, h7)

abbrev pub ProduceBatchResponseValid : ProduceBatchResponse → Type 0
ProduceBatchResponseValid r = ProduceBatchResponseFits r

pub produce_batch_response_codec :
    IsCodec ProduceBatchResponseValid encode_produce_batch_response decode_produce_batch_response
unfolding decode_produce_batch_response
produce_batch_response_codec =
    codec_unchecked _ _ produce_batch_response_Reads produce_batch_response_Parses
