-- ===== src/Protocol/TopicAdmin/Codec.antt =====
-- The messages that create and delete topics and ask for a description: which values fit their
-- fields and pass the checks, and the rules for each reader with its writer.
use bolt_stream.Base.{◌<◌, ◌≡◌, ◌≢◌, ◌∙◌, [], arith, append_assoc, append-nil}
use bolt_stream.Protocol.Wire.{IsU16, IsU32, IsU64, IsSized}
use bolt_stream.Protocol.Wire.Reads.{
  Reads, step, read_u16-Reads, read_u32-Reads, read_u64-Reads, string_Reads,
}
use bolt_stream.Protocol.Wire.Parses.{
  Parses, Parses-bind, Parses-pure, read_u16-Parses, read_u32-Parses, read_u64-Parses,
  string_Parses,
}
use bolt_stream.Protocol.Types.{ok}
use bolt_stream.Protocol.Decode.{IsCodec, codec, codec_unchecked}
use bolt_stream.Protocol.TopicAdmin.{
  CreateTopicRequest, encode_create_topic_request, read_create_topic_request,
  check_create_topic_request, decode_create_topic_request, CreateTopicResponse,
  encode_create_topic_response, read_create_topic_response, decode_create_topic_response,
  DescribeTopicRequest, encode_describe_topic_request, read_describe_topic_request,
  check_describe_topic_request, decode_describe_topic_request, DeleteTopicRequest,
  encode_delete_topic_request, read_delete_topic_request, check_delete_topic_request,
  decode_delete_topic_request, DeleteTopicResponse, encode_delete_topic_response,
  read_delete_topic_response, decode_delete_topic_response,
}

abbrev pub CreateTopicRequestFits : CreateTopicRequest → Type 0
CreateTopicRequestFits r = IsSized r.topic × IsU16 r.partition_count

pub create_topic_request_Reads :
    Reads CreateTopicRequestFits encode_create_topic_request read_create_topic_request
unfolding encode_create_topic_request read_create_topic_request
create_topic_request_Reads = record {
  at = λ r rest h. simp append_assoc (step string_Reads _ h.0 ∙ step read_u16-Reads _ h.1);
}

pub create_topic_request_Parses :
    Parses CreateTopicRequestFits [] read_create_topic_request encode_create_topic_request
unfolding encode_create_topic_request read_create_topic_request
create_topic_request_Parses = Parses-bind string_Parses λ topic h0.
    Parses-bind read_u16-Parses
      λ partition_count h1. Parses-pure _ (simp (append_assoc, append-nil)) (h0, h1)

abbrev pub CreateTopicRequestAccepts : CreateTopicRequest → Type 0
CreateTopicRequestAccepts r = (r.topic ≢ []) × (0 < r.partition_count)

accept_create_topic_request :
    (r : CreateTopicRequest) → CreateTopicRequestAccepts r → check_create_topic_request r ≡ ok r
unfolding check_create_topic_request
accept_create_topic_request r h = ground arith

accepted_create_topic_request :
    (a b : CreateTopicRequest)
    → check_create_topic_request b ≡ ok a
    → (b ≡ a) × CreateTopicRequestAccepts a
unfolding check_create_topic_request
accepted_create_topic_request a b e = ground arith

abbrev pub CreateTopicRequestValid : CreateTopicRequest → Type 0
CreateTopicRequestValid r = (CreateTopicRequestFits r) × (CreateTopicRequestAccepts r)

pub create_topic_request_codec :
    IsCodec CreateTopicRequestValid encode_create_topic_request decode_create_topic_request
unfolding decode_create_topic_request
create_topic_request_codec =
    codec _ _ create_topic_request_Reads create_topic_request_Parses accept_create_topic_request
      accepted_create_topic_request

abbrev pub CreateTopicResponseFits : CreateTopicResponse → Type 0
CreateTopicResponseFits r = IsSized r.topic × IsU16 r.partition_count × IsSized r.status

pub create_topic_response_Reads :
    Reads CreateTopicResponseFits encode_create_topic_response read_create_topic_response
unfolding encode_create_topic_response read_create_topic_response
create_topic_response_Reads = record {
  at = λ r rest h.
      simp append_assoc
        (step string_Reads _ h.0 ∙ step read_u16-Reads _ h.1 ∙ step string_Reads _ h.2);
}

pub create_topic_response_Parses :
    Parses CreateTopicResponseFits [] read_create_topic_response encode_create_topic_response
unfolding encode_create_topic_response read_create_topic_response
create_topic_response_Parses = Parses-bind string_Parses λ topic h0.
    Parses-bind read_u16-Parses λ partition_count h1.
      Parses-bind string_Parses
        λ status h2. Parses-pure _ (simp (append_assoc, append-nil)) (h0, h1, h2)

abbrev pub CreateTopicResponseValid : CreateTopicResponse → Type 0
CreateTopicResponseValid r = CreateTopicResponseFits r

pub create_topic_response_codec :
    IsCodec CreateTopicResponseValid encode_create_topic_response decode_create_topic_response
unfolding decode_create_topic_response
create_topic_response_codec =
    codec_unchecked _ _ create_topic_response_Reads create_topic_response_Parses

abbrev pub DescribeTopicRequestFits : DescribeTopicRequest → Type 0
DescribeTopicRequestFits r = IsSized r.topic

pub describe_topic_request_Reads :
    Reads DescribeTopicRequestFits encode_describe_topic_request read_describe_topic_request
unfolding encode_describe_topic_request read_describe_topic_request
describe_topic_request_Reads = record { at = λ r rest h. simp append_assoc (step string_Reads _ h) }

pub describe_topic_request_Parses :
    Parses DescribeTopicRequestFits [] read_describe_topic_request encode_describe_topic_request
unfolding encode_describe_topic_request read_describe_topic_request
describe_topic_request_Parses =
    Parses-bind string_Parses λ topic h0. Parses-pure _ (simp append-nil) h0

abbrev pub DescribeTopicRequestAccepts : DescribeTopicRequest → Type 0
DescribeTopicRequestAccepts r = (r.topic ≢ [])

accept_describe_topic_request :
    (r : DescribeTopicRequest)
    → DescribeTopicRequestAccepts r
    → check_describe_topic_request r ≡ ok r
unfolding check_describe_topic_request
accept_describe_topic_request r h = ground arith

accepted_describe_topic_request :
    (a b : DescribeTopicRequest)
    → check_describe_topic_request b ≡ ok a
    → (b ≡ a) × DescribeTopicRequestAccepts a
unfolding check_describe_topic_request
accepted_describe_topic_request a b e = ground arith

abbrev pub DescribeTopicRequestValid : DescribeTopicRequest → Type 0
DescribeTopicRequestValid r = (DescribeTopicRequestFits r) × (DescribeTopicRequestAccepts r)

pub describe_topic_request_codec :
    IsCodec DescribeTopicRequestValid encode_describe_topic_request decode_describe_topic_request
unfolding decode_describe_topic_request
describe_topic_request_codec =
    codec _ _ describe_topic_request_Reads describe_topic_request_Parses
      accept_describe_topic_request accepted_describe_topic_request

abbrev pub DeleteTopicRequestFits : DeleteTopicRequest → Type 0
DeleteTopicRequestFits r = IsSized r.topic

pub delete_topic_request_Reads :
    Reads DeleteTopicRequestFits encode_delete_topic_request read_delete_topic_request
unfolding encode_delete_topic_request read_delete_topic_request
delete_topic_request_Reads = record { at = λ r rest h. simp append_assoc (step string_Reads _ h) }

pub delete_topic_request_Parses :
    Parses DeleteTopicRequestFits [] read_delete_topic_request encode_delete_topic_request
unfolding encode_delete_topic_request read_delete_topic_request
delete_topic_request_Parses =
    Parses-bind string_Parses λ topic h0. Parses-pure _ (simp append-nil) h0

abbrev pub DeleteTopicRequestAccepts : DeleteTopicRequest → Type 0
DeleteTopicRequestAccepts r = (r.topic ≢ [])

accept_delete_topic_request :
    (r : DeleteTopicRequest) → DeleteTopicRequestAccepts r → check_delete_topic_request r ≡ ok r
unfolding check_delete_topic_request
accept_delete_topic_request r h = ground arith

accepted_delete_topic_request :
    (a b : DeleteTopicRequest)
    → check_delete_topic_request b ≡ ok a
    → (b ≡ a) × DeleteTopicRequestAccepts a
unfolding check_delete_topic_request
accepted_delete_topic_request a b e = ground arith

abbrev pub DeleteTopicRequestValid : DeleteTopicRequest → Type 0
DeleteTopicRequestValid r = (DeleteTopicRequestFits r) × (DeleteTopicRequestAccepts r)

pub delete_topic_request_codec :
    IsCodec DeleteTopicRequestValid encode_delete_topic_request decode_delete_topic_request
unfolding decode_delete_topic_request
delete_topic_request_codec =
    codec _ _ delete_topic_request_Reads delete_topic_request_Parses accept_delete_topic_request
      accepted_delete_topic_request

abbrev pub DeleteTopicResponseFits : DeleteTopicResponse → Type 0
DeleteTopicResponseFits r =
    IsSized r.topic
    × IsSized r.status
    × IsU16 r.partitions_deleted
    × IsU32 r.segments_deleted
    × IsU64 r.bytes_deleted
    × IsU32 r.offsets_removed

pub delete_topic_response_Reads :
    Reads DeleteTopicResponseFits encode_delete_topic_response read_delete_topic_response
unfolding encode_delete_topic_response read_delete_topic_response
delete_topic_response_Reads = record {
  at = λ r rest h. simp append_assoc (
      step string_Reads _ h.0
      ∙ step string_Reads _ h.1
      ∙ step read_u16-Reads _ h.2
      ∙ step read_u32-Reads _ h.3
      ∙ step read_u64-Reads _ h.4
      ∙ step read_u32-Reads _ h.5);
}

pub delete_topic_response_Parses :
    Parses DeleteTopicResponseFits [] read_delete_topic_response encode_delete_topic_response
unfolding encode_delete_topic_response read_delete_topic_response
delete_topic_response_Parses = Parses-bind string_Parses λ topic h0.
    Parses-bind string_Parses λ status h1. Parses-bind read_u16-Parses λ partitions_deleted h2.
      Parses-bind read_u32-Parses λ segments_deleted h3.
        Parses-bind read_u64-Parses λ bytes_deleted h4.
          Parses-bind read_u32-Parses λ offsets_removed h5.
            Parses-pure _ (simp (append_assoc, append-nil)) (h0, h1, h2, h3, h4, h5)

abbrev pub DeleteTopicResponseValid : DeleteTopicResponse → Type 0
DeleteTopicResponseValid r = DeleteTopicResponseFits r

pub delete_topic_response_codec :
    IsCodec DeleteTopicResponseValid encode_delete_topic_response decode_delete_topic_response
unfolding decode_delete_topic_response
delete_topic_response_codec =
    codec_unchecked _ _ delete_topic_response_Reads delete_topic_response_Parses
