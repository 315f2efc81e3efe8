-- ===== src/Protocol/GroupAdmin/Codec.antt =====
-- The messages that describe a group and reset its offsets: which values fit their
-- fields and pass the checks, and the rules for each reader with its writer.
use bolt_stream.Base.{◌≡◌, ◌≢◌, ◌∙◌, [], arith, length, All, append_assoc, append-nil}
use bolt_stream.Protocol.Wire.{IsU16, IsU32, IsU64, IsSized}
use bolt_stream.Protocol.Wire.Reads.{
  Reads, step, read_u16-Reads, read_u32-Reads, read_u64-Reads, string_Reads, bool_Reads, list_Reads,
}
use bolt_stream.Protocol.Wire.Parses.{
  Parses, Parses-bind, Parses-pure, read_u16-Parses, read_u32-Parses, read_u64-Parses,
  string_Parses, bool_Parses, list_Parses,
}
use bolt_stream.Protocol.Types.{ok}
use bolt_stream.Protocol.Decode.{IsCodec, codec, codec_unchecked}
use bolt_stream.Protocol.GroupAdmin.{
  DescribeGroupRequest, encode_describe_group_request, read_describe_group_request,
  check_describe_group_request, decode_describe_group_request, GroupOffsetDescription,
  write_group_offset_description, read_group_offset_description, DescribeGroupResponse,
  encode_describe_group_response, read_describe_group_response, decode_describe_group_response,
  ResetGroupOffsetRequest, encode_reset_group_offset_request, read_reset_group_offset_request,
  check_reset_group_offset_request, decode_reset_group_offset_request, ResetGroupOffsetResponse,
  encode_reset_group_offset_response, read_reset_group_offset_response,
  decode_reset_group_offset_response,
}

abbrev pub DescribeGroupRequestFits : DescribeGroupRequest → Type 0
DescribeGroupRequestFits r = IsSized r.group × IsSized r.topic

pub describe_group_request_Reads :
    Reads DescribeGroupRequestFits encode_describe_group_request read_describe_group_request
unfolding encode_describe_group_request read_describe_group_request
describe_group_request_Reads = record {
  at = λ r rest h. simp append_assoc (step string_Reads _ h.0 ∙ step string_Reads _ h.1);
}

pub describe_group_request_Parses :
    Parses DescribeGroupRequestFits [] read_describe_group_request encode_describe_group_request
unfolding encode_describe_group_request read_describe_group_request
describe_group_request_Parses = Parses-bind string_Parses λ group h0.
    Parses-bind string_Parses λ topic h1. Parses-pure _ (simp (append_assoc, append-nil)) (h0, h1)

abbrev pub DescribeGroupRequestAccepts : DescribeGroupRequest → Type 0
DescribeGroupRequestAccepts r = (r.group ≢ []) × (r.topic ≢ [])

accept_describe_group_request :
    (r : DescribeGroupRequest)
    → DescribeGroupRequestAccepts r
    → check_describe_group_request r ≡ ok r
unfolding check_describe_group_request
accept_describe_group_request r h = ground arith

accepted_describe_group_request :
    (a b : DescribeGroupRequest)
    → check_describe_group_request b ≡ ok a
    → (b ≡ a) × DescribeGroupRequestAccepts a
unfolding check_describe_group_request
accepted_describe_group_request a b e = ground arith

abbrev pub DescribeGroupRequestValid : DescribeGroupRequest → Type 0
DescribeGroupRequestValid r = (DescribeGroupRequestFits r) × (DescribeGroupRequestAccepts r)

pub describe_group_request_codec :
    IsCodec DescribeGroupRequestValid encode_describe_group_request decode_describe_group_request
unfolding decode_describe_group_request
describe_group_request_codec =
    codec _ _ describe_group_request_Reads describe_group_request_Parses
      accept_describe_group_request accepted_describe_group_request

abbrev pub GroupOffsetDescriptionFits : GroupOffsetDescription → Type 0
GroupOffsetDescriptionFits r =
    IsU16 r.partition
    × Unit {0}
    × IsU64 r.committed_offset
    × IsU64 r.earliest_offset
    × IsU64 r.next_offset
    × IsU64 r.lag
    × Unit {0}

pub group_offset_description_Reads :
    Reads GroupOffsetDescriptionFits write_group_offset_description read_group_offset_description
unfolding write_group_offset_description read_group_offset_description
group_offset_description_Reads = record {
  at = λ r rest h. simp append_assoc (
      step read_u16-Reads _ h.0
      ∙ step bool_Reads _ tt
      ∙ step read_u64-Reads _ h.2
      ∙ step read_u64-Reads _ h.3
      ∙ step read_u64-Reads _ h.4
      ∙ step read_u64-Reads _ h.5
      ∙ step bool_Reads _ tt);
}

pub group_offset_description_Parses :
    Parses GroupOffsetDescriptionFits [] read_group_offset_description
      write_group_offset_description
unfolding write_group_offset_description read_group_offset_description
group_offset_description_Parses = Parses-bind read_u16-Parses λ partition h0.
    Parses-bind bool_Parses λ has_committed_offset h1.
      Parses-bind read_u64-Parses λ committed_offset h2.
        Parses-bind read_u64-Parses λ earliest_offset h3.
          Parses-bind read_u64-Parses λ next_offset h4. Parses-bind read_u64-Parses λ lag h5.
            Parses-bind bool_Parses λ out_of_range h6.
              Parses-pure _ (simp (append_assoc, append-nil)) (h0, tt, h2, h3, h4, h5, tt)

abbrev pub DescribeGroupResponseFits : DescribeGroupResponse → Type 0
DescribeGroupResponseFits r =
    IsSized r.group
    × IsSized r.topic
    × IsU32 r.active_member_count
    × (IsU32 (length r.offsets) × All GroupOffsetDescriptionFits r.offsets)

pub describe_group_response_Reads :
    Reads DescribeGroupResponseFits encode_describe_group_response read_describe_group_response
unfolding encode_describe_group_response read_describe_group_response
describe_group_response_Reads = record {
  at = λ r rest h. simp append_assoc (
      step string_Reads _ h.0
      ∙ step string_Reads _ h.1
      ∙ step read_u32-Reads _ h.2
      ∙ step (list_Reads group_offset_description_Reads) _ h.3);
}

pub describe_group_response_Parses :
    Parses DescribeGroupResponseFits [] read_describe_group_response encode_describe_group_response
unfolding encode_describe_group_response read_describe_group_response
describe_group_response_Parses = Parses-bind string_Parses λ group h0.
    Parses-bind string_Parses λ topic h1. Parses-bind read_u32-Parses λ active_member_count h2.
      Parses-bind (list_Parses group_offset_description_Parses)
        λ offsets h3. Parses-pure _ (simp (append_assoc, append-nil)) (h0, h1, h2, h3)

abbrev pub DescribeGroupResponseValid : DescribeGroupResponse → Type 0
DescribeGroupResponseValid r = DescribeGroupResponseFits r

pub describe_group_response_codec :
    IsCodec DescribeGroupResponseValid encode_describe_group_response decode_describe_group_response
unfolding decode_describe_group_response
describe_group_response_codec =
    codec_unchecked _ _ describe_group_response_Reads describe_group_response_Parses

abbrev pub ResetGroupOffsetRequestFits : ResetGroupOffsetRequest → Type 0
ResetGroupOffsetRequestFits r = IsSized r.group × IsSized r.topic × IsU16 r.partition × IsSized r.to

pub reset_group_offset_request_Reads :
    Reads ResetGroupOffsetRequestFits encode_reset_group_offset_request
      read_reset_group_offset_request
unfolding encode_reset_group_offset_request read_reset_group_offset_request
reset_group_offset_request_Reads = record {
  at = λ r rest h. simp append_assoc (
      step string_Reads _ h.0
      ∙ step string_Reads _ h.1
      ∙ step read_u16-Reads _ h.2
      ∙ step string_Reads _ h.3);
}

pub reset_group_offset_request_Parses :
    Parses ResetGroupOffsetRequestFits [] read_reset_group_offset_request
      encode_reset_group_offset_request
unfolding encode_reset_group_offset_request read_reset_group_offset_request
reset_group_offset_request_Parses = Parses-bind string_Parses λ group h0.
    Parses-bind string_Parses λ topic h1. Parses-bind read_u16-Parses λ partition h2.
      Parses-bind string_Parses
        λ to h3. Parses-pure _ (simp (append_assoc, append-nil)) (h0, h1, h2, h3)

abbrev pub ResetGroupOffsetRequestAccepts : ResetGroupOffsetRequest → Type 0
ResetGroupOffsetRequestAccepts r = (r.group ≢ []) × (r.topic ≢ []) × (r.to ≢ [])

accept_reset_group_offset_request :
    (r : ResetGroupOffsetRequest)
    → ResetGroupOffsetRequestAccepts r
    → check_reset_group_offset_request r ≡ ok r
unfolding check_reset_group_offset_request
accept_reset_group_offset_request r h = ground arith

accepted_reset_group_offset_request :
    (a b : ResetGroupOffsetRequest)
    → check_reset_group_offset_request b ≡ ok a
    → (b ≡ a) × ResetGroupOffsetRequestAccepts a
unfolding check_reset_group_offset_request
accepted_reset_group_offset_request a b e = ground arith

abbrev pub ResetGroupOffsetRequestValid : ResetGroupOffsetRequest → Type 0
ResetGroupOffsetRequestValid r =
    (ResetGroupOffsetRequestFits r) × (ResetGroupOffsetRequestAccepts r)

pub reset_group_offset_request_codec :
    IsCodec ResetGroupOffsetRequestValid encode_reset_group_offset_request
      decode_reset_group_offset_request
unfolding decode_reset_group_offset_request
reset_group_offset_request_codec =
    codec _ _ reset_group_offset_request_Reads reset_group_offset_request_Parses
      accept_reset_group_offset_request accepted_reset_group_offset_request

abbrev pub ResetGroupOffsetResponseFits : ResetGroupOffsetResponse → Type 0
ResetGroupOffsetResponseFits r =
    IsSized r.group × IsSized r.topic × IsU16 r.partition × IsU64 r.next_offset × IsSized r.status

pub reset_group_offset_response_Reads :
    Reads ResetGroupOffsetResponseFits encode_reset_group_offset_response
      read_reset_group_offset_response
unfolding encode_reset_group_offset_response read_reset_group_offset_response
reset_group_offset_response_Reads = record {
  at = λ r rest h. simp append_assoc (
      step string_Reads _ h.0
      ∙ step string_Reads _ h.1
      ∙ step read_u16-Reads _ h.2
      ∙ step read_u64-Reads _ h.3
      ∙ step string_Reads _ h.4);
}

pub reset_group_offset_response_Parses :
    Parses ResetGroupOffsetResponseFits [] read_reset_group_offset_response
      encode_reset_group_offset_response
unfolding encode_reset_group_offset_response read_reset_group_offset_response
reset_group_offset_response_Parses = Parses-bind string_Parses λ group h0.
    Parses-bind string_Parses λ topic h1. Parses-bind read_u16-Parses λ partition h2.
      Parses-bind read_u64-Parses λ next_offset h3.
        Parses-bind string_Parses
          λ status h4. Parses-pure _ (simp (append_assoc, append-nil)) (h0, h1, h2, h3, h4)

abbrev pub ResetGroupOffsetResponseValid : ResetGroupOffsetResponse → Type 0
ResetGroupOffsetResponseValid r = ResetGroupOffsetResponseFits r

pub reset_group_offset_response_codec :
    IsCodec ResetGroupOffsetResponseValid encode_reset_group_offset_response
      decode_reset_group_offset_response
unfolding decode_reset_group_offset_response
reset_group_offset_response_codec =
    codec_unchecked _ _ reset_group_offset_response_Reads reset_group_offset_response_Parses
