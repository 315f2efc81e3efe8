-- ===== src/Protocol/Commits/Codec.antt =====
-- The offset-commit messages, with and without a group generation: which values fit their
-- fields and pass the checks, and the rules for each reader with its writer.
use bolt_stream.Base.{◌<◌, ◌≡◌, ◌≢◌, ◌∙◌, [], arith, append_assoc, append-nil}
use bolt_stream.Protocol.Wire.{IsU16, IsU64, IsSized}
use bolt_stream.Protocol.Wire.Reads.{Reads, step, read_u16-Reads, read_u64-Reads, string_Reads}
use bolt_stream.Protocol.Wire.Parses.{
  Parses, Parses-bind, Parses-pure, read_u16-Parses, read_u64-Parses, string_Parses,
}
use bolt_stream.Protocol.Types.{ok}
use bolt_stream.Protocol.Decode.{IsCodec, codec, codec_unchecked}
use bolt_stream.Protocol.Commits.{
  OffsetCommitRequest, encode_offset_commit_request, read_offset_commit_request,
  check_offset_commit_request, decode_offset_commit_request, OffsetCommitResponse,
  encode_offset_commit_response, read_offset_commit_response, decode_offset_commit_response,
  GroupOffsetCommitRequest, encode_group_offset_commit_request, read_group_offset_commit_request,
  check_group_offset_commit_request, decode_group_offset_commit_request, GroupOffsetCommitResponse,
  encode_group_offset_commit_response, read_group_offset_commit_response,
  decode_group_offset_commit_response,
}

abbrev pub OffsetCommitRequestFits : OffsetCommitRequest → Type 0
OffsetCommitRequestFits r =
    IsSized r.group × IsSized r.topic × IsU16 r.partition × IsU64 r.next_offset

pub offset_commit_request_Reads :
    Reads OffsetCommitRequestFits encode_offset_commit_request read_offset_commit_request
unfolding encode_offset_commit_request read_offset_commit_request
offset_commit_request_Reads = record {
  at = λ r rest h. simp append_assoc (
      step string_Reads _ h.0
      ∙ step string_Reads _ h.1
      ∙ step read_u16-Reads _ h.2
      ∙ step read_u64-Reads _ h.3);
}

pub offset_commit_request_Parses :
    Parses OffsetCommitRequestFits [] read_offset_commit_request encode_offset_commit_request
unfolding encode_offset_commit_request read_offset_commit_request
offset_commit_request_Parses = Parses-bind string_Parses λ group h0.
    Parses-bind string_Parses λ topic h1. Parses-bind read_u16-Parses λ partition h2.
      Parses-bind read_u64-Parses
        λ next_offset h3. Parses-pure _ (simp (append_assoc, append-nil)) (h0, h1, h2, h3)

abbrev pub OffsetCommitRequestAccepts : OffsetCommitRequest → Type 0
OffsetCommitRequestAccepts r = (r.group ≢ []) × (r.topic ≢ [])

accept_offset_commit_request :
    (r : OffsetCommitRequest) → OffsetCommitRequestAccepts r → check_offset_commit_request r ≡ ok r
unfolding check_offset_commit_request
accept_offset_commit_request r h = ground arith

accepted_offset_commit_request :
    (a b : OffsetCommitRequest)
    → check_offset_commit_request b ≡ ok a
    → (b ≡ a) × OffsetCommitRequestAccepts a
unfolding check_offset_commit_request
accepted_offset_commit_request a b e = ground arith

abbrev pub OffsetCommitRequestValid : OffsetCommitRequest → Type 0
OffsetCommitRequestValid r = (OffsetCommitRequestFits r) × (OffsetCommitRequestAccepts r)

pub offset_commit_request_codec :
    IsCodec OffsetCommitRequestValid encode_offset_commit_request decode_offset_commit_request
unfolding decode_offset_commit_request
offset_commit_request_codec =
    codec _ _ offset_commit_request_Reads offset_commit_request_Parses accept_offset_commit_request
      accepted_offset_commit_request

abbrev pub OffsetCommitResponseFits : OffsetCommitResponse → Type 0
OffsetCommitResponseFits r =
    IsSized r.group × IsSized r.topic × IsU16 r.partition × IsU64 r.next_offset

pub offset_commit_response_Reads :
    Reads OffsetCommitResponseFits encode_offset_commit_response read_offset_commit_response
unfolding encode_offset_commit_response read_offset_commit_response
offset_commit_response_Reads = record {
  at = λ r rest h. simp append_assoc (
      step string_Reads _ h.0
      ∙ step string_Reads _ h.1
      ∙ step read_u16-Reads _ h.2
      ∙ step read_u64-Reads _ h.3);
}

pub offset_commit_response_Parses :
    Parses OffsetCommitResponseFits [] read_offset_commit_response encode_offset_commit_response
unfolding encode_offset_commit_response read_offset_commit_response
offset_commit_response_Parses = Parses-bind string_Parses λ group h0.
    Parses-bind string_Parses λ topic h1. Parses-bind read_u16-Parses λ partition h2.
      Parses-bind read_u64-Parses
        λ next_offset h3. Parses-pure _ (simp (append_assoc, append-nil)) (h0, h1, h2, h3)

abbrev pub OffsetCommitResponseValid : OffsetCommitResponse → Type 0
OffsetCommitResponseValid r = OffsetCommitResponseFits r

pub offset_commit_response_codec :
    IsCodec OffsetCommitResponseValid encode_offset_commit_response decode_offset_commit_response
unfolding decode_offset_commit_response
offset_commit_response_codec =
    codec_unchecked _ _ offset_commit_response_Reads offset_commit_response_Parses

abbrev pub GroupOffsetCommitRequestFits : GroupOffsetCommitRequest → Type 0
GroupOffsetCommitRequestFits r =
    IsSized r.group
    × IsSized r.topic
    × IsSized r.member_id
    × IsU64 r.generation_id
    × IsU16 r.partition
    × IsU64 r.next_offset

pub group_offset_commit_request_Reads :
    Reads GroupOffsetCommitRequestFits encode_group_offset_commit_request
      read_group_offset_commit_request
unfolding encode_group_offset_commit_request read_group_offset_commit_request
group_offset_commit_request_Reads = record {
  at = λ r rest h. simp append_assoc (
      step string_Reads _ h.0
      ∙ step string_Reads _ h.1
      ∙ step string_Reads _ h.2
      ∙ step read_u64-Reads _ h.3
      ∙ step read_u16-Reads _ h.4
      ∙ step read_u64-Reads _ h.5);
}

pub group_offset_commit_request_Parses :
    Parses GroupOffsetCommitRequestFits [] read_group_offset_commit_request
      encode_group_offset_commit_request
unfolding encode_group_offset_commit_request read_group_offset_commit_request
group_offset_commit_request_Parses = Parses-bind string_Parses λ group h0.
    Parses-bind string_Parses λ topic h1. Parses-bind string_Parses λ member_id h2.
      Parses-bind read_u64-Parses λ generation_id h3. Parses-bind read_u16-Parses λ partition h4.
        Parses-bind read_u64-Parses
          λ next_offset h5. Parses-pure _ (simp (append_assoc, append-nil)) (h0, h1, h2, h3, h4, h5)

abbrev pub GroupOffsetCommitRequestAccepts : GroupOffsetCommitRequest → Type 0
GroupOffsetCommitRequestAccepts r =
    (r.group ≢ []) × (r.topic ≢ []) × (r.member_id ≢ []) × (0 < r.generation_id)

accept_group_offset_commit_request :
    (r : GroupOffsetCommitRequest)
    → GroupOffsetCommitRequestAccepts r
    → check_group_offset_commit_request r ≡ ok r
unfolding check_group_offset_commit_request
accept_group_offset_commit_request r h = ground arith

accepted_group_offset_commit_request :
    (a b : GroupOffsetCommitRequest)
    → check_group_offset_commit_request b ≡ ok a
    → (b ≡ a) × GroupOffsetCommitRequestAccepts a
unfolding check_group_offset_commit_request
accepted_group_offset_commit_request a b e = ground arith

abbrev pub GroupOffsetCommitRequestValid : GroupOffsetCommitRequest → Type 0
GroupOffsetCommitRequestValid r =
    (GroupOffsetCommitRequestFits r) × (GroupOffsetCommitRequestAccepts r)

pub group_offset_commit_request_codec :
    IsCodec GroupOffsetCommitRequestValid encode_group_offset_commit_request
      decode_group_offset_commit_request
unfolding decode_group_offset_commit_request
group_offset_commit_request_codec =
    codec _ _ group_offset_commit_request_Reads group_offset_commit_request_Parses
      accept_group_offset_commit_request accepted_group_offset_commit_request

abbrev pub GroupOffsetCommitResponseFits : GroupOffsetCommitResponse → Type 0
GroupOffsetCommitResponseFits r =
    IsSized r.group
    × IsSized r.topic
    × IsSized r.member_id
    × IsU64 r.generation_id
    × IsU16 r.partition
    × IsU64 r.next_offset

pub group_offset_commit_response_Reads :
    Reads GroupOffsetCommitResponseFits encode_group_offset_commit_response
      read_group_offset_commit_response
unfolding encode_group_offset_commit_response read_group_offset_commit_response
group_offset_commit_response_Reads = record {
  at = λ r rest h. simp append_assoc (
      step string_Reads _ h.0
      ∙ step string_Reads _ h.1
      ∙ step string_Reads _ h.2
      ∙ step read_u64-Reads _ h.3
      ∙ step read_u16-Reads _ h.4
      ∙ step read_u64-Reads _ h.5);
}

pub group_offset_commit_response_Parses :
    Parses GroupOffsetCommitResponseFits [] read_group_offset_commit_response
      encode_group_offset_commit_response
unfolding encode_group_offset_commit_response read_group_offset_commit_response
group_offset_commit_response_Parses = Parses-bind string_Parses λ group h0.
    Parses-bind string_Parses λ topic h1. Parses-bind string_Parses λ member_id h2.
      Parses-bind read_u64-Parses λ generation_id h3. Parses-bind read_u16-Parses λ partition h4.
        Parses-bind read_u64-Parses
          λ next_offset h5. Parses-pure _ (simp (append_assoc, append-nil)) (h0, h1, h2, h3, h4, h5)

abbrev pub GroupOffsetCommitResponseValid : GroupOffsetCommitResponse → Type 0
GroupOffsetCommitResponseValid r = GroupOffsetCommitResponseFits r

pub group_offset_commit_response_codec :
    IsCodec GroupOffsetCommitResponseValid encode_group_offset_commit_response
      decode_group_offset_commit_response
unfolding decode_group_offset_commit_response
group_offset_commit_response_codec =
    codec_unchecked _ _ group_offset_commit_response_Reads group_offset_commit_response_Parses
