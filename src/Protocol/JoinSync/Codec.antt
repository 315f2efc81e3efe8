-- ===== src/Protocol/JoinSync/Codec.antt =====
-- The join-group and sync-group messages: which values fit their
-- fields and pass the checks, and the rules for each reader with its writer.
use bolt_stream.Base.{◌<◌, ◌≡◌, ◌≢◌, ◌∙◌, [], arith, length, All, append_assoc, append-nil}
use bolt_stream.Protocol.Wire.{IsU16, IsU32, IsU64, IsSized}
use bolt_stream.Protocol.Wire.Reads.{
  Reads, step, read_u16-Reads, read_u32-Reads, read_u64-Reads, string_Reads, list_Reads,
}
use bolt_stream.Protocol.Wire.Parses.{
  Parses, Parses-bind, Parses-pure, read_u16-Parses, read_u32-Parses, read_u64-Parses,
  string_Parses, list_Parses,
}
use bolt_stream.Protocol.Types.{ok}
use bolt_stream.Protocol.Decode.{IsCodec, codec, codec_unchecked}
use bolt_stream.Protocol.JoinSync.{
  JoinGroupRequest, encode_join_group_request, read_join_group_request, check_join_group_request,
  decode_join_group_request, JoinGroupResponse, encode_join_group_response,
  read_join_group_response, decode_join_group_response, SyncGroupRequest, encode_sync_group_request,
  read_sync_group_request, check_sync_group_request, decode_sync_group_request, SyncGroupResponse,
  encode_sync_group_response, read_sync_group_response, decode_sync_group_response,
}

abbrev pub JoinGroupRequestFits : JoinGroupRequest → Type 0
JoinGroupRequestFits r =
    IsSized r.group × IsSized r.topic × IsSized r.member_id × IsU32 r.session_timeout_ms

pub join_group_request_Reads :
    Reads JoinGroupRequestFits encode_join_group_request read_join_group_request
unfolding encode_join_group_request read_join_group_request
join_group_request_Reads = record {
  at = λ r rest h. simp append_assoc (
      step string_Reads _ h.0
      ∙ step string_Reads _ h.1
      ∙ step string_Reads _ h.2
      ∙ step read_u32-Reads _ h.3);
}

pub join_group_request_Parses :
    Parses JoinGroupRequestFits [] read_join_group_request encode_join_group_request
unfolding encode_join_group_request read_join_group_request
join_group_request_Parses = Parses-bind string_Parses λ group h0.
    Parses-bind string_Parses λ topic h1. Parses-bind string_Parses λ member_id h2.
      Parses-bind read_u32-Parses
        λ session_timeout_ms h3. Parses-pure _ (simp (append_assoc, append-nil)) (h0, h1, h2, h3)

abbrev pub JoinGroupRequestAccepts : JoinGroupRequest → Type 0
JoinGroupRequestAccepts r = (r.group ≢ []) × (r.topic ≢ []) × (0 < r.session_timeout_ms)

accept_join_group_request :
    (r : JoinGroupRequest) → JoinGroupRequestAccepts r → check_join_group_request r ≡ ok r
unfolding check_join_group_request
accept_join_group_request r h = ground arith

accepted_join_group_request :
    (a b : JoinGroupRequest)
    → check_join_group_request b ≡ ok a
    → (b ≡ a) × JoinGroupRequestAccepts a
unfolding check_join_group_request
accepted_join_group_request a b e = ground arith

abbrev pub JoinGroupRequestValid : JoinGroupRequest → Type 0
JoinGroupRequestValid r = (JoinGroupRequestFits r) × (JoinGroupRequestAccepts r)

pub join_group_request_codec :
    IsCodec JoinGroupRequestValid encode_join_group_request decode_join_group_request
unfolding decode_join_group_request
join_group_request_codec =
    codec _ _ join_group_request_Reads join_group_request_Parses accept_join_group_request
      accepted_join_group_request

abbrev pub JoinGroupResponseFits : JoinGroupResponse → Type 0
JoinGroupResponseFits r =
    IsSized r.group × IsSized r.topic × IsSized r.member_id × IsU64 r.generation_id

pub join_group_response_Reads :
    Reads JoinGroupResponseFits encode_join_group_response read_join_group_response
unfolding encode_join_group_response read_join_group_response
join_group_response_Reads = record {
  at = λ r rest h. simp append_assoc (
      step string_Reads _ h.0
      ∙ step string_Reads _ h.1
      ∙ step string_Reads _ h.2
      ∙ step read_u64-Reads _ h.3);
}

pub join_group_response_Parses :
    Parses JoinGroupResponseFits [] read_join_group_response encode_join_group_response
unfolding encode_join_group_response read_join_group_response
join_group_response_Parses = Parses-bind string_Parses λ group h0.
    Parses-bind string_Parses λ topic h1. Parses-bind string_Parses λ member_id h2.
      Parses-bind read_u64-Parses
        λ generation_id h3. Parses-pure _ (simp (append_assoc, append-nil)) (h0, h1, h2, h3)

abbrev pub JoinGroupResponseValid : JoinGroupResponse → Type 0
JoinGroupResponseValid r = JoinGroupResponseFits r

pub join_group_response_codec :
    IsCodec JoinGroupResponseValid encode_join_group_response decode_join_group_response
unfolding decode_join_group_response
join_group_response_codec = codec_unchecked _ _ join_group_response_Reads join_group_response_Parses

abbrev pub SyncGroupRequestFits : SyncGroupRequest → Type 0
SyncGroupRequestFits r =
    IsSized r.group × IsSized r.topic × IsSized r.member_id × IsU64 r.generation_id

pub sync_group_request_Reads :
    Reads SyncGroupRequestFits encode_sync_group_request read_sync_group_request
unfolding encode_sync_group_request read_sync_group_request
sync_group_request_Reads = record {
  at = λ r rest h. simp append_assoc (
      step string_Reads _ h.0
      ∙ step string_Reads _ h.1
      ∙ step string_Reads _ h.2
      ∙ step read_u64-Reads _ h.3);
}

pub sync_group_request_Parses :
    Parses SyncGroupRequestFits [] read_sync_group_request encode_sync_group_request
unfolding encode_sync_group_request read_sync_group_request
sync_group_request_Parses = Parses-bind string_Parses λ group h0.
    Parses-bind string_Parses λ topic h1. Parses-bind string_Parses λ member_id h2.
      Parses-bind read_u64-Parses
        λ generation_id h3. Parses-pure _ (simp (append_assoc, append-nil)) (h0, h1, h2, h3)

abbrev pub SyncGroupRequestAccepts : SyncGroupRequest → Type 0
SyncGroupRequestAccepts r =
    (r.group ≢ []) × (r.topic ≢ []) × (r.member_id ≢ []) × (0 < r.generation_id)

accept_sync_group_request :
    (r : SyncGroupRequest) → SyncGroupRequestAccepts r → check_sync_group_request r ≡ ok r
unfolding check_sync_group_request
accept_sync_group_request r h = ground arith

accepted_sync_group_request :
    (a b : SyncGroupRequest)
    → check_sync_group_request b ≡ ok a
    → (b ≡ a) × SyncGroupRequestAccepts a
unfolding check_sync_group_request
accepted_sync_group_request a b e = ground arith

abbrev pub SyncGroupRequestValid : SyncGroupRequest → Type 0
SyncGroupRequestValid r = (SyncGroupRequestFits r) × (SyncGroupRequestAccepts r)

pub sync_group_request_codec :
    IsCodec SyncGroupRequestValid encode_sync_group_request decode_sync_group_request
unfolding decode_sync_group_request
sync_group_request_codec =
    codec _ _ sync_group_request_Reads sync_group_request_Parses accept_sync_group_request
      accepted_sync_group_request

abbrev pub SyncGroupResponseFits : SyncGroupResponse → Type 0
SyncGroupResponseFits r =
    IsSized r.group
    × IsSized r.topic
    × IsSized r.member_id
    × IsU64 r.generation_id
    × (IsU32 (length r.assignment) × All IsU16 r.assignment)

pub sync_group_response_Reads :
    Reads SyncGroupResponseFits encode_sync_group_response read_sync_group_response
unfolding encode_sync_group_response read_sync_group_response
sync_group_response_Reads = record {
  at = λ r rest h. simp append_assoc (
      step string_Reads _ h.0
      ∙ step string_Reads _ h.1
      ∙ step string_Reads _ h.2
      ∙ step read_u64-Reads _ h.3
      ∙ step (list_Reads read_u16-Reads) _ h.4);
}

pub sync_group_response_Parses :
    Parses SyncGroupResponseFits [] read_sync_group_response encode_sync_group_response
unfolding encode_sync_group_response read_sync_group_response
sync_group_response_Parses = Parses-bind string_Parses λ group h0.
    Parses-bind string_Parses λ topic h1. Parses-bind string_Parses λ member_id h2.
      Parses-bind read_u64-Parses λ generation_id h3.
        Parses-bind (list_Parses read_u16-Parses)
          λ assignment h4. Parses-pure _ (simp (append_assoc, append-nil)) (h0, h1, h2, h3, h4)

abbrev pub SyncGroupResponseValid : SyncGroupResponse → Type 0
SyncGroupResponseValid r = SyncGroupResponseFits r

pub sync_group_response_codec :
    IsCodec SyncGroupResponseValid encode_sync_group_response decode_sync_group_response
unfolding decode_sync_group_response
sync_group_response_codec = codec_unchecked _ _ sync_group_response_Reads sync_group_response_Parses
