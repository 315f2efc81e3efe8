-- ===== src/Protocol/HeartbeatLeave/Codec.antt =====
-- The heartbeat and leave-group messages: which values fit their
-- fields and pass the checks, and the rules for each reader with its writer.
use bolt_stream.Base.{◌<◌, ◌≡◌, ◌≢◌, ◌∙◌, [], arith, append_assoc, append-nil}
use bolt_stream.Protocol.Wire.{IsU64, IsSized}
use bolt_stream.Protocol.Wire.Reads.{Reads, step, read_u64-Reads, string_Reads}
use bolt_stream.Protocol.Wire.Parses.{
  Parses, Parses-bind, Parses-pure, read_u64-Parses, string_Parses,
}
use bolt_stream.Protocol.Types.{ok}
use bolt_stream.Protocol.Decode.{IsCodec, codec, codec_unchecked}
use bolt_stream.Protocol.HeartbeatLeave.{
  HeartbeatRequest, encode_heartbeat_request, read_heartbeat_request, check_heartbeat_request,
  decode_heartbeat_request, HeartbeatResponse, encode_heartbeat_response, read_heartbeat_response,
  decode_heartbeat_response, LeaveGroupRequest, encode_leave_group_request,
  read_leave_group_request, check_leave_group_request, decode_leave_group_request,
  LeaveGroupResponse, encode_leave_group_response, read_leave_group_response,
  decode_leave_group_response,
}

abbrev pub HeartbeatRequestFits : HeartbeatRequest → Type 0
HeartbeatRequestFits r =
    IsSized r.group × IsSized r.topic × IsSized r.member_id × IsU64 r.generation_id

pub heartbeat_request_Reads :
    Reads HeartbeatRequestFits encode_heartbeat_request read_heartbeat_request
unfolding encode_heartbeat_request read_heartbeat_request
heartbeat_request_Reads = record {
  at = λ r rest h. simp append_assoc (
      step string_Reads _ h.0
      ∙ step string_Reads _ h.1
      ∙ step string_Reads _ h.2
      ∙ step read_u64-Reads _ h.3);
}

pub heartbeat_request_Parses :
    Parses HeartbeatRequestFits [] read_heartbeat_request encode_heartbeat_request
unfolding encode_heartbeat_request read_heartbeat_request
heartbeat_request_Parses = Parses-bind string_Parses λ group h0.
    Parses-bind string_Parses λ topic h1. Parses-bind string_Parses λ member_id h2.
      Parses-bind read_u64-Parses
        λ generation_id h3. Parses-pure _ (simp (append_assoc, append-nil)) (h0, h1, h2, h3)

abbrev pub HeartbeatRequestAccepts : HeartbeatRequest → Type 0
HeartbeatRequestAccepts r =
    (r.group ≢ []) × (r.topic ≢ []) × (r.member_id ≢ []) × (0 < r.generation_id)

accept_heartbeat_request :
    (r : HeartbeatRequest) → HeartbeatRequestAccepts r → check_heartbeat_request r ≡ ok r
unfolding check_heartbeat_request
accept_heartbeat_request r h = ground arith

accepted_heartbeat_request :
    (a b : HeartbeatRequest)
    → check_heartbeat_request b ≡ ok a
    → (b ≡ a) × HeartbeatRequestAccepts a
unfolding check_heartbeat_request
accepted_heartbeat_request a b e = ground arith

abbrev pub HeartbeatRequestValid : HeartbeatRequest → Type 0
HeartbeatRequestValid r = (HeartbeatRequestFits r) × (HeartbeatRequestAccepts r)

pub heartbeat_request_codec :
    IsCodec HeartbeatRequestValid encode_heartbeat_request decode_heartbeat_request
unfolding decode_heartbeat_request
heartbeat_request_codec =
    codec _ _ heartbeat_request_Reads heartbeat_request_Parses accept_heartbeat_request
      accepted_heartbeat_request

abbrev pub HeartbeatResponseFits : HeartbeatResponse → Type 0
HeartbeatResponseFits r =
    IsSized r.group
    × IsSized r.topic
    × IsSized r.member_id
    × IsU64 r.generation_id
    × IsSized r.status

pub heartbeat_response_Reads :
    Reads HeartbeatResponseFits encode_heartbeat_response read_heartbeat_response
unfolding encode_heartbeat_response read_heartbeat_response
heartbeat_response_Reads = record {
  at = λ r rest h. simp append_assoc (
      step string_Reads _ h.0
      ∙ step string_Reads _ h.1
      ∙ step string_Reads _ h.2
      ∙ step read_u64-Reads _ h.3
      ∙ step string_Reads _ h.4);
}

pub heartbeat_response_Parses :
    Parses HeartbeatResponseFits [] read_heartbeat_response encode_heartbeat_response
unfolding encode_heartbeat_response read_heartbeat_response
heartbeat_response_Parses = Parses-bind string_Parses λ group h0.
    Parses-bind string_Parses λ topic h1. Parses-bind string_Parses λ member_id h2.
      Parses-bind read_u64-Parses λ generation_id h3.
        Parses-bind string_Parses
          λ status h4. Parses-pure _ (simp (append_assoc, append-nil)) (h0, h1, h2, h3, h4)

abbrev pub HeartbeatResponseValid : HeartbeatResponse → Type 0
HeartbeatResponseValid r = HeartbeatResponseFits r

pub heartbeat_response_codec :
    IsCodec HeartbeatResponseValid encode_heartbeat_response decode_heartbeat_response
unfolding decode_heartbeat_response
heartbeat_response_codec = codec_unchecked _ _ heartbeat_response_Reads heartbeat_response_Parses

abbrev pub LeaveGroupRequestFits : LeaveGroupRequest → Type 0
LeaveGroupRequestFits r =
    IsSized r.group × IsSized r.topic × IsSized r.member_id × IsU64 r.generation_id

pub leave_group_request_Reads :
    Reads LeaveGroupRequestFits encode_leave_group_request read_leave_group_request
unfolding encode_leave_group_request read_leave_group_request
leave_group_request_Reads = record {
  at = λ r rest h. simp append_assoc (
      step string_Reads _ h.0
      ∙ step string_Reads _ h.1
      ∙ step string_Reads _ h.2
      ∙ step read_u64-Reads _ h.3);
}

pub leave_group_request_Parses :
    Parses LeaveGroupRequestFits [] read_leave_group_request encode_leave_group_request
unfolding encode_leave_group_request read_leave_group_request
leave_group_request_Parses = Parses-bind string_Parses λ group h0.
    Parses-bind string_Parses λ topic h1. Parses-bind string_Parses λ member_id h2.
      Parses-bind read_u64-Parses
        λ generation_id h3. Parses-pure _ (simp (append_assoc, append-nil)) (h0, h1, h2, h3)

abbrev pub LeaveGroupRequestAccepts : LeaveGroupRequest → Type 0
LeaveGroupRequestAccepts r =
    (r.group ≢ []) × (r.topic ≢ []) × (r.member_id ≢ []) × (0 < r.generation_id)

accept_leave_group_request :
    (r : LeaveGroupRequest) → LeaveGroupRequestAccepts r → check_leave_group_request r ≡ ok r
unfolding check_leave_group_request
accept_leave_group_request r h = ground arith

accepted_leave_group_request :
    (a b : LeaveGroupRequest)
    → check_leave_group_request b ≡ ok a
    → (b ≡ a) × LeaveGroupRequestAccepts a
unfolding check_leave_group_request
accepted_leave_group_request a b e = ground arith

abbrev pub LeaveGroupRequestValid : LeaveGroupRequest → Type 0
LeaveGroupRequestValid r = (LeaveGroupRequestFits r) × (LeaveGroupRequestAccepts r)

pub leave_group_request_codec :
    IsCodec LeaveGroupRequestValid encode_leave_group_request decode_leave_group_request
unfolding decode_leave_group_request
leave_group_request_codec =
    codec _ _ leave_group_request_Reads leave_group_request_Parses accept_leave_group_request
      accepted_leave_group_request

abbrev pub LeaveGroupResponseFits : LeaveGroupResponse → Type 0
LeaveGroupResponseFits r =
    IsSized r.group
    × IsSized r.topic
    × IsSized r.member_id
    × IsU64 r.generation_id
    × IsSized r.status

pub leave_group_response_Reads :
    Reads LeaveGroupResponseFits encode_leave_group_response read_leave_group_response
unfolding encode_leave_group_response read_leave_group_response
leave_group_response_Reads = record {
  at = λ r rest h. simp append_assoc (
      step string_Reads _ h.0
      ∙ step string_Reads _ h.1
      ∙ step string_Reads _ h.2
      ∙ step read_u64-Reads _ h.3
      ∙ step string_Reads _ h.4);
}

pub leave_group_response_Parses :
    Parses LeaveGroupResponseFits [] read_leave_group_response encode_leave_group_response
unfolding encode_leave_group_response read_leave_group_response
leave_group_response_Parses = Parses-bind string_Parses λ group h0.
    Parses-bind string_Parses λ topic h1. Parses-bind string_Parses λ member_id h2.
      Parses-bind read_u64-Parses λ generation_id h3.
        Parses-bind string_Parses
          λ status h4. Parses-pure _ (simp (append_assoc, append-nil)) (h0, h1, h2, h3, h4)

abbrev pub LeaveGroupResponseValid : LeaveGroupResponse → Type 0
LeaveGroupResponseValid r = LeaveGroupResponseFits r

pub leave_group_response_codec :
    IsCodec LeaveGroupResponseValid encode_leave_group_response decode_leave_group_response
unfolding decode_leave_group_response
leave_group_response_codec =
    codec_unchecked _ _ leave_group_response_Reads leave_group_response_Parses
