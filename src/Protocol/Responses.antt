-- ===== src/Protocol/Responses.antt =====
-- The responses of src/protocol/protocol.cpp, one kind for each frame type: what the two functions of a
-- message promise, for all of them at once.
use bolt_stream.Base.{◌≡◌, All, Bytes}
use bolt_stream.Protocol.Types.{Decoded, ok}
use bolt_stream.Protocol.Wire.{IsByte}
use bolt_stream.Protocol.Errors.{ErrorResponse, encode_error_response, decode_error_response}
use bolt_stream.Protocol.Errors.Codec.{ErrorResponseValid, error_response_codec}
use bolt_stream.Protocol.Session.{
  HealthResponse, encode_health_response, decode_health_response, AuthResponse,
  encode_auth_response, decode_auth_response,
}
use bolt_stream.Protocol.Session.Codec.{
  HealthResponseValid, health_response_codec, AuthResponseValid, auth_response_codec,
}
use bolt_stream.Protocol.Produce.{
  ProduceResponse, encode_produce_response, decode_produce_response, ProduceBatchResponse,
  encode_produce_batch_response, decode_produce_batch_response,
}
use bolt_stream.Protocol.Produce.Codec.{
  ProduceResponseValid, produce_response_codec, ProduceBatchResponseValid,
  produce_batch_response_codec,
}
use bolt_stream.Protocol.Commits.{
  OffsetCommitResponse, encode_offset_commit_response, decode_offset_commit_response,
  GroupOffsetCommitResponse, encode_group_offset_commit_response,
  decode_group_offset_commit_response,
}
use bolt_stream.Protocol.Commits.Codec.{
  OffsetCommitResponseValid, offset_commit_response_codec, GroupOffsetCommitResponseValid,
  group_offset_commit_response_codec,
}
use bolt_stream.Protocol.TopicAdmin.{
  CreateTopicResponse, encode_create_topic_response, decode_create_topic_response,
  DeleteTopicResponse, encode_delete_topic_response, decode_delete_topic_response,
}
use bolt_stream.Protocol.TopicAdmin.Codec.{
  CreateTopicResponseValid, create_topic_response_codec, DeleteTopicResponseValid,
  delete_topic_response_codec,
}
use bolt_stream.Protocol.JoinSync.{
  JoinGroupResponse, encode_join_group_response, decode_join_group_response, SyncGroupResponse,
  encode_sync_group_response, decode_sync_group_response,
}
use bolt_stream.Protocol.JoinSync.Codec.{
  JoinGroupResponseValid, join_group_response_codec, SyncGroupResponseValid,
  sync_group_response_codec,
}
use bolt_stream.Protocol.HeartbeatLeave.{
  HeartbeatResponse, encode_heartbeat_response, decode_heartbeat_response, LeaveGroupResponse,
  encode_leave_group_response, decode_leave_group_response,
}
use bolt_stream.Protocol.HeartbeatLeave.Codec.{
  HeartbeatResponseValid, heartbeat_response_codec, LeaveGroupResponseValid,
  leave_group_response_codec,
}
use bolt_stream.Protocol.TopicInfo.{
  ListTopicsResponse, encode_list_topics_response, decode_list_topics_response,
  DescribeTopicResponse, encode_describe_topic_response, decode_describe_topic_response,
}
use bolt_stream.Protocol.TopicInfo.Codec.{
  ListTopicsResponseValid, list_topics_response_codec, DescribeTopicResponseValid,
  describe_topic_response_codec,
}
use bolt_stream.Protocol.Retention.{
  RunRetentionResponse, encode_run_retention_response, decode_run_retention_response,
}
use bolt_stream.Protocol.Retention.Codec.{RunRetentionResponseValid, run_retention_response_codec}
use bolt_stream.Protocol.GroupAdmin.{
  DescribeGroupResponse, encode_describe_group_response, decode_describe_group_response,
  ResetGroupOffsetResponse, encode_reset_group_offset_response, decode_reset_group_offset_response,
}
use bolt_stream.Protocol.GroupAdmin.Codec.{
  DescribeGroupResponseValid, describe_group_response_codec, ResetGroupOffsetResponseValid,
  reset_group_offset_response_codec,
}

pub data ResponseKind : Type 0 where
  a_error a_health a_produce a_offset_commit a_auth a_create_topic a_join_group a_sync_group
        a_heartbeat a_leave_group a_group_offset_commit a_list_topics a_describe_topic
        a_delete_topic a_run_retention a_describe_group a_reset_group_offset a_produce_batch :
      ResponseKind

abbrev pub ResponseOf : ResponseKind → Type 0
ResponseOf a_error = ErrorResponse
ResponseOf a_health = HealthResponse
ResponseOf a_produce = ProduceResponse
ResponseOf a_offset_commit = OffsetCommitResponse
ResponseOf a_auth = AuthResponse
ResponseOf a_create_topic = CreateTopicResponse
ResponseOf a_join_group = JoinGroupResponse
ResponseOf a_sync_group = SyncGroupResponse
ResponseOf a_heartbeat = HeartbeatResponse
ResponseOf a_leave_group = LeaveGroupResponse
ResponseOf a_group_offset_commit = GroupOffsetCommitResponse
ResponseOf a_list_topics = ListTopicsResponse
ResponseOf a_describe_topic = DescribeTopicResponse
ResponseOf a_delete_topic = DeleteTopicResponse
ResponseOf a_run_retention = RunRetentionResponse
ResponseOf a_describe_group = DescribeGroupResponse
ResponseOf a_reset_group_offset = ResetGroupOffsetResponse
ResponseOf a_produce_batch = ProduceBatchResponse

-- Every number fits its width, every text its length field, and the decoder's checks hold.
abbrev pub ResponseValid : (k : ResponseKind) → ResponseOf k → Type 0
ResponseValid a_error = ErrorResponseValid
ResponseValid a_health = HealthResponseValid
ResponseValid a_produce = ProduceResponseValid
ResponseValid a_offset_commit = OffsetCommitResponseValid
ResponseValid a_auth = AuthResponseValid
ResponseValid a_create_topic = CreateTopicResponseValid
ResponseValid a_join_group = JoinGroupResponseValid
ResponseValid a_sync_group = SyncGroupResponseValid
ResponseValid a_heartbeat = HeartbeatResponseValid
ResponseValid a_leave_group = LeaveGroupResponseValid
ResponseValid a_group_offset_commit = GroupOffsetCommitResponseValid
ResponseValid a_list_topics = ListTopicsResponseValid
ResponseValid a_describe_topic = DescribeTopicResponseValid
ResponseValid a_delete_topic = DeleteTopicResponseValid
ResponseValid a_run_retention = RunRetentionResponseValid
ResponseValid a_describe_group = DescribeGroupResponseValid
ResponseValid a_reset_group_offset = ResetGroupOffsetResponseValid
ResponseValid a_produce_batch = ProduceBatchResponseValid

abbrev pub encode_response : (k : ResponseKind) → ResponseOf k → Bytes
encode_response a_error = encode_error_response
encode_response a_health = encode_health_response
encode_response a_produce = encode_produce_response
encode_response a_offset_commit = encode_offset_commit_response
encode_response a_auth = encode_auth_response
encode_response a_create_topic = encode_create_topic_response
encode_response a_join_group = encode_join_group_response
encode_response a_sync_group = encode_sync_group_response
encode_response a_heartbeat = encode_heartbeat_response
encode_response a_leave_group = encode_leave_group_response
encode_response a_group_offset_commit = encode_group_offset_commit_response
encode_response a_list_topics = encode_list_topics_response
encode_response a_describe_topic = encode_describe_topic_response
encode_response a_delete_topic = encode_delete_topic_response
encode_response a_run_retention = encode_run_retention_response
encode_response a_describe_group = encode_describe_group_response
encode_response a_reset_group_offset = encode_reset_group_offset_response
encode_response a_produce_batch = encode_produce_batch_response

abbrev pub decode_response : (k : ResponseKind) → Bytes → Decoded (ResponseOf k)
decode_response a_error = decode_error_response
decode_response a_health = decode_health_response
decode_response a_produce = decode_produce_response
decode_response a_offset_commit = decode_offset_commit_response
decode_response a_auth = decode_auth_response
decode_response a_create_topic = decode_create_topic_response
decode_response a_join_group = decode_join_group_response
decode_response a_sync_group = decode_sync_group_response
decode_response a_heartbeat = decode_heartbeat_response
decode_response a_leave_group = decode_leave_group_response
decode_response a_group_offset_commit = decode_group_offset_commit_response
decode_response a_list_topics = decode_list_topics_response
decode_response a_describe_topic = decode_describe_topic_response
decode_response a_delete_topic = decode_delete_topic_response
decode_response a_run_retention = decode_run_retention_response
decode_response a_describe_group = decode_describe_group_response
decode_response a_reset_group_offset = decode_reset_group_offset_response
decode_response a_produce_batch = decode_produce_batch_response

-- For each of the 18 kinds of response: a response whose numbers and texts fit their fields and that
-- meets the decoder's checks, encoded, is decoded to itself.
pub decode_response-encode_response :
    (k : ResponseKind) (m : ResponseOf k)
    → ResponseValid k m
    → decode_response k (encode_response k m) ≡ ok m
decode_response-encode_response a_error m h = error_response_codec.decode-encode m h
decode_response-encode_response a_health m h = health_response_codec.decode-encode m h
decode_response-encode_response a_produce m h = produce_response_codec.decode-encode m h
decode_response-encode_response a_offset_commit m h = offset_commit_response_codec.decode-encode m h
decode_response-encode_response a_auth m h = auth_response_codec.decode-encode m h
decode_response-encode_response a_create_topic m h = create_topic_response_codec.decode-encode m h
decode_response-encode_response a_join_group m h = join_group_response_codec.decode-encode m h
decode_response-encode_response a_sync_group m h = sync_group_response_codec.decode-encode m h
decode_response-encode_response a_heartbeat m h = heartbeat_response_codec.decode-encode m h
decode_response-encode_response a_leave_group m h = leave_group_response_codec.decode-encode m h
decode_response-encode_response a_group_offset_commit m h =
    group_offset_commit_response_codec.decode-encode m h
decode_response-encode_response a_list_topics m h = list_topics_response_codec.decode-encode m h
decode_response-encode_response a_describe_topic m h =
    describe_topic_response_codec.decode-encode m h
decode_response-encode_response a_delete_topic m h = delete_topic_response_codec.decode-encode m h
decode_response-encode_response a_run_retention m h = run_retention_response_codec.decode-encode m h
decode_response-encode_response a_describe_group m h =
    describe_group_response_codec.decode-encode m h
decode_response-encode_response a_reset_group_offset m h =
    reset_group_offset_response_codec.decode-encode m h
decode_response-encode_response a_produce_batch m h = produce_batch_response_codec.decode-encode m h

-- For each of the 18 kinds of response: if a payload of bytes is decoded to a response, then encoding the
-- response gives the payload back, byte for byte, and the response fits its fields and meets the checks.
pub encode_response-decode_response :
    (k : ResponseKind) (payload : Bytes) (m : ResponseOf k)
    → All IsByte payload
    → decode_response k payload ≡ ok m
    → (encode_response k m ≡ payload) × ResponseValid k m
encode_response-decode_response a_error payload m hb e =
    error_response_codec.encode-decode payload hb e
encode_response-decode_response a_health payload m hb e =
    health_response_codec.encode-decode payload hb e
encode_response-decode_response a_produce payload m hb e =
    produce_response_codec.encode-decode payload hb e
encode_response-decode_response a_offset_commit payload m hb e =
    offset_commit_response_codec.encode-decode payload hb e
encode_response-decode_response a_auth payload m hb e =
    auth_response_codec.encode-decode payload hb e
encode_response-decode_response a_create_topic payload m hb e =
    create_topic_response_codec.encode-decode payload hb e
encode_response-decode_response a_join_group payload m hb e =
    join_group_response_codec.encode-decode payload hb e
encode_response-decode_response a_sync_group payload m hb e =
    sync_group_response_codec.encode-decode payload hb e
encode_response-decode_response a_heartbeat payload m hb e =
    heartbeat_response_codec.encode-decode payload hb e
encode_response-decode_response a_leave_group payload m hb e =
    leave_group_response_codec.encode-decode payload hb e
encode_response-decode_response a_group_offset_commit payload m hb e =
    group_offset_commit_response_codec.encode-decode payload hb e
encode_response-decode_response a_list_topics payload m hb e =
    list_topics_response_codec.encode-decode payload hb e
encode_response-decode_response a_describe_topic payload m hb e =
    describe_topic_response_codec.encode-decode payload hb e
encode_response-decode_response a_delete_topic payload m hb e =
    delete_topic_response_codec.encode-decode payload hb e
encode_response-decode_response a_run_retention payload m hb e =
    run_retention_response_codec.encode-decode payload hb e
encode_response-decode_response a_describe_group payload m hb e =
    describe_group_response_codec.encode-decode payload hb e
encode_response-decode_response a_reset_group_offset payload m hb e =
    reset_group_offset_response_codec.encode-decode payload hb e
encode_response-decode_response a_produce_batch payload m hb e =
    produce_batch_response_codec.encode-decode payload hb e
