-- ===== src/Protocol/Requests.antt =====
-- The requests of src/protocol/protocol.cpp, one kind for each frame type: what the two functions of a
-- message promise, for all of them at once.
use bolt_stream.Base.{◌≡◌, All, Bytes, ℕ}
use bolt_stream.Protocol.Types.{Decoded, ok}
use bolt_stream.Protocol.Wire.{IsByte}
use bolt_stream.Protocol.Capabilities.{encode_metadata_request, decode_metadata_request}
use bolt_stream.Protocol.Capabilities.Codec.{MetadataRequestValid, metadata_request_codec}
use bolt_stream.Protocol.Produce.{ProduceRequest, encode_produce_request, decode_produce_request}
use bolt_stream.Protocol.Produce.Codec.{ProduceRequestValid, produce_request_codec}
use bolt_stream.Protocol.Fetch.{FetchRequest, encode_fetch_request, decode_fetch_request}
use bolt_stream.Protocol.Fetch.Codec.{FetchRequestValid, fetch_request_codec}
use bolt_stream.Protocol.Commits.{
  OffsetCommitRequest, encode_offset_commit_request, decode_offset_commit_request,
  GroupOffsetCommitRequest, encode_group_offset_commit_request, decode_group_offset_commit_request,
}
use bolt_stream.Protocol.Commits.Codec.{
  OffsetCommitRequestValid, offset_commit_request_codec, GroupOffsetCommitRequestValid,
  group_offset_commit_request_codec,
}
use bolt_stream.Protocol.Session.{AuthRequest, encode_auth_request, decode_auth_request}
use bolt_stream.Protocol.Session.Codec.{AuthRequestValid, auth_request_codec}
use bolt_stream.Protocol.TopicAdmin.{
  CreateTopicRequest, encode_create_topic_request, decode_create_topic_request,
  DescribeTopicRequest, encode_describe_topic_request, decode_describe_topic_request,
  DeleteTopicRequest, encode_delete_topic_request, decode_delete_topic_request,
}
use bolt_stream.Protocol.TopicAdmin.Codec.{
  CreateTopicRequestValid, create_topic_request_codec, DescribeTopicRequestValid,
  describe_topic_request_codec, DeleteTopicRequestValid, delete_topic_request_codec,
}
use bolt_stream.Protocol.JoinSync.{
  JoinGroupRequest, encode_join_group_request, decode_join_group_request, SyncGroupRequest,
  encode_sync_group_request, decode_sync_group_request,
}
use bolt_stream.Protocol.JoinSync.Codec.{
  JoinGroupRequestValid, join_group_request_codec, SyncGroupRequestValid, sync_group_request_codec,
}
use bolt_stream.Protocol.HeartbeatLeave.{
  HeartbeatRequest, encode_heartbeat_request, decode_heartbeat_request, LeaveGroupRequest,
  encode_leave_group_request, decode_leave_group_request,
}
use bolt_stream.Protocol.HeartbeatLeave.Codec.{
  HeartbeatRequestValid, heartbeat_request_codec, LeaveGroupRequestValid, leave_group_request_codec,
}
use bolt_stream.Protocol.Retention.{
  RunRetentionRequest, encode_run_retention_request, decode_run_retention_request,
}
use bolt_stream.Protocol.Retention.Codec.{RunRetentionRequestValid, run_retention_request_codec}
use bolt_stream.Protocol.GroupAdmin.{
  DescribeGroupRequest, encode_describe_group_request, decode_describe_group_request,
  ResetGroupOffsetRequest, encode_reset_group_offset_request, decode_reset_group_offset_request,
}
use bolt_stream.Protocol.GroupAdmin.Codec.{
  DescribeGroupRequestValid, describe_group_request_codec, ResetGroupOffsetRequestValid,
  reset_group_offset_request_codec,
}

pub data RequestKind : Type 0 where
  a_metadata a_produce a_fetch a_offset_commit a_auth a_create_topic a_join_group a_sync_group
        a_heartbeat a_leave_group a_group_offset_commit a_describe_topic a_delete_topic
        a_run_retention a_describe_group a_reset_group_offset :
      RequestKind

abbrev pub RequestOf : RequestKind → Type 0
RequestOf a_metadata = ℕ
RequestOf a_produce = ProduceRequest
RequestOf a_fetch = FetchRequest
RequestOf a_offset_commit = OffsetCommitRequest
RequestOf a_auth = AuthRequest
RequestOf a_create_topic = CreateTopicRequest
RequestOf a_join_group = JoinGroupRequest
RequestOf a_sync_group = SyncGroupRequest
RequestOf a_heartbeat = HeartbeatRequest
RequestOf a_leave_group = LeaveGroupRequest
RequestOf a_group_offset_commit = GroupOffsetCommitRequest
RequestOf a_describe_topic = DescribeTopicRequest
RequestOf a_delete_topic = DeleteTopicRequest
RequestOf a_run_retention = RunRetentionRequest
RequestOf a_describe_group = DescribeGroupRequest
RequestOf a_reset_group_offset = ResetGroupOffsetRequest

-- Every number fits its width, every text its length field, and the decoder's checks hold.
abbrev pub RequestValid : (k : RequestKind) → RequestOf k → Type 0
RequestValid a_metadata = MetadataRequestValid
RequestValid a_produce = ProduceRequestValid
RequestValid a_fetch = FetchRequestValid
RequestValid a_offset_commit = OffsetCommitRequestValid
RequestValid a_auth = AuthRequestValid
RequestValid a_create_topic = CreateTopicRequestValid
RequestValid a_join_group = JoinGroupRequestValid
RequestValid a_sync_group = SyncGroupRequestValid
RequestValid a_heartbeat = HeartbeatRequestValid
RequestValid a_leave_group = LeaveGroupRequestValid
RequestValid a_group_offset_commit = GroupOffsetCommitRequestValid
RequestValid a_describe_topic = DescribeTopicRequestValid
RequestValid a_delete_topic = DeleteTopicRequestValid
RequestValid a_run_retention = RunRetentionRequestValid
RequestValid a_describe_group = DescribeGroupRequestValid
RequestValid a_reset_group_offset = ResetGroupOffsetRequestValid

abbrev pub encode_request : (k : RequestKind) → RequestOf k → Bytes
encode_request a_metadata = encode_metadata_request
encode_request a_produce = encode_produce_request
encode_request a_fetch = encode_fetch_request
encode_request a_offset_commit = encode_offset_commit_request
encode_request a_auth = encode_auth_request
encode_request a_create_topic = encode_create_topic_request
encode_request a_join_group = encode_join_group_request
encode_request a_sync_group = encode_sync_group_request
encode_request a_heartbeat = encode_heartbeat_request
encode_request a_leave_group = encode_leave_group_request
encode_request a_group_offset_commit = encode_group_offset_commit_request
encode_request a_describe_topic = encode_describe_topic_request
encode_request a_delete_topic = encode_delete_topic_request
encode_request a_run_retention = encode_run_retention_request
encode_request a_describe_group = encode_describe_group_request
encode_request a_reset_group_offset = encode_reset_group_offset_request

abbrev pub decode_request : (k : RequestKind) → Bytes → Decoded (RequestOf k)
decode_request a_metadata = decode_metadata_request
decode_request a_produce = decode_produce_request
decode_request a_fetch = decode_fetch_request
decode_request a_offset_commit = decode_offset_commit_request
decode_request a_auth = decode_auth_request
decode_request a_create_topic = decode_create_topic_request
decode_request a_join_group = decode_join_group_request
decode_request a_sync_group = decode_sync_group_request
decode_request a_heartbeat = decode_heartbeat_request
decode_request a_leave_group = decode_leave_group_request
decode_request a_group_offset_commit = decode_group_offset_commit_request
decode_request a_describe_topic = decode_describe_topic_request
decode_request a_delete_topic = decode_delete_topic_request
decode_request a_run_retention = decode_run_retention_request
decode_request a_describe_group = decode_describe_group_request
decode_request a_reset_group_offset = decode_reset_group_offset_request

-- For each of the 16 kinds of request: a request whose numbers and texts fit their fields and that
-- meets the decoder's checks, encoded, is decoded to itself.
pub decode_request-encode_request :
    (k : RequestKind) (m : RequestOf k)
    → RequestValid k m
    → decode_request k (encode_request k m) ≡ ok m
decode_request-encode_request a_metadata m h = metadata_request_codec.decode-encode m h
decode_request-encode_request a_produce m h = produce_request_codec.decode-encode m h
decode_request-encode_request a_fetch m h = fetch_request_codec.decode-encode m h
decode_request-encode_request a_offset_commit m h = offset_commit_request_codec.decode-encode m h
decode_request-encode_request a_auth m h = auth_request_codec.decode-encode m h
decode_request-encode_request a_create_topic m h = create_topic_request_codec.decode-encode m h
decode_request-encode_request a_join_group m h = join_group_request_codec.decode-encode m h
decode_request-encode_request a_sync_group m h = sync_group_request_codec.decode-encode m h
decode_request-encode_request a_heartbeat m h = heartbeat_request_codec.decode-encode m h
decode_request-encode_request a_leave_group m h = leave_group_request_codec.decode-encode m h
decode_request-encode_request a_group_offset_commit m h =
    group_offset_commit_request_codec.decode-encode m h
decode_request-encode_request a_describe_topic m h = describe_topic_request_codec.decode-encode m h
decode_request-encode_request a_delete_topic m h = delete_topic_request_codec.decode-encode m h
decode_request-encode_request a_run_retention m h = run_retention_request_codec.decode-encode m h
decode_request-encode_request a_describe_group m h = describe_group_request_codec.decode-encode m h
decode_request-encode_request a_reset_group_offset m h =
    reset_group_offset_request_codec.decode-encode m h

-- For each of the 16 kinds of request: if a payload of bytes is decoded to a request, then encoding the
-- request gives the payload back, byte for byte, and the request fits its fields and meets the checks.
pub encode_request-decode_request :
    (k : RequestKind) (payload : Bytes) (m : RequestOf k)
    → All IsByte payload
    → decode_request k payload ≡ ok m
    → (encode_request k m ≡ payload) × RequestValid k m
encode_request-decode_request a_metadata payload m hb e =
    metadata_request_codec.encode-decode payload hb e
encode_request-decode_request a_produce payload m hb e =
    produce_request_codec.encode-decode payload hb e
encode_request-decode_request a_fetch payload m hb e =
    fetch_request_codec.encode-decode payload hb e
encode_request-decode_request a_offset_commit payload m hb e =
    offset_commit_request_codec.encode-decode payload hb e
encode_request-decode_request a_auth payload m hb e = auth_request_codec.encode-decode payload hb e
encode_request-decode_request a_create_topic payload m hb e =
    create_topic_request_codec.encode-decode payload hb e
encode_request-decode_request a_join_group payload m hb e =
    join_group_request_codec.encode-decode payload hb e
encode_request-decode_request a_sync_group payload m hb e =
    sync_group_request_codec.encode-decode payload hb e
encode_request-decode_request a_heartbeat payload m hb e =
    heartbeat_request_codec.encode-decode payload hb e
encode_request-decode_request a_leave_group payload m hb e =
    leave_group_request_codec.encode-decode payload hb e
encode_request-decode_request a_group_offset_commit payload m hb e =
    group_offset_commit_request_codec.encode-decode payload hb e
encode_request-decode_request a_describe_topic payload m hb e =
    describe_topic_request_codec.encode-decode payload hb e
encode_request-decode_request a_delete_topic payload m hb e =
    delete_topic_request_codec.encode-decode payload hb e
encode_request-decode_request a_run_retention payload m hb e =
    run_retention_request_codec.encode-decode payload hb e
encode_request-decode_request a_describe_group payload m hb e =
    describe_group_request_codec.encode-decode payload hb e
encode_request-decode_request a_reset_group_offset payload m hb e =
    reset_group_offset_request_codec.encode-decode payload hb e
