-- ===== src/Protocol/Types.antt =====
-- The frame types and error codes of include/boltstream/protocol/protocol.h, and the functions of
-- src/protocol/protocol.cpp that classify them.
use bolt_stream.Base.{ℕ, String, Bool, true, false}

pub data FrameType : Type 0 where
  error_response health_request health_response metadata_request metadata_response produce_request
        produce_response fetch_request fetch_response offset_commit_request offset_commit_response
        auth_request auth_response create_topic_request create_topic_response join_group_request
        join_group_response sync_group_request sync_group_response heartbeat_request
        heartbeat_response leave_group_request leave_group_response group_offset_commit_request
        group_offset_commit_response list_topics_request list_topics_response describe_topic_request
        describe_topic_response delete_topic_request delete_topic_response run_retention_request
        run_retention_response describe_group_request describe_group_response
        reset_group_offset_request reset_group_offset_response produce_batch_request
        produce_batch_response :
      FrameType

pub data ErrorCode : Type 0 where
  invalid_magic unsupported_version invalid_length crc_mismatch malformed_payload
        unsupported_request not_implemented internal_error reserved_flags unauthorized unknown_topic
        topic_conflict invalid_partition invalid_group invalid_offset overloaded rebalance_required
        stale_member offset_out_of_range group_active unsupported_codec invalid_batch :
      ErrorCode

-- `static_cast<std::uint16_t>(frame_type)`
unfoldable pub frame_type_value : FrameType → ℕ
frame_type_value error_response = 1
frame_type_value health_request = 2
frame_type_value health_response = 3
frame_type_value metadata_request = 4
frame_type_value metadata_response = 5
frame_type_value produce_request = 6
frame_type_value produce_response = 7
frame_type_value fetch_request = 8
frame_type_value fetch_response = 9
frame_type_value offset_commit_request = 10
frame_type_value offset_commit_response = 11
frame_type_value auth_request = 12
frame_type_value auth_response = 13
frame_type_value create_topic_request = 14
frame_type_value create_topic_response = 15
frame_type_value join_group_request = 16
frame_type_value join_group_response = 17
frame_type_value sync_group_request = 18
frame_type_value sync_group_response = 19
frame_type_value heartbeat_request = 20
frame_type_value heartbeat_response = 21
frame_type_value leave_group_request = 22
frame_type_value leave_group_response = 23
frame_type_value group_offset_commit_request = 24
frame_type_value group_offset_commit_response = 25
frame_type_value list_topics_request = 26
frame_type_value list_topics_response = 27
frame_type_value describe_topic_request = 28
frame_type_value describe_topic_response = 29
frame_type_value delete_topic_request = 30
frame_type_value delete_topic_response = 31
frame_type_value run_retention_request = 32
frame_type_value run_retention_response = 33
frame_type_value describe_group_request = 34
frame_type_value describe_group_response = 35
frame_type_value reset_group_offset_request = 36
frame_type_value reset_group_offset_response = 37
frame_type_value produce_batch_request = 38
frame_type_value produce_batch_response = 39

unfoldable pub is_request_type : FrameType → Bool
is_request_type health_request = true
is_request_type metadata_request = true
is_request_type produce_request = true
is_request_type fetch_request = true
is_request_type offset_commit_request = true
is_request_type auth_request = true
is_request_type create_topic_request = true
is_request_type join_group_request = true
is_request_type sync_group_request = true
is_request_type heartbeat_request = true
is_request_type leave_group_request = true
is_request_type group_offset_commit_request = true
is_request_type list_topics_request = true
is_request_type describe_topic_request = true
is_request_type delete_topic_request = true
is_request_type run_retention_request = true
is_request_type describe_group_request = true
is_request_type reset_group_offset_request = true
is_request_type produce_batch_request = true
is_request_type _ = false

unfoldable pub is_retryable_error : ErrorCode → Bool
is_retryable_error overloaded = true
is_retryable_error rebalance_required = true
is_retryable_error _ = false

unfoldable pub frame_type_name : FrameType → String
frame_type_name error_response = "error_response"
frame_type_name health_request = "health_request"
frame_type_name health_response = "health_response"
frame_type_name metadata_request = "metadata_request"
frame_type_name metadata_response = "metadata_response"
frame_type_name produce_request = "produce_request"
frame_type_name produce_response = "produce_response"
frame_type_name fetch_request = "fetch_request"
frame_type_name fetch_response = "fetch_response"
frame_type_name offset_commit_request = "offset_commit_request"
frame_type_name offset_commit_response = "offset_commit_response"
frame_type_name auth_request = "auth_request"
frame_type_name auth_response = "auth_response"
frame_type_name create_topic_request = "create_topic_request"
frame_type_name create_topic_response = "create_topic_response"
frame_type_name join_group_request = "join_group_request"
frame_type_name join_group_response = "join_group_response"
frame_type_name sync_group_request = "sync_group_request"
frame_type_name sync_group_response = "sync_group_response"
frame_type_name heartbeat_request = "heartbeat_request"
frame_type_name heartbeat_response = "heartbeat_response"
frame_type_name leave_group_request = "leave_group_request"
frame_type_name leave_group_response = "leave_group_response"
frame_type_name group_offset_commit_request = "group_offset_commit_request"
frame_type_name group_offset_commit_response = "group_offset_commit_response"
frame_type_name list_topics_request = "list_topics_request"
frame_type_name list_topics_response = "list_topics_response"
frame_type_name describe_topic_request = "describe_topic_request"
frame_type_name describe_topic_response = "describe_topic_response"
frame_type_name delete_topic_request = "delete_topic_request"
frame_type_name delete_topic_response = "delete_topic_response"
frame_type_name run_retention_request = "run_retention_request"
frame_type_name run_retention_response = "run_retention_response"
frame_type_name describe_group_request = "describe_group_request"
frame_type_name describe_group_response = "describe_group_response"
frame_type_name reset_group_offset_request = "reset_group_offset_request"
frame_type_name reset_group_offset_response = "reset_group_offset_response"
frame_type_name produce_batch_request = "produce_batch_request"
frame_type_name produce_batch_response = "produce_batch_response"

unfoldable pub error_code_name : ErrorCode → String
error_code_name invalid_magic = "invalid_magic"
error_code_name unsupported_version = "unsupported_version"
error_code_name invalid_length = "invalid_length"
error_code_name crc_mismatch = "crc_mismatch"
error_code_name malformed_payload = "malformed_payload"
error_code_name unsupported_request = "unsupported_request"
error_code_name not_implemented = "not_implemented"
error_code_name internal_error = "internal_error"
error_code_name reserved_flags = "reserved_flags"
error_code_name unauthorized = "unauthorized"
error_code_name unknown_topic = "unknown_topic"
error_code_name topic_conflict = "topic_conflict"
error_code_name invalid_partition = "invalid_partition"
error_code_name invalid_group = "invalid_group"
error_code_name invalid_offset = "invalid_offset"
error_code_name overloaded = "overloaded"
error_code_name rebalance_required = "rebalance_required"
error_code_name stale_member = "stale_member"
error_code_name offset_out_of_range = "offset_out_of_range"
error_code_name group_active = "group_active"
error_code_name unsupported_codec = "unsupported_codec"
error_code_name invalid_batch = "invalid_batch"

-- `DecodeResult` with what the call left in its output argument. On an error the source leaves that
-- argument partly written, and no caller reads it.
pub data Decoded {ℓ} (A : Type ℓ) : Type ℓ where
  ok : A → Decoded A
  err : ErrorCode → String → Decoded A
