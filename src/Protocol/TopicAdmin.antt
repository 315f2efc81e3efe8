-- ===== src/Protocol/TopicAdmin.antt =====
-- The messages that create and delete topics and ask for a description (src/protocol/protocol.cpp and its header): the bytes written
-- for each message, and the decoder with its checks in the order of the source.
pub mod Codec
use bolt_stream.Base.{ℕ, zero, [], ◌∷◌, ◌==◌, if◌then◌else◌, is_empty, Bytes}
use bolt_stream.Protocol.Wire.{
  Reader, ◌>>=◌, pure, written, write_u16, write_u32, write_u64, write_string, read_u16, read_u32,
  read_u64, read_string,
}
use bolt_stream.Protocol.Types.{Decoded, ok, err, malformed_payload}
use bolt_stream.Protocol.Decode.{decode_with}

pub record CreateTopicRequest : Type 0 where
  pub topic : Bytes
  pub partition_count : ℕ

unfoldable pub encode_create_topic_request : CreateTopicRequest → Bytes
encode_create_topic_request r = written (write_string r.topic ∷ write_u16 r.partition_count ∷ [])

unfoldable pub read_create_topic_request : Reader CreateTopicRequest
read_create_topic_request = do
  topic ← read_string
  partition_count ← read_u16
  pure (record { topic = topic; partition_count = partition_count })

unfoldable pub check_create_topic_request : CreateTopicRequest → Decoded CreateTopicRequest
check_create_topic_request r =
    if is_empty r.topic
    then err malformed_payload "create-topic topic must not be empty"
    else if r.partition_count == 0
    then err malformed_payload "create-topic partition count must be greater than zero"
    else ok r

unfoldable pub decode_create_topic_request : Bytes → Decoded CreateTopicRequest
unfolding read_create_topic_request check_create_topic_request
decode_create_topic_request =
    decode_with malformed_payload "malformed create-topic request payload" read_create_topic_request
      check_create_topic_request

pub record CreateTopicResponse : Type 0 where
  pub topic : Bytes
  pub partition_count : ℕ
  pub status : Bytes

unfoldable pub encode_create_topic_response : CreateTopicResponse → Bytes
encode_create_topic_response r =
    written (write_string r.topic ∷ write_u16 r.partition_count ∷ write_string r.status ∷ [])

unfoldable pub read_create_topic_response : Reader CreateTopicResponse
read_create_topic_response = do
  topic ← read_string
  partition_count ← read_u16
  status ← read_string
  pure (record { topic = topic; partition_count = partition_count; status = status })

unfoldable pub decode_create_topic_response : Bytes → Decoded CreateTopicResponse
unfolding read_create_topic_response
decode_create_topic_response =
    decode_with malformed_payload "malformed create-topic response payload"
      read_create_topic_response ok

pub record DescribeTopicRequest : Type 0 where
  pub topic : Bytes

unfoldable pub encode_describe_topic_request : DescribeTopicRequest → Bytes
encode_describe_topic_request r = written (write_string r.topic ∷ [])

unfoldable pub read_describe_topic_request : Reader DescribeTopicRequest
read_describe_topic_request = do topic ← read_string; pure (record { topic = topic })

unfoldable pub check_describe_topic_request : DescribeTopicRequest → Decoded DescribeTopicRequest
check_describe_topic_request r =
    if is_empty r.topic
    then err malformed_payload "describe-topic topic must not be empty"
    else ok r

unfoldable pub decode_describe_topic_request : Bytes → Decoded DescribeTopicRequest
unfolding read_describe_topic_request check_describe_topic_request
decode_describe_topic_request =
    decode_with malformed_payload "malformed describe-topic request payload"
      read_describe_topic_request check_describe_topic_request

pub record DeleteTopicRequest : Type 0 where
  pub topic : Bytes

unfoldable pub encode_delete_topic_request : DeleteTopicRequest → Bytes
encode_delete_topic_request r = written (write_string r.topic ∷ [])

unfoldable pub read_delete_topic_request : Reader DeleteTopicRequest
read_delete_topic_request = do topic ← read_string; pure (record { topic = topic })

unfoldable pub check_delete_topic_request : DeleteTopicRequest → Decoded DeleteTopicRequest
check_delete_topic_request r =
    if is_empty r.topic then err malformed_payload "delete-topic topic must not be empty" else ok r

unfoldable pub decode_delete_topic_request : Bytes → Decoded DeleteTopicRequest
unfolding read_delete_topic_request check_delete_topic_request
decode_delete_topic_request =
    decode_with malformed_payload "malformed delete-topic request payload" read_delete_topic_request
      check_delete_topic_request

pub record DeleteTopicResponse : Type 0 where
  pub topic : Bytes
  pub status : Bytes
  pub partitions_deleted : ℕ
  pub segments_deleted : ℕ
  pub bytes_deleted : ℕ
  pub offsets_removed : ℕ

unfoldable pub encode_delete_topic_response : DeleteTopicResponse → Bytes
encode_delete_topic_response r = written (
    write_string r.topic
    ∷ write_string r.status
    ∷ write_u16 r.partitions_deleted
    ∷ write_u32 r.segments_deleted
    ∷ write_u64 r.bytes_deleted
    ∷ write_u32 r.offsets_removed
    ∷ [])

unfoldable pub read_delete_topic_response : Reader DeleteTopicResponse
read_delete_topic_response = do
  topic ← read_string
  status ← read_string
  partitions_deleted ← read_u16
  segments_deleted ← read_u32
  bytes_deleted ← read_u64
  offsets_removed ← read_u32
  pure (record {
    topic = topic;
    status = status;
    partitions_deleted = partitions_deleted;
    segments_deleted = segments_deleted;
    bytes_deleted = bytes_deleted;
    offsets_removed = offsets_removed;
  })

unfoldable pub decode_delete_topic_response : Bytes → Decoded DeleteTopicResponse
unfolding read_delete_topic_response
decode_delete_topic_response =
    decode_with malformed_payload "malformed delete-topic response payload"
      read_delete_topic_response ok
