-- ===== src/Protocol/TopicInfo.antt =====
-- The topic descriptions and the responses that carry them (src/protocol/protocol.cpp and its header): the bytes written
-- for each message, and the decoder with its checks in the order of the source.
pub mod Codec
use bolt_stream.Base.{ℕ, List, [], ◌∷◌, Bytes}
use bolt_stream.Protocol.Wire.{
  Reader, ◌>>=◌, pure, written, write_u16, write_u32, write_u64, write_string, write_list, read_u16,
  read_u32, read_u64, read_string, read_list,
}
use bolt_stream.Protocol.Types.{Decoded, ok, malformed_payload}
use bolt_stream.Protocol.Decode.{decode_with}

pub record TopicPartitionDescription : Type 0 where
  pub partition : ℕ
  pub earliest_offset : ℕ
  pub next_offset : ℕ
  pub segment_count : ℕ
  pub log_bytes : ℕ

unfoldable pub write_topic_partition_description : TopicPartitionDescription → Bytes
write_topic_partition_description r = written (
    write_u16 r.partition
    ∷ write_u64 r.earliest_offset
    ∷ write_u64 r.next_offset
    ∷ write_u32 r.segment_count
    ∷ write_u64 r.log_bytes
    ∷ [])

unfoldable pub read_topic_partition_description : Reader TopicPartitionDescription
read_topic_partition_description = do
  partition ← read_u16
  earliest_offset ← read_u64
  next_offset ← read_u64
  segment_count ← read_u32
  log_bytes ← read_u64
  pure (record {
    partition = partition;
    earliest_offset = earliest_offset;
    next_offset = next_offset;
    segment_count = segment_count;
    log_bytes = log_bytes;
  })

pub record TopicDescription : Type 0 where
  pub topic : Bytes
  pub partition_count : ℕ
  pub log_bytes : ℕ
  pub partitions : List TopicPartitionDescription

unfoldable pub write_topic_description : TopicDescription → Bytes
write_topic_description r = written (
    write_string r.topic
    ∷ write_u16 r.partition_count
    ∷ write_u64 r.log_bytes
    ∷ write_list write_topic_partition_description r.partitions
    ∷ [])

unfoldable pub read_topic_description : Reader TopicDescription
read_topic_description = do
  topic ← read_string
  partition_count ← read_u16
  log_bytes ← read_u64
  partitions ← read_list read_topic_partition_description
  pure (record {
    topic = topic;
    partition_count = partition_count;
    log_bytes = log_bytes;
    partitions = partitions;
  })

pub record ListTopicsResponse : Type 0 where
  pub topics : List TopicDescription

unfoldable pub encode_list_topics_response : ListTopicsResponse → Bytes
encode_list_topics_response r = written (write_list write_topic_description r.topics ∷ [])

unfoldable pub read_list_topics_response : Reader ListTopicsResponse
read_list_topics_response = do
  topics ← read_list read_topic_description
  pure (record { topics = topics })

unfoldable pub decode_list_topics_response : Bytes → Decoded ListTopicsResponse
unfolding read_list_topics_response
decode_list_topics_response =
    decode_with malformed_payload "malformed list-topics response payload" read_list_topics_response
      ok

pub record DescribeTopicResponse : Type 0 where
  pub topic : TopicDescription

unfoldable pub encode_describe_topic_response : DescribeTopicResponse → Bytes
encode_describe_topic_response r = written (write_topic_description r.topic ∷ [])

unfoldable pub read_describe_topic_response : Reader DescribeTopicResponse
read_describe_topic_response = do topic ← read_topic_description; pure (record { topic = topic })

unfoldable pub decode_describe_topic_response : Bytes → Decoded DescribeTopicResponse
unfolding read_describe_topic_response
decode_describe_topic_response =
    decode_with malformed_payload "malformed describe-topic response payload"
      read_describe_topic_response ok
