-- ===== src/Protocol/Retention.antt =====
-- The retention messages (src/protocol/protocol.cpp and its header): the bytes written
-- for each message, and the decoder with its checks in the order of the source.
pub mod Codec
use bolt_stream.Base.{ℕ, List, [], ◌∷◌, Bytes}
use bolt_stream.Protocol.Wire.{
  Reader, ◌>>=◌, pure, written, write_u16, write_u32, write_u64, write_string, write_list, read_u16,
  read_u32, read_u64, read_string, read_list,
}
use bolt_stream.Protocol.Types.{Decoded, ok, malformed_payload}
use bolt_stream.Protocol.Decode.{decode_with}

pub record RunRetentionRequest : Type 0 where
  pub topic : Bytes

unfoldable pub encode_run_retention_request : RunRetentionRequest → Bytes
encode_run_retention_request r = written (write_string r.topic ∷ [])

unfoldable pub read_run_retention_request : Reader RunRetentionRequest
read_run_retention_request = do topic ← read_string; pure (record { topic = topic })

unfoldable pub decode_run_retention_request : Bytes → Decoded RunRetentionRequest
unfolding read_run_retention_request
decode_run_retention_request =
    decode_with malformed_payload "malformed run-retention request payload"
      read_run_retention_request ok

pub record RetentionPartitionResult : Type 0 where
  pub topic : Bytes
  pub partition : ℕ
  pub segments_deleted : ℕ
  pub bytes_deleted : ℕ
  pub earliest_offset : ℕ
  pub next_offset : ℕ

unfoldable pub write_retention_partition_result : RetentionPartitionResult → Bytes
write_retention_partition_result r = written (
    write_string r.topic
    ∷ write_u16 r.partition
    ∷ write_u32 r.segments_deleted
    ∷ write_u64 r.bytes_deleted
    ∷ write_u64 r.earliest_offset
    ∷ write_u64 r.next_offset
    ∷ [])

unfoldable pub read_retention_partition_result : Reader RetentionPartitionResult
read_retention_partition_result = do
  topic ← read_string
  partition ← read_u16
  segments_deleted ← read_u32
  bytes_deleted ← read_u64
  earliest_offset ← read_u64
  next_offset ← read_u64
  pure (record {
    topic = topic;
    partition = partition;
    segments_deleted = segments_deleted;
    bytes_deleted = bytes_deleted;
    earliest_offset = earliest_offset;
    next_offset = next_offset;
  })

pub record RunRetentionResponse : Type 0 where
  pub topic : Bytes
  pub topics_scanned : ℕ
  pub partitions_scanned : ℕ
  pub segments_deleted : ℕ
  pub bytes_deleted : ℕ
  pub partitions : List RetentionPartitionResult

unfoldable pub encode_run_retention_response : RunRetentionResponse → Bytes
encode_run_retention_response r = written (
    write_string r.topic
    ∷ write_u32 r.topics_scanned
    ∷ write_u32 r.partitions_scanned
    ∷ write_u32 r.segments_deleted
    ∷ write_u64 r.bytes_deleted
    ∷ write_list write_retention_partition_result r.partitions
    ∷ [])

unfoldable pub read_run_retention_response : Reader RunRetentionResponse
read_run_retention_response = do
  topic ← read_string
  topics_scanned ← read_u32
  partitions_scanned ← read_u32
  segments_deleted ← read_u32
  bytes_deleted ← read_u64
  partitions ← read_list read_retention_partition_result
  pure (record {
    topic = topic;
    topics_scanned = topics_scanned;
    partitions_scanned = partitions_scanned;
    segments_deleted = segments_deleted;
    bytes_deleted = bytes_deleted;
    partitions = partitions;
  })

unfoldable pub decode_run_retention_response : Bytes → Decoded RunRetentionResponse
unfolding read_run_retention_response
decode_run_retention_response =
    decode_with malformed_payload "malformed run-retention response payload"
      read_run_retention_response ok
