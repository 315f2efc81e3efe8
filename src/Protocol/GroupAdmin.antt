-- ===== src/Protocol/GroupAdmin.antt =====
-- The messages that describe a group and reset its offsets (src/protocol/protocol.cpp and its header): the bytes written
-- for each message, and the decoder with its checks in the order of the source.
pub mod Codec
use bolt_stream.Base.{ℕ, Bool, List, [], ◌∷◌, if◌then◌else◌, is_empty, Bytes}
use bolt_stream.Protocol.Wire.{
  Reader, ◌>>=◌, pure, written, write_u16, write_u32, write_u64, write_string, write_bool,
  write_list, read_u16, read_u32, read_u64, read_string, read_bool, read_list,
}
use bolt_stream.Protocol.Types.{Decoded, ok, err, malformed_payload}
use bolt_stream.Protocol.Decode.{decode_with}

pub record DescribeGroupRequest : Type 0 where
  pub group : Bytes
  pub topic : Bytes

unfoldable pub encode_describe_group_request : DescribeGroupRequest → Bytes
encode_describe_group_request r = written (write_string r.group ∷ write_string r.topic ∷ [])

unfoldable pub read_describe_group_request : Reader DescribeGroupRequest
read_describe_group_request = do
  group ← read_string
  topic ← read_string
  pure (record { group = group; topic = topic })

unfoldable pub check_describe_group_request : DescribeGroupRequest → Decoded DescribeGroupRequest
check_describe_group_request r =
    if is_empty r.group
    then err malformed_payload "describe-group group must not be empty"
    else if is_empty r.topic
    then err malformed_payload "describe-group topic must not be empty"
    else ok r

unfoldable pub decode_describe_group_request : Bytes → Decoded DescribeGroupRequest
unfolding read_describe_group_request check_describe_group_request
decode_describe_group_request =
    decode_with malformed_payload "malformed describe-group request payload"
      read_describe_group_request check_describe_group_request

pub record GroupOffsetDescription : Type 0 where
  pub partition : ℕ
  pub has_committed_offset : Bool
  pub committed_offset : ℕ
  pub earliest_offset : ℕ
  pub next_offset : ℕ
  pub lag : ℕ
  pub out_of_range : Bool

unfoldable pub write_group_offset_description : GroupOffsetDescription → Bytes
write_group_offset_description r = written (
    write_u16 r.partition
    ∷ write_bool r.has_committed_offset
    ∷ write_u64 r.committed_offset
    ∷ write_u64 r.earliest_offset
    ∷ write_u64 r.next_offset
    ∷ write_u64 r.lag
    ∷ write_bool r.out_of_range
    ∷ [])

unfoldable pub read_group_offset_description : Reader GroupOffsetDescription
read_group_offset_description = do
  partition ← read_u16
  has_committed_offset ← read_bool
  committed_offset ← read_u64
  earliest_offset ← read_u64
  next_offset ← read_u64
  lag ← read_u64
  out_of_range ← read_bool
  pure (record {
    partition = partition;
    has_committed_offset = has_committed_offset;
    committed_offset = committed_offset;
    earliest_offset = earliest_offset;
    next_offset = next_offset;
    lag = lag;
    out_of_range = out_of_range;
  })

pub record DescribeGroupResponse : Type 0 where
  pub group : Bytes
  pub topic : Bytes
  pub active_member_count : ℕ
  pub offsets : List GroupOffsetDescription

unfoldable pub encode_describe_group_response : DescribeGroupResponse → Bytes
encode_describe_group_response r = written (
    write_string r.group
    ∷ write_string r.topic
    ∷ write_u32 r.active_member_count
    ∷ write_list write_group_offset_description r.offsets
    ∷ [])

unfoldable pub read_describe_group_response : Reader DescribeGroupResponse
read_describe_group_response = do
  group ← read_string
  topic ← read_string
  active_member_count ← read_u32
  offsets ← read_list read_group_offset_description
  pure (record {
    group = group;
    topic = topic;
    active_member_count = active_member_count;
    offsets = offsets;
  })

unfoldable pub decode_describe_group_response : Bytes → Decoded DescribeGroupResponse
unfolding read_describe_group_response
decode_describe_group_response =
    decode_with malformed_payload "malformed describe-group response payload"
      read_describe_group_response ok

pub record ResetGroupOffsetRequest : Type 0 where
  pub group : Bytes
  pub topic : Bytes
  pub partition : ℕ
  pub to : Bytes

unfoldable pub encode_reset_group_offset_request : ResetGroupOffsetRequest → Bytes
encode_reset_group_offset_request r =
    written
      (write_string r.group ∷ write_string r.topic ∷ write_u16 r.partition ∷ write_string r.to ∷ [])

unfoldable pub read_reset_group_offset_request : Reader ResetGroupOffsetRequest
read_reset_group_offset_request = do
  group ← read_string
  topic ← read_string
  partition ← read_u16
  to ← read_string
  pure (record { group = group; topic = topic; partition = partition; to = to })

unfoldable pub check_reset_group_offset_request :
    ResetGroupOffsetRequest → Decoded ResetGroupOffsetRequest
check_reset_group_offset_request r =
    if is_empty r.group
    then err malformed_payload "reset-group-offset group must not be empty"
    else if is_empty r.topic
    then err malformed_payload "reset-group-offset topic must not be empty"
    else if is_empty r.to
    then err malformed_payload "reset-group-offset target must not be empty"
    else ok r

unfoldable pub decode_reset_group_offset_request : Bytes → Decoded ResetGroupOffsetRequest
unfolding read_reset_group_offset_request check_reset_group_offset_request
decode_reset_group_offset_request =
    decode_with malformed_payload "malformed reset-group-offset request payload"
      read_reset_group_offset_request check_reset_group_offset_request

pub record ResetGroupOffsetResponse : Type 0 where
  pub group : Bytes
  pub topic : Bytes
  pub partition : ℕ
  pub next_offset : ℕ
  pub status : Bytes

unfoldable pub encode_reset_group_offset_response : ResetGroupOffsetResponse → Bytes
encode_reset_group_offset_response r = written (
    write_string r.group
    ∷ write_string r.topic
    ∷ write_u16 r.partition
    ∷ write_u64 r.next_offset
    ∷ write_string r.status
    ∷ [])

unfoldable pub read_reset_group_offset_response : Reader ResetGroupOffsetResponse
read_reset_group_offset_response = do
  group ← read_string
  topic ← read_string
  partition ← read_u16
  next_offset ← read_u64
  status ← read_string
  pure (record {
    group = group;
    topic = topic;
    partition = partition;
    next_offset = next_offset;
    status = status;
  })

unfoldable pub decode_reset_group_offset_response : Bytes → Decoded ResetGroupOffsetResponse
unfolding read_reset_group_offset_response
decode_reset_group_offset_response =
    decode_with malformed_payload "malformed reset-group-offset response payload"
      read_reset_group_offset_response ok
