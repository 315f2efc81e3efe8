-- ===== src/Protocol/HeartbeatLeave.antt =====
-- The heartbeat and leave-group messages (src/protocol/protocol.cpp and its header): the bytes written
-- for each message, and the decoder with its checks in the order of the source.
pub mod Codec
use bolt_stream.Base.{ℕ, zero, [], ◌∷◌, ◌==◌, if◌then◌else◌, is_empty, Bytes}
use bolt_stream.Protocol.Wire.{
  Reader, ◌>>=◌, pure, written, write_u64, write_string, read_u64, read_string,
}
use bolt_stream.Protocol.Types.{Decoded, ok, err, malformed_payload}
use bolt_stream.Protocol.Decode.{decode_with}

pub record HeartbeatRequest : Type 0 where
  pub group : Bytes
  pub topic : Bytes
  pub member_id : Bytes
  pub generation_id : ℕ

unfoldable pub encode_heartbeat_request : HeartbeatRequest → Bytes
encode_heartbeat_request r = written (
    write_string r.group
    ∷ write_string r.topic
    ∷ write_string r.member_id
    ∷ write_u64 r.generation_id
    ∷ [])

unfoldable pub read_heartbeat_request : Reader HeartbeatRequest
read_heartbeat_request = do
  group ← read_string
  topic ← read_string
  member_id ← read_string
  generation_id ← read_u64
  pure (record {
    group = group;
    topic = topic;
    member_id = member_id;
    generation_id = generation_id;
  })

unfoldable pub check_heartbeat_request : HeartbeatRequest → Decoded HeartbeatRequest
check_heartbeat_request r =
    if is_empty r.group
    then err malformed_payload "heartbeat group must not be empty"
    else if is_empty r.topic
    then err malformed_payload "heartbeat topic must not be empty"
    else if is_empty r.member_id
    then err malformed_payload "heartbeat member id must not be empty"
    else if r.generation_id == 0
    then err malformed_payload "heartbeat generation id must be greater than zero"
    else ok r

unfoldable pub decode_heartbeat_request : Bytes → Decoded HeartbeatRequest
unfolding read_heartbeat_request check_heartbeat_request
decode_heartbeat_request =
    decode_with malformed_payload "malformed heartbeat request payload" read_heartbeat_request
      check_heartbeat_request

pub record HeartbeatResponse : Type 0 where
  pub group : Bytes
  pub topic : Bytes
  pub member_id : Bytes
  pub generation_id : ℕ
  pub status : Bytes

unfoldable pub encode_heartbeat_response : HeartbeatResponse → Bytes
encode_heartbeat_response r = written (
    write_string r.group
    ∷ write_string r.topic
    ∷ write_string r.member_id
    ∷ write_u64 r.generation_id
    ∷ write_string r.status
    ∷ [])

unfoldable pub read_heartbeat_response : Reader HeartbeatResponse
read_heartbeat_response = do
  group ← read_string
  topic ← read_string
  member_id ← read_string
  generation_id ← read_u64
  status ← read_string
  pure (record {
    group = group;
    topic = topic;
    member_id = member_id;
    generation_id = generation_id;
    status = status;
  })

unfoldable pub decode_heartbeat_response : Bytes → Decoded HeartbeatResponse
unfolding read_heartbeat_response
decode_heartbeat_response =
    decode_with malformed_payload "malformed heartbeat response payload" read_heartbeat_response ok

pub record LeaveGroupRequest : Type 0 where
  pub group : Bytes
  pub topic : Bytes
  pub member_id : Bytes
  pub generation_id : ℕ

unfoldable pub encode_leave_group_request : LeaveGroupRequest → Bytes
encode_leave_group_request r = written (
    write_string r.group
    ∷ write_string r.topic
    ∷ write_string r.member_id
    ∷ write_u64 r.generation_id
    ∷ [])

unfoldable pub read_leave_group_request : Reader LeaveGroupRequest
read_leave_group_request = do
  group ← read_string
  topic ← read_string
  member_id ← read_string
  generation_id ← read_u64
  pure (record {
    group = group;
    topic = topic;
    member_id = member_id;
    generation_id = generation_id;
  })

unfoldable pub check_leave_group_request : LeaveGroupRequest → Decoded LeaveGroupRequest
check_leave_group_request r =
    if is_empty r.group
    then err malformed_payload "leave-group group must not be empty"
    else if is_empty r.topic
    then err malformed_payload "leave-group topic must not be empty"
    else if is_empty r.member_id
    then err malformed_payload "leave-group member id must not be empty"
    else if r.generation_id == 0
    then err malformed_payload "leave-group generation id must be greater than zero"
    else ok r

unfoldable pub decode_leave_group_request : Bytes → Decoded LeaveGroupRequest
unfolding read_leave_group_request check_leave_group_request
decode_leave_group_request =
    decode_with malformed_payload "malformed leave-group request payload" read_leave_group_request
      check_leave_group_request

pub record LeaveGroupResponse : Type 0 where
  pub group : Bytes
  pub topic : Bytes
  pub member_id : Bytes
  pub generation_id : ℕ
  pub status : Bytes

unfoldable pub encode_leave_group_response : LeaveGroupResponse → Bytes
encode_leave_group_response r = written (
    write_string r.group
    ∷ write_string r.topic
    ∷ write_string r.member_id
    ∷ write_u64 r.generation_id
    ∷ write_string r.status
    ∷ [])

unfoldable pub read_leave_group_response : Reader LeaveGroupResponse
read_leave_group_response = do
  group ← read_string
  topic ← read_string
  member_id ← read_string
  generation_id ← read_u64
  status ← read_string
  pure (record {
    group = group;
    topic = topic;
    member_id = member_id;
    generation_id = generation_id;
    status = status;
  })

unfoldable pub decode_leave_group_response : Bytes → Decoded LeaveGroupResponse
unfolding read_leave_group_response
decode_leave_group_response =
    decode_with malformed_payload "malformed leave-group response payload" read_leave_group_response
      ok
