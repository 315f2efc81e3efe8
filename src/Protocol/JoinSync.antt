-- ===== src/Protocol/JoinSync.antt =====
-- The join-group and sync-group messages (src/protocol/protocol.cpp and its header): the bytes written
-- for each message, and the decoder with its checks in the order of the source.
pub mod Codec
use bolt_stream.Base.{ℕ, zero, List, [], ◌∷◌, ◌==◌, if◌then◌else◌, is_empty, Bytes}
use bolt_stream.Protocol.Wire.{
  Reader, ◌>>=◌, pure, written, write_u16, write_u32, write_u64, write_string, write_list, read_u16,
  read_u32, read_u64, read_string, read_list,
}
use bolt_stream.Protocol.Types.{Decoded, ok, err, malformed_payload}
use bolt_stream.Protocol.Decode.{decode_with}

pub record JoinGroupRequest : Type 0 where
  pub group : Bytes
  pub topic : Bytes
  pub member_id : Bytes
  pub session_timeout_ms : ℕ

unfoldable pub encode_join_group_request : JoinGroupRequest → Bytes
encode_join_group_request r = written (
    write_string r.group
    ∷ write_string r.topic
    ∷ write_string r.member_id
    ∷ write_u32 r.session_timeout_ms
    ∷ [])

unfoldable pub read_join_group_request : Reader JoinGroupRequest
read_join_group_request = do
  group ← read_string
  topic ← read_string
  member_id ← read_string
  session_timeout_ms ← read_u32
  pure (record {
    group = group;
    topic = topic;
    member_id = member_id;
    session_timeout_ms = session_timeout_ms;
  })

unfoldable pub check_join_group_request : JoinGroupRequest → Decoded JoinGroupRequest
check_join_group_request r =
    if is_empty r.group
    then err malformed_payload "join-group group must not be empty"
    else if is_empty r.topic
    then err malformed_payload "join-group topic must not be empty"
    else if r.session_timeout_ms == 0
    then err malformed_payload "join-group session timeout must be greater than zero"
    else ok r

unfoldable pub decode_join_group_request : Bytes → Decoded JoinGroupRequest
unfolding read_join_group_request check_join_group_request
decode_join_group_request =
    decode_with malformed_payload "malformed join-group request payload" read_join_group_request
      check_join_group_request

pub record JoinGroupResponse : Type 0 where
  pub group : Bytes
  pub topic : Bytes
  pub member_id : Bytes
  pub generation_id : ℕ

unfoldable pub encode_join_group_response : JoinGroupResponse → Bytes
encode_join_group_response r = written (
    write_string r.group
    ∷ write_string r.topic
    ∷ write_string r.member_id
    ∷ write_u64 r.generation_id
    ∷ [])

unfoldable pub read_join_group_response : Reader JoinGroupResponse
read_join_group_response = do
  group ← read_string
  topic ← read_string
  member_id ← read_string
  generation_id ← read_u64
  pure (record {
    group = group;
    topic = topic;
    member_id = member_id;
    generation_id = generation_id;
  })

unfoldable pub decode_join_group_response : Bytes → Decoded JoinGroupResponse
unfolding read_join_group_response
decode_join_group_response =
    decode_with malformed_payload "malformed join-group response payload" read_join_group_response
      ok

pub record SyncGroupRequest : Type 0 where
  pub group : Bytes
  pub topic : Bytes
  pub member_id : Bytes
  pub generation_id : ℕ

unfoldable pub encode_sync_group_request : SyncGroupRequest → Bytes
encode_sync_group_request r = written (
    write_string r.group
    ∷ write_string r.topic
    ∷ write_string r.member_id
    ∷ write_u64 r.generation_id
    ∷ [])

unfoldable pub read_sync_group_request : Reader SyncGroupRequest
read_sync_group_request = do
  group ← read_string
  topic ← read_string
  member_id ← read_string
  generation_id ← read_u64
  pure (record {
    group = group;
    topic = topic;
    member_id = member_id;
    generation_id = generation_id;
  })

unfoldable pub check_sync_group_request : SyncGroupRequest → Decoded SyncGroupRequest
check_sync_group_request r =
    if is_empty r.group
    then err malformed_payload "sync-group group must not be empty"
    else if is_empty r.topic
    then err malformed_payload "sync-group topic must not be empty"
    else if is_empty r.member_id
    then err malformed_payload "sync-group member id must not be empty"
    else if r.generation_id == 0
    then err malformed_payload "sync-group generation id must be greater than zero"
    else ok r

unfoldable pub decode_sync_group_request : Bytes → Decoded SyncGroupRequest
unfolding read_sync_group_request check_sync_group_request
decode_sync_group_request =
    decode_with malformed_payload "malformed sync-group request payload" read_sync_group_request
      check_sync_group_request

pub record SyncGroupResponse : Type 0 where
  pub group : Bytes
  pub topic : Bytes
  pub member_id : Bytes
  pub generation_id : ℕ
  pub assignment : List ℕ

unfoldable pub encode_sync_group_response : SyncGroupResponse → Bytes
encode_sync_group_response r = written (
    write_string r.group
    ∷ write_string r.topic
    ∷ write_string r.member_id
    ∷ write_u64 r.generation_id
    ∷ write_list write_u16 r.assignment
    ∷ [])

unfoldable pub read_sync_group_response : Reader SyncGroupResponse
read_sync_group_response = do
  group ← read_string
  topic ← read_string
  member_id ← read_string
  generation_id ← read_u64
  assignment ← read_list read_u16
  pure (record {
    group = group;
    topic = topic;
    member_id = member_id;
    generation_id = generation_id;
    assignment = assignment;
  })

unfoldable pub decode_sync_group_response : Bytes → Decoded SyncGroupResponse
unfolding read_sync_group_response
decode_sync_group_response =
    decode_with malformed_payload "malformed sync-group response payload" read_sync_group_response
      ok
