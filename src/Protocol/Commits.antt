-- ===== src/Protocol/Commits.antt =====
-- The offset-commit messages, with and without a group generation (src/protocol/protocol.cpp and its header): the bytes written
-- for each message, and the decoder with its checks in the order of the source.
pub mod Codec
use bolt_stream.Base.{ℕ, zero, [], ◌∷◌, ◌==◌, if◌then◌else◌, is_empty, Bytes}
use bolt_stream.Protocol.Wire.{
  Reader, ◌>>=◌, pure, written, write_u16, write_u64, write_string, read_u16, read_u64, read_string,
}
use bolt_stream.Protocol.Types.{Decoded, ok, err, malformed_payload}
use bolt_stream.Protocol.Decode.{decode_with}

pub record OffsetCommitRequest : Type 0 where
  pub group : Bytes
  pub topic : Bytes
  pub partition : ℕ
  pub next_offset : ℕ

unfoldable pub encode_offset_commit_request : OffsetCommitRequest → Bytes
encode_offset_commit_request r = written (
    write_string r.group
    ∷ write_string r.topic
    ∷ write_u16 r.partition
    ∷ write_u64 r.next_offset
    ∷ [])

unfoldable pub read_offset_commit_request : Reader OffsetCommitRequest
read_offset_commit_request = do
  group ← read_string
  topic ← read_string
  partition ← read_u16
  next_offset ← read_u64
  pure (record { group = group; topic = topic; partition = partition; next_offset = next_offset })

unfoldable pub check_offset_commit_request : OffsetCommitRequest → Decoded OffsetCommitRequest
check_offset_commit_request r =
    if is_empty r.group
    then err malformed_payload "offset-commit group must not be empty"
    else if is_empty r.topic
    then err malformed_payload "offset-commit topic must not be empty"
    else ok r

unfoldable pub decode_offset_commit_request : Bytes → Decoded OffsetCommitRequest
unfolding read_offset_commit_request check_offset_commit_request
decode_offset_commit_request =
    decode_with malformed_payload "malformed offset-commit request payload"
      read_offset_commit_request check_offset_commit_request

pub record OffsetCommitResponse : Type 0 where
  pub group : Bytes
  pub topic : Bytes
  pub partition : ℕ
  pub next_offset : ℕ

unfoldable pub encode_offset_commit_response : OffsetCommitResponse → Bytes
encode_offset_commit_response r = written (
    write_string r.group
    ∷ write_string r.topic
    ∷ write_u16 r.partition
    ∷ write_u64 r.next_offset
    ∷ [])

unfoldable pub read_offset_commit_response : Reader OffsetCommitResponse
read_offset_commit_response = do
  group ← read_string
  topic ← read_string
  partition ← read_u16
  next_offset ← read_u64
  pure (record { group = group; topic = topic; partition = partition; next_offset = next_offset })

unfoldable pub decode_offset_commit_response : Bytes → Decoded OffsetCommitResponse
unfolding read_offset_commit_response
decode_offset_commit_response =
    decode_with malformed_payload "malformed offset-commit response payload"
      read_offset_commit_response ok

pub record GroupOffsetCommitRequest : Type 0 where
  pub group : Bytes
  pub topic : Bytes
  pub member_id : Bytes
  pub generation_id : ℕ
  pub partition : ℕ
  pub next_offset : ℕ

unfoldable pub encode_group_offset_commit_request : GroupOffsetCommitRequest → Bytes
encode_group_offset_commit_request r = written (
    write_string r.group
    ∷ write_string r.topic
    ∷ write_string r.member_id
    ∷ write_u64 r.generation_id
    ∷ write_u16 r.partition
    ∷ write_u64 r.next_offset
    ∷ [])

unfoldable pub read_group_offset_commit_request : Reader GroupOffsetCommitRequest
read_group_offset_commit_request = do
  group ← read_string
  topic ← read_string
  member_id ← read_string
  generation_id ← read_u64
  partition ← read_u16
  next_offset ← read_u64
  pure (record {
    group = group;
    topic = topic;
    member_id = member_id;
    generation_id = generation_id;
    partition = partition;
    next_offset = next_offset;
  })

unfoldable pub check_group_offset_commit_request :
    GroupOffsetCommitRequest → Decoded GroupOffsetCommitRequest
check_group_offset_commit_request r =
    if is_empty r.group
    then err malformed_payload "group-offset-commit group must not be empty"
    else if is_empty r.topic
    then err malformed_payload "group-offset-commit topic must not be empty"
    else if is_empty r.member_id
    then err malformed_payload "group-offset-commit member id must not be empty"
    else if r.generation_id == 0
    then err malformed_payload "group-offset-commit generation id must be greater than zero"
    else ok r

unfoldable pub decode_group_offset_commit_request : Bytes → Decoded GroupOffsetCommitRequest
unfolding read_group_offset_commit_request check_group_offset_commit_request
decode_group_offset_commit_request =
    decode_with malformed_payload "malformed group-offset-commit request payload"
      read_group_offset_commit_request check_group_offset_commit_request

pub record GroupOffsetCommitResponse : Type 0 where
  pub group : Bytes
  pub topic : Bytes
  pub member_id : Bytes
  pub generation_id : ℕ
  pub partition : ℕ
  pub next_offset : ℕ

unfoldable pub encode_group_offset_commit_response : GroupOffsetCommitResponse → Bytes
encode_group_offset_commit_response r = written (
    write_string r.group
    ∷ write_string r.topic
    ∷ write_string r.member_id
    ∷ write_u64 r.generation_id
    ∷ write_u16 r.partition
    ∷ write_u64 r.next_offset
    ∷ [])

unfoldable pub read_group_offset_commit_response : Reader GroupOffsetCommitResponse
read_group_offset_commit_response = do
  group ← read_string
  topic ← read_string
  member_id ← read_string
  generation_id ← read_u64
  partition ← read_u16
  next_offset ← read_u64
  pure (record {
    group = group;
    topic = topic;
    member_id = member_id;
    generation_id = generation_id;
    partition = partition;
    next_offset = next_offset;
  })

unfoldable pub decode_group_offset_commit_response : Bytes → Decoded GroupOffsetCommitResponse
unfolding read_group_offset_commit_response
decode_group_offset_commit_response =
    decode_with malformed_payload "malformed group-offset-commit response payload"
      read_group_offset_commit_response ok
