-- ===== src/Protocol/Fetch.antt =====
-- The fetch request, and one record of a fetch response (src/protocol/protocol.cpp and its header): the bytes written
-- for each message, and the decoder with its checks in the order of the source.
pub mod Codec
use bolt_stream.Base.{ℕ, [], ◌∷◌, if◌then◌else◌, is_empty, Bytes}
use bolt_stream.Protocol.Wire.{
  Reader, ◌>>=◌, pure, written, write_u16, write_u32, write_u64, write_bytes, write_string,
  read_u16, read_u32, read_u64, read_bytes, read_string,
}
use bolt_stream.Protocol.Types.{Decoded, ok, err, malformed_payload}
use bolt_stream.Protocol.Decode.{decode_with}

pub record FetchRequest : Type 0 where
  pub topic : Bytes
  pub partition : ℕ
  pub from : Bytes
  pub group : Bytes
  pub max_wait_ms : ℕ

unfoldable pub encode_fetch_request : FetchRequest → Bytes
encode_fetch_request r = written (
    write_string r.topic
    ∷ write_u16 r.partition
    ∷ write_string r.from
    ∷ write_string r.group
    ∷ write_u32 r.max_wait_ms
    ∷ [])

unfoldable pub read_fetch_request : Reader FetchRequest
read_fetch_request = do
  topic ← read_string
  partition ← read_u16
  from ← read_string
  group ← read_string
  max_wait_ms ← read_u32
  pure (record {
    topic = topic;
    partition = partition;
    from = from;
    group = group;
    max_wait_ms = max_wait_ms;
  })

unfoldable pub check_fetch_request : FetchRequest → Decoded FetchRequest
check_fetch_request r =
    if is_empty r.topic
    then err malformed_payload "fetch topic must not be empty"
    else if is_empty r.from
    then err malformed_payload "fetch offset selector must not be empty"
    else ok r

unfoldable pub decode_fetch_request : Bytes → Decoded FetchRequest
unfolding read_fetch_request check_fetch_request
decode_fetch_request =
    decode_with malformed_payload "malformed fetch request payload" read_fetch_request
      check_fetch_request

pub record FetchRecord : Type 0 where
  pub offset : ℕ
  pub timestamp_unix_ns : ℕ
  pub key : Bytes
  pub message : Bytes
  pub encoded_byte_size : ℕ

unfoldable pub write_fetch_record : FetchRecord → Bytes
write_fetch_record r = written (
    write_u64 r.offset
    ∷ write_u64 r.timestamp_unix_ns
    ∷ write_bytes r.key
    ∷ write_bytes r.message
    ∷ write_u32 r.encoded_byte_size
    ∷ [])

unfoldable pub read_fetch_record : Reader FetchRecord
read_fetch_record = do
  offset ← read_u64
  timestamp_unix_ns ← read_u64
  key ← read_bytes
  message ← read_bytes
  encoded_byte_size ← read_u32
  pure (record {
    offset = offset;
    timestamp_unix_ns = timestamp_unix_ns;
    key = key;
    message = message;
    encoded_byte_size = encoded_byte_size;
  })
