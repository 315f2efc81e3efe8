-- ===== src/Protocol/Produce.antt =====
-- The produce messages for one record, and the response to a batch (src/protocol/protocol.cpp and its header): the bytes written
-- for each message, and the decoder with its checks in the order of the source.
pub mod Codec
use bolt_stream.Base.{ℕ, [], ◌∷◌, if◌then◌else◌, is_empty, Bytes}
use bolt_stream.Protocol.Wire.{
  Reader, ◌>>=◌, pure, written, write_u16, write_u32, write_u64, write_bytes, write_string,
  read_u16, read_u32, read_u64, read_bytes, read_string,
}
use bolt_stream.Protocol.Types.{Decoded, ok, err, malformed_payload}
use bolt_stream.Protocol.Decode.{decode_with}

pub record ProduceRequest : Type 0 where
  pub topic : Bytes
  pub key : Bytes
  pub message : Bytes

unfoldable pub encode_produce_request : ProduceRequest → Bytes
encode_produce_request r =
    written (write_string r.topic ∷ write_bytes r.key ∷ write_bytes r.message ∷ [])

unfoldable pub read_produce_request : Reader ProduceRequest
read_produce_request = do
  topic ← read_string
  key ← read_bytes
  message ← read_bytes
  pure (record { topic = topic; key = key; message = message })

unfoldable pub check_produce_request : ProduceRequest → Decoded ProduceRequest
check_produce_request r =
    if is_empty r.topic
    then err malformed_payload "produce topic must not be empty"
    else if is_empty r.message
    then err malformed_payload "produce message must not be empty"
    else ok r

unfoldable pub decode_produce_request : Bytes → Decoded ProduceRequest
unfolding read_produce_request check_produce_request
decode_produce_request =
    decode_with malformed_payload "malformed produce request payload" read_produce_request
      check_produce_request

pub record ProduceResponse : Type 0 where
  pub topic : Bytes
  pub partition : ℕ
  pub offset : ℕ
  pub next_offset : ℕ
  pub encoded_byte_size : ℕ

unfoldable pub encode_produce_response : ProduceResponse → Bytes
encode_produce_response r = written (
    write_string r.topic
    ∷ write_u16 r.partition
    ∷ write_u64 r.offset
    ∷ write_u64 r.next_offset
    ∷ write_u32 r.encoded_byte_size
    ∷ [])

unfoldable pub read_produce_response : Reader ProduceResponse
read_produce_response = do
  topic ← read_string
  partition ← read_u16
  offset ← read_u64
  next_offset ← read_u64
  encoded_byte_size ← read_u32
  pure (record {
    topic = topic;
    partition = partition;
    offset = offset;
    next_offset = next_offset;
    encoded_byte_size = encoded_byte_size;
  })

unfoldable pub decode_produce_response : Bytes → Decoded ProduceResponse
unfolding read_produce_response
decode_produce_response =
    decode_with malformed_payload "malformed produce response payload" read_produce_response ok

pub record ProduceBatchResponse : Type 0 where
  pub topic : Bytes
  pub partition : ℕ
  pub base_offset : ℕ
  pub next_offset : ℕ
  pub record_count : ℕ
  pub logical_bytes : ℕ
  pub encoded_bytes : ℕ
  pub stored_bytes : ℕ

unfoldable pub encode_produce_batch_response : ProduceBatchResponse → Bytes
encode_produce_batch_response r = written (
    write_string r.topic
    ∷ write_u16 r.partition
    ∷ write_u64 r.base_offset
    ∷ write_u64 r.next_offset
    ∷ write_u32 r.record_count
    ∷ write_u32 r.logical_bytes
    ∷ write_u32 r.encoded_bytes
    ∷ write_u32 r.stored_bytes
    ∷ [])

unfoldable pub read_produce_batch_response : Reader ProduceBatchResponse
read_produce_batch_response = do
  topic ← read_string
  partition ← read_u16
  base_offset ← read_u64
  next_offset ← read_u64
  record_count ← read_u32
  logical_bytes ← read_u32
  encoded_bytes ← read_u32
  stored_bytes ← read_u32
  pure (record {
    topic = topic;
    partition = partition;
    base_offset = base_offset;
    next_offset = next_offset;
    record_count = record_count;
    logical_bytes = logical_bytes;
    encoded_bytes = encoded_bytes;
    stored_bytes = stored_bytes;
  })

unfoldable pub decode_produce_batch_response : Bytes → Decoded ProduceBatchResponse
unfolding read_produce_batch_response
decode_produce_batch_response =
    decode_with malformed_payload "malformed produce-batch response" read_produce_batch_response ok
