-- ===== src/Protocol/Batch.antt =====
-- Record sets and the produce-batch request (src/protocol/protocol.cpp).
pub mod Codec
use bolt_stream.Base.{
  ℕ, ◌%◌, ◌^◌, Bool, ◌||◌, not, Option, none, some, List, [], ◌∷◌, if◌then◌else◌, ◌==◌, is_empty,
  Bytes,
}
use bolt_stream.Compression.{is_supported}
use bolt_stream.Protocol.Wire.{
  Reader, ◌>>=◌, ◌>>◌, pure, require, written, write_u16, write_u32, write_bytes, write_string,
  write_list, read_u16, read_u32, read_bytes, read_string, read_each,
}
use bolt_stream.Protocol.Types.{
  Decoded, ok, err, invalid_batch, malformed_payload, unsupported_codec,
}
use bolt_stream.Protocol.Decode.{decode_with}

pub record BatchRecord : Type 0 where
  pub key : Bytes
  pub message : Bytes

unfoldable pub write_batch_record : BatchRecord → Bytes
write_batch_record r = written (write_bytes r.key ∷ write_bytes r.message ∷ [])

unfoldable pub encode_record_set : List BatchRecord → Bytes
encode_record_set = write_list write_batch_record

unfoldable pub read_batch_record : Reader BatchRecord
read_batch_record = do
  key ← read_bytes
  message ← read_bytes
  require (not (is_empty message))
  pure (record { key = key; message = message })

abbrev pub record_set_end : Option (List BatchRecord × Bytes) → Decoded (List BatchRecord)
record_set_end none = err invalid_batch "malformed record set"
record_set_end (some (records, [])) = ok records
record_set_end (some (records, b ∷ rest)) = err invalid_batch "trailing record-set bytes"

abbrev pub record_set_entries : ℕ → Option (ℕ × Bytes) → Decoded (List BatchRecord)
record_set_entries expected_count none = err invalid_batch "record-set count mismatch"
record_set_entries expected_count (some (count, rest)) =
    if not (count == expected_count)
    then err invalid_batch "record-set count mismatch"
    else record_set_end (read_each read_batch_record count rest)

unfoldable pub decode_record_set : Bytes → ℕ → Decoded (List BatchRecord)
decode_record_set payload expected_count = record_set_entries expected_count (read_u32 payload)

-- `codec` is the underlying `std::uint8_t`.
pub record ProduceBatchRequest : Type 0 where
  pub topic : Bytes
  pub partition : ℕ
  pub codec : ℕ
  pub record_count : ℕ
  pub uncompressed_bytes : ℕ
  pub encoded_records : Bytes

-- The payload with a given codec word.
unfoldable pub batch_request_bytes : ProduceBatchRequest → ℕ → Bytes
batch_request_bytes r codec_word = written (
    write_string r.topic
    ∷ write_u16 r.partition
    ∷ write_u16 codec_word
    ∷ write_u32 r.record_count
    ∷ write_u32 r.uncompressed_bytes
    ∷ write_bytes r.encoded_records
    ∷ [])

unfoldable pub encode_produce_batch_request : ProduceBatchRequest → Bytes
encode_produce_batch_request r = batch_request_bytes r r.codec

-- `static_cast<compression::Codec>(codec)` keeps the low byte of the 16-bit word.
unfoldable pub read_produce_batch_request : Reader ProduceBatchRequest
read_produce_batch_request = do
  topic ← read_string
  partition ← read_u16
  codec ← read_u16
  record_count ← read_u32
  uncompressed_bytes ← read_u32
  encoded_records ← read_bytes
  pure (record {
    topic = topic;
    partition = partition;
    codec = codec % 2 ^ 8;
    record_count = record_count;
    uncompressed_bytes = uncompressed_bytes;
    encoded_records = encoded_records;
  })

unfoldable pub check_produce_batch_request : ProduceBatchRequest → Decoded ProduceBatchRequest
check_produce_batch_request r =
    if is_empty r.topic
      || (r.record_count == 0 || (r.uncompressed_bytes == 0 || is_empty r.encoded_records))
    then err invalid_batch "produce batch must not be empty"
    else if not (is_supported r.codec)
    then err unsupported_codec "unsupported compression codec"
    else ok r

unfoldable pub decode_produce_batch_request : Bytes → Decoded ProduceBatchRequest
decode_produce_batch_request =
    decode_with malformed_payload "malformed produce-batch request" read_produce_batch_request
      check_produce_batch_request
