-- ===== src/Tests/Messages.antt =====
-- A join-group request, an authentication response, and a record set with one record.
use bolt_stream.Base.{◌≡◌, refl, List, [], ◌∷◌, arith, length, All, Bytes, codes}
use bolt_stream.Compression.{is_supported}
use bolt_stream.Protocol.Types.{ok}
use bolt_stream.Protocol.Wire.{read_u32, read_string, read_bytes, read_each}
use bolt_stream.Protocol.JoinSync.{
  JoinGroupRequest, read_join_group_request, check_join_group_request, decode_join_group_request,
}
use bolt_stream.Protocol.Session.{AuthResponse, read_auth_response, decode_auth_response}
use bolt_stream.Protocol.Requests.{
  a_join_group, encode_request, decode_request, RequestValid, decode_request-encode_request,
  encode_request-decode_request,
}
use bolt_stream.Protocol.Responses.{
  a_auth, encode_response, decode_response, ResponseValid, decode_response-encode_response,
  encode_response-decode_response,
}
use bolt_stream.Protocol.Batch.{
  BatchRecord, encode_record_set, read_batch_record, decode_record_set, ProduceBatchRequest,
  batch_request_bytes, decode_produce_batch_request,
}
use bolt_stream.Protocol.Batch.Codec.{
  BatchRecordFits, decode_record_set-encode_record_set, encode_record_set-decode_record_set,
  decode_produce_batch_request_word,
}
use bolt_stream.Tests.Frames.{all_bytes-IsByte}

abbrev join_request : JoinGroupRequest
join_request = record {
  group = codes "g";
  topic = codes "t";
  member_id = [];
  session_timeout_ms = 10;
}

abbrev join_bytes : Bytes
join_bytes = 0 ∷ 0 ∷ 0 ∷ 1 ∷ 103 ∷ 0 ∷ 0 ∷ 0 ∷ 1 ∷ 116 ∷ 0 ∷ 0 ∷ 0 ∷ 0 ∷ 0 ∷ 0 ∷ 0 ∷ 10 ∷ []

decode_request-encode_request_example :
    decode_request a_join_group (encode_request a_join_group join_request) ≡ ok join_request
decode_request-encode_request_example =
    decode_request-encode_request a_join_group join_request
      ((omega arith, omega arith, omega arith, omega arith), (λ e. cc, λ e. cc, omega arith))

join_bytes_read : decode_join_group_request join_bytes ≡ ok join_request
unfolding decode_join_group_request read_join_group_request check_join_group_request read_string
    read_bytes read_u32
join_bytes_read = refl

encode_request-decode_request_example :
    (encode_request a_join_group join_request ≡ join_bytes) × RequestValid a_join_group join_request
encode_request-decode_request_example =
    encode_request-decode_request a_join_group join_bytes join_request
      (all_bytes-IsByte join_bytes refl) join_bytes_read

abbrev auth_ok : AuthResponse
auth_ok = record { status = codes "ok" }

abbrev auth_bytes : Bytes
auth_bytes = 0 ∷ 0 ∷ 0 ∷ 2 ∷ 111 ∷ 107 ∷ []

decode_response-encode_response_example :
    decode_response a_auth (encode_response a_auth auth_ok) ≡ ok auth_ok
decode_response-encode_response_example =
    decode_response-encode_response a_auth auth_ok (omega arith)

auth_bytes_read : decode_auth_response auth_bytes ≡ ok auth_ok
unfolding decode_auth_response read_auth_response read_string read_bytes read_u32
auth_bytes_read = refl

encode_response-decode_response_example :
    (encode_response a_auth auth_ok ≡ auth_bytes) × ResponseValid a_auth auth_ok
encode_response-decode_response_example =
    encode_response-decode_response a_auth auth_bytes auth_ok (all_bytes-IsByte auth_bytes refl)
      auth_bytes_read

abbrev pub one_record : List BatchRecord
one_record = record { key = []; message = codes "m" } ∷ []

abbrev pub one_record_bytes : Bytes
one_record_bytes = 0 ∷ 0 ∷ 0 ∷ 1 ∷ 0 ∷ 0 ∷ 0 ∷ 0 ∷ 0 ∷ 0 ∷ 0 ∷ 1 ∷ 109 ∷ []

decode_record_set-encode_record_set_example :
    decode_record_set (encode_record_set one_record) 1 ≡ ok one_record
decode_record_set-encode_record_set_example =
    decode_record_set-encode_record_set one_record (omega arith)
      ((omega arith, omega arith, λ e. cc), tt)

one_record_read : decode_record_set one_record_bytes 1 ≡ ok one_record
unfolding decode_record_set read_batch_record read_bytes read_u32 read_each
one_record_read = refl

encode_record_set-decode_record_set_example :
    (encode_record_set one_record ≡ one_record_bytes)
    × (length one_record ≡ 1)
    × All BatchRecordFits one_record
encode_record_set-decode_record_set_example =
    encode_record_set-decode_record_set one_record_bytes 1 (all_bytes-IsByte one_record_bytes refl)
      one_record_read

abbrev batch_request : ProduceBatchRequest
batch_request = record {
  topic = codes "t";
  partition = 0;
  codec = 1;
  record_count = 1;
  uncompressed_bytes = 13;
  encoded_records = codes "z";
}

-- 257 is no codec, but its low byte is that of zstd.
decode_produce_batch_request_word_example :
    decode_produce_batch_request (batch_request_bytes batch_request 257) ≡ ok batch_request
unfolding is_supported
decode_produce_batch_request_word_example =
    decode_produce_batch_request_word batch_request 257
      (omega arith, omega arith, omega arith, omega arith, omega arith)
      (λ e. cc, omega arith, omega arith, λ e. cc, refl) (omega arith) refl
