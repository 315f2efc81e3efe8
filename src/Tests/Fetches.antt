-- ===== src/Tests/Fetches.antt =====
-- A fetch response with one plain record, and one with a compressed batch of two records.
use bolt_stream.Base.{◌≡◌, refl, some, List, [], ◌∷◌, arith, length, get_elem?, codes}
use bolt_stream.Compression.{compress}
use bolt_stream.Protocol.Types.{ok}
use bolt_stream.Protocol.Wire.{write_u32, write_bytes, write_list, write_each}
use bolt_stream.Protocol.Batch.{BatchRecord, write_batch_record, encode_record_set}
use bolt_stream.Protocol.FetchResponse.{
  FetchResponse, encode_fetch_response, CompressedBatch, encode_compressed_fetch_response,
  decode_fetch_response,
}
use bolt_stream.Protocol.FetchResponse.Codec.{
  decode_fetch_response-encode_fetch_response, decode_fetch_response-compressed,
}
use bolt_stream.Tests.Codecs.{copy}

abbrev plain_response : FetchResponse
plain_response = record {
  topic = codes "t";
  partition = 0;
  from_offset = 7;
  next_offset = 8;
  records =
      record {
        offset = 7;
        timestamp_unix_ns = 1;
        key = [];
        message = codes "m";
        encoded_byte_size = 13;
      }
      ∷ [];
}

decode_fetch_response-encode_fetch_response_example :
    decode_fetch_response copy (encode_fetch_response plain_response) ≡ ok plain_response
decode_fetch_response-encode_fetch_response_example =
    decode_fetch_response-encode_fetch_response copy plain_response
      (
        omega arith,
        omega arith,
        omega arith,
        omega arith,
        omega arith,
        ((omega arith, omega arith, omega arith, omega arith, omega arith), tt),
      )
      (λ e. ground (arith, e))

abbrev two_records : List BatchRecord
two_records =
    record { key = []; message = codes "m" } ∷ record { key = codes "k"; message = codes "n" } ∷ []

abbrev batch : CompressedBatch
batch = record {
  codec = 1;
  timestamp_unix_ns = 1;
  record_count = 2;
  uncompressed_bytes = 23;
  encoded_records =
      0 ∷ 0 ∷ 0 ∷ 2 ∷ 0 ∷ 0 ∷ 0 ∷ 0 ∷ 0 ∷ 0 ∷ 0 ∷ 1 ∷ 109 ∷ 0 ∷ 0 ∷ 0 ∷ 1 ∷ 107 ∷ 0 ∷ 0 ∷ 0 ∷ 1
      ∷ 110 ∷ [];
}

-- The second record.
decode_fetch_response-compressed_example :
    (response : FetchResponse) × (decode_fetch_response copy
        (encode_compressed_fetch_response (codes "t") 0 7 9 batch)
      ≡ ok response)
    × (length response.records ≡ 2)
    × (get_elem? response.records 1
        ≡ some (record {
          offset = 8;
          timestamp_unix_ns = 1;
          key = codes "k";
          message = codes "n";
          encoded_byte_size = 11;
        }))
    × (response.topic ≡ codes "t")
    × (response.partition ≡ 0)
    × (response.from_offset ≡ 7)
    × (response.next_offset ≡ 9)
unfolding compress encode_record_set write_batch_record write_list write_each write_bytes write_u32
    get_elem?
decode_fetch_response-compressed_example =
    decode_fetch_response-compressed copy (codes "t") 0 7 9 3 batch two_records 1
      (record { key = codes "k"; message = codes "n" })
      (omega arith, omega arith, omega arith, omega arith, omega arith)
      (omega arith, omega arith, omega arith, omega arith, omega arith) (omega arith)
      ((omega arith, omega arith, λ e. cc), ((omega arith, omega arith, λ e. cc), tt)) refl refl
      (omega arith) refl refl
