-- ===== src/Tests/Metadata.antt =====
-- A metadata response with one topic, and what the decoder makes of version 0.
use bolt_stream.Base.{◌≡◌, refl, [], ◌∷◌, arith, codes}
use bolt_stream.Protocol.Types.{ok, err, malformed_payload}
use bolt_stream.Protocol.Wire.{
  write_u16, write_u32, write_u64, write_string, write_list, write_each, read_u16, read_u32,
  read_u64, read_string, read_bytes, read_list, read_each, read_u32_be,
}
use bolt_stream.Protocol.Metadata.{
  MetadataResponse, write_metadata_topic, read_metadata_topic, encode_metadata_topics,
  encode_metadata_response, looks_like_codecs, response_version, read_capabilities,
  decode_metadata_response,
}
use bolt_stream.Protocol.Metadata.Codec.{decode_metadata_response-encode_metadata_response}

abbrev one_topic : MetadataResponse
one_topic = record {
  supported_codecs = 3;
  negotiated_codecs = 1;
  topics = record { topic = codes "t"; partition = 0; next_offset = 5 } ∷ [];
}

abbrev blank : MetadataResponse
blank = record { supported_codecs = 1; negotiated_codecs = 1; topics = [] }

decode_metadata_response-encode_metadata_response_example :
    decode_metadata_response (encode_metadata_response one_topic 5) blank 5 ≡ ok one_topic
decode_metadata_response-encode_metadata_response_example =
    decode_metadata_response-encode_metadata_response one_topic blank 5
      (omega arith, omega arith, omega arith, ((omega arith, omega arith, omega arith), tt))
      (omega arith) (omega arith)

-- Without a version, the layout of version 4 with one topic whose name has one byte is taken for version 5.
misread :
    decode_metadata_response (encode_metadata_response one_topic 4) blank 0
    ≡ err malformed_payload "malformed metadata response payload"
unfolding write_u16 write_u32 write_u64 write_string write_list write_each read_u16 read_u32
    read_u64 read_string read_bytes read_list read_each read_u32_be write_metadata_topic
    read_metadata_topic encode_metadata_topics encode_metadata_response looks_like_codecs
    response_version read_capabilities decode_metadata_response
misread = refl
