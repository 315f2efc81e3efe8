-- ===== src/Protocol/Metadata/Codec.antt =====
-- The metadata response against its decoder, for a version that is given (src/protocol/protocol.cpp).
use bolt_stream.Base.{
  ℕ, ◌≤◌, ◌≡◌, sym, ap, subst, Bool-cases, inl, inr, ==_iff, ◌∙◌, List, [], ◌==◌, if◌then◌else◌,
  arith, length, some, All, append_assoc, append-nil,
}
use bolt_stream.Protocol.Wire.{IsU16, IsU32, IsU64, IsSized, read_list}
use bolt_stream.Protocol.Wire.Reads.{
  Reads, step, read_u16-Reads, read_u32-Reads, read_u64-Reads, string_Reads, list_Reads,
}
use bolt_stream.Protocol.Types.{ok}
use bolt_stream.Protocol.Metadata.{
  MetadataTopic, MetadataResponse, write_metadata_topic, read_metadata_topic,
  encode_metadata_topics, encode_metadata_response, response_version, topics_end, read_capabilities,
  capabilities_end, decode_metadata_response,
}

abbrev pub MetadataTopicFits : MetadataTopic → Type 0
MetadataTopicFits t = IsSized t.topic × IsU16 t.partition × IsU64 t.next_offset

metadata_topic_Reads : Reads MetadataTopicFits write_metadata_topic read_metadata_topic
unfolding write_metadata_topic read_metadata_topic
metadata_topic_Reads = record {
  at = λ r rest h.
      simp append_assoc
        (step string_Reads _ h.0 ∙ step read_u16-Reads _ h.1 ∙ step read_u64-Reads _ h.2);
}

abbrev pub MetadataResponseFits : MetadataResponse → Type 0
MetadataResponseFits r =
    IsU32 r.supported_codecs
    × IsU32 r.negotiated_codecs
    × IsU32 (length r.topics)
    × All MetadataTopicFits r.topics

topics_read :
    (topics : List MetadataTopic)
    → IsU32 (length topics)
    → All MetadataTopicFits topics
    → read_list read_metadata_topic (encode_metadata_topics topics) ≡ some (topics, [])
unfolding encode_metadata_topics
topics_read topics n each =
    ap (read_list read_metadata_topic) (sym (append-nil _))
    ∙ (list_Reads metadata_topic_Reads).at topics [] (n, each)

capabilities_read :
    (r : MetadataResponse)
    → MetadataResponseFits r
    → capabilities_end (read_capabilities (encode_metadata_response r 5)) ≡ ok r
unfolding encode_metadata_response read_capabilities
capabilities_read r h =
    let topics = topics_read r.topics h.2 h.3 in
    let caps : read_capabilities (encode_metadata_response r 5)
        ≡ some ((r.supported_codecs, r.negotiated_codecs), encode_metadata_topics r.topics) =
      simp append-nil (step read_u32-Reads _ h.0 ∙ step read_u32-Reads _ h.1) in
    ap capabilities_end caps ∙ rw topics

abbrev Restored : MetadataResponse → MetadataResponse → ℕ → Type 0
Restored r before protocol_version =
    decode_metadata_response (encode_metadata_response r protocol_version) before protocol_version
    ≡ ok (if protocol_version == 4 then record before { topics = r.topics } else r)

version_4 : (r before : MetadataResponse) → MetadataResponseFits r → Restored r before 4
unfolding decode_metadata_response encode_metadata_response response_version
version_4 r before h =
    ap (topics_end before.supported_codecs before.negotiated_codecs) (topics_read r.topics h.2 h.3)

version_5 : (r before : MetadataResponse) → MetadataResponseFits r → Restored r before 5
unfolding decode_metadata_response response_version
version_5 r before h = capabilities_read r h

-- A metadata response that fits its fields, written and read with version 5, is decoded to itself; written
-- and read with version 4, it is decoded to its topics and the capabilities that the reader had before.
pub decode_metadata_response-encode_metadata_response :
    (r before : MetadataResponse) (protocol_version : ℕ)
    → MetadataResponseFits r
    → 4 ≤ protocol_version
    → protocol_version ≤ 5
    → decode_metadata_response (encode_metadata_response r protocol_version) before protocol_version
      ≡ ok (if protocol_version == 4 then record before { topics = r.topics } else r)
decode_metadata_response-encode_metadata_response r before protocol_version h low high =
    elim (Bool-cases (protocol_version == 4)) [
      | inl four ↦ subst (Restored r before) (sym ((==_iff _ _).0 four)) (version_4 r before h)
      | inr other ↦
          let five : 5 ≡ protocol_version = ground (arith, other) in
          subst (Restored r before) five (version_5 r before h)
    ]
