-- ===== src/Protocol/Metadata.antt =====
-- The metadata response in the layouts of versions 4 and 5 (src/protocol/protocol.cpp). The decoder writes
-- to a response of its caller, whose capabilities version 4 leaves as they were: an argument here.
pub mod Codec
use Prim.Native.Nat.{bit_and}
use bolt_stream.Base.{
  ℕ, ◌-◌, ◌^◌, Bool, ◌&&◌, not, Option, none, some, List, [], ◌∷◌, leb, ◌==◌, if◌then◌else◌, length,
  Bytes,
}
use bolt_stream.Protocol.Capabilities.{none_mask}
use bolt_stream.Protocol.Wire.{
  Reader, ◌>>=◌, pure, written, write_u16, write_u32, write_u64, write_string, write_list, read_u16,
  read_u32, read_u64, read_string, read_list, read_u32_be,
}
use bolt_stream.Protocol.Types.{Decoded, ok, err, malformed_payload}

pub record MetadataTopic : Type 0 where
  pub topic : Bytes
  pub partition : ℕ
  pub next_offset : ℕ

pub record MetadataResponse : Type 0 where
  pub supported_codecs : ℕ
  pub negotiated_codecs : ℕ
  pub topics : List MetadataTopic

unfoldable pub write_metadata_topic : MetadataTopic → Bytes
write_metadata_topic t =
    written (write_string t.topic ∷ write_u16 t.partition ∷ write_u64 t.next_offset ∷ [])

unfoldable pub read_metadata_topic : Reader MetadataTopic
read_metadata_topic = do
  topic ← read_string
  partition ← read_u16
  next_offset ← read_u64
  pure (record { topic = topic; partition = partition; next_offset = next_offset })

-- The overload that takes the topics.
unfoldable pub encode_metadata_topics : List MetadataTopic → Bytes
encode_metadata_topics = write_list write_metadata_topic

unfoldable pub encode_metadata_response : MetadataResponse → ℕ → Bytes
encode_metadata_response r protocol_version =
    if protocol_version == 4
    then encode_metadata_topics r.topics
    else written (
        write_u32 r.supported_codecs
        ∷ write_u32 r.negotiated_codecs
        ∷ encode_metadata_topics r.topics
        ∷ [])

-- `kSupportedCodecMask`
abbrev pub supported_codec_mask : ℕ
supported_codec_mask = 3

-- `(codecs & kNoneMask) != 0 && (codecs & ~kSupportedCodecMask) == 0`
unfoldable pub looks_like_codecs : ℕ → Bool
looks_like_codecs codecs =
    not (bit_and codecs none_mask == 0) && bit_and codecs (2 ^ 32 - 1 - supported_codec_mask) == 0

-- The version that the decoder works with: 0 asks it to guess.
unfoldable pub response_version : Bytes → ℕ → ℕ
response_version payload protocol_version =
    if protocol_version == 0
    then (if leb 8 (length payload)
          && (looks_like_codecs (read_u32_be payload 0)
              && looks_like_codecs (read_u32_be payload 4))
        then 5
        else 4)
    else protocol_version

abbrev pub topics_end : ℕ → ℕ → Option (List MetadataTopic × Bytes) → Decoded MetadataResponse
topics_end supported negotiated (some (topics, [])) =
    ok (record { supported_codecs = supported; negotiated_codecs = negotiated; topics = topics })
topics_end supported negotiated _ = err malformed_payload "malformed metadata response payload"

unfoldable pub read_capabilities : Reader (ℕ × ℕ)
read_capabilities = do supported ← read_u32; negotiated ← read_u32; pure (supported, negotiated)

abbrev pub capabilities_end : Option ((ℕ × ℕ) × Bytes) → Decoded MetadataResponse
capabilities_end none = err malformed_payload "malformed metadata capabilities"
capabilities_end (some ((supported, negotiated), rest)) =
    topics_end supported negotiated (read_list read_metadata_topic rest)

unfoldable pub decode_metadata_response : Bytes → MetadataResponse → ℕ → Decoded MetadataResponse
decode_metadata_response payload response protocol_version =
    if leb 5 (response_version payload protocol_version)
    then capabilities_end (read_capabilities payload)
    else topics_end response.supported_codecs response.negotiated_codecs
        (read_list read_metadata_topic payload)
