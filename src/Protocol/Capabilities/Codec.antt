-- ===== src/Protocol/Capabilities/Codec.antt =====
-- The metadata request: which sets of codecs are accepted, and the rules for its reader and its writer.
use Prim.Native.Nat.{bit_and}
use bolt_stream.Base.{ℕ, ◌≡◌, ◌≢◌, [], arith, append_assoc, append-nil}
use bolt_stream.Protocol.Wire.{IsU32}
use bolt_stream.Protocol.Wire.Reads.{Reads, step, read_u32-Reads}
use bolt_stream.Protocol.Wire.Parses.{Parses, Parses-bind, Parses-pure, read_u32-Parses}
use bolt_stream.Protocol.Types.{ok}
use bolt_stream.Protocol.Decode.{IsCodec, codec}
use bolt_stream.Protocol.Capabilities.{
  none_mask, encode_metadata_request, read_metadata_request, check_metadata_request,
  decode_metadata_request,
}

abbrev pub MetadataRequestValid : ℕ → Type 0
MetadataRequestValid n = IsU32 n × (bit_and n none_mask ≢ 0)

metadata_request_Reads : Reads IsU32 encode_metadata_request read_metadata_request
unfolding encode_metadata_request read_metadata_request
metadata_request_Reads = record { at = λ r rest h. simp append_assoc (step read_u32-Reads _ h) }

metadata_request_Parses : Parses IsU32 [] read_metadata_request encode_metadata_request
unfolding encode_metadata_request read_metadata_request
metadata_request_Parses = Parses-bind read_u32-Parses λ n h. Parses-pure _ (simp append-nil) h

accept_metadata_request : (n : ℕ) → bit_and n none_mask ≢ 0 → check_metadata_request n ≡ ok n
unfolding check_metadata_request
accept_metadata_request n h = ground arith

accepted_metadata_request :
    (a b : ℕ) → check_metadata_request b ≡ ok a → (b ≡ a) × (bit_and a none_mask ≢ 0)
unfolding check_metadata_request
accepted_metadata_request a b e = ground arith

pub metadata_request_codec :
    IsCodec MetadataRequestValid encode_metadata_request decode_metadata_request
unfolding decode_metadata_request
metadata_request_codec =
    codec _ _ metadata_request_Reads metadata_request_Parses accept_metadata_request
      accepted_metadata_request
