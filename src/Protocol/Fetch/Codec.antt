-- ===== src/Protocol/Fetch/Codec.antt =====
-- The fetch request, and one record of a fetch response: which values fit their
-- fields and pass the checks, and the rules for each reader with its writer.
use bolt_stream.Base.{◌≡◌, ◌≢◌, ◌∙◌, [], arith, append_assoc, append-nil}
use bolt_stream.Protocol.Wire.{IsU16, IsU32, IsU64, IsSized}
use bolt_stream.Protocol.Wire.Reads.{
  Reads, step, read_u16-Reads, read_u32-Reads, read_u64-Reads, bytes_Reads, string_Reads,
}
use bolt_stream.Protocol.Wire.Parses.{
  Parses, Parses-bind, Parses-pure, read_u16-Parses, read_u32-Parses, read_u64-Parses, bytes_Parses,
  string_Parses,
}
use bolt_stream.Protocol.Types.{ok}
use bolt_stream.Protocol.Decode.{IsCodec, codec}
use bolt_stream.Protocol.Fetch.{
  FetchRequest, encode_fetch_request, read_fetch_request, check_fetch_request, decode_fetch_request,
  FetchRecord, write_fetch_record, read_fetch_record,
}

abbrev pub FetchRequestFits : FetchRequest → Type 0
FetchRequestFits r =
    IsSized r.topic × IsU16 r.partition × IsSized r.from × IsSized r.group × IsU32 r.max_wait_ms

pub fetch_request_Reads : Reads FetchRequestFits encode_fetch_request read_fetch_request
unfolding encode_fetch_request read_fetch_request
fetch_request_Reads = record {
  at = λ r rest h. simp append_assoc (
      step string_Reads _ h.0
      ∙ step read_u16-Reads _ h.1
      ∙ step string_Reads _ h.2
      ∙ step string_Reads _ h.3
      ∙ step read_u32-Reads _ h.4);
}

pub fetch_request_Parses : Parses FetchRequestFits [] read_fetch_request encode_fetch_request
unfolding encode_fetch_request read_fetch_request
fetch_request_Parses = Parses-bind string_Parses λ topic h0.
    Parses-bind read_u16-Parses λ partition h1. Parses-bind string_Parses λ from h2.
      Parses-bind string_Parses λ group h3.
        Parses-bind read_u32-Parses
          λ max_wait_ms h4. Parses-pure _ (simp (append_assoc, append-nil)) (h0, h1, h2, h3, h4)

abbrev pub FetchRequestAccepts : FetchRequest → Type 0
FetchRequestAccepts r = (r.topic ≢ []) × (r.from ≢ [])

accept_fetch_request : (r : FetchRequest) → FetchRequestAccepts r → check_fetch_request r ≡ ok r
unfolding check_fetch_request
accept_fetch_request r h = ground arith

accepted_fetch_request :
    (a b : FetchRequest) → check_fetch_request b ≡ ok a → (b ≡ a) × FetchRequestAccepts a
unfolding check_fetch_request
accepted_fetch_request a b e = ground arith

abbrev pub FetchRequestValid : FetchRequest → Type 0
FetchRequestValid r = (FetchRequestFits r) × (FetchRequestAccepts r)

pub fetch_request_codec : IsCodec FetchRequestValid encode_fetch_request decode_fetch_request
unfolding decode_fetch_request
fetch_request_codec =
    codec _ _ fetch_request_Reads fetch_request_Parses accept_fetch_request accepted_fetch_request

abbrev pub FetchRecordFits : FetchRecord → Type 0
FetchRecordFits r =
    IsU64 r.offset
    × IsU64 r.timestamp_unix_ns
    × IsSized r.key
    × IsSized r.message
    × IsU32 r.encoded_byte_size

pub fetch_record_Reads : Reads FetchRecordFits write_fetch_record read_fetch_record
unfolding write_fetch_record read_fetch_record
fetch_record_Reads = record {
  at = λ r rest h. simp append_assoc (
      step read_u64-Reads _ h.0
      ∙ step read_u64-Reads _ h.1
      ∙ step bytes_Reads _ h.2
      ∙ step bytes_Reads _ h.3
      ∙ step read_u32-Reads _ h.4);
}

pub fetch_record_Parses : Parses FetchRecordFits [] read_fetch_record write_fetch_record
unfolding write_fetch_record read_fetch_record
fetch_record_Parses = Parses-bind read_u64-Parses λ offset h0.
    Parses-bind read_u64-Parses λ timestamp_unix_ns h1. Parses-bind bytes_Parses λ key h2.
      Parses-bind bytes_Parses λ message h3.
        Parses-bind read_u32-Parses λ encoded_byte_size h4.
          Parses-pure _ (simp (append_assoc, append-nil)) (h0, h1, h2, h3, h4)
