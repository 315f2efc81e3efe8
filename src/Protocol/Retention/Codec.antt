-- ===== src/Protocol/Retention/Codec.antt =====
-- The retention messages: which values fit their
-- fields and pass the checks, and the rules for each reader with its writer.
use bolt_stream.Base.{◌∙◌, [], length, All, append_assoc, append-nil}
use bolt_stream.Protocol.Wire.{IsU16, IsU32, IsU64, IsSized}
use bolt_stream.Protocol.Wire.Reads.{
  Reads, step, read_u16-Reads, read_u32-Reads, read_u64-Reads, string_Reads, list_Reads,
}
use bolt_stream.Protocol.Wire.Parses.{
  Parses, Parses-bind, Parses-pure, read_u16-Parses, read_u32-Parses, read_u64-Parses,
  string_Parses, list_Parses,
}
use bolt_stream.Protocol.Decode.{IsCodec, codec_unchecked}
use bolt_stream.Protocol.Retention.{
  RunRetentionRequest, encode_run_retention_request, read_run_retention_request,
  decode_run_retention_request, RetentionPartitionResult, write_retention_partition_result,
  read_retention_partition_result, RunRetentionResponse, encode_run_retention_response,
  read_run_retention_response, decode_run_retention_response,
}

abbrev pub RunRetentionRequestFits : RunRetentionRequest → Type 0
RunRetentionRequestFits r = IsSized r.topic

pub run_retention_request_Reads :
    Reads RunRetentionRequestFits encode_run_retention_request read_run_retention_request
unfolding encode_run_retention_request read_run_retention_request
run_retention_request_Reads = record { at = λ r rest h. simp append_assoc (step string_Reads _ h) }

pub run_retention_request_Parses :
    Parses RunRetentionRequestFits [] read_run_retention_request encode_run_retention_request
unfolding encode_run_retention_request read_run_retention_request
run_retention_request_Parses =
    Parses-bind string_Parses λ topic h0. Parses-pure _ (simp append-nil) h0

abbrev pub RunRetentionRequestValid : RunRetentionRequest → Type 0
RunRetentionRequestValid r = RunRetentionRequestFits r

pub run_retention_request_codec :
    IsCodec RunRetentionRequestValid encode_run_retention_request decode_run_retention_request
unfolding decode_run_retention_request
run_retention_request_codec =
    codec_unchecked _ _ run_retention_request_Reads run_retention_request_Parses

abbrev pub RetentionPartitionResultFits : RetentionPartitionResult → Type 0
RetentionPartitionResultFits r =
    IsSized r.topic
    × IsU16 r.partition
    × IsU32 r.segments_deleted
    × IsU64 r.bytes_deleted
    × IsU64 r.earliest_offset
    × IsU64 r.next_offset

pub retention_partition_result_Reads :
    Reads RetentionPartitionResultFits write_retention_partition_result
      read_retention_partition_result
unfolding write_retention_partition_result read_retention_partition_result
retention_partition_result_Reads = record {
  at = λ r rest h. simp append_assoc (
      step string_Reads _ h.0
      ∙ step read_u16-Reads _ h.1
      ∙ step read_u32-Reads _ h.2
      ∙ step read_u64-Reads _ h.3
      ∙ step read_u64-Reads _ h.4
      ∙ step read_u64-Reads _ h.5);
}

pub retention_partition_result_Parses :
    Parses RetentionPartitionResultFits [] read_retention_partition_result
      write_retention_partition_result
unfolding write_retention_partition_result read_retention_partition_result
retention_partition_result_Parses = Parses-bind string_Parses λ topic h0.
    Parses-bind read_u16-Parses λ partition h1. Parses-bind read_u32-Parses λ segments_deleted h2.
      Parses-bind read_u64-Parses λ bytes_deleted h3.
        Parses-bind read_u64-Parses λ earliest_offset h4.
          Parses-bind read_u64-Parses λ next_offset h5.
            Parses-pure _ (simp (append_assoc, append-nil)) (h0, h1, h2, h3, h4, h5)

abbrev pub RunRetentionResponseFits : RunRetentionResponse → Type 0
RunRetentionResponseFits r =
    IsSized r.topic
    × IsU32 r.topics_scanned
    × IsU32 r.partitions_scanned
    × IsU32 r.segments_deleted
    × IsU64 r.bytes_deleted
    × (IsU32 (length r.partitions) × All RetentionPartitionResultFits r.partitions)

pub run_retention_response_Reads :
    Reads RunRetentionResponseFits encode_run_retention_response read_run_retention_response
unfolding encode_run_retention_response read_run_retention_response
run_retention_response_Reads = record {
  at = λ r rest h. simp append_assoc (
      step string_Reads _ h.0
      ∙ step read_u32-Reads _ h.1
      ∙ step read_u32-Reads _ h.2
      ∙ step read_u32-Reads _ h.3
      ∙ step read_u64-Reads _ h.4
      ∙ step (list_Reads retention_partition_result_Reads) _ h.5);
}

pub run_retention_response_Parses :
    Parses RunRetentionResponseFits [] read_run_retention_response encode_run_retention_response
unfolding encode_run_retention_response read_run_retention_response
run_retention_response_Parses = Parses-bind string_Parses λ topic h0.
    Parses-bind read_u32-Parses λ topics_scanned h1.
      Parses-bind read_u32-Parses λ partitions_scanned h2.
        Parses-bind read_u32-Parses λ segments_deleted h3.
          Parses-bind read_u64-Parses λ bytes_deleted h4.
            Parses-bind (list_Parses retention_partition_result_Parses) λ partitions h5.
              Parses-pure _ (simp (append_assoc, append-nil)) (h0, h1, h2, h3, h4, h5)

abbrev pub RunRetentionResponseValid : RunRetentionResponse → Type 0
RunRetentionResponseValid r = RunRetentionResponseFits r

pub run_retention_response_codec :
    IsCodec RunRetentionResponseValid encode_run_retention_response decode_run_retention_response
unfolding decode_run_retention_response
run_retention_response_codec =
    codec_unchecked _ _ run_retention_response_Reads run_retention_response_Parses
