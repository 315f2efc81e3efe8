-- ===== src/Protocol/TopicInfo/Codec.antt =====
-- The topic descriptions and the responses that carry them: which values fit their
-- fields and pass the checks, and the rules for each reader with its writer.
use bolt_stream.Base.{◌∙◌, [], length, All, append_assoc, append-nil}
use bolt_stream.Protocol.Wire.{IsU16, IsU32, IsU64, IsSized}
use bolt_stream.Protocol.Wire.Reads.{
  Reads, step, read_u16-Reads, read_u32-Reads, read_u64-Reads, string_Reads, list_Reads,
}
use bolt_stream.Protocol.Wire.Parses.{
  Parses, Parses-bind, Parses-pure, read_u16-Parses, read_u32-Parses, read_u64-Parses,
  string_Parses, list_Parses,
}
use bolt_stream.Protocol.Decode.{IsCodec, codec_unchecked}
use bolt_stream.Protocol.TopicInfo.{
  TopicPartitionDescription, write_topic_partition_description, read_topic_partition_description,
  TopicDescription, write_topic_description, read_topic_description, ListTopicsResponse,
  encode_list_topics_response, read_list_topics_response, decode_list_topics_response,
  DescribeTopicResponse, encode_describe_topic_response, read_describe_topic_response,
  decode_describe_topic_response,
}

abbrev pub TopicPartitionDescriptionFits : TopicPartitionDescription → Type 0
TopicPartitionDescriptionFits r =
    IsU16 r.partition
    × IsU64 r.earliest_offset
    × IsU64 r.next_offset
    × IsU32 r.segment_count
    × IsU64 r.log_bytes

pub topic_partition_description_Reads :
    Reads TopicPartitionDescriptionFits write_topic_partition_description
      read_topic_partition_description
unfolding write_topic_partition_description read_topic_partition_description
topic_partition_description_Reads = record {
  at = λ r rest h. simp append_assoc (
      step read_u16-Reads _ h.0
      ∙ step read_u64-Reads _ h.1
      ∙ step read_u64-Reads _ h.2
      ∙ step read_u32-Reads _ h.3
      ∙ step read_u64-Reads _ h.4);
}

pub topic_partition_description_Parses :
    Parses TopicPartitionDescriptionFits [] read_topic_partition_description
      write_topic_partition_description
unfolding write_topic_partition_description read_topic_partition_description
topic_partition_description_Parses = Parses-bind read_u16-Parses λ partition h0.
    Parses-bind read_u64-Parses λ earliest_offset h1. Parses-bind read_u64-Parses λ next_offset h2.
      Parses-bind read_u32-Parses λ segment_count h3.
        Parses-bind read_u64-Parses
          λ log_bytes h4. Parses-pure _ (simp (append_assoc, append-nil)) (h0, h1, h2, h3, h4)

abbrev pub TopicDescriptionFits : TopicDescription → Type 0
TopicDescriptionFits r =
    IsSized r.topic
    × IsU16 r.partition_count
    × IsU64 r.log_bytes
    × (IsU32 (length r.partitions) × All TopicPartitionDescriptionFits r.partitions)

pub topic_description_Reads :
    Reads TopicDescriptionFits write_topic_description read_topic_description
unfolding write_topic_description read_topic_description
topic_description_Reads = record {
  at = λ r rest h. simp append_assoc (
      step string_Reads _ h.0
      ∙ step read_u16-Reads _ h.1
      ∙ step read_u64-Reads _ h.2
      ∙ step (list_Reads topic_partition_description_Reads) _ h.3);
}

pub topic_description_Parses :
    Parses TopicDescriptionFits [] read_topic_description write_topic_description
unfolding write_topic_description read_topic_description
topic_description_Parses = Parses-bind string_Parses λ topic h0.
    Parses-bind read_u16-Parses λ partition_count h1. Parses-bind read_u64-Parses λ log_bytes h2.
      Parses-bind (list_Parses topic_partition_description_Parses)
        λ partitions h3. Parses-pure _ (simp (append_assoc, append-nil)) (h0, h1, h2, h3)

abbrev pub ListTopicsResponseFits : ListTopicsResponse → Type 0
ListTopicsResponseFits r = (IsU32 (length r.topics) × All TopicDescriptionFits r.topics)

pub list_topics_response_Reads :
    Reads ListTopicsResponseFits encode_list_topics_response read_list_topics_response
unfolding encode_list_topics_response read_list_topics_response
list_topics_response_Reads = record {
  at = λ r rest h. simp append_assoc (step (list_Reads topic_description_Reads) _ h);
}

pub list_topics_response_Parses :
    Parses ListTopicsResponseFits [] read_list_topics_response encode_list_topics_response
unfolding encode_list_topics_response read_list_topics_response
list_topics_response_Parses =
    Parses-bind (list_Parses topic_description_Parses)
      λ topics h0. Parses-pure _ (simp append-nil) h0

abbrev pub ListTopicsResponseValid : ListTopicsResponse → Type 0
ListTopicsResponseValid r = ListTopicsResponseFits r

pub list_topics_response_codec :
    IsCodec ListTopicsResponseValid encode_list_topics_response decode_list_topics_response
unfolding decode_list_topics_response
list_topics_response_codec =
    codec_unchecked _ _ list_topics_response_Reads list_topics_response_Parses

abbrev pub DescribeTopicResponseFits : DescribeTopicResponse → Type 0
DescribeTopicResponseFits r = TopicDescriptionFits r.topic

pub describe_topic_response_Reads :
    Reads DescribeTopicResponseFits encode_describe_topic_response read_describe_topic_response
unfolding encode_describe_topic_response read_describe_topic_response
describe_topic_response_Reads = record {
  at = λ r rest h. simp append_assoc (step topic_description_Reads _ h);
}

pub describe_topic_response_Parses :
    Parses DescribeTopicResponseFits [] read_describe_topic_response encode_describe_topic_response
unfolding encode_describe_topic_response read_describe_topic_response
describe_topic_response_Parses =
    Parses-bind topic_description_Parses λ topic h0. Parses-pure _ (simp append-nil) h0

abbrev pub DescribeTopicResponseValid : DescribeTopicResponse → Type 0
DescribeTopicResponseValid r = DescribeTopicResponseFits r

pub describe_topic_response_codec :
    IsCodec DescribeTopicResponseValid encode_describe_topic_response decode_describe_topic_response
unfolding decode_describe_topic_response
describe_topic_response_codec =
    codec_unchecked _ _ describe_topic_response_Reads describe_topic_response_Parses
