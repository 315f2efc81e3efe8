-- ===== src/Tests/Storage.antt =====
-- Stored records and batches, and the scan of a segment, on concrete inputs.
use bolt_stream.Base.{
  String, false, ◌⊎◌, codes, none, ◌+◌, ◌<◌, ◌≡◌, refl, true, some, [], ◌∷◌, ◌++◌, length,
  length-append, take, arith, Bytes,
}
use bolt_stream.Compression.{throws, returns, decompress, is_supported}
use bolt_stream.Protocol.Wire.{read_u32, read_bytes, read_each}
use bolt_stream.Protocol.Batch.{decode_record_set, read_batch_record}
use bolt_stream.Storage.Names.{
  segment_name, parse_base_offset, partition_name, parse_partition_id,
  parse_base_offset-segment_name, parse_partition_id-partition_name,
}
use bolt_stream.Storage.Records.{decode_record}
use bolt_stream.Storage.Records.Codec.{
  RecordFits, record_image, decoded_record, decode_record-record_image, length-record_image,
}
use bolt_stream.Storage.Batches.{decode_batch}
use bolt_stream.Storage.Batches.Codec.{
  BatchFits, decoded_batch, batch_image, decode_batch-batch_image,
}
use bolt_stream.Storage.Log.{LogOptions, Directory, PartitionLog}
use bolt_stream.Storage.Log.Recover.{Disk, no_fault, Found, scan, recover}
use bolt_stream.Storage.Log.Recover.Scan.{
  Chunk, chunk_bytes, chunks_bytes, IsChunk, note_chunks, scan-chunks, length-chunk_bytes,
}
use bolt_stream.Storage.Log.Recover.Total.{
  Fails, no_directory, unread_log, unbuilt_index, not_truncated, no_active_log, no_active_index,
  recover-total,
}
use bolt_stream.Storage.Log.Append.Chunks.{record_chunk, record_chunk-IsChunk}
use bolt_stream.Storage.DataDir.{StorageRecoverySummary, TopicEntries, recover_all_logs}
use bolt_stream.Storage.DataDir.Total.{FailsSomewhere, recover_all_logs-total}
use bolt_stream.Tests.Codecs.{copy}

abbrev pub options : LogOptions
options = record {
  topic = b't' ∷ [];
  partition_id = 3;
  max_segment_bytes = 100;
  segment_max_age_seconds = 0;
  max_uncompressed_batch_bytes = 1000;
}

parse_base_offset-segment_name_example : parse_base_offset (segment_name 1234567) ≡ some 1234567
parse_base_offset-segment_name_example = parse_base_offset-segment_name 1234567 (omega arith)

parse_partition_id-partition_name_example : parse_partition_id (partition_name 12) ≡ some 12
parse_partition_id-partition_name_example = parse_partition_id-partition_name 12 (omega arith)

key_fits : RecordFits 7 9 (1 ∷ 2 ∷ []) (3 ∷ [])
key_fits = record { offset_fits = omega arith; timestamp_fits = omega arith; size = omega arith }

decode_record-record_image_example :
    decode_record (b't' ∷ []) 3 39 (record_image 7 9 (1 ∷ 2 ∷ []) (3 ∷ []))
    ≡ returns (decoded_record (b't' ∷ []) 3 7 9 (1 ∷ 2 ∷ []) (3 ∷ []))
decode_record-record_image_example =
    decode_record-record_image 7 9 (1 ∷ 2 ∷ []) (3 ∷ []) (b't' ∷ []) 3 key_fits

-- One record with no key and the value `5`.
abbrev one_record : Bytes
one_record = 0 ∷ 0 ∷ 0 ∷ 1 ∷ 0 ∷ 0 ∷ 0 ∷ 0 ∷ 0 ∷ 0 ∷ 0 ∷ 1 ∷ 5 ∷ []

batch_fits :
    BatchFits copy 7 9 1 1 13 one_record 1000 one_record
      (record { key = []; message = 5 ∷ [] } ∷ [])
unfolding decompress is_supported decode_record_set read_u32 read_each read_batch_record read_bytes
batch_fits = record {
  base_fits = omega arith;
  timestamp_fits = omega arith;
  count_fits = omega arith;
  some_records = omega arith;
  size_fits = omega arith;
  some_bytes = omega arith;
  encoded_fits = omega arith;
  codec_fits = omega arith;
  supported = refl;
  unpacked = refl;
  decoded = refl;
}

decode_batch-batch_image_example :
    decode_batch copy (b't' ∷ []) 3 53 (batch_image 7 9 1 1 13 one_record) 1000
    ≡ returns (
        decoded_batch 7 9 1 1 13 one_record
          (b't' ∷ [])
          3
          (record { key = []; message = 5 ∷ [] } ∷ []))
decode_batch-batch_image_example =
    decode_batch-batch_image 7 9 1 1 13 one_record copy 1000 one_record
      (record { key = []; message = 5 ∷ [] } ∷ []) batch_fits (b't' ∷ []) 3

-- A record, and five bytes of it again.
abbrev whole : Chunk
whole = record_chunk options 7 9 (1 ∷ 2 ∷ []) (3 ∷ [])

abbrev nothing_found : Found
nothing_found = record { index = []; index_file = []; next_offset = 0; records_recovered = 0 }

whole-IsChunk : IsChunk copy options whole
whole-IsChunk = record_chunk-IsChunk copy options 7 9 (1 ∷ 2 ∷ []) (3 ∷ []) key_fits

whole-size : length (chunks_bytes (whole ∷ [])) < 100
unfolding chunks_bytes
whole-size = omega (
  arith,
  length-append (chunk_bytes whole) [],
  length-chunk_bytes whole,
  length-record_image 7 9 (1 ∷ 2 ∷ []) (3 ∷ []),
)

torn-size : 5 < length (chunk_bytes whole)
torn-size = omega (arith, length-chunk_bytes whole, length-record_image 7 9 (1 ∷ 2 ∷ []) (3 ∷ []))

scan-chunks_example :
    scan copy options 0 100 0
      (chunks_bytes (whole ∷ []) ++ take 5 (chunk_bytes whole))
      nothing_found
    ≡ some (record {
      found = note_chunks 0 0 (whole ∷ []) nothing_found;
      position = 0 + length (chunks_bytes (whole ∷ []));
      truncate = true;
    })
scan-chunks_example =
    scan-chunks copy options 0 100 0 5 (whole ∷ []) whole nothing_found (whole-IsChunk, tt)
      (whole-IsChunk.short) torn-size whole-size

-- A broken segment, and one behind it; the first cannot be truncated.
abbrev broken : Directory
broken = record { logs = (0, 1 ∷ 2 ∷ []) ∷ (5, []) ∷ []; indexes = [] }

abbrev no_truncation : Disk
no_truncation = record no_fault { truncates = λ base. false }

recover-total_example :
    (Fails no_truncation
      × ((message : String) × (recover copy no_truncation options broken ≡ throws message)))
    ⊎ ((log : PartitionLog) × (recover copy no_truncation options broken ≡ returns (some log)))
recover-total_example = recover-total copy no_truncation options broken

-- A data directory with a topic that has a partition with a broken segment, and other entries.
abbrev entries : TopicEntries
entries =
    (
      codes "orders",
      some (
          (codes "partition-000003", some (record { logs = (0, 1 ∷ 2 ∷ []) ∷ []; indexes = [] }))
          ∷ (codes "notes", some (record { logs = []; indexes = [] }))
          ∷ []),
    )
    ∷ (codes "readme", none)
    ∷ []

recover_all_logs-total_example :
    (FailsSomewhere (λ topic partition_id. no_fault)
      × ((message : String) × (recover_all_logs copy (λ topic partition_id. no_fault) 100 entries
            ≡ throws message)))
    ⊎ ((recovered : TopicEntries × StorageRecoverySummary) × (recover_all_logs copy
            (λ topic partition_id. no_fault)
            100
            entries
          ≡ returns (some recovered)))
recover_all_logs-total_example =
    recover_all_logs-total copy (λ topic partition_id. no_fault) 100 (omega arith) entries

-- Without a fault there is a summary.
no_fault-Fails : ¬ Fails no_fault
no_fault-Fails (no_directory e) = cc e
no_fault-Fails (unread_log base e) = cc e
no_fault-Fails (unbuilt_index base e) = cc e
no_fault-Fails (not_truncated base e) = cc e
no_fault-Fails (no_active_log e) = cc e
no_fault-Fails (no_active_index e) = cc e
