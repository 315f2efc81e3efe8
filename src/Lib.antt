-- ===== src/Lib.antt =====
-- BoltStream, a broker for partitioned logs: its binary protocol, its group coordinator, its codecs and
-- its partition logs.
--
-- The program's parts. A client sends frames over TCP (src/client, tools); the broker
-- (src/broker/server.cpp) decodes each (src/protocol/protocol.cpp), dispatches it by its frame type, and
-- answers with a frame. Produce and fetch requests go to partition logs (src/storage/partition_log.cpp),
-- offset commits to the offset store (src/storage/offset_store.cpp), and the messages of consumer groups
-- to the group coordinator (src/broker/group_coordinator.cpp), which says who owns which partition.
-- Batches are compressed by src/compression/compression.cpp.
--
-- The files.
--   Base: names of the libraries, Boolean tests on the native numbers, lists, bytes, and decimal text
--     (std::setw, std::from_chars).
--   OrderedMap: std::map as the list of its entries in the order of its keys; Order has the order of
--     std::string, Numbers that of the numbers, Laws what lookups find after a write or a removal.
--   Protocol.Wire: write_u16, ..., PayloadReader of src/protocol/protocol.cpp. A writer is the list of
--     the bytes it appends; a reader takes the bytes that are left, and `none` is `false`. Wire.Reads and
--     Wire.Parses are the rules by which a message's codec follows from its fields.
--   Protocol.Types: the enumerations of include/boltstream/protocol/protocol.h and their functions.
--   Protocol.Decode: the shape of a decoder, fields, then `done()`, then checks.
--   Protocol.Session, TopicAdmin, TopicInfo, Retention, Produce, Fetch, Commits, JoinSync,
--     HeartbeatLeave, GroupAdmin, Errors, Capabilities: the messages, `encode_x` and `decode_x` as in the source, where
--     `read_x` and `check_x` are the two parts of the decoder; their Codec files have the rules.
--     Requests and Responses put the messages together, one kind for each frame type.
--   Protocol.Frame: crc32, encode_frame, decode_header and decode_frame.
--   Protocol.Batch: record sets and the produce-batch request. Protocol.FetchResponse and
--     Protocol.Metadata: responses that have two layouts each.
--   Group: the state of GroupCoordinator and its private functions; Group.Calls and Group.Queries are the
--     public calls, each a function from the state to the new state and what was returned or thrown;
--     Group.Runs lets any list of calls run. The other files under Group are about these.
--   Compression: the codecs; the zstd library is a parameter.
--   Storage: src/storage/partition_log.cpp. Names has the names of topics, segments and partitions;
--     Records and Batches have encode_record, decode_record, encode_batch and decode_batch, and their
--     Codec files the layouts. Log has the state of PartitionLog, and below it Log.Recover has recover,
--     open_active_segment and open, Log.Append append_batch and append, Log.Encoded
--     append_encoded_batch, Log.Read read_from and read_encoded_batch, Log.Retain segment_summaries and
--     apply_retention. Log.Layout says what the files hold when nothing is torn: by base offset, whole
--     records and batches in the order of the index; Log.Append.Durable relates it to the appends, and
--     Log.Read.Held to the records that a fetch gives.
--     DataDir has recover_all_logs over the listing of a data directory.
--   Tests: runs on concrete inputs.
--
-- Conventions. A number is a natural number; a width is written out (`% 2 ^ 16` for the partition counter,
-- `% 2 ^ 64` for a generation). A byte string is a list of numbers, and where it matters a hypothesis says
-- that each is below 256. An exception is a value of the result. Each call of the coordinator holds its
-- mutex throughout, so the calls are atomic steps and a run is a list of them. A point in time is its
-- number of nanoseconds.
-- A directory is the content of its .log and of its .index files by base offset, which their names spell.
-- Bytes that are written stand in the file at once; where an append throws, any part of what its open
-- streams were given stands in the files. The clock, the age of a file, and whether a directory is made, a
-- stream opens, writes and flushes, and a file is truncated, resized or removed are arguments of a call.
-- Listing a directory, reading a segment that recovery has opened, and writing the index that it rebuilds
-- are taken to succeed, and the files after an exception of recovery are not modelled.
-- Every loop of the source is structural recursion on a list or a count, but for two. The decimal digits
-- of a number take fuel, twenty steps, which is enough for every number below 2 ^ 64. The loop of
-- recover over a segment takes as fuel the number of its bytes and one more, which is enough, since each
-- round takes at least forty bytes; without fuel it gives `none`.
--
-- Not modelled: sockets, threads and timers of src/broker/server.cpp and src/client, which are input and
-- output; the offset store, replication, configuration and metrics parts; of the protocol the validate_
-- functions.
mod Base
pub mod Compression
pub mod OrderedMap
pub mod Protocol
pub mod Group
pub mod Storage
pub mod Tests
