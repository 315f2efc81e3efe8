-- ===== src/Protocol.antt =====
-- src/protocol/protocol.cpp and include/boltstream/protocol/protocol.h: the binary protocol.
pub mod Wire
pub mod Types
pub mod Decode
pub mod JoinSync
pub mod HeartbeatLeave
pub mod Session
pub mod TopicAdmin
pub mod TopicInfo
pub mod Retention
pub mod Produce
pub mod Commits
pub mod GroupAdmin
pub mod Frame
pub mod Fetch
pub mod Batch
pub mod Requests
pub mod Responses
pub mod Errors
pub mod Capabilities
pub mod FetchResponse
pub mod Metadata
