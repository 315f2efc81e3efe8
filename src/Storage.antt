-- ===== src/Storage.antt =====
-- src/storage/partition_log.cpp: the stored forms, one log, and all logs of a data directory.
pub mod Names
pub mod Records
pub mod Batches
pub mod Log
pub mod DataDir
