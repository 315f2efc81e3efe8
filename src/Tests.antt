-- ===== src/Tests.antt =====
-- Runs of the definitions on concrete inputs.
mod Groups
mod Frames
mod Messages
mod Codecs
mod Fetches
mod Metadata
mod Storage
mod Logs
