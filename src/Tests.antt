-- ===== src/Tests.antt =====
-- The theorems at concrete inputs, and runs of the definitions.
mod Library
mod PacketIds
mod Texts
mod Codecs
mod Locks
mod Hosts
mod Sending
mod Decoding
mod Operations
mod Connecting
mod Background
