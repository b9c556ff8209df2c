-- ===== src/Tests.antt =====
-- The theorems at concrete inputs, and runs of the definitions.
mod Seq
mod Wire
mod Time
mod Fixed
mod Ack
mod Budget
mod Packet
mod Bits
mod Slab
mod Channel
mod Connection
mod Arena
mod Timer
mod Stats
mod Connector
