-- ===== src/Receiver.antt =====
-- src/srtla/srtla_rec.c, the receiver that the plugin runs in a thread for each source. The state
-- and the operations are in the children named for them; each has its proofs below it.
mod Tests
pub mod System
pub mod Invariant
pub mod State
pub mod Compare
pub mod Groups
pub mod Io
pub mod Backoff
pub mod Register
pub mod Ack
pub mod Out
pub mod Forward
pub mod Backward
pub mod Cleanup
pub mod Resolve
pub mod MainLoop
pub mod Instances
pub mod Details
