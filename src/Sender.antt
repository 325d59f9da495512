-- ===== src/Sender.antt =====
-- src/srtla/srtla_send.c, the sender: it takes the packets of one SRT caller and spreads them over
-- several links to the receiver. The state and the operations are in the children named for them.
pub mod Handshake
pub mod Sound
pub mod Histories
pub mod State
pub mod Log
pub mod Select
pub mod Acks
pub mod Naks
pub mod Packets
pub mod Sockets
pub mod Conns
pub mod Housekeeping
pub mod MainLoop
mod Tests
