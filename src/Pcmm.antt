-- ===== src/Pcmm.antt =====
-- src/pcl/pcmm.c: the objects of PacketCable Multimedia, encoded and decoded.
pub mod Objects
pub mod Classifier
pub mod Envelope
pub mod Decode
pub mod Names
mod Tests
