-- ===== src/Net/Protocol.antt =====
-- src/net/Protocol.h and Protocol.cpp: the control messages of the wire protocol.
pub mod Scan
pub mod Arrays
pub mod Message
pub mod FpsLimit
pub mod Fields
pub mod Numbers
mod Runs
