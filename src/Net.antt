-- ===== src/Net.antt =====
-- src/net: the connection to the iPad, its messages, discovery and the USB multiplexer.
pub mod Socket
pub mod Connection
pub mod Base64
pub mod Mdns
pub mod Protocol
pub mod UsbMux
