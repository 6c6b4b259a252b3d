-- ===== src/Protocol.antt =====
-- The protocol between client and server: client/source/protocol/client_message_codec.cpp,
-- server/source/protocol/server_message_codec.cpp and server/source/runtime/business_runtime.cpp.
pub mod Names
pub mod Transfer
pub mod ClientCodec
pub mod ServerCodec
pub mod Envelope
pub mod Bodies
pub mod Business
pub mod Reactor
