-- ===== src/Mqtt.antt =====
-- src/transport/mqtt: topics, the shared connection, and calls over it.
pub mod Topic
pub mod Connection
pub mod Requester
pub mod Responder
pub mod Exchange
pub mod Streams
