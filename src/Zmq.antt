-- ===== src/Zmq.antt =====
-- src/transport/zmq: calls over ZeroMQ.
pub mod Requester
pub mod Responder
pub mod Exchange
pub mod Streams
