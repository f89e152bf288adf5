-- ===== src/Webrtc.antt =====
-- The WebRTC transport: its RPC requester and responder, what a connection does with a message of its
-- data channel, and the group of peers that a connection in mesh or host mode keeps.
pub mod Requester
pub mod Responder
pub mod Routing
pub mod Negotiation
pub mod Group
pub mod Callbacks
pub mod Streams
pub mod HttpSignaler
