-- ===== src/Examples.antt =====
-- Tests of the definitions, and each theorem at a concrete input.
mod Frame
mod HttpSignaler
mod Schema
mod Tools
mod Rpc
mod Mqtt
mod Stream
mod Serializer
mod Node
mod Zmq
mod Webrtc
mod Zconf
mod Negotiation
