-- ===== src/Lib.antt =====
-- MAGPIE C++: messaging for robots. Frames of data are encoded to dicts and travel over streams;
-- remote calls travel as envelopes that a schema (JSON-RPC, or MCP on top of it) builds and
-- dispatches; both go over ZeroMQ, MQTT or WebRTC.
--
-- Prelude: native numbers and texts, texts as lists of bytes and their order, lists, maps with text
--   keys (std::unordered_map) or byte keys, 64-bit and 32-bit signed integers, and C++ exceptions as
--   values. `Eff W A` is a call that may throw and that acts on a world W outside the model.
-- Value: the class Value of include/magpie/serializer/value.hpp, and its debug text
--   (src/serializer/value.cpp). A double is its bit pattern; what the standard library does with
--   doubles (casts and printing) is a parameter.
-- Frame: the frame classes of src/frames. Frame/Body has toDict and loadFromDict of each class,
--   Frame/Registry the table of factories, fromDict and the static Registrar objects. The
--   constructors' timestamp and id are the argument `fresh`. The FLAC and JPEG codecs and toString
--   are not modelled.
-- Schema/JsonRpc: src/schema/json_rpc_schema.cpp. dispatch is cut into the stages of
--   dispatch_single; a batch is a loop over its requests. The handlers' type is a parameter, with
--   the function that runs one. Schema/Mcp: src/schema/mcp_schema.cpp on top of it. A handler of
--   its own is a constructor, so that a tool can be told from it; `invoke` is on fuel, as
--   tools/call runs a handler, and mcp_dispatch gives it 2. The JSON files that
--   from_json_file loads are not modelled: their parser is third-party code.
-- Rpc: src/transport/rpc_requester.cpp and rpc_responder.cpp. The virtual functions of the
--   transport are a record of effects, the schema another, so that Rpc/EndToEnd can put the
--   JSON-RPC schema and a transport together.
-- Mqtt: Mqtt/Topic and Mqtt/Connection are src/transport/mqtt/mqtt_connection.cpp: URIs, the
--   matching of topics, and the registry of subscriptions. What is asked of the Paho client is a
--   list of calls; Mqtt/Connection/Broker says what they do at a broker, and
--   Mqtt/Connection/Session runs a connection whose calls arrive late or fail.
--   Mqtt/Requester is mqtt_rpc_requester.cpp: transportCall is cut at its two waits, and an event
--   is a message, a close, another call or a wake-up, of which a Boolean says whether the deadline
--   has passed. Mqtt/Responder is mqtt_rpc_responder.cpp. Mqtt/Streams has the transport operations
--   of mqtt_stream_writer.cpp and mqtt_stream_reader.cpp; the serializer is a parameter.
-- Stream: src/transport/stream_reader.cpp and stream_writer.cpp. Each turn of a thread is a step
--   on the queue; `writer_loop` is on fuel, the number of turns.
-- Serializer: src/serializer/msgpack_serializer.cpp. msgpack-c is a parameter, `Msgpack`: packValue is
--   the list of the calls it makes of the packer, and Serializer/RoundTrip says as a relation which
--   object those calls describe, by the MessagePack format.
-- Node: include/magpie/nodes/base_node.hpp. The calls of a node's methods and the steps of its worker
--   are events; Node/Lifecycle runs lists of them. Node/Server is server_node.hpp: the turns of the
--   node's thread and of the pool's threads, each of which holds a lock in the source.
-- Zmq: Zmq/Requester is src/transport/zmq/zmq_rpc_requester.cpp. A requester has the table of calls of
--   Mqtt/Requester; what the sockets report to the I/O thread are arguments of its turns.
--   Zmq/Responder is zmq_rpc_responder.cpp, whose loop reads a list of what the socket reports.
--   Zmq/Streams has zmq_stream_writer.cpp and zmq_stream_reader.cpp.
-- Webrtc: src/transport/webrtc. Webrtc/Requester and Webrtc/Responder are webrtc_rpc_requester.cpp and
--   webrtc_rpc_responder.cpp. Webrtc/Routing and Webrtc/Group are parts of webrtc_connection.cpp: the
--   dispatch of a message of the data or media channel to the callbacks of one peer, and the peers
--   of a group, with the peer that each request came from. Webrtc/Callbacks has the ten operations
--   that add and remove callbacks, and the copies that a group gives its peers. Webrtc/Streams is
--   webrtc_stream_writer.cpp and webrtc_stream_reader.cpp. Webrtc/Negotiation is the negotiation of
--   one peer, also of webrtc_connection.cpp: the signals that it handles and the events of
--   libdatachannel are steps, the calls of libdatachannel and the signals that it sends are lists,
--   and whether setRemoteDescription takes a description is the parameter `accepts`;
--   createDataChannel and setLocalDescription are taken to return. Below it, Candidates is about
--   remote ICE candidates, Offers about the role of a peer, and Signals about two peers that hear
--   each other. Webrtc/HttpSignaler is webrtc_http_signaler.cpp: the calls of its users and the
--   turns of its two threads are steps, and what a request over libcurl brings is an argument of
--   the step that makes it. A turn stands where its request ends. Ids and Urls have the names of
--   peers in URLs.
-- Zconf: src/discovery/zconf_discovery.cpp, texts as lists of bytes. Zconf/Text has the helpers on
--   names, Zconf/Records the handling of a record and the tables it fills, Zconf/Lookup the lists of
--   nodes and resolve_node, Zconf/Advertise the records of announcements, goodbyes and answers,
--   Zconf/Queries the follow-up queries, Zconf/Interfaces the sockets, and Zconf/Worker start,
--   close, the calls and the turns of the worker thread. mdns.h, the sockets, getifaddrs, inet_pton
--   and inet_ntop are parameters; Zconf/Wire states what mdns.h is relied on for, that it delivers
--   the records of a message whose names, strings and size fit its limits. The branches for
--   Windows are left out.
-- Examples: tests, and each theorem at a concrete input.
--
-- Not modelled: of WebRTC media tracks, the waits of connect and of its hello loop,
-- scheduleReconnect, which only a connection without a group calls, the signalers over ZeroMQ and
-- MQTT, and the headers that the HTTP signaler sends and reads; the nodes that process streams; the
-- logger; and the vendored json.hpp and mdns.h. Locks are taken to do what they are for: what runs
-- under one is one step. The text of a timeout leaves out its seconds.
pub mod Examples
pub mod Frame
pub mod Mqtt
pub mod Node
pub mod Prelude
pub mod Rpc
pub mod Schema
pub mod Serializer
pub mod Stream
pub mod Value
pub mod Webrtc
pub mod Zconf
pub mod Zmq
