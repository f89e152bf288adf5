-- ===== src/Zmq/Requester/Waits.antt =====
-- The waits of the two requesters: src/transport/zmq/zmq_rpc_requester.cpp and
-- src/transport/mqtt/mqtt_rpc_requester.cpp.
use magpie_cpp.Zmq.Requester.{zmq_reply_wait, zmq_ack_wait}
use magpie_cpp.Mqtt.Requester.{PendingCall, after_reply_wait, after_ack_wait}
use magpie_cpp.Prelude.{arith, ◌≡◌, Bool, String}

-- Though it tests the deadline, the error and the flags in another order, a ZeroMQ call leaves its
-- waits, or waits on, exactly as an MQTT call does.
pub zmq_waits-eq :
    (name : String) (expired : Bool) (p : PendingCall)
    → (zmq_ack_wait name expired p ≡ after_ack_wait name expired p)
      × (zmq_reply_wait name expired p ≡ after_reply_wait name expired p)
unfolding zmq_ack_wait after_ack_wait zmq_reply_wait after_reply_wait
zmq_waits-eq name expired p = (ground arith, ground arith)
