-- ===== src/Examples/Zmq.antt =====
-- Calls over ZeroMQ at concrete inputs.
use magpie_cpp.Prelude.Map
use magpie_cpp.Value
use magpie_cpp.Prelude.{ℕ, ◌+◌, text_ltb, ◌∷◌, ◌≡◌, List, true, some, refl, none, false, []}
use magpie_cpp.Zmq.Responder.{
  RouterTurn, identity_error, router_ack, with_identity, socket_receive, rid_and_payload,
  valid_request, router_acknowledge, router_request, router_woken, router_recv, nothing_readable,
  frames,
}
use magpie_cpp.Prelude.Bytes.{same_bytes}
use magpie_cpp.Prelude.Result.{Result, throw, std_error, ok}
use magpie_cpp.Zmq.Requester.{
  nothing_arrived, arrived, zmq_envelope, fail_all_pending, end_loop, take_message, take_control,
  io_turn, pull, bring_forward, io_loop, send_to_io, request_close, ZmqRequester, polled,
}
use magpie_cpp.Value.{Value, string}
use magpie_cpp.Mqtt.Requester.{new_pending, waiting_reply}
use magpie_cpp.Stream.{emplace_back}
use magpie_cpp.Mqtt.Requester.Close.{IsFinished}
use magpie_cpp.Zmq.Requester.Order.{
  io_run-Kept, count, handed_over, io_step, io_run, IoEvent, io_turns, hands_over,
}
use magpie_cpp.Zmq.Requester.Ends.{io_turn-IsFinished, zmq_wake_twice}

abbrev fresh_requester : ZmqRequester
fresh_requester = record {
  table = record { name = "req"; closing = false; calls = [] };
  control = [];
  forwarded = [];
  looping = true;
}

-- The third message that was handed over is taken first, and the second got lost on its way.
abbrev three_requests : List IoEvent
three_requests =
    io_turns (polled 1 false (arrived (throw (std_error "bad bytes"))))
    ∷ hands_over true (3 ∷ [])
    ∷ hands_over false (2 ∷ [])
    ∷ hands_over true (1 ∷ 2 ∷ [])
    ∷ []

first_forwarded : (io_run fresh_requester three_requests).forwarded ≡ ((3 ∷ []) ∷ [])
unfolding io_run io_step send_to_io io_loop io_turn pull bring_forward take_control same_bytes
    take_message emplace_back
first_forwarded = refl

io_run-Kept_example :
    count (same_bytes (3 ∷ [])) (handed_over three_requests)
    ≡ count (same_bytes (3 ∷ [])) (io_run fresh_requester three_requests).forwarded
      + count (same_bytes (3 ∷ [])) (io_run fresh_requester three_requests).control
unfolding io_run io_step send_to_io io_loop io_turn pull bring_forward take_control same_bytes
    take_message emplace_back
io_run-Kept_example =
    io_run-Kept (same_bytes (3 ∷ [])) fresh_requester three_requests refl refl refl

-- A call waits while the requester closes.
abbrev closing_requester : ZmqRequester
closing_requester = request_close true (record {
  table = record { name = "req"; closing = false; calls = ("r1", new_pending) ∷ [] };
  control = [];
  forwarded = [];
  looping = true;
})

io_turn-IsFinished_example :
    IsFinished
      (zmq_wake_twice "r1"
        (waiting_reply, (io_turn (polled 0 false nothing_arrived) closing_requester).table)).0
unfolding Map.find request_close send_to_io emplace_back io_turn pull take_control same_bytes
    end_loop fail_all_pending
io_turn-IsFinished_example =
    io_turn-IsFinished (polled 0 false nothing_arrived) "r1" waiting_reply closing_requester
      new_pending refl refl refl refl

-- A responder takes the request of an envelope behind a turn that found nothing; the deserializer gives
-- back an envelope for any bytes.
router_takes :
    router_recv
      (λ b. ok (zmq_envelope "r1" (string "hi")))
      none
      (nothing_readable ∷ frames (7 ∷ []) (1 ∷ []) (1 ∷ []) ∷ [])
      (record { name = "rep"; socket = true })
    ≡ some (record {
      outcome = ok (string "hi", record { identity = 7 ∷ []; rid = "r1" });
      sent = (7 ∷ [], router_ack "r1") ∷ [];
    })
unfolding router_recv router_woken router_request router_acknowledge valid_request rid_and_payload
    socket_receive with_identity zmq_envelope Value.set Value.find text_ltb
router_takes = refl

abbrev one_bad_pass : List RouterTurn
one_bad_pass = nothing_readable ∷ identity_error false ∷ []

abbrev envelope_again : List ℕ → Result Value
envelope_again bytes = ok (zmq_envelope "r1" (string "hi"))
