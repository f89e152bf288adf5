-- ===== src/Zmq/Streams.antt =====
-- Frames over ZeroMQ: src/transport/zmq/zmq_stream_writer.cpp and zmq_stream_reader.cpp. A message on
-- the wire has two parts, the topic and the payload. What the sockets report are arguments; the
-- serializer is one.

use magpie_cpp.Prelude.Map
use magpie_cpp.Prelude.{
  ◌≡◌, ◌<>◌, not, ◌||◌, if◌then◌else◌, ◌==◌, Option, ℕ, ◌∷◌, String, Bool, List, true, some, refl,
  none, false, [],
}
use magpie_cpp.Value.{Value, empty, dict}
use magpie_cpp.Prelude.Result.{Result, timeout_error, throw, std_error, plain_timeout, ok}
use magpie_cpp.Frame.Body.{class_name, FrameObject, Doubles, to_dict}
use magpie_cpp.Frame.Registry.{factory_of, from_dict, Registry}
use magpie_cpp.Frame.{Fresh}
use magpie_cpp.Frame.Registry.RoundTrip.{from_dict-to_dict, IsValid}

-- The filters that the constructor of the reader subscribes to: all topics, or those that it is given.
unfoldable pub has_empty : List String → Bool
has_empty [] = false
has_empty (t ∷ ts) = t == "" || has_empty ts

unfoldable pub subscribed_filters : List String → List String
unfolding has_empty
subscribed_filters [] = "" ∷ []
subscribed_filters (t ∷ ts) = if has_empty (t ∷ ts) then "" ∷ [] else t ∷ ts

-- The two calls of zmq_msg_send, of which the flags say whether they fail.
unfoldable pub send_parts : Bool → Bool → String → Result (List ℕ) → List (String × List ℕ)
send_parts topic_fails payload_fails topic (throw e) = []
send_parts topic_fails payload_fails topic (ok bytes) =
    if topic_fails then [] else if payload_fails then [] else (topic, bytes) ∷ []

-- ZmqStreamWriter::transportWrite: the messages that are complete; every exception is only logged.
unfoldable pub zmq_write :
    Bool → (Value → Result (List ℕ)) → Bool → Bool → FrameObject → String → List (String × List ℕ)
unfolding send_parts to_dict
zmq_write has_socket serialize topic_fails payload_fails f topic =
    if not has_socket
    then []
    else send_parts topic_fails payload_fails topic (serialize (dict (to_dict f empty)))

-- What a pass of the reader's loop meets, behind the test of the deadline.
pub data SubTurn : Type 0 where
  sub_deadline sub_poll_error sub_nothing topic_error part_error : SubTurn
  two_parts : String → List ℕ → SubTurn

unfoldable pub with_name : String → Option FrameObject → Option (FrameObject × String)
with_name topic none = none
with_name topic (some f) = some (f, topic)

module _ (doubles : Doubles) (registry : Registry) (fresh : Fresh) where
  unfoldable pub zmq_frame : String → Result Value → Result (Option (FrameObject × String))
  unfolding from_dict with_name
  zmq_frame topic (ok (dict d)) = ok (with_name topic (from_dict doubles registry fresh d))
  zmq_frame topic (ok v) = ok none
  zmq_frame topic (throw e) = throw e

  -- The loop of transportReadBlocking: `none` waits on, and `some (ok none)` is its `false`.
  unfoldable pub zmq_read_loop :
      String
      → (List ℕ → Result Value)
      → List SubTurn
      → Option (Result (Option (FrameObject × String)))
  unfolding zmq_frame
  zmq_read_loop name deserialize [] = none
  zmq_read_loop name deserialize (sub_deadline ∷ rest) =
      some (throw (timeout_error plain_timeout (name <> ": no data received")))
  zmq_read_loop name deserialize (sub_poll_error ∷ rest) =
      some (throw (std_error (name <> ": zmq_poll failed")))
  zmq_read_loop name deserialize (sub_nothing ∷ rest) = zmq_read_loop name deserialize rest
  zmq_read_loop name deserialize (topic_error ∷ rest) = zmq_read_loop name deserialize rest
  zmq_read_loop name deserialize (part_error ∷ rest) = zmq_read_loop name deserialize rest
  zmq_read_loop name deserialize (two_parts topic bytes ∷ rest) =
      some (zmq_frame topic (deserialize bytes))

  -- ZmqStreamReader::transportReadBlocking
  unfoldable pub zmq_read :
      Bool
      → String
      → (List ℕ → Result Value)
      → List SubTurn
      → Option (Result (Option (FrameObject × String)))
  unfolding zmq_read_loop
  zmq_read has_socket name deserialize arrivals =
      if not has_socket then some (ok none) else zmq_read_loop name deserialize arrivals

-- What a subscriber gets of the messages that a writer sent.
unfoldable pub as_turns : List (String × List ℕ) → List SubTurn
as_turns [] = []
as_turns ((topic, bytes) ∷ sent) = two_parts topic bytes ∷ as_turns sent

-- A valid frame of a registered class whose two parts are sent is read back with its topic by a reader
-- that gets them; where a part is not sent, nothing reaches the reader, which waits on.
pub zmq_read-zmq_write :
    (serialize : Value → Result (List ℕ)) (deserialize : List ℕ → Result Value) (doubles : Doubles)
    (registry : Registry) (fresh : Fresh) (f : FrameObject) (topic name : String) (bytes : List ℕ)
    (topic_fails payload_fails : Bool)
    → IsValid f
    → Map.find (class_name f.body) registry ≡ some (factory_of f.body)
    → serialize (dict (to_dict f empty)) ≡ ok bytes
    → deserialize bytes ≡ ok (dict (to_dict f empty))
    → zmq_read doubles registry fresh true name deserialize
        (as_turns (zmq_write true serialize topic_fails payload_fails f topic))
      ≡ (if topic_fails || payload_fails then none else some (ok (some (f, topic))))
unfolding zmq_read zmq_read_loop zmq_frame with_name as_turns zmq_write send_parts
zmq_read-zmq_write serialize deserialize doubles registry fresh f topic name bytes true
      payload_fails valid known sent received =
    simp sent refl
zmq_read-zmq_write serialize deserialize doubles registry fresh f topic name bytes false true valid
      known sent received =
    simp sent refl
zmq_read-zmq_write serialize deserialize doubles registry fresh f topic name bytes false false valid
      known sent received =
    simp (sent, received, from_dict-to_dict doubles registry fresh f empty valid known) refl
